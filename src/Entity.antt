-- ===== src/Entity.antt =====
-- `Entity` and `PlayerEntity` (src/NECROWorld/Server/Simulation/Entities/Entity.h, Entity.cpp,
-- PlayerEntity.h, PlayerEntity.cpp), and the grid rules of src/shared/World/GameRules.h and
-- src/shared/Utility/Utility.h. A float is its bit pattern, a number; the parameter `Fpu` is what the
-- code computes with floats. A pointer to a cell is the cell's index in the zone's `m_cellMap`, and
-- a pointer to a zone is the zone's id.
pub mod Corrections
use necro_mmo.Common.{
  ℕ, ◌+◌, ◌*◌, ◌%◌, ◌^◌, ◌<◌, ◌≡◌, Bool, true, false, ◌&&◌, ◌||◌, not, Option, none, some, List, [],
  ◌∷◌, ◌++◌, ltb, if◌then◌else◌,
}
use necro_mmo.Common.Int.{ℤ, pos, negsuc, eq_ℤ}
use necro_mmo.Packet.{Packet, Field, u8, u16, u32, float_field, write_fields, empty}
use necro_mmo.Queue.{try_enqueue}

abbrev pub cell_width : ℕ
cell_width = 64

abbrev pub cell_height : ℕ
cell_height = 32

abbrev pub half_cell_width : ℕ
half_cell_width = 32

abbrev pub half_cell_height : ℕ
half_cell_height = 16

abbrev pub layer_z_coefficient : ℕ
layer_z_coefficient = 100

abbrev pub iso_directions_n : ℕ
iso_directions_n = 8

-- The float operations of the code, on bit patterns.
pub record Fpu : Type 0 where
  -- `static_cast<int>(std::floor(x / w))`.
  pub floor_div : ℕ → ℕ → ℤ
  -- `static_cast<float>(g * w + h)`, for integers.
  pub of_grid : ℤ → ℕ → ℕ → ℕ
  -- `std::isfinite`.
  pub is_finite : ℕ → Bool
  -- `std::abs(x - y) > PLAYER_MOVEMENT_XY_MAX_DIFF_ALLOWED`.
  pub too_far : ℕ → ℕ → Bool
  -- The bit patterns of 0.0f and 100.01f.
  pub zero_bits : ℕ
  pub spawn_height_bits : ℕ
  -- An integer below 2 ^ 24 is a float exactly, so a point inside a cell lies in that cell.
  pub floor_div-of_grid :
      (g w h : ℕ) → h < w → g * w + h < 2 ^ 24 → floor_div (of_grid (pos g) w h) w ≡ pos g

pub data EntityType : Type 0 where
  null_type player_entity ai_entity : EntityType

-- The fields of `Entity`, and those of `PlayerEntity` where the type is that; the queue is the one
-- that the entity shares with its session.
-- The fields of `CharacterData` that the simulation reads.
pub record CharacterData : Type 0 where
  pub id : ℕ
  pub level : ℕ
  pub xp : ℕ
  pub zone : ℕ
  pub pos_x : ℕ
  pub pos_y : ℕ
  pub pos_z : ℕ

pub record Entity : Type 0 where
  pub guid : ℕ
  pub kind : EntityType
  pub is_active : Bool
  pub current_zone : Option ℕ
  pub current_cell : Option ℕ
  pub cur_grid_pos_x : ℤ
  pub cur_grid_pos_y : ℤ
  pub cur_z_layer : ℤ
  pub pos_x : ℕ
  pub pos_y : ℕ
  pub pos_z : ℕ
  pub iso_direction : ℕ
  pub char_id : ℕ
  pub level : ℕ
  pub xp : ℕ
  pub zone : ℕ
  pub last_correction_id : ℕ
  pub packet_queue : List Packet

-- `EntityTransferCtx`.
pub record Transfer : Type 0 where
  pub guid : ℕ
  pub new_grid_pos_x : ℤ
  pub new_grid_pos_y : ℤ

module _ (fpu : Fpu) where
  abbrev pub world_to_cell : ℕ → ℕ → ℤ × ℤ
  world_to_cell x y = (fpu.floor_div x cell_width, fpu.floor_div y cell_height)

-- `Utility::CellBoundCheck`.
abbrev pub cell_bound_check : ℤ → ℤ → ℕ → ℕ → Bool
cell_bound_check (pos x) (pos y) max_x max_y = ltb x max_x && ltb y max_y
cell_bound_check _ _ max_x max_y = false

-- `PlayerEntity(guid, charData, queue)`, through the base constructor.
unfoldable pub make_player : Fpu → ℕ → CharacterData → List Packet → Entity
make_player fpu guid c queue = record {
  guid = guid;
  kind = player_entity;
  is_active = true;
  current_zone = none;
  current_cell = none;
  cur_grid_pos_x = pos 0;
  cur_grid_pos_y = pos 0;
  cur_z_layer = pos 0;
  pos_x = c.pos_x;
  pos_y = c.pos_y;
  pos_z = c.pos_z;
  iso_direction = 0;
  char_id = c.id;
  level = c.level;
  xp = c.xp;
  zone = c.zone;
  last_correction_id = 0;
  packet_queue = queue;
}

-- `Entity::Update`, and `PlayerEntity::Update`, which only calls it: the entity, and the transfer that
-- it asks its zone for. The layer is that of the position; the grid position waits for the zone.
unfoldable pub update : Fpu → Entity → Entity × Option Transfer
update fpu e =
    let (x, y) = world_to_cell fpu e.pos_x e.pos_y in
    let moved = record e { cur_z_layer = fpu.floor_div e.pos_z layer_z_coefficient } in
    if not (eq_ℤ e.cur_grid_pos_x x) || not (eq_ℤ e.cur_grid_pos_y y)
    then (moved, some (record { guid = e.guid; new_grid_pos_x = x; new_grid_pos_y = y }))
    else (record moved { cur_grid_pos_x = x; cur_grid_pos_y = y }, none)

-- `SetCurrentCellPtr` with a cell: its index and its coordinates.
unfoldable pub set_current_cell : ℕ → ℤ → ℤ → Entity → Entity
set_current_cell i x y e = record e {
  current_cell = some i;
  cur_grid_pos_x = x;
  cur_grid_pos_y = y;
}

-- `SetCurrentZonePtr` with a zone.
unfoldable pub set_current_zone : ℕ → Entity → Entity
set_current_zone z e = record e { current_zone = some z }

abbrev player_movement_correction : ℕ
player_movement_correction = 7

-- The fields of a `CPacketPlayerMovementCorrection`.
pub correction_fields : ℕ → ℕ → Entity → List Field
correction_fields correction_id rejected_seq e =
    u16 player_movement_correction
    ∷ u32 correction_id
    ∷ u32 rejected_seq
    ∷ float_field e.pos_x
    ∷ float_field e.pos_y
    ∷ float_field e.pos_z
    ∷ u8 e.iso_direction
    ∷ []

-- `PlayerEntity::SendMovementCorrection`: the epoch moves on only if the packet is queued.
unfoldable pub send_movement_correction : ℕ → Entity → Option (Entity × Bool)
unfolding correction_fields
send_movement_correction rejected_seq e =
    let next_id = (e.last_correction_id + 1) % 2 ^ 32 in
    elim (write_fields (correction_fields next_id rejected_seq e) empty) [
      | none ↦ none
      | some p ↦
          let (queue, taken) = try_enqueue p e.packet_queue in
          some (
            if taken
            then (record e { packet_queue = queue; last_correction_id = next_id }, true)
            else (e, false))
    ]

-- `OnCellTransferFails`: a player's client is told where it was put.
on_cell_transfer_fails_of : EntityType → Entity → Option Entity
on_cell_transfer_fails_of player_entity e = elim (send_movement_correction 0 e) [
  | none ↦ none
  | some (e', _) ↦ some e'
]
on_cell_transfer_fails_of null_type e = some e
on_cell_transfer_fails_of ai_entity e = some e

unfoldable pub on_cell_transfer_fails : Entity → Option Entity
unfolding on_cell_transfer_fails_of
on_cell_transfer_fails e = on_cell_transfer_fails_of e.kind e

-- Back to the middle of the cell in which the entity stands.
unfoldable pub snap_back : Fpu → Entity → Entity
snap_back fpu e = record e {
  pos_x = fpu.of_grid e.cur_grid_pos_x cell_width half_cell_width;
  pos_y = fpu.of_grid e.cur_grid_pos_y cell_height half_cell_height;
}
