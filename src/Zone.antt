-- ===== src/Zone.antt =====
-- `Cell` and `Zone` (src/NECROWorld/Server/Simulation/Maps/Cell.h, Cell.cpp, Zone.h, Zone.cpp): a
-- loaded map, which owns its entities and lists them by cell. A cell's `Entity*` is the entity's
-- guid, under which the zone owns it. An operation returns `none` where it would follow a pointer that
-- is null or dangling, or index the cell map out of range. A map's measures are not negative.
pub mod Moves
pub mod Placement
pub mod Upkeep
pub mod Safety
pub mod Kept
pub mod Transfers
pub mod Ticks
pub mod Loading
use necro_mmo.Common.{
  ℕ, zero, suc, ◌+◌, ◌*◌, ◌≡◌, Bool, true, false, Option, none, some, List, [], ◌∷◌, ◌++◌, length,
  get_elem?, set, ◌==◌, if◌then◌else◌,
}
use necro_mmo.Common.Dict.{Dict, lookup, insert, erase}
use necro_mmo.Common.Int.{ℤ, pos, negsuc}
use necro_mmo.Entity.{
  Fpu, Entity, Transfer, world_to_cell, cell_bound_check, update, set_current_cell,
  set_current_zone, on_cell_transfer_fails, snap_back,
}

pub record Cell : Type 0 where
  pub cell_id : ℕ
  pub cell_x : ℤ
  pub cell_y : ℤ
  pub entities_here : List ℕ

unfoldable pub add_entity_here : ℕ → Cell → Cell
add_entity_here guid c = record c { entities_here = c.entities_here ++ guid ∷ [] }

-- The first entry with the guid goes.
abbrev pub erase_first : ℕ → List ℕ → List ℕ
erase_first guid [] = []
erase_first guid (x ∷ xs) = if x == guid then xs else x ∷ erase_first guid xs

unfoldable pub remove_entity_here : ℕ → Cell → Cell
remove_entity_here guid c = record c { entities_here = erase_first guid c.entities_here }

pub record Zone : Type 0 where
  pub zone_id : ℕ
  pub map_id : ℕ
  pub width : ℕ
  pub height : ℕ
  pub is_active : Bool
  pub entities : Dict Entity
  pub cell_map : List Cell
  pub waiting : List Transfer

unfoldable pub set_active : Bool → Zone → Zone
set_active v z = record z { is_active = v }

-- The two loops of `LoadZoneFromMap`: `left` rounds from `x`, and from `y`.
unfoldable pub load_row : ℕ → ℕ → ℕ → ℕ → List Cell
load_row zero x y id = []
load_row (suc left) x y id =
    record { cell_id = id; cell_x = pos x; cell_y = pos y; entities_here = [] }
    ∷ load_row left (x + 1) y (id + 1)

unfoldable pub load_rows : ℕ → ℕ → ℕ → ℕ → List Cell
unfolding load_row
load_rows zero width y id = []
load_rows (suc left) width y id = load_row width 0 y id ++ load_rows left width (y + 1) (id + width)

-- `Zone(mapID, zoneID)`, where the map's definition has been found.
unfoldable pub load : ℕ → ℕ → ℕ → ℕ → Zone
load zone_id map_id width height = record {
  zone_id = zone_id;
  map_id = map_id;
  width = width;
  height = height;
  is_active = true;
  entities = [];
  cell_map = load_rows height width 0 0;
  waiting = [];
}

-- `m_cellMap[i]`, changed in place.
abbrev pub modify_cell : ℕ → (Cell → Cell) → Zone → Option Zone
modify_cell i f z = elim (get_elem? z.cell_map i) [
  | none ↦ none
  | some c ↦ some (record z { cell_map = set z.cell_map i (f c) })
]

-- `m_cellMap[cellY * width + cellX]`.
abbrev pub cell_index : ℤ → ℤ → ℕ → Option ℕ
cell_index (pos x) (pos y) width = some (y * width + x)
cell_index _ _ width = none

unfoldable pub find_entity : ℕ → Zone → Option Entity
find_entity guid z = lookup guid z.entities

-- The writes through an `Entity*`.
abbrev pub store_entity : ℕ → Entity → Zone → Zone
store_entity guid e z = record z { entities = insert guid e z.entities }

unfoldable pub add_pending_entity_to_transfer : Transfer → Zone → Zone
add_pending_entity_to_transfer ctx z = record z { waiting = z.waiting ++ ctx ∷ [] }

-- The entity's own zone pointer takes the request; here it must be set.
unfoldable pub request_transfer : Option ℕ → Option Transfer → Zone → Option Zone
unfolding add_pending_entity_to_transfer
request_transfer _ none z = some z
request_transfer none (some ctx) z = none
request_transfer (some id) (some ctx) z = some (add_pending_entity_to_transfer ctx z)

unfoldable pub update_entity : Fpu → ℕ → Zone → Option Zone
unfolding request_transfer
update_entity fpu guid z = elim (lookup guid z.entities) [
  | none ↦ none
  | some e ↦
      let (e', ctx) = update fpu e in request_transfer e.current_zone ctx (store_entity guid e' z)
]

-- `Cell::Update`.
unfoldable pub update_here : Fpu → List ℕ → Zone → Option Zone
unfolding update_entity
update_here fpu [] z = some z
update_here fpu (guid ∷ guids) z = elim (update_entity fpu guid z) [
  | none ↦ none
  | some z' ↦ update_here fpu guids z'
]

unfoldable pub update_cell : Fpu → ℕ → Zone → Option Zone
unfolding update_here
update_cell fpu i z = elim (get_elem? z.cell_map i) [
  | none ↦ none
  | some c ↦ update_here fpu c.entities_here z
]

unfoldable pub update_row : Fpu → ℕ → ℕ → ℕ → Zone → Option Zone
unfolding update_cell
update_row fpu zero x y z = some z
update_row fpu (suc left) x y z = elim (update_cell fpu (y * z.width + x) z) [
  | none ↦ none
  | some z' ↦ update_row fpu left (x + 1) y z'
]

unfoldable pub update_rows : Fpu → ℕ → ℕ → Zone → Option Zone
unfolding update_row
update_rows fpu zero y z = some z
update_rows fpu (suc left) y z = elim (update_row fpu z.width 0 y z) [
  | none ↦ none
  | some z' ↦ update_rows fpu left (y + 1) z'
]
