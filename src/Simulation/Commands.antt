-- ===== src/Simulation/Commands.antt =====
-- The commands of the sessions, and the simulation's loop
-- (src/NECROWorld/Server/Simulation/WorldCmds/PlayerWorldCmds.cpp, WorldSimulation.cpp).
use necro_mmo.Common.{
  ℕ, ◌/◌, Bool, true, false, not, ◌||◌, Option, none, some, List, [], ◌∷◌, ◌++◌, ◌==◌, leb,
  if◌then◌else◌,
}
use necro_mmo.Common.Dict.{lookup}
use necro_mmo.Common.Int.{pos}
use necro_mmo.Packet.{Packet}
use necro_mmo.Entity.{
  Fpu, Entity, make_player, world_to_cell, cell_bound_check, cell_width, cell_height,
  iso_directions_n, send_movement_correction,
}
use necro_mmo.Zone.{Zone, store_entity}
use necro_mmo.Zone.Moves.{add_entity_to_zone, remove_entity_from_zone}
use necro_mmo.Simulation.{
  Simulation, CharacterData, Movement, Pointer, take_guid, register_player, unregister_player,
  find_zone, find_player, put_zone, target,
}

-- `PlayerSpawnCmdResult`.
pub record SpawnResult : Type 0 where
  pub success : Bool
  pub guid : ℕ
  pub zone_id : ℕ
  pub pos_x : ℕ
  pub pos_y : ℕ
  pub pos_z : ℕ

unfoldable pub no_result : Fpu → SpawnResult
no_result fpu = record {
  success = false;
  guid = 0;
  zone_id = 0;
  pos_x = fpu.zero_bits;
  pos_y = fpu.zero_bits;
  pos_z = fpu.zero_bits;
}

-- A position outside the zone is replaced by the middle of the map.
unfoldable pub repositioned : Fpu → CharacterData → Zone → CharacterData
repositioned fpu c z =
    let (x, y) = world_to_cell fpu c.pos_x c.pos_y in
    if not (cell_bound_check x y z.width z.height)
    then record c {
      pos_x = fpu.of_grid (pos (z.width / 2)) cell_width 0;
      pos_y = fpu.of_grid (pos (z.height / 2)) cell_height 0;
      pos_z = fpu.spawn_height_bits;
    }
    else c

-- With the entity in its zone: register it, or undo the spawn.
unfoldable pub finish_spawn : ℕ → ℕ → Entity → Zone → Simulation → Option (Simulation × SpawnResult)
finish_spawn char_id id e z s =
    let result : SpawnResult = record {
      success = true;
      guid = e.guid;
      zone_id = z.zone_id;
      pos_x = e.pos_x;
      pos_y = e.pos_y;
      pos_z = e.pos_z;
    } in
    let (s', registered) =
      register_player e.guid char_id (record { in_zone = id; guid = e.guid }) s in
    if registered then some (s', result) else elim (remove_entity_from_zone e.guid z) [
      | none ↦ none
      | some (z', _) ↦ some (put_zone id z' s', record result { success = false })
    ]

-- What `AddEntityToZone` has given.
unfoldable pub after_add :
    Fpu → ℕ → ℕ → ℕ → Option (Zone × Bool) → Simulation → Option (Simulation × SpawnResult)
unfolding finish_spawn no_result
after_add fpu char_id id guid none s = none
after_add fpu char_id id guid (some (z, false)) s = some (put_zone id z s, no_result fpu)
after_add fpu char_id id guid (some (z, true)) s = elim (lookup guid z.entities) [
  | none ↦ none
  | some e ↦ finish_spawn char_id id e z (put_zone id z s)
]

-- `WorldCmd_TryToSpawnPlayerCharacter`.
unfoldable pub try_to_spawn :
    Fpu → CharacterData → List Packet → Simulation → Option (Simulation × SpawnResult)
unfolding after_add no_result
try_to_spawn fpu c queue s = elim (find_zone c.zone s) [
  | none ↦ some (s, no_result fpu)
  | some z ↦
      let d = repositioned fpu c z in
      let (guid, s') = take_guid s in
      after_add fpu d.id c.zone guid (add_entity_to_zone fpu (make_player fpu guid d queue) z) s'
]

-- The zone pointer of the player that has been unregistered.
unfoldable pub leave_zone : Option ℕ → ℕ → Simulation → Option (Simulation × Bool)
leave_zone none guid s = some (s, false)
leave_zone (some id) guid s = elim (lookup id s.zones) [
  | none ↦ none
  | some z ↦ elim (remove_entity_from_zone guid z) [
    | none ↦ none
    | some (z', _) ↦ some (put_zone id z' s, true)
  ]
]

unfoldable pub despawn_entity : ℕ → Entity → Simulation → Option (Simulation × Bool)
unfolding leave_zone
despawn_entity guid e s =
    let (s', done) = unregister_player e.guid e.char_id s in
    if done then leave_zone e.current_zone guid s' else some (s', false)

-- `WorldCmd_TryToDespawnPlayerCharacter`: the Boolean is the result's `success`.
unfoldable pub try_to_despawn : ℕ → Simulation → Option (Simulation × Bool)
unfolding despawn_entity
try_to_despawn guid s = elim (find_player guid s) [
  | none ↦ some (s, false)
  | some p ↦ elim (target p s) [ none ↦ none | some e ↦ despawn_entity guid e s ]
]

-- `SavePlayerOnDatabase`.
unfoldable pub save_player : ℕ → Simulation → Option (Simulation × Bool)
save_player guid s = elim (find_player guid s) [
  | none ↦ some (s, false)
  | some p ↦ elim (target p s) [
    | none ↦ none
    | some e ↦ some (
      record s {
        saved =
            s.saved
            ++ record {
              level = e.level;
              xp = e.xp;
              zone = e.zone;
              pos_x = e.pos_x;
              pos_y = e.pos_y;
              pos_z = e.pos_z;
              char_id = e.char_id;
            }
              ∷ [];
      },
      true,
    )
  ]
]

-- What the server refuses to believe.
abbrev pub is_refused : Fpu → Movement → Entity → Bool
is_refused fpu m e =
    not (fpu.is_finite m.pos_x)
    || (not (fpu.is_finite m.pos_y)
        || (not (fpu.is_finite m.pos_z)
            || (leb iso_directions_n m.iso_direction
                || (fpu.too_far m.pos_x e.pos_x || fpu.too_far m.pos_y e.pos_y))))

-- The entity after a movement packet.
unfoldable pub moved : Fpu → Movement → Entity → Option Entity
moved fpu m e =
    if not (m.acked_correction_id == e.last_correction_id)
    then some e
    else if is_refused fpu m e
    then elim (send_movement_correction m.seq e) [ none ↦ none | some (e', _) ↦ some e' ]
    else some (record e {
      pos_x = m.pos_x;
      pos_y = m.pos_y;
      pos_z = m.pos_z;
      iso_direction = m.iso_direction;
    })

-- A write through a player pointer.
unfoldable pub write_target : Pointer → (Entity → Option Entity) → Simulation → Option Simulation
write_target p f s = elim (lookup p.in_zone s.zones) [
  | none ↦ none
  | some z ↦ elim (lookup p.guid z.entities) [
    | none ↦ none
    | some e ↦ elim (f e) [
      | none ↦ none
      | some e' ↦ some (put_zone p.in_zone (store_entity p.guid e' z) s)
    ]
  ]
]

-- `WorldCmd_TryToUpdatePlayerMovement`.
unfoldable pub try_to_move : Fpu → ℕ → Movement → Simulation → Option Simulation
unfolding write_target
try_to_move fpu guid m s = elim (find_player guid s) [
  | none ↦ some s
  | some p ↦ write_target p (moved fpu m) s
]
