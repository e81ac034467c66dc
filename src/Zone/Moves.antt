-- ===== src/Zone/Moves.antt =====
-- The operations of `Zone` that move entities between cells, and its whole update
-- (src/NECROWorld/Server/Simulation/Maps/Zone.cpp).
use necro_mmo.Common.{
  ℕ, Bool, true, false, Option, none, some, List, [], ◌∷◌, get_elem?, set, if◌then◌else◌,
}
use necro_mmo.Common.Dict.{lookup, erase}
use necro_mmo.Common.Int.{ℤ}
use necro_mmo.Entity.{
  Fpu, Entity, Transfer, world_to_cell, cell_bound_check, set_current_cell, set_current_zone,
  on_cell_transfer_fails, snap_back,
}
use necro_mmo.Zone.{
  Zone, Cell, add_entity_here, remove_entity_here, modify_cell, cell_index, store_entity,
  update_rows,
}

-- An entity that enters the cell `c`, at the index `i`: the cell lists it, its pointers are set, and
-- the zone owns it. `OnBeingAddedToZone` does nothing.
abbrev pub place : ℕ → Cell → Entity → Zone → Zone
place i c e z =
    store_entity e.guid (set_current_cell i c.cell_x c.cell_y (set_current_zone z.zone_id e))
      (record z { cell_map = set z.cell_map i (add_entity_here e.guid c) })

unfoldable pub place_at : Option ℕ → Entity → Zone → Option (Zone × Bool)
place_at none e z = none
place_at (some i) e z = elim (get_elem? z.cell_map i) [
  | none ↦ none
  | some c ↦ some (place i c e z, true)
]

unfoldable pub place_checked : ℤ × ℤ → Entity → Zone → Option (Zone × Bool)
unfolding place_at
place_checked (x, y) e z =
    if cell_bound_check x y z.width z.height
    then place_at (cell_index x y z.width) e z
    else some (z, false)

-- `AddEntityToZone`: the Boolean says that a pointer is returned, and not null. A guid that is known
-- and a position outside the map are refused, and the entity is destroyed.
unfoldable pub add_entity_to_zone : Fpu → Entity → Zone → Option (Zone × Bool)
unfolding place_checked
add_entity_to_zone fpu e z = elim (lookup e.guid z.entities) [
  | none ↦ place_checked (world_to_cell fpu e.pos_x e.pos_y) e z
  | some _ ↦ some (z, false)
]

-- `m_currentCell->RemoveEntityHere(guid)`.
abbrev pub leave_cell : Option ℕ → ℕ → Zone → Option Zone
leave_cell none guid z = none
leave_cell (some i) guid z = modify_cell i (remove_entity_here guid) z

-- `RemoveEntityFromZone`. `OnBeingRemovedFromZone` does nothing.
unfoldable pub remove_entity_from_zone : ℕ → Zone → Option (Zone × Bool)
remove_entity_from_zone guid z = elim (lookup guid z.entities) [
  | none ↦ some (z, false)
  | some e ↦ elim (leave_cell e.current_cell guid z) [
    | none ↦ none
    | some z' ↦ some (record z' { entities = erase guid z'.entities }, true)
  ]
]

-- The entity enters the wanted cell, as the zone stands after it has left the old one.
unfoldable pub enter_cell : ℕ → Entity → Zone → Option Zone
enter_cell j e z = elim (get_elem? z.cell_map j) [
  | none ↦ none
  | some c ↦ some (
      store_entity e.guid (set_current_cell j c.cell_x c.cell_y e)
        (record z { cell_map = set z.cell_map j (add_entity_here e.guid c) }))
]

unfoldable pub move_to : Option ℕ → Entity → Zone → Option Zone
unfolding enter_cell
move_to none e z = none
move_to (some j) e z = elim (leave_cell e.current_cell e.guid z) [
  | none ↦ none
  | some z' ↦ enter_cell j e z'
]

-- One request of `TransferPendingEntities`, for an entity that is still there.
unfoldable pub transfer_entity : Fpu → Transfer → Entity → Zone → Option Zone
unfolding move_to
transfer_entity fpu ctx e z =
    if cell_bound_check ctx.new_grid_pos_x ctx.new_grid_pos_y z.width z.height
    then move_to (cell_index ctx.new_grid_pos_x ctx.new_grid_pos_y z.width) e z
    else elim (on_cell_transfer_fails (snap_back fpu e)) [
      | none ↦ none
      | some e' ↦ some (store_entity ctx.guid e' z)
    ]

unfoldable pub transfer_one : Fpu → Transfer → Zone → Option Zone
unfolding transfer_entity
transfer_one fpu ctx z = elim (lookup ctx.guid z.entities) [
  | none ↦ some z
  | some e ↦ transfer_entity fpu ctx e z
]

unfoldable pub transfer_all : Fpu → List Transfer → Zone → Option Zone
unfolding transfer_one
transfer_all fpu [] z = some z
transfer_all fpu (ctx ∷ rest) z = elim (transfer_one fpu ctx z) [
  | none ↦ none
  | some z' ↦ transfer_all fpu rest z'
]

-- The requests stand in the zone while they are served, and are cleared at the end.
unfoldable pub transfer_pending_entities : Fpu → Zone → Option Zone
unfolding transfer_all
transfer_pending_entities fpu z = elim (transfer_all fpu z.waiting z) [
  | none ↦ none
  | some z' ↦ some (record z' { waiting = [] })
]

-- `Zone::Update`: every cell in turn, then the transfers.
unfoldable pub update_zone : Fpu → Zone → Option Zone
unfolding update_rows transfer_pending_entities
update_zone fpu z = elim (update_rows fpu z.height 0 z) [
  | none ↦ none
  | some z' ↦ transfer_pending_entities fpu z'
]
