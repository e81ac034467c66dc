-- ===== src/Simulation/Spawning/Success.antt =====
-- When `WorldCmd_TryToSpawnPlayerCharacter`
-- (src/NECROWorld/Server/Simulation/WorldCmds/PlayerWorldCmds.cpp) succeeds.
use necro_mmo.Common.{
  ℕ, ◌+◌, ◌*◌, ◌/◌, ◌%◌, ◌^◌, ◌≡◌, refl, ap, ◌∙◌, none, some, arith, Bool-cases, Option-cases, inl,
  inr, List, true, ◌<◌, not,
}
use necro_mmo.Common.Dict.{lookup, insert}
use necro_mmo.Packet.{Packet}
use necro_mmo.Entity.{
  set_current_cell, set_current_zone, Fpu, Entity, make_player, world_to_cell, cell_bound_check,
}
use necro_mmo.Zone.{Zone}
use necro_mmo.Zone.Moves.{add_entity_to_zone, place_checked, place_at, place}
use necro_mmo.Zone.Placement as Placement
use necro_mmo.Zone.Safety.{cell_at}
use necro_mmo.Simulation.{Simulation, CharacterData, register_player}
use necro_mmo.Simulation.Registry.{lookup-insert_self}
use necro_mmo.Simulation.Invariant.{IsValid, owner, owner_in}
use necro_mmo.Simulation.Spawning.{outcome}
use necro_mmo.Simulation.Spawning.Arrival.{repositioned_id}
use necro_mmo.Simulation.Commands.{
  no_result, SpawnResult, try_to_spawn, after_add, finish_spawn, repositioned,
}

-- A map that has a cell, and whose coordinates are floats exactly.
abbrev pub IsMap : Zone → Type 0
IsMap z = (0 < z.width) × (0 < z.height) × (z.width * 64 < 2 ^ 24) × (z.height * 32 < 2 ^ 24)

-- Wherever the database says that the character is, it lands inside the map.
repositioned-inside :
    (fpu : Fpu) (c : CharacterData) (z : Zone)
    → IsMap z
    → let d = repositioned fpu c z in
      let (x, y) = world_to_cell fpu d.pos_x d.pos_y in cell_bound_check x y z.width z.height ≡ true
unfolding repositioned
repositioned-inside fpu c z (w, h, wide, high) =
    let (x, y) = world_to_cell fpu c.pos_x c.pos_y in
    elim (Bool-cases (not (cell_bound_check x y z.width z.height))) [
      | inr inside ↦ rw inside (ground arith)
      | inl outside ↦
          rw
            (
              outside,
              fpu.floor_div-of_grid (z.width / 2) 64 0 (omega arith) (omega (arith, wide)),
              fpu.floor_div-of_grid (z.height / 2) 32 0 (omega arith) (omega (arith, high)),
            )
            (ground arith)
    ]

-- A guid that has not been given out is in no zone.
new_in_zone :
    (s : Simulation) (id : ℕ) (z : Zone)
    → IsValid s
    → lookup id s.zones ≡ some z
    → lookup s.next_guid z.entities ≡ none
new_in_zone s id z h known = elim (Option-cases (lookup s.next_guid z.entities)) [
  | inl none_there ↦ none_there
  | inr (e, there) ↦
      let old =
        h.agree.fresh id s.next_guid e.char_id
          (ap (λ o. owner_in o s.next_guid) known ∙ ap owner there) in
      ground (arith, old)
]

-- A new entity at a position inside the map is taken, and is then found.
new-taken :
    (fpu : Fpu) (e : Entity) (z : Zone)
    → Placement.IsValid z
    → lookup e.guid z.entities ≡ none
    → (let (x, y) = world_to_cell fpu e.pos_x e.pos_y in
        cell_bound_check x y z.width z.height ≡ true)
    → (z' : Zone) × (f : Entity) × (add_entity_to_zone fpu e z ≡ some (z', true))
      × (lookup e.guid z'.entities ≡ some f)
unfolding add_entity_to_zone place_checked place_at
new-taken fpu e z v new inside =
    let (x, y) = world_to_cell fpu e.pos_x e.pos_y in
    let (i, c, ei, found, _, _) = cell_at z x y v inside in
    let f = set_current_cell i c.cell_x c.cell_y (set_current_zone z.zone_id e) in
    (
      place i c e z,
      f,
      rw (new, add_entity_to_zone, inside, ei, found, place_at),
      lookup-insert_self e.guid f z.entities,
    )

-- A free character whose entity has been taken is registered.
registered-success :
    (fpu : Fpu) (char_id id n : ℕ) (z : Zone) (f : Entity) (s : Simulation)
    → lookup n z.entities ≡ some f
    → lookup char_id s.char_id_to_guid ≡ none
    → (s' : Simulation) × (r : SpawnResult) × (after_add fpu char_id id n (some (z, true)) s
        ≡ some (s', r))
      × (r.success ≡ true)
unfolding after_add finish_spawn register_player
registered-success fpu char_id id n z f s there free = (
  record s {
    zones = insert id z s.zones;
    players = insert f.guid (record { in_zone = id; guid = f.guid }) s.players;
    char_id_to_guid = insert char_id f.guid s.char_id_to_guid;
  },
  outcome true f z,
  rw (there, after_add) (rw (free, finish_spawn, register_player)),
  refl,
)

-- On a valid simulation, while fewer than 2 ^ 64 - 1 guids have been given out, a character that is
-- not in the world comes into it, wherever the database says that it is, when its zone is loaded from a
-- map that has a cell and is less than 2 ^ 24 units of position wide and high: the spawn succeeds.
pub try_to_spawn-success :
    (fpu : Fpu) (c : CharacterData) (queue : List Packet) (s : Simulation) (z : Zone)
    → IsValid s
    → s.next_guid + 1 < 2 ^ 64
    → lookup c.zone s.zones ≡ some z
    → IsMap z
    → lookup c.id s.char_id_to_guid ≡ none
    → (s' : Simulation) × (r : SpawnResult) × (try_to_spawn fpu c queue s ≡ some (s', r))
      × (r.success ≡ true)
unfolding try_to_spawn no_result make_player
try_to_spawn-success fpu c queue s z h few known is_map free =
    let d = repositioned fpu c z in
    let n = s.next_guid in
    let e = make_player fpu n d queue in
    let next : Simulation = record s { next_guid = (n + 1) % 2 ^ 64 } in
    let (z', f, added, there) =
      new-taken fpu e z (h.zones_valid c.zone z known).0 (new_in_zone s c.zone z h known)
        (repositioned-inside fpu c z is_map) in
    let (s', r, done, success) =
      registered-success fpu d.id c.zone n z' f next there
        (ap (λ i. lookup i s.char_id_to_guid) (repositioned_id fpu c z) ∙ free) in
    (
      s',
      r,
      rw (known, try_to_spawn) (ap (λ o. after_add fpu d.id c.zone n o next) added ∙ done),
      success,
    )
