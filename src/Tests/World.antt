-- ===== src/Tests/World.antt =====
-- The world server's theorems on a map of two by two cells, with one character.
use necro_mmo.Common.{
  ℕ, ◌+◌, ◌^◌, ◌≤◌, ◌<◌, ◌≡◌, ◌≢◌, ◌⊎◌, refl, Bool, true, false, Option, none, some, [], ◌∷◌, ◌++◌,
  length, ◌==◌, if◌then◌else◌, arith,
}
use necro_mmo.Common.Dict.{lookup}
use necro_mmo.Entity.{Entity, make_player, set_current_cell, set_current_zone, update}
use necro_mmo.Zone.{
  store_entity, load, load_row, load_rows, add_entity_here, request_transfer, update_entity,
  update_here, update_cell, update_row, update_rows, add_pending_entity_to_transfer,
}
use necro_mmo.Zone.Moves.{
  place_at, place_checked, add_entity_to_zone, transfer_pending_entities, transfer_all, update_zone,
}
use necro_mmo.Simulation.{
  Simulation, CharacterData, spawn_command, Movement, Pointer, initial, start, post_world_cmd,
  register_player, put_zone,
}
use necro_mmo.Simulation.Commands.{
  SpawnResult, try_to_despawn, try_to_move, save_player, try_to_spawn, repositioned, after_add,
  finish_spawn,
}
use necro_mmo.Simulation.Loop.{
  update_simulation, execute_world_cmds, run_commands, run_command, update_zones,
}
use necro_mmo.Simulation.Invariant.{IsValid, who_in}
use necro_mmo.Simulation.Reached.{Reached, started, posted, turned, reached-IsValid, one_body}
use necro_mmo.Simulation.Turns.{update_simulation-IsValid}
use necro_mmo.Simulation.Spawning.{Spawned}
use necro_mmo.Simulation.Spawning.Arrival.{try_to_spawn-Spawned}
use necro_mmo.Simulation.Departures.{Player, try_to_despawn-IsValid}
use necro_mmo.Simulation.Moving.{save_of, Moves, try_to_move-IsValid, save_player_lem}
use necro_mmo.Tests.Fixtures.{whole_numbers}

abbrev hero : CharacterData
hero = record { id = 7; level = 1; xp = 0; zone = 1; pos_x = 70; pos_y = 40; pos_z = 5 }

abbrev before : Simulation
before = post_world_cmd (spawn_command false hero []) (start 2 2 initial)

unturned : Reached whole_numbers before
unturned = posted (spawn_command false hero []) (started 2 2)

few : before.next_guid + length before.pending_cmds < 2 ^ 64
unfolding post_world_cmd start initial
few = omega arith

-- What a turn gives, where it gives something.
abbrev result : Option Simulation → Simulation
result none = initial
result (some s) = s

before-IsValid : IsValid before
before-IsValid = reached-IsValid whole_numbers before unturned

abbrev after : Simulation
after = result (update_simulation whole_numbers 16 before)

result_lem : (o : Option Simulation) (s : Simulation) → o ≡ some s → o ≡ some (result o)
result_lem none s e = cc
result_lem (some t) s e = refl

turn : Reached whole_numbers after
turn =
    let (s, e, _, _) = update_simulation-IsValid whole_numbers 16 before before-IsValid few in
    turned 16 unturned few (result_lem _ s e)

hero_in : who_in after.zones 1 1 ≡ some 7
unfolding update_simulation execute_world_cmds run_commands run_command try_to_spawn repositioned
    after_add finish_spawn register_player add_entity_to_zone place_checked place_at add_entity_here
    set_current_cell set_current_zone make_player load load_rows load_row start initial
    post_world_cmd update_zones update_zone update_rows update_row update_cell update_here
    update_entity update request_transfer add_pending_entity_to_transfer transfer_pending_entities
    transfer_all
hero_in = refl

abbrev one : ℕ
one = 1

one_body_example : (one ≡ one) × (one ≡ one)
one_body_example = one_body whole_numbers after 1 1 1 1 7 turn hero_in hero_in

reached-IsValid_example : IsValid after
reached-IsValid_example = reached-IsValid whole_numbers after turn

update_simulation-IsValid_example :
    (s' : Simulation) × (update_simulation whole_numbers 16 before ≡ some s')
    × IsValid s'
    × (s'.next_guid ≤ before.next_guid + length before.pending_cmds)
update_simulation-IsValid_example =
    update_simulation-IsValid whole_numbers 16 before before-IsValid few

few_again : after.next_guid + 1 < 2 ^ 64
unfolding update_simulation execute_world_cmds run_commands run_command try_to_spawn repositioned
    after_add finish_spawn register_player add_entity_to_zone place_checked place_at add_entity_here
    set_current_cell set_current_zone make_player load load_rows load_row start initial
    post_world_cmd update_zones update_zone update_rows update_row update_cell update_here
    update_entity update request_transfer add_pending_entity_to_transfer transfer_pending_entities
    transfer_all
few_again = omega arith

after-IsValid : IsValid after
after-IsValid = reached-IsValid whole_numbers after turn

try_to_spawn-Spawned_example :
    (s' : Simulation) × (r : SpawnResult) × (try_to_spawn whole_numbers hero [] after
      ≡ some (s', r))
    × Spawned hero.id hero.zone (after.next_guid + 1) after s' r
try_to_spawn-Spawned_example =
    try_to_spawn-Spawned whole_numbers hero [] after after-IsValid few_again

try_to_despawn-IsValid_example :
    (s' : Simulation) × (done : Bool) × (try_to_despawn 1 after ≡ some (s', done))
    × IsValid s'
    × (s'.next_guid ≡ after.next_guid)
    × (lookup 1 s'.players ≡ none)
    × ((i h : ℕ) → who_in s'.zones i h ≡ (if h == 1 then none else who_in after.zones i h))
    × (done ≡ true → lookup 1 after.players ≢ none)
    × (done ≡ false → s' ≡ after)
try_to_despawn-IsValid_example = try_to_despawn-IsValid 1 after after-IsValid

abbrev step : Movement
step = record {
  pos_x = 60;
  pos_y = 40;
  pos_z = 5;
  iso_direction = 3;
  seq = 1;
  acked_correction_id = 0;
}

try_to_move-IsValid_example :
    (s' : Simulation) × (try_to_move whole_numbers 1 step after ≡ some s')
    × IsValid s'
    × (s'.next_guid ≡ after.next_guid)
    × (((lookup 1 after.players ≡ none) × (s' ≡ after))
        ⊎ ((p : Pointer) × (x : Player after 1 p) × (e' : Entity) × (lookup 1 after.players
              ≡ some p)
            × Moves whole_numbers step x.entity e'
            × (s' ≡ put_zone p.in_zone (store_entity p.guid e' x.zone) after)))
try_to_move-IsValid_example = try_to_move-IsValid whole_numbers 1 step after after-IsValid

save_player_lem_example :
    (s' : Simulation) × (done : Bool) × (save_player 1 after ≡ some (s', done))
    × IsValid s'
    × (done ≡ false → (s' ≡ after) × (lookup 1 after.players ≡ none))
    × (done ≡ true
        → (p : Pointer) × (x : Player after 1 p) × (lookup 1 after.players ≡ some p)
          × (s' ≡ record after { saved = after.saved ++ save_of x.entity ∷ [] }))
save_player_lem_example = save_player_lem 1 after after-IsValid
