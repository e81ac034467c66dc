-- ===== src/Tests/Arrival.antt =====
-- The spawn of the client's character in an empty world of two by two cells.
use necro_mmo.Common.{◌+◌, ◌^◌, ◌<◌, ◌≡◌, refl, Option, none, some, [], arith, true}
use necro_mmo.Entity.{make_player, set_current_cell, set_current_zone}
use necro_mmo.Zone.{load, load_row, load_rows, add_entity_here}
use necro_mmo.Zone.Moves.{place_at, place_checked, add_entity_to_zone}
use necro_mmo.Simulation.{Simulation, initial, start, register_player}
use necro_mmo.Simulation.Commands.{
  SpawnResult, try_to_spawn, try_to_despawn, repositioned, after_add, finish_spawn,
}
use necro_mmo.Simulation.Invariant.{IsValid}
use necro_mmo.Simulation.Reached.{started, reached-IsValid}
use necro_mmo.Simulation.Spawning.Undone.{Undone, try_to_spawn-Undone}
use necro_mmo.World.Answers.Entry.{entering_data}
use necro_mmo.Tests.Realm.{hero, arrival}
use necro_mmo.Tests.Fixtures.{whole_numbers}

abbrev pub empty_world : Simulation
empty_world = start 2 2 initial

abbrev world_of : Option (Simulation × SpawnResult) → Simulation
world_of none = initial
world_of (some (s, _)) = s

abbrev pub spawned_world : Simulation
spawned_world = world_of (try_to_spawn whole_numbers (entering_data 7 hero) [] empty_world)

-- The simulation has run the command.
pub arrived :
    (empty_world.next_guid + 1 < 2 ^ 64)
    × (try_to_spawn whole_numbers (entering_data 7 hero) [] empty_world
        ≡ some (spawned_world, arrival))
unfolding try_to_spawn repositioned after_add finish_spawn register_player add_entity_to_zone
    place_checked place_at add_entity_here set_current_cell set_current_zone make_player load
    load_rows load_row start initial
arrived = (omega arith, refl)

pub empty_world-IsValid : IsValid empty_world
empty_world-IsValid = reached-IsValid whole_numbers empty_world (started 2 2)

try_to_spawn-Undone_example :
    (s'' : Simulation) × (try_to_despawn arrival.guid spawned_world ≡ some (s'', true))
    × Undone empty_world s'' arrival.guid
try_to_spawn-Undone_example =
    try_to_spawn-Undone whole_numbers (entering_data 7 hero) [] empty_world spawned_world arrival
      empty_world-IsValid arrived.0 arrived.1 refl
