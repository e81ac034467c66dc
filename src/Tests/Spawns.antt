-- ===== src/Tests/Spawns.antt =====
-- A character whose stored position is outside the map of two by two cells.
use necro_mmo.Common.{◌+◌, ◌^◌, ◌<◌, ◌≡◌, refl, true, none, some, [], arith}
use necro_mmo.Common.Dict.{lookup}
use necro_mmo.Zone.{load}
use necro_mmo.Simulation.{Simulation, CharacterData, initial, start}
use necro_mmo.Simulation.Commands.{SpawnResult, try_to_spawn}
use necro_mmo.Simulation.Reached.{started, reached-IsValid}
use necro_mmo.Simulation.Spawning.Success.{IsMap, try_to_spawn-success}
use necro_mmo.Tests.Fixtures.{whole_numbers}

abbrev stray : CharacterData
stray = record { id = 8; level = 1; xp = 0; zone = 1; pos_x = 5000; pos_y = 40; pos_z = 5 }

abbrev empty_world : Simulation
empty_world = start 2 2 initial

few : empty_world.next_guid + 1 < 2 ^ 64
unfolding start initial
few = omega arith

known : lookup stray.zone empty_world.zones ≡ some (load 1 1 2 2)
unfolding start initial
known = refl

is_map : IsMap (load 1 1 2 2)
unfolding load
is_map = (omega arith, omega arith, omega arith, omega arith)

free : lookup stray.id empty_world.char_id_to_guid ≡ none
unfolding start initial
free = refl

try_to_spawn-success_example :
    (s' : Simulation) × (r : SpawnResult) × (try_to_spawn whole_numbers stray [] empty_world
      ≡ some (s', r))
    × (r.success ≡ true)
try_to_spawn-success_example =
    try_to_spawn-success whole_numbers stray [] empty_world (load 1 1 2 2)
      (reached-IsValid whole_numbers empty_world (started 2 2)) few known is_map free
