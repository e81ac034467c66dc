-- ===== src/Simulation/Loop.antt =====
-- The loop of the simulation (src/NECROWorld/Server/Simulation/WorldSimulation.cpp), with the
-- commands that sessions post (src/NECROWorld/Server/Sockets/Handlers/PlayerHandlers.cpp). What is
-- posted back to a session is the session's business, and stands in the results.
use necro_mmo.Common.{ℕ, ◌+◌, ◌-◌, ◌%◌, ◌^◌, true, false, Option, none, some, List, [], ◌∷◌}
use necro_mmo.Common.Dict.{Dict, lookup}
use necro_mmo.Entity.{Fpu}
use necro_mmo.Zone.{Zone}
use necro_mmo.Zone.Moves.{update_zone}
use necro_mmo.Simulation.{
  Simulation, Command, spawn_command, exit_command, rollback_command, move_command, put_zone,
}
use necro_mmo.Simulation.Commands.{try_to_spawn, try_to_despawn, try_to_move, save_player}

-- One command. A session that is gone spawns and moves nobody; a player who leaves is saved first.
unfoldable pub run_command : Fpu → Command → Simulation → Option Simulation
run_command fpu (spawn_command true c queue) s = some s
run_command fpu (spawn_command false c queue) s = elim (try_to_spawn fpu c queue s) [
  | none ↦ none
  | some (s', _) ↦ some s'
]
run_command fpu (exit_command guid) s = elim (save_player guid s) [
  | none ↦ none
  | some (s', _) ↦ elim (try_to_despawn guid s') [ none ↦ none | some (s'', _) ↦ some s'' ]
]
run_command fpu (rollback_command guid) s = elim (try_to_despawn guid s) [
  | none ↦ none
  | some (s', _) ↦ some s'
]
run_command fpu (move_command true guid m) s = some s
run_command fpu (move_command false guid m) s = try_to_move fpu guid m s

unfoldable pub run_commands : Fpu → List Command → Simulation → Option Simulation
unfolding run_command
run_commands fpu [] s = some s
run_commands fpu (c ∷ cs) s = elim (run_command fpu c s) [
  | none ↦ none
  | some s' ↦ run_commands fpu cs s'
]

-- `ExecuteWorldCmds` takes the whole queue first, so that a command that is posted meanwhile waits
-- for the next turn.
unfoldable pub execute_world_cmds : Fpu → Simulation → Option Simulation
unfolding run_commands
execute_world_cmds fpu s = run_commands fpu s.pending_cmds (record s { pending_cmds = [] })

-- The zones in turn, by their ids.
unfoldable pub update_zones : Fpu → Dict Zone → Simulation → Option Simulation
update_zones fpu [] s = some s
update_zones fpu ((id, _) ∷ rest) s = elim (lookup id s.zones) [
  | none ↦ none
  | some z ↦ elim (update_zone fpu z) [
    | none ↦ none
    | some z' ↦ update_zones fpu rest (put_zone id z' s)
  ]
]

-- `Update`, `elapsed` milliseconds after the start; the times are `uint32_t`.
unfoldable pub update_simulation : Fpu → ℕ → Simulation → Option Simulation
unfolding execute_world_cmds update_zones
update_simulation fpu elapsed s =
    let now = elapsed % 2 ^ 32 in
    let timed = record s {
      loop_counter = (s.loop_counter + 1) % 2 ^ 32;
      cur_time = now;
      cur_time_diff = (now + 2 ^ 32 - s.prev_time) % 2 ^ 32;
    } in
    elim (execute_world_cmds fpu timed) [
      | none ↦ none
      | some s' ↦ elim (update_zones fpu s'.zones s') [
        | none ↦ none
        | some s'' ↦ some (record s'' { prev_time = s''.cur_time })
      ]
    ]
