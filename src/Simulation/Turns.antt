-- ===== src/Simulation/Turns.antt =====
-- The loop of the simulation (src/NECROWorld/Server/Simulation/WorldSimulation.cpp) on a valid
-- simulation.
use necro_mmo.Common.{
  ℕ, ◌+◌, ◌-◌, ◌%◌, ◌^◌, ◌≡◌, refl, ◌≢◌, none, some, arith, Option-cases, inl, inr, List, [], ◌∷◌,
  true, false, ◌<◌, ◌≤◌, length, ap, Bool-cases,
}
use necro_mmo.Common.Dict.{Dict, lookup, insert, lookup-insert}
use necro_mmo.Entity.{Fpu}
use necro_mmo.Zone.{Zone}
use necro_mmo.Zone.Ticks.{update_zone-IsValid}
use necro_mmo.Simulation.{
  Simulation, Command, spawn_command, exit_command, rollback_command, move_command, put_zone,
}
use necro_mmo.Simulation.Invariant.{IsValid, Holds-Kept}
use necro_mmo.Simulation.Spawning.Arrival.{try_to_spawn-Spawned}
use necro_mmo.Simulation.Departures.{try_to_despawn-IsValid}
use necro_mmo.Simulation.Moving.{save_player_lem, try_to_move-IsValid}
use necro_mmo.Simulation.Loop.{
  run_command, run_commands, execute_world_cmds, update_zones, update_simulation,
}

run_command-IsValid :
    (fpu : Fpu) (c : Command) (s : Simulation)
    → IsValid s
    → s.next_guid + 1 < 2 ^ 64
    → (s' : Simulation) × (run_command fpu c s ≡ some s')
      × IsValid s'
      × (s'.next_guid ≤ s.next_guid + 1)
unfolding run_command
run_command-IsValid fpu (spawn_command true c queue) s h few = (s, refl, h, omega arith)
run_command-IsValid fpu (spawn_command false c queue) s h few =
    let (s', r, e, x) = try_to_spawn-Spawned fpu c queue s h few in
    (s', rw (e, run_command), x.valid, x.given)
run_command-IsValid fpu (exit_command g) s h few =
    let (s', done, e, h', unsaved, saved) = save_player_lem g s h in
    let n : s'.next_guid ≡ s.next_guid = elim (Bool-cases done) [
      | inl kept ↦ let (p, x, _, same) = saved kept in ap (λ k. k.next_guid) same
      | inr lost ↦ ap (λ k. k.next_guid) (unsaved lost).0
    ] in
    let (s'', done', e', h'', n', _, _, _, _) = try_to_despawn-IsValid g s' h' in
    (s'', rw (e, run_command, e'), h'', omega (arith, n, n'))
run_command-IsValid fpu (rollback_command g) s h few =
    let (s', done, e, h', n, _, _, _, _) = try_to_despawn-IsValid g s h in
    (s', rw (e, run_command), h', omega (arith, n))
run_command-IsValid fpu (move_command true g m) s h few = (s, refl, h, omega arith)
run_command-IsValid fpu (move_command false g m) s h few =
    let (s', e, h', n, _) = try_to_move-IsValid fpu g m s h in (s', e, h', omega (arith, n))

run_commands-IsValid :
    (fpu : Fpu) (cs : List Command) (s : Simulation)
    → IsValid s
    → s.next_guid + length cs < 2 ^ 64
    → (s' : Simulation) × (run_commands fpu cs s ≡ some s')
      × IsValid s'
      × (s'.next_guid ≤ s.next_guid + length cs)
unfolding run_commands
run_commands-IsValid fpu [] s h few = (s, refl, h, omega arith)
run_commands-IsValid fpu (c ∷ cs) s h few =
    let (s', e, h', n) = run_command-IsValid fpu c s h (omega arith) in
    let (s'', e', h'', n') = run_commands-IsValid fpu cs s' h' (omega arith) in
    (s'', rw (e, run_commands) e', h'', omega arith)

further :
    {V : Type 0} (k i : ℕ) (v : V) (d : Dict V) → lookup i d ≢ none → lookup i ((k, v) ∷ d) ≢ none
further k i v d there e = there (ground arith)

overwritten :
    {V : Type 0} (k i : ℕ) (v : V) (d : Dict V) → lookup i d ≢ none → lookup i (insert k v d) ≢ none
overwritten k i v d there e = there (ground (arith, lookup-insert k i v d))

update_zones-IsValid :
    (fpu : Fpu) (visited : Dict Zone) (s : Simulation)
    → IsValid s
    → ((id : ℕ) → lookup id visited ≢ none → lookup id s.zones ≢ none)
    → (s' : Simulation) × (update_zones fpu visited s ≡ some s')
      × IsValid s'
      × (s'.next_guid ≡ s.next_guid)
unfolding update_zones
update_zones-IsValid fpu [] s h k = (s, refl, h, refl)
update_zones-IsValid fpu ((id, y) ∷ rest) s h k = elim (Option-cases (lookup id s.zones)) [
  | inl gone ↦ absurd (k id (λ e. ground arith) gone)
  | inr (z, known) ↦
      let (z', e, v', kept, _) = update_zone-IsValid fpu z (h.zones_valid id z known).0 in
      let h' = Holds-Kept s.zones s.players s.char_id_to_guid s.next_guid id z z' h known v' kept in
      let (s', e', h'', n) =
        update_zones-IsValid fpu rest (put_zone id z' s) h'
          (λ i there. overwritten id i z' s.zones (k i (further id i y rest there))) in
      (s', rw (known, update_zones, e) e', h'', n)
]

-- A turn of the simulation's loop, with whatever commands the sessions have posted, runs to its end
-- on a valid simulation: no pointer that it follows is null or dangling, and the simulation is valid
-- after it, as long as the guids that its spawns need are fewer than 2 ^ 64. It uses no more guids
-- than it has commands.
pub update_simulation-IsValid :
    (fpu : Fpu) (elapsed : ℕ) (s : Simulation)
    → IsValid s
    → s.next_guid + length s.pending_cmds < 2 ^ 64
    → (s' : Simulation) × (update_simulation fpu elapsed s ≡ some s')
      × IsValid s'
      × (s'.next_guid ≤ s.next_guid + length s.pending_cmds)
unfolding update_simulation execute_world_cmds
update_simulation-IsValid fpu elapsed s h few =
    let now = elapsed % 2 ^ 32 in
    let timed : Simulation = record s {
      loop_counter = (s.loop_counter + 1) % 2 ^ 32;
      cur_time = now;
      cur_time_diff = (now + 2 ^ 32 - s.prev_time) % 2 ^ 32;
      pending_cmds = [];
    } in
    let (s', e, h', n) = run_commands-IsValid fpu s.pending_cmds timed h few in
    let (s'', e', h'', n') = update_zones-IsValid fpu s'.zones s' h' (λ id there. there) in
    (
      record s'' { prev_time = s''.cur_time },
      rw (e, update_simulation, execute_world_cmds, e'),
      h'',
      omega (arith, n'),
    )
