-- ===== src/Simulation/Spawning/Undone.antt =====
-- A spawn that is undone: `WorldCmd_TryToSpawnPlayerCharacter` and then
-- `WorldCmd_TryToDespawnPlayerCharacter` of its player
-- (src/NECROWorld/Server/Simulation/WorldCmds/PlayerWorldCmds.cpp).
use mathlib.Core.Path.{subst}
use necro_mmo.Common.{
  ℕ, ◌+◌, ◌^◌, ◌<◌, ◌≡◌, ◌≢◌, refl, sym, ap, ◌∙◌, Bool, true, false, none, some, List, ◌==◌,
  if◌then◌else◌, arith, Bool-cases, Option-cases, inl, inr, ==→eq,
}
use necro_mmo.Common.Dict.{lookup}
use necro_mmo.Packet.{Packet}
use necro_mmo.Entity.{Fpu}
use necro_mmo.Simulation.{Simulation, CharacterData}
use necro_mmo.Simulation.Invariant.{IsValid, who_in}
use necro_mmo.Simulation.Commands.{SpawnResult, try_to_spawn, try_to_despawn}
use necro_mmo.Simulation.Spawning.{Spawned}
use necro_mmo.Simulation.Spawning.Arrival.{try_to_spawn-Spawned}
use necro_mmo.Simulation.Departures.{try_to_despawn-IsValid}

-- What a spawn and its undoing leave.
pub record Undone (s s'' : Simulation) (guid : ℕ) : Type 0 where
  pub valid : IsValid s''
  pub unregistered : lookup guid s''.players ≡ none
  pub same : (i g : ℕ) → who_in s''.zones i g ≡ who_in s.zones i g

-- A player whose spawn has succeeded is despawned by its guid without failure, and then every zone has
-- exactly the inhabitants that it had before the spawn, under the same guids.
pub try_to_spawn-Undone :
    (fpu : Fpu) (c : CharacterData) (queue : List Packet) (s s' : Simulation) (r : SpawnResult)
    → IsValid s
    → s.next_guid + 1 < 2 ^ 64
    → try_to_spawn fpu c queue s ≡ some (s', r)
    → r.success ≡ true
    → (s'' : Simulation) × (try_to_despawn r.guid s' ≡ some (s'', true)) × Undone s s'' r.guid
try_to_spawn-Undone fpu c queue s s' r h few e done =
    let (t, q, e', spawned) = try_to_spawn-Spawned fpu c queue s h few in
    let x =
      subst {A = Simulation × SpawnResult} (λ y. Spawned c.id c.zone (s.next_guid + 1) s y.0 y.1)
        (cc (e, e')) spawned in
    from x (try_to_despawn-IsValid r.guid s' x.valid)
  where
    new : Spawned c.id c.zone (s.next_guid + 1) s s' r → (i : ℕ) → who_in s.zones i r.guid ≡ none
    new x i = elim (Option-cases (who_in s.zones i r.guid)) [
      | inl nobody ↦ nobody
      | inr (d, there) ↦ absurd (omega (arith, h.agree.fresh i r.guid d there, x.named done))
    ]

    from :
        Spawned c.id c.zone (s.next_guid + 1) s s' r
        → (s'' : Simulation) × (ok : Bool) × (try_to_despawn r.guid s' ≡ some (s'', ok))
          × IsValid s''
          × (s''.next_guid ≡ s'.next_guid)
          × (lookup r.guid s''.players ≡ none)
          × ((i k : ℕ) → who_in s''.zones i k ≡ (if k == r.guid then none else who_in s'.zones i k))
          × (ok ≡ true → lookup r.guid s'.players ≢ none)
          × (ok ≡ false → s'' ≡ s')
        → (s'' : Simulation) × (try_to_despawn r.guid s' ≡ some (s'', true)) × Undone s s'' r.guid
    from x (s'', true, ran, v, _, gone, who, _, _) = (
      s'',
      ran,
      record {
        valid = v;
        unregistered = gone;
        same = λ i g. elim (Bool-cases (g == r.guid)) [
          | inl mine ↦
              who i g
              ∙ (rw mine refl ∙ sym (ap (λ k. who_in s.zones i k) (==→eq g r.guid mine) ∙ new x i))
          | inr other ↦ who i g ∙ (rw other refl ∙ x.others done i g (λ k. ground arith))
        ];
      },
    )
    from x (s'', false, ran, v, _, gone, _, _, still) =
        let (_, there, _, _) = x.entered done in
        absurd (cc (there, gone, ap (λ y. lookup r.guid y.players) (still refl)))
