-- ===== src/Simulation/Reached.antt =====
-- The states that the simulation (src/NECROWorld/Server/Simulation/WorldSimulation.cpp) can reach.
use necro_mmo.Common.{
  ℕ, ◌+◌, ◌^◌, ◌≡◌, sym, ap, ◌∙◌, some, arith, Bool-cases, inl, inr, ◌<◌, length, [], ◌∷◌, ◌==◌,
}
use necro_mmo.Entity.{Fpu}
use necro_mmo.Zone.{load}
use necro_mmo.Zone.Loading.{load-IsValid}
use necro_mmo.Simulation.{Simulation, Command, initial, start, stop, post_world_cmd}
use necro_mmo.Simulation.Invariant.{IsValid, who_in}
use necro_mmo.Simulation.Loop.{update_simulation}
use necro_mmo.Simulation.Turns.{update_simulation-IsValid}

-- What may happen to the simulation after `Start`, while guids last.
pub data Reached (fpu : Fpu) : Simulation → Type 0 where
  started : (width height : ℕ) → Reached fpu (start width height initial)
  posted : {s : Simulation} → (c : Command) → Reached fpu s → Reached fpu (post_world_cmd c s)
  turned :
      {s s' : Simulation}
      → (elapsed : ℕ) → Reached fpu s
      → s.next_guid + length s.pending_cmds < 2 ^ 64
      → update_simulation fpu elapsed s ≡ some s'
      → Reached fpu s'
  stopped : {s : Simulation} → Reached fpu s → Reached fpu (stop s)

start-IsValid : (width height : ℕ) → IsValid (start width height initial)
unfolding start initial load
start-IsValid width height = record {
  zones_valid = λ id z k. elim (Bool-cases (1 == id)) [
    | inl same ↦
        let eq : load 1 1 width height ≡ z = ground arith in
        rw (sym eq) (load-IsValid 1 1 width height, ground arith)
    | inr other ↦ absurd (ground arith)
  ];
  agree = record {
    players_distinct = tt;
    chars_distinct = tt;
    registered = λ g p k. cc;
    indexed = λ c g k. cc;
    inhabited = λ id g c k. absurd (nobody id g c k);
    fresh = λ id g c k. absurd (nobody id g c k);
    counted = omega arith;
  };
}
  where
    nobody : (id g c : ℕ) → who_in ((1, load 1 1 width height) ∷ []) id g ≡ some c → ⊥
    nobody id g c k = elim (Bool-cases (1 == id)) [
      | inl same ↦ cc (rw same at k)
      | inr other ↦ cc (rw other at k)
    ]

-- Every state that the simulation reaches, in any order of posted commands and turns, is valid.
pub reached-IsValid : (fpu : Fpu) (s : Simulation) → Reached fpu s → IsValid s
unfolding post_world_cmd stop
reached-IsValid fpu s (started width height) = start-IsValid width height
reached-IsValid fpu s (posted {s = t} c r) = reached-IsValid fpu t r
reached-IsValid fpu s (turned {s = t} elapsed r few e) =
    let (s', e', h, _) = update_simulation-IsValid fpu elapsed t (reached-IsValid fpu t r) few in
    let same : s' ≡ s = cc in rw (sym same) h
reached-IsValid fpu s (stopped {s = t} r) = reached-IsValid fpu t r

-- A character is in the world at most once: no two entities of a reached state, in whatever zones,
-- belong to one character.
pub one_body :
    (fpu : Fpu) (s : Simulation) (i j g h c : ℕ)
    → Reached fpu s
    → who_in s.zones i g ≡ some c
    → who_in s.zones j h ≡ some c
    → (i ≡ j) × (g ≡ h)
one_body fpu s i j g h c r kg kh =
    let a = (reached-IsValid fpu s r).agree in
    let (p, pg, pi) = a.inhabited i g c kg in
    let (q, qh, qj) = a.inhabited j h c kh in
    let (cg, _, wg, lg) = a.registered g p pg in
    let (ch, _, wh, lh) = a.registered h q qh in
    let eg : cg ≡ c = cc (wg, pi, kg) in
    let eh : ch ≡ c = cc (wh, qj, kh) in
    let same : g ≡ h = cc (eg, eh, lg, lh) in
    let one : p ≡ q = cc (pg, qh, same) in (sym pi ∙ (ap (λ x. x.in_zone) one ∙ qj), same)
