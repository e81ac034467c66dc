-- ===== src/Simulation/Registry.antt =====
-- The tables of players (src/NECROWorld/Server/Simulation/WorldSimulation.cpp, `RegisterPlayer` and
-- `UnregisterPlayer`), over any view of who stands where.
use necro_mmo.Common.{
  ℕ, ◌+◌, ◌≤◌, ◌<◌, ◌≡◌, ◌≢◌, sym, ap, ◌∙◌, false, Option, none, some, ◌==◌, ◌&&◌, if◌then◌else◌,
  arith, Bool-cases, inl, inr, ==→eq,
}
use necro_mmo.Common.Dict.{
  Dict, lookup, insert, erase, Distinct, lookup-insert, lookup-erase_self, lookup-erase_ne,
  insert-Distinct, erase-Distinct,
}
use necro_mmo.Simulation.{Pointer}

-- The character whose entity a zone owns under a guid.
abbrev pub Who : Type 0
Who = ℕ → ℕ → Option ℕ

-- The two tables list exactly the players that stand in a zone, each under its character once.
pub record Agree (players : Dict Pointer) (chars : Dict ℕ) (who : Who) (next : ℕ) : Type 0 where
  pub players_distinct : Distinct players
  pub chars_distinct : Distinct chars
  pub registered :
      (g : ℕ) (p : Pointer)
      → lookup g players ≡ some p
      → (c : ℕ) × (p.guid ≡ g) × (who p.in_zone g ≡ some c) × (lookup c chars ≡ some g)
  pub indexed :
      (c g : ℕ)
      → lookup c chars ≡ some g
      → (p : Pointer) × (lookup g players ≡ some p) × (who p.in_zone g ≡ some c)
  pub inhabited :
      (id g c : ℕ)
      → who id g ≡ some c
      → (p : Pointer) × (lookup g players ≡ some p) × (p.in_zone ≡ id)
  pub fresh : (id g c : ℕ) → who id g ≡ some c → g < next
  -- The guid 0 is given to nobody.
  pub counted : 0 < next

-- A view that says the same.
pub Agree-ext :
    (players : Dict Pointer) (chars : Dict ℕ) (who who' : Who) (next : ℕ)
    → ((id g : ℕ) → who' id g ≡ who id g)
    → Agree players chars who next
    → Agree players chars who' next
Agree-ext players chars who who' next same a = record {
  players_distinct = a.players_distinct;
  chars_distinct = a.chars_distinct;
  registered =
      λ g p h. let (c, own, w, k) = a.registered g p h in (c, own, same p.in_zone g ∙ w, k);
  indexed = λ c g h. let (p, k, w) = a.indexed c g h in (p, k, same p.in_zone g ∙ w);
  inhabited = λ id g c h. a.inhabited id g c (sym (same id g) ∙ h);
  fresh = λ id g c h. a.fresh id g c (sym (same id g) ∙ h);
  counted = a.counted;
}

-- A later counter.
pub Agree-next :
    (players : Dict Pointer) (chars : Dict ℕ) (who : Who) (next next' : ℕ)
    → next ≤ next'
    → Agree players chars who next
    → Agree players chars who next'
Agree-next players chars who next next' le a = record {
  players_distinct = a.players_distinct;
  chars_distinct = a.chars_distinct;
  registered = a.registered;
  indexed = a.indexed;
  inhabited = a.inhabited;
  fresh = λ id g c h. omega (arith, a.fresh id g c h);
  counted = omega (arith, a.counted);
}

-- A view after the guid `g` of the zone `id` has got the owner `o`.
abbrev pub with_owner : ℕ → ℕ → Option ℕ → Who → Who
with_owner id g o who i h = if i == id && h == g then o else who i h

pub elsewhere :
    (id g i h : ℕ) (o : Option ℕ) (who : Who) → h ≢ g → with_owner id g o who i h ≡ who i h
elsewhere id g i h o who ne = ground arith

lookup-insert_ne :
    {V : Type 0} (k j : ℕ) (v : V) (d : Dict V) → k ≢ j → lookup j (insert k v d) ≡ lookup j d
lookup-insert_ne k j v d ne = ground (arith, lookup-insert k j v d)

pub lookup-insert_self :
    {V : Type 0} (k : ℕ) (v : V) (d : Dict V) → lookup k (insert k v d) ≡ some v
lookup-insert_self k v d = ground (arith, lookup-insert k k v d)

module _ (players : Dict Pointer) (chars : Dict ℕ) (who : Who) (next : ℕ) where
  -- A guid that nobody has had enters the zone `id`, with a character that is not there yet.
  pub Agree-enter :
      (id g c : ℕ)
      → Agree players chars who next
      → next ≤ g
      → lookup c chars ≡ none
      → Agree
          (insert g (record { in_zone = id; guid = g }) players)
          (insert c g chars)
          (with_owner id g (some c) who)
          (g + 1)
  Agree-enter id g c a late new =
      let p : Pointer = record { in_zone = id; guid = g } in
      record {
        players_distinct = insert-Distinct g p players a.players_distinct;
        chars_distinct = insert-Distinct c g chars a.chars_distinct;
        registered = λ h q k. elim (Bool-cases (g == h)) [
          | inl same ↦
              let eh = ==→eq g h same in
              let eq : p ≡ q = ground (arith, lookup-insert g h p players) in
              (
                c,
                ap (λ r. r.guid) (sym eq) ∙ eh,
                ap (λ r. with_owner id g (some c) who r.in_zone h) (sym eq) ∙ ground (arith, eh),
                lookup-insert_self c g chars ∙ ap (λ n. some n) eh,
              )
          | inr other ↦
              let ne : g ≢ h = λ e. ground arith in
              let (d, own, w, kc) =
                a.registered h q (sym (lookup-insert_ne g h p players ne) ∙ k) in
              (
                d,
                own,
                elsewhere id g q.in_zone h (some c) who (λ e. ne (sym e)) ∙ w,
                lookup-insert_ne c d g chars (λ e. cc (new, kc, e)) ∙ kc,
              )
        ];
        indexed = λ d h k. elim (Bool-cases (c == d)) [
          | inl same ↦
              let eh : g ≡ h = ground (arith, lookup-insert c d g chars) in
              (
                p,
                ap (λ n. lookup n (insert g p players)) (sym eh) ∙ lookup-insert_self g p players,
                ground (arith, eh, ==→eq c d same),
              )
          | inr other ↦
              let ne : c ≢ d = λ e. ground arith in
              let (q, kp, w) = a.indexed d h (sym (lookup-insert_ne c d g chars ne) ∙ k) in
              let old = a.fresh q.in_zone h d w in
              (
                q,
                lookup-insert_ne g h p players (λ e. omega arith) ∙ kp,
                elsewhere id g q.in_zone h (some c) who (λ e. omega arith) ∙ w,
              )
        ];
        inhabited = λ i h d k. elim (Bool-cases (i == id && h == g)) [
          | inl here ↦
              let eh : g ≡ h = ground arith in
              let ei : id ≡ i = ground arith in
              (
                p,
                ap (λ n. lookup n (insert g p players)) (sym eh) ∙ lookup-insert_self g p players,
                ei,
              )
          | inr other ↦
              let w : who i h ≡ some d = ground arith in
              let (q, kp, e) = a.inhabited i h d w in
              let old = a.fresh i h d w in
              (q, lookup-insert_ne g h p players (λ e'. omega arith) ∙ kp, e)
        ];
        fresh = λ i h d k. elim (Bool-cases (i == id && h == g)) [
          | inl here ↦ ground arith
          | inr other ↦ let old = a.fresh i h d (ground arith) in omega arith
        ];
        counted = omega arith;
      }

  -- A registered player leaves.
  pub Agree-leave :
      (p : Pointer) (g c : ℕ)
      → Agree players chars who next
      → lookup g players ≡ some p
      → who p.in_zone g ≡ some c
      → lookup c chars ≡ some g
      → Agree (erase g players) (erase c chars) (with_owner p.in_zone g none who) next
  Agree-leave p g c a kp w kc = record {
    players_distinct = erase-Distinct g players a.players_distinct;
    chars_distinct = erase-Distinct c chars a.chars_distinct;
    registered = λ h q k.
        let ne : g ≢ h = λ e. cc (
          ap (λ n. lookup n (erase g players)) (sym e)
              ∙ lookup-erase_self g players a.players_distinct,
          k,
        ) in
        let (d, own, w', kd) = a.registered h q (sym (lookup-erase_ne g h players ne) ∙ k) in
        (
          d,
          own,
          elsewhere p.in_zone g q.in_zone h none who (λ e. ne (sym e)) ∙ w',
          lookup-erase_ne c d chars (λ e. ne (cc (kc, kd, e))) ∙ kd,
        );
    indexed = λ d h k.
        let ne : c ≢ d = λ e. cc (
          ap (λ n. lookup n (erase c chars)) (sym e) ∙ lookup-erase_self c chars a.chars_distinct,
          k,
        ) in
        let (q, kq, w') = a.indexed d h (sym (lookup-erase_ne c d chars ne) ∙ k) in
        let away : g ≢ h = λ e. ne (cc (kp, kq, e, w, w')) in
        (
          q,
          lookup-erase_ne g h players away ∙ kq,
          elsewhere p.in_zone g q.in_zone h none who (λ e. away (sym e)) ∙ w',
        );
    inhabited = λ i h d k. elim (Bool-cases (i == p.in_zone && h == g)) [
      | inl here ↦ absurd (ground arith)
      | inr other ↦
          let w' : who i h ≡ some d = ground arith in
          let (q, kq, e) = a.inhabited i h d w' in
          let away : g ≢ h = λ eg. both other (cc (kp, kq, eg, e)) (sym eg) in
          (q, lookup-erase_ne g h players away ∙ kq, e)
    ];
    fresh = λ i h d k. elim (Bool-cases (i == p.in_zone && h == g)) [
      | inl here ↦ absurd (ground arith)
      | inr other ↦ a.fresh i h d (ground arith)
    ];
    counted = a.counted;
  }
    where
      both : {i h : ℕ} → (i == p.in_zone && h == g) ≡ false → i ≡ p.in_zone → h ≡ g → ⊥
      both other ei eh = ground arith
