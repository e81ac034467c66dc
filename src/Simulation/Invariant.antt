-- ===== src/Simulation/Invariant.antt =====
-- The invariant of the simulation (src/NECROWorld/Server/Simulation/WorldSimulation.cpp): its zones
-- are valid, and its tables of players list exactly who is in them.
use necro_mmo.Common.{
  ℕ, ◌≡◌, refl, sym, ap, ◌∙◌, ◌≢◌, Option, none, some, ◌==◌, if◌then◌else◌, arith, Bool-cases, inl,
  inr, ==→eq,
}
use necro_mmo.Common.Dict.{Dict, lookup, insert, lookup-insert}
use necro_mmo.Entity.{Entity}
use necro_mmo.Zone.{Zone}
use necro_mmo.Zone.Placement as Placement
use necro_mmo.Zone.Kept.{Kept, SameOwner}
use necro_mmo.Simulation.{Simulation, Pointer}
use necro_mmo.Simulation.Registry.{Who, Agree, Agree-ext, with_owner}

-- The character of an entity, where there is one.
abbrev pub owner : Option Entity → Option ℕ
owner none = none
owner (some e) = some e.char_id

abbrev pub owner_in : Option Zone → ℕ → Option ℕ
owner_in none g = none
owner_in (some z) g = owner (lookup g z.entities)

abbrev pub who_in : Dict Zone → Who
who_in zones id g = owner_in (lookup id zones) g

-- On the parts of the simulation that it is about.
pub record Holds (zones : Dict Zone) (players : Dict Pointer) (chars : Dict ℕ) (next : ℕ)
    : Type 0 where
  pub zones_valid :
      (id : ℕ) (z : Zone) → lookup id zones ≡ some z → Placement.IsValid z × (z.zone_id ≡ id)
  pub agree : Agree players chars (who_in zones) next

abbrev pub IsValid : Simulation → Type 0
IsValid s = Holds s.zones s.players s.char_id_to_guid s.next_guid

-- A zone's write shows under its own id alone.
pub who_in-insert :
    (zones : Dict Zone) (id i g : ℕ) (z : Zone)
    → who_in (insert id z zones) i g
      ≡ (if id == i then owner (lookup g z.entities) else who_in zones i g)
who_in-insert zones id i g z = elim (Bool-cases (id == i)) [
  | inl same ↦ ap (λ o. owner_in o g) (lookup-insert id i z zones) ∙ rw same refl
  | inr other ↦ ap (λ o. owner_in o g) (lookup-insert id i z zones) ∙ rw other refl
]

-- A zone that is overwritten with a valid one.
pub zones_valid-insert :
    (zones : Dict Zone) (id : ℕ) (z : Zone)
    → ((i : ℕ) (y : Zone) → lookup i zones ≡ some y → Placement.IsValid y × (y.zone_id ≡ i))
    → Placement.IsValid z
    → z.zone_id ≡ id
    → (i : ℕ) (y : Zone) → lookup i (insert id z zones) ≡ some y
    → Placement.IsValid y × (y.zone_id ≡ i)
zones_valid-insert zones id z all v e i y k = elim (Bool-cases (id == i)) [
  | inl same ↦
      let eq : z ≡ y = ground (arith, lookup-insert id i z zones) in
      rw (sym eq) (v, e ∙ ==→eq id i same)
  | inr other ↦ all i y (ground (arith, lookup-insert id i z zones))
]

-- A zone whose inhabitants stay the same characters under the same guids.
pub Holds-put :
    (zones : Dict Zone) (players : Dict Pointer) (chars : Dict ℕ) (next id : ℕ) (z z' : Zone)
    → Holds zones players chars next
    → lookup id zones ≡ some z
    → Placement.IsValid z'
    → z'.zone_id ≡ z.zone_id
    → ((g : ℕ) → owner (lookup g z'.entities) ≡ owner (lookup g z.entities))
    → Holds (insert id z' zones) players chars next
Holds-put zones players chars next id z z' h known v e same = record {
  zones_valid = zones_valid-insert zones id z' h.zones_valid v (e ∙ (h.zones_valid id z known).1);
  agree =
      Agree-ext players chars (who_in zones) (who_in (insert id z' zones)) next
        (λ i g. who_in-insert zones id i g z' ∙ unchanged i g) h.agree;
}
  where
    unchanged :
        (i g : ℕ)
        → (if id == i then owner (lookup g z'.entities) else who_in zones i g) ≡ who_in zones i g
    unchanged i g = elim (Bool-cases (id == i)) [
      | inl here ↦ rw here (
          same g
          ∙ (sym (ap (λ o. owner_in o g) known) ∙ ap (λ j. who_in zones j g) (==→eq id i here)))
      | inr other ↦ rw other refl
    ]

owner-SameOwner : (a b : Option Entity) → SameOwner a b → owner b ≡ owner a
owner-SameOwner none none s = refl
owner-SameOwner (some a) (some b) s = ap (λ c. some c) s.0
owner-SameOwner none (some b) s = absurd s
owner-SameOwner (some a) none s = absurd s

pub Holds-Kept :
    (zones : Dict Zone) (players : Dict Pointer) (chars : Dict ℕ) (next id : ℕ) (z z' : Zone)
    → Holds zones players chars next
    → lookup id zones ≡ some z
    → Placement.IsValid z'
    → Kept z z'
    → Holds (insert id z' zones) players chars next
Holds-Kept zones players chars next id z z' h known v k =
    Holds-put zones players chars next id z z' h known v k.id
      (λ g. owner-SameOwner _ _ (k.owners g))

-- A guid's entity that a zone gains or loses.
pub who_in-changed :
    (zones : Dict Zone) (id g : ℕ) (z z' : Zone) (o : Option ℕ)
    → lookup id zones ≡ some z
    → owner (lookup g z'.entities) ≡ o
    → ((h : ℕ) → h ≢ g → lookup h z'.entities ≡ lookup h z.entities)
    → (i h : ℕ) → who_in (insert id z' zones) i h ≡ with_owner id g o (who_in zones) i h
who_in-changed zones id g z z' o known at others i h =
    who_in-insert zones id i h z' ∙ elim (Bool-cases (id == i)) [
      | inr elsewhere ↦ rw elsewhere (ground arith)
      | inl here ↦ elim (Bool-cases (h == g)) [
        | inl same ↦
            let eh = ==→eq h g same in
            rw here
              (ap (λ k. owner (lookup k z'.entities)) eh ∙ (at ∙ ground (arith, ==→eq id i here)))
        | inr other ↦
            let back : owner_in (some z) h ≡ who_in zones i h =
              sym (ap (λ x. owner_in x h) known) ∙ ap (λ j. who_in zones j h) (==→eq id i here) in
            rw here (ap owner (others h (λ e. ground arith)) ∙ (back ∙ ground arith))
      ]
    ]
