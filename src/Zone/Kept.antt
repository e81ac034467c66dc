-- ===== src/Zone/Kept.antt =====
-- What a tick of a zone, and its transfers, keep of the zone and do to its entities
-- (src/NECROWorld/Server/Simulation/Maps/Zone.cpp).
use necro_mmo.Common.{
  ℕ, ◌≡◌, refl, sym, ap, ◌∙◌, Option, none, some, List, [], ◌∷◌, ◌==◌, arith, Bool-cases, inl, inr,
  ==→eq, true, not, if◌then◌else◌, some_unique,
}
use necro_mmo.Common.Dict.{Dict, lookup, insert, lookup-insert}
use necro_mmo.Common.Int.{ℤ}
use necro_mmo.Entity.{Fpu, Entity, Transfer, cell_bound_check}
use necro_mmo.Zone.{Zone}
use necro_mmo.Zone.Placement.{IsValid}

-- The same guid leads to the same character, or to nothing, before and after.
abbrev pub SameOwner : Option Entity → Option Entity → Type 0
SameOwner none none = Unit
SameOwner (some e) (some e') = (e'.char_id ≡ e.char_id) × (e'.guid ≡ e.guid)
SameOwner none (some e') = ⊥
SameOwner (some e) none = ⊥

pub SameOwner-refl : (o : Option Entity) → SameOwner o o
SameOwner-refl none = tt
SameOwner-refl (some e) = (refl, refl)

pub SameOwner-trans : (a b c : Option Entity) → SameOwner a b → SameOwner b c → SameOwner a c
SameOwner-trans none none none p q = tt
SameOwner-trans (some a) (some b) (some c) p q = (q.0 ∙ p.0, q.1 ∙ p.1)
SameOwner-trans none (some b) c p q = absurd p
SameOwner-trans (some a) none c p q = absurd p
SameOwner-trans none none (some c) p q = absurd q
SameOwner-trans (some a) (some b) none p q = absurd q

-- What a tick keeps of a zone: its map, and who is in it.
pub record Kept (z z' : Zone) : Type 0 where
  pub id : z'.zone_id ≡ z.zone_id
  pub map : z'.map_id ≡ z.map_id
  pub wide : z'.width ≡ z.width
  pub high : z'.height ≡ z.height
  pub owners : (g : ℕ) → SameOwner (lookup g z.entities) (lookup g z'.entities)

pub Kept-refl : (z : Zone) → Kept z z
Kept-refl z = record {
  id = refl;
  map = refl;
  wide = refl;
  high = refl;
  owners = λ g. SameOwner-refl (lookup g z.entities);
}

pub Kept-trans : {x y z : Zone} → Kept x y → Kept y z → Kept x z
Kept-trans {x} {y} {z} p q = record {
  id = q.id ∙ p.id;
  map = q.map ∙ p.map;
  wide = q.wide ∙ p.wide;
  high = q.high ∙ p.high;
  owners = λ g.
      SameOwner-trans (lookup g x.entities) (lookup g y.entities) (lookup g z.entities) (p.owners g)
        (q.owners g);
}

-- A write through a known entity's pointer that leaves its owner.
pub SameOwner-insert :
    (h g : ℕ) (e e' : Entity) (es : Dict Entity)
    → lookup h es ≡ some e
    → e'.char_id ≡ e.char_id
    → e'.guid ≡ e.guid
    → SameOwner (lookup g es) (lookup g (insert h e' es))
SameOwner-insert h g e e' es known owner own = elim (Bool-cases (h == g)) [
  | inl same ↦
      rw (lookup-insert h g e' es, same)
        (by_known (lookup g es) (sym (ap (λ k. lookup k es) (==→eq h g same)) ∙ known))
  | inr other ↦ rw (lookup-insert h g e' es, other) (SameOwner-refl (lookup g es))
]
  where
    by_known : (o : Option Entity) → o ≡ some e → SameOwner o (some e')
    by_known none k = cc
    by_known (some f) k = ground (arith, k)

pub eq_refl : (n : ℕ) → (n == n) ≡ true
eq_refl n = ground arith

-- Where an entity stands: its place on the grid, and its position.
abbrev pub spot : Entity → ℤ × ℤ × ℕ × ℕ
spot e = (e.cur_grid_pos_x, e.cur_grid_pos_y, e.pos_x, e.pos_y)

-- What a request does to where the entity of a guid stands, on a map of `w` by `h` cells. If it is that
-- entity's, it gets the place on the grid that it asks for, if there is a cell, and otherwise the
-- position in the middle of the cell of its place.
abbrev pub arrives : Fpu → ℕ → ℕ → ℕ → Transfer → ℤ × ℤ × ℕ × ℕ → ℤ × ℤ × ℕ × ℕ
arrives fpu w h g ctx (x, y, p, q) =
    if not (ctx.guid == g)
    then (x, y, p, q)
    else if cell_bound_check ctx.new_grid_pos_x ctx.new_grid_pos_y w h
    then (ctx.new_grid_pos_x, ctx.new_grid_pos_y, p, q)
    else (x, y, fpu.of_grid x 64 32, fpu.of_grid y 32 16)

-- What the requests do to it, one after the other.
abbrev pub destination : Fpu → ℕ → ℕ → ℕ → List Transfer → ℤ × ℤ × ℕ × ℕ → ℤ × ℤ × ℕ × ℕ
destination fpu w h g [] at = at
destination fpu w h g (ctx ∷ ctxs) at = destination fpu w h g ctxs (arrives fpu w h g ctx at)

-- Every entity is still there, at its destination.
abbrev pub Arrived : Fpu → List Transfer → Zone → Zone → Type 0
Arrived fpu ctxs z z' =
    (g : ℕ) (e : Entity)
    → lookup g z.entities ≡ some e
    → (e' : Entity) × (lookup g z'.entities ≡ some e')
      × ((spot e') ≡ destination fpu z.width z.height g ctxs (spot e))

-- A transfer's write through the entity's pointer.
pub Arrived-insert :
    (fpu : Fpu) (ctx : Transfer) (e e' : Entity) (z z' : Zone)
    → lookup ctx.guid z.entities ≡ some e
    → z'.entities ≡ insert ctx.guid e' z.entities
    → (spot e') ≡ arrives fpu z.width z.height ctx.guid ctx (spot e)
    → Arrived fpu (ctx ∷ []) z z'
Arrived-insert fpu ctx e e' z z' known written at g f found = elim (Bool-cases (ctx.guid == g)) [
  | inl same ↦
      let own : lookup g z.entities ≡ some e =
        sym (ap (λ k. lookup k z.entities) (==→eq ctx.guid g same)) ∙ known in
      let f_is : e ≡ f = some_unique (lookup g z.entities) e f own found in
      (
        e',
        ap (lookup g) written ∙ (lookup-insert ctx.guid g e' z.entities ∙ rw same refl),
        at
            ∙ (ap (λ k. arrives fpu z.width z.height k ctx (spot e)) (==→eq ctx.guid g same)
                ∙ ap (λ k. arrives fpu z.width z.height g ctx (spot k)) f_is),
      )
  | inr other ↦ (
    f,
    ap (lookup g) written ∙ (lookup-insert ctx.guid g e' z.entities ∙ rw other found),
    rw other refl,
  )
]

-- Valid, and the same entities.
abbrev pub Served : Zone → Option Zone → Type 0
Served z r = (z' : Zone) × (r ≡ some z') × IsValid z' × Kept z z'

-- The transfers of a list of requests: valid, and the same entities, at their destinations.
abbrev pub Transferred : Fpu → List Transfer → Zone → Option Zone → Type 0
Transferred fpu ctxs z r =
    (z' : Zone) × (r ≡ some z') × IsValid z' × Kept z z' × Arrived fpu ctxs z z'
