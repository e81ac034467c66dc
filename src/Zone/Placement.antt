-- ===== src/Zone/Placement.antt =====
-- Where a zone's entities stand (src/NECROWorld/Server/Simulation/Maps/Zone.cpp): the cells' lists
-- agree with the entities' own cell pointers.
use necro_mmo.Common.{
  ℕ, zero, suc, ◌+◌, ◌-◌, ◌*◌, ◌<◌, ◌≡◌, refl, Option, none, some, List, [], ◌∷◌, ◌++◌, get_elem?,
  set, ◌==◌, if◌then◌else◌, arith, Option-cases, Bool-cases, inl, inr,
}
use necro_mmo.Common.Dict.{
  Dict, lookup, insert, erase, Distinct, lookup-insert, lookup-erase_self, lookup-erase_ne,
}
use necro_mmo.Common.Int.{ℤ, pos}
use necro_mmo.Entity.{Entity}
use necro_mmo.Zone.{Cell, Zone, add_entity_here, remove_entity_here, erase_first}

abbrev pub count : ℕ → List ℕ → ℕ
count g [] = 0
count g (x ∷ xs) = if x == g then suc (count g xs) else count g xs

pub count-append_one :
    (g h : ℕ) (xs : List ℕ) → count g (xs ++ h ∷ []) ≡ count g xs + (if h == g then 1 else 0)
count-append_one g h [] = ground arith
count-append_one g h (x ∷ xs) = ground (arith, count-append_one g h xs)

-- Only an entry that is there goes.
pub count-erase_first :
    (g h : ℕ) (xs : List ℕ) → count g (erase_first h xs) ≡ count g xs - (if h == g then 1 else 0)
count-erase_first g h [] = ground arith
count-erase_first g h (x ∷ xs) = ground (arith, count-erase_first g h xs)

-- The guids that a cell lists.
abbrev pub here_at : List Cell → ℕ → List ℕ
here_at [] i = []
here_at (c ∷ cs) zero = c.entities_here
here_at (c ∷ cs) (suc i) = here_at cs i

-- A cell's coordinates.
abbrev pub corner : List Cell → ℕ → Option (ℤ × ℤ)
corner [] i = none
corner (c ∷ cs) zero = some (c.cell_x, c.cell_y)
corner (c ∷ cs) (suc i) = corner cs i

pub corner-get_elem? :
    (cs : List Cell) (i : ℕ) (p : ℤ × ℤ)
    → corner cs i ≡ some p
    → (c : Cell) × (get_elem? cs i ≡ some c)
      × (p ≡ (c.cell_x, c.cell_y))
      × (here_at cs i ≡ c.entities_here)
corner-get_elem? [] i p e = cc
corner-get_elem? (c ∷ cs) zero p e = (c, refl, cc, refl)
corner-get_elem? (c ∷ cs) (suc i) p e = corner-get_elem? cs i p e

-- A cell that is changed in its list alone.
pub here_at-set :
    (cs : List Cell) (i j : ℕ) (c d : Cell)
    → get_elem? cs j ≡ some c
    → here_at (set cs j d) i ≡ (if j == i then d.entities_here else here_at cs i)
here_at-set [] i j c d e = cc
here_at-set (x ∷ cs) zero zero c d e = refl
here_at-set (x ∷ cs) (suc i) zero c d e = ground arith
here_at-set (x ∷ cs) zero (suc j) c d e = ground arith
here_at-set (x ∷ cs) (suc i) (suc j) c d e = ground (arith, here_at-set cs i j c d e)

pub corner-set :
    (cs : List Cell) (i j : ℕ) (c d : Cell)
    → get_elem? cs j ≡ some c
    → d.cell_x ≡ c.cell_x
    → d.cell_y ≡ c.cell_y
    → corner (set cs j d) i ≡ corner cs i
corner-set [] i j c d e ex ey = cc
corner-set (x ∷ cs) zero zero c d e ex ey = ground (arith, ex, ey)
corner-set (x ∷ cs) (suc i) zero c d e ex ey = refl
corner-set (x ∷ cs) zero (suc j) c d e ex ey = refl
corner-set (x ∷ cs) (suc i) (suc j) c d e ex ey = corner-set cs i j c d e ex ey

abbrev pub stands : ℕ → Option ℕ → ℕ
stands i none = 0
stands i (some j) = if j == i then 1 else 0

-- How often a cell should list a guid: once, where the entity's pointer says so.
abbrev pub standing : ℕ → ℕ → Dict Entity → ℕ
standing g i es = elim (lookup g es) [ none ↦ 0 | some e ↦ stands i e.current_cell ]

abbrev pub Placed : List Cell → Dict Entity → Type 0
Placed cs es = (g i : ℕ) → count g (here_at cs i) ≡ standing g i es

pub here_at-get_elem? :
    (cs : List Cell) (i : ℕ) (c : Cell) → get_elem? cs i ≡ some c → here_at cs i ≡ c.entities_here
here_at-get_elem? [] i c e = cc
here_at-get_elem? (x ∷ cs) zero c e = ground (arith, e)
here_at-get_elem? (x ∷ cs) (suc i) c e = here_at-get_elem? cs i c e

module _ (cs : List Cell) (es : Dict Entity) (j : ℕ) (c : Cell) (h : ℕ) where
  -- An unknown guid enters the cell `j`.
  pub Placed-enter :
      (e : Entity)
      → Placed cs es
      → get_elem? cs j ≡ some c
      → lookup h es ≡ none
      → e.current_cell ≡ some j
      → Placed (set cs j (add_entity_here h c)) (insert h e es)
  unfolding add_entity_here
  Placed-enter e p found new stands_in g i = ground (
    arith,
    p g i,
    here_at-set cs i j c (add_entity_here h c) found,
    here_at-get_elem? cs j c found,
    count-append_one g h c.entities_here,
    lookup-insert h g e es,
  )

  -- The guid of an entity that stands in the cell `j` leaves it, and the zone.
  pub Placed-leave :
      (e : Entity)
      → Distinct es
      → Placed cs es
      → get_elem? cs j ≡ some c
      → lookup h es ≡ some e
      → e.current_cell ≡ some j
      → Placed (set cs j (remove_entity_here h c)) (erase h es)
  unfolding remove_entity_here
  Placed-leave e d p found known stands_in g i = elim (Bool-cases (h == g)) [
    | inl same ↦ ground (
      arith,
      p g i,
      here_at-set cs i j c (remove_entity_here h c) found,
      here_at-get_elem? cs j c found,
      count-erase_first g h c.entities_here,
      lookup-erase_self h es d,
    )
    | inr other ↦ ground (
      arith,
      p g i,
      here_at-set cs i j c (remove_entity_here h c) found,
      here_at-get_elem? cs j c found,
      count-erase_first g h c.entities_here,
      lookup-erase_ne h g es,
    )
  ]

-- An entity that the zone owns under its guid knows its zone, and its grid position is that of the
-- cell that it points to.
pub record Located (zone_id : ℕ) (cs : List Cell) (g : ℕ) (e : Entity) : Type 0 where
  pub own : e.guid ≡ g
  pub home : e.current_zone ≡ some zone_id
  pub cell : ℕ
  pub stands_in : e.current_cell ≡ some cell
  pub on_grid : corner cs cell ≡ some (e.cur_grid_pos_x, e.cur_grid_pos_y)

-- The invariant of a zone.
pub record IsValid (z : Zone) : Type 0 where
  pub distinct : Distinct z.entities
  pub grid :
      (x y : ℕ)
      → x < z.width
      → y < z.height
      → corner z.cell_map (y * z.width + x) ≡ some (pos x, pos y)
  pub placed : Placed z.cell_map z.entities
  pub located :
      (g : ℕ) (e : Entity) → lookup g z.entities ≡ some e → Located z.zone_id z.cell_map g e

-- A guid that stands in a cell's list is that of an entity that the zone owns, and it is listed once.
pub listed-owned :
    (z : Zone) (g i : ℕ)
    → IsValid z
    → 0 < count g (here_at z.cell_map i)
    → (e : Entity) × (lookup g z.entities ≡ some e) × (e.current_cell ≡ some i)
listed-owned z g i v h = elim (Option-cases (lookup g z.entities)) [
  | inl gone ↦ absurd (ground (arith, v.placed g i))
  | inr (e, found) ↦ (e, found, cell_of e.current_cell (ground (arith, v.placed g i)))
]
  where
    cell_of : (o : Option ℕ) → 0 < stands i o → o ≡ some i
    cell_of none k = absurd (omega arith)
    cell_of (some j) k = ground arith
