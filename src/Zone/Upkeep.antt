-- ===== src/Zone/Upkeep.antt =====
-- The parts of an operation keep a zone's invariant
-- (src/NECROWorld/Server/Simulation/Maps/Zone.cpp): a write through an entity's pointer, an entity
-- that enters a cell, and one that leaves.
use mathlib.Core.Path.{subst₂}
use necro_mmo.Common.{
  ℕ, zero, suc, ◌+◌, ◌*◌, ◌≡◌, refl, sym, ap, ◌∙◌, none, some, List, [], ◌∷◌, get_elem?, set, ◌==◌,
  arith, Bool-cases, inl, inr, ==→eq,
}
use necro_mmo.Common.Dict.{
  Dict, lookup, erase, Distinct, lookup-insert, lookup-erase_self, lookup-erase_ne, insert-Distinct,
  erase-Distinct,
}
use necro_mmo.Entity.{Entity}
use necro_mmo.Zone.{Cell, Zone, add_entity_here, remove_entity_here, store_entity}
use necro_mmo.Zone.Placement.{IsValid, Located, corner, corner-set, Placed-enter, Placed-leave}

-- What a write keeps of an entity, for the invariant.
pub record Alike (e e' : Entity) : Type 0 where
  pub guid : e'.guid ≡ e.guid
  pub zone : e'.current_zone ≡ e.current_zone
  pub cell : e'.current_cell ≡ e.current_cell
  pub grid_x : e'.cur_grid_pos_x ≡ e.cur_grid_pos_x
  pub grid_y : e'.cur_grid_pos_y ≡ e.cur_grid_pos_y

Located-Alike :
    (zone_id g : ℕ) (cs : List Cell) (e e' : Entity)
    → Alike e e'
    → Located zone_id cs g e
    → Located zone_id cs g e'
Located-Alike zone_id g cs e e' a l = record {
  own = a.guid ∙ l.own;
  home = a.zone ∙ l.home;
  cell = l.cell;
  stands_in = a.cell ∙ l.stands_in;
  on_grid = l.on_grid ∙ ground (arith, a.grid_x, a.grid_y);
}

pub store-IsValid :
    (z : Zone) (g : ℕ) (e e' : Entity)
    → IsValid z
    → lookup g z.entities ≡ some e
    → Alike e e'
    → IsValid (store_entity g e' z)
store-IsValid z g e e' v found a = record {
  distinct = insert-Distinct g e' z.entities v.distinct;
  grid = v.grid;
  placed = λ g' i. ground (arith, v.placed g' i, lookup-insert g g' e' z.entities, found, a.cell);
  located = λ g' f h. elim (Bool-cases (g == g')) [
    | inl same ↦
        let is_new : e' ≡ f = ground (arith, lookup-insert g g' e' z.entities, h, same) in
        let eg : g ≡ g' = ==→eq g g' same in
        subst₂ (Located z.zone_id z.cell_map) eg is_new
          (Located-Alike z.zone_id g z.cell_map e e' a (v.located g e found))
    | inr other ↦ v.located g' f (ground (arith, lookup-insert g g' e' z.entities, h, other))
  ];
}

-- A cell that is changed in its list alone leaves the grid as it was.
abbrev SameCorner : Cell → Cell → Type 0
SameCorner c d = (d.cell_x ≡ c.cell_x) × (d.cell_y ≡ c.cell_y)

Located-set :
    (zone_id g : ℕ) (cs : List Cell) (j : ℕ) (c d : Cell) (e : Entity)
    → get_elem? cs j ≡ some c
    → SameCorner c d
    → Located zone_id cs g e
    → Located zone_id (set cs j d) g e
Located-set zone_id g cs j c d e found same l = record {
  own = l.own;
  home = l.home;
  cell = l.cell;
  stands_in = l.stands_in;
  on_grid = corner-set cs l.cell j c d found same.0 same.1 ∙ l.on_grid;
}

corner_of :
    (cs : List Cell) (j : ℕ) (c : Cell) (e : Entity)
    → get_elem? cs j ≡ some c
    → e.cur_grid_pos_x ≡ c.cell_x
    → e.cur_grid_pos_y ≡ c.cell_y
    → corner cs j ≡ some (e.cur_grid_pos_x, e.cur_grid_pos_y)
corner_of [] j c e found ex ey = cc
corner_of (x ∷ cs) zero c e found ex ey = ground (arith, found)
corner_of (x ∷ cs) (suc j) c e found ex ey = corner_of cs j c e found ex ey

-- The entity that enters a cell: its pointers are those of the cell and the zone.
pub enter-IsValid :
    (z : Zone) (j : ℕ) (c : Cell) (e : Entity)
    → IsValid z
    → get_elem? z.cell_map j ≡ some c
    → lookup e.guid z.entities ≡ none
    → e.current_zone ≡ some z.zone_id
    → e.current_cell ≡ some j
    → e.cur_grid_pos_x ≡ c.cell_x
    → e.cur_grid_pos_y ≡ c.cell_y
    → IsValid (
        store_entity e.guid e (record z { cell_map = set z.cell_map j (add_entity_here e.guid c) }))
unfolding add_entity_here
enter-IsValid z j c e v found new home stands_in ex ey =
    let d = add_entity_here e.guid c in
    let same_grid = corner-set z.cell_map j j c d found refl refl in
    let entered : Located z.zone_id (set z.cell_map j d) e.guid e = record {
      own = refl;
      home = home;
      cell = j;
      stands_in = stands_in;
      on_grid = same_grid ∙ corner_of z.cell_map j c e found ex ey;
    } in
    record {
      distinct = insert-Distinct e.guid e z.entities v.distinct;
      grid = λ x y hx hy.
          corner-set z.cell_map (y * z.width + x) j c d found refl refl ∙ v.grid x y hx hy;
      placed = Placed-enter z.cell_map z.entities j c e.guid e v.placed found new stands_in;
      located = λ g f h. elim (Bool-cases (e.guid == g)) [
        | inl same ↦
            let is_new : e ≡ f = ground (arith, lookup-insert e.guid g e z.entities, h, same) in
            subst₂ (Located z.zone_id (set z.cell_map j d)) (==→eq e.guid g same) is_new entered
        | inr other ↦
            Located-set z.zone_id g z.cell_map j c d f found (refl, refl)
              (v.located g f (ground (arith, lookup-insert e.guid g e z.entities, h, other)))
      ];
    }

-- An entity that leaves its cell and its zone.
pub leave-IsValid :
    (z : Zone) (j h : ℕ) (c : Cell) (e : Entity)
    → IsValid z
    → get_elem? z.cell_map j ≡ some c
    → lookup h z.entities ≡ some e
    → e.current_cell ≡ some j
    → IsValid (record z {
      cell_map = set z.cell_map j (remove_entity_here h c);
      entities = erase h z.entities;
    })
unfolding remove_entity_here
leave-IsValid z j h c e v found known stands_in =
    let d = remove_entity_here h c in
    record {
      distinct = erase-Distinct h z.entities v.distinct;
      grid = λ x y hx hy.
          corner-set z.cell_map (y * z.width + x) j c d found refl refl ∙ v.grid x y hx hy;
      placed = Placed-leave z.cell_map z.entities j c h e v.distinct v.placed found known stands_in;
      located = λ g f k. elim (Bool-cases (h == g)) [
        | inl same ↦ absurd (gone g f (==→eq h g same) k)
        | inr other ↦
            Located-set z.zone_id g z.cell_map j c d f found (refl, refl)
              (v.located g f (ground (arith, lookup-erase_ne h g z.entities, k, other)))
      ];
    }
  where
    gone : (g : ℕ) (f : Entity) → h ≡ g → lookup g (erase h z.entities) ≡ some f → ⊥
    gone g f e' k =
        cc
          (lookup-erase_self h z.entities v.distinct, ap (λ n. lookup n (erase h z.entities)) e', k)

-- The invariant reads the entities only by look-up.
pub entities-IsValid :
    (z : Zone) (es : Dict Entity)
    → IsValid z
    → Distinct es
    → ((g : ℕ) → lookup g es ≡ lookup g z.entities)
    → IsValid (record z { entities = es })
entities-IsValid z es v d same = record {
  distinct = d;
  grid = v.grid;
  placed = λ g i. v.placed g i ∙ ground (arith, same g);
  located = λ g e h. v.located g e (sym (same g) ∙ h);
}
