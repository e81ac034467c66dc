-- ===== src/Zone/Safety.antt =====
-- `AddEntityToZone`, `RemoveEntityFromZone` and the transfers
-- (src/NECROWorld/Server/Simulation/Maps/Zone.cpp) follow no dangling pointer and keep the invariant.
use necro_mmo.Common.{
  ℕ, ◌+◌, ◌*◌, ◌<◌, ◌≡◌, ◌≢◌, refl, sym, none, some, get_elem?, set, arith, Option-cases,
  Bool-cases, inl, inr, Bool, true, false, ◌⊎◌,
}
use necro_mmo.Common.Dict.{lookup, erase, lookup-insert, lookup-erase_self, lookup-erase_ne}
use necro_mmo.Common.Int.{ℤ, pos, negsuc}
use necro_mmo.Entity.{
  Fpu, Entity, cell_bound_check, world_to_cell, set_current_cell, set_current_zone,
}
use necro_mmo.Zone.{Cell, Zone, cell_index, remove_entity_here}
use necro_mmo.Zone.Placement.{IsValid, corner-get_elem?}
use necro_mmo.Zone.Upkeep.{enter-IsValid, leave-IsValid}
use necro_mmo.Zone.Moves.{add_entity_to_zone, place_at, place, leave_cell, remove_entity_from_zone}

-- What the bound check of a cell's coordinates gives.
pub cell_bound_check_lem :
    (x y : ℤ) (w h : ℕ)
    → cell_bound_check x y w h ≡ true
    → (a : ℕ) × (b : ℕ) × (x ≡ pos a) × (y ≡ pos b) × (a < w) × (b < h)
cell_bound_check_lem (pos a) (pos b) w h e = (a, b, refl, refl, ground arith, ground arith)
cell_bound_check_lem (pos a) (negsuc b) w h e = cc
cell_bound_check_lem (negsuc a) (pos b) w h e = cc
cell_bound_check_lem (negsuc a) (negsuc b) w h e = cc

-- Coordinates inside the map lead to a cell, which has them.
pub cell_at :
    (z : Zone) (x y : ℤ)
    → IsValid z
    → cell_bound_check x y z.width z.height ≡ true
    → (i : ℕ) × (c : Cell) × (cell_index x y z.width ≡ some i)
      × (get_elem? z.cell_map i ≡ some c)
      × (c.cell_x ≡ x)
      × (c.cell_y ≡ y)
cell_at z x y v e =
    let (a, b, ex, ey, ha, hb) = cell_bound_check_lem x y z.width z.height e in
    let (c, found, p, _) =
      corner-get_elem? z.cell_map (b * z.width + a) (pos a, pos b) (v.grid a b ha hb) in
    (b * z.width + a, c, ground arith, found, ground (arith, p), ground (arith, p))

-- What `AddEntityToZone` gives for the entity `e`.
pub record Added (fpu : Fpu) (e : Entity) (z z' : Zone) (taken : Bool) : Type 0 where
  pub valid : IsValid z'
  pub zone_same : z'.zone_id ≡ z.zone_id
  pub width_same : z'.width ≡ z.width
  pub height_same : z'.height ≡ z.height
  pub others : (g : ℕ) → g ≢ e.guid → lookup g z'.entities ≡ lookup g z.entities
  pub refused :
      taken ≡ false
      → (z' ≡ z)
        × ((lookup e.guid z.entities ≢ none)
            ⊎ (let (x, y) = world_to_cell fpu e.pos_x e.pos_y in
                cell_bound_check x y z.width z.height ≡ false))
  pub entered :
      taken ≡ true
      → (f : Entity) × (lookup e.guid z'.entities ≡ some f)
        × (lookup e.guid z.entities ≡ none)
        × (f.char_id ≡ e.char_id)
        × (f.pos_x ≡ e.pos_x)
        × (f.pos_y ≡ e.pos_y)
        × (f.pos_z ≡ e.pos_z)
        × ((f.cur_grid_pos_x, f.cur_grid_pos_y) ≡ world_to_cell fpu e.pos_x e.pos_y)
        × (cell_bound_check f.cur_grid_pos_x f.cur_grid_pos_y z.width z.height ≡ true)

Added-refused :
    (fpu : Fpu) (e : Entity) (z : Zone)
    → IsValid z
    → (lookup e.guid z.entities ≢ none)
      ⊎ (let (x, y) = world_to_cell fpu e.pos_x e.pos_y in
          cell_bound_check x y z.width z.height ≡ false)
    → Added fpu e z z false
Added-refused fpu e z v why = record {
  valid = v;
  zone_same = refl;
  width_same = refl;
  height_same = refl;
  others = λ g h. refl;
  refused = λ _. (refl, why);
  entered = λ h. cc;
}

Added-placed :
    (fpu : Fpu) (e : Entity) (z : Zone) (i : ℕ) (c : Cell)
    → IsValid z
    → lookup e.guid z.entities ≡ none
    → cell_bound_check c.cell_x c.cell_y z.width z.height ≡ true
    → (c.cell_x, c.cell_y) ≡ world_to_cell fpu e.pos_x e.pos_y
    → get_elem? z.cell_map i ≡ some c
    → Added fpu e z (place i c e z) true
unfolding set_current_cell set_current_zone
Added-placed fpu e z i c v new inside at found =
    let e' = set_current_cell i c.cell_x c.cell_y (set_current_zone z.zone_id e) in
    record {
      valid = enter-IsValid z i c e' v found new refl refl refl refl;
      zone_same = refl;
      width_same = refl;
      height_same = refl;
      others = λ g h. ground (arith, lookup-insert e.guid g e' z.entities, h);
      refused = λ h. cc;
      entered = λ _. (
        e',
        ground (arith, lookup-insert e.guid e.guid e' z.entities),
        new,
        refl,
        refl,
        refl,
        refl,
        at,
        inside,
      );
    }

-- `AddEntityToZone` on a valid zone always finds its cell: the result is a valid zone with the same
-- measures, in which every other entity is the same. An entity is taken exactly when it was not known
-- and its position is inside the map; it then keeps its position and stands on the grid where its
-- position is. One that is refused leaves the zone unchanged.
pub add_entity_to_zone-Added :
    (fpu : Fpu) (e : Entity) (z : Zone)
    → IsValid z
    → (z' : Zone) × (taken : Bool) × (add_entity_to_zone fpu e z ≡ some (z', taken))
      × Added fpu e z z' taken
unfolding add_entity_to_zone
add_entity_to_zone-Added fpu e z v = elim (Option-cases (lookup e.guid z.entities)) [
  | inr (f, known) ↦
      (z, false, rw (known, add_entity_to_zone), Added-refused fpu e z v (inl (λ k. cc (known, k))))
  | inl new ↦
      let (x, y) = world_to_cell fpu e.pos_x e.pos_y in
      elim (Bool-cases (cell_bound_check x y z.width z.height)) [
        | inr outside ↦
            (z, false, rw (new, add_entity_to_zone, outside), Added-refused fpu e z v (inr outside))
        | inl inside ↦
            let (i, c, ei, found, cx, cy) = cell_at z x y v inside in
            (
              place i c e z,
              true,
              rw (new, add_entity_to_zone, inside, ei, found, place_at),
              Added-placed fpu e z i c v new (rw (cx, cy) inside) (ground (arith, cx, cy)) found,
            )
      ]
]

-- The pointer to its cell, of an entity that the zone owns, leads to a cell.
pub cell_of :
    (z : Zone) (g : ℕ) (e : Entity)
    → IsValid z
    → lookup g z.entities ≡ some e
    → (i : ℕ) × (c : Cell) × (e.current_cell ≡ some i) × (get_elem? z.cell_map i ≡ some c)
cell_of z g e v known =
    let l = v.located g e known in
    let (c, found, _, _) = corner-get_elem? z.cell_map l.cell _ l.on_grid in
    (l.cell, c, l.stands_in, found)

-- `RemoveEntityFromZone` on a valid zone never follows a null cell pointer: it gives a valid zone
-- without the guid, in which every other entity is the same, and returns true exactly if the guid
-- was known.
pub remove_entity_from_zone-IsValid :
    (g : ℕ) (z : Zone)
    → IsValid z
    → (z' : Zone) × (found : Bool) × (remove_entity_from_zone g z ≡ some (z', found))
      × IsValid z'
      × (z'.zone_id ≡ z.zone_id)
      × (lookup g z'.entities ≡ none)
      × ((h : ℕ) → h ≢ g → lookup h z'.entities ≡ lookup h z.entities)
      × (found ≡ true → lookup g z.entities ≢ none)
      × (found ≡ false → lookup g z.entities ≡ none)
unfolding remove_entity_from_zone
remove_entity_from_zone-IsValid g z v = elim (Option-cases (lookup g z.entities)) [
  | inl unknown ↦ (
    z,
    false,
    rw (unknown, remove_entity_from_zone),
    v,
    refl,
    unknown,
    λ h ne. refl,
    λ e. cc,
    λ e. unknown,
  )
  | inr (e, known) ↦
      let (i, c, stands_in, found) = cell_of z g e v known in
      (
        record z {
          cell_map = set z.cell_map i (remove_entity_here g c);
          entities = erase g z.entities;
        },
        true,
        rw (known, remove_entity_from_zone, stands_in, leave_cell, found),
        leave-IsValid z i g c e v found known stands_in,
        refl,
        lookup-erase_self g z.entities v.distinct,
        λ h ne. lookup-erase_ne g h z.entities (λ eq. ne (sym eq)),
        λ _ e'. cc (known, e'),
        λ e'. cc,
      )
]
