-- ===== src/Zone/Ticks.antt =====
-- `Zone::Update` and `LoadZoneFromMap` (src/NECROWorld/Server/Simulation/Maps/Zone.cpp): a whole tick
-- of a zone, and the zone before the first one.
use necro_mmo.Common.{
  ℕ, zero, suc, ◌+◌, ◌*◌, ◌<◌, ◌≡◌, ◌≢◌, refl, sym, Option, none, some, List, [], ◌∷◌, arith,
  Option-cases, Bool-cases, inl, inr, not, ◌||◌,
}
use necro_mmo.Common.Dict.{lookup}
use necro_mmo.Common.Int.{pos, eq_ℤ, eq_ℤ→eq}
use necro_mmo.Entity.{Fpu, Entity, Transfer, update, world_to_cell}
use necro_mmo.Zone.{
  Zone, store_entity, request_transfer, update_entity, update_here, update_cell, update_row,
  update_rows, add_pending_entity_to_transfer,
}
use necro_mmo.Zone.Placement.{IsValid, corner-get_elem?, here_at, count, listed-owned}
use necro_mmo.Zone.Upkeep.{Alike, store-IsValid}
use necro_mmo.Zone.Kept.{Kept, Kept-refl, Kept-trans, SameOwner, SameOwner-insert, Served}
use necro_mmo.Zone.Transfers.{transfer_pending_entities-IsValid}
use necro_mmo.Zone.Moves.{update_zone}

update-Alike :
    (fpu : Fpu) (e : Entity) → Alike e (update fpu e).0 × ((update fpu e).0.char_id ≡ e.char_id)
unfolding update
update-Alike fpu e =
    let (x, y) = world_to_cell fpu e.pos_x e.pos_y in
    elim (Bool-cases (not (eq_ℤ e.cur_grid_pos_x x) || not (eq_ℤ e.cur_grid_pos_y y))) [
      | inl moves ↦
          rw moves
            (record { guid = refl; zone = refl; cell = refl; grid_x = refl; grid_y = refl }, refl)
      | inr stays ↦ rw stays (
        record {
          guid = refl;
          zone = refl;
          cell = refl;
          grid_x = sym (eq_ℤ→eq e.cur_grid_pos_x x (ground arith));
          grid_y = sym (eq_ℤ→eq e.cur_grid_pos_y y (ground arith));
        },
        refl,
      )
    ]

-- A request only adds to the list of those that wait.
request-Served :
    (o : Option ℕ) (ctx : Option Transfer) (z : Zone)
    → IsValid z
    → o ≢ none
    → Served z (request_transfer o ctx z)
unfolding request_transfer add_pending_entity_to_transfer
request-Served none ctx z v h = absurd (h refl)
request-Served (some id) none z v h = (z, refl, v, Kept-refl z)
request-Served (some id) (some ctx) z v h = (
  add_pending_entity_to_transfer ctx z,
  refl,
  record { distinct = v.distinct; grid = v.grid; placed = v.placed; located = v.located },
  record { id = refl; map = refl; wide = refl; high = refl; owners = (Kept-refl z).owners },
)

update_entity-Served :
    (fpu : Fpu) (g : ℕ) (z : Zone)
    → IsValid z
    → lookup g z.entities ≢ none
    → Served z (update_entity fpu g z)
unfolding update_entity
update_entity-Served fpu g z v h = elim (Option-cases (lookup g z.entities)) [
  | inl gone ↦ absurd (h gone)
  | inr (e, known) ↦
      let (alike, owner) = update-Alike fpu e in
      let (e', ctx) = update fpu e in
      let stored = store_entity g e' z in
      let (z', s, v', k) =
        request-Served e.current_zone ctx stored (store-IsValid z g e e' v known alike)
          (λ null. cc ((v.located g e known).home, null)) in
      (
        z',
        rw (known, update_entity) s,
        v',
        Kept-trans {x = z} {y = stored} {z = z'}
            (record {
              id = refl;
              map = refl;
              wide = refl;
              high = refl;
              owners = λ g'. SameOwner-insert g g' e e' z.entities known owner alike.guid;
            })
            k,
      )
]

known_after :
    (z z' : Zone) (g : ℕ) → Kept z z' → lookup g z.entities ≢ none → lookup g z'.entities ≢ none
known_after z z' g k h = by_owner (lookup g z.entities) (lookup g z'.entities) (k.owners g) h
  where
    by_owner : (a b : Option Entity) → SameOwner a b → a ≢ none → b ≢ none
    by_owner none b s n = absurd (n refl)
    by_owner (some a) none s n = absurd s
    by_owner (some a) (some b) s n = λ e. cc

update_here-Served :
    (fpu : Fpu) (guids : List ℕ) (z : Zone)
    → IsValid z
    → ((g : ℕ) → 0 < count g guids → lookup g z.entities ≢ none)
    → Served z (update_here fpu guids z)
unfolding update_here
update_here-Served fpu [] z v h = (z, refl, v, Kept-refl z)
update_here-Served fpu (g ∷ guids) z v h =
    let (z', s, v', k) = update_entity-Served fpu g z v (h g (ground arith)) in
    let (z'', s', v'', k') =
      update_here-Served fpu guids z' v' (λ g' c. known_after z z' g' k (h g' (ground arith))) in
    (z'', rw (s, update_here) s', v'', Kept-trans k k')

update_cell-Served :
    (fpu : Fpu) (x y : ℕ) (z : Zone)
    → IsValid z
    → x < z.width
    → y < z.height
    → Served z (update_cell fpu (y * z.width + x) z)
unfolding update_cell
update_cell-Served fpu x y z v hx hy =
    let i = y * z.width + x in
    let (c, found, _, here) = corner-get_elem? z.cell_map i (pos x, pos y) (v.grid x y hx hy) in
    let (z', s, v', k) = update_here-Served fpu c.entities_here z v (λ g n. owned g (rw here n)) in
    (z', rw (found, update_cell) s, v', k)
  where
    owned :
        (g : ℕ) → 0 < count g (here_at z.cell_map (y * z.width + x)) → lookup g z.entities ≢ none
    owned g n gone = let (e, known, _) = listed-owned z g (y * z.width + x) v n in cc (known, gone)

update_row-Served :
    (fpu : Fpu) (left x y : ℕ) (z : Zone)
    → IsValid z
    → left + x ≡ z.width
    → y < z.height
    → Served z (update_row fpu left x y z)
unfolding update_row
update_row-Served fpu zero x y z v hx hy = (z, refl, v, Kept-refl z)
update_row-Served fpu (suc left) x y z v hx hy =
    let (z', s, v', k) = update_cell-Served fpu x y z v (omega arith) hy in
    let (z'', s', v'', k') =
      update_row-Served fpu left (x + 1) y z' v' (omega (arith, k.wide)) (omega (arith, k.high)) in
    (z'', rw (s, update_row) s', v'', Kept-trans k k')

update_rows-Served :
    (fpu : Fpu) (left y : ℕ) (z : Zone)
    → IsValid z
    → left + y ≡ z.height
    → Served z (update_rows fpu left y z)
unfolding update_rows
update_rows-Served fpu zero y z v hy = (z, refl, v, Kept-refl z)
update_rows-Served fpu (suc left) y z v hy =
    let (z', s, v', k) = update_row-Served fpu z.width 0 y z v (omega arith) (omega arith) in
    let (z'', s', v'', k') = update_rows-Served fpu left (y + 1) z' v' (omega (arith, k.high)) in
    (z'', rw (s, update_rows) s', v'', Kept-trans k k')

-- A tick of a valid zone runs to its end: no entity pointer in a cell dangles, no cell index leaves
-- the map. The zone is valid after it, owns the same entities of the same characters, and no
-- transfer is left waiting.
pub update_zone-IsValid :
    (fpu : Fpu) (z : Zone)
    → IsValid z
    → (z' : Zone) × (update_zone fpu z ≡ some z') × IsValid z' × Kept z z' × (z'.waiting ≡ [])
unfolding update_zone
update_zone-IsValid fpu z v =
    let (z', s, v', k) = update_rows-Served fpu z.height 0 z v (omega arith) in
    let (z'', s', v'', k', _, w) = transfer_pending_entities-IsValid fpu z' v' in
    (z'', rw (s, update_zone) s', v'', Kept-trans k k', w)
