-- ===== src/Zone/Transfers.antt =====
-- `TransferPendingEntities` (src/NECROWorld/Server/Simulation/Maps/Zone.cpp).
use necro_mmo.Common.{
  ℕ, ◌≡◌, refl, ap, ◌∙◌, none, some, List, [], ◌∷◌, get_elem?, set, ◌==◌, arith, Option-cases,
  Bool-cases, inl, inr, ==→eq, true, false,
}
use necro_mmo.Common.Dict.{
  lookup, insert, erase, lookup-insert, lookup-erase_self, lookup-erase_ne, insert-Distinct,
}
use necro_mmo.Entity.{
  Fpu, Entity, Transfer, cell_bound_check, set_current_cell, snap_back, on_cell_transfer_fails,
}
use necro_mmo.Entity.Corrections.{on_cell_transfer_fails-SameBody}
use necro_mmo.Zone.{
  modify_cell, Cell, Zone, cell_index, add_entity_here, remove_entity_here, store_entity,
}
use necro_mmo.Zone.Placement.{IsValid}
use necro_mmo.Zone.Upkeep.{store-IsValid, enter-IsValid, leave-IsValid, entities-IsValid}
use necro_mmo.Zone.Safety.{cell_at, cell_of}
use necro_mmo.Zone.Kept.{
  SameOwner-insert, Kept, Kept-refl, Kept-trans, eq_refl, spot, arrives, destination, Arrived,
  Arrived-insert, Transferred,
}
use necro_mmo.Zone.Moves.{
  transfer_entity, transfer_one, transfer_all, transfer_pending_entities, move_to, enter_cell,
  leave_cell,
}

move_to_lem :
    (j i : ℕ) (c d : Cell) (e : Entity) (z : Zone)
    → e.current_cell ≡ some i
    → get_elem? z.cell_map i ≡ some c
    → get_elem? (set z.cell_map i (remove_entity_here e.guid c)) j ≡ some d
    → move_to (some j) e z
      ≡ some (
          store_entity e.guid (set_current_cell j d.cell_x d.cell_y e) (record z {
            cell_map =
                set (set z.cell_map i (remove_entity_here e.guid c)) j (add_entity_here e.guid d);
          }))
unfolding move_to enter_cell
move_to_lem j i c d e z stands_in found found' =
    let left : leave_cell e.current_cell e.guid z
        ≡ some (record z { cell_map = set z.cell_map i (remove_entity_here e.guid c) }) =
      ap (λ o. leave_cell o e.guid z) stands_in ∙ rw (found, leave_cell, modify_cell) in
    rw (left, move_to, enter_cell, found')

move_to-Transferred :
    (fpu : Fpu) (ctx : Transfer) (e : Entity) (z : Zone)
    → IsValid z
    → lookup ctx.guid z.entities ≡ some e
    → cell_bound_check ctx.new_grid_pos_x ctx.new_grid_pos_y z.width z.height ≡ true
    → Transferred fpu
        (ctx ∷ [])
        z
        (move_to (cell_index ctx.new_grid_pos_x ctx.new_grid_pos_y z.width) e z)
unfolding move_to enter_cell set_current_cell
move_to-Transferred fpu ctx e z v known inside =
    let g = ctx.guid in
    let x = ctx.new_grid_pos_x in
    let y = ctx.new_grid_pos_y in
    let l = v.located g e known in
    let own : lookup e.guid z.entities ≡ some e = ap (λ k. lookup k z.entities) l.own ∙ known in
    let (i, c, stands_in, found) = cell_of z e.guid e v own in
    let left = record z {
      cell_map = set z.cell_map i (remove_entity_here e.guid c);
      entities = erase e.guid z.entities;
    } in
    let vl = leave-IsValid z i e.guid c e v found own stands_in in
    let (j, d, ej, found', dx, dy) = cell_at left x y vl inside in
    let e' = set_current_cell j d.cell_x d.cell_y e in
    let entered =
      enter-IsValid left j d e' vl found' (lookup-erase_self e.guid z.entities v.distinct) l.home
        refl refl refl in
    (
      store_entity e.guid e'
          (record z { cell_map = set left.cell_map j (add_entity_here e.guid d) }),
      ap (λ o. move_to o e z) ej ∙ move_to_lem j i c d e z stands_in found found',
      entities-IsValid _ (insert e.guid e' z.entities) entered
          (insert-Distinct e.guid e' z.entities v.distinct)
          (λ h. ground (
            arith,
            lookup-insert e.guid h e' z.entities,
            lookup-insert e.guid h e' (erase e.guid z.entities),
            lookup-erase_ne e.guid h z.entities,
          )),
      record {
        id = refl;
        map = refl;
        wide = refl;
        high = refl;
        owners = λ h. SameOwner-insert e.guid h e e' z.entities own refl refl;
      },
      Arrived-insert fpu ctx e e' z
          (store_entity e.guid e'
            (record z { cell_map = set left.cell_map j (add_entity_here e.guid d) }))
          known (ap (λ k. insert k e' z.entities) l.own)
          (rw (eq_refl ctx.guid, inside) (cc (dx, dy))),
    )

snapped-Transferred :
    (fpu : Fpu) (ctx : Transfer) (e : Entity) (z : Zone)
    → IsValid z
    → lookup ctx.guid z.entities ≡ some e
    → cell_bound_check ctx.new_grid_pos_x ctx.new_grid_pos_y z.width z.height ≡ false
    → Transferred fpu (ctx ∷ []) z (elim (on_cell_transfer_fails (snap_back fpu e)) [
      | none ↦ none
      | some e' ↦ some (store_entity ctx.guid e' z)
    ])
unfolding snap_back
snapped-Transferred fpu ctx e z v known outside =
    let g = ctx.guid in
    let (e', told, same) = on_cell_transfer_fails-SameBody (snap_back fpu e) in
    (
      store_entity g e' z,
      rw told,
      store-IsValid z g e e' v known (record {
        guid = same.guid;
        zone = same.zone;
        cell = same.cell;
        grid_x = same.grid_x;
        grid_y = same.grid_y;
      }),
      record {
        id = refl;
        map = refl;
        wide = refl;
        high = refl;
        owners = λ h. SameOwner-insert g h e e' z.entities known same.owner same.guid;
      },
      Arrived-insert fpu ctx e e' z (store_entity g e' z) known refl
          (rw (eq_refl ctx.guid, outside) (cc (same.grid_x, same.grid_y, same.at_x, same.at_y))),
    )

transfer_one-Transferred :
    (fpu : Fpu) (ctx : Transfer) (z : Zone)
    → IsValid z
    → Transferred fpu (ctx ∷ []) z (transfer_one fpu ctx z)
unfolding transfer_one transfer_entity
transfer_one-Transferred fpu ctx z v = elim (Option-cases (lookup ctx.guid z.entities)) [
  | inl gone ↦
      (z, rw (gone, transfer_one), v, Kept-refl z, λ g e found. (e, found, stays g e gone found))
  | inr (e, known) ↦
      elim (Bool-cases (cell_bound_check ctx.new_grid_pos_x ctx.new_grid_pos_y z.width z.height)) [
        | inl inside ↦
            let (z', s, v', k, at) = move_to-Transferred fpu ctx e z v known inside in
            (z', rw (known, transfer_one, inside) s, v', k, at)
        | inr outside ↦
            let (z', s, v', k, at) = snapped-Transferred fpu ctx e z v known outside in
            (z', rw (known, transfer_one, outside) s, v', k, at)
      ]
]
  where
    stays :
        (g : ℕ) (e : Entity)
        → lookup ctx.guid z.entities ≡ none
        → lookup g z.entities ≡ some e
        → (spot e) ≡ arrives fpu z.width z.height g ctx (spot e)
    stays g e gone found = elim (Bool-cases (ctx.guid == g)) [
      | inl same ↦ absurd (cc (gone, found, ap (λ k. lookup k z.entities) (==→eq ctx.guid g same)))
      | inr other ↦ rw other refl
    ]

transfer_all-Transferred :
    (fpu : Fpu) (ctxs : List Transfer) (z : Zone)
    → IsValid z
    → Transferred fpu ctxs z (transfer_all fpu ctxs z)
unfolding transfer_all
transfer_all-Transferred fpu [] z v = (z, refl, v, Kept-refl z, λ g e found. (e, found, refl))
transfer_all-Transferred fpu (ctx ∷ ctxs) z v =
    let (z', s, v', k, at) = transfer_one-Transferred fpu ctx z v in
    let (z'', s', v'', k', at') = transfer_all-Transferred fpu ctxs z' v' in
    (
      z'',
      rw (s, transfer_all) s',
      v'',
      Kept-trans k k',
      λ g e found.
          let (e', found', first) = at g e found in
          let (e'', found'', then') = at' g e' found' in
          (
            e'',
            found'',
            then'
                ∙ (ap (λ w. destination fpu w z'.height g ctxs (spot e')) k.wide
                    ∙ (ap (λ h. destination fpu z.width h g ctxs (spot e')) k.high
                        ∙ ap (destination fpu z.width z.height g ctxs) first)),
          ),
    )

-- The pending transfers of a valid zone, whatever they ask for, are all served without following a
-- null or dangling pointer or leaving the cell map. No entity is lost, made up or given to another
-- character. The requests are served in order: one for a cell of the map puts its entity there, any
-- other puts it in the middle of the cell in which it stands, and nobody else is moved. Each entity
-- stands in exactly the cell that it points to, and no request is left.
pub transfer_pending_entities-IsValid :
    (fpu : Fpu) (z : Zone)
    → IsValid z
    → (z' : Zone) × (transfer_pending_entities fpu z ≡ some z')
      × IsValid z'
      × Kept z z'
      × Arrived fpu z.waiting z z'
      × (z'.waiting ≡ [])
unfolding transfer_pending_entities
transfer_pending_entities-IsValid fpu z v =
    let (z', s, v', k, at) = transfer_all-Transferred fpu z.waiting z v in
    (
      record z' { waiting = [] },
      rw (s, transfer_pending_entities),
      record { distinct = v'.distinct; grid = v'.grid; placed = v'.placed; located = v'.located },
      record { id = k.id; map = k.map; wide = k.wide; high = k.high; owners = k.owners },
      at,
      refl,
    )
