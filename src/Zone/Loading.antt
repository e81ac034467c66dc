-- ===== src/Zone/Loading.antt =====
-- `LoadZoneFromMap` (src/NECROWorld/Server/Simulation/Maps/Zone.cpp): the cell map of a new zone.
use necro_mmo.Common.{
  ℕ, zero, suc, ◌+◌, ◌*◌, ◌<◌, ◌≡◌, refl, ap, ◌∙◌, some, List, [], ◌∷◌, ◌++◌, length, arith,
}
use necro_mmo.Common.Int.{pos}
use necro_mmo.Zone.{Cell, load, load_row, load_rows}
use necro_mmo.Zone.Placement.{IsValid, corner, here_at, count}

length-load_row : (left x y id : ℕ) → length (load_row left x y id) ≡ left
unfolding load_row
length-load_row zero x y id = refl
length-load_row (suc left) x y id = ap suc (length-load_row left (x + 1) y (id + 1))

corner-append_left : (cs ds : List Cell) (i : ℕ) → i < length cs → corner (cs ++ ds) i ≡ corner cs i
corner-append_left [] ds i h = elim h [ ]
corner-append_left (c ∷ cs) ds zero h = refl
corner-append_left (c ∷ cs) ds (suc i) h = corner-append_left cs ds i (omega arith)

corner-append_right : (cs ds : List Cell) (i : ℕ) → corner (cs ++ ds) (length cs + i) ≡ corner ds i
corner-append_right [] ds i = ap (corner ds) (omega arith)
corner-append_right (c ∷ cs) ds i =
    let e : suc (length cs) + i ≡ suc (length cs + i) = omega arith in
    ap (corner (c ∷ (cs ++ ds))) e ∙ corner-append_right cs ds i

corner-load_row :
    (left x y id i : ℕ) → i < left → corner (load_row left x y id) i ≡ some (pos (x + i), pos y)
unfolding load_row
corner-load_row zero x y id i h = elim h [ ]
corner-load_row (suc left) x y id zero h = ap (λ k. some (pos k, pos y)) (omega arith)
corner-load_row (suc left) x y id (suc i) h =
    let e : x + 1 + i ≡ x + suc i = omega arith in
    corner-load_row left (x + 1) y (id + 1) i (omega arith) ∙ ap (λ k. some (pos k, pos y)) e

corner-load_rows :
    (left w y id j i : ℕ)
    → j < left
    → i < w
    → corner (load_rows left w y id) (j * w + i) ≡ some (pos i, pos (y + j))
unfolding load_rows
corner-load_rows zero w y id j i hj hi = elim hj [ ]
corner-load_rows (suc left) w y id zero i hj hi =
    let row = load_row w 0 y id in
    let rest = load_rows left w (y + 1) (id + w) in
    let e : zero * w + i ≡ i = omega arith in
    let e' : 0 + i ≡ i = omega arith in
    let ey : y ≡ y + 0 = omega arith in
    ap (corner (row ++ rest)) e
    ∙ (corner-append_left row rest i (omega (arith, length-load_row w 0 y id))
        ∙ (corner-load_row w 0 y id i hi
            ∙ (ap (λ k. some (pos k, pos y)) e' ∙ ap (λ k. some (pos i, pos k)) ey)))
corner-load_rows (suc left) w y id (suc j) i hj hi =
    let row = load_row w 0 y id in
    let rest = load_rows left w (y + 1) (id + w) in
    let e : suc j * w + i ≡ length row + (j * w + i) = grind (arith, length-load_row w 0 y id) in
    let ey : y + 1 + j ≡ y + suc j = omega arith in
    ap (corner (row ++ rest)) e
    ∙ (corner-append_right row rest (j * w + i)
        ∙ (corner-load_rows left w (y + 1) (id + w) j i (omega arith) hi
            ∙ ap (λ k. some (pos i, pos k)) ey))

count-append_cells :
    (cs ds : List Cell) (g : ℕ)
    → ((i : ℕ) → count g (here_at cs i) ≡ 0)
    → ((i : ℕ) → count g (here_at ds i) ≡ 0)
    → (i : ℕ) → count g (here_at (cs ++ ds) i) ≡ 0
count-append_cells [] ds g p q i = q i
count-append_cells (c ∷ cs) ds g p q zero = p zero
count-append_cells (c ∷ cs) ds g p q (suc i) = count-append_cells cs ds g (λ k. p (suc k)) q i

count-load_row : (left x y id g i : ℕ) → count g (here_at (load_row left x y id) i) ≡ 0
unfolding load_row
count-load_row zero x y id g i = refl
count-load_row (suc left) x y id g zero = refl
count-load_row (suc left) x y id g (suc i) = count-load_row left (x + 1) y (id + 1) g i

count-load_rows : (left w y id g i : ℕ) → count g (here_at (load_rows left w y id) i) ≡ 0
unfolding load_rows
count-load_rows zero w y id g i = refl
count-load_rows (suc left) w y id g i =
    count-append_cells (load_row w 0 y id) (load_rows left w (y + 1) (id + w)) g
      (count-load_row w 0 y id g) (count-load_rows left w (y + 1) (id + w) g) i

-- A map that is loaded has, at the index `y * width + x`, the cell with the coordinates (x, y), and
-- nobody in it: the zone is valid.
pub load-IsValid : (zone_id map_id w h : ℕ) → IsValid (load zone_id map_id w h)
unfolding load
load-IsValid zone_id map_id w h = record {
  distinct = tt;
  grid =
      λ x y hx hy. corner-load_rows h w 0 0 y x hy hx ∙ ap (λ k. some (pos x, pos k)) (omega arith);
  placed = λ g i. count-load_rows h w 0 0 g i;
  located = λ g e k. cc;
}
