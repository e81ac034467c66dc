-- ===== src/Tests/Fixtures.antt =====
-- The parameters of the model, instantiated: floats that are whole numbers, and a cipher that only
-- pads.
use native.Mathlib.Nat.{div-add-mod', mod-lt}
use necro_mmo.Common.{
  ℕ, zero, suc, ◌+◌, ◌-◌, ◌*◌, ◌/◌, ◌%◌, ◌<◌, ◌≡◌, refl, ap, some, replicate, ltb, ◌||◌, arith,
}
use necro_mmo.Common.Int.{ℤ, pos, negsuc}
use necro_mmo.Entity.{Fpu}
use necro_mmo.Aes.{Gcm}

abbrev of_grid : ℤ → ℕ → ℕ → ℕ
of_grid (pos g) w h = g * w + h
of_grid (negsuc g) w h = 0

-- Division with a remainder has one outcome.
same_quotient : (a b w r h : ℕ) → a * w + r ≡ b * w + h → r < w → h < w → a ≡ b
same_quotient zero zero w r h e lr lh = refl
same_quotient zero (suc b) w r h e lr lh = absurd (grind arith)
same_quotient (suc a) zero w r h e lr lh = absurd (grind arith)
same_quotient (suc a) (suc b) w r h e lr lh = ap suc (same_quotient a b w r h (grind arith) lr lh)

pub quotient : (g w h : ℕ) → h < w → (g * w + h) / w ≡ g
quotient g w h lt =
    same_quotient ((g * w + h) / w) g w ((g * w + h) % w) h (div-add-mod' (g * w + h) w)
      (mod-lt (g * w + h) (omega arith)) lt

abbrev pub whole_numbers : Fpu
whole_numbers = record {
  floor_div = λ b w. pos (b / w);
  of_grid = of_grid;
  is_finite = λ b. ltb b 1000000;
  too_far = λ x y. ltb 31 (x - y) || ltb 31 (y - x);
  zero_bits = 0;
  spawn_height_bits = 100;
  floor_div-of_grid = λ g w h lt _. ap pos (quotient g w h lt);
}

-- The tag is sixteen zeros.
abbrev pub padding : Gcm
padding = record {
  seal = λ key iv aad text. (text, replicate 16 0);
  unseal = λ key iv aad tag cipher. some cipher;
  length-seal = λ key iv aad text. refl;
  length-tag = λ key iv aad text. refl;
  unseal-seal = λ key iv aad text. refl;
}
