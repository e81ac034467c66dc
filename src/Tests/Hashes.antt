-- ===== src/Tests/Hashes.antt =====
-- A hash of two bytes with fourteen leading zero bits.
use necro_mmo.Common.{◌*◌, ◌^◌, ◌≡◌, refl, List, ℕ, [], ◌∷◌, some, true, ltb, length, arith}
use necro_mmo.Auth.Work.{has_leading_zero_bits, zero_bytes}
use necro_mmo.Auth.Difficulty.{number, IsBytes, has_leading_zero_bits-number}

abbrev three : List ℕ
three = 0 ∷ 3 ∷ []

three-IsBytes : IsBytes three
three-IsBytes = (omega arith, (omega arith, tt))

has_leading_zero_bits-number_example :
    has_leading_zero_bits three 14 ≡ some (ltb (number three * 2 ^ 14) (256 ^ length three))
has_leading_zero_bits-number_example =
    has_leading_zero_bits-number three 14 three-IsBytes (omega arith)

fourteen : has_leading_zero_bits three 14 ≡ some true
unfolding has_leading_zero_bits zero_bytes
fourteen = refl
