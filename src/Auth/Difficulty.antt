-- ===== src/Auth/Difficulty.antt =====
-- What the leading zero bits of a hash (src/shared/Utility/Utility.h,
-- `ProofOfWork_HasLeadingZeroBits`) say of it as a number.
use mathlib.Core.Option
use native.Mathlib.Nat.{div-eq_of_lt, div-eq-sub-div, one-le-pow, pow-succ', mul_comm, mul_assoc}
use necro_mmo.Common.{
  ℕ, zero, suc, ◌+◌, ◌-◌, ◌*◌, ◌/◌, ◌%◌, ◌^◌, ◌≤◌, ◌<◌, ◌≡◌, refl, ap, sym, ◌∙◌, Bool, true, false,
  Option, none, some, List, [], ◌∷◌, ◌==◌, if◌then◌else◌, length, get_elem?, arith, Bool-cases,
  Option-cases, inl, inr, All, ltb, lt→ltb, ==→eq,
}
use necro_mmo.Auth.Work.{zero_bytes, top_bits_zero, has_leading_zero_bits}

-- A hash as a number, its first byte the highest.
abbrev pub number : List ℕ → ℕ
number [] = 0
number (b ∷ bs) = b * 256 ^ length bs + number bs

abbrev pub IsBytes : List ℕ → Type 0
IsBytes = All (λ b. b < 256)

-- `q` zero bytes and `r` zero bits after them.
abbrev and_bits : ℕ → Option ℕ → Option Bool → Option Bool
and_bits r next none = none
and_bits r next (some false) = some false
and_bits r next (some true) = if r == 0 then some true else Option.map (top_bits_zero r) next

abbrev zeros : ℕ → ℕ → List ℕ → Option Bool
zeros q r hash = and_bits r (get_elem? hash q) (zero_bytes q 0 hash)

less_times : (a b w : ℕ) → a < b → a * w + w ≤ b * w
less_times a b w h = grind arith

number_bound : (bs : List ℕ) → IsBytes bs → number bs < 256 ^ length bs
number_bound [] h = omega arith
number_bound (b ∷ bs) (h, hs) =
    let rest = number_bound bs hs in
    let first = less_times b 256 (256 ^ length bs) h in
    let power = pow-succ' 256 (length bs) in omega (arith, rest, first, power)

zero_bytes-shift : (q i b : ℕ) (bs : List ℕ) → zero_bytes q (i + 1) (b ∷ bs) ≡ zero_bytes q i bs
unfolding zero_bytes
zero_bytes-shift zero i b bs = refl
zero_bytes-shift (suc q) i b bs =
    let step : i + 1 ≡ suc i = omega arith in
    let same : get_elem? (b ∷ bs) (i + 1) ≡ get_elem? bs i = ap (λ n. get_elem? (b ∷ bs) n) step in
    elim (Option-cases (get_elem? bs i)) [
      | inl gone ↦ rw (same, gone, zero_bytes)
      | inr (c, found) ↦ rw (same, found, zero_bytes, zero_bytes-shift q (i + 1) b bs)
    ]

more_times : (a b w : ℕ) → a ≤ b → a * w ≤ b * w
more_times a b w h = grind arith

size_of : (p k w : ℕ) → p * k ≡ 256 → k * w * p ≡ 256 * w
size_of p k w e =
    let order : k * w * p ≡ p * k * w = mul_comm (k * w) p ∙ sym (mul_assoc p k w) in
    order ∙ ap (λ x. x * w) e

-- A byte below `k`, where `p * k` is 256.
byte_below :
    (p k b v w : ℕ)
    → p * k ≡ 256
    → 0 < p
    → v < w
    → (if ltb b k then true else false) ≡ ltb ((b * w + v) * p) (256 * w)
byte_below p k b v w e hp hv = elim (Bool-cases (ltb b k)) [
  | inl below ↦
      let first = less_times b k w (ground arith) in
      let whole = less_times (b * w + v) (k * w) p (omega arith) in
      let size : k * w * p ≡ 256 * w = size_of p k w e in rw below (sym (lt→ltb _ _ (omega arith)))
  | inr above ↦
      let first = more_times k b w (ground arith) in
      let whole = more_times (k * w) (b * w + v) p (omega arith) in
      let size : k * w * p ≡ 256 * w = size_of p k w e in rw above (ground arith)
]

-- A quotient that is zero.
quotient_zero : (b k : ℕ) → 0 < k → (b / k == 0) ≡ ltb b k
quotient_zero b k h = elim (Bool-cases (ltb b k)) [
  | inl below ↦ ap (λ x. x == 0) (div-eq_of_lt (ground arith)) ∙ sym below
  | inr above ↦ let more = div-eq-sub-div {m = k} {n = b} h (ground arith) in ground (arith, more)
]

powers : (r : ℕ) → r < 8 → 2 ^ r * 2 ^ (8 - r) ≡ 256
powers zero h = refl
powers (suc zero) h = refl
powers (suc (suc zero)) h = refl
powers (suc (suc (suc zero))) h = refl
powers (suc (suc (suc (suc zero)))) h = refl
powers (suc (suc (suc (suc (suc zero))))) h = refl
powers (suc (suc (suc (suc (suc (suc zero)))))) h = refl
powers (suc (suc (suc (suc (suc (suc (suc zero))))))) h = refl
powers (suc (suc (suc (suc (suc (suc (suc (suc r)))))))) h = absurd (omega arith)

-- The top `r` bits of a byte are zero.
top_bits_zero_lem :
    (r b v w : ℕ)
    → r < 8
    → b < 256
    → v < w
    → (if r == 0 then true else top_bits_zero r b) ≡ ltb ((b * w + v) * 2 ^ r) (256 * w)
top_bits_zero_lem r b v w hr hb hv =
    let size : 2 ^ r * 2 ^ (8 - r) ≡ 256 = powers r hr in
    let below = byte_below (2 ^ r) (2 ^ (8 - r)) b v w size (one-le-pow r 2 (omega arith)) hv in
    elim (Bool-cases (r == 0)) [
      | inl even ↦ ground (arith, below)
      | inr odd ↦ rw odd (
          quotient_zero b (2 ^ (8 - r)) (one-le-pow (8 - r) 2 (omega arith))
          ∙ ground (arith, below))
    ]

-- A first byte more.
zeros-suc :
    (q r b : ℕ) (bs : List ℕ)
    → zeros (suc q) r (b ∷ bs) ≡ (if b == 0 then zeros q r bs else some false)
unfolding zero_bytes
zeros-suc q r b bs =
    let shifted : zero_bytes q 1 (b ∷ bs) ≡ zero_bytes q 0 bs = zero_bytes-shift q 0 b bs in
    elim (Bool-cases (b == 0)) [
      | inl null ↦ rw (null, zero_bytes) (ap (λ o. and_bits r (get_elem? bs q) o) shifted)
      | inr other ↦ rw (other, zero_bytes) refl
    ]

eight_more : (n : ℕ) → 2 ^ (n + 8) ≡ 256 * 2 ^ n
eight_more n =
    let step : n + 8 ≡ suc (suc (suc (suc (suc (suc (suc (suc n))))))) = omega arith in
    let more : 2 ^ (suc (suc (suc (suc (suc (suc (suc (suc n)))))))) ≡ 256 * 2 ^ n = omega arith in
    ap (λ m. 2 ^ m) step ∙ more

scaled : (v p w : ℕ) → ltb (v * (256 * p)) (256 * w) ≡ ltb (v * p) w
scaled v p w = elim (Bool-cases (ltb (v * p) w)) [
  | inl less ↦ rw less (ground arith)
  | inr more ↦ rw more (ground arith)
]

too_large : (b v p w : ℕ) → 0 < b → 0 < p → ltb ((b * w + v) * (256 * p)) (256 * w) ≡ false
too_large b v p w hb hp =
    let first = more_times 1 b w hb in
    let whole = more_times 1 p (b * w + v) hp in ground (arith, first, whole)

zeros_lem :
    (q r : ℕ) (hash : List ℕ)
    → r < 8
    → q < length hash
    → IsBytes hash
    → zeros q r hash ≡ some (ltb (number hash * 2 ^ (8 * q + r)) (256 ^ length hash))
unfolding zero_bytes
zeros_lem q r [] hr hq h = absurd (omega arith)
zeros_lem zero r (b ∷ bs) hr hq (h, hs) =
    let top = top_bits_zero_lem r b (number bs) (256 ^ length bs) hr h (number_bound bs hs) in
    let none_more : 0 + r ≡ r = omega arith in
    elim (Bool-cases (r == 0)) [
      | inl even ↦
          rw (even, none_more, pow-succ' 256 (length bs))
            (ap some (sym (ap (λ t. if t then true else top_bits_zero r b) even) ∙ top))
      | inr odd ↦
          rw (odd, none_more, pow-succ' 256 (length bs))
            (ap some (sym (ap (λ t. if t then true else top_bits_zero r b) odd) ∙ top))
    ]
zeros_lem (suc q) r (b ∷ bs) hr hq (h, hs) =
    let rest = zeros_lem q r bs hr (omega arith) hs in
    let move : 8 * suc q + r ≡ 8 * q + r + 8 = omega arith in
    let power : 2 ^ (8 * suc q + r) ≡ 256 * 2 ^ (8 * q + r) =
      ap (λ n. 2 ^ n) move ∙ eight_more (8 * q + r) in
    zeros-suc q r b bs ∙ elim (Bool-cases (b == 0)) [
      | inl null ↦
          let same : b * 256 ^ length bs + number bs ≡ number bs =
            ap (λ x. x * 256 ^ length bs + number bs) (==→eq b 0 null) ∙ omega arith in
          rw (null, power, pow-succ' 256 (length bs), same)
            (rest ∙ ap some (sym (scaled (number bs) (2 ^ (8 * q + r)) (256 ^ length bs))))
      | inr other ↦
          rw (other, power, pow-succ' 256 (length bs))
            (ap some (
              sym (
                too_large b (number bs) _ _ (ground arith)
                  (one-le-pow (8 * q + r) 2 (omega arith)))))
    ]

-- For a hash of bytes that has more than `bits` bits, the check says whether the hash, read as a number
-- whose first byte is the highest, has `bits` leading zeros: times 2 ^ bits it is still less than 256 to
-- the number of bytes.
pub has_leading_zero_bits-number :
    (hash : List ℕ) (bits : ℕ)
    → IsBytes hash
    → bits < 8 * length hash
    → has_leading_zero_bits hash bits ≡ some (ltb (number hash * 2 ^ bits) (256 ^ length hash))
unfolding has_leading_zero_bits
has_leading_zero_bits-number hash bits h enough =
    let same : 8 * (bits / 8) + bits % 8 ≡ bits = omega arith in
    let found = zeros_lem (bits / 8) (bits % 8) hash (omega arith) (omega arith) h in
    found ∙ ap (λ n. some (ltb (number hash * 2 ^ n) (256 ^ length hash))) same
