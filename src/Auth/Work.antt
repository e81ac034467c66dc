-- ===== src/Auth/Work.antt =====
-- The proof of work (src/NECROAuth/Server/Auth/AuthSession.cpp, `VerifyProofOfWork`, and
-- src/shared/Utility/Utility.h).
use mathlib.Core.Option
use necro_mmo.Common.{
  ℕ, zero, suc, ◌+◌, ◌-◌, ◌/◌, ◌%◌, ◌^◌, ◌≤◌, ◌<◌, ◌≡◌, refl, Bool, true, false, not, Option, none,
  some, List, ◌++◌, ◌==◌, if◌then◌else◌, length, get_elem?, get_elem?_lt, arith, Bool-cases,
  Option-cases, inl, inr,
}
use necro_mmo.Common.Bytes.{to_bytes}

-- The first bytes are zero, `left` of them from the index `i`; `none` where the hash is too short.
unfoldable pub zero_bytes : ℕ → ℕ → List ℕ → Option Bool
zero_bytes zero i hash = some true
zero_bytes (suc left) i hash = elim (get_elem? hash i) [
  | none ↦ none
  | some b ↦ let rest = zero_bytes left (i + 1) hash in if not (b == 0) then some false else rest
]

-- The mask keeps the top `extra` bits of a byte: whether they are all zero.
abbrev pub top_bits_zero : ℕ → ℕ → Bool
top_bits_zero extra b = b / 2 ^ (8 - extra) == 0

-- `ProofOfWork_HasLeadingZeroBits`.
unfoldable pub has_leading_zero_bits : List ℕ → ℕ → Option Bool
unfolding zero_bytes
has_leading_zero_bits hash bits = elim (zero_bytes (bits / 8) 0 hash) [
  | none ↦ none
  | some false ↦ some false
  | some true ↦
      if bits % 8 == 0
      then some true
      else Option.map (top_bits_zero (bits % 8)) (get_elem? hash (bits / 8))
]

-- `VerifyProofOfWork` with the parameter SHA-256, which gives nothing when OpenSSL fails.
unfoldable pub verify_proof_of_work : (List ℕ → Option (List ℕ)) → List ℕ → ℕ → ℕ → Option Bool
verify_proof_of_work sha256 challenge answer difficulty =
    elim (sha256 (challenge ++ to_bytes 8 answer)) [
      | none ↦ some false
      | some hash ↦
          if not (length hash == 32) then some false else has_leading_zero_bits hash difficulty
    ]

zero_bytes_lem :
    (left i : ℕ) (hash : List ℕ)
    → left + i ≤ length hash
    → (b : Bool) × (zero_bytes left i hash ≡ some b)
unfolding zero_bytes
zero_bytes_lem zero i hash h = (true, refl)
zero_bytes_lem (suc left) i hash h =
    let (b, found) = get_elem?_lt hash i (omega arith) in
    let (r, e) = zero_bytes_lem left (i + 1) hash (omega arith) in
    elim (Bool-cases (not (b == 0))) [
      | inl other ↦ (false, rw (found, zero_bytes, other))
      | inr null ↦ (r, rw (found, zero_bytes, null) e)
    ]

-- A hash of 32 bytes is long enough for every difficulty below 256.
pub has_leading_zero_bits_lem :
    (hash : List ℕ) (bits : ℕ)
    → length hash ≡ 32
    → bits < 256
    → (b : Bool) × (has_leading_zero_bits hash bits ≡ some b)
unfolding has_leading_zero_bits
has_leading_zero_bits_lem hash bits l h =
    let (r, e) = zero_bytes_lem (bits / 8) 0 hash (omega arith) in
    let (b, found) = get_elem?_lt hash (bits / 8) (omega arith) in last b found r e
  where
    last :
        (b : ℕ)
        → get_elem? hash (bits / 8) ≡ some b
        → (r : Bool) → zero_bytes (bits / 8) 0 hash ≡ some r
        → (c : Bool) × (has_leading_zero_bits hash bits ≡ some c)
    last b found false e = (false, rw (e, has_leading_zero_bits))
    last b found true e = elim (Bool-cases (bits % 8 == 0)) [
      | inl even ↦ (true, rw (e, has_leading_zero_bits, even))
      | inr odd ↦ (top_bits_zero (bits % 8) b, rw (e, has_leading_zero_bits, odd, found))
    ]

pub verify_proof_of_work_lem :
    (sha256 : List ℕ → Option (List ℕ)) (challenge : List ℕ) (answer difficulty : ℕ)
    → difficulty < 256
    → (b : Bool) × (verify_proof_of_work sha256 challenge answer difficulty ≡ some b)
unfolding verify_proof_of_work
verify_proof_of_work_lem sha256 challenge answer difficulty h =
    elim (Option-cases (sha256 (challenge ++ to_bytes 8 answer))) [
      | inl broken ↦ (false, rw (broken, verify_proof_of_work))
      | inr (hash, e) ↦ elim (Bool-cases (not (length hash == 32))) [
        | inl odd ↦ (false, rw (e, verify_proof_of_work, odd))
        | inr right ↦
            let (b, r) = has_leading_zero_bits_lem hash difficulty (ground arith) h in
            (b, rw (e, verify_proof_of_work, right) r)
      ]
    ]
