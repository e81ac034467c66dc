-- ===== src/Common/Bytes.antt =====
-- Integers as bytes in memory, on the little-endian machines that the program runs on: what
-- `memcpy` of a `uint16_t`, `uint32_t` or `uint64_t` writes and reads, and `htonl`.
use necro_mmo.Common.{
  ℕ, zero, suc, ◌+◌, ◌*◌, ◌/◌, ◌%◌, ◌^◌, ◌<◌, ◌≡◌, refl, ap, List, [], ◌∷◌, Option, none, some,
  arith, length, drop, take, leb, if◌then◌else◌,
}

-- The low `k` bytes of a number, lowest first.
abbrev pub to_bytes : ℕ → ℕ → List ℕ
to_bytes zero n = []
to_bytes (suc k) n = n % 256 ∷ to_bytes k (n / 256)

abbrev pub of_bytes : List ℕ → ℕ
of_bytes [] = 0
of_bytes (b ∷ bs) = b + 256 * of_bytes bs

-- The number needs no more than `k` bytes.
abbrev pub Fits : ℕ → ℕ → Type 0
Fits zero n = n ≡ 0
Fits (suc k) n = Fits k (n / 256)

pub length-to_bytes : (k n : ℕ) → length (to_bytes k n) ≡ k
length-to_bytes zero n = refl
length-to_bytes (suc k) n = ap suc (length-to_bytes k (n / 256))

pub of_bytes-to_bytes : (k n : ℕ) → Fits k n → of_bytes (to_bytes k n) ≡ n
of_bytes-to_bytes zero n h = omega arith
of_bytes-to_bytes (suc k) n h = omega (arith, of_bytes-to_bytes k (n / 256) h)

pub Fits-u16 : (n : ℕ) → n < 2 ^ 16 → Fits 2 n
Fits-u16 n h = omega arith

pub Fits-u32 : (n : ℕ) → n < 2 ^ 32 → Fits 4 n
Fits-u32 n h = omega arith

pub Fits-u64 : (n : ℕ) → n < 2 ^ 64 → Fits 8 n
Fits-u64 n h = omega arith

-- `htonl` and `ntohl`: the four bytes the other way round.
unfoldable pub htonl : ℕ → ℕ
htonl n =
    n / 16777216 % 256 + 256 * (n / 65536 % 256) + 65536 * (n / 256 % 256) + 16777216 * (n % 256)

pub htonl-lt : (n : ℕ) → htonl n < 2 ^ 32
unfolding htonl
htonl-lt n = omega arith

pub htonl-htonl : (n : ℕ) → n < 2 ^ 32 → htonl (htonl n) ≡ n
unfolding htonl
htonl-htonl n h = omega arith

-- The `k` bytes at an offset as a number; `none` where they are not all there.
unfoldable pub read_at : ℕ → ℕ → List ℕ → Option ℕ
read_at k i bytes =
    if leb (i + k) (length bytes) then some (of_bytes (take k (drop i bytes))) else none
