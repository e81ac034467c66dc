-- ===== src/Packet.antt =====
-- `Packet` (src/shared/Packets/Packet.h and Packet.cpp): the growable byte buffer in which a reply
-- is written field by field. `fault` cases are accesses outside the vector.
pub mod Content
use necro_mmo.Common.{
  ℕ, suc, ◌+◌, ◌/◌, Bool, true, false, Option, none, some, List, [], ◌∷◌, ◌++◌, length, take, drop,
  replicate, ltb, leb, ◌-◌, if◌then◌else◌, map,
}
use mathlib.Core.Option
use necro_mmo.Common.Bytes.{to_bytes}

pub record Packet : Type 0 where
  pub rpos : ℕ
  pub wpos : ℕ
  pub bytes : List ℕ
  pub capacity : ℕ

abbrev pub default_pckt_size : ℕ
default_pckt_size = 0x1000

-- `Packet()` and `Packet(reservedSize)`: memory is reserved, and the vector is empty.
abbrev pub make : ℕ → Packet
make reserved_size = record { rpos = 0; wpos = 0; bytes = []; capacity = reserved_size }

abbrev pub empty : Packet
empty = make default_pckt_size

pub clear : Packet → Packet
clear p = record p { bytes = []; wpos = 0; rpos = 0 }

-- `reserve`: it never shrinks.
abbrev reserve : ℕ → Packet → Packet
reserve n p = if ltb p.capacity n then record p { capacity = n } else p

-- `resize` to a larger size: the new bytes are zero.
abbrev pub grow : ℕ → List ℕ → List ℕ
grow n bytes = bytes ++ replicate (n - length bytes) 0

-- `memcpy` over a part of a buffer. Nothing is copied where the part is not inside it.
abbrev pub overwrite : ℕ → List ℕ → List ℕ → Option (List ℕ)
overwrite at src bytes =
    if leb (at + length src) (length bytes)
    then some (take at bytes ++ (src ++ drop (at + length src) bytes))
    else none

unfoldable pub append : List ℕ → Packet → Option Packet
append src p =
    let new_size = p.wpos + length src in
    let q = if ltb p.capacity new_size then reserve (new_size + new_size / 2) p else p in
    let bytes = if ltb (length p.bytes) new_size then grow new_size p.bytes else p.bytes in
    Option.map (λ written. record q { bytes = written; wpos = new_size })
      (overwrite p.wpos src bytes)

-- What the overloads of `operator<<` append.
pub data Field : Type 0 where
  bool_field : Bool → Field
  u8 u16 u32 u64 : ℕ → Field
  -- A float is its bit pattern.
  float_field : ℕ → Field
  -- A `std::string`: no terminator is written.
  string_field : List ℕ → Field
  -- A C string: its terminator is written too.
  c_string : List ℕ → Field
  -- `Append(src, cnt)`, called directly.
  raw : List ℕ → Field

unfoldable pub encode : Field → List ℕ
encode (bool_field b) = to_bytes 1 (if b then 1 else 0)
encode (u8 n) = to_bytes 1 n
encode (u16 n) = to_bytes 2 n
encode (u32 n) = to_bytes 4 n
encode (u64 n) = to_bytes 8 n
encode (float_field n) = to_bytes 4 n
encode (string_field s) = s
encode (c_string s) = s ++ 0 ∷ []
encode (raw s) = s

-- A chain of `<<` on one packet.
unfoldable pub write_fields : List Field → Packet → Option Packet
write_fields [] p = some p
write_fields (f ∷ fs) p = elim (append (encode f) p) [ none ↦ none | some q ↦ write_fields fs q ]

-- `GetContent` throws `std::out_of_range` on an empty packet.
pub get_content : Packet → Option (List ℕ)
get_content p = elim p.bytes [ [] ↦ none | b ∷ bs ↦ some (b ∷ bs) ]

-- `TakeData`: the vector moves out, and the packet is left empty.
pub take_data : Packet → List ℕ × Packet
take_data p = (p.bytes, record p { bytes = []; rpos = 0; wpos = 0; capacity = 0 })
