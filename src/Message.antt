-- ===== src/Message.antt =====
-- `NetworkMessage` (src/shared/Packets/NetworkMessage.h): a buffer with a read and a write position,
-- in which a connection collects what it receives and from which it sends. An operation returns
-- `none` where it would read or write outside its vector. Sizes are mathematical numbers, except
-- that the two differences of positions wrap as `size_t` does.
pub mod Buffer
pub mod Stream
pub mod Crypt
use mathlib.Core.Option
use necro_mmo.Common.{
  ℕ, suc, ◌+◌, ◌-◌, ◌*◌, ◌/◌, ◌^◌, ◌≤◌, ◌≡◌, Bool, Option, none, some, List, [], ◌∷◌, ◌++◌, length,
  take, drop, replicate, ltb, leb, ◌==◌, if◌then◌else◌, arith,
}
use necro_mmo.Common.Int.{ℤ, pos, negsuc}
use necro_mmo.Packet.{Packet, overwrite, grow, default_pckt_size, get_content, take_data}

pub record Message : Type 0 where
  pub rpos : ℕ
  pub wpos : ℕ
  pub bytes : List ℕ
  pub cipher_bytes : List ℕ
  pub tag : List ℕ

abbrev pub enlarge_max_size : ℕ
enlarge_max_size = default_pckt_size * 16

-- The constructors. The tag array is not initialised, and is written before it is read.
abbrev holding : ℕ → List ℕ → Message
holding wpos bytes = record { rpos = 0; wpos = wpos; bytes = bytes; cipher_bytes = []; tag = [] }

-- `NetworkMessage(reservedSize)`, and `NetworkMessage()` with the default size.
unfoldable pub make : ℕ → Message
make reserved_size = holding 0 (replicate reserved_size 0)

-- `NetworkMessage(Packet&&)`: it takes the packet's vector.
unfoldable pub of_moved : Packet → Message
of_moved p = holding (length p.bytes) p.bytes

-- `a - b` on `size_t`.
abbrev pub sub_size : ℕ → ℕ → ℕ
sub_size a b = if leb b a then a - b else a + 2 ^ 64 - b

abbrev pub active_size : Message → ℕ
active_size m = sub_size m.wpos m.rpos

abbrev pub remaining_space : Message → ℕ
remaining_space m = sub_size (length m.bytes) m.wpos

-- What stands between the positions: `GetReadPointer()`, for `GetActiveSize()` bytes.
abbrev pub active : Message → List ℕ
active m = drop m.rpos (take m.wpos m.bytes)

unfoldable pub clear : Message → Message
clear m = record m { bytes = []; rpos = 0; wpos = 0 }

unfoldable pub soft_clear : Message → Message
soft_clear m = record m { rpos = 0; wpos = 0 }

unfoldable pub read_completed : ℕ → Message → Message
read_completed n m = record m { rpos = m.rpos + n }

-- After a receive: `received` is what the socket has put at the write pointer.
unfoldable pub write_completed : List ℕ → Message → Option Message
write_completed received m =
    Option.map (λ b. record m { bytes = b; wpos = m.wpos + length received })
      (overwrite m.wpos received m.bytes)

-- `memmove` of the active bytes to the front; the source must lie in the vector too.
unfoldable pub shift_active : Message → Option (List ℕ)
shift_active m = if leb m.wpos (length m.bytes) then overwrite 0 (active m) m.bytes else none

unfoldable pub compact_data : Message → Option Message
unfolding shift_active
compact_data m =
    if ltb 0 m.rpos
    then Option.map (λ b. record m { bytes = b; wpos = sub_size m.wpos m.rpos; rpos = 0 })
        (if m.rpos == m.wpos then some m.bytes else shift_active m)
    else some m

-- `resize` to `Size() + size`, and half as much again.
enlarge_for : ℕ → Message → Message
enlarge_for size m =
    let new_size = length m.bytes + size in
    record m { bytes = grow (new_size + new_size / 2) m.bytes }

-- First compact, then enlarge.
unfoldable pub make_room : ℕ → Message → Option Message
unfolding enlarge_for
make_room size m =
    if ltb (remaining_space m) size
    then Option.map (λ c. if ltb (remaining_space c) size then enlarge_for size c else c)
        (compact_data m)
    else some m

pub copy_in : List ℕ → Message → Option Message
copy_in src m =
    Option.map (λ b. record m { bytes = b; wpos = m.wpos + length src })
      (overwrite m.wpos src m.bytes)

unfoldable pub write : List ℕ → Message → Option Message
unfolding make_room copy_in Option.bind
write src m =
    if ltb 0 (length src) then Option.bind (make_room (length src) m) (copy_in src) else some m

-- `EnlargeBufferIfNeeded`: 0, or -1 where the buffer is empty or would become too large.
unfoldable pub enlarge_buffer_if_needed : Message → Message × ℤ
enlarge_buffer_if_needed m =
    let new_size = length m.bytes + length m.bytes / 2 in
    if length m.bytes == 0
    then (m, negsuc 0)
    else if remaining_space m == 0
    then (if ltb enlarge_max_size new_size
        then (m, negsuc 0)
        else (record m { bytes = grow new_size m.bytes }, pos 0))
    else (m, pos 0)

-- `NetworkMessage(const Packet&)`: it copies the content, and `GetContentToRead` may throw.
pub of_copied : Packet → Option Message
unfolding write Option.bind
of_copied p = Option.bind (get_content p) (λ content. write content (make (length p.bytes)))

-- The positions are in order and inside the vector.
pub record IsValid (m : Message) : Type 0 where
  pub read_first : m.rpos ≤ m.wpos
  pub inside : m.wpos ≤ length m.bytes
