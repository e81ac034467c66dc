-- ===== src/Message/Buffer.antt =====
-- The steps of `Write` and `CompactData` (src/shared/Packets/NetworkMessage.h) on a valid buffer:
-- none leaves the vector, and what is unread stays.
use mathlib.Core.List.{append_assoc}
use necro_mmo.Common.{
  ℕ, ◌+◌, ◌-◌, ◌/◌, ◌≤◌, ◌≡◌, refl, sym, ap, ◌∙◌, false, some, List, [], ◌++◌, inl, inr, length,
  take, drop, replicate, arith, length-append, length-take, length-drop, take-append,
  take-append_le, drop-take_append, Bool-cases, ltb, le→leb, ◌==◌, append-length_eq_zero,
}
use native.Mathlib.Nat.{zero-add}
use necro_mmo.Packet.{overwrite}
use necro_mmo.Packet.Content.{length-grow}
use necro_mmo.Message.{
  Message, IsValid, active, active_size, sub_size, remaining_space, compact_data, shift_active,
  enlarge_for, make_room, copy_in,
}

-- A block that fits is copied in place.
pub overwrite-fits :
    (at : ℕ) (src bytes : List ℕ)
    → at + length src ≤ length bytes
    → overwrite at src bytes ≡ some (take at bytes ++ (src ++ drop (at + length src) bytes))
overwrite-fits at src bytes h = rw (le→leb (at + length src) (length bytes) h)

pub length-overwritten :
    (at : ℕ) (src bytes : List ℕ)
    → at + length src ≤ length bytes
    → length (take at bytes ++ (src ++ drop (at + length src) bytes)) ≡ length bytes
length-overwritten at src bytes h = omega (
  arith,
  length-append (take at bytes) (src ++ drop (at + length src) bytes),
  length-append src (drop (at + length src) bytes),
  length-take at bytes (omega arith),
  length-drop (at + length src) bytes,
)

-- The bytes up to the end of the copied block.
pub take-overwritten :
    (at : ℕ) (src bytes : List ℕ)
    → at + length src ≤ length bytes
    → take (at + length src) (take at bytes ++ (src ++ drop (at + length src) bytes))
      ≡ take at bytes ++ src
take-overwritten at src bytes h =
    let front = take at bytes in
    let rest = drop (at + length src) bytes in
    let e : at + length src ≡ length (front ++ src) =
      omega (arith, length-append front src, length-take at bytes (omega arith)) in
    ap (λ l. take (at + length src) l) (sym (append_assoc front src rest))
    ∙ (ap (λ k. take k ((front ++ src) ++ rest)) e ∙ take-append (front ++ src) rest)

-- The same at the front of the vector.
overwrite-front :
    (src bytes : List ℕ)
    → length src ≤ length bytes
    → overwrite 0 src bytes ≡ some (src ++ drop (length src) bytes)
overwrite-front src bytes h = rw (zero-add, le→leb (length src) (length bytes) h)

length-front :
    (src bytes : List ℕ)
    → length src ≤ length bytes
    → length (src ++ drop (length src) bytes) ≡ length bytes
length-front src bytes h =
    omega (arith, length-append src (drop (length src) bytes), length-drop (length src) bytes)

pub length-active : (m : Message) → IsValid m → length (active m) ≡ m.wpos - m.rpos
length-active m v =
    length-drop m.rpos (take m.wpos m.bytes)
    ∙ ap (λ k. k - m.rpos) (length-take m.wpos m.bytes v.inside)

pub active_size_lem : (m : Message) → IsValid m → active_size m ≡ length (active m)
active_size_lem m v = rw (length-active m v) (ground (arith, v.read_first))

pub copy_in_lem :
    (src : List ℕ) (m : Message)
    → IsValid m
    → m.wpos + length src ≤ length m.bytes
    → (w : Message) × (copy_in src m ≡ some w)
      × IsValid w
      × (active w ≡ active m ++ src)
      × (w.cipher_bytes ≡ m.cipher_bytes)
unfolding copy_in
copy_in_lem src m v h = (
  record m {
    bytes = take m.wpos m.bytes ++ (src ++ drop (m.wpos + length src) m.bytes);
    wpos = m.wpos + length src;
  },
  rw (overwrite-fits m.wpos src m.bytes h),
  record {
    read_first = omega (arith, v.read_first);
    inside = omega (arith, length-overwritten m.wpos src m.bytes h);
  },
  rw (take-overwritten m.wpos src m.bytes h)
      (drop-take_append m.rpos m.wpos m.bytes src v.read_first v.inside),
  refl,
)

pub sub_size_le : (a b : ℕ) → b ≤ a → sub_size a b ≡ a - b
sub_size_le a b h = rw (le→leb b a h)

-- What compaction gives.
abbrev pub Compacted : Message → Message → Type 0
Compacted m c =
    IsValid c
    × (active c ≡ active m)
    × (c.rpos ≡ 0)
    × (length c.bytes ≡ length m.bytes)
    × (c.wpos + m.rpos ≡ m.wpos)
    × (c.cipher_bytes ≡ m.cipher_bytes)

shift_active_lem :
    (m : Message) → IsValid m → shift_active m ≡ some (active m ++ drop (length (active m)) m.bytes)
unfolding shift_active
shift_active_lem m v =
    rw (le→leb m.wpos (length m.bytes) v.inside)
      (overwrite-front (active m) m.bytes (omega (arith, length-active m v, v.inside)))

compact_all_read :
    (m : Message)
    → IsValid m
    → m.rpos ≡ m.wpos
    → Compacted m (record m { wpos = m.wpos - m.rpos; rpos = 0 })
compact_all_read m v e =
    let gone : active m ≡ [] = append-length_eq_zero (active m) (length-active m v ∙ omega arith) in
    let z : m.wpos - m.rpos ≡ 0 = omega arith in
    (
      record { read_first = omega arith; inside = omega (arith, v.inside) },
      ap (λ k. take k m.bytes) z ∙ sym gone,
      refl,
      refl,
      omega (arith, v.read_first),
      refl,
    )

compact_shifted :
    (m : Message)
    → IsValid m
    → Compacted m (record m {
      bytes = active m ++ drop (length (active m)) m.bytes;
      wpos = m.wpos - m.rpos;
      rpos = 0;
    })
compact_shifted m v =
    let len = length-front (active m) m.bytes (omega (arith, length-active m v, v.inside)) in
    (
      record { read_first = omega arith; inside = omega (arith, len, v.inside) },
      ap (λ k. take k (active m ++ drop (length (active m)) m.bytes)) (sym (length-active m v))
          ∙ take-append (active m) (drop (length (active m)) m.bytes),
      refl,
      len,
      omega (arith, v.read_first),
      refl,
    )

pub compact_data_lem :
    (m : Message) → IsValid m → (c : Message) × (compact_data m ≡ some c) × Compacted m c
unfolding compact_data
compact_data_lem m v = elim (Bool-cases (ltb 0 m.rpos)) [
  | inr unread ↦ (m, rw unread, (v, refl, ground arith, refl, ground arith, refl))
  | inl some_read ↦ elim (Bool-cases (m.rpos == m.wpos)) [
    | inl all_read ↦ (
      record m { wpos = m.wpos - m.rpos; rpos = 0 },
      rw (some_read, all_read, sub_size_le m.wpos m.rpos v.read_first),
      compact_all_read m v (ground arith),
    )
    | inr left ↦ (
      record m {
        bytes = active m ++ drop (length (active m)) m.bytes;
        wpos = m.wpos - m.rpos;
        rpos = 0;
      },
      rw (some_read, left, sub_size_le m.wpos m.rpos v.read_first, shift_active_lem m v),
      compact_shifted m v,
    )
  ]
]

enlarge_for_lem :
    (size : ℕ) (m : Message)
    → IsValid m
    → IsValid (enlarge_for size m)
      × (active (enlarge_for size m) ≡ active m)
      × (m.wpos + size ≤ length (enlarge_for size m).bytes)
unfolding enlarge_for
enlarge_for_lem size m v =
    let new_size = length m.bytes + size in
    let len = length-grow (new_size + new_size / 2) m.bytes (omega arith) in
    (
      record { read_first = v.read_first; inside = omega (arith, len, v.inside) },
      ap (drop m.rpos) (
          take-append_le m.wpos m.bytes (replicate (new_size + new_size / 2 - length m.bytes) 0)
            v.inside),
      omega (arith, len, v.inside),
    )

-- Room is made without losing an unread byte.
pub make_room_lem :
    (size : ℕ) (m : Message)
    → IsValid m
    → (r : Message) × (make_room size m ≡ some r)
      × IsValid r
      × (active r ≡ active m)
      × (r.wpos + size ≤ length r.bytes)
      × (r.cipher_bytes ≡ m.cipher_bytes)
unfolding make_room
make_room_lem size m v = elim (Bool-cases (ltb (remaining_space m) size)) [
  | inr fits ↦ (m, rw fits, v, refl, omega (arith, room m v fits), refl)
  | inl short ↦
      let (c, e, (w, same, _, _, _, ciph)) = compact_data_lem m v in
      elim (Bool-cases (ltb (remaining_space c) size)) [
        | inr fits ↦ (c, rw (short, e, fits), w, same, omega (arith, room c w fits), ciph)
        | inl tight ↦
            let (w', same', big) = enlarge_for_lem size c w in
            (enlarge_for size c, rw (short, e, tight), w', same' ∙ same, big, ciph)
      ]
]
  where
    room :
        (b : Message)
        → IsValid b
        → ltb (remaining_space b) size ≡ false
        → b.wpos + size ≤ length b.bytes
    room b w fits = ground (arith, w.inside)
