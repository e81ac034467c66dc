-- ===== src/Packet/Content.antt =====
-- What a packet holds after a chain of `Append` (src/shared/Packets/Packet.cpp).
use necro_mmo.Common.{
  ℕ, ◌+◌, ◌-◌, ◌/◌, ◌≤◌, ◌≡◌, refl, sym, ◌∙◌, none, some, List, [], ◌∷◌, ◌++◌, length, replicate,
  arith, length-append, length-replicate, take-append, drop_all, Bool-cases, ltb, inl, inr, le→leb,
  if◌then◌else◌,
}
use necro_mmo.Packet.{
  Packet, Field, append, encode, write_fields, grow, overwrite, get_content, clear, empty, make,
}
use mathlib.Core.List.{append-nil, append_assoc}

-- The write position is the end of the vector, and the vector fits its reserved memory.
pub record IsValid (p : Packet) : Type 0 where
  pub at_end : p.wpos ≡ length p.bytes
  pub reserved : length p.bytes ≤ p.capacity
  pub unread : p.rpos ≤ p.wpos

pub length-grow : (n : ℕ) (bytes : List ℕ) → length bytes ≤ n → length (grow n bytes) ≡ n
length-grow n bytes h = omega (
  arith,
  length-append bytes (replicate (n - length bytes) 0),
  length-replicate {A = ℕ} (n - length bytes) 0,
)

overwrite_end :
    (bytes src : List ℕ)
    → overwrite (length bytes) src (grow (length bytes + length src) bytes) ≡ some (bytes ++ src)
overwrite_end bytes src = rw (
  length-grow (length bytes + length src) bytes (omega arith),
  le→leb (length bytes + length src) (length bytes + length src) (omega arith),
  take-append bytes (replicate (length bytes + length src - length bytes) 0),
  drop_all (length bytes + length src) (grow (length bytes + length src) bytes)
      (omega (arith, length-grow (length bytes + length src) bytes)),
  append-nil,
)

-- A vector that is long enough is not resized, which is growing it by nothing.
resize-eq-grow :
    (n : ℕ) (bytes : List ℕ)
    → length bytes ≤ n
    → (if ltb (length bytes) n then grow n bytes else bytes) ≡ grow n bytes
resize-eq-grow n bytes h = elim (Bool-cases (ltb (length bytes) n)) [
  | inl longer ↦ rw longer
  | inr same ↦ let e : n - length bytes ≡ 0 = ground arith in rw (same, e) (sym (append-nil bytes))
]

copied :
    (w : ℕ) (bytes src : List ℕ)
    → w ≡ length bytes
    → overwrite w src
        (if ltb (length bytes) (w + length src) then grow (w + length src) bytes else bytes)
      ≡ some (bytes ++ src)
copied w bytes src e =
    rw (e, resize-eq-grow (length bytes + length src) bytes (omega arith)) (overwrite_end bytes src)

-- The reserved memory after `Append`: it has room for the new size, and does not shrink.
capacity_for : ℕ → ℕ → ℕ
capacity_for capacity n =
    if ltb capacity n then (if ltb capacity (n + n / 2) then n + n / 2 else capacity) else capacity

le-capacity_for : (capacity n : ℕ) → n ≤ capacity_for capacity n
unfolding capacity_for
le-capacity_for capacity n = ground arith

append_lem :
    (src : List ℕ) (p : Packet)
    → IsValid p
    → append src p
      ≡ some (record p {
        bytes = p.bytes ++ src;
        wpos = p.wpos + length src;
        capacity = capacity_for p.capacity (p.wpos + length src);
      })
unfolding append capacity_for
append_lem src p v = elim (Bool-cases (ltb p.capacity (p.wpos + length src))) [
  | inl more ↦
      elim (Bool-cases (ltb p.capacity (p.wpos + length src + (p.wpos + length src) / 2))) [
        | inl grows ↦ rw (copied p.wpos p.bytes src v.at_end, more, grows)
        | inr keeps ↦ rw (copied p.wpos p.bytes src v.at_end, more, keeps)
      ]
  | inr room ↦ rw (copied p.wpos p.bytes src v.at_end, room)
]

pub append-bytes :
    (src : List ℕ) (p : Packet)
    → IsValid p
    → (q : Packet) × (append src p ≡ some q) × IsValid q × (q.bytes ≡ p.bytes ++ src)
append-bytes src p v = (
  record p {
    bytes = p.bytes ++ src;
    wpos = p.wpos + length src;
    capacity = capacity_for p.capacity (p.wpos + length src);
  },
  append_lem src p v,
  record {
    at_end = omega (arith, length-append p.bytes src, v.at_end);
    reserved = omega (
      arith,
      length-append p.bytes src,
      v.at_end,
      le-capacity_for p.capacity (p.wpos + length src),
    );
    unread = omega (arith, v.unread);
  },
  refl,
)

-- The bytes of a chain of `<<`, one field after the other.
abbrev pub encode_all : List Field → List ℕ
encode_all [] = []
encode_all (f ∷ fs) = encode f ++ encode_all fs

-- A chain of `<<` on a valid packet never writes outside the vector: it leaves a valid packet that
-- holds the old bytes, followed by the fields' bytes in the order of the chain.
pub write_fields-bytes :
    (fs : List Field) (p : Packet)
    → IsValid p
    → (q : Packet) × (write_fields fs p ≡ some q) × IsValid q × (q.bytes ≡ p.bytes ++ encode_all fs)
unfolding write_fields
write_fields-bytes [] p v = (p, refl, v, sym (append-nil p.bytes))
write_fields-bytes (f ∷ fs) p v =
    let (q, e, w, b) = append-bytes (encode f) p v in
    let (r, e', w', b') = write_fields-bytes fs q w in
    (r, rw (e, write_fields) e', w', b' ∙ rw b (append_assoc p.bytes (encode f) (encode_all fs)))

pub make-IsValid : (n : ℕ) → IsValid (make n)
make-IsValid n = omega arith

-- A reply is written into an empty packet, so it holds exactly the bytes of its fields.
pub write_fields-empty :
    (fs : List Field)
    → (q : Packet) × (write_fields fs empty ≡ some q) × IsValid q × (q.bytes ≡ encode_all fs)
write_fields-empty fs = write_fields-bytes fs empty (make-IsValid _)

-- `Clear` leaves a valid empty packet, on which `GetContent` throws.
pub clear_lem : (p : Packet) → IsValid (clear p) × (get_content (clear p) ≡ none)
unfolding clear get_content
clear_lem p = (omega arith, refl)
