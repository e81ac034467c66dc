-- ===== src/Message/Stream.antt =====
-- A buffer as a stream of bytes (src/shared/Packets/NetworkMessage.h): what is written comes out in
-- order, whatever compaction and enlargement happen in between.
use necro_mmo.Common.{
  ℕ, ◌+◌, ◌-◌, ◌/◌, ◌≤◌, ◌<◌, ◌≡◌, refl, sym, ap, ◌∙◌, Option, none, some, List, [], ◌∷◌, ◌++◌, inl,
  inr, ◌⊎◌, length, take, drop, replicate, arith, drop-drop, Bool-cases, ltb, ◌==◌,
  append-length_eq_zero, take-append_le, take_all,
}
use mathlib.Core.List.{append-nil}
use necro_mmo.Common.Int.{pos, negsuc}
use necro_mmo.Packet.{grow, Packet}
use necro_mmo.Packet.Content.{length-grow}
use necro_mmo.Message.{
  Message, IsValid, active, remaining_space, compact_data, write, copy_in, read_completed,
  write_completed, enlarge_buffer_if_needed, enlarge_max_size, of_moved,
}
use necro_mmo.Message.Buffer.{
  copy_in_lem, make_room_lem, compact_data_lem, length-active, sub_size_le,
}

-- `Write` on a valid buffer never leaves the vector: it gives a valid buffer whose unread bytes are
-- the old ones followed by what was written. The decrypted bytes stay.
pub write-active :
    (src : List ℕ) (m : Message)
    → IsValid m
    → (w : Message) × (write src m ≡ some w)
      × IsValid w
      × (active w ≡ active m ++ src)
      × (w.cipher_bytes ≡ m.cipher_bytes)
unfolding write
write-active src m v = elim (Bool-cases (ltb 0 (length src))) [
  | inr nothing ↦
      let e : src ≡ [] = append-length_eq_zero src (ground arith) in
      (m, rw nothing, v, sym (ap (λ l. active m ++ l) e ∙ append-nil (active m)), refl)
  | inl something ↦
      let (r, e, vr, same, fits, ciph) = make_room_lem (length src) m v in
      let (w, e', vw, act, ciph') = copy_in_lem src r vr fits in
      (w, rw (something, e) e', vw, act ∙ ap (λ l. l ++ src) same, ciph' ∙ ciph)
]

-- `ReadCompleted` for no more than is unread drops that many bytes from the front.
pub read_completed-active :
    (n : ℕ) (m : Message)
    → IsValid m
    → n ≤ length (active m)
    → IsValid (read_completed n m) × (active (read_completed n m) ≡ drop n (active m))
unfolding read_completed
read_completed-active n m v h = (
  record { read_first = omega (arith, length-active m v, v.read_first); inside = v.inside },
  sym (drop-drop n m.rpos (take m.wpos m.bytes)),
)

pub cipher_bytes-read_completed :
    (n : ℕ) (m : Message) → (read_completed n m).cipher_bytes ≡ m.cipher_bytes
unfolding read_completed
cipher_bytes-read_completed n m = refl

-- A receive that fits the free space appends to the unread bytes.
pub write_completed-active :
    (received : List ℕ) (m : Message)
    → IsValid m
    → length received ≤ remaining_space m
    → (w : Message) × (write_completed received m ≡ some w)
      × IsValid w
      × (active w ≡ active m ++ received)
unfolding write_completed
write_completed-active received m v h =
    let (w, e, vw, act, _) = copy_in_lem received m v (room h) in (w, unfold copy_in in e, vw, act)
  where
    room : length received ≤ remaining_space m → m.wpos + length received ≤ length m.bytes
    room k = omega (arith, k, sub_size_le (length m.bytes) m.wpos v.inside, v.inside)

-- `EnlargeBufferIfNeeded` on a valid buffer of two bytes or more keeps the unread bytes. Either it
-- returns 0 and there is room for a receive; or it returns -1 and changes nothing, and that only where
-- the buffer has no room left and half as many bytes again would exceed the limit. It never lets a
-- buffer grow beyond the limit.
pub enlarge_makes_room :
    (m : Message)
    → IsValid m
    → 2 ≤ length m.bytes
    → let (w, code) = enlarge_buffer_if_needed m in
      IsValid w
      × (active w ≡ active m)
      × ((code ≡ pos 0) × (0 < remaining_space w)
          ⊎ (code ≡ negsuc 0)
            × (w ≡ m)
            × (remaining_space m ≡ 0)
            × (enlarge_max_size < length m.bytes + length m.bytes / 2))
      × (length m.bytes ≤ enlarge_max_size → length w.bytes ≤ enlarge_max_size)
unfolding enlarge_buffer_if_needed
enlarge_makes_room m v h = elim (Bool-cases (length m.bytes == 0)) [
  | inl nothing ↦ absurd (ground arith)
  | inr something ↦ elim (Bool-cases (remaining_space m == 0)) [
    | inr free ↦ rw (something, free) (v, refl, inl (refl, ground arith), λ k. k)
    | inl full ↦ elim (Bool-cases (ltb enlarge_max_size (length m.bytes + length m.bytes / 2))) [
      | inl over ↦
          rw (something, full, over)
            (v, refl, inr (refl, refl, ground (arith, full), ground (arith, over)), λ k. k)
      | inr within ↦
          let len = length-grow (length m.bytes + length m.bytes / 2) m.bytes (omega arith) in
          rw (something, full, within)
            (
              record { read_first = v.read_first; inside = omega (arith, len, v.inside) },
              ap (drop m.rpos) (
                  take-append_le m.wpos m.bytes
                    (replicate (length m.bytes + length m.bytes / 2 - length m.bytes) 0) v.inside),
              inl (
                refl,
                rw
                    (sub_size_le (length (grow (length m.bytes + length m.bytes / 2) m.bytes))
                      m.wpos (omega (arith, len, v.inside)))
                    (omega (arith, len, v.inside)),
              ),
              λ k. ground (arith, len),
            )
    ]
  ]
]

pub enlarge_buffer_if_needed-IsValid :
    (m : Message) → IsValid m → IsValid (enlarge_buffer_if_needed m).0
unfolding enlarge_buffer_if_needed
enlarge_buffer_if_needed-IsValid m v = elim (Bool-cases (length m.bytes == 0)) [
  | inl nothing ↦ rw nothing v
  | inr something ↦ elim (Bool-cases (remaining_space m == 0)) [
    | inr free ↦ rw (something, free) v
    | inl full ↦ elim (Bool-cases (ltb enlarge_max_size (length m.bytes + length m.bytes / 2))) [
      | inl over ↦ rw (something, full, over) v
      | inr within ↦
          let len = length-grow (length m.bytes + length m.bytes / 2) m.bytes (omega arith) in
          rw (something, full, within)
            (record { read_first = v.read_first; inside = omega (arith, len, v.inside) })
    ]
  ]
]

-- A packet that is moved into a message is unread as a whole.
pub of_moved-active : (p : Packet) → IsValid (of_moved p) × (active (of_moved p) ≡ p.bytes)
unfolding of_moved
of_moved-active p = (
  record { read_first = omega arith; inside = omega arith },
  take_all (length p.bytes) p.bytes (omega arith),
)

-- What a connection does with its buffer.
pub data Op : Type 0 where
  put : List ℕ → Op
  consume : ℕ → Op
  compact : Op

pub run : List Op → Message → Option Message
run [] m = some m
run (put src ∷ ops) m = elim (write src m) [ none ↦ none | some w ↦ run ops w ]
run (consume n ∷ ops) m = run ops (read_completed n m)
run (compact ∷ ops) m = elim (compact_data m) [ none ↦ none | some c ↦ run ops c ]

-- The same on a plain queue of bytes.
abbrev pub queue_after : List Op → List ℕ → List ℕ
queue_after [] q = q
queue_after (put src ∷ ops) q = queue_after ops (q ++ src)
queue_after (consume n ∷ ops) q = queue_after ops (drop n q)
queue_after (compact ∷ ops) q = queue_after ops q

-- No more is consumed than is there.
abbrev pub Legal : List Op → List ℕ → Type 0
Legal [] q = Unit
Legal (put src ∷ ops) q = Legal ops (q ++ src)
Legal (consume n ∷ ops) q = (n ≤ length q) × Legal ops (drop n q)
Legal (compact ∷ ops) q = Legal ops q

-- A buffer implements a first-in first-out queue of bytes: after any sequence of writes,
-- compactions and reads of bytes that are there, it is valid and holds what the queue holds, and no
-- operation of the sequence leaves the vector.
pub run-queue :
    (ops : List Op) (m : Message) (q : List ℕ)
    → IsValid m
    → active m ≡ q
    → Legal ops q
    → (w : Message) × (run ops m ≡ some w) × IsValid w × (active w ≡ queue_after ops q)
unfolding run
run-queue [] m q v e l = (m, refl, v, e)
run-queue (put src ∷ ops) m q v e l =
    let (w, s, vw, act, _) = write-active src m v in
    let (r, s', vr, act') = run-queue ops w (q ++ src) vw (act ∙ ap (λ x. x ++ src) e) l in
    (r, rw (s, run) s', vr, act')
run-queue (consume n ∷ ops) m q v e l =
    let (vw, act) = read_completed-active n m v (rw e l.0) in
    run-queue ops (read_completed n m) (drop n q) vw (act ∙ ap (drop n) e) l.1
run-queue (compact ∷ ops) m q v e l =
    let (c, s, (vc, act, _, _, _, _)) = compact_data_lem m v in
    let (r, s', vr, act') = run-queue ops c q vc (act ∙ e) l in (r, rw (s, run) s', vr, act')
