-- ===== src/Socket/Sending.antt =====
-- The queue of a connection (src/shared/Sockets/TCPSocketBoost.cpp): what is queued goes out in order.
use mathlib.Core.Path.{subst}
use mathlib.Core.List.{append-nil, append_assoc}
use necro_mmo.Common.{
  ℕ, ◌≤◌, ◌<◌, ◌≡◌, refl, sym, ap, ◌∙◌, true, false, some, List, [], ◌∷◌, ◌++◌, length, take, arith,
  Bool-cases, inl, inr, leb, if◌then◌else◌, drop-append_le, All, take-append-drop,
  append-length_eq_zero,
}
use necro_mmo.Message.{Message, IsValid, active, active_size, read_completed}
use necro_mmo.Message.Stream.{read_completed-active}
use necro_mmo.Message.Buffer.{active_size_lem}
use necro_mmo.Socket.{Socket, queue_packet, async_write, written, internal_write_callback}

-- The bytes that are still to go out.
abbrev pub unsent : List Message → List ℕ
unsent [] = []
unsent (m ∷ ms) = active m ++ unsent ms

abbrev pub front_size : List Message → ℕ
front_size [] = 0
front_size (m ∷ ms) = length (active m)

unsent-append : (xs ys : List Message) → unsent (xs ++ ys) ≡ unsent xs ++ unsent ys
unsent-append [] ys = refl
unsent-append (x ∷ xs) ys =
    ap (λ l. active x ++ l) (unsent-append xs ys)
    ∙ sym (append_assoc (active x) (unsent xs) (unsent ys))

All-append_one :
    (xs : List Message) (y : Message) → All IsValid xs → IsValid y → All IsValid (xs ++ y ∷ [])
All-append_one [] y h v = (v, tt)
All-append_one (x ∷ xs) y h v = (h.0, All-append_one xs y h.1 v)

-- A write is under way exactly while there is something to send, and the messages are valid.
pub record Flows (s : Socket) : Type 0 where
  pub idle : s.async_writing ≡ false → s.out_queue ≡ []
  pub busy : s.async_writing ≡ true → 0 < length s.out_queue
  pub valid : All IsValid s.out_queue

async_write_lem :
    (s : Socket) (q : List Message)
    → s.out_queue ≡ q
    → (s.async_writing ≡ true → 0 < length q)
    → All IsValid q
    → Flows (async_write s) × ((async_write s).out_queue ≡ q)
unfolding async_write
async_write_lem s [] e busy v =
    rw (e, async_write)
      (record { idle = λ _. e; busy = λ w. absurd (omega (arith, busy w)); valid = rw e v }, e)
async_write_lem s (m ∷ ms) e busy v = elim (Bool-cases s.async_writing) [
  | inl on ↦
      rw (e, async_write, on)
        (record { idle = λ w. cc; busy = λ _. rw e (omega arith); valid = rw e v }, e)
  | inr off ↦
      rw (e, async_write, off)
        (record { idle = λ w. cc; busy = λ _. rw e (omega arith); valid = rw e v }, e)
]

-- A packet that is queued goes out after all that was queued before it, and a write is under way.
pub queue_packet-Flows :
    (m : Message) (s : Socket)
    → Flows s
    → IsValid m
    → Flows (queue_packet m s)
      × (unsent (queue_packet m s).out_queue ≡ unsent s.out_queue ++ active m)
      × ((queue_packet m s).async_writing ≡ true)
unfolding queue_packet
queue_packet-Flows m s f v =
    let (f', same) =
      async_write_lem (record s { out_queue = s.out_queue ++ m ∷ [] }) (s.out_queue ++ m ∷ []) refl
        (λ _. longer s.out_queue) (All-append_one s.out_queue m f.valid v) in
    (
      f',
      ap unsent same
          ∙ (unsent-append s.out_queue (m ∷ [])
              ∙ ap (λ l. unsent s.out_queue ++ l) (append-nil (active m))),
      on f' same,
    )
  where
    longer : (q : List Message) → 0 < length (q ++ m ∷ [])
    longer [] = omega arith
    longer (x ∷ q) = omega arith

    on : {t : Socket} → Flows t → t.out_queue ≡ s.out_queue ++ m ∷ [] → t.async_writing ≡ true
    on {t = t} ft same = elim (Bool-cases t.async_writing) [
      | inl yes' ↦ yes'
      | inr off ↦ absurd (omega (arith, longer s.out_queue, ap length (sym same ∙ ft.idle off)))
    ]

-- The queue after a write of `n` bytes of the front message.
after_write :
    (n : ℕ) (m : Message) (rest : List Message)
    → IsValid m
    → All IsValid rest
    → n ≤ length (active m)
    → let q =
        (if leb (active_size (read_completed n m)) 0 then rest else read_completed n m ∷ rest) in
      All IsValid q × (active m ++ unsent rest ≡ take n (active m ++ unsent rest) ++ unsent q)
after_write n m rest v vs h =
    let (vm, act) = read_completed-active n m v h in
    let size = active_size_lem (read_completed n m) vm in
    let whole : active m ++ unsent rest
        ≡ take n (active m ++ unsent rest) ++ (active (read_completed n m) ++ unsent rest) =
      sym (take-append-drop n (active m ++ unsent rest))
      ∙ ap (λ l. take n (active m ++ unsent rest) ++ l)
          (drop-append_le n (active m) (unsent rest) h ∙ ap (λ l. l ++ unsent rest) (sym act)) in
    elim (Bool-cases (leb (active_size (read_completed n m)) 0)) [
      | inl gone ↦
          let nothing : active (read_completed n m) ≡ [] =
            append-length_eq_zero (active (read_completed n m)) (ground (arith, size)) in
          rw gone
            (vs, whole ∙ ap (λ l. take n (active m ++ unsent rest) ++ (l ++ unsent rest)) nothing)
      | inr more ↦ rw more ((vm, vs), whole)
    ]

module _ (callback : Socket → Socket) (quiet : (s : Socket) → (callback s).out_queue ≡ s.out_queue)
    (idle : (s : Socket) → (callback s).async_writing ≡ s.async_writing) where
  -- The write callback after `n` bytes of the front message have been sent, with a callback of the
  -- session that leaves the queue alone: those were the first of the bytes that were to go out, all
  -- others still are, in their order, and the queue stays well formed.
  pub internal_write_callback-Flows :
      (n : ℕ) (s : Socket)
      → Flows s
      → s.async_writing ≡ true
      → n ≤ front_size s.out_queue
      → (t : Socket) × (internal_write_callback (some n) callback s ≡ some t)
        × Flows t
        × (unsent s.out_queue ≡ take n (unsent s.out_queue) ++ unsent t.out_queue)
  unfolding internal_write_callback written
  internal_write_callback-Flows n s f w h = from s.out_queue refl h
    where
      from :
          (q : List Message)
          → s.out_queue ≡ q
          → n ≤ front_size q
          → (t : Socket) × (internal_write_callback (some n) callback s ≡ some t)
            × Flows t
            × (unsent s.out_queue ≡ take n (unsent s.out_queue) ++ unsent t.out_queue)
      from [] e k = absurd (omega (arith, f.busy w, ap length e))
      from (m ∷ rest) e k =
          let v = subst (All IsValid) e f.valid in
          let sent = read_completed n m in
          let q' : List Message = if leb (active_size sent) 0 then rest else sent ∷ rest in
          let t : Socket = record s { async_writing = false; out_queue = q' } in
          let (valid, split) = after_write n m rest v.0 v.1 k in
          let (ft, same) =
            async_write_lem (callback t) q' (quiet t) (λ on. absurd (cc (idle t, on))) valid in
          (
            async_write (callback t),
            rw (e, internal_write_callback, written),
            ft,
            ap unsent e
                ∙ (split
                    ∙ (ap (λ l. take n l ++ unsent q') (sym (ap unsent e))
                        ∙ ap (λ l. take n (unsent s.out_queue) ++ unsent l) (sym same))),
          )
