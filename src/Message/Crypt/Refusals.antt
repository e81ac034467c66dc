-- ===== src/Message/Crypt/Refusals.antt =====
-- What `AESDecrypt` may do with any bytes from the network, hostile ones included
-- (src/shared/Packets/NetworkMessage.h).
use mathlib.Core.Option
use necro_mmo.Common.{
  ℕ, ◌+◌, ◌-◌, ◌%◌, ◌^◌, ◌≤◌, ◌<◌, ◌≢◌, ◌≡◌, refl, sym, ap, ◌∙◌, Option, none, some, List, inl, inr,
  length, take, drop, replicate, arith, Bool-cases, ltb, leb, le→leb, ◌==◌, not,
}
use necro_mmo.Common.Bytes.{of_bytes, htonl}
use necro_mmo.Aes.{Gcm, EvpRun, Opened, opened}
use necro_mmo.Message.{Message, IsValid, active, active_size}
use necro_mmo.Message.Buffer.{active_size_lem}
use necro_mmo.Message.Stream.{read_completed-active, cipher_bytes-read_completed}
use necro_mmo.Message.Crypt.{
  Decrypted, plain, failed, Frame, aes_decrypt, decrypt_from, frame_at, open_frame, prefix_differs,
  settle,
}

-- The size that the next frame says it has.
abbrev pub frame_size : Message → ℕ
frame_size m = htonl (of_bytes (take 4 (active m)))

-- What one decryption may do. It never reads beyond what has arrived; on any failure the expected
-- counter and the unread bytes stay as they were; and on success the counter in the frame is the
-- expected one, which moves on by one, and exactly the frame's bytes are consumed: those of its size,
-- which is between 28 and 512 and has arrived, and the four bytes of the size.
abbrev pub Decrypts : ℕ → Message → Option (Decrypted × ℕ × Message) → Type 0
Decrypts counter m none = ⊥
Decrypts counter m (some (failed n, counter', m')) =
    (counter' ≡ counter) × (active m' ≡ active m) × IsValid m'
Decrypts counter m (some (plain n, counter', m')) =
    (counter' ≡ (counter + 1) % 2 ^ 64)
    × (of_bytes (take 8 (drop 8 (active m))) ≡ counter)
    × (length m'.cipher_bytes ≡ n)
    × (active m' ≡ drop (4 + frame_size m) (active m))
    × (28 ≤ frame_size m)
    × (frame_size m ≤ 512)
    × (4 + frame_size m ≤ length (active m))
    × IsValid m'

module _ (gcm : Gcm) (evp : EvpRun) (key aad : List ℕ) (counter : ℕ) (expected : Option ℕ) where
  unread_stays : (m : Message) (cs : List ℕ) → IsValid m → IsValid (record m { cipher_bytes = cs })
  unread_stays m cs v = record { read_first = v.read_first; inside = v.inside }

  settle-Decrypts :
      (packet_size cipher_len : ℕ) (o : Opened) (m : Message)
      → IsValid m
      → packet_size ≡ frame_size m
      → of_bytes (take 8 (drop 8 (active m))) ≡ counter
      → 28 ≤ packet_size
      → packet_size ≤ 512
      → 4 + packet_size ≤ length (active m)
      → Decrypts counter m (some (settle counter packet_size cipher_len m o))
  unfolding settle
  settle-Decrypts packet_size cipher_len (Opened.failed n) m v size ef lo hi fits =
      (refl, refl, unread_stays m (replicate cipher_len 0) v)
  settle-Decrypts packet_size cipher_len (opened text) m v size ef lo hi fits =
      let held = record m { cipher_bytes = text } in
      let (vr, act) = read_completed-active (4 + packet_size) held (unread_stays m text v) fits in
      (
        refl,
        ef,
        ap length (cipher_bytes-read_completed (4 + packet_size) held),
        act ∙ ap (λ k. drop (4 + k) (active m)) size,
        ground (arith, size),
        ground (arith, size),
        ground (arith, size),
        vr,
      )

  open_frame-Decrypts :
      (packet_size : ℕ) (f : Frame) (m : Message)
      → IsValid m
      → packet_size ≡ frame_size m
      → f.counter ≡ of_bytes (take 8 (drop 8 (active m)))
      → 28 ≤ packet_size
      → packet_size ≤ 512
      → 4 + packet_size ≤ length (active m)
      → Decrypts counter m (some (open_frame gcm evp key aad counter expected packet_size f m))
  unfolding open_frame
  open_frame-Decrypts packet_size f m v size ef lo hi fits =
      elim (Bool-cases (prefix_differs expected f.prefix)) [
        | inl other ↦ rw other (refl, refl, v)
        | inr known ↦ elim (Bool-cases (not (f.counter == counter))) [
          | inl replayed ↦ rw (known, replayed) (refl, refl, v)
          | inr fresh ↦
              rw (known, fresh)
                (settle-Decrypts packet_size (length f.cipher) _ m v size (ground (arith, ef)) lo hi
                  fits)
        ]
      ]

  frame_at-Decrypts :
      (packet_size cipher_len : ℕ) (m : Message)
      → IsValid m
      → packet_size ≡ frame_size m
      → 28 ≤ packet_size
      → packet_size ≤ 512
      → cipher_len + 28 ≡ packet_size
      → 4 + packet_size ≤ length (active m)
      → Decrypts counter m (
          Option.map
            (λ f. open_frame gcm evp key aad counter expected packet_size f m)
            (frame_at cipher_len (active m)))
  unfolding frame_at
  frame_at-Decrypts packet_size cipher_len m v size lo hi e fits =
      rw (le→leb (4 + (28 + cipher_len)) (length (active m)) (omega arith))
        (open_frame-Decrypts packet_size _ m v size refl lo hi fits)

  -- On a valid buffer with any content, `AESDecrypt` stays within the bytes that have arrived, and it
  -- fails without a trace, or consumes exactly one frame that bears the expected counter: the four bytes
  -- of its size and as many bytes as they say, between 28 and 512, which have arrived.
  pub aes_decrypt-Decrypts :
      (m : Message)
      → IsValid m
      → Decrypts counter m (aes_decrypt gcm evp key aad counter expected m)
  unfolding aes_decrypt decrypt_from
  aes_decrypt-Decrypts m v =
      let size = htonl (of_bytes (take 4 (active m))) in
      let n = active_size_lem m v in
      elim (Bool-cases (ltb (active_size m) 4)) [
        | inl short ↦ rw short (refl, refl, v)
        | inr a ↦ elim (Bool-cases (ltb 512 size)) [
          | inl large ↦ rw (a, large) (refl, refl, v)
          | inr b ↦ elim (Bool-cases (ltb (active_size m) (4 + size))) [
            | inl part ↦ rw (a, b, part) (refl, refl, v)
            | inr c ↦ elim (Bool-cases (ltb size 28)) [
              | inl small ↦ rw (a, b, c, small) (refl, refl, v)
              | inr d ↦ elim (Bool-cases (leb (2 ^ 31) ((size + 2 ^ 32 - 28) % 2 ^ 32))) [
                | inl negative ↦ rw (a, b, c, d, negative) (refl, refl, v)
                | inr e ↦
                    rw (a, b, c, d, e)
                      (frame_at-Decrypts size ((size + 2 ^ 32 - 28) % 2 ^ 32) m v refl
                        (ground arith) (ground arith) (ground arith) (ground (arith, n)))
              ]
            ]
          ]
        ]
      ]

-- A result that is no success.
abbrev pub Refused : Option (Decrypted × ℕ × Message) → Type 0
Refused (some (failed n, _, _)) = Unit
Refused _ = ⊥

not_expected :
    (counter : ℕ) (m : Message) (r : Option (Decrypted × ℕ × Message))
    → Decrypts counter m r
    → of_bytes (take 8 (drop 8 (active m))) ≢ counter
    → Refused r
not_expected counter m none d ne = d
not_expected counter m (some (failed n, _, _)) d ne = tt
not_expected counter m (some (plain n, _, _)) d ne = absurd (ne d.1)

-- A frame is accepted once: after a success, a frame that bears the same counter is refused by the
-- next call, with whatever buffer and whatever outcome of OpenSSL.
pub aes_decrypt-Refused :
    (gcm : Gcm) (evp evp' : EvpRun) (key aad : List ℕ) (counter : ℕ) (expected expected' : Option ℕ)
    (m m' again : Message) (n counter' : ℕ)
    → counter < 2 ^ 64
    → IsValid m
    → IsValid again
    → aes_decrypt gcm evp key aad counter expected m ≡ some (plain n, counter', m')
    → of_bytes (take 8 (drop 8 (active again))) ≡ of_bytes (take 8 (drop 8 (active m)))
    → Refused (aes_decrypt gcm evp' key aad counter' expected' again)
aes_decrypt-Refused gcm evp evp' key aad counter expected expected' m m' again n counter' h vm va e
      same =
    let first = rw e at (aes_decrypt-Decrypts gcm evp key aad counter expected m vm) in
    not_expected counter' again _
      (aes_decrypt-Decrypts gcm evp' key aad counter' expected' again va)
      (λ eq. next_ne first.0 (sym eq ∙ (same ∙ first.1)))
  where
    next_ne : counter' ≡ (counter + 1) % 2 ^ 64 → counter' ≡ counter → ⊥
    next_ne p q = omega arith
