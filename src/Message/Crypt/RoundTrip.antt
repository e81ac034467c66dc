-- ===== src/Message/Crypt/RoundTrip.antt =====
-- `AESDecrypt` on what `AESEncrypt` sent, and on what it must refuse
-- (src/shared/Packets/NetworkMessage.h).
use mathlib.Core.List.{append_assoc}
use necro_mmo.Common.{
  ℕ, ◌+◌, ◌-◌, ◌%◌, ◌^◌, ◌≤◌, ◌<◌, ◌≡◌, sym, ap, ◌∙◌, false, Option, some, List, ◌++◌, length, take,
  drop, drop-drop, arith, length-append, take-append, drop-append, leb, le→ltb, le→leb, ==_self,
}
use necro_mmo.Common.Bytes.{
  to_bytes, of_bytes, htonl, htonl-htonl, htonl-lt, of_bytes-to_bytes, Fits-u32, Fits-u64,
}
use necro_mmo.Common.Int.{pos}
use necro_mmo.Aes.{Gcm, Iv, all_succeed, decrypt, to_byte_array, increment_counter}
use necro_mmo.Message.{Message, IsValid, active, active_size, read_completed}
use necro_mmo.Message.Buffer.{active_size_lem}
use necro_mmo.Message.Stream.{read_completed-active, cipher_bytes-read_completed}
use necro_mmo.Message.Crypt.{
  plain, aes_encrypt, aes_decrypt, decrypt_from, frame_at, open_frame, prefix_differs,
}
use necro_mmo.Message.Crypt.Sending.{frame_bytes, aes_encrypt-active}

take_first {ℓ} : {A : Type ℓ} (k : ℕ) (xs ys : List A) → length xs ≡ k → take k (xs ++ ys) ≡ xs
take_first k xs ys e = ap (λ n. take n (xs ++ ys)) (sym e) ∙ take-append xs ys

drop_first {ℓ} : {A : Type ℓ} (k : ℕ) (xs ys : List A) → length xs ≡ k → drop k (xs ++ ys) ≡ ys
drop_first k xs ys e = ap (λ n. drop n (xs ++ ys)) (sym e) ∙ drop-append xs ys

-- A frame's parts, followed by whatever has arrived after it.
abbrev laid_out : ℕ → Iv → List ℕ → List ℕ → List ℕ → List ℕ
laid_out size iv tag cipher rest =
    to_bytes 4 size
    ++ (to_bytes 4 iv.prefix ++ (to_bytes 8 iv.counter ++ (tag ++ (cipher ++ rest))))

frame_at-laid_out :
    (size : ℕ) (iv : Iv) (tag cipher rest : List ℕ)
    → iv.prefix < 2 ^ 32
    → iv.counter < 2 ^ 64
    → length tag ≡ 16
    → frame_at (length cipher) (laid_out size iv tag cipher rest)
      ≡ some (record {
        prefix = iv.prefix;
        counter = iv.counter;
        iv_bytes = to_byte_array iv;
        tag = tag;
        cipher = cipher;
      })
unfolding frame_at to_byte_array
frame_at-laid_out size iv tag cipher rest hp hc ht = rw (
  le→leb (4 + (12 + 16 + length cipher)) (length (laid_out size iv tag cipher rest))
      (omega (arith, length-append tag (cipher ++ rest), length-append cipher rest)),
  of_bytes-to_bytes 4 iv.prefix (Fits-u32 iv.prefix hp),
  of_bytes-to_bytes 8 iv.counter (Fits-u64 iv.counter hc),
  take_first 16 tag (cipher ++ rest) ht,
  drop_first 16 tag (cipher ++ rest) ht,
  take-append cipher rest,
)

-- The receiver's state after it has opened a frame.
abbrev received : ℕ → List ℕ → Message → Message
received packet_size text r = read_completed (4 + packet_size) (record r { cipher_bytes = text })

module _ (gcm : Gcm) (key aad : List ℕ) where
  decrypt_from-laid_out :
      (iv : Iv) (tag cipher text rest : List ℕ) (expected : Option ℕ) (r : Message)
      → iv.prefix < 2 ^ 32
      → iv.counter < 2 ^ 64
      → length tag ≡ 16
      → length cipher + 28 ≤ 512
      → gcm.unseal key (to_byte_array iv) aad tag cipher ≡ some text
      → prefix_differs expected iv.prefix ≡ false
      → decrypt_from gcm all_succeed key aad iv.counter expected
          (length (laid_out (htonl (28 + length cipher)) iv tag cipher rest))
          (laid_out (htonl (28 + length cipher)) iv tag cipher rest)
          r
        ≡ some
            (plain (length text), (iv.counter + 1) % 2 ^ 64, received (28 + length cipher) text r)
  unfolding decrypt_from open_frame decrypt
  decrypt_from-laid_out iv tag cipher text rest expected r hp hc ht hn hu hx =
      let bytes = laid_out (htonl (28 + length cipher)) iv tag cipher rest in
      let n = length cipher in
      let len : length bytes ≡ 32 + n + length rest =
        omega (arith, length-append tag (cipher ++ rest), length-append cipher rest, ht) in
      let left : (28 + n + 2 ^ 32 - 28) % 2 ^ 32 ≡ n = omega arith in
      let size_read : htonl (of_bytes (take 4 bytes)) ≡ 28 + n =
        ap htonl
          (of_bytes-to_bytes 4 (htonl (28 + n)) (Fits-u32 (htonl (28 + n)) (htonl-lt (28 + n))))
        ∙ htonl-htonl (28 + n) (omega arith) in
      rw (
        size_read,
        le→ltb (length bytes) 4 (omega (arith, len)),
        le→ltb 512 (28 + n) (omega arith),
        le→ltb (length bytes) (4 + (28 + n)) (omega (arith, len)),
        le→ltb (28 + n) 28 (omega arith),
        left,
        gt→leb,
        frame_at-laid_out (htonl (28 + n)) iv tag cipher rest hp hc ht,
        hx,
        ==_self iv.counter,
        hu,
      )
    where
      gt→leb : leb (2 ^ 31) (length cipher) ≡ false
      gt→leb = ground (arith, hn)

  drop-laid_out :
      (size : ℕ) (iv : Iv) (tag cipher rest : List ℕ)
      → length tag ≡ 16
      → drop (4 + (28 + length cipher)) (laid_out size iv tag cipher rest) ≡ rest
  drop-laid_out size iv tag cipher rest ht =
      let all = laid_out size iv tag cipher rest in
      let e : 4 + (28 + length cipher) ≡ 32 + length cipher = omega arith in
      ap (λ k. drop k all) e
      ∙ (sym (drop-drop (length cipher) 32 all)
          ∙ (ap (drop (length cipher)) (drop_first 16 tag (cipher ++ rest) ht)
              ∙ drop-append cipher rest))

  -- The unread bytes of the receiver, when a frame has arrived whole.
  frame-laid_out :
      (iv : Iv) (tag cipher rest : List ℕ)
      → length cipher + 28 ≤ 512
      → frame_bytes (to_byte_array iv) tag cipher ++ rest
        ≡ laid_out (htonl (28 + length cipher)) iv tag cipher rest
  unfolding to_byte_array
  frame-laid_out iv tag cipher rest h =
      let e : (28 + length cipher) % 2 ^ 32 ≡ 28 + length cipher = omega arith in
      ap
        (λ k.
          to_bytes 4 (htonl k)
          ++ (to_bytes 4 iv.prefix ++ (to_bytes 8 iv.counter ++ ((tag ++ cipher) ++ rest))))
        e
      ∙ ap
          (λ l.
            to_bytes 4 (htonl (28 + length cipher))
            ++ (to_bytes 4 iv.prefix ++ (to_bytes 8 iv.counter ++ l)))
          (append_assoc tag cipher rest)

  -- What one side encrypts, the other side decrypts, byte for byte: with the same key, the counter
  -- that it expects, a prefix that it does not reject, and a text of at most 484 bytes, `AESDecrypt`
  -- on the frame returns the text's length, holds the text, consumes the frame and nothing else, and
  -- expects the counter that the sender uses next.
  pub aes_round_trip :
      (iv : Iv) (m r sent : Message) (next : Iv) (rest : List ℕ) (expected : Option ℕ)
      → iv.prefix < 2 ^ 32
      → iv.counter < 2 ^ 64
      → IsValid m
      → IsValid r
      → length (active m) ≤ 484
      → aes_encrypt gcm all_succeed key iv aad m ≡ some (sent, next, pos (length (active m)))
      → active r ≡ active sent ++ rest
      → prefix_differs expected iv.prefix ≡ false
      → (r' : Message) × (aes_decrypt gcm all_succeed key aad iv.counter expected r
          ≡ some (plain (length (active m)), next.counter, r'))
        × IsValid r'
        × (r'.cipher_bytes ≡ active m)
        × (active r' ≡ rest)
  unfolding aes_decrypt increment_counter
  aes_round_trip iv m r sent next rest expected hp hc vm vr small es er hx =
      let (w, ew, vw, act) = aes_encrypt-active gcm key aad iv m vm in
      let text = active m in
      let s = gcm.seal key (to_byte_array iv) aad text in
      let n : length s.0 ≡ length text = gcm.length-seal key (to_byte_array iv) aad text in
      let same : w ≡ sent = cc in
      let counter : (iv.counter + 1) % 2 ^ 64 ≡ next.counter = cc in
      let bytes : active r ≡ laid_out (htonl (28 + length s.0)) iv s.1 s.0 rest =
        er
        ∙ (ap (λ x. active x ++ rest) (sym same)
            ∙ (ap (λ l. l ++ rest) act ∙ frame-laid_out iv s.1 s.0 rest (omega (arith, n)))) in
      let size : active_size r ≡ length (laid_out (htonl (28 + length s.0)) iv s.1 s.0 rest) =
        active_size_lem r vr ∙ ap length bytes in
      let tag_length = gcm.length-tag key (to_byte_array iv) aad text in
      let opens =
        decrypt_from-laid_out iv s.1 s.0 text rest expected r hp hc tag_length (omega (arith, n))
          (gcm.unseal-seal key (to_byte_array iv) aad text) hx in
      let (vr', act') =
        read_completed-active (4 + (28 + length s.0)) (record r { cipher_bytes = text })
          (record { read_first = vr.read_first; inside = vr.inside })
          (rw bytes
            (omega (arith, length-append s.1 (s.0 ++ rest), length-append s.0 rest, tag_length))) in
      (
        received (28 + length s.0) text r,
        ap (λ k. decrypt_from gcm all_succeed key aad iv.counter expected k (active r) r) size
            ∙ (ap
                  (λ b.
                    decrypt_from gcm all_succeed key aad iv.counter expected
                      (length (laid_out (htonl (28 + length s.0)) iv s.1 s.0 rest)) b r)
                  bytes
                ∙ (opens
                    ∙ ap (λ c. some (plain (length text), c, received (28 + length s.0) text r))
                        counter)),
        vr',
        cipher_bytes-read_completed (4 + (28 + length s.0)) (record r { cipher_bytes = text }),
        act'
            ∙ (ap (drop (4 + (28 + length s.0))) bytes
                ∙ drop-laid_out (htonl (28 + length s.0)) iv s.1 s.0 rest tag_length),
      )
