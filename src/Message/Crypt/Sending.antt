-- ===== src/Message/Crypt/Sending.antt =====
-- What `AESEncrypt` sends (src/shared/Packets/NetworkMessage.h).
use mathlib.Core.Option
use mathlib.Core.List.{append_assoc}
use necro_mmo.Common.{ℕ, ◌+◌, ◌%◌, ◌^◌, ◌≡◌, refl, ◌∙◌, some, List, [], ◌++◌, length, arith}
use necro_mmo.Common.Bytes.{to_bytes, htonl}
use necro_mmo.Common.Int.{pos}
use necro_mmo.Aes.{Gcm, Iv, all_succeed, encrypt, to_byte_array, increment_counter}
use necro_mmo.Message.{Message, IsValid, active, soft_clear}
use necro_mmo.Message.Stream.{write-active}
use necro_mmo.Message.Crypt.{aes_encrypt, write_frame}

-- A frame: the size in network byte order, the nonce, the tag and the ciphertext.
abbrev pub frame_bytes : List ℕ → List ℕ → List ℕ → List ℕ
frame_bytes iv_bytes tag cipher =
    to_bytes 4 (htonl ((28 + length cipher) % 2 ^ 32)) ++ (iv_bytes ++ (tag ++ cipher))

pub write_frame-active :
    (iv_bytes tag cipher : List ℕ) (m : Message)
    → IsValid m
    → active m ≡ []
    → (w : Message) × (write_frame iv_bytes tag cipher m ≡ some w)
      × IsValid w
      × (active w ≡ frame_bytes iv_bytes tag cipher)
      × (w.cipher_bytes ≡ m.cipher_bytes)
unfolding write_frame Option.bind
write_frame-active iv_bytes tag cipher m v e =
    let size = to_bytes 4 (htonl ((28 + length cipher) % 2 ^ 32)) in
    let (a, ea, va, ca, ka) = write-active size m v in
    let (b, eb, vb, cb, kb) = write-active iv_bytes a va in
    let (c, ec, vc, cc', kc) = write-active tag b vb in
    let (d, ed, vd, cd, kd) = write-active cipher c vc in
    (
      d,
      rw (ea, eb, ec) ed,
      vd,
      cd
          ∙ rw (cc', cb, ca, e)
              (append_assoc (size ++ iv_bytes) tag cipher
                ∙ append_assoc size iv_bytes (tag ++ cipher)),
      kd ∙ (kc ∙ (kb ∙ ka)),
    )

-- When OpenSSL succeeds, a valid message turns into the frame of its unread bytes, sealed under the
-- nonce; the result is the number of those bytes, and the nonce moves on to the next counter.
pub aes_encrypt-active :
    (gcm : Gcm) (key aad : List ℕ) (iv : Iv) (m : Message)
    → IsValid m
    → (w : Message) × (aes_encrypt gcm all_succeed key iv aad m
        ≡ some (w, increment_counter iv, pos (length (active m))))
      × IsValid w
      × (active w
          ≡ frame_bytes
              (to_byte_array iv)
              (gcm.seal key (to_byte_array iv) aad (active m)).1
              (gcm.seal key (to_byte_array iv) aad (active m)).0)
unfolding aes_encrypt encrypt soft_clear
aes_encrypt-active gcm key aad iv m v =
    let sealed' = gcm.seal key (to_byte_array iv) aad (active m) in
    let cleared = soft_clear (record m { cipher_bytes = sealed'.0; tag = sealed'.1 }) in
    let (w, e, vw, act, _) =
      write_frame-active (to_byte_array iv) sealed'.1 sealed'.0 cleared
        (record { read_first = omega arith; inside = omega arith }) refl in
    (w, rw (e, gcm.length-seal key (to_byte_array iv) aad (active m)), vw, act)
