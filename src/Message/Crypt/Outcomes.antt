-- ===== src/Message/Crypt/Outcomes.antt =====
-- `AESEncrypt` with whatever calls of OpenSSL failing (src/shared/Packets/NetworkMessage.h).
use necro_mmo.Common.{
  ℕ, Bool, ◌&&◌, true, false, ◌≡◌, ◌⊎◌, refl, sym, ap, ◌∙◌, inl, inr, some, List, length, arith,
}
use necro_mmo.Common.Int.{pos, negsuc}
use necro_mmo.Aes.{Gcm, EvpRun, Iv, Sealed, sealed, encrypt, to_byte_array, increment_counter}
use necro_mmo.Message.{Message, IsValid, active, active_size, soft_clear}
use necro_mmo.Message.Crypt.{aes_encrypt, resize}
use necro_mmo.Message.Crypt.Sending.{frame_bytes, write_frame-active}

-- Whether all the calls of an encryption succeed.
abbrev pub encrypts : EvpRun → Bool
encrypts run =
    run.acquired
    && (run.cipher_set
        && (run.iv_length_set
            && (run.key_set
                && (run.aad_added && (run.updated && (run.finalised && run.tag_passed))))))

Sealed-cases :
    (o : Sealed)
    → ((n : ℕ) × (o ≡ Sealed.failed n)) ⊎ ((c : List ℕ) × (t : List ℕ) × (o ≡ sealed c t))
Sealed-cases (Sealed.failed n) = inl (n, refl)
Sealed-cases (sealed c t) = inr (c, t, refl)

encrypt-sealed :
    (gcm : Gcm) (evp : EvpRun) (text aad key iv c t : List ℕ)
    → encrypt gcm evp text aad key iv ≡ sealed c t
    → encrypts evp ≡ true
unfolding encrypt
encrypt-sealed gcm evp text aad key iv c t e = ground arith

encrypt-failed :
    (gcm : Gcm) (evp : EvpRun) (text aad key iv : List ℕ) (n : ℕ)
    → encrypt gcm evp text aad key iv ≡ Sealed.failed n
    → encrypts evp ≡ false
unfolding encrypt
encrypt-failed gcm evp text aad key iv n e = ground arith

-- What is sealed is what the mode seals.
encrypt-seal :
    (gcm : Gcm) (evp : EvpRun) (text aad key iv c t : List ℕ)
    → encrypt gcm evp text aad key iv ≡ sealed c t
    → (c ≡ (gcm.seal key iv aad text).0) × (t ≡ (gcm.seal key iv aad text).1)
unfolding encrypt
encrypt-seal gcm evp text aad key iv c t e = ground arith

-- Where all the calls of OpenSSL succeed, the frame of the unread bytes and the next nonce, and
-- otherwise -1 and the nonce as it was.
pub aes_encrypt-outcome :
    (gcm : Gcm) (evp : EvpRun) (key aad : List ℕ) (iv : Iv) (m : Message)
    → IsValid m
    → ((w : Message) × (aes_encrypt gcm evp key iv aad m
          ≡ some (w, increment_counter iv, pos (length (active m))))
        × IsValid w
        × (active w
            ≡ frame_bytes
                (to_byte_array iv)
                (gcm.seal key (to_byte_array iv) aad (active m)).1
                (gcm.seal key (to_byte_array iv) aad (active m)).0)
        × (encrypts evp ≡ true))
      ⊎ ((w : Message) × (aes_encrypt gcm evp key iv aad m ≡ some (w, iv, negsuc 0))
          × (encrypts evp ≡ false))
unfolding aes_encrypt soft_clear
aes_encrypt-outcome gcm evp key aad iv m v =
    let bytes = to_byte_array iv in
    elim (Sealed-cases (encrypt gcm evp (active m) aad key bytes)) [
      | inl (n, broken) ↦ inr (
        record m { cipher_bytes = resize (active_size m) m.cipher_bytes },
        rw (broken, aes_encrypt),
        encrypt-failed gcm evp (active m) aad key bytes n broken,
      )
      | inr (c, t, done) ↦
          let (ec, et) = encrypt-seal gcm evp (active m) aad key bytes c t done in
          let cleared = soft_clear (record m { cipher_bytes = c; tag = t }) in
          let (w, e, vw, act, _) =
            write_frame-active bytes t c cleared
              (record { read_first = omega arith; inside = omega arith }) refl in
          let size : length c ≡ length (active m) =
            ap length ec ∙ gcm.length-seal key bytes aad (active m) in
          inl (
            w,
            rw (done, aes_encrypt, e, size),
            vw,
            rw (sym ec, sym et) act,
            encrypt-sealed gcm evp (active m) aad key bytes c t done,
          )
    ]
