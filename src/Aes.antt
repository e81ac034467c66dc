-- ===== src/Aes.antt =====
-- `AES` (src/shared/Encryption/AES.h): the GCM nonce of a connection, and the order of the OpenSSL
-- calls in `Encrypt` and `Decrypt`, with the code that each failing call returns. OpenSSL itself is
-- the parameter `Gcm`, with the laws of AES-128-GCM that it documents.
use necro_mmo.Common.{
  ℕ, ◌+◌, ◌%◌, ◌^◌, ◌≡◌, Bool, Option, none, some, List, ◌++◌, length, not, if◌then◌else◌, true,
}
use necro_mmo.Common.Bytes.{to_bytes}

abbrev pub aes_128_key_size : ℕ
aes_128_key_size = 16

abbrev pub gcm_iv_size : ℕ
gcm_iv_size = 12

abbrev pub gcm_tag_size : ℕ
gcm_tag_size = 16

-- `EVP_aes_128_gcm`: key, nonce, additional data and text, in that order.
pub record Gcm : Type 0 where
  pub seal : List ℕ → List ℕ → List ℕ → List ℕ → List ℕ × List ℕ
  -- With the tag before the ciphertext; `none` where the tag does not verify.
  pub unseal : List ℕ → List ℕ → List ℕ → List ℕ → List ℕ → Option (List ℕ)
  -- The mode does not expand the text, and a tag has 16 bytes.
  pub length-seal : (key iv aad text : List ℕ) → length (seal key iv aad text).0 ≡ length text
  pub length-tag : (key iv aad text : List ℕ) → length (seal key iv aad text).1 ≡ 16
  pub unseal-seal :
      (key iv aad text : List ℕ)
      → unseal key iv aad (seal key iv aad text).1 (seal key iv aad text).0 ≡ some text

-- Which of the OpenSSL calls of one operation succeed.
pub record EvpRun : Type 0 where
  pub acquired : Bool
  pub cipher_set : Bool
  pub iv_length_set : Bool
  pub key_set : Bool
  pub aad_added : Bool
  pub updated : Bool
  pub finalised : Bool
  pub tag_passed : Bool

abbrev pub all_succeed : EvpRun
all_succeed = record {
  acquired = true;
  cipher_set = true;
  iv_length_set = true;
  key_set = true;
  aad_added = true;
  updated = true;
  finalised = true;
  tag_passed = true;
}

-- `IV`: a random prefix, and a counter of the messages.
pub record Iv : Type 0 where
  pub prefix : ℕ
  pub counter : ℕ

unfoldable pub reset_counter : Iv → Iv
reset_counter iv = record iv { counter = 0 }

unfoldable pub increment_counter : Iv → Iv
increment_counter iv = record iv { counter = (iv.counter + 1) % 2 ^ 64 }

unfoldable pub to_byte_array : Iv → List ℕ
to_byte_array iv = to_bytes 4 iv.prefix ++ to_bytes 8 iv.counter

-- `failed n` is the return value -n.
pub data Sealed : Type 0 where
  sealed : List ℕ → List ℕ → Sealed
  failed : ℕ → Sealed

unfoldable pub encrypt : Gcm → EvpRun → List ℕ → List ℕ → List ℕ → List ℕ → Sealed
encrypt gcm run text aad key iv =
    if not run.acquired
    then failed 1
    else if not run.cipher_set
    then failed 1
    else if not run.iv_length_set
    then failed 3
    else if not run.key_set
    then failed 4
    else if not run.aad_added
    then failed 5
    else if not run.updated
    then failed 6
    else if not run.finalised
    then failed 7
    else if not run.tag_passed
    then failed 8
    else sealed (gcm.seal key iv aad text).0 (gcm.seal key iv aad text).1

pub data Opened : Type 0 where
  opened : List ℕ → Opened
  failed : ℕ → Opened

-- The last call verifies the tag.
unfoldable pub decrypt : Gcm → EvpRun → List ℕ → List ℕ → List ℕ → List ℕ → List ℕ → Opened
decrypt gcm run cipher aad tag key iv =
    if not run.acquired
    then failed 1
    else if not run.cipher_set
    then failed 2
    else if not run.iv_length_set
    then failed 3
    else if not run.key_set
    then failed 4
    else if not run.aad_added
    then failed 5
    else if not run.updated
    then failed 6
    else if not run.tag_passed
    then failed 7
    else elim (gcm.unseal key iv aad tag cipher) [ none ↦ failed 1 | some text ↦ opened text ]
