-- ===== src/Message/Crypt.antt =====
-- `NetworkMessage::AESEncrypt` and `AESDecrypt` (src/shared/Packets/NetworkMessage.h): frames
-- [PCKT_SIZE | IV | TAG | CIPHERTEXT], with the size in network byte order.
pub mod Sending
pub mod Outcomes
pub mod RoundTrip
pub mod Refusals
use mathlib.Core.Option
use necro_mmo.Common.{
  ℕ, suc, ◌+◌, ◌-◌, ◌%◌, ◌^◌, ◌≡◌, Bool, not, Option, none, some, List, [], ◌∷◌, ◌++◌, length, take,
  drop, replicate, ltb, leb, ◌==◌, if◌then◌else◌,
}
use necro_mmo.Common.Bytes.{to_bytes, of_bytes, htonl}
use necro_mmo.Common.Int.{ℤ, pos, negsuc}
use necro_mmo.Packet.{grow}
use necro_mmo.Aes.{
  Gcm, EvpRun, Iv, Sealed, sealed, Opened, opened, encrypt, decrypt, to_byte_array,
  increment_counter, gcm_iv_size, gcm_tag_size,
}
use necro_mmo.Message.{Message, active, active_size, soft_clear, write, read_completed}

abbrev pub max_packet_size_aes_decrypt : ℕ
max_packet_size_aes_decrypt = 512

-- `resize`, to a smaller size too.
abbrev pub resize : ℕ → List ℕ → List ℕ
resize n bytes = if leb n (length bytes) then take n bytes else grow n bytes

-- The four writes of a frame.
unfoldable pub write_frame : List ℕ → List ℕ → List ℕ → Message → Option Message
write_frame iv_bytes tag cipher m =
    let packet_size = (gcm_iv_size + gcm_tag_size + length cipher) % 2 ^ 32 in
    Option.bind (write (to_bytes 4 (htonl packet_size)) m)
      λ m₁. Option.bind (write iv_bytes m₁) λ m₂. Option.bind (write tag m₂) (write cipher)

-- The message that holds the frame, the next nonce, and the length of the ciphertext; -1 where
-- OpenSSL fails, with the nonce as it was. The output buffer is then as `resize` left it, since
-- what OpenSSL has written there is not read.
unfoldable pub aes_encrypt :
    Gcm → EvpRun → List ℕ → Iv → List ℕ → Message → Option (Message × Iv × ℤ)
unfolding write_frame
aes_encrypt gcm evp key iv aad m =
    let resized = resize (active_size m) m.cipher_bytes in
    elim (encrypt gcm evp (active m) aad key (to_byte_array iv)) [
      | sealed cipher tag ↦
          Option.map (λ w. (w, increment_counter iv, pos (length cipher)))
            (write_frame (to_byte_array iv) tag cipher
              (soft_clear (record m { cipher_bytes = cipher; tag = tag })))
      | Sealed.failed n ↦ some (record m { cipher_bytes = resized }, iv, negsuc 0)
    ]

-- `failed n` is the return value -n; `plain n` is the length of the decrypted text.
pub data Decrypted : Type 0 where
  plain : ℕ → Decrypted
  failed : ℕ → Decrypted

-- The parts of a frame that has arrived, with a ciphertext of the given length.
pub record Frame : Type 0 where
  pub prefix : ℕ
  pub counter : ℕ
  pub iv_bytes : List ℕ
  pub tag : List ℕ
  pub cipher : List ℕ

-- Reading it touches the bytes up to the frame's end, which must be there.
frame_at : ℕ → List ℕ → Option Frame
frame_at cipher_len bytes =
    if leb (4 + (gcm_iv_size + gcm_tag_size + cipher_len)) (length bytes)
    then some (record {
      prefix = of_bytes (take 4 (drop 4 bytes));
      counter = of_bytes (take 8 (drop 8 bytes));
      iv_bytes = take 12 (drop 4 bytes);
      tag = take 16 (drop 16 bytes);
      cipher = take cipher_len (drop 32 bytes);
    })
    else none

-- Only the server gives a prefix, and only once it knows the client's.
abbrev pub prefix_differs : Option ℕ → ℕ → Bool
prefix_differs none p = Bool.false
prefix_differs (some expected) p = not (p == expected)

-- After `AES::Decrypt`: on success the counter moves on, and the frame is consumed.
settle : ℕ → ℕ → ℕ → Message → Opened → Decrypted × ℕ × Message
settle expected_counter packet_size cipher_len m (Opened.failed n) =
    (failed 8, expected_counter, record m { cipher_bytes = replicate cipher_len 0 })
settle expected_counter packet_size cipher_len m (opened text) = (
  plain (length text),
  (expected_counter + 1) % 2 ^ 64,
  read_completed (4 + packet_size) (record m { cipher_bytes = text }),
)

-- The checks of the nonce, and the decryption.
unfoldable pub open_frame :
    Gcm → EvpRun → List ℕ → List ℕ → ℕ → Option ℕ → ℕ → Frame → Message → Decrypted × ℕ × Message
unfolding settle
open_frame gcm evp key aad expected_counter expected_prefix packet_size f m =
    if prefix_differs expected_prefix f.prefix
    then (failed 6, expected_counter, m)
    else if not (f.counter == expected_counter)
    then (failed 7, expected_counter, m)
    else settle expected_counter packet_size (length f.cipher) m
        (decrypt gcm evp f.cipher aad f.tag key f.iv_bytes)

-- With the unread bytes, and how many they are.
unfoldable pub decrypt_from :
    Gcm
    → EvpRun
    → List ℕ
    → List ℕ
    → ℕ
    → Option ℕ
    → ℕ
    → List ℕ
    → Message
    → Option (Decrypted × ℕ × Message)
unfolding frame_at open_frame
decrypt_from gcm evp key aad expected_counter expected_prefix size bytes m =
    let packet_size = htonl (of_bytes (take 4 bytes)) in
    let cipher_len = (packet_size + 2 ^ 32 - (gcm_iv_size + gcm_tag_size)) % 2 ^ 32 in
    if ltb size 4
    then some (failed 1, expected_counter, m)
    else if ltb max_packet_size_aes_decrypt packet_size
    then some (failed 2, expected_counter, m)
    else if ltb size (4 + packet_size)
    then some (failed 1, expected_counter, m)
    else if ltb packet_size (gcm_iv_size + gcm_tag_size)
    then some (failed 3, expected_counter, m)
    -- The difference, read as an `int`, is negative.
    else if leb (2 ^ 31) cipher_len
    then some (failed 4, expected_counter, m)
    else Option.map
        (λ f. open_frame gcm evp key aad expected_counter expected_prefix packet_size f m)
        (frame_at cipher_len bytes)

-- The result, the counter that is expected next, and the message. -1 asks for more bytes.
unfoldable pub aes_decrypt :
    Gcm → EvpRun → List ℕ → List ℕ → ℕ → Option ℕ → Message → Option (Decrypted × ℕ × Message)
aes_decrypt gcm evp key aad expected_counter expected_prefix m =
    decrypt_from gcm evp key aad expected_counter expected_prefix (active_size m) (active m) m
