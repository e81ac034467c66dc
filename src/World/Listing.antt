-- ===== src/World/Listing.antt =====
-- The list of characters (src/NECROWorld/Server/Sockets/WorldSession.cpp,
-- `DBCallback_HandleSPacketEnumCharacter`), and whether its client can read it.
use necro_mmo.Common.{
  ℕ, ◌+◌, ◌*◌, ◌%◌, ◌^◌, ◌≤◌, ◌<◌, ◌≡◌, false, Option, some, List, [], ◌∷◌, ◌++◌, length, All,
  arith, length-append, ap, ◌∙◌, sym,
}
use necro_mmo.Aes.{Gcm, Iv, all_succeed, increment_counter}
use necro_mmo.Packet.{Field, encode, u8, u32, float_field}
use necro_mmo.Packet.Content.{encode_all, write_fields-empty}
use necro_mmo.Message as Message
use necro_mmo.Message.{Message, active, of_moved}
use necro_mmo.Message.Stream.{of_moved-active}
use necro_mmo.Message.Crypt.{plain, aes_decrypt, prefix_differs}
use necro_mmo.Message.Crypt.Sending.{aes_encrypt-active}
use necro_mmo.Message.Crypt.RoundTrip.{aes_round_trip}
use necro_mmo.World.Sending.{frame_of}
use necro_mmo.World.Answers.{Character, character_fields, all_character_fields, enum_fields}

abbrev after_name : Character → List Field
after_name c =
    u8 c.race
    ∷ u8 c.game_class
    ∷ u8 c.gender
    ∷ u8 c.level
    ∷ u32 c.xp
    ∷ u32 c.zone
    ∷ float_field c.pos_x
    ∷ float_field c.pos_y
    ∷ float_field c.pos_z
    ∷ []

-- A character takes 29 bytes and its name.
length-character :
    (c : Character) (rest : List Field)
    → length (encode_all (character_fields c ++ rest))
      ≡ 29 + length c.name + length (encode_all rest)
unfolding encode
length-character c rest = omega (arith, length-append c.name (encode_all (after_name c ++ rest)))

abbrev ShortName : Character → Type 0
ShortName c = length c.name ≤ 12

length-characters :
    (cs : List Character)
    → All ShortName cs
    → length (encode_all (all_character_fields cs)) ≤ 41 * length cs
length-characters [] h = omega arith
length-characters (c ∷ cs) h =
    omega (arith, length-character c (all_character_fields cs), length-characters cs h.1, h.0)

length-enum_fields :
    (cs : List Character)
    → All ShortName cs
    → length (encode_all (enum_fields cs)) ≤ 4 + 41 * length cs
unfolding enum_fields encode
length-enum_fields [] h = omega arith
length-enum_fields (c ∷ cs) h = omega (arith, length-characters (c ∷ cs) h)

-- A client that expects the session's next counter, and does not reject its prefix, opens the list of
-- at most 11 characters with names of at most 12 bytes that the session sends, whatever the rows hold:
-- it gets the text of the list, consumes its frame and nothing else, and expects the counter after it.
pub enum_fields-opens :
    (gcm : Gcm) (key : List ℕ) (cs : List Character) (iv : Iv) (r : Message) (rest : List ℕ)
    (expected : Option ℕ)
    → All ShortName cs
    → length cs ≤ 11
    → iv.prefix < 2 ^ 32
    → iv.counter < 2 ^ 64
    → Message.IsValid r
    → active r ≡ frame_of gcm key iv (encode_all (enum_fields cs)) ++ rest
    → prefix_differs expected iv.prefix ≡ false
    → (r' : Message) × (aes_decrypt gcm all_succeed key [] iv.counter expected r
        ≡ some (plain (length (encode_all (enum_fields cs))), (iv.counter + 1) % 2 ^ 64, r'))
      × (r'.cipher_bytes ≡ encode_all (enum_fields cs))
      × (active r' ≡ rest)
unfolding increment_counter
enum_fields-opens gcm key cs iv r rest expected short few hp hc v arrived apart =
    let (p, _, _, written) = write_fields-empty (enum_fields cs) in
    let (vm, act) = of_moved-active p in
    let text : active (of_moved p) ≡ encode_all (enum_fields cs) = act ∙ written in
    let (w, sent, _, frame) = aes_encrypt-active gcm key [] iv (of_moved p) vm in
    let (r', opens, _, holds, left) =
      aes_round_trip gcm key [] iv (of_moved p) r w (increment_counter iv) rest expected hp hc vm v
        (omega (arith, length-enum_fields cs short, ap length text)) sent
        (arrived ∙ ap (λ l. l ++ rest) (ap (frame_of gcm key iv) (sym text) ∙ sym frame)) apart in
    (r', rw (ap length text) at opens, holds ∙ text, left)
