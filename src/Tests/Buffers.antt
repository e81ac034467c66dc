-- ===== src/Tests/Buffers.antt =====
-- The theorems on packets, buffers and encrypted frames, on small ones.
use necro_mmo.Common.{
  ℕ, ◌^◌, ◌≤◌, ◌<◌, ◌≡◌, ◌+◌, ◌/◌, ◌⊎◌, refl, sym, none, some, List, [], ◌∷◌, length, replicate,
  arith,
}
use mathlib.Core.List.{append-nil}
use necro_mmo.Common.Int.{pos, negsuc}
use necro_mmo.Packet.{Field, u8, u16, c_string}
use necro_mmo.Aes.{Iv, all_succeed, increment_counter}
use necro_mmo.Message.{
  Message, IsValid, active, enlarge_buffer_if_needed, remaining_space, enlarge_max_size,
}
use necro_mmo.Message.Stream.{
  enlarge_makes_room, Op, put, consume, compact, run, queue_after, Legal, run-queue,
}
use necro_mmo.Message.Crypt.{aes_encrypt, aes_decrypt, plain}
use necro_mmo.Message.Crypt.Sending.{aes_encrypt-active}
use necro_mmo.Message.Crypt.RoundTrip.{aes_round_trip}
use necro_mmo.Message.Crypt.Refusals.{Decrypts, aes_decrypt-Decrypts, Refused, aes_decrypt-Refused}
use necro_mmo.Tests.Fixtures.{padding}

abbrev fields : List Field
fields = u8 2 ∷ u16 513 ∷ c_string (65 ∷ []) ∷ []

-- Three of four bytes have arrived, and one of them is read.
abbrev buffer : Message
buffer = record { rpos = 1; wpos = 3; bytes = 9 ∷ 8 ∷ 7 ∷ 6 ∷ []; cipher_bytes = []; tag = [] }

buffer-IsValid : IsValid buffer
buffer-IsValid = record { read_first = omega arith; inside = omega arith }

abbrev full : Message
full = record { rpos = 0; wpos = 4; bytes = 9 ∷ 8 ∷ 7 ∷ 6 ∷ []; cipher_bytes = []; tag = [] }

full-IsValid : IsValid full
full-IsValid = record { read_first = omega arith; inside = omega arith }

two : 2 ≤ length full.bytes
two = omega arith

enlarge_makes_room_example :
    let (w, code) = enlarge_buffer_if_needed full in
    IsValid w
    × (active w ≡ active full)
    × ((code ≡ pos 0) × (0 < remaining_space w)
        ⊎ (code ≡ negsuc 0)
          × (w ≡ full)
          × (remaining_space full ≡ 0)
          × (enlarge_max_size < length full.bytes + length full.bytes / 2))
    × (length full.bytes ≤ enlarge_max_size → length w.bytes ≤ enlarge_max_size)
enlarge_makes_room_example = enlarge_makes_room full full-IsValid two

abbrev ops : List Op
ops = put (1 ∷ 2 ∷ []) ∷ consume 3 ∷ compact ∷ put (4 ∷ []) ∷ []

legal : Legal ops (active buffer)
legal = (omega arith, tt)

run-queue_example :
    (w : Message) × (run ops buffer ≡ some w)
    × IsValid w
    × (active w ≡ queue_after ops (active buffer))
run-queue_example = run-queue ops buffer (active buffer) buffer-IsValid refl legal

abbrev iv : Iv
iv = record { prefix = 77; counter = 5 }

abbrev key : List ℕ
key = replicate 16 1

small_prefix : iv.prefix < 2 ^ 32
small_prefix = omega arith

small_counter : iv.counter < 2 ^ 64
small_counter = omega arith

short : length (active buffer) ≤ 484
short = omega arith

-- The frame of the buffer's text.
abbrev frame : Message
frame = (aes_encrypt-active padding key [] iv buffer buffer-IsValid).0

abbrev framed :
    aes_encrypt padding all_succeed key iv [] buffer
    ≡ some (frame, increment_counter iv, pos (length (active buffer)))
framed = (aes_encrypt-active padding key [] iv buffer buffer-IsValid).1

abbrev frame-IsValid : IsValid frame
frame-IsValid = (aes_encrypt-active padding key [] iv buffer buffer-IsValid).2

aes_round_trip_example :
    (r' : Message) × (aes_decrypt padding all_succeed key [] iv.counter none frame
      ≡ some (plain (length (active buffer)), (increment_counter iv).counter, r'))
    × IsValid r'
    × (r'.cipher_bytes ≡ active buffer)
    × (active r' ≡ [])
aes_round_trip_example =
    aes_round_trip padding key [] iv buffer frame frame (increment_counter iv) [] none small_prefix
      small_counter buffer-IsValid frame-IsValid short framed (sym (append-nil (active frame))) refl

aes_decrypt-Decrypts_example :
    Decrypts 5 buffer (aes_decrypt padding all_succeed key [] 5 none buffer)
aes_decrypt-Decrypts_example =
    aes_decrypt-Decrypts padding all_succeed key [] 5 none buffer buffer-IsValid

opened :
    (r' : Message) × (aes_decrypt padding all_succeed key [] iv.counter none frame
      ≡ some (plain (length (active buffer)), (increment_counter iv).counter, r'))
    × IsValid r'
    × (r'.cipher_bytes ≡ active buffer)
    × (active r' ≡ [])
opened =
    aes_round_trip padding key [] iv buffer frame frame (increment_counter iv) [] none small_prefix
      small_counter buffer-IsValid frame-IsValid short framed (sym (append-nil (active frame))) refl

aes_decrypt-Refused_example :
    Refused (aes_decrypt padding all_succeed key [] (increment_counter iv).counter none frame)
aes_decrypt-Refused_example =
    aes_decrypt-Refused padding all_succeed all_succeed key [] iv.counter none none frame opened.0
      frame (length (active buffer)) (increment_counter iv).counter small_counter frame-IsValid
      frame-IsValid opened.1 refl
