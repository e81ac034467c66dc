-- ===== src/Tests/Players.antt =====
-- Witnesses for the theorems on the sessions of the world server, at the stages of one client.
use necro_mmo.Common.{
  ◌&&◌, not, ℕ, ◌+◌, ◌%◌, ◌^◌, ◌<◌, ◌≡◌, refl, Bool, true, false, Option, none, some, List, [], ◌∷◌,
  ◌++◌, length, arith,
}
use necro_mmo.Aes.{all_succeed, to_byte_array}
use necro_mmo.Common.Bytes.{htonl}
use necro_mmo.Packet as Packet
use necro_mmo.Packet.{encode}
use necro_mmo.Packet.Content.{encode_all}
use necro_mmo.Message as Message
use necro_mmo.Message.{Message, active}
use necro_mmo.Message.Crypt.{plain, aes_decrypt}
use necro_mmo.Queue.{try_enqueue}
use necro_mmo.Socket.{is_open}
use necro_mmo.World.{WorldSession, sel_enum, spawn_player, rollback_spawn, exit_world}
use necro_mmo.World.Updating.{process_player_packets_queue}
use necro_mmo.World.Handlers.{handle_create_new_char, handle_delete_character}
use necro_mmo.World.Reading.{internal_read_callback}
use necro_mmo.World.Answers.{Shared, enum_fields, db_callback_handle_enum_character}
use necro_mmo.World.Answers.Entry.{world_cmd_callback_on_enter_world, entering_data, destroy}
use necro_mmo.World.Sending.{frame_of}
use necro_mmo.World.Sending.Several.{AllSent}
use necro_mmo.World.Rules.{Rules, Wires, Rules-quiet}
use necro_mmo.World.Received.{IsValid}
use necro_mmo.World.Requests.{
  Asks, create_request, delete_request, handle_create_new_char-Asks, handle_delete_character-Asks,
}
use necro_mmo.World.Leaving.{world_cmd_callback_on_enter_world-keeps}
use necro_mmo.Message.Crypt.Outcomes.{encrypts}
use necro_mmo.World.Selection.{Replied, db_callback_handle_enum_character-Selected}
use necro_mmo.World.Turns.{process_player_packets_queue-AllSent}
use necro_mmo.World.Reached.{without-IsValid, session_rules, session_reads, session_leaves}
use necro_mmo.World.Events.{Reached, queued, without}
use necro_mmo.World.Admission.{Admits, db_callback_greetcode_lookup-Admits}
use necro_mmo.World.Listing.{enum_fields-opens}
use necro_mmo.Tests.Fixtures.{padding}
use necro_mmo.Tests.Realm.{
  env, key, row, pending, keyed, selecting, hero, shared, shared-IsValid, authenticated, spawning,
  arrival, inside,
}
use necro_mmo.Tests.Journey.{
  to_selection, to_authenticated, to_spawn, to_world, stages, lookup_done,
}

session_rules_example : IsValid inside
session_rules_example = session_rules padding inside to_world

session_reads_example :
    (b : WorldSession) × (internal_read_callback (some (7 ∷ 8 ∷ 9 ∷ [])) padding (λ _. env) inside
      ≡ some b)
    × Reached padding b
session_reads_example =
    session_reads padding inside (λ _. env) (7 ∷ 8 ∷ 9 ∷ []) to_world stages.5 stages.6

session_leaves_example :
    (0 < inside.player_guid
      → (destroy shared inside).1.posted
        ≡ inside.posted ++ exit_world inside.player_guid false ∷ [])
    × (inside.player_guid ≡ 0 → (destroy shared inside).1.posted ≡ inside.posted)
session_leaves_example = session_leaves padding inside shared to_world

-- The result of the spawn is taken from the requests.
abbrev waiting : WorldSession
waiting = without spawning [] []

waiting-IsValid : IsValid waiting
waiting-IsValid =
    without-IsValid spawning [] [] (spawn_player (entering_data 7 hero)) refl
      (session_rules padding spawning to_spawn)

world_cmd_callback_on_enter_world-keeps_example :
    (b : WorldSession) × (ok : Bool) × (world_cmd_callback_on_enter_world padding env arrival
        waiting
      ≡ some (b, ok))
    × IsValid b
    × (is_open waiting.socket ≡ false
        → b.posted ≡ waiting.posted ++ rollback_spawn arrival.guid ∷ [])
    × (is_open waiting.socket ≡ true
        → (b.player_guid ≡ arrival.guid)
          × (b.posted ≡ waiting.posted)
          × ((destroy shared b).1.posted ≡ waiting.posted ++ exit_world arrival.guid false ∷ []))
world_cmd_callback_on_enter_world-keeps_example =
    world_cmd_callback_on_enter_world-keeps padding env arrival shared waiting waiting-IsValid refl
      refl refl (omega arith)

-- A packet with a text, for the authenticated session.
abbrev packet : List ℕ → Message
packet text = record { rpos = 0; wpos = length text; bytes = text; cipher_bytes = []; tag = [] }

abbrev with_packet : List ℕ → WorldSession
with_packet text = record authenticated { current_decrypted_packet = packet text }

with_packet-Rules : (text : List ℕ) → Rules (with_packet text)
with_packet-Rules text =
    Rules-quiet authenticated authenticated.socket (packet text) authenticated.last_activity
      authenticated.expected_counter_for_next_packet authenticated.player_packet_queue
      (session_rules padding authenticated to_authenticated).rules

with_packet-Wires : (text : List ℕ) → Wires (with_packet text)
with_packet-Wires text =
    let w = (session_rules padding authenticated to_authenticated).wires in
    record {
      flows = w.flows;
      buffer = w.buffer;
      plain = record { read_first = omega arith; inside = omega arith };
    }

-- The new character is `Bo`, and so is the one to delete.
abbrev creation : List ℕ
creation = 2 ∷ 0 ∷ 6 ∷ 0 ∷ 1 ∷ 2 ∷ 0 ∷ 2 ∷ 66 ∷ 111 ∷ []

abbrev deletion : List ℕ
deletion = 3 ∷ 0 ∷ 7 ∷ 0 ∷ 7 ∷ 0 ∷ 0 ∷ 0 ∷ 2 ∷ 66 ∷ 111 ∷ []

handle_create_new_char-Asks_example :
    (b : WorldSession) × (ok : Bool) × (handle_create_new_char env (with_packet creation)
      ≡ some (b, ok))
    × Asks 8 env (create_request (with_packet creation)) (with_packet creation) b ok
handle_create_new_char-Asks_example =
    handle_create_new_char-Asks env (with_packet creation) (with_packet-Rules creation)
      (with_packet-Wires creation) refl

handle_delete_character-Asks_example :
    (b : WorldSession) × (ok : Bool) × (handle_delete_character env (with_packet deletion)
      ≡ some (b, ok))
    × Asks 9 env (delete_request (with_packet deletion)) (with_packet deletion) b ok
handle_delete_character-Asks_example =
    handle_delete_character-Asks env (with_packet deletion) (with_packet-Rules deletion)
      (with_packet-Wires deletion) refl

abbrev correction : Packet.Packet
correction = record { rpos = 0; wpos = 3; bytes = 6 ∷ 0 ∷ 9 ∷ []; capacity = 1024 }

abbrev fed : WorldSession
fed = record inside { player_packet_queue = (try_enqueue correction inside.player_packet_queue).0 }

process_player_packets_queue-AllSent_example :
    (b : WorldSession) × (process_player_packets_queue padding (λ _. all_succeed) fed ≡ some b)
    × AllSent padding
        (λ _. all_succeed)
        0
        fed.player_packet_queue
        (record fed { player_packet_queue = [] })
        b
    × IsValid b
process_player_packets_queue-AllSent_example =
    process_player_packets_queue-AllSent padding (λ _. all_succeed) fed
      (session_rules padding fed (queued correction to_world)) stages.3 stages.4

abbrev chosen : WorldSession
chosen = without selecting [] []

db_callback_handle_enum_character-Selected_example :
    (b : WorldSession) × (after : Shared) × (kicked : Option ℕ) × (ok : Bool)
    × (db_callback_handle_enum_character padding env true false (hero ∷ []) shared chosen
        ≡ some ((b, after, kicked), ok))
    × Replied padding (hero ∷ []) chosen shared b after ok
    × (ok ≡ (is_open chosen.socket && (not false && encrypts env.evp)))
db_callback_handle_enum_character-Selected_example =
    db_callback_handle_enum_character-Selected padding env true false (hero ∷ []) shared chosen
      (without-IsValid selecting [] [] (sel_enum 42) stages.2
        (session_rules padding selecting to_selection))
      shared-IsValid

db_callback_greetcode_lookup-Admits_example :
    (is_open (without pending [] []).socket ≡ true) × (false ≡ false) × Admits 110 (some row)
db_callback_greetcode_lookup-Admits_example =
    db_callback_greetcode_lookup-Admits padding (λ _. env) 110 false (some row)
      (without pending [] []) keyed true stages.0 lookup_done (λ e. omega (arith, e, stages.1))

-- The client's buffer holds the frame of the list.
abbrev list_frame : List ℕ
list_frame =
    frame_of padding key (record { prefix = 5; counter = 0 }) (encode_all (enum_fields (hero ∷ [])))

abbrev buffer : Message
buffer = record { rpos = 0; wpos = 67; bytes = list_frame; cipher_bytes = []; tag = [] }

buffer-IsValid : (Message.IsValid buffer) × (active buffer ≡ list_frame ++ [])
unfolding enum_fields encode htonl to_byte_array
buffer-IsValid = (record { read_first = omega arith; inside = omega arith }, refl)

enum_fields-opens_example :
    (r' : Message) × (aes_decrypt padding all_succeed key [] 0 none buffer
      ≡ some (plain (length (encode_all (enum_fields (hero ∷ [])))), (0 + 1) % 2 ^ 64, r'))
    × (r'.cipher_bytes ≡ encode_all (enum_fields (hero ∷ [])))
    × (active r' ≡ [])
enum_fields-opens_example =
    enum_fields-opens padding key (hero ∷ []) (record { prefix = 5; counter = 0 }) buffer [] none
      (omega arith, tt) (omega arith) (omega arith) (omega arith) buffer-IsValid.0 buffer-IsValid.1
      refl
