-- ===== src/Tests/Journey.antt =====
-- That the stages of the client are reached, one after the other.
use mathlib.Core.Option
use necro_mmo.Common.{◌≤◌, ◌≡◌, refl, true, false, none, some, [], ◌∷◌, ◌++◌, replicate, arith}
use necro_mmo.Common.Bytes.{read_at, htonl}
use necro_mmo.Aes.{all_succeed, encrypt, decrypt, to_byte_array, increment_counter}
use necro_mmo.Packet.{append, encode, write_fields}
use necro_mmo.Message.{
  make, of_moved, write_completed, compact_data, shift_active, read_completed, clear, soft_clear,
  write, make_room, enlarge_buffer_if_needed, remaining_space,
}
use necro_mmo.Message.Crypt.{aes_encrypt, aes_decrypt, decrypt_from, open_frame, write_frame}
use necro_mmo.Socket.{make_socket, received, queue_packet, async_write, async_read, is_open}
use necro_mmo.Queue as Queue
use necro_mmo.Sessions.{register_session}
use necro_mmo.World.{
  make_session, rank, send_packet, send_reply, sent_as, sessionkey_by_greetcode, sel_enum,
  sel_by_charid, spawn_player,
}
use necro_mmo.World.Updating.{update_session, update_in}
use necro_mmo.World.Handlers.{
  pick_prefix, greeted, handle_greet_packet, handle_enum_character, handle_enter_world,
}
use necro_mmo.World.Reading.{
  find_handler, run_handler, conclude, dispatch, handle_plain, decrypted, read_round, read_loop,
  read_frames, gather_greet_code, async_read_callback, internal_read_callback, take_session_key,
  db_callback_greetcode_lookup,
}
use necro_mmo.World.Answers.{enum_fields, enter_selection, db_callback_handle_enum_character}
use necro_mmo.World.Answers.Entry.{
  db_callback_handle_enter_world_checks, world_cmd_callback_on_enter_world, entering_data,
}
use necro_mmo.World.Events.{
  Reached, accepted, turned, read, answered, looked_up, listed, entry_checked, entered, without,
}
use necro_mmo.Tests.Arrival.{empty_world, empty_world-IsValid, spawned_world, arrived}
use necro_mmo.Tests.Fixtures.{whole_numbers, padding}
use necro_mmo.Tests.Realm.{
  env, pending, row, keyed, greeting, selecting, hero, shared, shared-IsValid, authenticated, entry,
  entering, spawning, arrival, inside,
}

pub to_lookup : Reached padding pending
unfolding make make_socket make_session update_session update_in internal_read_callback received
    write_completed async_read_callback read_loop read_frames read_round gather_greet_code
    find_handler decrypted handle_plain dispatch run_handler conclude handle_greet_packet greeted
    pick_prefix handle_enum_character handle_enter_world read_at write append encode write_fields
    of_moved queue_packet async_write async_read compact_data shift_active enlarge_buffer_if_needed
    read_completed clear soft_clear make_room aes_encrypt aes_decrypt decrypt_from open_frame
    write_frame encrypt decrypt to_byte_array increment_counter send_reply send_packet sent_as
    db_callback_greetcode_lookup take_session_key db_callback_handle_enum_character enum_fields
    enter_selection register_session db_callback_handle_enter_world_checks
    world_cmd_callback_on_enter_world Option.bind htonl Queue.clear
to_lookup =
    read (λ _. env) (replicate 16 1) (turned (λ _. all_succeed) 1000 100 true (accepted 3) refl)
      refl (omega arith) refl

-- The answer to the lookup.
pub lookup_done :
    db_callback_greetcode_lookup padding (λ _. env) 110 false (some row) (without pending [] [])
    ≡ some (keyed, true)
unfolding make make_socket make_session update_session update_in internal_read_callback received
    write_completed async_read_callback read_loop read_frames read_round gather_greet_code
    find_handler decrypted handle_plain dispatch run_handler conclude handle_greet_packet greeted
    pick_prefix handle_enum_character handle_enter_world read_at write append encode write_fields
    of_moved queue_packet async_write async_read compact_data shift_active enlarge_buffer_if_needed
    read_completed clear soft_clear make_room aes_encrypt aes_decrypt decrypt_from open_frame
    write_frame encrypt decrypt to_byte_array increment_counter send_reply send_packet sent_as
    db_callback_greetcode_lookup take_session_key db_callback_handle_enum_character enum_fields
    enter_selection register_session db_callback_handle_enter_world_checks
    world_cmd_callback_on_enter_world Option.bind htonl Queue.clear
lookup_done = refl

pub to_selection : Reached padding selecting
unfolding make make_socket make_session update_session update_in internal_read_callback received
    write_completed async_read_callback read_loop read_frames read_round gather_greet_code
    find_handler decrypted handle_plain dispatch run_handler conclude handle_greet_packet greeted
    pick_prefix handle_enum_character handle_enter_world read_at write append encode write_fields
    of_moved queue_packet async_write async_read compact_data shift_active enlarge_buffer_if_needed
    read_completed clear soft_clear make_room aes_encrypt aes_decrypt decrypt_from open_frame
    write_frame encrypt decrypt to_byte_array increment_counter send_reply send_packet sent_as
    db_callback_greetcode_lookup take_session_key db_callback_handle_enum_character enum_fields
    enter_selection register_session db_callback_handle_enter_world_checks
    world_cmd_callback_on_enter_world Option.bind htonl Queue.clear
to_selection =
    read (λ _. env) greeting
      (answered [] [] (sessionkey_by_greetcode (replicate 16 1)) to_lookup refl
        (looked_up (replicate 16 1) (λ _. env) 110 false (some row) true lookup_done))
      refl (omega arith) refl

-- What is known of the stages.
pub stages :
    (rank (without pending [] []).status ≡ 1)
    × (rank keyed.status ≡ 2)
    × (selecting.posted ≡ [] ++ sel_enum 42 ∷ [])
    × (is_open inside.socket ≡ true)
    × (rank inside.status ≡ 6)
    × (inside.socket.reading ≡ true)
    × (3 ≤ remaining_space inside.socket.in_buffer)
unfolding make make_socket make_session update_session update_in internal_read_callback received
    write_completed async_read_callback read_loop read_frames read_round gather_greet_code
    find_handler decrypted handle_plain dispatch run_handler conclude handle_greet_packet greeted
    pick_prefix handle_enum_character handle_enter_world read_at write append encode write_fields
    of_moved queue_packet async_write async_read compact_data shift_active enlarge_buffer_if_needed
    read_completed clear soft_clear make_room aes_encrypt aes_decrypt decrypt_from open_frame
    write_frame encrypt decrypt to_byte_array increment_counter send_reply send_packet sent_as
    db_callback_greetcode_lookup take_session_key db_callback_handle_enum_character enum_fields
    enter_selection register_session db_callback_handle_enter_world_checks
    world_cmd_callback_on_enter_world Option.bind htonl Queue.clear
stages = (refl, refl, refl, refl, refl, refl, omega arith)

pub to_authenticated : Reached padding authenticated
unfolding make make_socket make_session update_session update_in internal_read_callback received
    write_completed async_read_callback read_loop read_frames read_round gather_greet_code
    find_handler decrypted handle_plain dispatch run_handler conclude handle_greet_packet greeted
    pick_prefix handle_enum_character handle_enter_world read_at write append encode write_fields
    of_moved queue_packet async_write async_read compact_data shift_active enlarge_buffer_if_needed
    read_completed clear soft_clear make_room aes_encrypt aes_decrypt decrypt_from open_frame
    write_frame encrypt decrypt to_byte_array increment_counter send_reply send_packet sent_as
    db_callback_greetcode_lookup take_session_key db_callback_handle_enum_character enum_fields
    enter_selection register_session db_callback_handle_enter_world_checks
    world_cmd_callback_on_enter_world Option.bind htonl Queue.clear
to_authenticated = answered [] [] (sel_enum 42) to_selection refl (
    listed 42 env true false (hero ∷ []) shared
      (record {
        manager = record { sessions = (4, 100) ∷ (42, 101) ∷ []; player_count = 2 };
        next_serial = 102;
      })
      none true shared-IsValid refl)

pub to_entering : Reached padding entering
unfolding make make_socket make_session update_session update_in internal_read_callback received
    write_completed async_read_callback read_loop read_frames read_round gather_greet_code
    find_handler decrypted handle_plain dispatch run_handler conclude handle_greet_packet greeted
    pick_prefix handle_enum_character handle_enter_world read_at write append encode write_fields
    of_moved queue_packet async_write async_read compact_data shift_active enlarge_buffer_if_needed
    read_completed clear soft_clear make_room aes_encrypt aes_decrypt decrypt_from open_frame
    write_frame encrypt decrypt to_byte_array increment_counter send_reply send_packet sent_as
    db_callback_greetcode_lookup take_session_key db_callback_handle_enum_character enum_fields
    enter_selection register_session db_callback_handle_enter_world_checks
    world_cmd_callback_on_enter_world Option.bind htonl Queue.clear
to_entering = read (λ _. env) entry to_authenticated refl (omega arith) refl

pub to_spawn : Reached padding spawning
unfolding make make_socket make_session update_session update_in internal_read_callback received
    write_completed async_read_callback read_loop read_frames read_round gather_greet_code
    find_handler decrypted handle_plain dispatch run_handler conclude handle_greet_packet greeted
    pick_prefix handle_enum_character handle_enter_world read_at write append encode write_fields
    of_moved queue_packet async_write async_read compact_data shift_active enlarge_buffer_if_needed
    read_completed clear soft_clear make_room aes_encrypt aes_decrypt decrypt_from open_frame
    write_frame encrypt decrypt to_byte_array increment_counter send_reply send_packet sent_as
    db_callback_greetcode_lookup take_session_key db_callback_handle_enum_character enum_fields
    enter_selection register_session db_callback_handle_enter_world_checks
    world_cmd_callback_on_enter_world Option.bind htonl Queue.clear
to_spawn =
    answered [] [] (sel_by_charid 7) to_entering refl
      (entry_checked 7 env false (some (42, hero)) true refl)

pub to_world : Reached padding inside
unfolding make make_socket make_session update_session update_in internal_read_callback received
    write_completed async_read_callback read_loop read_frames read_round gather_greet_code
    find_handler decrypted handle_plain dispatch run_handler conclude handle_greet_packet greeted
    pick_prefix handle_enum_character handle_enter_world read_at write append encode write_fields
    of_moved queue_packet async_write async_read compact_data shift_active enlarge_buffer_if_needed
    read_completed clear soft_clear make_room aes_encrypt aes_decrypt decrypt_from open_frame
    write_frame encrypt decrypt to_byte_array increment_counter send_reply send_packet sent_as
    db_callback_greetcode_lookup take_session_key db_callback_handle_enum_character enum_fields
    enter_selection register_session db_callback_handle_enter_world_checks
    world_cmd_callback_on_enter_world Option.bind htonl Queue.clear
to_world = answered [] [] (spawn_player (entering_data 7 hero)) to_spawn refl (
    entered (entering_data 7 hero) env whole_numbers [] empty_world spawned_world arrival true
      empty_world-IsValid arrived.0 arrived.1 refl)
