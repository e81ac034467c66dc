-- ===== src/Tests/Account.antt =====
-- A whole login, of a client of the version 1.2.3 with the name `Bo`.
use mathlib.Core.Option
use necro_mmo.Common.{
  ℕ, ◌≤◌, ◌≡◌, refl, Bool, true, false, Option, none, some, List, [], ◌∷◌, ◌++◌, length, replicate,
  leb, arith,
}
use necro_mmo.Common.Bytes.{read_at}
use necro_mmo.Packet.{append, encode, write_fields}
use necro_mmo.Message.{
  make, of_moved, write_completed, compact_data, shift_active, read_completed,
  enlarge_buffer_if_needed,
}
use necro_mmo.Socket.{make_socket, received, queue_packet, async_write, async_read}
use necro_mmo.Auth.{AuthSession, make_session, rank}
use necro_mmo.Auth.Work.{zero_bytes, has_leading_zero_bits, verify_proof_of_work}
use necro_mmo.Auth.Handlers.{
  Env, slice_at, send_reply, send_challenge, identify, check_credentials, judge_work,
  handle_auth_login_gather_info_packet, handle_auth_login_proof_packet,
}
use necro_mmo.Auth.Reading.{
  find_handler, run_handler, whole_size, conclude, handle_whole, read_packet, read_round, read_loop,
  async_read_callback, internal_read_callback,
}
use necro_mmo.Auth.Results.{
  Draws, draw_prefix, accept_login, handle_password_hash_result,
  db_callback_auth_login_proof_packet,
}
use necro_mmo.Auth.Login.{Solved}
use necro_mmo.Auth.Reached.{Reached, joined, read, found, checked, authenticated_lem}

-- Every hash has its leading zeros, and a short stored hash fits every password.
abbrev sha256 : List ℕ → Option (List ℕ)
sha256 text = some (replicate 32 0)

abbrev verify : List ℕ → List ℕ → Bool
verify hash pass = leb (length hash) 3

abbrev accounts : List ℕ → Option (ℕ × List ℕ)
accounts name = some (42, 1 ∷ [])

abbrev env : Env
env = record {
  settings = record {
    client_version_major = 1;
    client_version_minor = 2;
    client_version_revision = 3;
    connected_and_idle_timeout_ms = 10000;
  };
  now = 50;
  sha256 = sha256;
  random_bytes = some (replicate 16 9);
  has_room = true;
  realms = [];
  parse_ip = λ ip. none;
}

abbrev result : Option AuthSession → AuthSession
result none = make_session 0
result (some a) = a

abbrev hello : List ℕ
hello = 0 ∷ 0 ∷ 6 ∷ 0 ∷ 1 ∷ 2 ∷ 3 ∷ 2 ∷ 66 ∷ 111 ∷ []

abbrev connected : AuthSession
connected = make_session 3

abbrev challenged : AuthSession
challenged = result (internal_read_callback (some hello) env connected)

-- The password is `ab`.
abbrev proof : List ℕ
proof = 1 ∷ 0 ∷ 15 ∷ 0 ∷ replicate 8 0 ++ 5 ∷ 0 ∷ 0 ∷ 0 ∷ 2 ∷ 97 ∷ 98 ∷ []

abbrev pending : AuthSession
pending = result (internal_read_callback (some proof) env challenged)

abbrev looked_up : AuthSession
looked_up = (db_callback_auth_login_proof_packet 60 false (accounts (66 ∷ 111 ∷ [])) pending).0

abbrev draws : Draws
draws = record { prefixes = 5 ∷ 8 ∷ []; session_key = replicate 16 2; greet_code = replicate 16 3 }

abbrev session_of : Option (AuthSession × Bool) → AuthSession
session_of none = make_session 0
session_of (some (a, _)) = a

abbrev logged_in : AuthSession
logged_in =
    session_of
      (handle_password_hash_result (verify (1 ∷ []) (97 ∷ 98 ∷ [])) false draws true looked_up)

login : Reached sha256 verify accounts logged_in
unfolding make make_socket make_session internal_read_callback received write_completed
    async_read_callback read_loop read_round find_handler read_packet whole_size handle_whole
    run_handler conclude handle_auth_login_gather_info_packet identify send_challenge read_at
    slice_at send_reply write_fields append encode of_moved queue_packet async_write async_read
    compact_data shift_active enlarge_buffer_if_needed read_completed Option.bind Option.map
    handle_auth_login_proof_packet verify_proof_of_work has_leading_zero_bits zero_bytes judge_work
    check_credentials db_callback_auth_login_proof_packet handle_password_hash_result accept_login
    draw_prefix
login =
    checked 1 (1 ∷ []) (97 ∷ 98 ∷ []) false draws true true
      (found 60 0 false (66 ∷ 111 ∷ [])
        (read env proof refl (read env hello refl (joined 3) (omega arith) (omega arith) refl)
          (omega arith) (omega arith) refl)
        refl)
      refl refl

late : 5 ≤ rank logged_in.status
unfolding make make_socket make_session internal_read_callback received write_completed
    async_read_callback read_loop read_round find_handler read_packet whole_size handle_whole
    run_handler conclude handle_auth_login_gather_info_packet identify send_challenge read_at
    slice_at send_reply write_fields append encode of_moved queue_packet async_write async_read
    compact_data shift_active enlarge_buffer_if_needed read_completed Option.bind Option.map
    handle_auth_login_proof_packet verify_proof_of_work has_leading_zero_bits zero_bytes judge_work
    check_credentials db_callback_auth_login_proof_packet handle_password_hash_result accept_login
    draw_prefix
late = omega arith

authenticated_lem_example :
    Solved sha256 verify accounts logged_in.data'
    × ((id : ℕ) × (hash pass : List ℕ) × (accounts logged_in.data'.username ≡ some (id, hash))
        × (logged_in.data'.account_id ≡ id)
        × (verify hash pass ≡ true))
authenticated_lem_example = authenticated_lem sha256 verify accounts logged_in refl login late
