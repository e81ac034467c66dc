-- ===== src/World/Reading.antt =====
-- The read loop of the world server (src/NECROWorld/Server/Sockets/WorldSession.cpp,
-- `AsyncReadCallback`), and the answer to the lookup of a greet code, which goes on reading.
use mathlib.Core.Option
use necro_mmo.Common.{
  ℕ, zero, suc, ◌+◌, Bool, true, false, not, Option, none, some, List, [], length, take, ◌==◌,
  if◌then◌else◌, ltb,
}
use necro_mmo.Common.Bytes.{read_at}
use necro_mmo.Aes.{Gcm, aes_128_key_size}
use necro_mmo.Message.{Message, active, active_size, clear, soft_clear, read_completed, write}
use necro_mmo.Message.Crypt.{Decrypted, plain, failed, aes_decrypt}
use necro_mmo.Socket.{async_read, received, is_open}
use necro_mmo.World.{
  WorldSession, WorldSocketStatus, Env, gather_sessionkey, gather_sessionkey_pending,
  sessionkey_gathered, authed, in_world, rank, post, close_session, sessionkey_by_greetcode,
}
use necro_mmo.World.Handlers.{
  handle_greet_packet, handle_enum_character, handle_create_new_char, handle_delete_character,
  handle_enter_world, handle_exit_world, handle_player_movement_update,
}

-- `Handlers`: the status that a packet wants, and the size of its fixed part, which is not checked.
unfoldable pub find_handler : ℕ → Option (WorldSocketStatus × ℕ)
find_handler zero = some (sessionkey_gathered, 6)
find_handler (suc zero) = some (authed, 2)
find_handler (suc (suc zero)) = some (authed, 4)
find_handler (suc (suc (suc zero))) = some (authed, 4)
find_handler (suc (suc (suc (suc zero)))) = some (authed, 6)
find_handler (suc (suc (suc (suc (suc zero))))) = some (in_world, 2)
find_handler (suc (suc (suc (suc (suc (suc zero)))))) = some (in_world, 23)
find_handler (suc (suc (suc (suc (suc (suc (suc n))))))) = none

unfoldable pub run_handler : Env → ℕ → WorldSession → Option (WorldSession × Bool)
run_handler env zero a = handle_greet_packet env a
run_handler env (suc zero) a = some (handle_enum_character env a)
run_handler env (suc (suc zero)) a = handle_create_new_char env a
run_handler env (suc (suc (suc zero))) a = handle_delete_character env a
run_handler env (suc (suc (suc (suc zero)))) a = handle_enter_world env a
run_handler env (suc (suc (suc (suc (suc zero))))) a = some (handle_exit_world env a)
run_handler env (suc (suc (suc (suc (suc (suc n)))))) a = handle_player_movement_update env a

-- After one round of the loop: another one, the end of the loop, or the return of -1.
pub data Round : Type 0 where
  again over dropped : WorldSession → Round

-- What the handler has given.
unfoldable pub conclude : WorldSession × Bool → Round
conclude (a, true) =
    again (record a { current_decrypted_packet = soft_clear a.current_decrypted_packet })
conclude (a, false) = dropped a

-- With the command of the packet.
unfoldable pub dispatch : Env → ℕ → WorldSession → Option Round
unfolding conclude
dispatch env cmd a = elim (find_handler cmd) [
  | none ↦ some (dropped (record a { current_decrypted_packet = clear a.current_decrypted_packet }))
  | some (status, _) ↦
      if not (rank a.status == rank status)
      then some (dropped a)
      else Option.map conclude (run_handler env cmd a)
]

-- A frame was opened, and its text has `n` bytes.
unfoldable pub handle_plain : Env → ℕ → WorldSession → Option Round
unfolding dispatch Option.bind
handle_plain env n a =
    Option.bind (write (take n a.socket.in_buffer.cipher_bytes) a.current_decrypted_packet) λ m.
      let b = record a { current_decrypted_packet = m } in
      if ltb n 2
      then some (dropped b)
      else Option.bind (read_at 2 0 (active m)) λ cmd. dispatch env cmd b

-- What `AESDecrypt` has given.
unfoldable pub decrypted : Env → Decrypted × ℕ × Message → WorldSession → Option Round
unfolding handle_plain
decrypted env (r, counter, m) a =
    let b = record a {
      socket = record a.socket { in_buffer = m };
      expected_counter_for_next_packet = counter;
    } in
    elim r [
      | failed n ↦ some (if n == 1 then over b else dropped b)
      | plain n ↦ if n == 0 then some (dropped b) else handle_plain env n b
    ]

unfoldable pub read_round : Gcm → Env → WorldSession → Option Round
unfolding decrypted
read_round gcm env a =
    let prefix = if a.client_prefix_known then some a.data'.clients_iv_prefix else none in
    if active_size a.socket.in_buffer == 0
    then some (over a)
    else elim (aes_decrypt gcm env.evp a.data'.session_key [] a.expected_counter_for_next_packet
        prefix a.socket.in_buffer) [ none ↦ none | some r ↦ decrypted env r a ]

-- The loop, for at most `fuel` rounds; the rounds have their environments.
unfoldable pub read_loop : ℕ → Gcm → (ℕ → Env) → WorldSession → Option (WorldSession × Bool)
read_loop zero gcm env a = none
read_loop (suc fuel) gcm env a = elim (read_round gcm (env 0) a) [
  | none ↦ none
  | some (again b) ↦ read_loop fuel gcm (λ i. env (i + 1)) b
  | some (over b) ↦ Option.map (λ s. (record b { socket = s }, true)) (async_read b.socket)
  | some (dropped b) ↦ some (b, false)
]

-- Every round consumes a frame, which has 32 bytes at least, so there are fewer rounds than bytes.
unfoldable pub read_frames : Gcm → (ℕ → Env) → WorldSession → Option (WorldSession × Bool)
read_frames gcm env a = read_loop (suc (active_size a.socket.in_buffer)) gcm env a

-- The first bytes are the greet code.
unfoldable pub gather_greet_code : WorldSession → Option (WorldSession × Bool)
gather_greet_code a =
    let m = a.socket.in_buffer in
    let code = take aes_128_key_size (active m) in
    if ltb (active_size m) aes_128_key_size
    then Option.map (λ s. (record a { socket = s }, true)) (async_read a.socket)
    else some (
      post (sessionkey_by_greetcode code) (record a {
        data' = record a.data' { greet_code = code };
        socket = record a.socket { in_buffer = read_completed aes_128_key_size m };
        status = gather_sessionkey_pending;
      }),
      true,
    )

-- `AsyncReadCallback`: false is the return of -1.
unfoldable pub async_read_callback : Gcm → (ℕ → Env) → WorldSession → Option (WorldSession × Bool)
async_read_callback gcm env a =
    if rank a.status == rank gather_sessionkey then gather_greet_code a else read_frames gcm env a

-- After the read callback has been called: -1 closes the connection.
abbrev pub or_close : WorldSession × Bool → WorldSession × Bool
or_close (a, true) = (a, true)
or_close (a, false) = (close_session a, false)

-- `InternalReadCallback`, with the bytes that have been received, or an error.
unfoldable pub internal_read_callback :
    Option (List ℕ) → Gcm → (ℕ → Env) → WorldSession → Option WorldSession
internal_read_callback none gcm env a = some (close_session a)
internal_read_callback (some bytes) gcm env a = elim (received bytes a.socket) [
  | none ↦ none
  | some s ↦
      Option.map (λ r. (or_close r).0) (async_read_callback gcm env (record a { socket = s }))
]

-- A row of the active sessions.
pub record ActiveSession : Type 0 where
  pub account_id : ℕ
  pub session_key : List ℕ
  pub start_time : ℕ

abbrev pub greetcode_validity_time_window_seconds : ℕ
greetcode_validity_time_window_seconds = 30

-- The row is fresh: its key is taken, and what has arrived meanwhile is read.
unfoldable pub take_session_key :
    Gcm → (ℕ → Env) → ActiveSession → WorldSession → Option (WorldSession × Bool)
take_session_key gcm env row a =
    let b = record a { data' = record a.data' { account_id = row.account_id } } in
    if not (length row.session_key == aes_128_key_size)
    then some (close_session b, false)
    else Option.map or_close (
        async_read_callback gcm env (record b {
          data' = record b.data' { session_key = row.session_key };
          status = sessionkey_gathered;
        }))

-- `DBCallback_GreetcodeLookup`, at the time `time` in seconds: whether the query failed, and the row.
unfoldable pub db_callback_greetcode_lookup :
    Gcm → (ℕ → Env) → ℕ → Bool → Option ActiveSession → WorldSession → Option (WorldSession × Bool)
unfolding take_session_key
db_callback_greetcode_lookup gcm env time err row a =
    if not (is_open a.socket)
    then some (a, false)
    else if err
    then some (close_session a, false)
    else elim row [
      | none ↦ some (close_session a, false)
      | some r ↦
          if ltb (r.start_time + greetcode_validity_time_window_seconds) time
          then some (close_session a, false)
          else take_session_key gcm env r a
    ]
