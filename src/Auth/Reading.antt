-- ===== src/Auth/Reading.antt =====
-- The read loop of the login server (src/NECROAuth/Server/Auth/AuthSession.cpp, `AsyncReadCallback`).
use mathlib.Core.Option
use necro_mmo.Common.{
  ℕ, zero, suc, ◌+◌, ◌%◌, ◌^◌, Bool, true, false, not, ◌||◌, Option, none, some, List, [], ◌∷◌,
  ◌==◌, if◌then◌else◌, ltb,
}
use necro_mmo.Common.Bytes.{read_at}
use necro_mmo.Message.{Message, active, active_size, clear, read_completed}
use necro_mmo.Socket.{async_read, close_socket, received}
use necro_mmo.Auth.{AuthSession, SocketStatus, gather_info, login_attempt, authed, rank}
use necro_mmo.Auth.Handlers.{
  Env, Outcome, accepted, refused, thrown, handle_auth_login_gather_info_packet,
  handle_auth_login_proof_packet, handle_gather_realmlist_packet,
}

-- `Handlers`: the status that a packet wants, and the size of its fixed part.
unfoldable pub find_handler : ℕ → Option (SocketStatus × ℕ)
find_handler zero = some (gather_info, 4)
find_handler (suc zero) = some (login_attempt, 4)
find_handler (suc (suc zero)) = some (authed, 2)
find_handler (suc (suc (suc n))) = none

unfoldable pub run_handler : Env → ℕ → AuthSession → Option Outcome
run_handler env zero a = handle_auth_login_gather_info_packet env a
run_handler env (suc zero) a = handle_auth_login_proof_packet env a
run_handler env (suc (suc n)) a = handle_gather_realmlist_packet env a

-- The whole size that a packet declares, and whether it is within the limits of its kind. The sum is
-- a `uint16_t`.
unfoldable pub whole_size : ℕ → ℕ → List ℕ → Option (ℕ × Bool)
whole_size zero size bytes =
    Option.map
      (λ more. let whole = (size + more) % 2 ^ 16 in (whole, not (ltb 24 whole || ltb whole 9)))
      (read_at 2 2 bytes)
whole_size (suc zero) size bytes =
    Option.map
      (λ more. let whole = (size + more) % 2 ^ 16 in (whole, not (ltb 33 whole || ltb whole 18)))
      (read_at 2 2 bytes)
whole_size (suc (suc n)) size bytes = some (size, true)

-- After one round of the loop: another one, the end of the loop, or the return of -1.
pub data Round : Type 0 where
  again over failed : AuthSession → Round

abbrev pub with_buffer : (Message → Message) → AuthSession → AuthSession
with_buffer f a = record a { socket = record a.socket { in_buffer = f a.socket.in_buffer } }

-- What the handler has given.
unfoldable pub conclude : ℕ → Outcome → Round
conclude size (accepted a) = again (with_buffer (read_completed size) a)
conclude size (refused a) = failed a
conclude size (thrown a) = failed a

-- A whole packet has been received.
unfoldable pub handle_whole : Env → ℕ → ℕ → AuthSession → Option Round
unfolding conclude
handle_whole env cmd size a =
    let processed = (a.packets_processed + 1) % 2 ^ 32 in
    let b = record a { packets_processed = processed } in
    if ltb 3 processed
    then some (failed (with_buffer clear b))
    else Option.map (conclude size) (run_handler env cmd b)

-- The packet's kind is known.
unfoldable pub read_packet : Env → ℕ → SocketStatus × ℕ → AuthSession → Option Round
unfolding handle_whole
read_packet env cmd (status, size) a =
    let m = a.socket.in_buffer in
    if not (rank a.status == rank status)
    then some (failed a)
    else if ltb (active_size m) size
    then some (over a)
    else elim (whole_size cmd size (active m)) [
      | none ↦ none
      | some (whole, false) ↦ some (failed a)
      | some (whole, true) ↦
          if ltb (active_size m) whole then some (over a) else handle_whole env cmd whole a
    ]

-- One round, with the byte that the loop looks at first.
unfoldable pub read_round : Env → AuthSession → Option Round
unfolding read_packet
read_round env a =
    let m = a.socket.in_buffer in
    if active_size m == 0 then some (over a) else elim (active m) [
      | [] ↦ none
      | cmd ∷ _ ↦ elim (find_handler cmd) [
        | none ↦ some (failed (with_buffer clear a))
        | some handler ↦ read_packet env cmd handler a
      ]
    ]

-- The loop, for at most `fuel` rounds.
unfoldable pub read_loop : ℕ → Env → AuthSession → Option (AuthSession × Bool)
read_loop zero env a = none
read_loop (suc fuel) env a = elim (read_round env a) [
  | none ↦ none
  | some (again b) ↦ read_loop fuel env b
  | some (over b) ↦ elim (async_read b.socket) [
    | none ↦ none
    | some s ↦ some (record b { socket = s }, true)
  ]
  | some (failed b) ↦ some (b, false)
]

-- `AsyncReadCallback`: false is the return of -1. Three packets are let through, so that the loop ends
-- within five rounds.
abbrev pub rounds : ℕ
rounds = 5

unfoldable pub async_read_callback : Env → AuthSession → Option (AuthSession × Bool)
async_read_callback env a = read_loop rounds env a

-- `InternalReadCallback`, with the bytes that have been received, or an error.
unfoldable pub internal_read_callback : Option (List ℕ) → Env → AuthSession → Option AuthSession
internal_read_callback none env a = some (record a { socket = close_socket a.socket })
internal_read_callback (some bytes) env a = elim (received bytes a.socket) [
  | none ↦ none
  | some s ↦ elim (async_read_callback env (record a { socket = s })) [
    | none ↦ none
    | some (b, true) ↦ some b
    | some (b, false) ↦ some (record b { socket = close_socket b.socket })
  ]
]
