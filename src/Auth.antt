-- ===== src/Auth.antt =====
-- `AuthSession` (src/NECROAuth/Server/Auth/AuthSession.h and AuthSession.cpp): a connection to the
-- login server, on its network thread, with the packets of src/shared/Authentication/AuthCodes.h.
pub mod Work
pub mod Difficulty
pub mod Handlers
pub mod Reading
pub mod Progress
pub mod Served
pub mod Loop
pub mod Rounds
pub mod Session
pub mod Closing
pub mod Results
pub mod Login
pub mod Reached
use necro_mmo.Common.{
  ℕ, ◌+◌, ◌≤◌, ◌≡◌, Bool, true, false, not, ◌&&◌, ◌||◌, Option, none, some, List, [], ◌∷◌, ◌++◌,
  length, ◌==◌, if◌then◌else◌, leb, ltb,
}
use necro_mmo.Aes.{Iv}
use necro_mmo.Message.{Message}
use necro_mmo.Socket.{
  Socket, UnderlyingState, default_state, just_connected, connected, critical_error, close_socket,
  async_read, make_socket,
}

pub data SocketStatus : Type 0 where
  handshaking gather_info gather_info_pending login_attempt login_attempt_pending authed
        gather_realmlist_pending closed :
      SocketStatus

-- The numbers of the enumeration.
abbrev pub rank : SocketStatus → ℕ
rank SocketStatus.handshaking = 0
rank gather_info = 1
rank gather_info_pending = 2
rank login_attempt = 3
rank login_attempt_pending = 4
rank authed = 5
rank gather_realmlist_pending = 6
rank SocketStatus.closed = 7

-- What a session hands to the database and to the crypto threads.
pub data Request : Type 0 where
  -- `CREDENTIALS_CHECK` of a user.
  credentials_check : List ℕ → Request
  -- `crypto_pwhash_str_verify` of a hash and a password, with the flag `preventLog` for the result.
  verify_password : List ℕ → List ℕ → Bool → Request
  -- `INS_LOG_WRONG_PASSWORD` of a user.
  log_wrong_password : List ℕ → Request
  -- `DEL_PREV_SESSIONS`, `INS_NEW_SESSION` and `UPD_ON_LOGIN` of an account, as one transaction, with
  -- the session key and the greet code.
  new_session : ℕ → List ℕ → List ℕ → Request

pub record AccountData : Type 0 where
  pub challenge : List ℕ
  pub difficulty : ℕ
  pub username : List ℕ
  pub account_id : ℕ
  pub session_key : List ℕ
  pub greet_code : List ℕ
  pub iv : Iv
  pub version_major : ℕ
  pub version_minor : ℕ
  pub version_revision : ℕ
  pub pass : List ℕ
  pub rand_iv_prefix : ℕ

pub record AuthSession : Type 0 where
  pub socket : Socket
  pub status : SocketStatus
  pub data' : AccountData
  pub close_after_send : Bool
  pub handshake_timedout : Bool
  pub handshake_start_time : ℕ
  pub last_activity : ℕ
  pub packets_processed : ℕ
  -- What the session has posted to other threads, in order.
  pub posted : List Request

-- A session that has just been accepted, with TLS; the nonce's prefix is random.
unfoldable pub make_session : ℕ → AuthSession
make_session prefix = record {
  socket = make_socket true;
  status = gather_info;
  data' = record {
    challenge = [];
    difficulty = 0;
    username = [];
    account_id = 0;
    session_key = [];
    greet_code = [];
    iv = record { prefix = prefix; counter = 0 };
    version_major = 0;
    version_minor = 0;
    version_revision = 0;
    pass = [];
    rand_iv_prefix = 0;
  };
  close_after_send = false;
  handshake_timedout = false;
  handshake_start_time = 0;
  last_activity = 0;
  packets_processed = 0;
  posted = [];
}

-- The settings and the clock.
pub record Settings : Type 0 where
  pub client_version_major : ℕ
  pub client_version_minor : ℕ
  pub client_version_revision : ℕ
  pub connected_and_idle_timeout_ms : ℕ

abbrev close_session : AuthSession → AuthSession
close_session a = record a { socket = close_socket a.socket }

-- `Update` by the state of the connection: the result is false where the code returns -1.
update_in : UnderlyingState → Settings → ℕ → AuthSession → Option (AuthSession × Bool)
update_in critical_error settings now a = some (a, false)
update_in default_state settings now a =
    if a.socket.uses_tls
    then some (
      record a {
        socket = record a.socket { underlying_state = UnderlyingState.handshaking };
        handshake_start_time = now;
      },
      true,
    )
    else some (a, true)
update_in just_connected settings now a = elim (async_read a.socket) [
  | none ↦ none
  | some s ↦
      some
        (record a { socket = record s { underlying_state = connected }; last_activity = now }, true)
]
update_in connected settings now a = some (
    if ltb (a.last_activity + settings.connected_and_idle_timeout_ms) now
    then (close_session a, true)
    else (a, true))
update_in UnderlyingState.resolving settings now a = some (a, true)
update_in UnderlyingState.connecting settings now a = some (a, true)
update_in UnderlyingState.handshaking settings now a = some (a, true)

unfoldable pub update_session : Settings → ℕ → AuthSession → Option (AuthSession × Bool)
unfolding update_in
update_session settings now a = update_in a.socket.underlying_state settings now a

-- The end of the TLS handshake, in `Update`; the Boolean says whether it failed.
unfoldable pub handshaken : Bool → AuthSession → AuthSession
handshaken err a =
    if not err && not a.handshake_timedout
    then record a { socket = record a.socket { underlying_state = just_connected } }
    else close_session a

handshake_timeout_in : UnderlyingState → AuthSession → AuthSession
handshake_timeout_in UnderlyingState.handshaking a =
    close_session (record a { handshake_timedout = true })
handshake_timeout_in _ a = a

-- `HandshakeTimeoutHandler`; the Boolean says that the timer was cancelled.
unfoldable pub handshake_timeout_handler : Bool → AuthSession → AuthSession
unfolding handshake_timeout_in
handshake_timeout_handler err a =
    if err then a else handshake_timeout_in a.socket.underlying_state a

-- `AsyncWriteCallback`, at the time `now`.
unfoldable pub async_write_callback : ℕ → AuthSession → AuthSession
async_write_callback now a =
    let b = record a { last_activity = now } in
    if a.close_after_send && length a.socket.out_queue == 0 then close_session b else b
