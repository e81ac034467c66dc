-- ===== src/World.antt =====
-- `WorldSession` (src/NECROWorld/Server/Sockets/WorldSession.h, WorldSession.cpp and
-- Handlers/PlayerHandlers.cpp): a connection to the world server, on its network thread, with the
-- packets of src/shared/World/WorldCodes.h. What a session hands to the databases and to the
-- simulation stands in `posted` until it is answered. The packet queue that it shares with its
-- player's entity is a field.
pub mod Sending
pub mod Handlers
pub mod Reading
pub mod Answers
pub mod Updating
pub mod Rules
pub mod Served
pub mod Names
pub mod Requests
pub mod Rounds
pub mod Frames
pub mod Waiting
pub mod Loop
pub mod Received
pub mod Lookups
pub mod Replies
pub mod Entering
pub mod Leaving
pub mod Selection
pub mod Connection
pub mod Turns
pub mod Written
pub mod Events
pub mod Reached
pub mod Admission
pub mod Listing
use necro_mmo.Common.{
  ℕ, ◌+◌, ◌≤◌, ◌≡◌, Bool, true, false, not, ◌&&◌, ◌||◌, Option, none, some, List, [], ◌∷◌, ◌++◌,
  length, ◌==◌, if◌then◌else◌, leb, ltb,
}
use mathlib.Core.Option
use necro_mmo.Common.Int.{ℤ, pos, negsuc}
use necro_mmo.Aes.{Gcm, EvpRun, Iv}
use necro_mmo.Packet.{Packet, Field, write_fields, empty}
use necro_mmo.Message.{Message, make, of_moved}
use necro_mmo.Message.Crypt.{aes_encrypt}
use necro_mmo.Packet.{default_pckt_size}
use necro_mmo.Queue.{drain_queue}
use necro_mmo.Simulation.{CharacterData, Movement}
use necro_mmo.Socket.{
  Socket, UnderlyingState, default_state, just_connected, connected, critical_error, close_socket,
  force_close_socket, async_read, async_write, make_socket, queue_packet, is_open, written,
}

pub data WorldSocketStatus : Type 0 where
  gather_sessionkey gather_sessionkey_pending sessionkey_gathered selecting_characters authed
        entering_world in_world leaving_world closed :
      WorldSocketStatus

-- The numbers of the enumeration.
abbrev pub rank : WorldSocketStatus → ℕ
rank gather_sessionkey = 0
rank gather_sessionkey_pending = 1
rank sessionkey_gathered = 2
rank selecting_characters = 3
rank authed = 4
rank entering_world = 5
rank in_world = 6
rank leaving_world = 7
rank WorldSocketStatus.closed = 8

-- `CreateCharacterCtx`.
pub record CreateCharacter : Type 0 where
  pub name : List ℕ
  pub race : ℕ
  pub game_class : ℕ
  pub gender : ℕ

-- `DeleteCharacterCtx`.
pub record DeleteCharacter : Type 0 where
  pub name : List ℕ
  pub id : ℕ

-- What a session hands to the databases and to the simulation.
pub data Request : Type 0 where
  -- `SEL_SESSIONKEY_BY_GREETCODE` and `INVALIDATE_GREETCODE` of a greet code.
  sessionkey_by_greetcode : List ℕ → Request
  -- `CHAR_SEL_ENUM` of an account.
  sel_enum : ℕ → Request
  -- `CHAR_SEL_ENUM` of an account, and `CHAR_CHECK_NAME_ALREADY_IN_USE`.
  create_checks : ℕ → CreateCharacter → Request
  -- `CHAR_INS_CHARACTER` for an account, at the level 1, in the zone 1, at the position 0.
  ins_character : ℕ → CreateCharacter → Request
  -- `CHAR_CHECK_BELONGS_TO_ACCOUNTID`, with the account.
  delete_checks : DeleteCharacter → ℕ → Request
  -- `CHAR_DELETE_CHARACTER`, with the account.
  delete_character : DeleteCharacter → ℕ → Request
  -- `CHAR_SEL_BY_CHARID` of a character.
  sel_by_charid : ℕ → Request
  -- The commands for the simulation; the Boolean says whether the result is posted back.
  spawn_player : CharacterData → Request
  exit_world : ℕ → Bool → Request
  rollback_spawn : ℕ → Request
  move_player : ℕ → Movement → Request

pub record WorldSessionData : Type 0 where
  pub account_id : ℕ
  pub greet_code : List ℕ
  pub session_key : List ℕ
  pub iv : Iv
  pub clients_iv_prefix : ℕ

pub record WorldSession : Type 0 where
  pub socket : Socket
  pub current_decrypted_packet : Message
  pub status : WorldSocketStatus
  pub data' : WorldSessionData
  pub close_after_send : Bool
  pub last_activity : ℕ
  pub client_prefix_known : Bool
  pub expected_counter_for_next_packet : ℕ
  pub serial : ℕ
  pub has_registered : Bool
  pub player_guid : ℕ
  pub player_packet_queue : List Packet
  pub posted : List Request

-- A session that has just been accepted, without TLS; the nonce's prefix is random.
unfoldable pub make_session : ℕ → WorldSession
make_session prefix = record {
  socket = make_socket false;
  current_decrypted_packet = make default_pckt_size;
  status = gather_sessionkey;
  data' = record {
    account_id = 0;
    greet_code = [];
    session_key = [];
    iv = record { prefix = prefix; counter = 0 };
    clients_iv_prefix = 0;
  };
  close_after_send = false;
  last_activity = 0;
  client_prefix_known = false;
  expected_counter_for_next_packet = 0;
  serial = 0;
  has_registered = false;
  player_guid = 0;
  player_packet_queue = [];
  posted = [];
}

-- What one step of a session gets from elsewhere: how OpenSSL's calls turn out, the clock, whether
-- the characters' database has room for a request, and what `RAND_bytes` draws until it fails.
pub record Env : Type 0 where
  pub evp : EvpRun
  pub now : ℕ
  pub has_room : Bool
  pub prefixes : List ℕ

abbrev pub close_session : WorldSession → WorldSession
close_session a = record a { socket = close_socket a.socket }

abbrev pub post : Request → WorldSession → WorldSession
post r a = record a { posted = a.posted ++ r ∷ [] }

-- `PostCloseSocket` and `PostForceCloseSocket`, when they run.
unfoldable pub post_close_socket : WorldSession → WorldSession
post_close_socket a = if not (is_open a.socket) then a else close_session a

unfoldable pub post_force_close_socket : WorldSession → WorldSession
post_force_close_socket a =
    if not (is_open a.socket) then a else record a { socket = force_close_socket a.socket }

-- After `AESEncrypt`: the message is queued, or the connection is dropped.
unfoldable pub sent_as : Message × Iv × ℤ → WorldSession → WorldSession × Bool
sent_as (m, iv, pos n) a =
    (record a { data' = record a.data' { iv = iv }; socket = queue_packet m a.socket }, true)
sent_as (m, iv, negsuc n) a =
    (record a { data' = record a.data' { iv = iv }; socket = close_socket a.socket }, false)

-- A packet is encrypted and queued, as each reply is.
unfoldable pub send_packet : Gcm → EvpRun → Packet → WorldSession → Option (WorldSession × Bool)
unfolding sent_as
send_packet gcm evp p a =
    Option.map (λ r. sent_as r a)
      (aes_encrypt gcm evp a.data'.session_key a.data'.iv [] (of_moved p))

unfoldable pub send_reply : Gcm → EvpRun → List Field → WorldSession → Option (WorldSession × Bool)
send_reply gcm evp fields a = elim (write_fields fields empty) [
  | none ↦ none
  | some p ↦ send_packet gcm evp p a
]

-- The loop of `ProcessPlayerPacketsQueue`, which ends at the first failure. The calls of OpenSSL for
-- the packet of the index `i` turn out as `evp i`.
unfoldable pub send_all : Gcm → (ℕ → EvpRun) → ℕ → List Packet → WorldSession → Option WorldSession
send_all gcm evp i [] a = some a
send_all gcm evp i (p ∷ ps) a = elim (send_packet gcm (evp i) p a) [
  | none ↦ none
  | some (b, false) ↦ some b
  | some (b, true) ↦ send_all gcm evp (i + 1) ps b
]
