-- ===== src/Tests/Realm.antt =====
-- A client of the world server, from its connection to a player in the world: the account 42 with the
-- character 7.
use necro_mmo.Common.{
  ℕ, refl, Bool, true, false, Option, none, some, List, [], ◌∷◌, ◌++◌, replicate,
}
use necro_mmo.Aes.{all_succeed}
use necro_mmo.Message.{Message}
use necro_mmo.Socket as Socket
use necro_mmo.Socket.{make_socket, received, queue_packet, async_write, async_read, is_open}
use necro_mmo.Sessions as Sessions
use necro_mmo.Sessions.{register_session}
use necro_mmo.Simulation.Commands.{SpawnResult}
use necro_mmo.World.{
  WorldSession, WorldSocketStatus, Request, authed, entering_world, Env, make_session,
  sel_by_charid, spawn_player,
}
use necro_mmo.World.Updating.{update_session}
use necro_mmo.World.Reading.{internal_read_callback, db_callback_greetcode_lookup, ActiveSession}
use necro_mmo.World.Answers.{Character, Shared}
use necro_mmo.World.Answers.Entry.{world_cmd_callback_on_enter_world, entering_data}
use necro_mmo.World.Events.{without}
use necro_mmo.Tests.Fixtures.{padding}

abbrev pub env : Env
env = record { evp = all_succeed; now = 200; has_room = true; prefixes = 5 ∷ [] }

abbrev pub result : Option WorldSession → WorldSession
result none = make_session 0
result (some a) = a

abbrev pub session_of : Option (WorldSession × Bool) → WorldSession
session_of none = make_session 0
session_of (some (a, _)) = a

abbrev pub connected : WorldSession
connected = session_of (update_session padding (λ _. all_succeed) 1000 100 (make_session 3))

abbrev pub pending : WorldSession
pending = result (internal_read_callback (some (replicate 16 1)) padding (λ _. env) connected)

abbrev pub key : List ℕ
key = replicate 16 2

abbrev pub row : ActiveSession
row = record { account_id = 42; session_key = key; start_time = 100 }

abbrev pub keyed : WorldSession
keyed =
    session_of
      (db_callback_greetcode_lookup padding (λ _. env) 110 false (some row) (without pending [] []))

-- The client's prefix is 9.
abbrev pub greeting : List ℕ
greeting = 0 ∷ 0 ∷ 0 ∷ 34 ∷ 9 ∷ replicate 27 0 ++ 0 ∷ 0 ∷ 9 ∷ 0 ∷ 0 ∷ 0 ∷ []

abbrev pub selecting : WorldSession
selecting = result (internal_read_callback (some greeting) padding (λ _. env) keyed)

abbrev pub hero : Character
hero = record {
  id = 7;
  name = 66 ∷ 111 ∷ [];
  race = 1;
  game_class = 2;
  gender = 0;
  level = 1;
  xp = 0;
  zone = 1;
  pos_x = 40;
  pos_y = 50;
  pos_z = 0;
}

abbrev pub shared : Shared
shared = record {
  manager = record { sessions = (4, 100) ∷ []; player_count = 1 };
  next_serial = 101;
}

pub shared-IsValid : Sessions.IsValid shared.manager
shared-IsValid = record { distinct = (refl, tt); counted = refl }

abbrev pub selection_of :
    Option ((WorldSession × Shared × Option ℕ) × Bool) → WorldSession × Shared × Option ℕ
selection_of none = (make_session 0, shared, none)
selection_of (some (r, _)) = r

-- The reply: the list with one character.
abbrev pub list_text : List ℕ
list_text =
    1 ∷ 0 ∷ 1 ∷ 1 ∷ 7 ∷ 0 ∷ 0 ∷ 0 ∷ 2 ∷ 66 ∷ 111 ∷ 1 ∷ 2 ∷ 0 ∷ 1 ∷ replicate 4 0
    ++ 1 ∷ 0 ∷ 0 ∷ 0 ∷ 40 ∷ 0 ∷ 0 ∷ 0 ∷ 50 ∷ replicate 7 0

abbrev listing : Message
listing = record {
  rpos = 0;
  wpos = 67;
  bytes = 0 ∷ 0 ∷ 0 ∷ 63 ∷ 5 ∷ replicate 27 0 ++ list_text ++ replicate 38 0;
  cipher_bytes = list_text;
  tag = replicate 16 0;
}

-- The session from then on: the last frame and its text, the status, the counter and the requests.
abbrev pub stage : List ℕ → List ℕ → WorldSocketStatus → ℕ → List Request → WorldSession
stage frame text status counter posted = record {
  socket = record {
    uses_tls = false;
    underlying_state = Socket.connected;
    in_buffer = record {
      rpos = 0;
      wpos = 0;
      bytes = frame ++ replicate 4058 0;
      cipher_bytes = text;
      tag = [];
    };
    out_queue = listing ∷ [];
    async_writing = true;
    closed = false;
    closing = false;
    reading = true;
    shutting_down = false;
  };
  current_decrypted_packet = record {
    rpos = 0;
    wpos = 0;
    bytes = text ++ replicate 4090 0;
    cipher_bytes = [];
    tag = [];
  };
  status = status;
  data' = record {
    account_id = 42;
    greet_code = replicate 16 1;
    session_key = key;
    iv = record { prefix = 5; counter = 1 };
    clients_iv_prefix = 9;
  };
  close_after_send = false;
  last_activity = 200;
  client_prefix_known = true;
  expected_counter_for_next_packet = counter;
  serial = 101;
  has_registered = true;
  player_guid = 0;
  player_packet_queue = [];
  posted = posted;
}

abbrev pub authenticated : WorldSession
authenticated = stage greeting (0 ∷ 0 ∷ 9 ∷ 0 ∷ 0 ∷ 0 ∷ []) authed 1 []

-- The character enters the world.
abbrev pub entry : List ℕ
entry = 0 ∷ 0 ∷ 0 ∷ 34 ∷ 9 ∷ 0 ∷ 0 ∷ 0 ∷ 1 ∷ replicate 23 0 ++ 4 ∷ 0 ∷ 7 ∷ 0 ∷ 0 ∷ 0 ∷ []

abbrev pub entry_text : List ℕ
entry_text = 4 ∷ 0 ∷ 7 ∷ 0 ∷ 0 ∷ 0 ∷ []

abbrev pub entering : WorldSession
entering = stage entry entry_text entering_world 2 (sel_by_charid 7 ∷ [])

abbrev pub spawning : WorldSession
spawning = stage entry entry_text entering_world 2 (spawn_player (entering_data 7 hero) ∷ [])

abbrev pub arrival : SpawnResult
arrival = record { success = true; guid = 1; zone_id = 1; pos_x = 40; pos_y = 50; pos_z = 0 }

abbrev pub inside : WorldSession
inside = session_of (world_cmd_callback_on_enter_world padding env arrival (without spawning [] []))
