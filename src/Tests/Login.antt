-- ===== src/Tests/Login.antt =====
-- The theorems on connections and on the login server, with a client of the version 1.2.3.
use necro_mmo.Common.{
  ℕ, ◌+◌, ◌*◌, ◌%◌, ◌^◌, ap, ◌≤◌, ◌≡◌, ◌≢◌, refl, Bool, true, false, none, some, List, [], ◌∷◌,
  ◌++◌, replicate, take, if◌then◌else◌, arith, Option, length, sym,
}
use necro_mmo.Message as Message
use necro_mmo.Message.{active}
use necro_mmo.Packet.Content.{encode_all}
use necro_mmo.Socket.{
  Socket, make_socket, async_write, queue_packet, internal_write_callback, is_open,
}
use necro_mmo.Socket.Sending.{
  Flows, unsent, front_size, queue_packet-Flows, internal_write_callback-Flows,
}
use necro_mmo.Auth.{AuthSession, make_session, new_session, authed}
use necro_mmo.Auth.Handlers.{Env, Realm, realm_fields}
use necro_mmo.Auth.Served.Listing.{realm_fields-length}
use necro_mmo.Auth.Reading.{async_read_callback}
use necro_mmo.Auth.Loop.{IsValid, Runs}
use necro_mmo.Auth.Session.{async_read_callback-Runs}
use necro_mmo.Auth.Closing.{ClosesOnceSent}
use necro_mmo.Auth.Results.{
  Draws, draw_prefix, handle_password_hash_result, wrong_password_lem, right_password_lem,
  keys_bytes,
}

abbrev text : Message.Message
text = record { rpos = 0; wpos = 3; bytes = 1 ∷ 2 ∷ 3 ∷ []; cipher_bytes = []; tag = [] }

text-IsValid : Message.IsValid text
text-IsValid = record { read_first = omega arith; inside = omega arith }

abbrev idle : Socket
idle = make_socket true

idle-Flows : Flows idle
unfolding make_socket
idle-Flows = record { idle = λ _. refl; busy = λ e. cc; valid = tt }

abbrev busy : Socket
busy = queue_packet text idle

part : 2 ≤ front_size busy.out_queue
unfolding queue_packet async_write make_socket
part = omega arith

internal_write_callback-Flows_example :
    (t : Socket) × (internal_write_callback (some 2) (λ s. s) busy ≡ some t)
    × Flows t
    × (unsent busy.out_queue ≡ take 2 (unsent busy.out_queue) ++ unsent t.out_queue)
internal_write_callback-Flows_example =
    internal_write_callback-Flows (λ s. s) (λ s. refl) (λ s. refl) 2 busy
      (queue_packet-Flows text idle idle-Flows text-IsValid).0
      (queue_packet-Flows text idle idle-Flows text-IsValid).2 part

abbrev env : Env
env = record {
  settings = record {
    client_version_major = 1;
    client_version_minor = 2;
    client_version_revision = 3;
    connected_and_idle_timeout_ms = 10000;
  };
  now = 50;
  sha256 = λ text. some (replicate 32 0);
  random_bytes = some (replicate 16 9);
  has_room = true;
  realms = [];
  parse_ip = λ ip. none;
}

-- The version and the name `Bo` have arrived, and the first byte of what follows.
abbrev hello : List ℕ
hello = 0 ∷ 0 ∷ 6 ∷ 0 ∷ 1 ∷ 2 ∷ 3 ∷ 2 ∷ 66 ∷ 111 ∷ 1 ∷ []

abbrev greeted : AuthSession
greeted = record (make_session 3) {
  socket = record idle {
    in_buffer = record { rpos = 0; wpos = 11; bytes = hello; cipher_bytes = []; tag = [] };
  };
}

greeted-IsValid : IsValid greeted
unfolding make_session make_socket
greeted-IsValid = record {
  sound = record {
    flows = record { idle = λ _. refl; busy = λ e. cc; valid = tt };
    bits = omega arith;
    named = λ h. absurd (omega arith);
  };
  buffer = record { read_first = omega arith; inside = omega arith };
  few = omega arith;
}

async_read_callback-Runs_example :
    (b : AuthSession) × (go : Bool) × (async_read_callback env greeted ≡ some (b, go))
    × Runs env.sha256 greeted b
    × (go ≡ true → IsValid b)
async_read_callback-Runs_example = async_read_callback-Runs env greeted greeted-IsValid

abbrev draws : Draws
draws = record { prefixes = 0 ∷ 8 ∷ []; session_key = replicate 16 2; greet_code = replicate 16 3 }

wrong_password_lem_example :
    (b : AuthSession) × (handle_password_hash_result false false draws true greeted
      ≡ some (b, true))
    × (b.status ≡ greeted.status)
    × (b.data'.pass ≡ [])
    × (unsent b.socket.out_queue ≡ unsent greeted.socket.out_queue ++ 1 ∷ 1 ∷ 0 ∷ 0 ∷ [])
    × ClosesOnceSent b
wrong_password_lem_example = wrong_password_lem false true draws greeted greeted-IsValid.sound.flows

drawn : draw_prefix greeted.data'.rand_iv_prefix draws.prefixes ≡ some 8
unfolding make_session draw_prefix
drawn = refl

right_password_lem_example :
    (b : AuthSession) × (handle_password_hash_result true false draws true greeted ≡ some (b, true))
    × (b.status ≡ authed)
    × (b.data'.pass ≡ [])
    × (b.data'.iv.prefix ≡ 8)
    × (b.data'.iv.counter ≡ 0)
    × (8 ≢ b.data'.rand_iv_prefix)
    × (b.posted ≡ (
        if true
        then greeted.posted
          ++ new_session greeted.data'.account_id draws.session_key draws.greet_code ∷ []
        else greeted.posted))
    × (if true
        then unsent b.socket.out_queue
          ≡ unsent greeted.socket.out_queue ++ keys_bytes draws.session_key draws.greet_code
        else (is_open b.socket ≡ false) × (b.socket.out_queue ≡ greeted.socket.out_queue))
right_password_lem_example =
    right_password_lem false true draws 8 greeted greeted-IsValid.sound.flows drawn

abbrev realm : Realm
realm = record { id = 1; status = 1; ip = 49 ∷ []; port = 61532; name = 78 ∷ 49 ∷ [] }

-- Every address is taken for the local one.
abbrev local : List ℕ → Option (List ℕ)
local ip = some (127 ∷ 0 ∷ 0 ∷ 1 ∷ [])

local_four : (ip address : List ℕ) → local ip ≡ some address → length address ≡ 4
local_four ip address e = let same : 127 ∷ 0 ∷ 0 ∷ 1 ∷ [] ≡ address = cc in ap length (sym same)

realm_fields-length_example :
    let (fields, total) = realm_fields local (replicate 40 realm) 0 in
    (total ≤ 33)
    × (length (encode_all fields) ≤ 44 * total)
    × ((4 + length (encode_all fields)) % 2 ^ 16 ≡ 4 + length (encode_all fields))
realm_fields-length_example = realm_fields-length local local_four (replicate 40 realm)

forty : (realm_fields local (replicate 40 realm) 0).1 ≡ 33
unfolding realm_fields
forty = refl
