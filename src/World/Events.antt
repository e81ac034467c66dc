-- ===== src/World/Events.antt =====
-- All that can happen to a session of the world server, in any order
-- (src/NECROWorld/Server/Sockets/WorldSession.cpp and Handlers/PlayerHandlers.cpp).
use necro_mmo.Common.{ℕ, ◌+◌, ◌^◌, ◌≤◌, ◌<◌, ◌≡◌, Bool, true, Option, some, List, ◌∷◌, ◌++◌, length}
use necro_mmo.Aes.{Gcm, EvpRun}
use necro_mmo.Message.{remaining_space}
use necro_mmo.Packet.{Packet}
use necro_mmo.Queue.{try_enqueue}
use necro_mmo.Sessions as Sessions
use necro_mmo.Entity.{Fpu}
use necro_mmo.Simulation.{Simulation, CharacterData, Movement}
use necro_mmo.Simulation.Invariant as Simulation
use necro_mmo.Simulation.Commands.{SpawnResult, try_to_spawn}
use necro_mmo.Socket.Sending.{front_size}
use necro_mmo.World.{
  WorldSession, Env, Request, CreateCharacter, DeleteCharacter, sessionkey_by_greetcode, sel_enum,
  create_checks, ins_character, delete_checks, delete_character, sel_by_charid, spawn_player,
  exit_world, rollback_spawn, move_player, make_session, post_close_socket, post_force_close_socket,
  close_session,
}
use necro_mmo.World.Updating.{update_session, internal_write_callback}
use necro_mmo.World.Reading.{ActiveSession, internal_read_callback, db_callback_greetcode_lookup}
use necro_mmo.World.Answers.{
  Character, Shared, db_callback_handle_enum_character, db_callback_handle_create_checks,
  db_callback_handle_create_final, db_callback_handle_delete_checks,
  db_callback_handle_delete_final,
}
use necro_mmo.World.Answers.Entry.{
  db_callback_handle_enter_world_checks, world_cmd_callback_on_enter_world,
  world_cmd_callback_on_exit_world,
}

-- The session without a request that has been answered.
abbrev pub without : WorldSession → List Request → List Request → WorldSession
without a xs ys = record a { posted = xs ++ ys }

-- The answers: to which request each one is, and what it makes of the session. The rows, and whether a
-- query or an exit failed, are whatever they are.
pub data Answers (gcm : Gcm) (a : WorldSession) : Request → WorldSession → Type 0 where
  looked_up :
      {b : WorldSession}
      → (code : List ℕ) (env : ℕ → Env) (time : ℕ) (err : Bool) (row : Option ActiveSession)
        (ok : Bool)
      → db_callback_greetcode_lookup gcm env time err row a ≡ some (b, ok)
      → Answers gcm a (sessionkey_by_greetcode code) b
  listed :
      {b : WorldSession}
      → (account : ℕ) (env : Env) (alive err : Bool) (rows : List Character) (shared after : Shared)
        (kicked : Option ℕ) (ok : Bool)
      → Sessions.IsValid shared.manager
      → db_callback_handle_enum_character gcm env alive err rows shared a
        ≡ some ((b, after, kicked), ok)
      → Answers gcm a (sel_enum account) b
  creation_checked :
      {b : WorldSession}
      → (account : ℕ) (ctx : CreateCharacter) (env : Env) (err : Bool) (characters same : ℕ)
        (ok : Bool)
      → db_callback_handle_create_checks gcm env err characters same ctx a ≡ some (b, ok)
      → Answers gcm a (create_checks account ctx) b
  created :
      {b : WorldSession}
      → (account : ℕ) (ctx : CreateCharacter) (env : Env) (err ok : Bool)
      → db_callback_handle_create_final gcm env err a ≡ some (b, ok)
      → Answers gcm a (ins_character account ctx) b
  deletion_checked :
      {b : WorldSession}
      → (account : ℕ) (ctx : DeleteCharacter) (env : Env) (err : Bool) (row : Option (List ℕ))
        (ok : Bool)
      → db_callback_handle_delete_checks gcm env err row ctx a ≡ some (b, ok)
      → Answers gcm a (delete_checks ctx account) b
  deleted :
      {b : WorldSession}
      → (account : ℕ) (ctx : DeleteCharacter) (env : Env) (err ok : Bool)
      → db_callback_handle_delete_final gcm env err a ≡ some (b, ok)
      → Answers gcm a (delete_character ctx account) b
  entry_checked :
      {b : WorldSession}
      → (id : ℕ) (env : Env) (err : Bool) (row : Option (ℕ × Character)) (ok : Bool)
      → db_callback_handle_enter_world_checks gcm env err row id a ≡ some (b, ok)
      → Answers gcm a (sel_by_charid id) b
  -- The simulation has run the spawn, on a valid state.
  entered :
      {b : WorldSession}
      → (c : CharacterData) (env : Env) (fpu : Fpu) (queue : List Packet) (s s' : Simulation)
        (r : SpawnResult) (ok : Bool)
      → Simulation.IsValid s
      → s.next_guid + 1 < 2 ^ 64
      → try_to_spawn fpu c queue s ≡ some (s', r)
      → world_cmd_callback_on_enter_world gcm env r a ≡ some (b, ok)
      → Answers gcm a (spawn_player c) b
  exited :
      {b : WorldSession}
      → (guid : ℕ) (env : Env) (success ok : Bool)
      → world_cmd_callback_on_exit_world gcm env success a ≡ some (b, ok)
      → Answers gcm a (exit_world guid true) b
  -- Nothing comes back.
  undone : {b : WorldSession} → (guid : ℕ) → b ≡ a → Answers gcm a (rollback_spawn guid) b
  moved :
      {b : WorldSession} → (guid : ℕ) (m : Movement) → b ≡ a → Answers gcm a (move_player guid m) b

-- The sessions that can come about.
pub data Reached (gcm : Gcm) : WorldSession → Type 0 where
  accepted : (prefix : ℕ) → Reached gcm (make_session prefix)
  turned :
      {a b : WorldSession}
      → (evp : ℕ → EvpRun) (timeout now : ℕ) (go : Bool) → Reached gcm a
      → update_session gcm evp timeout now a ≡ some (b, go)
      → Reached gcm b
  read :
      {a b : WorldSession}
      → (env : ℕ → Env) (bytes : List ℕ) → Reached gcm a
      → a.socket.reading ≡ true
      → length bytes ≤ remaining_space a.socket.in_buffer
      → internal_read_callback (some bytes) gcm env a ≡ some b
      → Reached gcm b
  wrote :
      {a b : WorldSession}
      → (n now : ℕ) → Reached gcm a
      → a.socket.async_writing ≡ true
      → n ≤ front_size a.socket.out_queue
      → internal_write_callback (some n) now a ≡ some b
      → Reached gcm b
  -- A read or a write fails.
  hung_up : {a : WorldSession} → Reached gcm a → Reached gcm (close_session a)
  close_posted : {a : WorldSession} → Reached gcm a → Reached gcm (post_close_socket a)
  force_close_posted : {a : WorldSession} → Reached gcm a → Reached gcm (post_force_close_socket a)
  -- The simulation has a packet for the client.
  queued :
      {a : WorldSession}
      → (p : Packet) → Reached gcm a
      → Reached gcm (record a { player_packet_queue = (try_enqueue p a.player_packet_queue).0 })
  answered :
      {a b : WorldSession}
      → (xs ys : List Request) (q : Request) → Reached gcm a
      → a.posted ≡ xs ++ q ∷ ys
      → Answers gcm (without a xs ys) q b
      → Reached gcm b
