-- ===== src/World/Answers/Entry.antt =====
-- How a session's player comes into the world and leaves it
-- (src/NECROWorld/Server/Sockets/Handlers/PlayerHandlers.cpp, and the destructor of WorldSession.cpp).
use necro_mmo.Common.{
  ℕ, ◌%◌, Bool, true, false, not, Option, none, some, List, [], ◌∷◌, ◌++◌, ◌==◌, if◌then◌else◌,
}
use necro_mmo.Aes.{Gcm}
use necro_mmo.Packet.{Field, u8, u16, u32, u64, float_field}
use necro_mmo.Queue as Queue
use necro_mmo.Sessions.{unregister_session}
use necro_mmo.Simulation.{CharacterData}
use necro_mmo.Simulation.Commands.{SpawnResult}
use necro_mmo.Socket.{is_open}
use necro_mmo.World.{
  WorldSession, Env, authed, in_world, post, send_reply, Request, spawn_player, rollback_spawn,
}
use necro_mmo.World.Handlers.{do_exit_world}
use necro_mmo.World.Answers.{Character, Shared, answered}

-- A refusal to enter, after which the client is not dropped.
abbrev pub refuse_entry : Gcm → Env → ℕ → WorldSession → Option (WorldSession × Bool)
refuse_entry gcm env reason b = elim (send_reply gcm env.evp (u16 4 ∷ u8 reason ∷ []) b) [
  | none ↦ none
  | some (c, false) ↦ some (c, false)
  | some (c, true) ↦ some (record c { status = authed }, true)
]

-- The data of a character that enters the world.
abbrev pub entering_data : ℕ → Character → CharacterData
entering_data id c = record {
  id = id;
  level = c.level % 256;
  xp = c.xp;
  zone = c.zone;
  pos_x = c.pos_x;
  pos_y = c.pos_y;
  pos_z = c.pos_z;
}

-- The check of an entry, with the account and the character of the row, if there is one.
abbrev pub check_entry :
    Gcm → Env → Option (ℕ × Character) → ℕ → WorldSession → Option (WorldSession × Bool)
check_entry gcm env none id b = refuse_entry gcm env 6 b
check_entry gcm env (some (account, c)) id b =
    if account == b.data'.account_id
    then some (
      post (spawn_player (entering_data id c))
          (record b { player_packet_queue = Queue.clear b.player_packet_queue }),
      true,
    )
    else refuse_entry gcm env 7 b

-- `DBCallback_HandleEnterWorldChecks`.
unfoldable pub db_callback_handle_enter_world_checks :
    Gcm → Env → Bool → Option (ℕ × Character) → ℕ → WorldSession → Option (WorldSession × Bool)
db_callback_handle_enter_world_checks gcm env err row id a =
    answered err env a (check_entry gcm env row id)

-- `PostSpawnRollback`.
unfoldable pub post_spawn_rollback : SpawnResult → List Request → List Request
post_spawn_rollback r posted =
    if not r.success then posted else posted ++ rollback_spawn r.guid ∷ []

abbrev pub entered_fields : SpawnResult → List Field
entered_fields r =
    if r.success
    then u16 4
      ∷ u8 1
      ∷ u64 r.guid
      ∷ u32 r.zone_id
      ∷ float_field r.pos_x
      ∷ float_field r.pos_y
      ∷ float_field r.pos_z
      ∷ []
    else u16 4 ∷ u8 0 ∷ []

-- `WorldCmdCallback_OnEnterWorld`.
unfoldable pub world_cmd_callback_on_enter_world :
    Gcm → Env → SpawnResult → WorldSession → Option (WorldSession × Bool)
unfolding post_spawn_rollback
world_cmd_callback_on_enter_world gcm env r a =
    let b = record a { last_activity = env.now } in
    if not (is_open a.socket)
    then some (record a { posted = post_spawn_rollback r a.posted }, false)
    else send_reply gcm env.evp (entered_fields r) (
        if r.success
        then record b { player_guid = r.guid; status = in_world }
        else record b { status = authed })

-- `WorldCmdCallback_OnExitWorld`; the Boolean is the result's `success`.
unfoldable pub world_cmd_callback_on_exit_world :
    Gcm → Env → Bool → WorldSession → Option (WorldSession × Bool)
world_cmd_callback_on_exit_world gcm env success a =
    if not (is_open a.socket)
    then some (a, false)
    else elim (send_reply gcm env.evp (u16 5 ∷ u8 (if success then 1 else 0) ∷ [])
        (record a { last_activity = env.now; player_guid = 0 })) [
          | none ↦ none
          | some (b, false) ↦ some (b, false)
          | some (b, true) ↦ some (record b { status = authed }, true)
        ]

-- The destructor: the manager's slot is given up, and the player leaves the world.
unfoldable pub destroy : Shared → WorldSession → Shared × WorldSession
destroy shared a = (
  (if a.has_registered
      then record shared {
        manager = (unregister_session a.data'.account_id a.serial shared.manager).0;
      }
      else shared),
  (do_exit_world false a).0,
)
