-- ===== src/World/Answers.antt =====
-- The answers of the characters' database and of the simulation to a session
-- (src/NECROWorld/Server/Sockets/WorldSession.cpp and Handlers/PlayerHandlers.cpp).
pub mod Entry
use necro_mmo.Common.{
  ℕ, ◌+◌, ◌%◌, ◌^◌, Bool, true, false, not, Option, none, some, List, [], ◌∷◌, ◌++◌, length, ◌==◌,
  if◌then◌else◌, leb,
}
use necro_mmo.Aes.{Gcm}
use necro_mmo.Packet.{Field, u8, u16, u32, u64, float_field, string_field}
use necro_mmo.Queue as Queue
use necro_mmo.Sessions.{SessionManager, register_session, unregister_session}
use necro_mmo.Simulation.{CharacterData}
use necro_mmo.Simulation.Commands.{SpawnResult}
use necro_mmo.Socket.{is_open}
use necro_mmo.World.{
  WorldSession, Env, authed, selecting_characters, in_world, rank, post, close_session, send_reply,
  Request, CreateCharacter, DeleteCharacter, ins_character, delete_character, spawn_player,
  rollback_spawn,
}
use necro_mmo.World.Handlers.{do_exit_world}

-- A row of the characters.
pub record Character : Type 0 where
  pub id : ℕ
  pub name : List ℕ
  pub race : ℕ
  pub game_class : ℕ
  pub gender : ℕ
  pub level : ℕ
  pub xp : ℕ
  pub zone : ℕ
  pub pos_x : ℕ
  pub pos_y : ℕ
  pub pos_z : ℕ

-- What the sessions share: their manager, and the next serial.
pub record Shared : Type 0 where
  pub manager : SessionManager
  pub next_serial : ℕ

abbrev pub character_fields : Character → List Field
character_fields c =
    u32 c.id
    ∷ u8 (length c.name)
    ∷ string_field c.name
    ∷ u8 c.race
    ∷ u8 c.game_class
    ∷ u8 c.gender
    ∷ u8 c.level
    ∷ u32 c.xp
    ∷ u32 c.zone
    ∷ float_field c.pos_x
    ∷ float_field c.pos_y
    ∷ float_field c.pos_z
    ∷ []

abbrev pub all_character_fields : List Character → List Field
all_character_fields [] = []
all_character_fields (c ∷ cs) = character_fields c ++ all_character_fields cs

unfoldable pub enum_fields : List Character → List Field
enum_fields [] = u16 1 ∷ u8 2 ∷ []
enum_fields (c ∷ cs) = u16 1 ∷ u8 1 ∷ u8 (length (c ∷ cs)) ∷ all_character_fields (c ∷ cs)

-- After the first list of characters the session is authenticated, and registered.
unfoldable pub enter_selection : Bool → Shared → WorldSession → WorldSession × Shared × Option ℕ
enter_selection alive shared a =
    if rank a.status == rank selecting_characters
    then (let (manager, kicked, _) =
          register_session a.data'.account_id (some shared.next_serial) alive shared.manager in
        (
          record a { status = authed; serial = shared.next_serial; has_registered = true },
          record { manager = manager; next_serial = (shared.next_serial + 1) % 2 ^ 64 },
          kicked,
        ))
    else (a, shared, none)

-- `DBCallback_HandleSPacketEnumCharacter`: the session, what is shared, the serial of the session that
-- is kicked, if one is, and the result. `alive` is that of `register_session`.
unfoldable pub db_callback_handle_enum_character :
    Gcm
    → Env
    → Bool
    → Bool
    → List Character
    → Shared
    → WorldSession
    → Option ((WorldSession × Shared × Option ℕ) × Bool)
unfolding enter_selection
db_callback_handle_enum_character gcm env alive err rows shared a =
    if not (is_open a.socket)
    then some ((a, shared, none), false)
    else if err
    then some ((close_session a, shared, none), false)
    else elim (send_reply gcm env.evp (enum_fields rows) (record a { last_activity = env.now })) [
      | none ↦ none
      | some (b, false) ↦ some ((b, shared, none), false)
      | some (b, true) ↦ some (enter_selection alive shared b, true)
    ]

-- What the callbacks do first: a closed connection ignores the answer, a failed query closes it.
abbrev pub answered :
    Bool
    → Env
    → WorldSession
    → (WorldSession → Option (WorldSession × Bool))
    → Option (WorldSession × Bool)
answered err env a next =
    if not (is_open a.socket)
    then some (a, false)
    else if err
    then some (close_session a, false)
    else next (record a { last_activity = env.now })

-- A request for the database; without room the connection is closed.
abbrev pub ask : Env → Request → WorldSession → WorldSession × Bool
ask env r a = if not env.has_room then (close_session a, false) else (post r a, true)

-- The checks of a new character: how many characters the account has, and how many have the name.
abbrev pub check_creation :
    Gcm → Env → ℕ → ℕ → CreateCharacter → WorldSession → Option (WorldSession × Bool)
check_creation gcm env characters same_name ctx b =
    if leb 10 characters
    then send_reply gcm env.evp (u16 2 ∷ u8 3 ∷ []) b
    else if not (same_name == 0)
    then send_reply gcm env.evp (u16 2 ∷ u8 4 ∷ []) b
    else some (ask env (ins_character b.data'.account_id ctx) b)

-- `DBCallback_HandleCreateNewCharChecks`.
unfoldable pub db_callback_handle_create_checks :
    Gcm → Env → Bool → ℕ → ℕ → CreateCharacter → WorldSession → Option (WorldSession × Bool)
db_callback_handle_create_checks gcm env err characters same_name ctx a =
    answered err env a (check_creation gcm env characters same_name ctx)

-- `DBCallback_HandleCreateNewCharFinal`.
unfoldable pub db_callback_handle_create_final :
    Gcm → Env → Bool → WorldSession → Option (WorldSession × Bool)
db_callback_handle_create_final gcm env err a =
    answered err env a λ b. send_reply gcm env.evp (u16 2 ∷ u8 5 ∷ []) b

abbrev pub same_name : List ℕ → List ℕ → Bool
same_name [] [] = true
same_name (x ∷ xs) (y ∷ ys) = if x == y then same_name xs ys else false
same_name _ _ = false

abbrev pub refuse_deletion : Gcm → Env → WorldSession → Option (WorldSession × Bool)
refuse_deletion gcm env b = send_reply gcm env.evp (u16 3 ∷ u8 0 ∷ []) b

-- The check of a deletion, with the name of the character where it is the account's.
abbrev pub check_deletion :
    Gcm → Env → Option (List ℕ) → DeleteCharacter → WorldSession → Option (WorldSession × Bool)
check_deletion gcm env none ctx b = refuse_deletion gcm env b
check_deletion gcm env (some name) ctx b =
    if same_name ctx.name name
    then some
        (ask env (delete_character (record { name = name; id = ctx.id }) b.data'.account_id) b)
    else refuse_deletion gcm env b

-- `DBCallback_HandleDeleteCharacterChecks`.
unfoldable pub db_callback_handle_delete_checks :
    Gcm
    → Env
    → Bool
    → Option (List ℕ)
    → DeleteCharacter
    → WorldSession
    → Option (WorldSession × Bool)
db_callback_handle_delete_checks gcm env err row ctx a =
    answered err env a (check_deletion gcm env row ctx)

-- `DBCallback_HandleDeleteCharacterFinal`.
unfoldable pub db_callback_handle_delete_final :
    Gcm → Env → Bool → WorldSession → Option (WorldSession × Bool)
db_callback_handle_delete_final gcm env err a =
    answered err env a λ b. send_reply gcm env.evp (u16 3 ∷ u8 1 ∷ []) b
