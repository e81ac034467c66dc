-- ===== src/World/Handlers.antt =====
-- The handlers of the world server's packets
-- (src/NECROWorld/Server/Sockets/WorldSession.cpp and Handlers/PlayerHandlers.cpp). A handler gives
-- the session and the Boolean that it returns, or `none` where it would read beyond the packet.
use mathlib.Core.Option
use necro_mmo.Common.{
  ℕ, ◌+◌, ◌-◌, Bool, true, false, not, ◌||◌, Option, none, some, List, [], ◌∷◌, ◌==◌, if◌then◌else◌,
  ltb, ◌&&◌,
}
use necro_mmo.Common.Bytes.{read_at}
use necro_mmo.Message.{Message, active, active_size}
use necro_mmo.Socket.{is_open}
use necro_mmo.Simulation.{Movement}
use necro_mmo.Auth.Handlers.{slice_at, all_alnum}
use necro_mmo.World.{
  WorldSession, Env, authed, selecting_characters, entering_world, leaving_world, rank, post,
  close_session, sel_enum, create_checks, delete_checks, sel_by_charid, exit_world, move_player,
}

abbrev pub character_max_name_length : ℕ
character_max_name_length = 12

-- The draws of the server's prefix, from the one that it has: another one while it is the client's.
-- The Boolean says that `RAND_bytes` has not failed, which throws.
unfoldable pub pick_prefix : ℕ → List ℕ → ℕ → ℕ × Bool
pick_prefix client [] last = (last, false)
pick_prefix client (p ∷ ps) last =
    let later = pick_prefix client ps p in if p == client then later else (p, true)

-- `Handle_SPacketEnumCharacter`, which the greeting calls too.
unfoldable pub handle_enum_character : Env → WorldSession → WorldSession × Bool
handle_enum_character env a =
    let size = active_size a.current_decrypted_packet in
    let b = record a { last_activity = env.now } in
    if not (size == 2) && not (size == 6)
    then (a, false)
    else if not env.has_room
    then (b, false)
    else (post (sel_enum a.data'.account_id) b, true)

-- With the client's prefix, and the server's that has been picked.
unfoldable pub greeted : Env → ℕ → ℕ × Bool → WorldSession → WorldSession × Bool
unfolding handle_enum_character
greeted env client (prefix, false) a = (
  record a {
    client_prefix_known = true;
    data' = record a.data' {
      clients_iv_prefix = client;
      iv = record a.data'.iv { prefix = prefix };
    };
  },
  false,
)
greeted env client (prefix, true) a = handle_enum_character env (record a {
  client_prefix_known = true;
  data' = record a.data' {
    clients_iv_prefix = client;
    iv = record { prefix = prefix; counter = 0 };
  };
  last_activity = env.now;
  status = selecting_characters;
})

-- `HandleGreetPacket`.
unfoldable pub handle_greet_packet : Env → WorldSession → Option (WorldSession × Bool)
unfolding greeted
handle_greet_packet env a =
    let bytes = active a.current_decrypted_packet in
    if not (active_size a.current_decrypted_packet == 6)
    then some (a, false)
    else Option.map
        (λ client. greeted env client (pick_prefix client env.prefixes a.data'.iv.prefix) a)
        (read_at 4 2 bytes)

-- The checks of a packet with a name at its end, after `fixed` bytes: its sizes, the declared one and
-- the name's. The outer `none` is a read beyond the packet, the inner one a refusal.
unfoldable pub read_name : ℕ → Message → Option (Option (List ℕ))
unfolding Option.bind
read_name fixed m =
    let size = active_size m in
    let bytes = active m in
    if ltb size fixed
    then some none
    else if ltb (fixed + character_max_name_length) size
    then some none
    else Option.bind (read_at 2 2 bytes) λ declared.
      if ltb declared (fixed - 4)
      then some none
      else if ltb (fixed - 4 + character_max_name_length) declared
      then some none
      else Option.bind (read_at 1 (fixed - 1) bytes) λ name_length.
        if not (size == fixed + name_length) || not (size == declared + 4)
        then some none
        else if name_length == 0 || ltb character_max_name_length name_length
        then some none
        else Option.map (λ name. if not (all_alnum name) then none else some name)
            (slice_at name_length fixed bytes)

-- `Handle_SPacketCreateNewChar`.
unfoldable pub handle_create_new_char : Env → WorldSession → Option (WorldSession × Bool)
unfolding Option.bind
handle_create_new_char env a =
    let m = a.current_decrypted_packet in
    let b = record a { last_activity = env.now } in
    elim (read_name 8 m) [
      | none ↦ none
      | some none ↦ some (b, false)
      | some (some name) ↦ Option.bind (read_at 1 4 (active m)) λ race.
          Option.bind (read_at 1 5 (active m)) λ game_class.
            Option.bind (read_at 1 6 (active m)) λ gender. some (
              if not env.has_room then (b, false) else (
                post
                    (create_checks a.data'.account_id (record {
                      name = name;
                      race = race;
                      game_class = game_class;
                      gender = gender;
                    }))
                    b,
                true,
              ))
    ]

-- `Handle_SPacketDeleteCharacter`.
unfoldable pub handle_delete_character : Env → WorldSession → Option (WorldSession × Bool)
handle_delete_character env a =
    let m = a.current_decrypted_packet in
    let b = record a { last_activity = env.now } in
    elim (read_name 9 m) [
      | none ↦ none
      | some none ↦ some (b, false)
      | some (some name) ↦
          Option.map
            (λ id. if not env.has_room then (b, false) else (
              post (delete_checks (record { name = name; id = id }) a.data'.account_id) b,
              true,
            ))
            (read_at 4 4 (active m))
    ]

-- `Handle_SPacketEnterWorld`.
unfoldable pub handle_enter_world : Env → WorldSession → Option (WorldSession × Bool)
handle_enter_world env a =
    let m = a.current_decrypted_packet in
    let b = record a { last_activity = env.now } in
    if not (active_size m == 6)
    then some (a, false)
    else Option.map
        (λ id.
          if not env.has_room
          then (b, false)
          else (record (post (sel_by_charid id) b) { status = entering_world }, true))
        (read_at 4 2 (active m))

-- `DoExitWorld`, for a packet or for the destructor.
unfoldable pub do_exit_world : Bool → WorldSession → WorldSession × Bool
do_exit_world do_callback a =
    if rank a.status == rank authed
    then (a, true)
    else if not (a.player_guid == 0)
    then (record (post (exit_world a.player_guid do_callback) a) { status = leaving_world }, true)
    else (a, false)

-- `Handle_SPacketExitWorld`.
unfoldable pub handle_exit_world : Env → WorldSession → WorldSession × Bool
unfolding do_exit_world
handle_exit_world env a =
    let (b, left) = do_exit_world true (record a { last_activity = env.now }) in
    if not (active_size a.current_decrypted_packet == 2)
    then (a, false)
    else if left
    then (b, true)
    else (close_session b, false)

-- The fields of a `SPacketPlayerMovementUpdate`.
unfoldable pub read_movement : List ℕ → Option Movement
unfolding Option.bind
read_movement bytes = Option.bind (read_at 4 2 bytes) λ seq.
    Option.bind (read_at 4 6 bytes) λ acked. Option.bind (read_at 4 10 bytes) λ x.
      Option.bind (read_at 4 14 bytes) λ y. Option.bind (read_at 4 18 bytes) λ z.
        Option.map
          (λ direction. record {
            pos_x = x;
            pos_y = y;
            pos_z = z;
            iso_direction = direction;
            seq = seq;
            acked_correction_id = acked;
          })
          (read_at 1 22 bytes)

-- `Handle_SPacketPlayerMovementUpdate`.
unfoldable pub handle_player_movement_update : Env → WorldSession → Option (WorldSession × Bool)
unfolding read_movement
handle_player_movement_update env a =
    let m = a.current_decrypted_packet in
    let b = record a { last_activity = env.now } in
    if not (is_open a.socket)
    then some (a, false)
    else if not (active_size m == 23)
    then some (a, false)
    else Option.map (λ movement. (post (move_player a.player_guid movement) b, true))
        (read_movement (active m))
