-- ===== src/World/Updating.antt =====
-- A turn of the network thread for a session, and what it has written
-- (src/NECROWorld/Server/Sockets/WorldSession.cpp, `Update`,
-- `ProcessPlayerPacketsQueue`, `AsyncWriteCallback`).
use necro_mmo.Common.{
  ℕ, ◌+◌, Bool, true, false, not, ◌&&◌, Option, none, some, [], length, ◌==◌, if◌then◌else◌, ltb,
}
use mathlib.Core.Option
use necro_mmo.Aes.{Gcm, EvpRun}
use necro_mmo.Queue.{drain_queue}
use necro_mmo.Socket.{
  UnderlyingState, default_state, just_connected, connected, critical_error, async_read,
  async_write, is_open, written,
}
use necro_mmo.World.{in_world, rank, WorldSession, close_session, send_all}

unfoldable pub process_player_packets_queue :
    Gcm → (ℕ → EvpRun) → WorldSession → Option WorldSession
process_player_packets_queue gcm evp a =
    if not (is_open a.socket)
    then some a
    else if not (rank a.status == rank in_world)
    then some a
    else (let (to_send, left) = drain_queue [] a.player_packet_queue in
        send_all gcm evp 0 to_send (record a { player_packet_queue = left }))

-- The first half of `Update`: a session that was accepted starts up.
abbrev pub started : UnderlyingState → UnderlyingState
started default_state = just_connected
started just_connected = just_connected
started connected = connected
started critical_error = critical_error
started UnderlyingState.resolving = UnderlyingState.resolving
started UnderlyingState.connecting = UnderlyingState.connecting
started UnderlyingState.handshaking = UnderlyingState.handshaking

unfoldable pub update_in :
    UnderlyingState → Gcm → (ℕ → EvpRun) → ℕ → ℕ → WorldSession → Option (WorldSession × Bool)
update_in critical_error gcm evp timeout now a = some (a, false)
update_in just_connected gcm evp timeout now a =
    Option.map
      (λ s. (
        record a { socket = record s { underlying_state = connected }; last_activity = now },
        true,
      ))
      (async_read a.socket)
update_in connected gcm evp timeout now a =
    if ltb (a.last_activity + timeout) now
    then some (close_session a, true)
    else Option.map (λ b. (b, true)) (process_player_packets_queue gcm evp a)
update_in default_state gcm evp timeout now a = some (a, true)
update_in UnderlyingState.resolving gcm evp timeout now a = some (a, true)
update_in UnderlyingState.connecting gcm evp timeout now a = some (a, true)
update_in UnderlyingState.handshaking gcm evp timeout now a = some (a, true)

-- `Update`, with the setting `CONNECTED_AND_IDLE_TIMEOUT_MS`: false is the return of -1.
unfoldable pub update_session :
    Gcm → (ℕ → EvpRun) → ℕ → ℕ → WorldSession → Option (WorldSession × Bool)
unfolding update_in
update_session gcm evp timeout now a =
    let state = started a.socket.underlying_state in
    update_in state gcm evp timeout now
      (record a { socket = record a.socket { underlying_state = state } })

-- `AsyncWriteCallback`, at the time `now`.
unfoldable pub async_write_callback : ℕ → WorldSession → WorldSession
async_write_callback now a =
    let b = record a { last_activity = now } in
    if a.close_after_send && length a.socket.out_queue == 0 then close_session b else b

-- `InternalWriteCallback` of a session: how many bytes went out, or an error.
unfoldable pub internal_write_callback : Option ℕ → ℕ → WorldSession → Option WorldSession
internal_write_callback none now a = some (close_session a)
internal_write_callback (some n) now a = elim (written n a.socket) [
  | none ↦ none
  | some s ↦
      let b = async_write_callback now (record a { socket = s }) in
      some (record b { socket = async_write b.socket })
]
