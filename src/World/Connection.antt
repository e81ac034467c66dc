-- ===== src/World/Connection.antt =====
-- Changes of the connection of a valid session, and the closes that other threads ask for
-- (src/shared/Sockets/TCPSocketBoost.cpp, `CloseSocket`, `ForceCloseSocket`).
use necro_mmo.Common.{◌≡◌, ◌⊎◌, ◌∙◌, true, false, arith, Bool-cases, inl, inr}
use necro_mmo.Message as Message
use necro_mmo.Socket.{Socket, is_open, force_close_socket}
use necro_mmo.Socket.Sending.{Flows}
use necro_mmo.World.{WorldSession, rank, post_close_socket, post_force_close_socket}
use necro_mmo.World.Sending.{is_fresh}
use necro_mmo.World.Rules.{Rules-quiet}
use necro_mmo.World.Received.{IsValid, closed-IsValid}

-- A session in which only the connection has changed, and has not come to be open or to be read.
pub socket-IsValid :
    (s : Socket) (a : WorldSession)
    → IsValid a
    → Flows s
    → Message.IsValid s.in_buffer
    → ((is_open s ≡ true) ⊎ (s.reading ≡ true)
        → (is_open a.socket ≡ true) ⊎ (a.socket.reading ≡ true))
    → (is_fresh s.underlying_state ≡ true → (rank a.status ≡ 0) × (s.reading ≡ false))
    → (rank a.status ≡ 1 → s.reading ≡ false)
    → IsValid (record a { socket = s })
socket-IsValid s a h flows buffer alive fresh waits = record {
  rules =
      Rules-quiet a s a.current_decrypted_packet a.last_activity a.expected_counter_for_next_packet
        a.player_packet_queue h.rules;
  wires = record { flows = flows; buffer = buffer; plain = h.wires.plain };
  quiet = λ k. h.quiet (alive k);
  fresh = fresh;
  waits = waits;
}

-- The callbacks of a close from another thread, when they run.
pub post_close_socket-IsValid : (a : WorldSession) → IsValid a → IsValid (post_close_socket a)
unfolding post_close_socket
post_close_socket-IsValid a h = elim (Bool-cases (is_open a.socket)) [
  | inl alive ↦ rw alive (closed-IsValid a h)
  | inr shut ↦ rw shut h
]

pub post_force_close_socket-IsValid :
    (a : WorldSession) → IsValid a → IsValid (post_force_close_socket a)
unfolding post_force_close_socket force_close_socket
post_force_close_socket-IsValid a h = elim (Bool-cases (is_open a.socket)) [
  | inr shut ↦ rw shut h
  | inl alive ↦ rw alive (
      socket-IsValid (force_close_socket a.socket) a h (ground arith) (ground arith)
        (λ _. inl alive)
        (λ k. let (first, still) = h.fresh (forced.1 k) in (first, forced.0 ∙ still))
        (λ k. forced.0 ∙ h.waits k))
]
  where
    forced :
        ((force_close_socket a.socket).reading ≡ a.socket.reading)
        × (is_fresh (force_close_socket a.socket).underlying_state ≡ true
            → is_fresh a.socket.underlying_state ≡ true)
    forced = ground arith
