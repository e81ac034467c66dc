-- ===== src/Socket/Receiving.antt =====
-- The next read of a connection, and its end (src/shared/Sockets/TCPSocketBoost.cpp, `AsyncRead`,
-- `CloseSocket`).
use mathlib.Core.Path.{subst}
use necro_mmo.Common.{◌≡◌, refl, sym, true, not, some, arith, Bool-cases, inl, inr}
use necro_mmo.Common.Int.{pos, eq_ℤ}
use necro_mmo.Message as Message
use necro_mmo.Message.{compact_data, enlarge_buffer_if_needed}
use necro_mmo.Message.Buffer.{compact_data_lem}
use necro_mmo.Message.Stream.{enlarge_buffer_if_needed-IsValid}
use necro_mmo.Socket.{Socket, async_read, close_socket, force_close_socket, is_open}

pub close_socket_lem :
    (s : Socket)
    → ((close_socket s).in_buffer ≡ s.in_buffer)
      × ((close_socket s).out_queue ≡ s.out_queue)
      × ((close_socket s).async_writing ≡ s.async_writing)
unfolding close_socket force_close_socket
close_socket_lem s = ground arith

-- The next read is posted into a valid buffer.
pub async_read_lem :
    (s : Socket)
    → Message.IsValid s.in_buffer
    → (t : Socket) × (async_read s ≡ some t)
      × Message.IsValid t.in_buffer
      × (t.out_queue ≡ s.out_queue)
      × (t.async_writing ≡ s.async_writing)
unfolding async_read
async_read_lem s v = elim (Bool-cases (not (is_open s))) [
  | inl shut ↦ (s, rw (async_read, shut), v, refl, refl)
  | inr still_open ↦
      let (c, e, (vc, _, _, _, _, _)) = compact_data_lem s.in_buffer v in
      let ve = enlarge_buffer_if_needed-IsValid c vc in
      let t = record s { in_buffer = (enlarge_buffer_if_needed c).0 } in
      elim (Bool-cases (not (eq_ℤ (enlarge_buffer_if_needed c).1 (pos 0)))) [
        | inl large ↦
            let (same, queue, writing) = close_socket_lem t in
            (
              close_socket t,
              rw (async_read, still_open, e, large),
              subst Message.IsValid (sym same) ve,
              queue,
              writing,
            )
        | inr fine ↦
            (record t { reading = true }, rw (async_read, still_open, e, fine), ve, refl, refl)
      ]
]
