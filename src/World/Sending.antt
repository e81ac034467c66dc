-- ===== src/World/Sending.antt =====
-- What a session sends (src/NECROWorld/Server/Sockets/WorldSession.cpp): each packet is encrypted and
-- queued, or the connection is dropped.
pub mod Several
use necro_mmo.Common.{
  ℕ, suc, ◌+◌, ◌≡◌, ◌⊎◌, refl, sym, ap, ◌∙◌, Bool, true, false, inl, inr, some, List, [], ◌∷◌, ◌++◌,
  length, arith, Bool-cases, take, ◌<◌,
}
use mathlib.Core.Path.{subst}
use mathlib.Core.List.{append-nil, append_assoc}
use necro_mmo.Aes.{Gcm, EvpRun, Iv, to_byte_array, increment_counter}
use necro_mmo.Packet.{Packet, Field}
use necro_mmo.Packet.Content.{encode_all, write_fields-empty}
use necro_mmo.Message.{Message, of_moved}
use necro_mmo.Message.Stream.{of_moved-active}
use necro_mmo.Message.Crypt.Sending.{frame_bytes}
use necro_mmo.Message.Crypt.Outcomes.{encrypts, aes_encrypt-outcome}
use necro_mmo.Socket.{
  UnderlyingState, Socket, is_open, close_socket, force_close_socket, queue_packet, async_write,
}
use necro_mmo.Socket.Sending.{Flows, unsent, queue_packet-Flows}
use necro_mmo.World.{rank, WorldSession, send_packet, send_reply, send_all, sent_as, close_session}

-- The frame of a text under a session's key and nonce.
abbrev pub frame_of : Gcm → List ℕ → Iv → List ℕ → List ℕ
frame_of gcm key iv text =
    let s = gcm.seal key (to_byte_array iv) [] text in frame_bytes (to_byte_array iv) s.1 s.0

-- A connection on which no read has been posted yet.
abbrev pub is_fresh : UnderlyingState → Bool
is_fresh UnderlyingState.default_state = true
is_fresh UnderlyingState.just_connected = true
is_fresh UnderlyingState.resolving = false
is_fresh UnderlyingState.connecting = false
is_fresh UnderlyingState.handshaking = false
is_fresh UnderlyingState.connected = false
is_fresh UnderlyingState.critical_error = false

-- Whether a read is under way, whether none has been yet, and the status.
abbrev pub mood : WorldSession → Bool × Bool × ℕ
mood a = (a.socket.reading, is_fresh a.socket.underlying_state, rank a.status)

-- No read is posted or ended, and the session does not come to wait for its key.
abbrev pub Calm : Bool × Bool × ℕ → WorldSession → Type 0
Calm (reading, fresh, status) b =
    (b.socket.reading ≡ reading)
    × (is_fresh b.socket.underlying_state ≡ true → fresh ≡ true)
    × (rank b.status ≡ 1 → status ≡ 1)

pub close_socket_fresh :
    (s : Socket)
    → is_fresh (close_socket s).underlying_state ≡ true
    → is_fresh s.underlying_state ≡ true
unfolding close_socket force_close_socket
close_socket_fresh s e = ground arith

pub closes : (s : Socket) → is_open (close_socket s) ≡ false
unfolding close_socket force_close_socket
closes s = ground arith

pub close_socket-Flows : (s : Socket) → Flows s → Flows (close_socket s)
unfolding close_socket force_close_socket
close_socket-Flows s f = ground arith

-- What a packet with the content `text` does to a session: only the socket and the nonce's counter
-- change.
pub record Sent (gcm : Gcm) (text : List ℕ) (a b : WorldSession) (ok : Bool) : Type 0 where
  pub same : b ≡ record a { socket = b.socket; data' = record a.data' { iv = b.data'.iv } }
  pub flows : Flows b.socket
  pub buffer : b.socket.in_buffer ≡ a.socket.in_buffer
  pub prefix : b.data'.iv.prefix ≡ a.data'.iv.prefix
  pub reading : b.socket.reading ≡ a.socket.reading
  pub fresh : is_fresh b.socket.underlying_state ≡ true → is_fresh a.socket.underlying_state ≡ true
  pub queued :
      ok ≡ true
      → (unsent b.socket.out_queue
          ≡ unsent a.socket.out_queue ++ frame_of gcm a.data'.session_key a.data'.iv text)
        × (b.data'.iv ≡ increment_counter a.data'.iv)
        × (is_open b.socket ≡ is_open a.socket)
  pub dropped :
      ok ≡ false
      → (is_open b.socket ≡ false)
        × (b.data'.iv ≡ a.data'.iv)
        × (b.socket.out_queue ≡ a.socket.out_queue)

pub close_socket_quiet :
    (s : Socket)
    → ((close_socket s).in_buffer ≡ s.in_buffer) × ((close_socket s).out_queue ≡ s.out_queue)
unfolding close_socket force_close_socket
close_socket_quiet s = ground arith

pub close_socket_reading : (s : Socket) → (close_socket s).reading ≡ s.reading
unfolding close_socket force_close_socket
close_socket_reading s = ground arith

increment_counter-prefix : (iv : Iv) → (increment_counter iv).prefix ≡ iv.prefix
unfolding increment_counter
increment_counter-prefix iv = refl

pub async_write_quiet :
    (s : Socket)
    → ((async_write s).in_buffer ≡ s.in_buffer)
      × (is_open (async_write s) ≡ is_open s)
      × ((async_write s).reading ≡ s.reading)
unfolding async_write
async_write_quiet s = from s.out_queue refl
  where
    from :
        (q : List Message)
        → s.out_queue ≡ q
        → ((async_write s).in_buffer ≡ s.in_buffer)
          × (is_open (async_write s) ≡ is_open s)
          × ((async_write s).reading ≡ s.reading)
    from [] e = rw (e, async_write) (refl, refl, refl)
    from (m ∷ q) e = elim (Bool-cases s.async_writing) [
      | inl on ↦ rw (e, async_write, on) (refl, refl, refl)
      | inr off ↦ rw (e, async_write, off) (refl, refl, refl)
    ]

pub async_write_state :
    (s : Socket) → is_fresh (async_write s).underlying_state ≡ is_fresh s.underlying_state
unfolding async_write
async_write_state s = from s.out_queue refl
  where
    from :
        (q : List Message)
        → s.out_queue ≡ q
        → is_fresh (async_write s).underlying_state ≡ is_fresh s.underlying_state
    from [] e = rw (e, async_write) refl
    from (m ∷ q) e = elim (Bool-cases s.async_writing) [
      | inl on ↦ rw (e, async_write, on) refl
      | inr off ↦ rw (e, async_write, off) refl
    ]

pub send_packet-Sent :
    (gcm : Gcm) (evp : EvpRun) (p : Packet) (a : WorldSession)
    → Flows a.socket
    → (b : WorldSession) × (ok : Bool) × (send_packet gcm evp p a ≡ some (b, ok))
      × Sent gcm p.bytes a b ok
      × (ok ≡ encrypts evp)
unfolding send_packet sent_as queue_packet
send_packet-Sent gcm evp p a f =
    let (v, act) = of_moved-active p in
    elim (aes_encrypt-outcome gcm evp a.data'.session_key [] a.data'.iv (of_moved p) v) [
      | inl (w, e, vw, frame, fine) ↦
          let s = record a.socket { out_queue = a.socket.out_queue ++ w ∷ [] } in
          let (flows, sent, _) = queue_packet-Flows w a.socket f vw in
          let (buffer, stays, reading) = async_write_quiet s in
          (
            record a {
              data' = record a.data' { iv = increment_counter a.data'.iv };
              socket = queue_packet w a.socket;
            },
            true,
            rw e,
            record {
              same = refl;
              flows = flows;
              buffer = buffer;
              prefix = increment_counter-prefix a.data'.iv;
              reading = reading;
              fresh = λ k. sym (async_write_state s) ∙ k;
              queued = λ _. (
                sent
                    ∙ ap (λ l. unsent a.socket.out_queue ++ l)
                        (frame ∙ ap (frame_of gcm a.data'.session_key a.data'.iv) act),
                refl,
                stays,
              );
              dropped = λ k. cc;
            },
            sym fine,
          )
      | inr (w, e, broken) ↦ (
        close_session a,
        false,
        rw e,
        record {
          same = refl;
          flows = close_socket-Flows a.socket f;
          buffer = (close_socket_quiet a.socket).0;
          prefix = refl;
          reading = close_socket_reading a.socket;
          fresh = close_socket_fresh a.socket;
          queued = λ k. cc;
          dropped = λ _. (closes a.socket, refl, (close_socket_quiet a.socket).1);
        },
        sym broken,
      )
    ]

pub send_reply-Sent :
    (gcm : Gcm) (evp : EvpRun) (fields : List Field) (a : WorldSession)
    → Flows a.socket
    → (b : WorldSession) × (ok : Bool) × (send_reply gcm evp fields a ≡ some (b, ok))
      × Sent gcm (encode_all fields) a b ok
      × (ok ≡ encrypts evp)
unfolding send_reply
send_reply-Sent gcm evp fields a f =
    let (p, e, _, bytes) = write_fields-empty fields in
    let (b, ok, done, sent, tried) = send_packet-Sent gcm evp p a f in
    (b, ok, rw (e, send_reply) done, subst (λ t. Sent gcm t a b ok) bytes sent, tried)

pub send_reply_lem :
    (gcm : Gcm) (evp : EvpRun) (fields : List Field) (a : WorldSession)
    → Flows a.socket
    → (b : WorldSession) × (ok : Bool) × (send_reply gcm evp fields a ≡ some (b, ok))
      × Sent gcm (encode_all fields) a b ok
send_reply_lem gcm evp fields a f =
    let (b, ok, e, s, _) = send_reply-Sent gcm evp fields a f in (b, ok, e, s)
