-- ===== src/World/Turns.antt =====
-- A turn of the network thread for a valid session, and what it has written
-- (src/NECROWorld/Server/Sockets/WorldSession.cpp, `Update`, `ProcessPlayerPacketsQueue`,
-- `AsyncWriteCallback`).
use mathlib.Core.Path.{subst}
use necro_mmo.Common.{
  ℕ, ◌+◌, ◌<◌, ◌≡◌, ◌⊎◌, refl, sym, ap, ◌∙◌, Bool, true, false, Option, some, List, [], length,
  arith, Bool-cases, inl, inr, some_unique, ◌==◌, ltb, All,
}
use necro_mmo.Aes.{Gcm, EvpRun}
use necro_mmo.Message as Message
use necro_mmo.Message.{active}
use necro_mmo.Packet.{Packet}
use necro_mmo.Queue.{drain_queue}
use necro_mmo.Socket.{
  Socket, UnderlyingState, default_state, just_connected, connected, critical_error, is_open,
  async_read,
}
use necro_mmo.Socket.Receiving.{async_read_lem}
use necro_mmo.World.{WorldSession, rank, in_world, close_session}
use necro_mmo.World.Updating.{process_player_packets_queue, started, update_in, update_session}
use necro_mmo.World.Sending.{is_fresh}
use necro_mmo.World.Sending.Several.{AllSent, send_all_lem}
use necro_mmo.World.Rules.{Rules-quiet}
use necro_mmo.World.Received.{IsValid, closed-IsValid}
use necro_mmo.World.Connection.{socket-IsValid}
use necro_mmo.World.Replies.{active-IsValid}

AllSent-IsValid :
    (gcm : Gcm) (evp : ℕ → EvpRun) (ps : List Packet) (a b : WorldSession)
    → IsValid a
    → AllSent gcm evp 0 ps a b
    → IsValid b
AllSent-IsValid gcm evp ps a b h s =
    let r = h.rules in
    subst IsValid (sym s.same) (record {
      rules = record {
        lookups = r.lookups;
        enters = r.enters;
        exits = r.exits;
        early = r.early;
        owned = r.owned;
        holds = r.holds;
        inside = r.inside;
        known = r.known;
        apart = λ k e. r.apart k (sym s.prefix ∙ e);
        registered = r.registered;
      };
      wires = record {
        flows = s.flows;
        buffer = subst Message.IsValid (sym s.buffer) h.wires.buffer;
        plain = h.wires.plain;
      };
      quiet = λ k. h.quiet (before s.ended k);
      fresh = λ k. let (first, still) = h.fresh (s.fresh k) in (first, s.reading ∙ still);
      waits = λ k. s.reading ∙ h.waits k;
    })
  where
    before :
        (s.number ≡ length ps) × (is_open b.socket ≡ is_open a.socket)
          ⊎ (s.number < length ps) × (is_open b.socket ≡ false)
        → (is_open b.socket ≡ true) ⊎ (b.socket.reading ≡ true)
        → (is_open a.socket ≡ true) ⊎ (a.socket.reading ≡ true)
    before e (inr o) = inr (sym s.reading ∙ o)
    before (inl (_, same)) (inl o) = inl (sym same ∙ o)
    before (inr (_, shut)) (inl o) = cc

-- The packets that the simulation has put into the queue of a session whose player is in the world, on
-- an open connection: the queue is emptied, and they go out in order, each encrypted under its own
-- nonce, behind all that was to be sent. All those go out that come before the first whose encryption
-- fails, that is of which some call of OpenSSL fails; at that one the connection is closed, and without
-- one it stays as it was.
pub process_player_packets_queue-AllSent :
    (gcm : Gcm) (evp : ℕ → EvpRun) (a : WorldSession)
    → IsValid a
    → is_open a.socket ≡ true
    → rank a.status ≡ 6
    → (b : WorldSession) × (process_player_packets_queue gcm evp a ≡ some b)
      × AllSent gcm evp 0 a.player_packet_queue (record a { player_packet_queue = [] }) b
      × IsValid b
unfolding process_player_packets_queue drain_queue
process_player_packets_queue-AllSent gcm evp a h alive six =
    let emptied : IsValid (record a { player_packet_queue = [] }) = record {
      rules =
          Rules-quiet a a.socket a.current_decrypted_packet a.last_activity
            a.expected_counter_for_next_packet [] h.rules;
      wires = record { flows = h.wires.flows; buffer = h.wires.buffer; plain = h.wires.plain };
      quiet = h.quiet;
      fresh = h.fresh;
      waits = h.waits;
    } in
    let (b, e, s) =
      send_all_lem gcm evp 0 a.player_packet_queue (record a { player_packet_queue = [] })
        h.wires.flows in
    (
      b,
      rw (alive, six) e,
      s,
      AllSent-IsValid gcm evp a.player_packet_queue (record a { player_packet_queue = [] }) b
          emptied s,
    )

process_player_packets_queue-IsValid :
    (gcm : Gcm) (evp : ℕ → EvpRun) (a : WorldSession)
    → IsValid a
    → (b : WorldSession) × (process_player_packets_queue gcm evp a ≡ some b) × IsValid b
unfolding process_player_packets_queue
process_player_packets_queue-IsValid gcm evp a h = elim (Bool-cases (is_open a.socket)) [
  | inr shut ↦ (a, rw shut refl, h)
  | inl alive ↦ elim (Bool-cases (rank a.status == rank in_world)) [
    | inr out ↦ (a, rw (alive, out) refl, h)
    | inl inside ↦
        let (b, e, _, v) = process_player_packets_queue-AllSent gcm evp a h alive (ground arith) in
        (b, e, v)
  ]
]

-- The next read of a session that was open is posted.
first_read-IsValid :
    (now : ℕ) (a : WorldSession)
    → IsValid a
    → rank a.status ≡ 0
    → (t : Socket) × (async_read a.socket ≡ some t)
      × IsValid
          (record a { socket = record t { underlying_state = connected }; last_activity = now })
unfolding async_read
first_read-IsValid now a h first =
    let (t, e, v, queue, writing) = async_read_lem a.socket h.wires.buffer in
    (
      t,
      e,
      active-IsValid now (record a { socket = record t { underlying_state = connected } })
          (socket-IsValid (record t { underlying_state = connected }) a h
            (record {
              idle = λ k. queue ∙ h.wires.flows.idle (sym writing ∙ k);
              busy = λ k. omega (arith, h.wires.flows.busy (sym writing ∙ k), ap length queue);
              valid = subst (All Message.IsValid) (sym queue) h.wires.flows.valid;
            })
            v (alive t e) (λ k. absurd (cc k)) (λ k. absurd (omega arith))),
    )
  where
    alive :
        (t : Socket)
        → async_read a.socket ≡ some t
        → (is_open t ≡ true) ⊎ (t.reading ≡ true)
        → (is_open a.socket ≡ true) ⊎ (a.socket.reading ≡ true)
    alive t e k = elim (Bool-cases (is_open a.socket)) [
      | inl was_open ↦ inl was_open
      | inr shut ↦
          let same : a.socket ≡ t = some_unique (async_read a.socket) a.socket t (rw shut refl) e in
          subst (λ x. (is_open x ≡ true) ⊎ (x.reading ≡ true)) (sym same) k
    ]

abbrev pub TurnedBy : Option (WorldSession × Bool) → Type 0
TurnedBy o = (b : WorldSession) × (go : Bool) × (o ≡ some (b, go)) × IsValid b

update_in-TurnedBy :
    (state : UnderlyingState) (gcm : Gcm) (evp : ℕ → EvpRun) (timeout now : ℕ) (a : WorldSession)
    → IsValid a
    → (is_fresh state ≡ true → rank a.status ≡ 0)
    → TurnedBy (update_in state gcm evp timeout now a)
unfolding update_in
update_in-TurnedBy critical_error gcm evp timeout now a h first = (a, false, refl, h)
update_in-TurnedBy just_connected gcm evp timeout now a h first =
    let (t, e, v) = first_read-IsValid now a h (first refl) in
    (
      record a { socket = record t { underlying_state = connected }; last_activity = now },
      true,
      rw e refl,
      v,
    )
update_in-TurnedBy connected gcm evp timeout now a h first =
    elim (Bool-cases (ltb (a.last_activity + timeout) now)) [
      | inl idle ↦ (close_session a, true, rw idle refl, closed-IsValid a h)
      | inr lively ↦
          let (b, e, v) = process_player_packets_queue-IsValid gcm evp a h in
          (b, true, rw (lively, e) refl, v)
    ]
update_in-TurnedBy default_state gcm evp timeout now a h first = (a, true, refl, h)
update_in-TurnedBy UnderlyingState.resolving gcm evp timeout now a h first = (a, true, refl, h)
update_in-TurnedBy UnderlyingState.connecting gcm evp timeout now a h first = (a, true, refl, h)
update_in-TurnedBy UnderlyingState.handshaking gcm evp timeout now a h first = (a, true, refl, h)

started_fresh : (u : UnderlyingState) → is_fresh (started u) ≡ true → is_fresh u ≡ true
started_fresh default_state k = refl
started_fresh just_connected k = refl
started_fresh UnderlyingState.resolving k = k
started_fresh UnderlyingState.connecting k = k
started_fresh UnderlyingState.handshaking k = k
started_fresh connected k = k
started_fresh critical_error k = k

-- `Update` on a valid session.
pub update_session-TurnedBy :
    (gcm : Gcm) (evp : ℕ → EvpRun) (timeout now : ℕ) (a : WorldSession)
    → IsValid a
    → TurnedBy (update_session gcm evp timeout now a)
unfolding update_session
update_session-TurnedBy gcm evp timeout now a h =
    let state = started a.socket.underlying_state in
    update_in-TurnedBy state gcm evp timeout now
      (record a { socket = record a.socket { underlying_state = state } })
      (socket-IsValid (record a.socket { underlying_state = state }) a h
        (record {
          idle = h.wires.flows.idle;
          busy = h.wires.flows.busy;
          valid = h.wires.flows.valid;
        })
        h.wires.buffer (λ k. k) (λ k. h.fresh (started_fresh a.socket.underlying_state k)) h.waits)
      (λ k. (h.fresh (started_fresh a.socket.underlying_state k)).0)
