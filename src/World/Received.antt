-- ===== src/World/Received.antt =====
-- The reads of a session of the world server between two events
-- (src/NECROWorld/Server/Sockets/WorldSession.cpp, `AsyncReadCallback`,
-- `DBCallback_GreetcodeLookup`).
use necro_mmo.Common.{
  ◌≢◌, ℕ, ◌≤◌, ◌≡◌, refl, sym, ◌∙◌, Bool, true, false, some, List, [], length, inl, inr, ◌⊎◌,
}
use necro_mmo.Aes.{Gcm}
use necro_mmo.Message.{active, remaining_space}
use necro_mmo.Message.Stream.{write_completed-active}
use necro_mmo.Socket.{Socket, close_socket, received, is_open}
use necro_mmo.World.{WorldSession, Env, close_session, rank}
use necro_mmo.World.Reading.{or_close, internal_read_callback}
use necro_mmo.World.Rules.{Rules, Wires, Rules-quiet, Wires-closed}
use necro_mmo.World.Waiting.{Read}
use necro_mmo.World.Loop.{async_read_callback-ReadBy}
use necro_mmo.World.Sending.{is_fresh, close_socket_fresh, closes, close_socket_reading}

-- A session between two events: while it is open, or a read is under way, no text is left.
pub record IsValid (a : WorldSession) : Type 0 where
  pub rules : Rules a
  pub wires : Wires a
  pub quiet :
      (is_open a.socket ≡ true) ⊎ (a.socket.reading ≡ true) → active a.current_decrypted_packet ≡ []
  -- Until its first read is posted it waits for the greeting.
  pub fresh :
      is_fresh a.socket.underlying_state ≡ true → (rank a.status ≡ 0) × (a.socket.reading ≡ false)
  -- No read is under way while the greet code is looked up.
  pub waits : rank a.status ≡ 1 → a.socket.reading ≡ false

pub closed-Rules : (a : WorldSession) → Rules a → Rules (close_session a)
closed-Rules a r =
    Rules-quiet a (close_socket a.socket) a.current_decrypted_packet a.last_activity
      a.expected_counter_for_next_packet a.player_packet_queue r

pub closed-IsValid : (a : WorldSession) → IsValid a → IsValid (close_session a)
closed-IsValid a h = record {
  rules = closed-Rules a h.rules;
  wires = Wires-closed a h.wires;
  quiet = kept;
  fresh = λ k.
      let (first, still) = h.fresh (close_socket_fresh a.socket k) in
      (first, close_socket_reading a.socket ∙ still);
  waits = λ k. close_socket_reading a.socket ∙ h.waits k;
}
  where
    kept :
        (is_open (close_socket a.socket) ≡ true) ⊎ ((close_socket a.socket).reading ≡ true)
        → active a.current_decrypted_packet ≡ []
    kept (inl o) = cc (closes a.socket)
    kept (inr o) = h.quiet (inr (sym (close_socket_reading a.socket) ∙ o))

-- After the read callback, with its connection closed where it gave up.
pub or_close-IsValid :
    (fresh : Bool) (status : ℕ) (b : WorldSession) (ok : Bool)
    → fresh ≢ true
    → Read (false, fresh, status) b ok
    → IsValid (or_close (b, ok)).0
or_close-IsValid fresh status b true later r = record {
  rules = r.rules;
  wires = r.wires;
  quiet = λ _. (r.ready refl).no_text;
  fresh = λ k. absurd (later (r.fresh k));
  waits = r.waits;
}
or_close-IsValid fresh status b false later r = record {
  rules = closed-Rules b r.rules;
  wires = Wires-closed b r.wires;
  quiet = none_left;
  fresh = λ k. absurd (later (r.fresh (close_socket_fresh b.socket k)));
  waits = λ k. close_socket_reading b.socket ∙ r.waits k;
}
  where
    none_left :
        (is_open (close_socket b.socket) ≡ true) ⊎ ((close_socket b.socket).reading ≡ true)
        → active b.current_decrypted_packet ≡ []
    none_left (inl o) = cc (closes b.socket)
    none_left (inr o) = cc (close_socket_reading b.socket, r.idle refl)

-- `InternalReadCallback` on a valid session with bytes that fit its buffer: it ends and leaves the
-- session valid.
pub internal_read_callback-IsValid :
    (bytes : List ℕ) (gcm : Gcm) (env : ℕ → Env) (a : WorldSession)
    → IsValid a
    → a.socket.reading ≡ true
    → length bytes ≤ remaining_space a.socket.in_buffer
    → (b : WorldSession) × (internal_read_callback (some bytes) gcm env a ≡ some b) × IsValid b
unfolding internal_read_callback received
internal_read_callback-IsValid bytes gcm env a h going fits =
    let (m, e, vm, _) = write_completed-active bytes a.socket.in_buffer h.wires.buffer fits in
    let s : Socket = record a.socket { in_buffer = m; reading = false } in
    let (b, ok, done, r) =
      async_read_callback-ReadBy gcm env (record a { socket = s })
        (record {
          rules =
              Rules-quiet a s a.current_decrypted_packet a.last_activity
                a.expected_counter_for_next_packet a.player_packet_queue h.rules;
          wires = record {
            flows = record {
              idle = h.wires.flows.idle;
              busy = h.wires.flows.busy;
              valid = h.wires.flows.valid;
            };
            buffer = vm;
            plain = h.wires.plain;
          };
          no_text = h.quiet (inr going);
        })
        (λ k. absurd (cc (h.waits k, going))) refl in
    (
      (or_close (b, ok)).0,
      rw (e, internal_read_callback, received, done),
      or_close-IsValid (is_fresh a.socket.underlying_state) (rank a.status) b ok
          (λ k. absurd (cc ((h.fresh k).1, going))) r,
    )
