-- ===== src/World/Waiting.antt =====
-- The next read that a session of the world server waits for
-- (src/shared/Sockets/TCPSocketBoost.cpp, `AsyncRead`, as WorldSession::AsyncReadCallback calls it).
use mathlib.Core.Option
use mathlib.Core.Path.{subst}
use necro_mmo.Common.{
  refl, some_unique, Option-cases, not, none, ◌≢◌, ℕ, ◌≡◌, sym, ap, ◌∙◌, Bool, true, false, Option,
  some, length, arith, Bool-cases, inl, inr, All,
}
use necro_mmo.Message as Message
use necro_mmo.Socket.{async_read}
use necro_mmo.Socket.Receiving.{async_read_lem}
use necro_mmo.World.{WorldSession, rank}
use necro_mmo.Common.Int.{pos, eq_ℤ}
use necro_mmo.Message.{compact_data, enlarge_buffer_if_needed}
use necro_mmo.Socket.{Socket, is_open, close_socket}
use necro_mmo.World.Sending.{Calm, is_fresh, close_socket_fresh}
use necro_mmo.World.Rules.{Rules, Wires, Rules-quiet}
use necro_mmo.World.Rounds.{IsReady}

-- What reading leaves: the rules and the wires hold, and while it does not give up the session is
-- between two packets.
pub record Read (m : Bool × Bool × ℕ) (b : WorldSession) (ok : Bool) : Type 0 where
  pub rules : Rules b
  pub wires : Wires b
  pub ready : ok ≡ true → IsReady b
  pub idle : ok ≡ false → b.socket.reading ≡ m.0
  pub fresh : is_fresh b.socket.underlying_state ≡ true → m.1 ≡ true
  -- While it waits for its key no read is under way.
  pub waits : rank b.status ≡ 1 → b.socket.reading ≡ false

abbrev pub ReadBy : Bool × Bool × ℕ → Option (WorldSession × Bool) → Type 0
ReadBy m o = (b : WorldSession) × (ok : Bool) × (o ≡ some (b, ok)) × Read m b ok

async_read_fresh :
    (s t : Socket)
    → async_read s ≡ some t
    → is_fresh t.underlying_state ≡ true
    → is_fresh s.underlying_state ≡ true
unfolding async_read
async_read_fresh s t e k = elim (Bool-cases (not (is_open s))) [
  | inl shut ↦
      let same = some_unique (async_read s) s t (rw (shut, async_read) refl) e in
      ap (λ x. is_fresh x.underlying_state) same ∙ k
  | inr still_open ↦ elim (Option-cases (compact_data s.in_buffer)) [
    | inl wrong ↦ absurd (cc (e, nothing (rw (still_open, wrong, async_read) refl)))
    | inr (c, compacted) ↦
        let u : Socket = record s { in_buffer = (enlarge_buffer_if_needed c).0 } in
        elim (Bool-cases (not (eq_ℤ (enlarge_buffer_if_needed c).1 (pos 0)))) [
          | inl large ↦
              let same =
                some_unique (async_read s) (close_socket u) t
                  (rw (still_open, compacted, large, async_read) refl) e in
              close_socket_fresh u (ap (λ x. is_fresh x.underlying_state) same ∙ k)
          | inr fine ↦
              let same =
                some_unique (async_read s) (record u { reading = true }) t
                  (rw (still_open, compacted, fine, async_read) refl) e in
              ap (λ x. is_fresh x.underlying_state) same ∙ k
        ]
  ]
]
  where
    nothing : async_read s ≡ none → async_read s ≡ none
    nothing x = x

-- The next read is posted.
pub reading-Read :
    (m : Bool × Bool × ℕ) (b : WorldSession)
    → IsReady b
    → Calm m b
    → m.2 ≢ 1
    → (c : WorldSession) × (Option.map {B = WorldSession × Bool}
          (λ s. (record b { socket = s }, true))
          (async_read b.socket)
        ≡ some (c, true))
      × Read m c true
reading-Read m b h calm later =
    let (t, e, v, queue, writing) = async_read_lem b.socket h.wires.buffer in
    let c = record b { socket = t } in
    let rules =
      Rules-quiet b t b.current_decrypted_packet b.last_activity b.expected_counter_for_next_packet
        b.player_packet_queue h.rules in
    let wires : Wires c = record {
      flows = record {
        idle = λ k. queue ∙ h.wires.flows.idle (sym writing ∙ k);
        busy = λ k. omega (arith, h.wires.flows.busy (sym writing ∙ k), ap length queue);
        valid = subst (All Message.IsValid) (sym queue) h.wires.flows.valid;
      };
      buffer = v;
      plain = h.wires.plain;
    } in
    (
      c,
      rw e,
      record {
        rules = rules;
        wires = wires;
        ready = λ _. record { rules = rules; wires = wires; no_text = h.no_text };
        idle = λ k. cc;
        fresh = λ k. calm.1 (async_read_fresh b.socket t e k);
        waits = λ k. absurd (later (calm.2 k));
      },
    )
