-- ===== src/World/Frames.antt =====
-- One round of the world server's read loop (src/NECROWorld/Server/Sockets/WorldSession.cpp,
-- `AsyncReadCallback`).
use necro_mmo.Common.{
  ℕ, ◌+◌, ◌≤◌, ap, ◌∙◌, arith, length-drop, ◌≡◌, refl, false, Option, none, some, [], length,
  Bool-cases, inl, inr, ◌==◌, if◌then◌else◌,
}
use necro_mmo.Aes.{Gcm}
use necro_mmo.Message as Message
use necro_mmo.Message.{active, active_size, clear, soft_clear, write}
use necro_mmo.Message.Crypt.{Decrypted, plain, failed, aes_decrypt}
use necro_mmo.Message.Crypt.Refusals.{Decrypts, frame_size, aes_decrypt-Decrypts}
use necro_mmo.World.{WorldSession, Env}
use necro_mmo.World.Reading.{Round, again, over, dropped, decrypted, read_round}
use necro_mmo.World.Sending.{mood}
use necro_mmo.World.Rules.{Rules-quiet}
use necro_mmo.World.Rounds.{IsReady, Rounded, RoundedBy, After, handle_plain-After}

-- The session with what `AESDecrypt` has given.
abbrev taken : ℕ → Message.Message → WorldSession → WorldSession
taken counter m a = record a {
  socket = record a.socket { in_buffer = m };
  expected_counter_for_next_packet = counter;
}

taken-IsReady :
    (counter : ℕ) (m : Message.Message) (a : WorldSession)
    → IsReady a
    → Message.IsValid m
    → IsReady (taken counter m a)
taken-IsReady counter m a h v = record {
  rules =
      Rules-quiet a (record a.socket { in_buffer = m }) a.current_decrypted_packet a.last_activity
        counter a.player_packet_queue h.rules;
  wires = record {
    flows = record {
      idle = h.wires.flows.idle;
      busy = h.wires.flows.busy;
      valid = h.wires.flows.valid;
    };
    buffer = v;
    plain = h.wires.plain;
  };
  no_text = h.no_text;
}

decrypted-RoundedBy :
    (env : Env) (a : WorldSession) (r : Decrypted) (counter : ℕ) (m : Message.Message)
    → IsReady a
    → Decrypts a.expected_counter_for_next_packet a.socket.in_buffer (some (r, counter, m))
    → RoundedBy a (decrypted env (r, counter, m) a)
unfolding decrypted
decrypted-RoundedBy env a (failed n) counter m h (same, bytes, v) =
    let b = taken-IsReady counter m a h v in
    elim (Bool-cases (n == 1)) [
      | inl short ↦ (over (taken counter m a), rw short, (b, bytes, (refl, λ k. k, λ k. k)))
      | inr broken ↦
          (dropped (taken counter m a), rw broken, (b.rules, b.wires, (refl, λ k. k, λ k. k)))
    ]
decrypted-RoundedBy env a (plain n) counter m h (next, fresh, size, consumed, lo, _, arrived, v) =
    let b = taken-IsReady counter m a h v in
    let gone : length (active m) + 32 ≤ length (active a.socket.in_buffer) = omega (
      arith,
      lo,
      arrived,
      ap length consumed
          ∙ length-drop (4 + frame_size a.socket.in_buffer) (active a.socket.in_buffer),
    ) in
    elim (Bool-cases (n == 0)) [
      | inl nothing ↦
          (dropped (taken counter m a), rw nothing, (b.rules, b.wires, (refl, λ k. k, λ k. k)))
      | inr something ↦
          let (o, done, after) =
            handle_plain-After env n (taken counter m a) (length (active a.socket.in_buffer)) b size
              gone in
          (o, rw something done, rounded o after)
    ]
  where
    rounded : (o : Round) → After (length (active a.socket.in_buffer)) (mood a) o → Rounded a o
    rounded (again c) x = x
    rounded (over c) x = absurd x
    rounded (dropped c) x = x

-- A round, whatever has arrived, stays within it.
pub read_round-RoundedBy :
    (gcm : Gcm) (env : Env) (a : WorldSession) → IsReady a → RoundedBy a (read_round gcm env a)
unfolding read_round
read_round-RoundedBy gcm env a h =
    let prefix : Option ℕ =
      if a.client_prefix_known then some a.data'.clients_iv_prefix else none in
    let m = a.socket.in_buffer in
    elim (Bool-cases (active_size m == 0)) [
      | inl nothing ↦ (over a, rw (nothing, read_round), (h, refl, (refl, λ k. k, λ k. k)))
      | inr something ↦
          from something
            (aes_decrypt gcm env.evp a.data'.session_key [] a.expected_counter_for_next_packet
              prefix m)
            refl
            (aes_decrypt-Decrypts gcm env.evp a.data'.session_key []
              a.expected_counter_for_next_packet prefix m h.wires.buffer)
    ]
  where
    from :
        (active_size a.socket.in_buffer == 0) ≡ false
        → (o : Option (Decrypted × ℕ × Message.Message))
        → aes_decrypt gcm env.evp a.data'.session_key [] a.expected_counter_for_next_packet
            (if a.client_prefix_known then some a.data'.clients_iv_prefix else none)
            a.socket.in_buffer
          ≡ o
        → Decrypts a.expected_counter_for_next_packet a.socket.in_buffer o
        → RoundedBy a (read_round gcm env a)
    from something none e d = absurd d
    from something (some (r, counter, m')) e d =
        let (o, done, rounded) = decrypted-RoundedBy env a r counter m' h d in
        (o, rw (something, read_round, e) done, rounded)
