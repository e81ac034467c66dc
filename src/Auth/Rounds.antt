-- ===== src/Auth/Rounds.antt =====
-- The rounds of the login server's read loop, and their end
-- (src/NECROAuth/Server/Auth/AuthSession.cpp, `AsyncReadCallback`).
use mathlib.Core.Path.{subst}
use necro_mmo.Common.{
  ℕ, zero, suc, ◌+◌, ◌%◌, ◌^◌, ◌≤◌, ◌≡◌, ◌≢◌, refl, ap, false, not, some, List, [], ◌∷◌, length,
  take, drop, ◌==◌, ◌||◌, if◌then◌else◌, ltb, arith, Bool-cases, Option-cases, inl, inr,
}
use necro_mmo.Common.Bytes.{of_bytes}
use necro_mmo.Message.{active, active_size, clear}
use necro_mmo.Message.Buffer.{active_size_lem}
use necro_mmo.Auth.{AuthSession, rank, SocketStatus, gather_info, login_attempt, authed}
use necro_mmo.Auth.Progress.{Sound, Progress, Handles}
use necro_mmo.Auth.Served.{gather_info-Handles, read_at_lem}
use necro_mmo.Auth.Served.Proof.{login_proof-Handles}
use necro_mmo.Auth.Served.Realms.{gather_realmlist-Handles}
use necro_mmo.Auth.Handlers.{Env}
use necro_mmo.Auth.Reading.{
  find_handler, run_handler, whole_size, over, failed, with_buffer, conclude, handle_whole,
  read_packet, read_round,
}
use necro_mmo.Auth.Loop.{
  IsValid, DoneBy, Progress-refl, Runs-refl, cleared-Runs, counted, conclude-Done,
}

module _ (env : Env) (a : AuthSession) (v : IsValid a) where
  abbrev bytes : List ℕ
  bytes = active a.socket.in_buffer

  size_lem : active_size a.socket.in_buffer ≡ length bytes
  size_lem = active_size_lem a.socket.in_buffer v.buffer

  failed-DoneBy : DoneBy env.sha256 a (some (failed a))
  failed-DoneBy = (failed a, refl, Runs-refl env.sha256 a v)

  Sound-counted : (n : ℕ) → Sound (counted n a)
  unfolding counted
  Sound-counted n = record { flows = v.sound.flows; bits = v.sound.bits; named = v.sound.named }

  Progress-with_counter : (n : ℕ) → Progress env.sha256 a (counted n a)
  unfolding counted
  Progress-with_counter n = record {
    sound = Sound-counted n;
    forward = omega arith;
    kept_out = λ e. e;
    still = λ _. refl;
    asked = inl refl;
  }

  handle_whole-DoneBy :
      (cmd whole : ℕ)
      → whole ≤ length bytes
      → Handles env.sha256
          (counted (a.packets_processed + 1) a)
          (run_handler env cmd (counted (a.packets_processed + 1) a))
      → DoneBy env.sha256 a (handle_whole env cmd whole a)
  unfolding handle_whole counted
  handle_whole-DoneBy cmd whole fits (o, e, h) =
      let n : (a.packets_processed + 1) % 2 ^ 32 ≡ a.packets_processed + 1 = omega (arith, v.few) in
      elim (Bool-cases (ltb 3 (a.packets_processed + 1))) [
        | inl many ↦ (
          failed (with_buffer clear (record a { packets_processed = a.packets_processed + 1 })),
          rw (handle_whole, n, many),
          cleared-Runs env.sha256 a (counted (a.packets_processed + 1) a)
              (Progress-with_counter (a.packets_processed + 1)) (omega (arith, v.few)),
        )
        | inr few ↦ (
          conclude whole o,
          rw (handle_whole, n, few, e),
          conclude-Done env.sha256 whole a o v (ground arith) fits h,
        )
      ]

  -- The declared size of a packet whose fixed part has arrived.
  abbrev declared : ℕ
  declared = of_bytes (take 2 (drop 2 bytes))

  -- A packet whose size is within the limits of its kind.
  sized-DoneBy :
      (cmd whole : ℕ)
      → (whole ≤ length bytes → DoneBy env.sha256 a (handle_whole env cmd whole a))
      → DoneBy env.sha256 a (
          if ltb (active_size a.socket.in_buffer) whole
          then some (over a)
          else handle_whole env cmd whole a)
  sized-DoneBy cmd whole handled = elim (Bool-cases (ltb (active_size a.socket.in_buffer) whole)) [
    | inl part ↦ (over a, rw part, refl)
    | inr all ↦ rw all (handled (ground (arith, size_lem)))
  ]

  gather_info-DoneBy : DoneBy env.sha256 a (read_packet env 0 (gather_info, 4) a)
  unfolding read_packet whole_size
  gather_info-DoneBy = elim (Bool-cases (not (rank a.status == 1))) [
    | inl mismatch ↦ rw (read_packet, mismatch) failed-DoneBy
    | inr expected ↦ elim (Bool-cases (ltb (active_size a.socket.in_buffer) 4)) [
      | inl short ↦ (over a, rw (read_packet, expected, short), refl)
      | inr fixed ↦
          let whole = (4 + declared) % 2 ^ 16 in
          let there = read_at_lem 2 2 bytes (ground (arith, size_lem)) in
          elim (Bool-cases (not (ltb 24 whole || ltb whole 9))) [
            | inr bad ↦ rw (read_packet, expected, fixed, whole_size, there, bad) failed-DoneBy
            | inl fine ↦
                let (o, e, d) = sized-DoneBy 0 whole λ fits. handle_whole-DoneBy 0 whole fits (
                  unfold run_handler counted in
                  (gather_info-Handles env (counted (a.packets_processed + 1) a)
                    (Sound-counted (a.packets_processed + 1)) (ground arith) (ground arith)
                    fits)) in
                (o, rw (read_packet, expected, fixed, whole_size, there, fine) e, d)
          ]
    ]
  ]

  login_proof-DoneBy : DoneBy env.sha256 a (read_packet env 1 (login_attempt, 4) a)
  unfolding read_packet whole_size
  login_proof-DoneBy = elim (Bool-cases (not (rank a.status == 3))) [
    | inl mismatch ↦ rw (read_packet, mismatch) failed-DoneBy
    | inr expected ↦ elim (Bool-cases (ltb (active_size a.socket.in_buffer) 4)) [
      | inl short ↦ (over a, rw (read_packet, expected, short), refl)
      | inr fixed ↦
          let whole = (4 + declared) % 2 ^ 16 in
          let there = read_at_lem 2 2 bytes (ground (arith, size_lem)) in
          elim (Bool-cases (not (ltb 33 whole || ltb whole 18))) [
            | inr bad ↦ rw (read_packet, expected, fixed, whole_size, there, bad) failed-DoneBy
            | inl fine ↦
                let (o, e, d) = sized-DoneBy 1 whole λ fits. handle_whole-DoneBy 1 whole fits (
                  unfold run_handler counted in
                  (login_proof-Handles env (counted (a.packets_processed + 1) a)
                    (Sound-counted (a.packets_processed + 1)) (ground arith) (ground arith)
                    fits)) in
                (o, rw (read_packet, expected, fixed, whole_size, there, fine) e, d)
          ]
    ]
  ]

  realmlist-DoneBy : DoneBy env.sha256 a (read_packet env 2 (authed, 2) a)
  unfolding read_packet whole_size
  realmlist-DoneBy = elim (Bool-cases (not (rank a.status == 5))) [
    | inl mismatch ↦ rw (read_packet, mismatch) failed-DoneBy
    | inr expected ↦ elim (Bool-cases (ltb (active_size a.socket.in_buffer) 2)) [
      | inl short ↦ (over a, rw (read_packet, expected, short), refl)
      | inr fixed ↦
          let (o, e, d) = handle_whole-DoneBy 2 2 (ground (arith, size_lem)) (
            unfold run_handler counted in
            (gather_realmlist-Handles env (counted (a.packets_processed + 1) a)
              (Sound-counted (a.packets_processed + 1)) (ground arith))) in
          (o, rw (read_packet, expected, fixed, whole_size) e, d)
    ]
  ]

  read_packet-DoneBy :
      (cmd : ℕ) (handler : SocketStatus × ℕ)
      → find_handler cmd ≡ some handler
      → DoneBy env.sha256 a (read_packet env cmd handler a)
  unfolding find_handler
  read_packet-DoneBy zero handler found =
      let eq : (gather_info, 4) ≡ handler = cc in
      subst (λ h. DoneBy env.sha256 a (read_packet env 0 h a)) eq gather_info-DoneBy
  read_packet-DoneBy (suc zero) handler found =
      let eq : (login_attempt, 4) ≡ handler = cc in
      subst (λ h. DoneBy env.sha256 a (read_packet env 1 h a)) eq login_proof-DoneBy
  read_packet-DoneBy (suc (suc zero)) handler found =
      let eq : (authed, 2) ≡ handler = cc in
      subst (λ h. DoneBy env.sha256 a (read_packet env 2 h a)) eq realmlist-DoneBy
  read_packet-DoneBy (suc (suc (suc n))) handler found = cc

  -- A round never touches a byte that has not arrived.
  pub read_round-DoneBy : DoneBy env.sha256 a (read_round env a)
  unfolding read_round
  read_round-DoneBy = elim (Bool-cases (active_size a.socket.in_buffer == 0)) [
    | inl nothing ↦ (over a, rw (read_round, nothing), refl)
    | inr something ↦ from bytes refl (ground (arith, size_lem))
  ]
    where
      from : (l : List ℕ) → bytes ≡ l → length bytes ≢ 0 → DoneBy env.sha256 a (read_round env a)
      from [] e ne = absurd (ne (ap length e))
      from (cmd ∷ l) e ne = elim (Option-cases (find_handler cmd)) [
        | inl unknown ↦ (
          failed (with_buffer clear a),
          rw (read_round, something', e, unknown),
          cleared-Runs env.sha256 a a (Progress-refl env.sha256 a v.sound) (omega (arith, v.few)),
        )
        | inr (handler, found) ↦
            let (o, e', d) = read_packet-DoneBy cmd handler found in
            (o, rw (read_round, something', e, found) e', d)
      ]
        where
          something' : (active_size a.socket.in_buffer == 0) ≡ false
          something' = ground (arith, size_lem)
