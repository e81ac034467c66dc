-- ===== src/Auth/Served/Proof.antt =====
-- The handler of the login proof on a whole packet and a valid session
-- (src/NECROAuth/Server/Auth/AuthSession.cpp).
use mathlib.Core.Option
use necro_mmo.Common.{
  ℕ, ◌+◌, ◌%◌, ◌^◌, ◌≤◌, ◌≡◌, refl, Bool, true, false, not, some, List, [], ◌∷◌, ◌++◌, length, take,
  drop, ◌==◌, ◌||◌, ltb, arith, Bool-cases, inl, inr,
}
use necro_mmo.Common.Bytes.{of_bytes}
use necro_mmo.Packet.{u8, u16}
use necro_mmo.Message.{of_moved, active}
use necro_mmo.Auth.{AuthSession, login_attempt_pending, credentials_check, rank}
use necro_mmo.Auth.Work.{verify_proof_of_work, verify_proof_of_work_lem}
use necro_mmo.Auth.Progress.{
  Sound, Handles, replied, replied-Flows, sent_with_lem, queue_packet-in_buffer, refused-Handled,
}
use necro_mmo.Auth.Handlers.{
  Env, accepted, refused, all_alnum, check_credentials, judge_work, handle_auth_login_proof_packet,
}
use necro_mmo.Auth.Served.{read_at_lem, slice_at_lem}

module _ (env : Env) (a : AuthSession) (s : Sound a) where
  abbrev bytes : List ℕ
  bytes = active a.socket.in_buffer

  -- The size that the packet declares.
  abbrev declared : ℕ
  declared = of_bytes (take 2 (drop 2 bytes))

  judge_work-Handles :
      (password : List ℕ) (prefix answer : ℕ)
      → rank a.status ≡ 3
      → (solved : Bool)
      → verify_proof_of_work env.sha256 a.data'.challenge answer a.data'.difficulty ≡ some solved
      → Handles env.sha256 a (
          judge_work env solved password prefix
            (record a { last_activity = env.now; status = login_attempt_pending }))
  unfolding judge_work check_credentials
  judge_work-Handles password prefix answer status false e =
      let c = record a {
        last_activity = env.now;
        status = login_attempt_pending;
        close_after_send = true;
      } in
      let (p, e') = sent_with_lem accepted (u8 1 ∷ u8 1 ∷ u16 0 ∷ []) c in
      (
        accepted (replied p c),
        e',
        record {
          progress = record {
            sound = record {
              flows = replied-Flows p c s.flows;
              bits = s.bits;
              named = λ _. s.named (omega (arith, status));
            };
            forward = omega (arith, status);
            kept_out = λ h. absurd (omega arith);
            still = λ h. absurd (omega (arith, status));
            asked = inl refl;
          };
          buffer = queue_packet-in_buffer (of_moved p) a.socket;
          packets = refl;
        },
      )
  judge_work-Handles password prefix answer status true e =
      let c : AuthSession = record a {
        last_activity = env.now;
        status = login_attempt_pending;
        data' = record a.data' { pass = password; rand_iv_prefix = prefix };
      } in
      elim (Bool-cases (not env.has_room)) [
        | inl full ↦ (
          refused c,
          rw (full, judge_work),
          record {
            progress = record {
              sound = record {
                flows = s.flows;
                bits = s.bits;
                named = λ _. s.named (omega (arith, status));
              };
              forward = omega (arith, status);
              kept_out = λ h. absurd (omega arith);
              still = λ h. absurd (omega (arith, status));
              asked = inl refl;
            };
            buffer = refl;
            packets = refl;
          },
        )
        | inr room ↦ (
          accepted (record c { posted = a.posted ++ credentials_check a.data'.username ∷ [] }),
          rw (room, judge_work),
          record {
            progress = record {
              sound = record {
                flows = s.flows;
                bits = s.bits;
                named = λ _. s.named (omega (arith, status));
              };
              forward = omega (arith, status);
              kept_out = λ h. absurd (omega arith);
              still = λ h. absurd (omega (arith, status));
              asked = inr (record {
                answer = answer;
                solved = e;
                posted = refl;
                pending = omega arith;
                before = omega (arith, status);
              });
            };
            buffer = refl;
            packets = refl;
          },
        )
      ]

  pub login_proof-Handles :
      rank a.status ≡ 3
      → 18 ≤ length bytes
      → (4 + declared) % 2 ^ 16 ≤ length bytes
      → Handles env.sha256 a (handle_auth_login_proof_packet env a)
  unfolding handle_auth_login_proof_packet Option.bind
  login_proof-Handles status enough whole =
      let b = record a { last_activity = env.now } in
      let n = of_bytes (take 1 (drop 16 bytes)) in
      let password = take n (drop 17 bytes) in
      let answer = of_bytes (take 8 (drop 4 bytes)) in
      let no = refused-Handled env a s in
      elim (Bool-cases (n == 0 || ltb 16 n)) [
        | inl bad ↦ (
          refused b,
          rw (read_at_lem 1 16 bytes (omega arith), handle_auth_login_proof_packet, bad),
          no,
        )
        | inr fine ↦ elim (Bool-cases (not (declared == 13 + n))) [
          | inl lie ↦ (
            refused b,
            rw (
              read_at_lem 1 16 bytes (omega arith),
              handle_auth_login_proof_packet,
              fine,
              read_at_lem 2 2 bytes (omega arith),
              lie,
            ),
            no,
          )
          | inr honest ↦
              let room : 17 + n ≤ length bytes = ground arith in
              elim (Bool-cases (not (all_alnum password))) [
                | inl odd ↦ (
                  refused b,
                  rw (
                    read_at_lem 1 16 bytes (omega arith),
                    handle_auth_login_proof_packet,
                    fine,
                    read_at_lem 2 2 bytes (omega arith),
                    honest,
                    slice_at_lem n 17 bytes room,
                    odd,
                  ),
                  no,
                )
                | inr good ↦
                    let (solved, v) =
                      verify_proof_of_work_lem env.sha256 a.data'.challenge answer
                        a.data'.difficulty s.bits in
                    let (o, e, h) =
                      judge_work-Handles password (of_bytes (take 4 (drop 12 bytes))) answer status
                        solved v in
                    (
                      o,
                      rw
                          (
                            read_at_lem 1 16 bytes (omega arith),
                            handle_auth_login_proof_packet,
                            fine,
                            read_at_lem 2 2 bytes (omega arith),
                            honest,
                            slice_at_lem n 17 bytes room,
                            good,
                            read_at_lem 8 4 bytes (omega arith),
                            read_at_lem 4 12 bytes (omega arith),
                            v,
                          )
                          e,
                      h,
                    )
              ]
        ]
      ]
