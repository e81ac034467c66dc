-- ===== src/Auth/Progress.antt =====
-- What a handler of the login server does to a valid session
-- (src/NECROAuth/Server/Auth/AuthSession.cpp).
use necro_mmo.Common.{
  ℕ, ◌≤◌, ◌<◌, ◌≡◌, ◌⊎◌, refl, true, Option, some, List, [], ◌∷◌, ◌++◌, map, length, arith,
  Bool-cases, Option-cases, inl, inr,
}
use necro_mmo.Packet.{Packet, Field, u8, u16}
use necro_mmo.Packet.Content.{write_fields-empty}
use necro_mmo.Message as Message
use necro_mmo.Message.{of_moved, active}
use necro_mmo.Message.Stream.{of_moved-active}
use necro_mmo.Socket.{Socket, queue_packet, async_write}
use necro_mmo.Socket.Sending.{Flows, queue_packet-Flows}
use necro_mmo.Auth.{AuthSession, login_attempt, credentials_check, rank}
use necro_mmo.Auth.Work.{verify_proof_of_work}
use necro_mmo.Auth.Handlers.{
  Env, Outcome, accepted, refused, thrown, all_alnum, send_reply, sent_with, send_challenge,
  identify, is_supported,
}

-- Between 1 and 16 letters and digits.
abbrev pub GoodName : List ℕ → Type 0
GoodName s = (all_alnum s ≡ true) × (0 < length s) × (length s ≤ 16)

-- The invariant of a session, but for its input buffer.
pub record Sound (a : AuthSession) : Type 0 where
  pub flows : Flows a.socket
  pub bits : a.data'.difficulty < 256
  pub named : 3 ≤ rank a.status → GoodName a.data'.username

-- The database was asked for the account, after the challenge was solved.
pub record Asked (sha256 : List ℕ → Option (List ℕ)) (a b : AuthSession) : Type 0 where
  pub answer : ℕ
  pub solved : verify_proof_of_work sha256 b.data'.challenge answer b.data'.difficulty ≡ some true
  pub posted : b.posted ≡ a.posted ++ credentials_check b.data'.username ∷ []
  pub pending : 4 ≤ rank b.status
  pub before : rank a.status ≤ 3

-- What the packets of a client may do to a session.
pub record Progress (sha256 : List ℕ → Option (List ℕ)) (a b : AuthSession) : Type 0 where
  pub sound : Sound b
  pub forward : rank a.status ≤ rank b.status
  pub kept_out : 5 ≤ rank b.status → 5 ≤ rank a.status
  pub still : 4 ≤ rank a.status → b.data' ≡ a.data'
  pub asked : (b.posted ≡ a.posted) ⊎ Asked sha256 a b

abbrev pub session_of : Outcome → AuthSession
session_of (accepted a) = a
session_of (refused a) = a
session_of (thrown a) = a

-- What a handler gives.
pub record Handled (sha256 : List ℕ → Option (List ℕ)) (a : AuthSession) (o : Outcome)
    : Type 0 where
  pub progress : Progress sha256 a (session_of o)
  pub buffer : (session_of o).socket.in_buffer ≡ a.socket.in_buffer
  pub packets : (session_of o).packets_processed ≡ a.packets_processed

abbrev pub Handles : (List ℕ → Option (List ℕ)) → AuthSession → Option Outcome → Type 0
Handles sha256 a r = (o : Outcome) × (r ≡ some o) × Handled sha256 a o

pub queue_packet-in_buffer :
    (m : Message.Message) (s : Socket) → (queue_packet m s).in_buffer ≡ s.in_buffer
unfolding queue_packet async_write
queue_packet-in_buffer m s =
    kick (record s { out_queue = s.out_queue ++ m ∷ [] }) (s.out_queue ++ m ∷ []) refl
  where
    kick :
        (t : Socket) (q : List Message.Message)
        → t.out_queue ≡ q
        → (async_write t).in_buffer ≡ t.in_buffer
    kick t [] e = rw (e, async_write)
    kick t (x ∷ q) e = elim (Bool-cases t.async_writing) [
      | inl on ↦ rw (e, async_write, on)
      | inr off ↦ rw (e, async_write, off)
    ]

-- A session with a reply in its queue.
abbrev pub replied : Packet → AuthSession → AuthSession
replied p a = record a { socket = queue_packet (of_moved p) a.socket }

pub sent_with_lem :
    (outcome : AuthSession → Outcome) (fields : List Field) (a : AuthSession)
    → (p : Packet) × (sent_with outcome fields a ≡ some (outcome (replied p a)))
unfolding send_reply
sent_with_lem outcome fields a =
    let (p, e, _, _) = write_fields-empty fields in (p, rw (e, send_reply))

pub replied-Flows : (p : Packet) (a : AuthSession) → Flows a.socket → Flows (replied p a).socket
replied-Flows p a f = (queue_packet-Flows (of_moved p) a.socket f (of_moved-active p).0).0

module _ (env : Env) (a : AuthSession) (s : Sound a) where
  -- A handler that only notes the time.
  pub refused-Handled : Handled env.sha256 a (refused (record a { last_activity = env.now }))
  refused-Handled = record {
    progress = record {
      sound = record { flows = s.flows; bits = s.bits; named = s.named };
      forward = omega arith;
      kept_out = λ e. e;
      still = λ _. refl;
      asked = inl refl;
    };
    buffer = refl;
    packets = refl;
  }

  pub identify-Handles :
      (name : List ℕ) (major minor revision : ℕ)
      → rank a.status ≡ 1
      → GoodName name
      → Handles env.sha256 a
          (identify env name major minor revision (record a { last_activity = env.now }))
  unfolding identify send_challenge
  identify-Handles name major minor revision status good =
      let b : AuthSession = record a {
        last_activity = env.now;
        data' = record a.data' {
          username = name;
          version_major = major;
          version_minor = minor;
          version_revision = revision;
        };
      } in
      elim (Bool-cases (is_supported env.settings major minor revision)) [
        | inr old ↦
            let c = record b { close_after_send = true } in
            let (p, e) = sent_with_lem accepted (u8 0 ∷ u8 1 ∷ u16 0 ∷ []) c in
            (
              accepted (replied p c),
              rw (old, identify) e,
              record {
                progress = record {
                  sound = record {
                    flows = replied-Flows p c s.flows;
                    bits = s.bits;
                    named = λ h. absurd (omega (arith, status));
                  };
                  forward = omega arith;
                  kept_out = λ h. absurd (omega (arith, status));
                  still = λ h. absurd (omega (arith, status));
                  asked = inl refl;
                };
                buffer = queue_packet-in_buffer (of_moved p) a.socket;
                packets = refl;
              },
            )
        | inl supported ↦ elim (Option-cases env.random_bytes) [
          | inl broken ↦ (
            thrown (record b { status = login_attempt }),
            rw (supported, identify, broken, send_challenge),
            record {
              progress = record {
                sound = record { flows = s.flows; bits = s.bits; named = λ _. good };
                forward = omega (arith, status);
                kept_out = λ h. absurd (omega arith);
                still = λ h. absurd (omega (arith, status));
                asked = inl refl;
              };
              buffer = refl;
              packets = refl;
            },
          )
          | inr (challenge, e) ↦
              let c = record b {
                status = login_attempt;
                data' = record b.data' { challenge = challenge; difficulty = 22 };
              } in
              let (p, e') =
                sent_with_lem accepted (u8 0 ∷ u8 0 ∷ u16 17 ∷ map u8 challenge ++ u8 22 ∷ []) c in
              (
                accepted (replied p c),
                rw (supported, identify, e, send_challenge) e',
                record {
                  progress = record {
                    sound = record {
                      flows = replied-Flows p c s.flows;
                      bits = omega arith;
                      named = λ _. good;
                    };
                    forward = omega (arith, status);
                    kept_out = λ h. absurd (omega arith);
                    still = λ h. absurd (omega (arith, status));
                    asked = inl refl;
                  };
                  buffer = queue_packet-in_buffer (of_moved p) a.socket;
                  packets = refl;
                },
              )
        ]
      ]
