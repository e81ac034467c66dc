-- ===== src/Auth/Loop.antt =====
-- The read loop of the login server on a valid session
-- (src/NECROAuth/Server/Auth/AuthSession.cpp, `AsyncReadCallback`).
use mathlib.Core.Path.{subst}
use necro_mmo.Common.{
  ℕ, ◌+◌, ◌≤◌, ◌≡◌, ◌⊎◌, refl, sym, ap, ◌∙◌, true, Option, some, List, [], ◌∷◌, ◌++◌, length, arith,
  inl, inr,
}
use necro_mmo.Message as Message
use necro_mmo.Message.{
  active, active_size, clear, read_completed, compact_data, enlarge_buffer_if_needed,
}
use necro_mmo.Message.Stream.{read_completed-active}
use necro_mmo.Auth.{AuthSession, credentials_check}
use necro_mmo.Auth.Work.{verify_proof_of_work}
use necro_mmo.Auth.Progress.{Sound, Asked, Progress, Handled}
use necro_mmo.Auth.Handlers.{Outcome, accepted, refused, thrown}
use necro_mmo.Auth.Reading.{Round, again, over, failed, with_buffer, conclude}

-- The invariant of a session.
pub record IsValid (a : AuthSession) : Type 0 where
  pub sound : Sound a
  pub buffer : Message.IsValid a.socket.in_buffer
  pub few : a.packets_processed ≤ 3

-- What a part of the loop does to a session.
pub record Runs (sha256 : List ℕ → Option (List ℕ)) (a b : AuthSession) : Type 0 where
  pub progress : Progress sha256 a b
  pub buffer : Message.IsValid b.socket.in_buffer
  pub few : b.packets_processed ≤ 4

abbrev pub Done : (List ℕ → Option (List ℕ)) → AuthSession → Round → Type 0
Done sha256 a (again b) =
    Runs sha256 a b × (b.packets_processed ≡ a.packets_processed + 1) × (b.packets_processed ≤ 3)
Done sha256 a (over b) = b ≡ a
Done sha256 a (failed b) = Runs sha256 a b

abbrev pub DoneBy : (List ℕ → Option (List ℕ)) → AuthSession → Option Round → Type 0
DoneBy sha256 a r = (o : Round) × (r ≡ some o) × Done sha256 a o

-- The handler runs with the packet counted.
unfoldable pub counted : ℕ → AuthSession → AuthSession
counted n a = record a { packets_processed = n }

module _ (sha256 : List ℕ → Option (List ℕ)) where
  pub Progress-refl : (a : AuthSession) → Sound a → Progress sha256 a a
  Progress-refl a s = record {
    sound = s;
    forward = omega arith;
    kept_out = λ e. e;
    still = λ _. refl;
    asked = inl refl;
  }

  pub Runs-refl : (a : AuthSession) → IsValid a → Runs sha256 a a
  Runs-refl a v = record {
    progress = Progress-refl a v.sound;
    buffer = v.buffer;
    few = omega (arith, v.few);
  }

  -- The buffer is no part of the progress.
  Progress-with_buffer :
      (f : Message.Message → Message.Message) (a b : AuthSession)
      → Progress sha256 a b
      → Progress sha256 a (with_buffer f b)
  Progress-with_buffer f a b p = record {
    sound = record {
      flows = record {
        idle = p.sound.flows.idle;
        busy = p.sound.flows.busy;
        valid = p.sound.flows.valid;
      };
      bits = p.sound.bits;
      named = p.sound.named;
    };
    forward = p.forward;
    kept_out = p.kept_out;
    still = p.still;
    asked = asked' p.asked;
  }
    where
      asked' :
          (b.posted ≡ a.posted) ⊎ Asked sha256 a b
          → (b.posted ≡ a.posted) ⊎ Asked sha256 a (with_buffer f b)
      asked' (inl e) = inl e
      asked' (inr x) = inr (record {
        answer = x.answer;
        solved = x.solved;
        posted = x.posted;
        pending = x.pending;
        before = x.before;
      })

  pub cleared-Runs :
      (a b : AuthSession)
      → Progress sha256 a b
      → b.packets_processed ≤ 4
      → Runs sha256 a (with_buffer clear b)
  unfolding clear
  cleared-Runs a b p few = record {
    progress = Progress-with_buffer clear a b p;
    buffer = record { read_first = omega arith; inside = omega arith };
    few = few;
  }

  Progress-counted :
      (n : ℕ) (a b : AuthSession) → Progress sha256 (counted n a) b → Progress sha256 a b
  unfolding counted
  Progress-counted n a b p = record {
    sound = p.sound;
    forward = p.forward;
    kept_out = p.kept_out;
    still = p.still;
    asked = asked' p.asked;
  }
    where
      asked' :
          (b.posted ≡ a.posted) ⊎ Asked sha256 (counted n a) b
          → (b.posted ≡ a.posted) ⊎ Asked sha256 a b
      asked' (inl e) = inl e
      asked' (inr x) = inr (record {
        answer = x.answer;
        solved = x.solved;
        posted = x.posted;
        pending = x.pending;
        before = x.before;
      })

  pub conclude-Done :
      (size : ℕ) (a : AuthSession) (o : Outcome)
      → IsValid a
      → a.packets_processed ≤ 2
      → size ≤ length (active a.socket.in_buffer)
      → Handled sha256 (counted (a.packets_processed + 1) a) o
      → Done sha256 a (conclude size o)
  unfolding conclude counted
  conclude-Done size a (accepted b) v few fits h =
      let same : b.socket.in_buffer ≡ a.socket.in_buffer = h.buffer in
      let vm = subst Message.IsValid (sym same) v.buffer in
      (
        record {
          progress =
              Progress-with_buffer (read_completed size) a b
                (Progress-counted (a.packets_processed + 1) a b h.progress);
          buffer =
              (read_completed-active size b.socket.in_buffer vm
                (subst (λ m. size ≤ length (active m)) (sym same) fits)).0;
          few = omega (arith, h.packets);
        },
        h.packets,
        omega (arith, h.packets),
      )
  conclude-Done size a (refused b) v few fits h = record {
    progress = Progress-counted (a.packets_processed + 1) a b h.progress;
    buffer = subst Message.IsValid (sym h.buffer) v.buffer;
    few = omega (arith, h.packets);
  }
  conclude-Done size a (thrown b) v few fits h = record {
    progress = Progress-counted (a.packets_processed + 1) a b h.progress;
    buffer = subst Message.IsValid (sym h.buffer) v.buffer;
    few = omega (arith, h.packets);
  }

  pub Progress-trans :
      (a b c : AuthSession) → Progress sha256 a b → Progress sha256 b c → Progress sha256 a c
  Progress-trans a b c p q = record {
    sound = q.sound;
    forward = omega (arith, p.forward, q.forward);
    kept_out = λ e. p.kept_out (q.kept_out e);
    still = λ e. q.still (omega (arith, p.forward)) ∙ p.still e;
    asked = both p.asked q.asked;
  }
    where
      both :
          (b.posted ≡ a.posted) ⊎ Asked sha256 a b
          → (c.posted ≡ b.posted) ⊎ Asked sha256 b c
          → (c.posted ≡ a.posted) ⊎ Asked sha256 a c
      both (inl e) (inl e') = inl (e' ∙ e)
      both (inl e) (inr x) = inr (record {
        answer = x.answer;
        solved = x.solved;
        posted = x.posted ∙ ap (λ l. l ++ credentials_check c.data'.username ∷ []) e;
        pending = x.pending;
        before = omega (arith, p.forward, x.before);
      })
      both (inr x) (inl e') =
          let d = q.still x.pending in
          inr (record {
            answer = x.answer;
            solved =
                subst
                  (λ t. verify_proof_of_work sha256 t.challenge x.answer t.difficulty ≡ some true)
                  (sym d) x.solved;
            posted =
                e' ∙ (x.posted ∙ ap (λ t. a.posted ++ credentials_check t.username ∷ []) (sym d));
            pending = omega (arith, x.pending, q.forward);
            before = x.before;
          })
      both (inr x) (inr y) = absurd (omega (arith, x.pending, y.before))
