-- ===== src/Auth/Session.antt =====
-- The whole read loop of a login session (src/NECROAuth/Server/Auth/AuthSession.cpp).
use mathlib.Core.Path.{subst}
use necro_mmo.Common.{
  ℕ, zero, suc, ◌+◌, ◌≤◌, ◌≡◌, ◌⊎◌, sym, ap, ◌∙◌, Bool, true, false, Option, some, List, length,
  arith, inl, inr, All,
}
use necro_mmo.Message as Message
use necro_mmo.Socket.{Socket}
use necro_mmo.Auth.{AuthSession}
use necro_mmo.Auth.Progress.{Asked, Progress}
use necro_mmo.Auth.Handlers.{Env}
use necro_mmo.Auth.Reading.{
  Round, again, over, failed, read_round, read_loop, async_read_callback, rounds,
}
use necro_mmo.Auth.Loop.{IsValid, Runs, Done, Runs-refl, Progress-trans}
use necro_mmo.Auth.Rounds.{read_round-DoneBy}
use necro_mmo.Socket.Receiving.{async_read_lem}

-- The socket's buffer and flags are no part of the progress.
Progress-socket :
    (sha256 : List ℕ → Option (List ℕ)) (a b : AuthSession) (t : Socket)
    → t.out_queue ≡ b.socket.out_queue
    → t.async_writing ≡ b.socket.async_writing
    → Progress sha256 a b
    → Progress sha256 a (record b { socket = t })
Progress-socket sha256 a b t queue writing p = record {
  sound = record {
    flows = record {
      idle = λ e. queue ∙ p.sound.flows.idle (sym writing ∙ e);
      busy = λ e. omega (arith, p.sound.flows.busy (sym writing ∙ e), ap length queue);
      valid = subst (All Message.IsValid) (sym queue) p.sound.flows.valid;
    };
    bits = p.sound.bits;
    named = p.sound.named;
  };
  forward = p.forward;
  kept_out = p.kept_out;
  still = p.still;
  asked = asked' p.asked;
}
  where
    asked' :
        (b.posted ≡ a.posted) ⊎ Asked sha256 a b
        → (b.posted ≡ a.posted) ⊎ Asked sha256 a (record b { socket = t })
    asked' (inl e) = inl e
    asked' (inr x) = inr (record {
      answer = x.answer;
      solved = x.solved;
      posted = x.posted;
      pending = x.pending;
      before = x.before;
    })

-- What a run of the loop gives.
abbrev Ends : (List ℕ → Option (List ℕ)) → AuthSession → Option (AuthSession × Bool) → Type 0
Ends sha256 a r =
    (b : AuthSession) × (go : Bool) × (r ≡ some (b, go)) × Runs sha256 a b × (go ≡ true → IsValid b)

read_loop-Ends :
    (fuel : ℕ) (env : Env) (a : AuthSession)
    → IsValid a
    → 4 ≤ fuel + a.packets_processed
    → Ends env.sha256 a (read_loop fuel env a)
unfolding read_loop
read_loop-Ends zero env a v enough = absurd (omega (arith, v.few))
read_loop-Ends (suc fuel) env a v enough =
    let (o, e, d) = read_round-DoneBy env a v in from (λ b. read_loop-Ends fuel env b) o e d
  where
    from :
        ((b : AuthSession)
          → IsValid b
          → 4 ≤ fuel + b.packets_processed
          → Ends env.sha256 b (read_loop fuel env b))
        → (o : Round) → read_round env a ≡ some o
        → Done env.sha256 a o
        → Ends env.sha256 a (read_loop (suc fuel) env a)
    from next (again b) e (runs, counted, few) =
        let (c, go, e', runs', valid) =
          next b (record { sound = runs.progress.sound; buffer = runs.buffer; few = few })
            (omega (arith, counted)) in
        (
          c,
          go,
          rw (e, read_loop) e',
          record {
            progress = Progress-trans env.sha256 a b c runs.progress runs'.progress;
            buffer = runs'.buffer;
            few = runs'.few;
          },
          valid,
        )
    from next (over b) e same =
        let v' = subst IsValid (sym same) v in
        let runs = subst (λ x. Runs env.sha256 a x) (sym same) (Runs-refl env.sha256 a v) in
        let (t, e', vt, queue, writing) = async_read_lem b.socket v'.buffer in
        let p = Progress-socket env.sha256 a b t queue writing runs.progress in
        (
          record b { socket = t },
          true,
          rw (e, read_loop, e'),
          record { progress = p; buffer = vt; few = runs.few },
          λ _. record { sound = p.sound; buffer = vt; few = v'.few },
        )
    from next (failed b) e runs = (b, false, rw (e, read_loop), runs, λ k. cc)

-- The read callback of a valid session, whatever bytes the client has sent: it ends, within five
-- rounds, and no handler reads a byte that has not arrived. The session only moves forward in its
-- login, and no packet makes it authenticated. The database is asked for an account at most once,
-- only after the session's challenge was solved. While the callback returns 0 the session is valid.
pub async_read_callback-Runs :
    (env : Env) (a : AuthSession)
    → IsValid a
    → (b : AuthSession) × (go : Bool) × (async_read_callback env a ≡ some (b, go))
      × Runs env.sha256 a b
      × (go ≡ true → IsValid b)
unfolding async_read_callback
async_read_callback-Runs env a v = read_loop-Ends rounds env a v (omega arith)
