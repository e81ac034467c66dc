-- ===== src/World/Lookups.antt =====
-- The lookup of a greet code (src/NECROWorld/Server/Sockets/WorldSession.cpp,
-- `DBCallback_GreetcodeLookup`), and the reading that goes on after it.
use mathlib.Core.Path.{subst}
use necro_mmo.Common.{
  ℕ, ◌+◌, ◌≡◌, refl, Bool, true, false, not, Option, some, length, arith, Bool-cases, Option-cases,
  inl, inr, ◌==◌, ltb,
}
use necro_mmo.Aes.{Gcm}
use necro_mmo.Socket.{is_open}
use necro_mmo.World.{WorldSession, Env, rank, close_session, sessionkey_gathered}
use necro_mmo.World.Reading.{
  or_close, ActiveSession, take_session_key, db_callback_greetcode_lookup,
}
use necro_mmo.World.Sending.{is_fresh}
use necro_mmo.World.Rules.{Rules, Wires, count, none-OfAccount}
use necro_mmo.World.Waiting.{Read}
use necro_mmo.World.Loop.{async_read_callback-ReadBy}
use necro_mmo.World.Received.{IsValid, closed-IsValid, or_close-IsValid}

-- The key is taken, and what has arrived meanwhile is read.
take_session_key-IsValid :
    (gcm : Gcm) (env : ℕ → Env) (row : ActiveSession) (a : WorldSession)
    → IsValid a
    → rank a.status ≡ 1
    → count 1 a.posted ≡ 0
    → is_open a.socket ≡ true
    → (b : WorldSession) × (ok : Bool) × (take_session_key gcm env row a ≡ some (b, ok)) × IsValid b
unfolding take_session_key
take_session_key-IsValid gcm env row a h one answered alive =
    let still = h.waits one in
    let r = h.rules in
    let rules : Rules (record a { data' = record a.data' { account_id = row.account_id } }) =
      record {
        lookups = r.lookups;
        enters = r.enters;
        exits = r.exits;
        early = r.early;
        owned = none-OfAccount row.account_id a.posted (r.early (omega arith));
        holds = r.holds;
        inside = r.inside;
        known = r.known;
        apart = r.apart;
        registered = r.registered;
      } in
    let b : WorldSession = record a { data' = record a.data' { account_id = row.account_id } } in
    let bw : Wires b = record {
      flows = h.wires.flows;
      buffer = h.wires.buffer;
      plain = h.wires.plain;
    } in
    let c : WorldSession = record b {
      data' = record b.data' { session_key = row.session_key };
      status = sessionkey_gathered;
    } in
    elim (Bool-cases (not (length row.session_key == 16))) [
      | inl odd ↦ (
        close_session b,
        false,
        rw odd,
        closed-IsValid b (record {
          rules = rules;
          wires = bw;
          quiet = h.quiet;
          fresh = h.fresh;
          waits = h.waits;
        }),
      )
      | inr right ↦
          let (d, ok, done, read) =
            async_read_callback-ReadBy gcm env c
              (record {
                rules = record {
                  lookups = ground (arith, r.lookups);
                  enters = ground (arith, r.enters);
                  exits = ground (arith, r.exits);
                  early = λ k. r.early (omega arith);
                  owned = rules.owned;
                  holds = λ k. absurd (omega (arith, r.holds k));
                  inside = λ k. absurd (omega arith);
                  known = λ k. absurd (omega arith);
                  apart = λ k. absurd (omega arith);
                  registered = ground (arith, r.registered);
                };
                wires = record { flows = bw.flows; buffer = bw.buffer; plain = bw.plain };
                no_text = h.quiet (inl alive);
              })
              (λ k. absurd (omega arith)) still in
          (
            (or_close (d, ok)).0,
            ok,
            rw (right, done) (or_close_result d ok),
            or_close-IsValid (is_fresh a.socket.underlying_state) 2 d ok
                (λ k. absurd (omega (arith, (h.fresh k).0)))
                (subst (λ x. Read (x, is_fresh a.socket.underlying_state, 2) d ok) still read),
          )
    ]
  where
    or_close_result :
        (d : WorldSession) (ok : Bool) → some (or_close (d, ok)) ≡ some ((or_close (d, ok)).0, ok)
    or_close_result d true = refl
    or_close_result d false = refl

-- The answer to the lookup of a greet code leaves the session valid, whatever has arrived meanwhile.
pub db_callback_greetcode_lookup-IsValid :
    (gcm : Gcm) (env : ℕ → Env) (time : ℕ) (err : Bool) (row : Option ActiveSession)
    (a : WorldSession)
    → IsValid a
    → rank a.status ≡ 1
    → count 1 a.posted ≡ 0
    → (b : WorldSession) × (ok : Bool) × (db_callback_greetcode_lookup gcm env time err row a
        ≡ some (b, ok))
      × IsValid b
unfolding db_callback_greetcode_lookup
db_callback_greetcode_lookup-IsValid gcm env time err row a h one answered =
    elim (Bool-cases (is_open a.socket)) [
      | inr shut ↦ (a, false, rw (db_callback_greetcode_lookup, shut), h)
      | inl alive ↦ elim (Bool-cases err) [
        | inl failed ↦ (
          close_session a,
          false,
          rw (db_callback_greetcode_lookup, alive, failed),
          closed-IsValid a h,
        )
        | inr fine ↦ elim (Option-cases row) [
          | inl missing ↦ (
            close_session a,
            false,
            rw (db_callback_greetcode_lookup, alive, fine, missing),
            closed-IsValid a h,
          )
          | inr (r, found) ↦ elim (Bool-cases (ltb (r.start_time + 30) time)) [
            | inl old ↦ (
              close_session a,
              false,
              rw (db_callback_greetcode_lookup, alive, fine, found, old),
              closed-IsValid a h,
            )
            | inr fresh ↦
                let (b, ok, done, v) = take_session_key-IsValid gcm env r a h one answered alive in
                (b, ok, rw (db_callback_greetcode_lookup, alive, fine, found, fresh) done, v)
          ]
        ]
      ]
    ]
