-- ===== src/Sessions.antt =====
-- `SessionManager` (src/NECROWorld/Server/Managers/SessionManager.h): the sessions that are logged
-- in, by account. Each method runs under the manager's mutex, so that a call is one step. A session
-- is its serial, and what the weak pointer of its slot leads to is an argument.
use necro_mmo.Common.{
  ℕ, ◌+◌, ◌-◌, ◌%◌, ◌^◌, ◌≡◌, ◌≢◌, refl, sym, Bool, true, false, not, Option, none, some, ◌==◌,
  if◌then◌else◌, length, arith, Option-cases, Bool-cases, inl, inr,
}
use necro_mmo.Common.Dict.{
  Dict, lookup, insert, erase, Distinct, lookup-insert, lookup-erase_self, lookup-erase_ne,
  insert-Distinct, erase-Distinct, length-insert_new, length-erase,
}

-- The slots hold the serials.
pub record SessionManager : Type 0 where
  pub sessions : Dict ℕ
  pub player_count : ℕ

-- `RegisterSession` with the serial of a session, or none for a null pointer; `alive` says whether the
-- session of the account's old slot still is. It gives the serial of the session to kick too.
unfoldable pub register_session :
    ℕ → Option ℕ → Bool → SessionManager → SessionManager × Option ℕ × Bool
register_session account none alive m = (m, none, false)
register_session account (some serial) alive m = elim (lookup account m.sessions) [
  | none ↦ (
    record {
      sessions = insert account serial m.sessions;
      player_count = (m.player_count + 1) % 2 ^ 32;
    },
    none,
    true,
  )
  | some old ↦ (
    record {
      sessions = insert account serial (erase account m.sessions);
      player_count = ((m.player_count + 2 ^ 32 - 1) % 2 ^ 32 + 1) % 2 ^ 32;
    },
    (if alive then some old else none),
    true,
  )
]

-- `UnregisterSession`.
unfoldable pub unregister_session : ℕ → ℕ → SessionManager → SessionManager × Bool
unregister_session account serial m = elim (lookup account m.sessions) [
  | none ↦ (m, false)
  | some owner ↦ if not (owner == serial) then (m, false) else (
    record {
      sessions = erase account m.sessions;
      player_count = (m.player_count + 2 ^ 32 - 1) % 2 ^ 32;
    },
    true,
  )
]

-- No account has two slots, and the counter counts them.
pub record IsValid (m : SessionManager) : Type 0 where
  pub distinct : Distinct m.sessions
  pub counted : m.player_count ≡ length m.sessions % 2 ^ 32

-- A registration keeps the manager valid. The account's slot is the new session's, every other slot
-- stays, and the session that is kicked is the one that held the slot.
pub register_session-IsValid :
    (account serial : ℕ) (alive : Bool) (m : SessionManager)
    → IsValid m
    → let (m', kicked, done) = register_session account (some serial) alive m in
      IsValid m'
      × (done ≡ true)
      × (lookup account m'.sessions ≡ some serial)
      × ((other : ℕ) → other ≢ account → lookup other m'.sessions ≡ lookup other m.sessions)
      × (kicked ≡ (if alive then lookup account m.sessions else none))
unfolding register_session
register_session-IsValid account serial alive m v =
    elim (Option-cases (lookup account m.sessions)) [
      | inl free ↦
          rw (free, register_session)
            (
              record {
                distinct = insert-Distinct account serial m.sessions v.distinct;
                counted =
                    omega (arith, length-insert_new account serial m.sessions free, v.counted);
              },
              refl,
              ground (arith, lookup-insert account account serial m.sessions),
              λ other ne. ground (arith, lookup-insert account other serial m.sessions),
              ground arith,
            )
      | inr (old, taken) ↦
          let rest = erase account m.sessions in
          rw (taken, register_session)
            (
              record {
                distinct =
                    insert-Distinct account serial rest
                      (erase-Distinct account m.sessions v.distinct);
                counted = omega (
                  arith,
                  length-insert_new account serial rest
                      (lookup-erase_self account m.sessions v.distinct),
                  length-erase account old m.sessions taken,
                  v.counted,
                );
              },
              refl,
              ground (arith, lookup-insert account account serial rest),
              λ other ne. ground (
                arith,
                lookup-insert account other serial rest,
                lookup-erase_ne account other m.sessions,
              ),
              refl,
            )
    ]

-- Only the session that holds an account's slot gives it up: then the manager is valid, and the
-- account has no slot. A destructor that comes late, of a session whose slot has gone to another,
-- changes nothing.
pub unregister_session-IsValid :
    (account serial : ℕ) (m : SessionManager)
    → IsValid m
    → let (m', done) = unregister_session account serial m in
      IsValid m'
      × (lookup account m.sessions ≡ some serial
          → (done ≡ true) × (lookup account m'.sessions ≡ none))
      × (lookup account m.sessions ≢ some serial → (done ≡ false) × (m' ≡ m))
      × ((other : ℕ) → other ≢ account → lookup other m'.sessions ≡ lookup other m.sessions)
unfolding unregister_session
unregister_session-IsValid account serial m v = elim (Option-cases (lookup account m.sessions)) [
  | inl free ↦ rw (free, unregister_session) (v, λ e. cc, λ _. (refl, refl), λ _ _. refl)
  | inr (owner, taken) ↦ elim (Bool-cases (not (owner == serial))) [
    | inl other ↦
        rw (taken, unregister_session, other)
          (v, λ e. absurd (ground arith), λ _. (refl, refl), λ _ _. refl)
    | inr same ↦
        rw (taken, unregister_session, same)
          (
            record {
              distinct = erase-Distinct account m.sessions v.distinct;
              counted = omega (arith, length-erase account owner m.sessions taken, v.counted);
            },
            λ _. (refl, lookup-erase_self account m.sessions v.distinct),
            λ ne. absurd (ne (ground arith)),
            λ k ne. lookup-erase_ne account k m.sessions (λ e. ne (sym e)),
          )
  ]
]
