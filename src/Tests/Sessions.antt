-- ===== src/Tests/Sessions.antt =====
-- The theorems on the session manager, with one session of the account 4.
use necro_mmo.Common.{ℕ, ◌≡◌, ◌≢◌, refl, true, false, none, some, [], ◌∷◌, if◌then◌else◌}
use necro_mmo.Common.Dict.{lookup}
use necro_mmo.Sessions.{
  SessionManager, IsValid, register_session, unregister_session, register_session-IsValid,
  unregister_session-IsValid,
}

abbrev manager : SessionManager
manager = record { sessions = (4, 100) ∷ []; player_count = 1 }

manager-IsValid : IsValid manager
manager-IsValid = record { distinct = (refl, tt); counted = refl }

register_session-IsValid_example :
    let (m', kicked, done) = register_session 4 (some 200) true manager in
    IsValid m'
    × (done ≡ true)
    × (lookup 4 m'.sessions ≡ some 200)
    × ((other : ℕ) → other ≢ 4 → lookup other m'.sessions ≡ lookup other manager.sessions)
    × (kicked ≡ (if true then lookup 4 manager.sessions else none))
register_session-IsValid_example = register_session-IsValid 4 200 true manager manager-IsValid

unregister_session-IsValid_example :
    let (m', done) = unregister_session 4 99 manager in
    IsValid m'
    × (lookup 4 manager.sessions ≡ some 99 → (done ≡ true) × (lookup 4 m'.sessions ≡ none))
    × (lookup 4 manager.sessions ≢ some 99 → (done ≡ false) × (m' ≡ manager))
    × ((other : ℕ) → other ≢ 4 → lookup other m'.sessions ≡ lookup other manager.sessions)
unregister_session-IsValid_example = unregister_session-IsValid 4 99 manager manager-IsValid
