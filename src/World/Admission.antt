-- ===== src/World/Admission.antt =====
-- Who gets a session key, and who a player
-- (src/NECROWorld/Server/Sockets/WorldSession.cpp, `DBCallback_GreetcodeLookup`, and
-- Handlers/PlayerHandlers.cpp, `DBCallback_HandleEnterWorldChecks`).
use necro_mmo.Common.{
  ℕ, ◌+◌, ◌≤◌, ◌≡◌, ◌≢◌, refl, sym, ap, ◌∙◌, Bool, true, false, not, Option, some, some_unique,
  Option-cases, [], ◌∷◌, ◌++◌, length, arith, Bool-cases, inl, inr, ◌==◌, ltb,
}
use necro_mmo.Aes.{Gcm}
use necro_mmo.Queue as Queue
use necro_mmo.Socket.{is_open}
use necro_mmo.World.{WorldSession, Env, rank, close_session, spawn_player}
use necro_mmo.World.Reading.{ActiveSession, take_session_key, db_callback_greetcode_lookup}
use necro_mmo.World.Answers.{Character}
use necro_mmo.World.Answers.Entry.{entering_data}

-- A row that lets its session in, at the time `time`.
pub record Admits (time : ℕ) (row : Option ActiveSession) : Type 0 where
  pub session : ActiveSession
  pub found : row ≡ some session
  pub fresh : time ≤ session.start_time + 30
  pub whole_key : length session.session_key ≡ 16

-- A session that waits for its key gets on only if it is open, the query has not failed, and there is a
-- row for its greet code that is at most 30 seconds old and has a key of 16 bytes.
pub db_callback_greetcode_lookup-Admits :
    (gcm : Gcm) (env : ℕ → Env) (time : ℕ) (err : Bool) (row : Option ActiveSession)
    (a b : WorldSession) (ok : Bool)
    → rank a.status ≡ 1
    → db_callback_greetcode_lookup gcm env time err row a ≡ some (b, ok)
    → rank b.status ≢ 1
    → (is_open a.socket ≡ true) × (err ≡ false) × Admits time row
unfolding db_callback_greetcode_lookup take_session_key
db_callback_greetcode_lookup-Admits gcm env time err row a b ok one e on =
    elim (Bool-cases (is_open a.socket)) [
      | inr shut ↦ absurd (stays a (rw (shut, db_callback_greetcode_lookup) refl) one)
      | inl alive ↦ elim (Bool-cases err) [
        | inl failed ↦
            absurd
              (stays (close_session a) (rw (alive, failed, db_callback_greetcode_lookup) refl) one)
        | inr fine ↦ elim (Option-cases row) [
          | inl missing ↦ absurd (
              stays (close_session a) (rw (alive, fine, missing, db_callback_greetcode_lookup) refl)
                one)
          | inr (r, found) ↦ elim (Bool-cases (ltb (r.start_time + 30) time)) [
            | inl old ↦ absurd (
                stays (close_session a)
                  (rw (alive, fine, found, old, db_callback_greetcode_lookup) refl) one)
            | inr fresh ↦ elim (Bool-cases (not (length r.session_key == 16))) [
              | inl odd ↦ absurd (
                  stays
                    (close_session
                      (record a { data' = record a.data' { account_id = r.account_id } }))
                    (rw (alive, fine, found, fresh, odd, db_callback_greetcode_lookup) refl) one)
              | inr whole ↦ (
                alive,
                fine,
                record {
                  session = r;
                  found = found;
                  fresh = ground arith;
                  whole_key = ground arith;
                },
              )
            ]
          ]
        ]
      ]
    ]
  where
    stays :
        (c : WorldSession)
        → db_callback_greetcode_lookup gcm env time err row a ≡ some (c, false)
        → rank c.status ≡ 1
        → ⊥
    stays c e' k =
        let same : (c, false) ≡ (b, ok) =
          some_unique (db_callback_greetcode_lookup gcm env time err row a) (c, false) (b, ok) e'
            e in
        on (ap (λ x. rank x.0.status) (sym same) ∙ k)

-- What the check of an entry may post: nothing, or the spawn of the account's own character.
pub record Spawns (row : Option (ℕ × Character)) (id : ℕ) (a b : WorldSession) : Type 0 where
  pub character : Character
  pub own : row ≡ some (a.data'.account_id, character)
  pub posted : b.posted ≡ a.posted ++ spawn_player (entering_data id character) ∷ []
  pub waits : b.status ≡ a.status
  pub emptied : b.player_packet_queue ≡ []
