-- ===== src/Auth/Reached.antt =====
-- The login of a session as a whole (src/NECROAuth/Server/Auth/AuthSession.cpp): who can become
-- authenticated.
use mathlib.Core.Path.{subst}
use necro_mmo.Common.{
  ℕ, zero, suc, ◌≤◌, ◌≡◌, ◌≢◌, Bool, true, false, Option, some, List, [], ◌∷◌, length, get_elem?,
  All,
}
use necro_mmo.Message.{remaining_space}
use necro_mmo.Auth.{AuthSession, rank, make_session, Request, credentials_check, verify_password}
use necro_mmo.Auth.Handlers.{Env}
use necro_mmo.Auth.Reading.{internal_read_callback}
use necro_mmo.Auth.Results.{
  Draws, fake_hash, fake_pass, db_callback_auth_login_proof_packet, handle_password_hash_result,
}
use necro_mmo.Auth.Login.{Meant, Solved, Login, joined-Login}
use necro_mmo.Auth.Login.Packets.{read-Login}
use necro_mmo.Auth.Login.Answers.{found-Login, checked-Login}

-- SHA-256, `crypto_pwhash_str_verify`, and the database's table of accounts.
module _ (sha256 : List ℕ → Option (List ℕ)) (verify : List ℕ → List ℕ → Bool)
    (accounts : List ℕ → Option (ℕ × List ℕ)) where
  -- What happens to a session: bytes arrive while its packets are within the limit, the database
  -- answers a query that the session has posted, and the crypto threads answer a check that it has
  -- posted.
  pub data Reached : AuthSession → Type 0 where
    joined : (prefix : ℕ) → Reached (make_session prefix)
    read :
        {a b : AuthSession}
        → (env : Env) (bytes : List ℕ) → env.sha256 ≡ sha256
        → Reached a
        → a.packets_processed ≤ 3
        → length bytes ≤ remaining_space a.socket.in_buffer
        → internal_read_callback (some bytes) env a ≡ some b
        → Reached b
    found :
        {a : AuthSession}
        → (now i : ℕ) (err : Bool) (name : List ℕ) → Reached a
        → get_elem? a.posted i ≡ some (credentials_check name)
        → Reached (db_callback_auth_login_proof_packet now err (accounts name) a).0
    checked :
        {a b : AuthSession}
        → (i : ℕ) (hash pass : List ℕ) (prevent_log : Bool) (draws : Draws) (has_room done : Bool)
        → Reached a
        → get_elem? a.posted i ≡ some (verify_password hash pass prevent_log)
        → handle_password_hash_result (verify hash pass) prevent_log draws has_room a
          ≡ some (b, done)
        → Reached b

  All-get_elem? :
      (P : Request → Type 0) (rs : List Request) (i : ℕ) (r : Request)
      → All P rs
      → get_elem? rs i ≡ some r
      → P r × (rs ≢ [])
  All-get_elem? P [] i r h e = cc
  All-get_elem? P (x ∷ rs) zero r h e = let same : x ≡ r = cc in (subst P same h.0, λ k. cc)
  All-get_elem? P (x ∷ rs) (suc i) r h e = ((All-get_elem? P rs i r h.1 e).0, λ k. cc)

  Reached-Login : (a : AuthSession) → Reached a → Login sha256 verify accounts a
  Reached-Login b (joined prefix) = joined-Login sha256 verify accounts prefix
  Reached-Login b (read {a} env bytes hash r few room e) =
      read-Login sha256 verify accounts env bytes a b hash (Reached-Login a r) few room e
  Reached-Login b (found {a} now i err name r posted) =
      let l = Reached-Login a r in
      let (own, n) =
        All-get_elem? (Meant sha256 verify accounts a.data') a.posted i (credentials_check name)
          l.meant posted in
      found-Login sha256 verify accounts now err name a l n own
  Reached-Login b (checked {a} i hash pass prevent_log draws has_room done r posted e) =
      let l = Reached-Login a r in
      let (m, n) =
        All-get_elem? (Meant sha256 verify accounts a.data') a.posted i
          (verify_password hash pass prevent_log) l.meant posted in
      checked-Login sha256 verify accounts hash pass prevent_log draws has_room done a b l n m e

  -- A session that is authenticated has solved its own challenge, and its name is that of an account
  -- of the database whose password hash the crypto threads have verified; the account id is that of
  -- the row. This holds for whatever bytes the client sends, in whatever order the answers come, as
  -- long as the fixed password does not verify against the fixed hash.
  pub authenticated_lem :
      (a : AuthSession)
      → verify fake_hash fake_pass ≡ false
      → Reached a
      → 5 ≤ rank a.status
      → Solved sha256 verify accounts a.data'
        × ((id : ℕ) × (hash pass : List ℕ) × (accounts a.data'.username ≡ some (id, hash))
            × (a.data'.account_id ≡ id)
            × (verify hash pass ≡ true))
  authenticated_lem a apart r h =
      let l = Reached-Login a r in
      let (hash, pass, prevent, m, right) = l.proved h in
      (l.solved h, account hash pass prevent m right)
    where
      account :
          (hash pass : List ℕ) (prevent : Bool)
          → Meant sha256 verify accounts a.data' (verify_password hash pass prevent)
          → verify hash pass ≡ true
          → (id : ℕ) × (hash pass : List ℕ) × (accounts a.data'.username ≡ some (id, hash))
            × (a.data'.account_id ≡ id)
            × (verify hash pass ≡ true)
      account hash pass true (eh, ep) right = absurd (cc (eh, ep, right, apart))
      account hash pass false (id, row, own) right = (id, hash, pass, row, own, right)
