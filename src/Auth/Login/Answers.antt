-- ===== src/Auth/Login/Answers.antt =====
-- A login session after the answers of the database and of the crypto threads
-- (src/NECROAuth/Server/Auth/AuthSession.cpp).
use mathlib.Core.Path.{subst}
use necro_mmo.Common.{
  ℕ, ◌≤◌, ◌≡◌, ◌≢◌, refl, sym, ap, ◌∙◌, Bool, true, false, not, Option, none, some, leb, List, [],
  ◌∷◌, ◌++◌, arith, inl, inr, All, Bool-cases, Option-cases,
}
use necro_mmo.Socket.{close_socket, is_open}
use necro_mmo.Auth.{
  AuthSession, rank, Request, credentials_check, verify_password, log_wrong_password, new_session,
}
use necro_mmo.Auth.Results.{
  Draws, draw_prefix, refuse_login, accept_login, forget_password, authenticated_with,
  success_fields, fake_hash, fake_pass, db_callback_auth_login_proof_packet,
  handle_password_hash_result,
}
use necro_mmo.Auth.Login.{
  Meant, Verified, Login, closed-Login, append-Login, send_reply-Login, flagged-Login, known-Login,
}

-- SHA-256, `crypto_pwhash_str_verify`, and the database's table of accounts.
module _ (sha256 : List ℕ → Option (List ℕ)) (verify : List ℕ → List ℕ → Bool)
    (accounts : List ℕ → Option (ℕ × List ℕ)) where
  pub found-Login :
      (now : ℕ) (err : Bool) (name : List ℕ) (a : AuthSession)
      → Login sha256 verify accounts a
      → a.posted ≢ []
      → name ≡ a.data'.username
      → Login sha256 verify accounts
          (db_callback_auth_login_proof_packet now err (accounts name) a).0
  unfolding db_callback_auth_login_proof_packet
  found-Login now err name a l n own = elim (Bool-cases (not (is_open a.socket))) [
    | inl shut ↦ rw (db_callback_auth_login_proof_packet, shut) l
    | inr is_up ↦ elim (Bool-cases err) [
      | inl broken ↦
          rw (db_callback_auth_login_proof_packet, is_up, broken)
            (closed-Login sha256 verify accounts a l)
      | inr fine ↦
          let b = record a { last_activity = now } in
          let lb : Login sha256 verify accounts b =
            flagged-Login sha256 verify accounts a a.data'.pass a.close_after_send now l in
          elim (Option-cases (accounts name)) [
            | inl missing ↦
                rw (db_callback_auth_login_proof_packet, is_up, fine, missing)
                  (append-Login sha256 verify accounts b (verify_password fake_hash fake_pass true)
                    lb n (refl, refl))
            | inr ((id, hash), row) ↦
                let row' = ap accounts (sym own) ∙ row in
                rw (db_callback_auth_login_proof_packet, is_up, fine, row)
                  (append-Login sha256 verify accounts
                    (record b { data' = record b.data' { account_id = id } })
                    (verify_password hash a.data'.pass false)
                    (known-Login sha256 verify accounts b id hash lb row') n (id, row', refl))
          ]
    ]
  ]

  refused-Login :
      (prevent_log has_room : Bool) (a : AuthSession)
      → Login sha256 verify accounts a
      → a.posted ≢ []
      → (b : AuthSession) × (refuse_login prevent_log has_room a ≡ some b)
        × Login sha256 verify accounts b
  unfolding refuse_login
  refused-Login true has_room a l n =
      send_reply-Login sha256 verify accounts _ _
        (flagged-Login sha256 verify accounts a a.data'.pass true a.last_activity l)
  refused-Login false false a l n =
      send_reply-Login sha256 verify accounts _ _
        (flagged-Login sha256 verify accounts a a.data'.pass true a.last_activity l)
  refused-Login false true a l n =
      let b = record a { posted = a.posted ++ log_wrong_password a.data'.username ∷ [] } in
      send_reply-Login sha256 verify accounts _ _ (
        flagged-Login sha256 verify accounts b b.data'.pass true b.last_activity
          (append-Login sha256 verify accounts a (log_wrong_password a.data'.username) l n tt))

  -- The password is right.
  promoted-Login :
      (prefix : ℕ) (draws : Draws) (a : AuthSession)
      → Login sha256 verify accounts a
      → a.posted ≢ []
      → Verified sha256 verify accounts a.data'
      → Login sha256 verify accounts (authenticated_with prefix draws a)
  promoted-Login prefix draws a l n proof = record {
    sound = record { flows = l.sound.flows; bits = l.sound.bits; named = λ _. l.sound.named late };
    buffer = l.buffer;
    before = λ h. absurd (omega arith);
    meant = meant' a.posted l.meant;
    asked = l.asked;
    solved = λ _. l.asked n;
    proved = λ _. proved' proof;
  }
    where
      late : 3 ≤ rank a.status
      late = elim (Bool-cases (leb 3 (rank a.status))) [
        | inl is_late ↦ ground arith
        | inr early ↦ absurd (n (l.before (ground arith)))
      ]

      meant'' :
          (r : Request)
          → Meant sha256 verify accounts a.data' r
          → Meant sha256 verify accounts (authenticated_with prefix draws a).data' r
      meant'' (credentials_check name) m = m
      meant'' (verify_password h p true) m = m
      meant'' (verify_password h p false) m = m
      meant'' (log_wrong_password name) m = m
      meant'' (new_session i key greet) m = m

      meant' :
          (rs : List Request)
          → All (Meant sha256 verify accounts a.data') rs
          → All (Meant sha256 verify accounts (authenticated_with prefix draws a).data') rs
      meant' [] h = tt
      meant' (r ∷ rs) h = (meant'' r h.0, meant' rs h.1)

      proved' :
          Verified sha256 verify accounts a.data'
          → Verified sha256 verify accounts (authenticated_with prefix draws a).data'
      proved' (h, p, prevent, m, e) = (h, p, prevent, meant'' (verify_password h p prevent) m, e)

  accepted-Login :
      (draws : Draws) (has_room done : Bool) (a b : AuthSession)
      → Login sha256 verify accounts a
      → a.posted ≢ []
      → Verified sha256 verify accounts a.data'
      → accept_login draws has_room a ≡ some (b, done)
      → Login sha256 verify accounts b
  unfolding accept_login
  accepted-Login draws has_room done a b l n proof e =
      elim (Option-cases (draw_prefix a.data'.rand_iv_prefix draws.prefixes)) [
        | inl endless ↦
            let nothing : accept_login draws has_room a ≡ none = rw (accept_login, endless) in
            cc (nothing, e)
        | inr (prefix, drawn) ↦
            let c = authenticated_with prefix draws a in
            let lc = promoted-Login prefix draws a l n proof in
            elim (Bool-cases (not has_room)) [
              | inl full ↦
                  let computed : accept_login draws has_room a
                      ≡ some (record c { socket = close_socket c.socket }, false) =
                    rw (accept_login, drawn, full) in
                  let same : record c { socket = close_socket c.socket } ≡ b = cc (computed, e) in
                  subst (Login sha256 verify accounts) same
                    (closed-Login sha256 verify accounts c lc)
              | inr room ↦
                  let r = new_session c.data'.account_id draws.session_key draws.greet_code in
                  let (d, sent, ld) =
                    send_reply-Login sha256 verify accounts
                      (success_fields draws.session_key draws.greet_code)
                      (record c { posted = c.posted ++ r ∷ [] })
                      (append-Login sha256 verify accounts c r lc n tt) in
                  let computed : accept_login draws has_room a ≡ some (d, true) =
                    rw (accept_login, drawn, room, sent) in
                  let same : d ≡ b = cc (computed, e) in
                  subst (Login sha256 verify accounts) same ld
            ]
      ]

  pub checked-Login :
      (hash pass : List ℕ) (prevent_log : Bool) (draws : Draws) (has_room done : Bool)
      (a b : AuthSession)
      → Login sha256 verify accounts a
      → a.posted ≢ []
      → Meant sha256 verify accounts a.data' (verify_password hash pass prevent_log)
      → handle_password_hash_result (verify hash pass) prevent_log draws has_room a ≡ some (b, done)
      → Login sha256 verify accounts b
  unfolding handle_password_hash_result
  checked-Login hash pass prevent_log draws has_room done a b l n m e =
      let c = forget_password a in
      let lc : Login sha256 verify accounts c =
        flagged-Login sha256 verify accounts a [] a.close_after_send a.last_activity l in
      elim (Bool-cases (verify hash pass)) [
        | inr wrong ↦
            let (d, sent, ld) = refused-Login prevent_log has_room c lc n in
            let computed : handle_password_hash_result (verify hash pass) prevent_log draws has_room
                  a
                ≡ some (d, true) =
              rw (wrong, handle_password_hash_result, sent) in
            let same : d ≡ b = cc (computed, e) in subst (Login sha256 verify accounts) same ld
        | inl right ↦
            let computed : handle_password_hash_result (verify hash pass) prevent_log draws has_room
                  a
                ≡ accept_login draws has_room c =
              rw (right, handle_password_hash_result) in
            accepted-Login draws has_room done c b lc n
              (hash, pass, prevent_log, forgotten prevent_log m, right) (sym computed ∙ e)
      ]
    where
      forgotten :
          (prevent : Bool)
          → Meant sha256 verify accounts a.data' (verify_password hash pass prevent)
          → Meant sha256 verify accounts
              (forget_password a).data'
              (verify_password hash pass prevent)
      forgotten true x = x
      forgotten false x = x
