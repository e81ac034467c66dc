-- ===== src/Auth/Login/Packets.antt =====
-- A login session after the packets of its client (src/NECROAuth/Server/Auth/AuthSession.cpp).
use mathlib.Core.Path.{subst}
use necro_mmo.Common.{
  ℕ, ◌≤◌, ◌≡◌, ◌≢◌, ◌⊎◌, refl, sym, ap, ◌∙◌, Bool, false, Option, some, leb, List, [], ◌∷◌, ◌++◌,
  length, arith, inl, inr, All, Bool-cases,
}
use necro_mmo.Message as Message
use necro_mmo.Message.{of_moved, remaining_space, write_completed}
use necro_mmo.Message.Stream.{write_completed-active}
use necro_mmo.Socket.{Socket, received, close_socket}
use necro_mmo.Auth.{AuthSession, rank, credentials_check}
use necro_mmo.Auth.Handlers.{Env}
use necro_mmo.Auth.Progress.{Asked, Progress}
use necro_mmo.Auth.Reading.{internal_read_callback}
use necro_mmo.Auth.Session.{async_read_callback-Runs}
use necro_mmo.Auth.Login.{Meant, Solved, Verified, Login, Login-socket, closed-Login}

-- SHA-256, `crypto_pwhash_str_verify`, and the database's table of accounts.
module _ (sha256 : List ℕ → Option (List ℕ)) (verify : List ℕ → List ℕ → Bool)
    (accounts : List ℕ → Option (ℕ × List ℕ)) where
  -- After the packets of a client.
  Progress-Login :
      (a b : AuthSession)
      → Login sha256 verify accounts a
      → Progress sha256 a b
      → Message.IsValid b.socket.in_buffer
      → Login sha256 verify accounts b
  Progress-Login a b l p v = record {
    sound = p.sound;
    buffer = v;
    before = λ h. before' h p.asked;
    meant = meant' p.asked;
    asked = asked' p.asked;
    solved = λ h.
        subst (Solved sha256 verify accounts) (sym (same (omega (arith, p.kept_out h))))
          (l.solved (p.kept_out h));
    proved = λ h.
        subst (Verified sha256 verify accounts) (sym (same (omega (arith, p.kept_out h))))
          (l.proved (p.kept_out h));
  }
    where
      same : 4 ≤ rank a.status → b.data' ≡ a.data'
      same h = p.still h

      before' : rank b.status ≤ 3 → (b.posted ≡ a.posted) ⊎ Asked sha256 a b → b.posted ≡ []
      before' h (inl e) = e ∙ l.before (omega (arith, p.forward))
      before' h (inr x) = absurd (omega (arith, x.pending))

      meant' :
          (b.posted ≡ a.posted) ⊎ Asked sha256 a b
          → All (Meant sha256 verify accounts b.data') b.posted
      meant' (inl e) = elim (Bool-cases (leb 4 (rank a.status))) [
        | inl late ↦
            subst (λ d. All (Meant sha256 verify accounts d) b.posted) (sym (same (ground arith)))
              (subst (All (Meant sha256 verify accounts a.data')) (sym e) l.meant)
        | inr early ↦
            subst (All (Meant sha256 verify accounts b.data')) (sym (e ∙ l.before (ground arith)))
              tt
      ]
      meant' (inr x) =
          subst (All (Meant sha256 verify accounts b.data'))
            (sym (
              x.posted
              ∙ ap (λ q. q ++ credentials_check b.data'.username ∷ []) (l.before x.before)))
            (refl, tt)

      asked' :
          (b.posted ≡ a.posted) ⊎ Asked sha256 a b
          → b.posted ≢ []
          → Solved sha256 verify accounts b.data'
      asked' (inl e) n = elim (Bool-cases (leb 4 (rank a.status))) [
        | inl late ↦
            subst (Solved sha256 verify accounts) (sym (same (ground arith)))
              (l.asked (λ k. n (e ∙ k)))
        | inr early ↦ absurd (n (e ∙ l.before (ground arith)))
      ]
      asked' (inr x) n = (x.answer, x.solved)

  received_lem :
      (bytes : List ℕ) (t : Socket)
      → Message.IsValid t.in_buffer
      → length bytes ≤ remaining_space t.in_buffer
      → (u : Socket) × (received bytes t ≡ some u)
        × Message.IsValid u.in_buffer
        × (u.out_queue ≡ t.out_queue)
        × (u.async_writing ≡ t.async_writing)
  unfolding received
  received_lem bytes t v room =
      let (m, e, vm, _) = write_completed-active bytes t.in_buffer v room in
      (record t { in_buffer = m; reading = false }, rw (e, received), vm, refl, refl)

  pub read-Login :
      (env : Env) (bytes : List ℕ) (a b : AuthSession)
      → env.sha256 ≡ sha256
      → Login sha256 verify accounts a
      → a.packets_processed ≤ 3
      → length bytes ≤ remaining_space a.socket.in_buffer
      → internal_read_callback (some bytes) env a ≡ some b
      → Login sha256 verify accounts b
  unfolding internal_read_callback
  read-Login env bytes a b hash l few room e =
      let (u, eu, vu, queue, writing) = received_lem bytes a.socket l.buffer room in
      let c : AuthSession = record a { socket = u } in
      let lc : Login sha256 verify accounts c =
        Login-socket sha256 verify accounts a u queue writing vu l in
      let (d, go, ed, runs, _) =
        async_read_callback-Runs env c (record { sound = lc.sound; buffer = vu; few = few }) in
      let ld = Progress-Login c d lc (subst (λ h. Progress h c d) hash runs.progress) runs.buffer in
      elim (Bool-cases go) [
        | inl on ↦
            let computed : internal_read_callback (some bytes) env a ≡ some d =
              rw (eu, internal_read_callback, ed, on) in
            let same : d ≡ b = cc in subst (Login sha256 verify accounts) same ld
        | inr off ↦
            let computed : internal_read_callback (some bytes) env a
                ≡ some (record d { socket = close_socket d.socket }) =
              rw (eu, internal_read_callback, ed, off) in
            let same : record d { socket = close_socket d.socket } ≡ b = cc in
            subst (Login sha256 verify accounts) same (closed-Login sha256 verify accounts d ld)
      ]
