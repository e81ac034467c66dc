-- ===== src/Auth/Closing.antt =====
-- When a login session closes its connection
-- (src/NECROAuth/Server/Auth/AuthSession.cpp, `AsyncWriteCallback`).
use necro_mmo.Common.{
  ℕ, ◌≡◌, ◌≢◌, refl, ap, true, false, List, [], ◌∷◌, length, ◌==◌, arith, Bool-cases, inl, inr,
}
use necro_mmo.Message.{Message}
use necro_mmo.Socket.{Socket, is_open, close_socket, force_close_socket}
use necro_mmo.Auth.{async_write_callback, AuthSession}

pub closes : (s : Socket) → is_open (close_socket s) ≡ false
unfolding close_socket force_close_socket
closes s = ground arith

-- When a write has ended, a session that is to close does so if nothing is left to be sent, and else
-- leaves its connection as it is.
abbrev pub ClosesOnceSent : AuthSession → Type 0
ClosesOnceSent b =
    (now : ℕ) (s : Socket)
    → (s.out_queue ≡ []
        → is_open (async_write_callback now (record b { socket = s })).socket ≡ false)
      × (s.out_queue ≢ [] → (async_write_callback now (record b { socket = s })).socket ≡ s)

nothing_left : (q : List Message) → (length q == 0) ≡ true → q ≡ []
nothing_left [] e = refl
nothing_left (m ∷ q) e = absurd (ground arith)

pub flagged-ClosesOnceSent : (b : AuthSession) → b.close_after_send ≡ true → ClosesOnceSent b
unfolding async_write_callback
flagged-ClosesOnceSent b flag now s = elim (Bool-cases (length s.out_queue == 0)) [
  | inl all_sent ↦ (
    λ _. rw (flag, all_sent, async_write_callback) (closes s),
    λ k. absurd (k (nothing_left s.out_queue all_sent)),
  )
  | inr more ↦ (
    λ e. absurd (cc (more, ap (λ q. length q == 0) e)),
    λ _. rw (flag, more, async_write_callback) refl,
  )
]
