-- ===== src/Auth/Login.antt =====
-- What a login session (src/NECROAuth/Server/Auth/AuthSession.cpp) has proved of its client, and what
-- keeps it.
pub mod Packets
pub mod Answers
use mathlib.Core.Path.{subst}
use necro_mmo.Common.{
  ℕ, zero, suc, ◌≤◌, ◌≡◌, ◌≢◌, ◌⊎◌, refl, sym, ap, ◌∙◌, Bool, true, false, not, Option, none, some,
  leb, List, [], ◌∷◌, ◌++◌, length, get_elem?, arith, inl, inr, All, Bool-cases, Option-cases,
}
use necro_mmo.Message as Message
use necro_mmo.Message.{of_moved, remaining_space, write_completed}
use necro_mmo.Message.Stream.{write_completed-active, of_moved-active}
use necro_mmo.Socket.{Socket, make_socket, queue_packet, received, close_socket, is_open}
use necro_mmo.Socket.Sending.{queue_packet-Flows}
use necro_mmo.Auth.{
  AuthSession, AccountData, rank, make_session, Request, credentials_check, verify_password,
  log_wrong_password, new_session,
}
use necro_mmo.Auth.Work.{verify_proof_of_work}
use necro_mmo.Auth.Handlers.{Env, send_reply}
use necro_mmo.Packet.{Field}
use necro_mmo.Packet.Content.{write_fields-empty}
use necro_mmo.Auth.Progress.{Sound, Asked, Progress, queue_packet-in_buffer}
use necro_mmo.Auth.Reading.{internal_read_callback}
use necro_mmo.Socket.Receiving.{close_socket_lem}
use necro_mmo.Auth.Session.{async_read_callback-Runs}
use necro_mmo.Auth.Results.{
  Draws, draw_prefix, refuse_login, accept_login, forget_password, authenticated_with,
  success_fields, fake_hash, fake_pass, db_callback_auth_login_proof_packet,
  handle_password_hash_result,
}

-- SHA-256, `crypto_pwhash_str_verify`, and the database's table of accounts.
module _ (sha256 : List ℕ → Option (List ℕ)) (verify : List ℕ → List ℕ → Bool)
    (accounts : List ℕ → Option (ℕ × List ℕ)) where
  -- A posted request is about the session's own account, or about the fixed password.
  abbrev pub Meant : AccountData → Request → Type 0
  Meant d (credentials_check name) = name ≡ d.username
  Meant d (verify_password hash pass true) = (hash ≡ fake_hash) × (pass ≡ fake_pass)
  Meant d (verify_password hash pass false) =
      (id : ℕ) × (accounts d.username ≡ some (id, hash)) × (d.account_id ≡ id)
  Meant d (log_wrong_password name) = Unit
  Meant d (new_session id key greet) = Unit

  abbrev pub Solved : AccountData → Type 0
  Solved d =
      (answer : ℕ) × (verify_proof_of_work sha256 d.challenge answer d.difficulty ≡ some true)

  abbrev pub Verified : AccountData → Type 0
  Verified d =
      (hash pass : List ℕ) × (prevent_log : Bool) × Meant d (verify_password hash pass prevent_log)
      × (verify hash pass ≡ true)

  -- The invariant of a login.
  pub record Login (a : AuthSession) : Type 0 where
    pub sound : Sound a
    pub buffer : Message.IsValid a.socket.in_buffer
    pub before : rank a.status ≤ 3 → a.posted ≡ []
    pub meant : All (Meant a.data') a.posted
    pub asked : a.posted ≢ [] → Solved a.data'
    pub solved : 5 ≤ rank a.status → Solved a.data'
    pub proved : 5 ≤ rank a.status → Verified a.data'

  pub joined-Login : (prefix : ℕ) → Login (make_session prefix)
  unfolding make_session make_socket Message.make
  joined-Login prefix = record {
    sound = record {
      flows = record { idle = λ _. refl; busy = λ e. cc; valid = tt };
      bits = omega arith;
      named = λ h. absurd (omega arith);
    };
    buffer = record { read_first = omega arith; inside = omega arith };
    before = λ _. refl;
    meant = tt;
    asked = λ n. absurd (n refl);
    solved = λ h. absurd (omega arith);
    proved = λ h. absurd (omega arith);
  }

  -- The socket is no part of the rest.
  pub Login-socket :
      (a : AuthSession) (t : Socket)
      → t.out_queue ≡ a.socket.out_queue
      → t.async_writing ≡ a.socket.async_writing
      → Message.IsValid t.in_buffer
      → Login a
      → Login (record a { socket = t })
  Login-socket a t queue writing v l = record {
    sound = record {
      flows = record {
        idle = λ e. queue ∙ l.sound.flows.idle (sym writing ∙ e);
        busy = λ e. omega (arith, l.sound.flows.busy (sym writing ∙ e), ap length queue);
        valid = subst (All Message.IsValid) (sym queue) l.sound.flows.valid;
      };
      bits = l.sound.bits;
      named = l.sound.named;
    };
    buffer = v;
    before = l.before;
    meant = l.meant;
    asked = l.asked;
    solved = l.solved;
    proved = l.proved;
  }

  pub closed-Login :
      (a : AuthSession) → Login a → Login (record a { socket = close_socket a.socket })
  closed-Login a l =
      let (buffer, queue, writing) = close_socket_lem a.socket in
      Login-socket a (close_socket a.socket) queue writing
        (subst Message.IsValid (sym buffer) l.buffer) l

  All-append_one :
      (P : Request → Type 0) (rs : List Request) (r : Request)
      → All P rs
      → P r
      → All P (rs ++ r ∷ [])
  All-append_one P [] r h p = (p, tt)
  All-append_one P (x ∷ rs) r h p = (h.0, All-append_one P rs r h.1 p)

  -- Another request of a session that has posted one.
  pub append-Login :
      (a : AuthSession) (r : Request)
      → Login a
      → a.posted ≢ []
      → Meant a.data' r
      → Login (record a { posted = a.posted ++ r ∷ [] })
  append-Login a r l n p = record {
    sound = record { flows = l.sound.flows; bits = l.sound.bits; named = l.sound.named };
    buffer = l.buffer;
    before = λ h. absurd (n (l.before h));
    meant = All-append_one (Meant a.data') a.posted r l.meant p;
    asked = λ _. l.asked n;
    solved = l.solved;
    proved = l.proved;
  }

  pub send_reply-Login :
      (fields : List Field) (a : AuthSession)
      → Login a
      → (b : AuthSession) × (send_reply fields a ≡ some b) × Login b
  unfolding send_reply
  send_reply-Login fields a l =
      let (p, e, _, _) = write_fields-empty fields in
      let t = queue_packet (of_moved p) a.socket in
      let (f, _, _) =
        queue_packet-Flows (of_moved p) a.socket l.sound.flows (of_moved-active p).0 in
      (
        record a { socket = t },
        rw (e, send_reply),
        record {
          sound = record { flows = f; bits = l.sound.bits; named = l.sound.named };
          buffer =
              subst Message.IsValid (sym (queue_packet-in_buffer (of_moved p) a.socket)) l.buffer;
          before = l.before;
          meant = l.meant;
          asked = l.asked;
          solved = l.solved;
          proved = l.proved;
        },
      )

  -- The flags, and the password, are no part of it.
  pub flagged-Login :
      (a : AuthSession) (pass : List ℕ) (close : Bool) (now : ℕ)
      → Login a
      → Login (record a {
        close_after_send = close;
        last_activity = now;
        data' = record a.data' { pass = pass };
      })
  flagged-Login a pass close now l = record {
    sound = record { flows = l.sound.flows; bits = l.sound.bits; named = l.sound.named };
    buffer = l.buffer;
    before = l.before;
    meant = meant' a.posted l.meant;
    asked = l.asked;
    solved = l.solved;
    proved = λ h. proved' (l.proved h);
  }
    where
      meant'' : (r : Request) → Meant a.data' r → Meant (record a.data' { pass = pass }) r
      meant'' (credentials_check name) m = m
      meant'' (verify_password hash p true) m = m
      meant'' (verify_password hash p false) m = m
      meant'' (log_wrong_password name) m = m
      meant'' (new_session id key greet) m = m

      meant' :
          (rs : List Request)
          → All (Meant a.data') rs
          → All (Meant (record a.data' { pass = pass })) rs
      meant' [] h = tt
      meant' (r ∷ rs) h = (meant'' r h.0, meant' rs h.1)

      proved' : Verified a.data' → Verified (record a.data' { pass = pass })
      proved' (hash, p, prevent, m, e) =
          (hash, p, prevent, meant'' (verify_password hash p prevent) m, e)

  -- The account's row is known.
  pub known-Login :
      (a : AuthSession) (id : ℕ) (hash : List ℕ)
      → Login a
      → accounts a.data'.username ≡ some (id, hash)
      → Login (record a { data' = record a.data' { account_id = id } })
  known-Login a id hash l row = record {
    sound = record { flows = l.sound.flows; bits = l.sound.bits; named = l.sound.named };
    buffer = l.buffer;
    before = l.before;
    meant = meant' a.posted l.meant;
    asked = l.asked;
    solved = l.solved;
    proved = λ h. proved' (l.proved h);
  }
    where
      meant'' : (r : Request) → Meant a.data' r → Meant (record a.data' { account_id = id }) r
      meant'' (credentials_check name) m = m
      meant'' (verify_password h p true) m = m
      meant'' (verify_password h p false) (id', e, own) = (id', e, cc (row, e))
      meant'' (log_wrong_password name) m = m
      meant'' (new_session i key greet) m = m

      meant' :
          (rs : List Request)
          → All (Meant a.data') rs
          → All (Meant (record a.data' { account_id = id })) rs
      meant' [] h = tt
      meant' (r ∷ rs) h = (meant'' r h.0, meant' rs h.1)

      proved' : Verified a.data' → Verified (record a.data' { account_id = id })
      proved' (h, p, prevent, m, e) = (h, p, prevent, meant'' (verify_password h p prevent) m, e)
