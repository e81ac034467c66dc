-- ===== src/World/Selection.antt =====
-- The list of an account's characters (src/NECROWorld/Server/Sockets/WorldSession.cpp,
-- `DBCallback_HandleSPacketEnumCharacter`), after which a session is authenticated and registered.
use necro_mmo.Common.{
  ℕ, ◌≡◌, ◌⊎◌, refl, sym, ap, ◌∙◌, Bool, true, false, not, ◌&&◌, ◌++◌, Option, none, some, List,
  arith, Bool-cases, inl, inr, ◌==◌,
}
use necro_mmo.Common.Dict.{lookup}
use necro_mmo.Aes.{Gcm}
use necro_mmo.Packet.Content.{encode_all}
use necro_mmo.Sessions as Sessions
use necro_mmo.Sessions.{register_session, register_session-IsValid}
use necro_mmo.Socket.{is_open}
use necro_mmo.World.{
  authed, selecting_characters, WorldSession, Env, rank, close_session, send_reply,
}
use necro_mmo.World.Answers.{
  Character, Shared, enum_fields, enter_selection, db_callback_handle_enum_character,
}
use necro_mmo.World.Sending.{Sent, send_reply-Sent, frame_of, closes}
use necro_mmo.Message.Crypt.Outcomes.{encrypts}
use necro_mmo.Socket.Sending.{unsent}
use necro_mmo.World.Received.{IsValid, closed-IsValid}
use necro_mmo.World.Replies.{sent-IsValid, active-IsValid}

-- A registered session holds its account's slot when the list of characters has been sent.
pub record Selected (a : WorldSession) (shared : Shared) (b : WorldSession) (after : Shared)
    : Type 0 where
  pub valid : IsValid b
  pub manager : Sessions.IsValid after.manager
  pub status :
      (rank a.status ≡ 3)
        × (rank b.status ≡ 4)
        × (b.serial ≡ shared.next_serial)
        × (lookup a.data'.account_id after.manager.sessions ≡ some shared.next_serial)
      ⊎ (rank b.status ≡ rank a.status) × (after ≡ shared)

registered-IsValid :
    (serial : ℕ) (a : WorldSession)
    → IsValid a
    → rank a.status ≡ 3
    → IsValid (record a { status = authed; serial = serial; has_registered = true })
registered-IsValid serial a h three =
    let r = h.rules in
    record {
      rules = record {
        lookups = ground (arith, r.lookups);
        enters = ground (arith, r.enters);
        exits = ground (arith, r.exits);
        early = λ k. absurd (omega arith);
        owned = r.owned;
        holds = λ k. absurd (omega (arith, (r.holds k).0));
        inside = λ k. absurd (omega arith);
        known = λ _. r.known (omega arith);
        apart = λ _. r.apart (omega arith);
        registered = refl;
      };
      wires = record { flows = h.wires.flows; buffer = h.wires.buffer; plain = h.wires.plain };
      quiet = h.quiet;
      fresh = λ k. absurd (omega (arith, (h.fresh k).0));
      waits = λ k. absurd (omega arith);
    }

enter_selection-Selected :
    (alive : Bool) (shared : Shared) (a : WorldSession)
    → IsValid a
    → Sessions.IsValid shared.manager
    → let (b, after, kicked) = enter_selection alive shared a in Selected a shared b after
unfolding enter_selection
enter_selection-Selected alive shared a h m =
    elim (Bool-cases (rank a.status == rank selecting_characters)) [
      | inl first ↦
          let (manager, _, slot, _, _) =
            register_session-IsValid a.data'.account_id shared.next_serial alive shared.manager m in
          rw first (record {
            valid = registered-IsValid shared.next_serial a h (ground arith);
            manager = manager;
            status = inl (ground arith, refl, refl, slot);
          })
      | inr again ↦ rw again (record { valid = h; manager = m; status = inr (refl, refl) })
    ]

-- An answer with the list has been sent behind all that was to be sent, encrypted under the session's
-- nonce; a session that waits for its first list is then authenticated. Without an answer it is not,
-- its connection is closed, and nothing is registered.
pub record Replied (gcm : Gcm) (rows : List Character) (a : WorldSession) (shared : Shared)
    (b : WorldSession) (after : Shared) (ok : Bool) : Type 0 where
  pub selected : Selected a shared b after
  pub sent :
      ok ≡ true
      → (is_open b.socket ≡ true)
        × (unsent b.socket.out_queue
            ≡ unsent a.socket.out_queue
              ++ frame_of gcm a.data'.session_key a.data'.iv (encode_all (enum_fields rows)))
        × (rank a.status ≡ 3 → rank b.status ≡ 4)
  pub failed :
      ok ≡ false → (is_open b.socket ≡ false) × (rank b.status ≡ rank a.status) × (after ≡ shared)

enter_selection_kept :
    (alive : Bool) (shared : Shared) (a : WorldSession)
    → ((enter_selection alive shared a).0.socket ≡ a.socket)
      × (rank a.status ≡ 3 → rank (enter_selection alive shared a).0.status ≡ 4)
unfolding enter_selection
enter_selection_kept alive shared a =
    elim (Bool-cases (rank a.status == rank selecting_characters)) [
      | inl first ↦ rw first (refl, λ _. refl)
      | inr again ↦ rw again (refl, λ k. absurd (ground arith))
    ]

-- The list of characters, to a valid session: it stays valid, and so does the manager of the sessions.
-- It returns true exactly when the connection is open, the query has not failed and all the calls of
-- OpenSSL succeed; then the list's frame is queued behind all that was to be sent. Only then, and
-- with the first list, is the session authenticated, and it is registered under the next serial, which
-- its account's slot then has. Otherwise its connection is closed, its status stays and nothing is
-- registered.
pub db_callback_handle_enum_character-Selected :
    (gcm : Gcm) (env : Env) (alive err : Bool) (rows : List Character) (shared : Shared)
    (a : WorldSession)
    → IsValid a
    → Sessions.IsValid shared.manager
    → (b : WorldSession) × (after : Shared) × (kicked : Option ℕ) × (ok : Bool)
      × (db_callback_handle_enum_character gcm env alive err rows shared a
          ≡ some ((b, after, kicked), ok))
      × Replied gcm rows a shared b after ok
      × (ok ≡ (is_open a.socket && (not err && encrypts env.evp)))
unfolding db_callback_handle_enum_character
db_callback_handle_enum_character-Selected gcm env alive err rows shared a h m =
    elim (Bool-cases (is_open a.socket)) [
      | inr shut ↦ (
        a,
        shared,
        none,
        false,
        rw (shut, db_callback_handle_enum_character),
        record {
          selected = record { valid = h; manager = m; status = inr (refl, refl) };
          sent = λ k. cc;
          failed = λ _. (shut, refl, refl);
        },
        rw shut refl,
      )
      | inl still_open ↦ elim (Bool-cases err) [
        | inl failed ↦ (
          close_session a,
          shared,
          none,
          false,
          rw (still_open, failed, db_callback_handle_enum_character),
          record {
            selected = record {
              valid = closed-IsValid a h;
              manager = m;
              status = inr (refl, refl);
            };
            sent = λ k. cc;
            failed = λ _. (closes a.socket, refl, refl);
          },
          rw (still_open, failed) refl,
        )
        | inr fine ↦
            let v = active-IsValid env.now a h in
            let (b, ok, e, s, tried) =
              send_reply-Sent gcm env.evp (enum_fields rows) now v.wires.flows in
            from still_open fine v b ok e s tried
      ]
    ]
  where
    now : WorldSession
    now = record a { last_activity = env.now }

    from :
        is_open a.socket ≡ true
        → err ≡ false
        → IsValid now
        → (b : WorldSession) (ok : Bool)
        → send_reply gcm env.evp (enum_fields rows) now ≡ some (b, ok)
        → Sent gcm (encode_all (enum_fields rows)) now b ok
        → ok ≡ encrypts env.evp
        → (b : WorldSession) × (after : Shared) × (kicked : Option ℕ) × (ok : Bool)
          × (db_callback_handle_enum_character gcm env alive err rows shared a
              ≡ some ((b, after, kicked), ok))
          × Replied gcm rows a shared b after ok
          × (ok ≡ (is_open a.socket && (not err && encrypts env.evp)))
    from still_open fine v b false e s tried = (
      b,
      shared,
      none,
      false,
      rw (still_open, fine, e, db_callback_handle_enum_character),
      record {
        selected = record {
          valid = sent-IsValid gcm (encode_all (enum_fields rows)) now b false v s;
          manager = m;
          status = inr (ap (λ x. rank x.status) s.same, refl);
        };
        sent = λ k. cc;
        failed = λ _. ((s.dropped refl).0, ap (λ x. rank x.status) s.same, refl);
      },
      rw (still_open, fine) tried,
    )
    from still_open fine v b true e s tried =
        let selected =
          enter_selection-Selected alive shared b
            (sent-IsValid gcm (encode_all (enum_fields rows)) now b true v s) m in
        let (socket, chosen) = enter_selection_kept alive shared b in
        let (c, after, kicked) = enter_selection alive shared b in
        let same : rank b.status ≡ rank a.status = ap (λ x. rank x.status) s.same in
        (
          c,
          after,
          kicked,
          true,
          rw (still_open, fine, e, db_callback_handle_enum_character),
          record {
            selected = record {
              valid = selected.valid;
              manager = selected.manager;
              status = further c after same selected.status;
            };
            sent = λ _. (
              ap is_open socket ∙ ((s.queued refl).2 ∙ still_open),
              ap (λ x. unsent x.out_queue) socket ∙ (s.queued refl).0,
              λ k. chosen (same ∙ k),
            );
            failed = λ k. cc;
          },
          rw (still_open, fine) tried,
        )
      where
        account : b.data'.account_id ≡ a.data'.account_id
        account = ap (λ x. x.data'.account_id) s.same

        further :
            (c : WorldSession) (after : Shared)
            → rank b.status ≡ rank a.status
            → (rank b.status ≡ 3)
                × (rank c.status ≡ 4)
                × (c.serial ≡ shared.next_serial)
                × (lookup b.data'.account_id after.manager.sessions ≡ some shared.next_serial)
              ⊎ (rank c.status ≡ rank b.status) × (after ≡ shared)
            → (rank a.status ≡ 3)
                × (rank c.status ≡ 4)
                × (c.serial ≡ shared.next_serial)
                × (lookup a.data'.account_id after.manager.sessions ≡ some shared.next_serial)
              ⊎ (rank c.status ≡ rank a.status) × (after ≡ shared)
        further c after same (inl (e, r, n, k)) =
            inl (sym same ∙ e, r, n, ap (λ x. lookup x after.manager.sessions) (sym account) ∙ k)
        further c after same (inr (e, k)) = inr (e ∙ same, k)
