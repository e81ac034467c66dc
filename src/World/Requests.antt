-- ===== src/World/Requests.antt =====
-- What the database is asked about a character's name
-- (src/NECROWorld/Server/Sockets/WorldSession.cpp, `Handle_SPacketCreateNewChar` and
-- `Handle_SPacketDeleteCharacter`).
use mathlib.Core.Option
use necro_mmo.Common.{
  ℕ, ◌≤◌, ◌≡◌, refl, Bool, true, false, none, some, Option, List, [], ◌∷◌, ◌++◌, arith, Bool-cases,
  inl, inr,
}
use necro_mmo.Message.{active}
use necro_mmo.Auth.Served.{read_at_lem}
use necro_mmo.World.{Request, WorldSession, Env, rank, post, create_checks, delete_checks}
use necro_mmo.World.Handlers.{read_name, handle_create_new_char, handle_delete_character}
use necro_mmo.World.Served.{number_at, Served, asked, touched}
use necro_mmo.World.Rules.{Rules, Wires, OfAccount, kind}
use necro_mmo.World.Names.{Named, Judged, read_name-Judged}

-- What a handler of such a packet gives. It returns true exactly when the packet is well formed and
-- the database has room, and then it has posted one request, that of the name, and nothing otherwise.
pub record Asks (fixed : ℕ) (env : Env) (request : List ℕ → Request) (a b : WorldSession)
    (ok : Bool) : Type 0 where
  pub served : Served a b
  pub asks :
      ok ≡ true
      → (name : List ℕ) × Named fixed (active a.current_decrypted_packet) name
        × (b.posted ≡ a.posted ++ request name ∷ [])
        × (env.has_room ≡ true)
  pub silent : ok ≡ false → b.posted ≡ a.posted
  pub accepts :
      (name : List ℕ)
      → Named fixed (active a.current_decrypted_packet) name
      → env.has_room ≡ true
      → ok ≡ true

module _ (fixed : ℕ) (env : Env) (request : List ℕ → Request) (a : WorldSession) (r : Rules a)
    (w : Wires a) where
  refused-Asks :
      Judged fixed (active a.current_decrypted_packet) none
      → Asks fixed env request a (record a { last_activity = env.now }) false
  refused-Asks bad = record {
    served = touched env.now a r w;
    asks = λ k. cc;
    silent = λ _. refl;
    accepts = λ name h _. absurd (bad name h);
  }

  full-Asks :
      env.has_room ≡ false → Asks fixed env request a (record a { last_activity = env.now }) false
  full-Asks full = record {
    served = touched env.now a r w;
    asks = λ k. cc;
    silent = λ _. refl;
    accepts = λ name h k. cc;
  }

  asked-Asks :
      (name : List ℕ)
      → Named fixed (active a.current_decrypted_packet) name
      → env.has_room ≡ true
      → OfAccount a.data'.account_id (request name)
      → kind (request name) ≡ 4
      → 3 ≤ rank a.status
      → Asks fixed env request a (post (request name) (record a { last_activity = env.now })) true
  asked-Asks name h room own k late = record {
    served =
        asked env.now (request name) a r w own (ground (arith, k)) (ground (arith, k))
          (ground (arith, k)) (inr late);
    asks = λ _. (name, h, refl, room);
    silent = λ k. cc;
    accepts = λ _ _ _. refl;
  }

-- The account's request to create a character, with what the packet says.
abbrev pub create_request : WorldSession → List ℕ → Request
create_request a name =
    let bytes = active a.current_decrypted_packet in
    create_checks a.data'.account_id (record {
      name = name;
      race = number_at 1 4 bytes;
      game_class = number_at 1 5 bytes;
      gender = number_at 1 6 bytes;
    })

-- `Handle_SPacketCreateNewChar` on any text from a client that is authenticated reads nothing beyond
-- the text and leaves a valid session. It returns true exactly when the packet is well formed and the
-- database has room; then the one request that it has posted is the check of the packet's name for
-- the session's own account, and else it has posted nothing.
pub handle_create_new_char-Asks :
    (env : Env) (a : WorldSession)
    → Rules a
    → Wires a
    → rank a.status ≡ 4
    → (b : WorldSession) × (ok : Bool) × (handle_create_new_char env a ≡ some (b, ok))
      × Asks 8 env (create_request a) a b ok
unfolding handle_create_new_char Option.bind
handle_create_new_char-Asks env a r w four =
    let (o, e, judged) = read_name-Judged 8 a.current_decrypted_packet w.plain (omega arith) in
    from o e judged
  where
    from :
        (o : Option (List ℕ))
        → read_name 8 a.current_decrypted_packet ≡ some o
        → Judged 8 (active a.current_decrypted_packet) o
        → (b : WorldSession) × (ok : Bool) × (handle_create_new_char env a ≡ some (b, ok))
          × Asks 8 env (create_request a) a b ok
    from none e bad = (
      record a { last_activity = env.now },
      false,
      rw (e, handle_create_new_char),
      refused-Asks 8 env (create_request a) a r w bad,
    )
    from (some name) e h =
        let bytes = active a.current_decrypted_packet in
        let race = read_at_lem 1 4 bytes (omega (arith, h.size)) in
        let game_class = read_at_lem 1 5 bytes (omega (arith, h.size)) in
        let gender = read_at_lem 1 6 bytes (omega (arith, h.size)) in
        elim (Bool-cases env.has_room) [
          | inl room ↦ (
            post (create_request a name) (record a { last_activity = env.now }),
            true,
            rw (e, handle_create_new_char, race, game_class, gender, room) refl,
            asked-Asks 8 env (create_request a) a r w name h room refl refl (omega arith),
          )
          | inr full ↦ (
            record a { last_activity = env.now },
            false,
            rw (e, handle_create_new_char, race, game_class, gender, full) refl,
            full-Asks 8 env (create_request a) a r w full,
          )
        ]

abbrev pub delete_request : WorldSession → List ℕ → Request
delete_request a name =
    delete_checks (record { name = name; id = number_at 4 4 (active a.current_decrypted_packet) })
      a.data'.account_id

-- `Handle_SPacketDeleteCharacter` on any text, likewise: with a well-formed packet it asks whether the
-- character of the packet's id is the session's own account's.
pub handle_delete_character-Asks :
    (env : Env) (a : WorldSession)
    → Rules a
    → Wires a
    → rank a.status ≡ 4
    → (b : WorldSession) × (ok : Bool) × (handle_delete_character env a ≡ some (b, ok))
      × Asks 9 env (delete_request a) a b ok
unfolding handle_delete_character
handle_delete_character-Asks env a r w four =
    let (o, e, judged) = read_name-Judged 9 a.current_decrypted_packet w.plain (omega arith) in
    from o e judged
  where
    from :
        (o : Option (List ℕ))
        → read_name 9 a.current_decrypted_packet ≡ some o
        → Judged 9 (active a.current_decrypted_packet) o
        → (b : WorldSession) × (ok : Bool) × (handle_delete_character env a ≡ some (b, ok))
          × Asks 9 env (delete_request a) a b ok
    from none e bad = (
      record a { last_activity = env.now },
      false,
      rw (e, handle_delete_character),
      refused-Asks 9 env (delete_request a) a r w bad,
    )
    from (some name) e h =
        let id = read_at_lem 4 4 (active a.current_decrypted_packet) (omega (arith, h.size)) in
        elim (Bool-cases env.has_room) [
          | inl room ↦ (
            post (delete_request a name) (record a { last_activity = env.now }),
            true,
            rw (e, handle_delete_character, id, room) refl,
            asked-Asks 9 env (delete_request a) a r w name h room refl refl (omega arith),
          )
          | inr full ↦ (
            record a { last_activity = env.now },
            false,
            rw (e, handle_delete_character, id, full) refl,
            full-Asks 9 env (delete_request a) a r w full,
          )
        ]
