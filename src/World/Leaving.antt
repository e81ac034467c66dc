-- ===== src/World/Leaving.antt =====
-- The player of a session in the world: that its spawn is never lost, and that it leaves
-- (src/NECROWorld/Server/Sockets/Handlers/PlayerHandlers.cpp and Sockets/WorldSession.cpp).
use necro_mmo.Common.{
  ℕ, ◌<◌, ◌≡◌, refl, ap, ◌∙◌, Bool, true, false, some, List, [], ◌∷◌, ◌++◌, arith, Bool-cases, inl,
  inr, ◌==◌, if◌then◌else◌,
}
use necro_mmo.Aes.{Gcm}
use necro_mmo.Packet.{Field, u8, u16}
use necro_mmo.Packet.Content.{encode_all}
use necro_mmo.Simulation.Commands.{SpawnResult}
use necro_mmo.Socket.{is_open}
use necro_mmo.World.{
  authed, in_world, WorldSession, Env, rank, post, send_reply, rollback_spawn, exit_world,
}
use necro_mmo.World.Handlers.{do_exit_world}
use necro_mmo.World.Answers.{Shared}
use necro_mmo.World.Answers.Entry.{
  post_spawn_rollback, entered_fields, world_cmd_callback_on_enter_world,
  world_cmd_callback_on_exit_world, destroy,
}
use necro_mmo.World.Sending.{Sent, send_reply_lem}
use necro_mmo.World.Rules.{Rules-post, count}
use necro_mmo.World.Received.{IsValid}
use necro_mmo.World.Replies.{ValidBy, sent-IsValid, send_reply-ValidBy, active-IsValid}
use necro_mmo.World.Entering.{settled-IsValid, none_left, Sent-status}

rollback-IsValid :
    (guid : ℕ) (a : WorldSession) → IsValid a → IsValid (post (rollback_spawn guid) a)
rollback-IsValid guid a h = record {
  rules = Rules-post (rollback_spawn guid) a h.rules tt refl refl refl (inl refl);
  wires = record { flows = h.wires.flows; buffer = h.wires.buffer; plain = h.wires.plain };
  quiet = h.quiet;
  fresh = h.fresh;
  waits = h.waits;
}

-- The session that the result of a spawn leaves, before the reply.
abbrev entered : Env → SpawnResult → WorldSession → WorldSession
entered env r a =
    let b = record a { last_activity = env.now } in
    if r.success
    then record b { player_guid = r.guid; status = in_world }
    else record b { status = authed }

entered-IsValid :
    (env : Env) (r : SpawnResult) (a : WorldSession)
    → IsValid a
    → rank a.status ≡ 5
    → count 2 a.posted ≡ 0
    → (r.success ≡ true → 0 < r.guid)
    → IsValid (entered env r a)
entered-IsValid env r a h five waiting real =
    let v = active-IsValid env.now a h in
    let (exits, no_player) = none_left a h five in
    elim (Bool-cases r.success) [
      | inl done ↦ rw done (
          settled-IsValid in_world r.guid (record a { last_activity = env.now }) v (omega arith)
            (omega arith) waiting exits (λ _. (omega arith, omega arith)) (λ _. real done))
      | inr not_done ↦ rw not_done (
          settled-IsValid authed a.player_guid (record a { last_activity = env.now }) v
            (omega arith) (omega arith) waiting exits (λ k. absurd (omega arith))
            (λ k. absurd (omega arith)))
    ]

-- `WorldCmdCallback_OnEnterWorld`.
pub on_enter_world-ValidBy :
    (gcm : Gcm) (env : Env) (r : SpawnResult) (a : WorldSession)
    → IsValid a
    → rank a.status ≡ 5
    → count 2 a.posted ≡ 0
    → (r.success ≡ true → 0 < r.guid)
    → ValidBy (world_cmd_callback_on_enter_world gcm env r a)
unfolding world_cmd_callback_on_enter_world post_spawn_rollback
on_enter_world-ValidBy gcm env r a h five waiting real = elim (Bool-cases (is_open a.socket)) [
  | inl alive ↦ rw alive (
      send_reply-ValidBy gcm env.evp (entered_fields r) (entered env r a)
        (entered-IsValid env r a h five waiting real))
  | inr shut ↦ elim (Bool-cases r.success) [
    | inl done ↦
        (post (rollback_spawn r.guid) a, false, rw (shut, done) refl, rollback-IsValid r.guid a h)
    | inr not_done ↦ (a, false, rw (shut, not_done) refl, h)
  ]
]

exited : (b : WorldSession) (ok : Bool) → WorldSession × Bool
exited b true = (record b { status = authed }, true)
exited b false = (b, false)

-- `WorldCmdCallback_OnExitWorld`.
pub on_exit_world-ValidBy :
    (gcm : Gcm) (env : Env) (success : Bool) (a : WorldSession)
    → IsValid a
    → rank a.status ≡ 7
    → count 3 a.posted ≡ 0
    → ValidBy (world_cmd_callback_on_exit_world gcm env success a)
unfolding world_cmd_callback_on_exit_world
on_exit_world-ValidBy gcm env success a h seven waiting = elim (Bool-cases (is_open a.socket)) [
  | inr shut ↦ (a, false, rw shut refl, h)
  | inl alive ↦ left alive
]
  where
    fields : List Field
    fields = u16 5 ∷ u8 (if success then 1 else 0) ∷ []

    gone : WorldSession
    gone = record a { last_activity = env.now; player_guid = 0 }

    gone-IsValid : IsValid gone
    gone-IsValid =
        settled-IsValid a.status 0 (record a { last_activity = env.now })
          (active-IsValid env.now a h) (omega arith) (omega arith) (ground (arith, h.rules.enters))
          waiting (λ k. absurd (omega arith)) (λ k. absurd (omega arith))

    left : is_open a.socket ≡ true → ValidBy (world_cmd_callback_on_exit_world gcm env success a)
    left alive =
        let (b, ok, e, s) = send_reply_lem gcm env.evp fields gone gone-IsValid.wires.flows in
        from b ok e s
      where
        from :
            (b : WorldSession) (ok : Bool)
            → send_reply gcm env.evp fields gone ≡ some (b, ok)
            → Sent gcm (encode_all fields) gone b ok
            → ValidBy (world_cmd_callback_on_exit_world gcm env success a)
        from b false e s = (
          b,
          false,
          rw (alive, e),
          sent-IsValid gcm (encode_all fields) gone b false gone-IsValid s,
        )
        from b true e s =
            let v = sent-IsValid gcm (encode_all fields) gone b true gone-IsValid s in
            let (status, posted, guid) = Sent-status gcm (encode_all fields) gone b true s in
            let rank-b = ap rank status ∙ seven in
            (
              record b { status = authed },
              true,
              rw (alive, e),
              settled-IsValid authed b.player_guid b v (omega arith) (omega arith)
                  (ground (arith, v.rules.enters)) (ap (count 3) posted ∙ waiting)
                  (λ k. absurd (omega (arith, guid, k))) (λ k. absurd (omega arith)),
            )

-- The destructor of a valid session: a player that it has in the world is made to leave it, by exactly
-- one command, and without one nothing is posted.
pub destroy-player :
    (shared : Shared) (a : WorldSession)
    → IsValid a
    → (0 < a.player_guid
        → (destroy shared a).1.posted ≡ a.posted ++ exit_world a.player_guid false ∷ [])
      × (a.player_guid ≡ 0 → (destroy shared a).1.posted ≡ a.posted)
unfolding destroy do_exit_world
destroy-player shared a h = elim (Bool-cases (a.player_guid == 0)) [
  | inl free ↦ (λ k. absurd (ground arith), λ _. ground arith)
  | inr held ↦
      let (late, _) = h.rules.holds (ground arith) in
      (λ _. ground arith, λ k. absurd (ground arith))
]

-- A spawn is never lost. When the result of one comes to a valid session that waits for it, either
-- the connection is closed and its undoing is posted; or the session holds the player, whether its
-- reply could be sent or not, and then, if the session ends, the player is made to leave the world.
pub world_cmd_callback_on_enter_world-keeps :
    (gcm : Gcm) (env : Env) (r : SpawnResult) (shared : Shared) (a : WorldSession)
    → IsValid a
    → rank a.status ≡ 5
    → count 2 a.posted ≡ 0
    → r.success ≡ true
    → 0 < r.guid
    → (b : WorldSession) × (ok : Bool) × (world_cmd_callback_on_enter_world gcm env r a
        ≡ some (b, ok))
      × IsValid b
      × (is_open a.socket ≡ false → b.posted ≡ a.posted ++ rollback_spawn r.guid ∷ [])
      × (is_open a.socket ≡ true
          → (b.player_guid ≡ r.guid)
            × (b.posted ≡ a.posted)
            × ((destroy shared b).1.posted ≡ a.posted ++ exit_world r.guid false ∷ []))
unfolding world_cmd_callback_on_enter_world post_spawn_rollback
world_cmd_callback_on_enter_world-keeps gcm env r shared a h five waiting done real =
    elim (Bool-cases (is_open a.socket)) [
      | inr shut ↦ (
        post (rollback_spawn r.guid) a,
        false,
        rw (shut, done) refl,
        rollback-IsValid r.guid a h,
        λ _. refl,
        λ k. cc,
      )
      | inl alive ↦
          let v = entered-IsValid env r a h five waiting (λ _. real) in
          let (b, ok, e, s) =
            send_reply_lem gcm env.evp (entered_fields r) (entered env r a) v.wires.flows in
          let text = encode_all (entered_fields r) in
          let valid = sent-IsValid gcm text (entered env r a) b ok v s in
          let (status, posted, guid) = Sent-status gcm text (entered env r a) b ok s in
          let guid' : b.player_guid ≡ r.guid = guid ∙ held env done in
          let posted' : b.posted ≡ a.posted = posted ∙ same env in
          (
            b,
            ok,
            rw alive e,
            valid,
            λ k. cc,
            λ _. (
              guid',
              posted',
              (destroy-player shared b valid).0 (omega arith)
                  ∙ (ap (λ l. l ++ exit_world b.player_guid false ∷ []) posted'
                      ∙ ap (λ g. a.posted ++ exit_world g false ∷ []) guid'),
            ),
          )
    ]
  where
    held : (env : Env) → r.success ≡ true → (entered env r a).player_guid ≡ r.guid
    held env e = rw e refl

    same : (env : Env) → (entered env r a).posted ≡ a.posted
    same env = ground arith
