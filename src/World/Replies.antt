-- ===== src/World/Replies.antt =====
-- The answers of the characters' database to a valid session
-- (src/NECROWorld/Server/Sockets/WorldSession.cpp and Handlers/PlayerHandlers.cpp).
use necro_mmo.Common.{
  ℕ, ◌≤◌, ◌≡◌, ◌⊎◌, refl, sym, ap, ◌∙◌, Bool, true, false, not, Option, none, some, List, [], ◌∷◌,
  arith, Bool-cases, inl, inr, ◌==◌, leb,
}
use necro_mmo.Aes.{Gcm, EvpRun}
use necro_mmo.Packet.{Field, u8, u16}
use necro_mmo.Packet.Content.{encode_all}
use necro_mmo.Message.{active}
use necro_mmo.Socket.{is_open}
use necro_mmo.World.{
  WorldSession, Env, Request, rank, post, close_session, send_reply, CreateCharacter,
  DeleteCharacter, ins_character, delete_character,
}
use necro_mmo.World.Answers.{
  answered, ask, same_name, db_callback_handle_create_checks, db_callback_handle_create_final,
  db_callback_handle_delete_checks, db_callback_handle_delete_final, check_creation, check_deletion,
}
use necro_mmo.World.Sending.{Sent, send_reply_lem}
use necro_mmo.World.Rules.{Rules-quiet, Rules-post, Rules-Sent, Wires-Sent, OfAccount, kind}
use necro_mmo.World.Received.{IsValid, closed-IsValid}

-- What an answer leaves.
abbrev pub ValidBy : Option (WorldSession × Bool) → Type 0
ValidBy o = (b : WorldSession) × (ok : Bool) × (o ≡ some (b, ok)) × IsValid b

pub sent-IsValid :
    (gcm : Gcm) (text : List ℕ) (a b : WorldSession) (ok : Bool)
    → IsValid a
    → Sent gcm text a b ok
    → IsValid b
sent-IsValid gcm text a b ok h s = record {
  rules = Rules-Sent gcm text a b ok h.rules s;
  wires = Wires-Sent gcm text a b ok h.wires s;
  quiet = λ o. ap (λ x. active x.current_decrypted_packet) s.same ∙ h.quiet (before ok s o);
  fresh = λ k.
      let (first, still) = h.fresh (s.fresh k) in
      (ap (λ x. rank x.status) s.same ∙ first, s.reading ∙ still);
  waits = λ k. s.reading ∙ h.waits (sym (ap (λ x. rank x.status) s.same) ∙ k);
}
  where
    before :
        (ok : Bool)
        → Sent gcm text a b ok
        → (is_open b.socket ≡ true) ⊎ (b.socket.reading ≡ true)
        → (is_open a.socket ≡ true) ⊎ (a.socket.reading ≡ true)
    before true s (inl o) = inl (sym (s.queued refl).2 ∙ o)
    before false s (inl o) = cc ((s.dropped refl).0)
    before ok s (inr o) = inr (sym s.reading ∙ o)

-- A reply.
pub send_reply-ValidBy :
    (gcm : Gcm) (evp : EvpRun) (fields : List Field) (a : WorldSession)
    → IsValid a
    → ValidBy (send_reply gcm evp fields a)
send_reply-ValidBy gcm evp fields a h =
    let (b, ok, e, s) = send_reply_lem gcm evp fields a h.wires.flows in
    (b, ok, e, sent-IsValid gcm (encode_all fields) a b ok h s)

pub active-IsValid :
    (now : ℕ) (a : WorldSession) → IsValid a → IsValid (record a { last_activity = now })
active-IsValid now a h = record {
  rules =
      Rules-quiet a a.socket a.current_decrypted_packet now a.expected_counter_for_next_packet
        a.player_packet_queue h.rules;
  wires = record { flows = h.wires.flows; buffer = h.wires.buffer; plain = h.wires.plain };
  quiet = h.quiet;
  fresh = h.fresh;
  waits = h.waits;
}

-- The guards of the callbacks.
pub answered-ValidBy :
    (err : Bool) (env : Env) (a : WorldSession) (next : WorldSession → Option (WorldSession × Bool))
    → IsValid a
    → (is_open a.socket ≡ true → ValidBy (next (record a { last_activity = env.now })))
    → ValidBy (answered err env a next)
answered-ValidBy err env a next h going = elim (Bool-cases (is_open a.socket)) [
  | inr shut ↦ (a, false, rw shut, h)
  | inl alive ↦ elim (Bool-cases err) [
    | inl failed ↦ (close_session a, false, rw (alive, failed), closed-IsValid a h)
    | inr fine ↦ let (b, ok, e, v) = going alive in (b, ok, rw (alive, fine) e, v)
  ]
]

-- A request that bears the account.
ask-ValidBy :
    (env : Env) (q : Request) (a : WorldSession)
    → IsValid a
    → OfAccount a.data'.account_id q
    → kind q ≡ 4
    → 3 ≤ rank a.status
    → ValidBy (some (ask env q a))
ask-ValidBy env q a h own k late = elim (Bool-cases env.has_room) [
  | inr full ↦ (close_session a, false, rw full refl, closed-IsValid a h)
  | inl room ↦ (
    post q a,
    true,
    rw room refl,
    record {
      rules =
          Rules-post q a h.rules own (ground (arith, k)) (ground (arith, k)) (ground (arith, k))
            (inr late);
      wires = record { flows = h.wires.flows; buffer = h.wires.buffer; plain = h.wires.plain };
      quiet = h.quiet;
      fresh = h.fresh;
      waits = h.waits;
    },
  )
]

pub check_deletion-ValidBy :
    (gcm : Gcm) (env : Env) (row : Option (List ℕ)) (ctx : DeleteCharacter) (a : WorldSession)
    → IsValid a
    → 3 ≤ rank a.status
    → ValidBy (check_deletion gcm env row ctx a)
check_deletion-ValidBy gcm env none ctx a h late =
    send_reply-ValidBy gcm env.evp (u16 3 ∷ u8 0 ∷ []) a h
check_deletion-ValidBy gcm env (some name) ctx a h late =
    elim (Bool-cases (same_name ctx.name name)) [
      | inl same ↦ rw same (
          ask-ValidBy env
            (delete_character (record { name = name; id = ctx.id }) a.data'.account_id) a h refl
            refl late)
      | inr other ↦ rw other (send_reply-ValidBy gcm env.evp (u16 3 ∷ u8 0 ∷ []) a h)
    ]

pub check_creation-ValidBy :
    (gcm : Gcm) (env : Env) (characters same : ℕ) (ctx : CreateCharacter) (a : WorldSession)
    → IsValid a
    → 3 ≤ rank a.status
    → ValidBy (check_creation gcm env characters same ctx a)
check_creation-ValidBy gcm env characters same ctx a h late =
    elim (Bool-cases (leb 10 characters)) [
      | inl many ↦ rw many (send_reply-ValidBy gcm env.evp (u16 2 ∷ u8 3 ∷ []) a h)
      | inr few ↦ elim (Bool-cases (not (same == 0))) [
        | inl used ↦ rw (few, used) (send_reply-ValidBy gcm env.evp (u16 2 ∷ u8 4 ∷ []) a h)
        | inr unused ↦
            rw (few, unused)
              (ask-ValidBy env (ins_character a.data'.account_id ctx) a h refl refl late)
      ]
    ]

module _ (gcm : Gcm) (env : Env) (err : Bool) (a : WorldSession) (h : IsValid a) where
  pub create_checks-ValidBy :
      (characters same : ℕ) (ctx : CreateCharacter)
      → 3 ≤ rank a.status
      → ValidBy (db_callback_handle_create_checks gcm env err characters same ctx a)
  unfolding db_callback_handle_create_checks
  create_checks-ValidBy characters same ctx late =
      answered-ValidBy err env a (check_creation gcm env characters same ctx) h (λ alive.
        check_creation-ValidBy gcm env characters same ctx (record a { last_activity = env.now })
          (active-IsValid env.now a h) late)

  pub delete_checks-ValidBy :
      (row : Option (List ℕ)) (ctx : DeleteCharacter)
      → 3 ≤ rank a.status
      → ValidBy (db_callback_handle_delete_checks gcm env err row ctx a)
  unfolding db_callback_handle_delete_checks
  delete_checks-ValidBy row ctx late =
      answered-ValidBy err env a (check_deletion gcm env row ctx) h (λ alive.
        check_deletion-ValidBy gcm env row ctx (record a { last_activity = env.now })
          (active-IsValid env.now a h) late)

  replied-ValidBy :
      (fields : List Field) → ValidBy (answered err env a (send_reply gcm env.evp fields))
  replied-ValidBy fields = answered-ValidBy err env a (send_reply gcm env.evp fields) h (λ alive.
      send_reply-ValidBy gcm env.evp fields (record a { last_activity = env.now })
        (active-IsValid env.now a h))

  pub create_final-ValidBy : ValidBy (db_callback_handle_create_final gcm env err a)
  unfolding db_callback_handle_create_final
  create_final-ValidBy = replied-ValidBy (u16 2 ∷ u8 5 ∷ [])

  pub delete_final-ValidBy : ValidBy (db_callback_handle_delete_final gcm env err a)
  unfolding db_callback_handle_delete_final
  delete_final-ValidBy = replied-ValidBy (u16 3 ∷ u8 1 ∷ [])
