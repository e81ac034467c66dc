-- ===== src/World/Entering.antt =====
-- How a valid session enters the world and leaves it
-- (src/NECROWorld/Server/Sockets/Handlers/PlayerHandlers.cpp).
use necro_mmo.Common.{
  ℕ, ◌≤◌, ◌<◌, ◌≡◌, refl, ap, ◌∙◌, Bool, true, false, Option, none, some, List, [], ◌∷◌, arith,
  Bool-cases, inl, inr, ◌==◌,
}
use necro_mmo.Aes.{Gcm}
use necro_mmo.Packet.{u8, u16}
use necro_mmo.Packet.Content.{encode_all}
use necro_mmo.Queue as Queue
use necro_mmo.World.{
  WorldSocketStatus, authed, WorldSession, Env, Request, rank, post, send_reply, spawn_player,
}
use necro_mmo.World.Answers.{Character}
use necro_mmo.World.Answers.Entry.{
  refuse_entry, check_entry, entering_data, db_callback_handle_enter_world_checks,
}
use necro_mmo.World.Sending.{Sent, send_reply_lem}
use necro_mmo.World.Rules.{count, count-append, All-append, OfAccount, kind}
use necro_mmo.World.Received.{IsValid}
use necro_mmo.World.Replies.{ValidBy, sent-IsValid, active-IsValid, answered-ValidBy}

-- A session that is registered changes its status and its player.
pub settled-IsValid :
    (s : WorldSocketStatus) (guid : ℕ) (a : WorldSession)
    → IsValid a
    → 4 ≤ rank a.status
    → 4 ≤ rank s
    → count 2 a.posted ≡ 0
    → count 3 a.posted ≡ 0
    → (0 < guid → (6 ≤ rank s) × (rank s ≤ 7))
    → (rank s ≡ 6 → 0 < guid)
    → IsValid (record a { status = s; player_guid = guid })
settled-IsValid s guid a h before now enters exits holds inside =
    let r = h.rules in
    record {
      rules = record {
        lookups = ground (arith, r.lookups);
        enters = omega arith;
        exits = omega arith;
        early = λ k. absurd (omega arith);
        owned = r.owned;
        holds = holds;
        inside = inside;
        known = λ _. r.known (omega arith);
        apart = λ _. r.apart (omega arith);
        registered = ground (arith, r.registered);
      };
      wires = record { flows = h.wires.flows; buffer = h.wires.buffer; plain = h.wires.plain };
      quiet = h.quiet;
      fresh = λ k. absurd (omega (arith, (h.fresh k).0));
      waits = λ k. absurd (omega arith);
    }

pub none_left :
    (a : WorldSession)
    → IsValid a
    → rank a.status ≡ 5
    → (count 3 a.posted ≡ 0) × (a.player_guid ≡ 0)
none_left a h five =
    let r = h.rules in
    (
      ground (arith, r.exits),
      elim (Bool-cases (a.player_guid == 0)) [
        | inl e ↦ ground arith
        | inr n ↦ absurd (omega (arith, (r.holds (ground arith)).0))
      ],
    )

-- What a packet that was sent leaves as it was.
pub Sent-status :
    (gcm : Gcm) (text : List ℕ) (a b : WorldSession) (ok : Bool)
    → Sent gcm text a b ok
    → (b.status ≡ a.status) × (b.posted ≡ a.posted) × (b.player_guid ≡ a.player_guid)
Sent-status gcm text a b ok s =
    (ap (λ x. x.status) s.same, ap (λ x. x.posted) s.same, ap (λ x. x.player_guid) s.same)

refuse_entry-ValidBy :
    (gcm : Gcm) (env : Env) (reason : ℕ) (a : WorldSession)
    → IsValid a
    → rank a.status ≡ 5
    → count 2 a.posted ≡ 0
    → ValidBy (refuse_entry gcm env reason a)
refuse_entry-ValidBy gcm env reason a h five waiting =
    let fields = u16 4 ∷ u8 reason ∷ [] in
    let (b, ok, e, s) = send_reply_lem gcm env.evp fields a h.wires.flows in from b ok e s
  where
    from :
        (b : WorldSession) (ok : Bool)
        → send_reply gcm env.evp (u16 4 ∷ u8 reason ∷ []) a ≡ some (b, ok)
        → Sent gcm (encode_all (u16 4 ∷ u8 reason ∷ [])) a b ok
        → ValidBy (refuse_entry gcm env reason a)
    from b false e s = (
      b,
      false,
      rw (e, refuse_entry),
      sent-IsValid gcm (encode_all (u16 4 ∷ u8 reason ∷ [])) a b false h s,
    )
    from b true e s =
        let text = encode_all (u16 4 ∷ u8 reason ∷ []) in
        let v = sent-IsValid gcm text a b true h s in
        let (status, posted, guid) = Sent-status gcm text a b true s in
        let (exits, no_player) = none_left a h five in
        let rank-b = ap rank status ∙ five in
        (
          record b { status = authed },
          true,
          rw (e, refuse_entry),
          settled-IsValid authed b.player_guid b v (omega arith) (omega arith)
              (ap (count 2) posted ∙ waiting) (ap (count 3) posted ∙ exits)
              (λ k. absurd (omega arith)) (λ k. absurd (omega arith)),
        )

-- The spawn is posted.
spawning-IsValid :
    (a : WorldSession) (q : Request)
    → IsValid a
    → rank a.status ≡ 5
    → count 2 a.posted ≡ 0
    → kind q ≡ 2
    → OfAccount a.data'.account_id q
    → IsValid (post q (record a { player_packet_queue = Queue.clear a.player_packet_queue }))
spawning-IsValid a q h five waiting k own =
    let r = h.rules in
    record {
      rules = record {
        lookups = ground (arith, r.lookups, count-append 1 a.posted (q ∷ []), k);
        enters = ground (arith, waiting, count-append 2 a.posted (q ∷ []), k);
        exits = ground (arith, r.exits, count-append 3 a.posted (q ∷ []), k);
        early = λ e. absurd (omega arith);
        owned = All-append (OfAccount a.data'.account_id) a.posted (q ∷ []) r.owned (own, tt);
        holds = r.holds;
        inside = r.inside;
        known = r.known;
        apart = r.apart;
        registered = r.registered;
      };
      wires = record { flows = h.wires.flows; buffer = h.wires.buffer; plain = h.wires.plain };
      quiet = h.quiet;
      fresh = h.fresh;
      waits = h.waits;
    }

check_entry-ValidBy :
    (gcm : Gcm) (env : Env) (row : Option (ℕ × Character)) (id : ℕ) (a : WorldSession)
    → IsValid a
    → rank a.status ≡ 5
    → count 2 a.posted ≡ 0
    → ValidBy (check_entry gcm env row id a)
check_entry-ValidBy gcm env none id a h five waiting =
    refuse_entry-ValidBy gcm env 6 a h five waiting
check_entry-ValidBy gcm env (some (account, c)) id a h five waiting =
    elim (Bool-cases (account == a.data'.account_id)) [
      | inl own ↦ (
        post (spawn_player (entering_data id c))
            (record a { player_packet_queue = Queue.clear a.player_packet_queue }),
        true,
        rw own refl,
        spawning-IsValid a (spawn_player (entering_data id c)) h five waiting refl tt,
      )
      | inr alien ↦ rw alien (refuse_entry-ValidBy gcm env 7 a h five waiting)
    ]

pub enter_world_checks-ValidBy :
    (gcm : Gcm) (env : Env) (err : Bool) (row : Option (ℕ × Character)) (id : ℕ) (a : WorldSession)
    → IsValid a
    → rank a.status ≡ 5
    → count 2 a.posted ≡ 0
    → ValidBy (db_callback_handle_enter_world_checks gcm env err row id a)
unfolding db_callback_handle_enter_world_checks
enter_world_checks-ValidBy gcm env err row id a h five waiting =
    answered-ValidBy err env a (check_entry gcm env row id) h (λ alive.
      check_entry-ValidBy gcm env row id (record a { last_activity = env.now })
        (active-IsValid env.now a h) five waiting)
