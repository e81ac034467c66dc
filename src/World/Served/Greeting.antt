-- ===== src/World/Served/Greeting.antt =====
-- What the greeting does to a session
-- (src/NECROWorld/Server/Sockets/WorldSession.cpp, `HandleGreetPacket`).
use necro_mmo.Common.{
  ℕ, ◌≡◌, ◌≢◌, refl, Bool, true, false, not, List, [], ◌∷◌, arith, Bool-cases, inl, inr, ◌==◌,
}
use necro_mmo.Message.{active, active_size}
use necro_mmo.Auth.Served.{read_at_lem}
use necro_mmo.World.{selecting_characters, WorldSession, Env, rank}
use necro_mmo.World.Handlers.{pick_prefix, greeted, handle_greet_packet}
use necro_mmo.World.Rules.{Rules, Wires}
use necro_mmo.World.Served.{
  Served, number_at, handle_enum_character-Served, ServedBy, unchanged, text_size,
}

pick_prefix_lem :
    (client : ℕ) (ps : List ℕ) (last : ℕ)
    → (pick_prefix client ps last).1 ≡ true
    → (pick_prefix client ps last).0 ≢ client
unfolding pick_prefix
pick_prefix_lem client [] last e = cc
pick_prefix_lem client (p ∷ ps) last e = elim (Bool-cases (p == client)) [
  | inl same ↦ rw same (pick_prefix_lem client ps p (rw same at e))
  | inr other ↦ rw other (λ k. ground arith)
]

-- The two prefixes are known, and are not the same.
greeted-Served :
    (env : Env) (client prefix : ℕ) (done : Bool) (a : WorldSession)
    → Rules a
    → Wires a
    → rank a.status ≡ 2
    → (done ≡ true → prefix ≢ client)
    → Served a (greeted env client (prefix, done) a).0
unfolding greeted
greeted-Served env client prefix false a r w two apart = record {
  rules = record {
    lookups = r.lookups;
    enters = r.enters;
    exits = r.exits;
    early = r.early;
    owned = r.owned;
    holds = r.holds;
    inside = r.inside;
    known = λ h. refl;
    apart = λ h. absurd (omega arith);
    registered = r.registered;
  };
  wires = record { flows = w.flows; buffer = w.buffer; plain = w.plain };
  unread = refl;
  text = refl;
  calm = (refl, λ k. k, λ k. k);
}
greeted-Served env client prefix true a r w two apart =
    let b : WorldSession = record a {
      client_prefix_known = true;
      data' = record a.data' {
        clients_iv_prefix = client;
        iv = record { prefix = prefix; counter = 0 };
      };
      last_activity = env.now;
      status = selecting_characters;
    } in
    let s =
      handle_enum_character-Served env b
        (record {
          lookups = ground (arith, r.lookups);
          enters = ground (arith, r.enters);
          exits = ground (arith, r.exits);
          early = λ h. absurd (omega arith);
          owned = r.owned;
          holds = λ h. absurd (omega (arith, r.holds h));
          inside = λ h. absurd (omega arith);
          known = λ h. refl;
          apart = λ h. apart refl;
          registered = ground (arith, r.registered);
        })
        (record { flows = w.flows; buffer = w.buffer; plain = w.plain }) (omega arith) in
    record {
      rules = s.rules;
      wires = s.wires;
      unread = s.unread;
      text = s.text;
      calm = (s.calm.0, s.calm.1, λ k. absurd (omega (arith, s.calm.2 k)));
    }

pub handle_greet_packet-Served :
    (env : Env) (a : WorldSession)
    → Rules a
    → Wires a
    → rank a.status ≡ 2
    → ServedBy a (handle_greet_packet env a)
unfolding handle_greet_packet
handle_greet_packet-Served env a r w two =
    let bytes = active a.current_decrypted_packet in
    let client = number_at 4 2 bytes in
    let (prefix, done) = pick_prefix client env.prefixes a.data'.iv.prefix in
    elim (Bool-cases (not (active_size a.current_decrypted_packet == 6))) [
      | inl odd ↦ (a, false, rw odd, unchanged a r w)
      | inr right ↦
          let here = read_at_lem 4 2 bytes (omega (arith, text_size 6 a w right)) in
          (
            (greeted env client (prefix, done) a).0,
            (greeted env client (prefix, done) a).1,
            rw (right, here),
            greeted-Served env client prefix done a r w two
                (pick_prefix_lem client env.prefixes a.data'.iv.prefix),
          )
    ]
