-- ===== src/Auth/Served/Realms.antt =====
-- The handler of the realm list on a valid session (src/NECROAuth/Server/Auth/AuthSession.cpp).
use necro_mmo.Common.{
  ◌+◌, ◌%◌, ◌^◌, ◌≡◌, refl, true, [], ◌∷◌, length, arith, Option-cases, inl, inr,
}
use necro_mmo.Packet.{u8, u16, u32, raw, get_content}
use necro_mmo.Packet.Content.{write_fields-empty}
use necro_mmo.Message.{of_moved}
use necro_mmo.Auth.{AuthSession, gather_realmlist_pending, rank}
use necro_mmo.Auth.Progress.{
  Sound, Handles, replied, replied-Flows, sent_with_lem, queue_packet-in_buffer,
}
use necro_mmo.Auth.Handlers.{
  Env, accepted, thrown, send_realmlist, realm_fields, handle_gather_realmlist_packet,
}

module _ (env : Env) (a : AuthSession) (s : Sound a) where
  pub gather_realmlist-Handles :
      rank a.status ≡ 5 → Handles env.sha256 a (handle_gather_realmlist_packet env a)
  unfolding handle_gather_realmlist_packet send_realmlist
  gather_realmlist-Handles status =
      let (fields, count) = realm_fields env.parse_ip env.realms 0 in
      let (payload, e, _, _) = write_fields-empty fields in
      let c = record a {
        last_activity = env.now;
        status = gather_realmlist_pending;
        close_after_send = true;
      } in
      elim (Option-cases (get_content payload)) [
        | inl nothing ↦ (
          thrown c,
          rw (e, handle_gather_realmlist_packet, nothing, send_realmlist),
          record {
            progress = record {
              sound = record {
                flows = s.flows;
                bits = s.bits;
                named = λ _. s.named (omega (arith, status));
              };
              forward = omega (arith, status);
              kept_out = λ _. omega (arith, status);
              still = λ _. refl;
              asked = inl refl;
            };
            buffer = refl;
            packets = refl;
          },
        )
        | inr (content, k) ↦
            let (p, e') =
              sent_with_lem accepted
                (u8 2 ∷ u8 0 ∷ u16 ((4 + length content) % 2 ^ 16) ∷ u32 count ∷ raw content ∷ [])
                c in
            (
              accepted (replied p c),
              rw (e, handle_gather_realmlist_packet, k, send_realmlist) e',
              record {
                progress = record {
                  sound = record {
                    flows = replied-Flows p c s.flows;
                    bits = s.bits;
                    named = λ _. s.named (omega (arith, status));
                  };
                  forward = omega (arith, status);
                  kept_out = λ _. omega (arith, status);
                  still = λ _. refl;
                  asked = inl refl;
                };
                buffer = queue_packet-in_buffer (of_moved p) a.socket;
                packets = refl;
              },
            )
      ]
