-- ===== src/World/Served/Player.antt =====
-- What the packets of a player do to a session
-- (src/NECROWorld/Server/Sockets/Handlers/PlayerHandlers.cpp).
use mathlib.Core.Option
use necro_mmo.Common.{
  ℕ, ◌≡◌, refl, true, false, not, some, List, [], ◌∷◌, length, arith, Bool-cases, inl, inr, ◌==◌,
}
use necro_mmo.Message.{active, active_size}
use necro_mmo.Simulation.{Movement}
use necro_mmo.Socket.{is_open}
use necro_mmo.Auth.Served.{read_at_lem}
use necro_mmo.World.{
  entering_world, WorldSession, Env, rank, post, sel_by_charid, exit_world, move_player,
}
use necro_mmo.World.Handlers.{
  handle_enter_world, do_exit_world, handle_exit_world, handle_player_movement_update,
  read_movement,
}
use necro_mmo.World.Rules.{Rules, Wires, count-append, All-append, OfAccount}
use necro_mmo.World.Served.{Served, number_at, touched, asked, ServedBy, unchanged, text_size}

pub handle_enter_world-Served :
    (env : Env) (a : WorldSession)
    → Rules a
    → Wires a
    → rank a.status ≡ 4
    → ServedBy a (handle_enter_world env a)
unfolding handle_enter_world
handle_enter_world-Served env a r w four =
    let bytes = active a.current_decrypted_packet in
    let id = number_at 4 2 bytes in
    elim (Bool-cases (not (active_size a.current_decrypted_packet == 6))) [
      | inl odd ↦ (a, false, rw odd, unchanged a r w)
      | inr right ↦
          let here = read_at_lem 4 2 bytes (omega (arith, text_size 6 a w right)) in
          elim (Bool-cases (not env.has_room)) [
            | inl full ↦ (_, false, rw (right, here, full) refl, touched env.now a r w)
            | inr room ↦ (
              record (post (sel_by_charid id) (record a { last_activity = env.now })) {
                status = entering_world;
              },
              true,
              rw (right, here, room) refl,
              record {
                rules = record {
                  lookups =
                      ground (arith, r.lookups, count-append 1 a.posted (sel_by_charid id ∷ []));
                  enters =
                      ground (arith, r.enters, count-append 2 a.posted (sel_by_charid id ∷ []));
                  exits = ground (arith, r.exits, count-append 3 a.posted (sel_by_charid id ∷ []));
                  early = λ h. absurd (omega arith);
                  owned =
                      All-append (OfAccount a.data'.account_id) a.posted (sel_by_charid id ∷ [])
                        r.owned (tt, tt);
                  holds = λ h. absurd (omega (arith, r.holds h));
                  inside = λ h. absurd (omega arith);
                  known = λ h. r.known (omega arith);
                  apart = λ h. r.apart (omega arith);
                  registered = ground (arith, r.registered);
                };
                wires = record { flows = w.flows; buffer = w.buffer; plain = w.plain };
                unread = refl;
                text = refl;
                calm = (refl, λ k. k, λ k. absurd (omega arith));
              },
            )
          ]
    ]

pub handle_exit_world-Served :
    (env : Env) (a : WorldSession)
    → Rules a
    → Wires a
    → rank a.status ≡ 6
    → Served a (handle_exit_world env a).0
unfolding handle_exit_world do_exit_world
handle_exit_world-Served env a r w six =
    elim (Bool-cases (not (active_size a.current_decrypted_packet == 2))) [
      | inl odd ↦ rw odd (unchanged a r w)
      | inr right ↦
          let here : (rank a.status == 4) ≡ false = ground arith in
          let player : not (a.player_guid == 0) ≡ true = ground (arith, r.inside six) in
          rw (right, here, player)
            (record {
              rules = record {
                lookups = ground (
                  arith,
                  r.lookups,
                  count-append 1 a.posted (exit_world a.player_guid true ∷ []),
                );
                enters =
                    ground (
                      arith,
                      r.enters,
                      count-append 2 a.posted (exit_world a.player_guid true ∷ []),
                    );
                exits =
                    ground (
                      arith,
                      r.exits,
                      count-append 3 a.posted (exit_world a.player_guid true ∷ []),
                    );
                early = λ h. absurd (omega arith);
                owned =
                    All-append (OfAccount a.data'.account_id) a.posted
                      (exit_world a.player_guid true ∷ []) r.owned (tt, tt);
                holds = λ h. (omega arith, omega arith);
                inside = λ h. absurd (omega arith);
                known = λ h. r.known (omega arith);
                apart = λ h. r.apart (omega arith);
                registered = ground (arith, r.registered);
              };
              wires = record { flows = w.flows; buffer = w.buffer; plain = w.plain };
              unread = refl;
              text = refl;
              calm = (refl, λ k. k, λ k. absurd (omega arith));
            })
    ]

abbrev pub movement_in : List ℕ → Movement
movement_in bytes = record {
  pos_x = number_at 4 10 bytes;
  pos_y = number_at 4 14 bytes;
  pos_z = number_at 4 18 bytes;
  iso_direction = number_at 1 22 bytes;
  seq = number_at 4 2 bytes;
  acked_correction_id = number_at 4 6 bytes;
}

read_movement_lem :
    (bytes : List ℕ) → length bytes ≡ 23 → read_movement bytes ≡ some (movement_in bytes)
unfolding read_movement Option.bind
read_movement_lem bytes e = rw (
  read_at_lem 4 2 bytes (omega arith),
  read_at_lem 4 6 bytes (omega arith),
  read_at_lem 4 10 bytes (omega arith),
  read_at_lem 4 14 bytes (omega arith),
  read_at_lem 4 18 bytes (omega arith),
  read_at_lem 1 22 bytes (omega arith),
)

pub handle_player_movement_update-Served :
    (env : Env) (a : WorldSession)
    → Rules a
    → Wires a
    → ServedBy a (handle_player_movement_update env a)
unfolding handle_player_movement_update
handle_player_movement_update-Served env a r w = elim (Bool-cases (not (is_open a.socket))) [
  | inl shut ↦ (a, false, rw shut, unchanged a r w)
  | inr alive ↦ elim (Bool-cases (not (active_size a.current_decrypted_packet == 23))) [
    | inl odd ↦ (a, false, rw (alive, odd), unchanged a r w)
    | inr right ↦
        let m = movement_in (active a.current_decrypted_packet) in
        let here = read_movement_lem (active a.current_decrypted_packet) (text_size 23 a w right) in
        (
          post (move_player a.player_guid m) (record a { last_activity = env.now }),
          true,
          rw (alive, right, here),
          asked env.now (move_player a.player_guid m) a r w tt refl refl refl (inl refl),
        )
  ]
]
