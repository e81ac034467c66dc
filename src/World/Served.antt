-- ===== src/World/Served.antt =====
-- What the handlers of the world server's packets do to a session
-- (src/NECROWorld/Server/Sockets/WorldSession.cpp and Handlers/PlayerHandlers.cpp).
pub mod Greeting
pub mod Player
use mathlib.Core.Option
use necro_mmo.Common.{
  ℕ, ◌≤◌, ◌≡◌, ◌≢◌, ◌⊎◌, refl, Bool, true, false, not, ◌&&◌, some, Option, List, [], ◌∷◌, length,
  take, drop, arith, Bool-cases, inl, inr, ◌==◌,
}
use necro_mmo.Common.Bytes.{of_bytes}
use necro_mmo.Message.{active, active_size}
use necro_mmo.Message.Buffer.{active_size_lem}
use necro_mmo.Simulation.{Movement}
use necro_mmo.Socket.{is_open}
use necro_mmo.Auth.Served.{read_at_lem}
use necro_mmo.World.{
  Request, selecting_characters, entering_world, WorldSession, Env, rank, post, sel_enum,
  sel_by_charid, exit_world, move_player,
}
use necro_mmo.World.Handlers.{
  pick_prefix, handle_enum_character, greeted, handle_greet_packet, handle_enter_world,
  do_exit_world, handle_exit_world, handle_player_movement_update, read_movement,
}
use necro_mmo.World.Sending.{Calm, mood}
use necro_mmo.World.Rules.{
  Rules, Wires, Rules-post, Rules-quiet, count-append, one_of, All-append, OfAccount,
}

-- What a handler leaves: a valid session, with the same unread bytes and the same text.
pub record Served (a b : WorldSession) : Type 0 where
  pub rules : Rules b
  pub wires : Wires b
  pub unread : b.socket.in_buffer ≡ a.socket.in_buffer
  pub text : b.current_decrypted_packet ≡ a.current_decrypted_packet
  pub calm : Calm (mood a) b

-- The `k` bytes of a text at an offset, as a number.
abbrev pub number_at : ℕ → ℕ → List ℕ → ℕ
number_at k i bytes = of_bytes (take k (drop i bytes))

-- Only the time of the last activity has changed.
pub touched :
    (now : ℕ) (a : WorldSession) → Rules a → Wires a → Served a (record a { last_activity = now })
touched now a r w = record {
  rules =
      Rules-quiet a a.socket a.current_decrypted_packet now a.expected_counter_for_next_packet
        a.player_packet_queue r;
  wires = record { flows = w.flows; buffer = w.buffer; plain = w.plain };
  unread = refl;
  text = refl;
  calm = (refl, λ k. k, λ k. k);
}

-- A request that does not bear on the status has been posted.
pub asked :
    (now : ℕ) (q : Request) (a : WorldSession)
    → Rules a
    → Wires a
    → OfAccount a.data'.account_id q
    → one_of 1 q ≡ 0
    → one_of 2 q ≡ 0
    → one_of 3 q ≡ 0
    → (one_of 4 q ≡ 0) ⊎ (3 ≤ rank a.status)
    → Served a (post q (record a { last_activity = now }))
asked now q a r w own k1 k2 k3 k4 =
    let t = touched now a r w in
    record {
      rules = Rules-post q (record a { last_activity = now }) t.rules own k1 k2 k3 k4;
      wires = record { flows = w.flows; buffer = w.buffer; plain = w.plain };
      unread = refl;
      text = refl;
      calm = (refl, λ k. k, λ k. k);
    }

pub handle_enum_character-Served :
    (env : Env) (a : WorldSession)
    → Rules a
    → Wires a
    → 3 ≤ rank a.status
    → Served a (handle_enum_character env a).0
unfolding handle_enum_character
handle_enum_character-Served env a r w late =
    let size = active_size a.current_decrypted_packet in
    elim (Bool-cases (not (size == 2) && not (size == 6))) [
      | inl odd ↦ rw odd (record {
        rules = r;
        wires = w;
        unread = refl;
        text = refl;
        calm = (refl, λ k. k, λ k. k);
      })
      | inr right ↦ elim (Bool-cases (not env.has_room)) [
        | inl full ↦ rw (right, full) (touched env.now a r w)
        | inr room ↦
            rw (right, room)
              (asked env.now (sel_enum a.data'.account_id) a r w refl refl refl refl (inr late))
      ]
    ]

-- What a handler gives: its read of the packet stays inside it.
abbrev pub ServedBy : WorldSession → Option (WorldSession × Bool) → Type 0
ServedBy a o = (b : WorldSession) × (ok : Bool) × (o ≡ some (b, ok)) × Served a b

pub unchanged : (a : WorldSession) → Rules a → Wires a → Served a a
unchanged a r w = record {
  rules = r;
  wires = w;
  unread = refl;
  text = refl;
  calm = (refl, λ k. k, λ k. k);
}

-- How many bytes there are to read.
pub text_size :
    (n : ℕ) (a : WorldSession)
    → Wires a
    → not (active_size a.current_decrypted_packet == n) ≡ false
    → length (active a.current_decrypted_packet) ≡ n
text_size n a w e = ground (arith, active_size_lem a.current_decrypted_packet w.plain)
