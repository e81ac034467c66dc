-- ===== src/World/Rounds.antt =====
-- The text of a frame, in the world server's read loop
-- (src/NECROWorld/Server/Sockets/WorldSession.cpp, `AsyncReadCallback`).
use mathlib.Core.Option
use necro_mmo.Common.{
  ℕ, zero, suc, ◌+◌, ◌≤◌, ◌≡◌, refl, sym, ap, ◌∙◌, Bool, true, false, not, Option, some, [], ◌++◌,
  length, take, arith, Bool-cases, inl, inr, ◌==◌, ltb, take_all, Option-cases,
}
use necro_mmo.Message as Message
use necro_mmo.Message.{active, active_size, clear, soft_clear, write}
use necro_mmo.Message.Stream.{write-active}
use necro_mmo.Auth.Served.{read_at_lem}
use necro_mmo.World.{
  WorldSocketStatus, sessionkey_gathered, authed, in_world, WorldSession, Env, rank,
}
use necro_mmo.World.Handlers.{handle_enum_character, handle_exit_world}
use necro_mmo.World.Reading.{
  Round, again, over, dropped, find_handler, run_handler, conclude, dispatch, handle_plain,
}
use necro_mmo.World.Sending.{Calm, mood}
use necro_mmo.World.Rules.{Rules, Wires, Rules-quiet}
use necro_mmo.World.Served.{Served, ServedBy, number_at, handle_enum_character-Served}
use necro_mmo.World.Served.Player.{
  handle_enter_world-Served, handle_exit_world-Served, handle_player_movement_update-Served,
}
use necro_mmo.World.Served.Greeting.{handle_greet_packet-Served}
use necro_mmo.World.Requests.{handle_create_new_char-Asks, handle_delete_character-Asks}

-- A session between two packets.
pub record IsReady (a : WorldSession) : Type 0 where
  pub rules : Rules a
  pub wires : Wires a
  pub no_text : active a.current_decrypted_packet ≡ []

unread : WorldSession → ℕ
unread a = length (active a.socket.in_buffer)

-- What a round gives: a packet was handled, and at least 32 bytes are gone; or there is no whole frame,
-- and all of them are left; or the connection is to be dropped.
abbrev pub Rounded : WorldSession → Round → Type 0
Rounded a (again b) =
    IsReady b
    × (length (active b.socket.in_buffer) + 32 ≤ length (active a.socket.in_buffer))
    × Calm (mood a) b
Rounded a (over b) =
    IsReady b × (active b.socket.in_buffer ≡ active a.socket.in_buffer) × Calm (mood a) b
Rounded a (dropped b) = Rules b × Wires b × Calm (mood a) b

abbrev pub RoundedBy : WorldSession → Option Round → Type 0
RoundedBy a o = (r : Round) × (o ≡ some r) × Rounded a r

-- The status that a command wants.
status_of :
    (cmd : ℕ) (t s : WorldSocketStatus) (n size : ℕ)
    → ◌≡◌ {A = Option (WorldSocketStatus × ℕ)} (some (t, n)) (some (s, size))
    → rank t ≡ rank s
status_of cmd t s n size e = cc

-- The handler of a command that the status admits.
run_handler-ServedBy :
    (env : Env) (cmd : ℕ) (a : WorldSession) (s : WorldSocketStatus) (size : ℕ)
    → Rules a
    → Wires a
    → find_handler cmd ≡ some (s, size)
    → rank a.status ≡ rank s
    → ServedBy a (run_handler env cmd a)
unfolding run_handler find_handler
run_handler-ServedBy env zero a s size r w e k =
    handle_greet_packet-Served env a r w (k ∙ sym (status_of 0 sessionkey_gathered s 6 size e))
run_handler-ServedBy env (suc zero) a s size r w e k =
    let four = k ∙ sym (status_of 1 authed s 2 size e) in
    (
      (handle_enum_character env a).0,
      (handle_enum_character env a).1,
      refl,
      handle_enum_character-Served env a r w (omega (arith, four)),
    )
run_handler-ServedBy env (suc (suc zero)) a s size r w e k =
    let (b, ok, done, asks) =
      handle_create_new_char-Asks env a r w (k ∙ sym (status_of 2 authed s 4 size e)) in
    (b, ok, done, asks.served)
run_handler-ServedBy env (suc (suc (suc zero))) a s size r w e k =
    let (b, ok, done, asks) =
      handle_delete_character-Asks env a r w (k ∙ sym (status_of 3 authed s 4 size e)) in
    (b, ok, done, asks.served)
run_handler-ServedBy env (suc (suc (suc (suc zero)))) a s size r w e k =
    handle_enter_world-Served env a r w (k ∙ sym (status_of 4 authed s 6 size e))
run_handler-ServedBy env (suc (suc (suc (suc (suc zero))))) a s size r w e k = (
  (handle_exit_world env a).0,
  (handle_exit_world env a).1,
  refl,
  handle_exit_world-Served env a r w (k ∙ sym (status_of 5 in_world s 2 size e)),
)
run_handler-ServedBy env (suc (suc (suc (suc (suc (suc zero)))))) a s size r w e k =
    handle_player_movement_update-Served env a r w
run_handler-ServedBy env (suc (suc (suc (suc (suc (suc (suc n))))))) a s size r w e k = cc

text_cleared : (m : Message.Message) → Message.IsValid (soft_clear m) × (active (soft_clear m) ≡ [])
unfolding soft_clear
text_cleared m = (record { read_first = omega arith; inside = omega arith }, refl)

clear-IsValid : (m : Message.Message) → Message.IsValid (clear m)
unfolding clear
clear-IsValid m = record { read_first = omega arith; inside = omega arith }

-- The text may change under the rules and the wires.
with_text :
    (a : WorldSession) (m : Message.Message)
    → Rules a
    → Wires a
    → Message.IsValid m
    → Rules (record a { current_decrypted_packet = m })
      × Wires (record a { current_decrypted_packet = m })
with_text a m r w v = (
  Rules-quiet a a.socket m a.last_activity a.expected_counter_for_next_packet a.player_packet_queue
      r,
  record { flows = w.flows; buffer = w.buffer; plain = v },
)

-- After a frame that was opened, of `left` unread bytes.
abbrev pub After : ℕ → Bool × Bool × ℕ → Round → Type 0
After left m (again b) = IsReady b × (length (active b.socket.in_buffer) + 32 ≤ left) × Calm m b
After left m (over b) = ⊥
After left m (dropped b) = Rules b × Wires b × Calm m b

-- A text, from a frame that is gone.
module _ (env : Env) (a : WorldSession) (r : Rules a) (w : Wires a) (left : ℕ)
    (gone : length (active a.socket.in_buffer) + 32 ≤ left) where
  conclude-After :
      (b : WorldSession) (ok : Bool) → Served a b → After left (mood a) (conclude (b, ok))
  unfolding conclude
  conclude-After b true s =
      let (v, nothing) = text_cleared b.current_decrypted_packet in
      let (rules, wires) = with_text b (soft_clear b.current_decrypted_packet) s.rules s.wires v in
      (
        record { rules = rules; wires = wires; no_text = nothing },
        omega (arith, ap (λ m. length (active m)) s.unread),
        s.calm,
      )
  conclude-After b false s = (s.rules, s.wires, s.calm)

  dispatch-After : (cmd : ℕ) → (o : Round) × (dispatch env cmd a ≡ some o) × After left (mood a) o
  unfolding dispatch
  dispatch-After cmd = elim (Option-cases (find_handler cmd)) [
    | inl unknown ↦ (
      dropped (record a { current_decrypted_packet = clear a.current_decrypted_packet }),
      rw (unknown, dispatch),
      let (rules, wires) =
            with_text a (clear a.current_decrypted_packet) r w
              (clear-IsValid a.current_decrypted_packet) in
          (rules, wires, (refl, λ k. k, λ k. k)),
    )
    | inr ((s, size), found) ↦ elim (Bool-cases (not (rank a.status == rank s))) [
      | inl other ↦ (dropped a, rw (found, dispatch, other), (r, w, (refl, λ k. k, λ k. k)))
      | inr right ↦
          let (b, ok, done, served) =
            run_handler-ServedBy env cmd a s size r w found (ground arith) in
          (conclude (b, ok), rw (found, dispatch, right, done), conclude-After b ok served)
    ]
  ]

-- The text of a frame that was opened: the handler sees all of it, and nothing else.
pub handle_plain-After :
    (env : Env) (n : ℕ) (a : WorldSession) (left : ℕ)
    → IsReady a
    → length a.socket.in_buffer.cipher_bytes ≡ n
    → length (active a.socket.in_buffer) + 32 ≤ left
    → (o : Round) × (handle_plain env n a ≡ some o) × After left (mood a) o
unfolding handle_plain Option.bind
handle_plain-After env n a left h size gone =
    let text = a.socket.in_buffer.cipher_bytes in
    let (m, e, vm, act, _) = write-active (take n text) a.current_decrypted_packet h.wires.plain in
    let whole : active m ≡ text =
      act ∙ (ap (λ l. l ++ take n text) h.no_text ∙ take_all n text (omega arith)) in
    let (rules, wires) = with_text a m h.rules h.wires vm in
    elim (Bool-cases (ltb n 2)) [
      | inl short ↦ (
        dropped (record a { current_decrypted_packet = m }),
        rw (e, short),
        (rules, wires, (refl, λ k. k, λ k. k)),
      )
      | inr enough ↦
          let here = read_at_lem 2 0 (active m) (ground (arith, ap length whole)) in
          let (o, done, after) =
            dispatch-After env (record a { current_decrypted_packet = m }) rules wires left gone
              (number_at 2 0 (active m)) in
          (o, rw (e, enough, here) done, after)
    ]
