-- ===== src/World/Reached.antt =====
-- A session of the world server as a whole (src/NECROWorld/Server/Sockets/WorldSession.cpp and
-- Handlers/PlayerHandlers.cpp): what holds whatever happens to it.
use mathlib.Core.Path.{subst}
use necro_mmo.Common.{
  ℕ, ◌≤◌, ◌<◌, ◌≡◌, refl, sym, Bool, true, false, Option, some, List, [], ◌∷◌, ◌++◌, length, arith,
}
use necro_mmo.Aes.{Gcm}
use necro_mmo.Message as Message
use necro_mmo.Message.{remaining_space}
use necro_mmo.Queue.{try_enqueue}
use necro_mmo.Socket.{make_socket}
use necro_mmo.Simulation.Spawning.Arrival.{try_to_spawn-some_guid}
use necro_mmo.World.{WorldSession, Env, Request, exit_world, make_session}
use necro_mmo.World.Reading.{internal_read_callback}
use necro_mmo.World.Answers.{Shared}
use necro_mmo.World.Answers.Entry.{destroy}
use necro_mmo.World.Rules.{
  Rules-quiet, Rules-answered, answered-lookup, answered-enter, answered-exit, answered-late,
}
use necro_mmo.World.Received.{IsValid, closed-IsValid, internal_read_callback-IsValid}
use necro_mmo.World.Lookups.{db_callback_greetcode_lookup-IsValid}
use necro_mmo.World.Replies.{
  ValidBy, create_checks-ValidBy, create_final-ValidBy, delete_checks-ValidBy, delete_final-ValidBy,
}
use necro_mmo.World.Entering.{enter_world_checks-ValidBy}
use necro_mmo.World.Leaving.{on_enter_world-ValidBy, on_exit_world-ValidBy, destroy-player}
use necro_mmo.World.Selection.{db_callback_handle_enum_character-Selected}
use necro_mmo.World.Turns.{update_session-TurnedBy}
use necro_mmo.World.Connection.{post_close_socket-IsValid, post_force_close_socket-IsValid}
use necro_mmo.World.Written.{internal_write_callback-IsValid}
use necro_mmo.World.Events.{
  without, Answers, Reached, looked_up, listed, creation_checked, created, deletion_checked,
  deleted, entry_checked, entered, exited, undone, moved, accepted, turned, read, wrote, hung_up,
  close_posted, force_close_posted, queued, answered,
}

make_session-IsValid : (prefix : ℕ) → IsValid (make_session prefix)
unfolding make_session make_socket Message.make
make_session-IsValid prefix = record {
  rules = record {
    lookups = omega arith;
    enters = omega arith;
    exits = omega arith;
    early = λ _. refl;
    owned = tt;
    holds = λ k. absurd (omega arith);
    inside = λ k. absurd (omega arith);
    known = λ k. absurd (omega arith);
    apart = λ k. absurd (omega arith);
    registered = refl;
  };
  wires = record {
    flows = record { idle = λ _. refl; busy = λ e. cc; valid = tt };
    buffer = record { read_first = omega arith; inside = omega arith };
    plain = record { read_first = omega arith; inside = omega arith };
  };
  quiet = λ _. refl;
  fresh = λ _. (refl, refl);
  waits = λ k. absurd (omega arith);
}

ran :
    {o : Option (WorldSession × Bool)}
    → {b : WorldSession} → {ok : Bool} → ValidBy o
    → o ≡ some (b, ok)
    → IsValid b
ran (c, ok', e, v) e' = subst IsValid (cc (e, e')) v

pub without-IsValid :
    (a : WorldSession) (xs ys : List Request) (q : Request)
    → a.posted ≡ xs ++ q ∷ ys
    → IsValid a
    → IsValid (without a xs ys)
without-IsValid a xs ys q e h = record {
  rules = Rules-answered a xs ys q e h.rules;
  wires = record { flows = h.wires.flows; buffer = h.wires.buffer; plain = h.wires.plain };
  quiet = h.quiet;
  fresh = h.fresh;
  waits = h.waits;
}

module _ (gcm : Gcm) (a b : WorldSession) (xs ys : List Request) (h : IsValid a) where
  abbrev rest : WorldSession
  rest = without a xs ys

  -- An answer to a request that a valid session has posted.
  answered-IsValid :
      (q : Request) → a.posted ≡ xs ++ q ∷ ys → Answers gcm (without a xs ys) q b → IsValid b
  answered-IsValid q e (looked_up code env time err row ok done) =
      let (one, none_left) = answered-lookup a xs ys q e h.rules refl in
      ran
        (db_callback_greetcode_lookup-IsValid gcm env time err row rest
          (without-IsValid a xs ys q e h) one none_left)
        done
  answered-IsValid q e (listed account env alive err rows shared after kicked ok m done) =
      let (c, after', kicked', ok', e', s, _) =
        db_callback_handle_enum_character-Selected gcm env alive err rows shared rest
          (without-IsValid a xs ys q e h) m in
      subst IsValid (cc (e', done)) s.selected.valid
  answered-IsValid q e (creation_checked account ctx env err characters same ok done) =
      ran
        (create_checks-ValidBy gcm env err rest (without-IsValid a xs ys q e h) characters same ctx
          (answered-late a xs ys q e h.rules refl))
        done
  answered-IsValid q e (created account ctx env err ok done) =
      ran (create_final-ValidBy gcm env err rest (without-IsValid a xs ys q e h)) done
  answered-IsValid q e (deletion_checked account ctx env err row ok done) =
      ran
        (delete_checks-ValidBy gcm env err rest (without-IsValid a xs ys q e h) row ctx
          (answered-late a xs ys q e h.rules refl))
        done
  answered-IsValid q e (deleted account ctx env err ok done) =
      ran (delete_final-ValidBy gcm env err rest (without-IsValid a xs ys q e h)) done
  answered-IsValid q e (entry_checked id env err row ok done) =
      let (five, none_left) = answered-enter a xs ys q e h.rules refl in
      ran
        (enter_world_checks-ValidBy gcm env err row id rest (without-IsValid a xs ys q e h) five
          none_left)
        done
  answered-IsValid q e (entered c env fpu queue s s' r ok v few spawned done) =
      let (five, none_left) = answered-enter a xs ys q e h.rules refl in
      ran
        (on_enter_world-ValidBy gcm env r rest (without-IsValid a xs ys q e h) five none_left
          (try_to_spawn-some_guid fpu c queue s s' r v few spawned))
        done
  answered-IsValid q e (exited guid env success ok done) =
      let (seven, none_left) = answered-exit a xs ys q e h.rules refl in
      ran
        (on_exit_world-ValidBy gcm env success rest (without-IsValid a xs ys q e h) seven none_left)
        done
  answered-IsValid q e (undone guid same) = subst IsValid (sym same) (without-IsValid a xs ys q e h)
  answered-IsValid q e (moved guid m same) =
      subst IsValid (sym same) (without-IsValid a xs ys q e h)

-- Every session that can come about, by whatever bytes the client sends and whatever answers come, in
-- whatever order, keeps the rules: at most one request that changes its status is unanswered, and
-- that is the one of its status; every request that names an account names the session's own; it has a
-- player only in the world and while it leaves, and always one in the world; the prefixes of the two
-- sides' nonces differ from the greeting on; it is registered exactly from the first list of characters
-- on; until its first read is posted it waits for the greeting, and no read is under way then or while
-- the greet code is looked up. Its buffers are well formed, and no packet is left half handled while it is
-- open.
pub session_rules : (gcm : Gcm) (a : WorldSession) → Reached gcm a → IsValid a
session_rules gcm b (accepted prefix) = make_session-IsValid prefix
session_rules gcm b (turned {a} evp timeout now go r e) =
    ran (update_session-TurnedBy gcm evp timeout now a (session_rules gcm a r)) e
session_rules gcm b (read {a} env bytes r going fits e) =
    let (c, e', v) =
      internal_read_callback-IsValid bytes gcm env a (session_rules gcm a r) going fits in
    subst IsValid (cc (e, e')) v
session_rules gcm b (wrote {a} n now r going few e) =
    let (c, e', v, _) = internal_write_callback-IsValid n now a (session_rules gcm a r) going few in
    subst IsValid (cc (e, e')) v
session_rules gcm b (hung_up {a} r) = closed-IsValid a (session_rules gcm a r)
session_rules gcm b (close_posted {a} r) = post_close_socket-IsValid a (session_rules gcm a r)
session_rules gcm b (force_close_posted {a} r) =
    post_force_close_socket-IsValid a (session_rules gcm a r)
session_rules gcm b (queued {a} p r) =
    let h = session_rules gcm a r in
    record {
      rules =
          Rules-quiet a a.socket a.current_decrypted_packet a.last_activity
            a.expected_counter_for_next_packet (try_enqueue p a.player_packet_queue).0 h.rules;
      wires = record { flows = h.wires.flows; buffer = h.wires.buffer; plain = h.wires.plain };
      quiet = h.quiet;
      fresh = h.fresh;
      waits = h.waits;
    }
session_rules gcm b (answered {a} xs ys q r e done) =
    answered-IsValid gcm a b xs ys (session_rules gcm a r) q e done

-- In every session that can come about, whatever bytes come that fit the buffer, the read callback
-- ends, and it reads nothing beyond what has arrived.
pub session_reads :
    (gcm : Gcm) (a : WorldSession) (env : ℕ → Env) (bytes : List ℕ)
    → Reached gcm a
    → a.socket.reading ≡ true
    → length bytes ≤ remaining_space a.socket.in_buffer
    → (b : WorldSession) × (internal_read_callback (some bytes) gcm env a ≡ some b) × Reached gcm b
session_reads gcm a env bytes r going fits =
    let (b, e, _) =
      internal_read_callback-IsValid bytes gcm env a (session_rules gcm a r) going fits in
    (b, e, read env bytes r going fits e)

-- A player is never left in the world. Of every session that can come about, the destructor makes the
-- player that it has leave the world, by exactly one command, and posts nothing without one.
pub session_leaves :
    (gcm : Gcm) (a : WorldSession) (shared : Shared)
    → Reached gcm a
    → (0 < a.player_guid
        → (destroy shared a).1.posted ≡ a.posted ++ exit_world a.player_guid false ∷ [])
      × (a.player_guid ≡ 0 → (destroy shared a).1.posted ≡ a.posted)
session_leaves gcm a shared r = destroy-player shared a (session_rules gcm a r)
