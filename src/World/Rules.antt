-- ===== src/World/Rules.antt =====
-- What holds of a session of the world server between two events
-- (src/NECROWorld/Server/Sockets/WorldSession.cpp, Handlers/PlayerHandlers.cpp).
use mathlib.Core.Path.{subst}
use necro_mmo.Common.{
  ℕ, ◌+◌, ◌≤◌, ◌<◌, ◌≡◌, ◌≢◌, sym, ap, ◌∙◌, Bool, true, List, [], ◌∷◌, ◌++◌, All, ◌==◌,
  if◌then◌else◌, leb, arith, Bool-cases, inl, inr, ◌⊎◌,
}
use necro_mmo.Aes.{Gcm}
use necro_mmo.Message as Message
use necro_mmo.Packet.{Packet}
use necro_mmo.Socket.{Socket}
use necro_mmo.Socket.Sending.{Flows}
use necro_mmo.World.{
  WorldSession, Request, rank, post, close_session, sessionkey_by_greetcode, sel_enum,
  create_checks, ins_character, delete_checks, delete_character, sel_by_charid, spawn_player,
  exit_world, rollback_spawn, move_player,
}
use necro_mmo.World.Sending.{Sent, close_socket-Flows, close_socket_quiet}

-- Lookups of a greet code are of the kind 1, the steps of entering the world of the kind 2, an exit
-- whose result comes back is of the kind 3, what bears an account is of the kind 4.
abbrev pub kind : Request → ℕ
kind (sessionkey_by_greetcode code) = 1
kind (sel_enum account) = 4
kind (create_checks account ctx) = 4
kind (ins_character account ctx) = 4
kind (delete_checks ctx account) = 4
kind (delete_character ctx account) = 4
kind (sel_by_charid id) = 2
kind (spawn_player c) = 2
kind (exit_world guid comes_back) = if comes_back then 3 else 0
kind (rollback_spawn guid) = 0
kind (move_player guid m) = 0

abbrev pub one_of : ℕ → Request → ℕ
one_of k r = if kind r == k then 1 else 0

-- How many requests of a kind are not answered.
abbrev pub count : ℕ → List Request → ℕ
count k [] = 0
count k (r ∷ rs) = one_of k r + count k rs

pub count-append : (k : ℕ) (xs ys : List Request) → count k (xs ++ ys) ≡ count k xs + count k ys
count-append k [] ys = omega arith
count-append k (x ∷ xs) ys = omega (arith, count-append k xs ys)

-- A request is for the account, where it bears one.
abbrev pub OfAccount : ℕ → Request → Type 0
OfAccount account (sessionkey_by_greetcode code) = Unit
OfAccount account (sel_enum a) = a ≡ account
OfAccount account (create_checks a ctx) = a ≡ account
OfAccount account (ins_character a ctx) = a ≡ account
OfAccount account (delete_checks ctx a) = a ≡ account
OfAccount account (delete_character ctx a) = a ≡ account
OfAccount account (sel_by_charid id) = Unit
OfAccount account (spawn_player c) = Unit
OfAccount account (exit_world guid comes_back) = Unit
OfAccount account (rollback_spawn guid) = Unit
OfAccount account (move_player guid m) = Unit

abbrev pub at : ℕ → WorldSession → ℕ
at n a = if rank a.status == n then 1 else 0

-- The requests that wait for an answer, and what the session may do meanwhile.
pub record Rules (a : WorldSession) : Type 0 where
  -- The session is waiting for at most one answer that changes its status.
  pub lookups : count 1 a.posted ≤ at 1 a
  pub enters : count 2 a.posted ≤ at 5 a
  pub exits : count 3 a.posted ≤ at 7 a
  pub early : rank a.status ≤ 2 → count 4 a.posted ≡ 0
  pub owned : All (OfAccount a.data'.account_id) a.posted
  -- It has a player in the world and while it leaves.
  pub holds : 0 < a.player_guid → (6 ≤ rank a.status) × (rank a.status ≤ 7)
  pub inside : rank a.status ≡ 6 → 0 < a.player_guid
  -- The two sides have different prefixes before a reply is encrypted.
  pub known : 3 ≤ rank a.status → a.client_prefix_known ≡ true
  pub apart : 3 ≤ rank a.status → a.data'.iv.prefix ≢ a.data'.clients_iv_prefix
  pub registered : a.has_registered ≡ leb 4 (rank a.status)

-- The connection's buffers.
pub record Wires (a : WorldSession) : Type 0 where
  pub flows : Flows a.socket
  pub buffer : Message.IsValid a.socket.in_buffer
  pub plain : Message.IsValid a.current_decrypted_packet

pub All-append :
    {A : Type 0} (P : A → Type 0) (xs ys : List A) → All P xs → All P ys → All P (xs ++ ys)
All-append P [] ys h k = k
All-append P (x ∷ xs) ys h k = (h.0, All-append P xs ys h.1 k)

pub All-left : {A : Type 0} (P : A → Type 0) (xs ys : List A) → All P (xs ++ ys) → All P xs
All-left P [] ys h = tt
All-left P (x ∷ xs) ys h = (h.0, All-left P xs ys h.1)

pub All-right : {A : Type 0} (P : A → Type 0) (xs ys : List A) → All P (xs ++ ys) → All P ys
All-right P [] ys h = h
All-right P (x ∷ xs) ys h = All-right P xs ys h.1

-- Requests that bear no account are for any.
pub none-OfAccount : (account : ℕ) (rs : List Request) → count 4 rs ≡ 0 → All (OfAccount account) rs
none-OfAccount account [] e = tt
none-OfAccount account (sessionkey_by_greetcode code ∷ rs) e =
    (tt, none-OfAccount account rs (omega arith))
none-OfAccount account (sel_enum a ∷ rs) e = absurd (omega arith)
none-OfAccount account (create_checks a ctx ∷ rs) e = absurd (omega arith)
none-OfAccount account (ins_character a ctx ∷ rs) e = absurd (omega arith)
none-OfAccount account (delete_checks ctx a ∷ rs) e = absurd (omega arith)
none-OfAccount account (delete_character ctx a ∷ rs) e = absurd (omega arith)
none-OfAccount account (sel_by_charid id ∷ rs) e = (tt, none-OfAccount account rs (omega arith))
none-OfAccount account (spawn_player c ∷ rs) e = (tt, none-OfAccount account rs (omega arith))
none-OfAccount account (exit_world guid comes_back ∷ rs) e =
    (tt, none-OfAccount account rs (omega arith))
none-OfAccount account (rollback_spawn guid ∷ rs) e = (tt, none-OfAccount account rs (omega arith))
none-OfAccount account (move_player guid m ∷ rs) e = (tt, none-OfAccount account rs (omega arith))

-- The rules say nothing of the connection, of the buffers and of the clock.
pub Rules-quiet :
    (a : WorldSession) (s : Socket) (m : Message.Message) (now counter : ℕ) (queue : List Packet)
    → Rules a
    → Rules (record a {
      socket = s;
      current_decrypted_packet = m;
      last_activity = now;
      expected_counter_for_next_packet = counter;
      player_packet_queue = queue;
    })
Rules-quiet a s m now counter queue r = record {
  lookups = r.lookups;
  enters = r.enters;
  exits = r.exits;
  early = r.early;
  owned = r.owned;
  holds = r.holds;
  inside = r.inside;
  known = r.known;
  apart = r.apart;
  registered = r.registered;
}

pub Wires-closed : (a : WorldSession) → Wires a → Wires (close_session a)
Wires-closed a w = record {
  flows = close_socket-Flows a.socket w.flows;
  buffer = subst Message.IsValid (sym (close_socket_quiet a.socket).0) w.buffer;
  plain = w.plain;
}

pub Wires-Sent :
    (gcm : Gcm) (text : List ℕ) (a b : WorldSession) (ok : Bool)
    → Wires a
    → Sent gcm text a b ok
    → Wires b
Wires-Sent gcm text a b ok w s = record {
  flows = s.flows;
  buffer = subst Message.IsValid (sym s.buffer) w.buffer;
  plain = subst Message.IsValid (sym (ap (λ x. x.current_decrypted_packet) s.same)) w.plain;
}

pub Rules-Sent :
    (gcm : Gcm) (text : List ℕ) (a b : WorldSession) (ok : Bool)
    → Rules a
    → Sent gcm text a b ok
    → Rules b
Rules-Sent gcm text a b ok r s = subst Rules (sym s.same) (record {
  lookups = r.lookups;
  enters = r.enters;
  exits = r.exits;
  early = r.early;
  owned = r.owned;
  holds = r.holds;
  inside = r.inside;
  known = r.known;
  apart = λ h k. r.apart h (sym s.prefix ∙ k);
  registered = r.registered;
})

-- A request that is posted.
pub Rules-post :
    (r : Request) (a : WorldSession)
    → Rules a
    → OfAccount a.data'.account_id r
    → one_of 1 r ≡ 0
    → one_of 2 r ≡ 0
    → one_of 3 r ≡ 0
    → (one_of 4 r ≡ 0) ⊎ (3 ≤ rank a.status)
    → Rules (post r a)
Rules-post r a h own k1 k2 k3 k4 = record {
  lookups = omega (arith, h.lookups, count-append 1 a.posted (r ∷ []), k1);
  enters = omega (arith, h.enters, count-append 2 a.posted (r ∷ []), k2);
  exits = omega (arith, h.exits, count-append 3 a.posted (r ∷ []), k3);
  early = λ e. omega (arith, h.early e, count-append 4 a.posted (r ∷ []), late k4 e);
  owned = All-append (OfAccount a.data'.account_id) a.posted (r ∷ []) h.owned (own, tt);
  holds = h.holds;
  inside = h.inside;
  known = h.known;
  apart = h.apart;
  registered = h.registered;
}
  where
    late : (one_of 4 r ≡ 0) ⊎ (3 ≤ rank a.status) → rank a.status ≤ 2 → one_of 4 r ≡ 0
    late (inl e) k = e
    late (inr e) k = absurd (omega arith)

-- A request that is answered, of a kind that changes the status.
module _ (a : WorldSession) (xs ys : List Request) (r : Request) (e : a.posted ≡ xs ++ r ∷ ys)
    (h : Rules a) where
  count-answered : (k : ℕ) → count k a.posted ≡ count k (xs ++ ys) + one_of k r
  count-answered k =
      ap (count k) e ∙ omega (arith, count-append k xs (r ∷ ys), count-append k xs ys)

  pub Rules-answered : Rules (record a { posted = xs ++ ys })
  Rules-answered = record {
    lookups = omega (arith, h.lookups, count-answered 1);
    enters = omega (arith, h.enters, count-answered 2);
    exits = omega (arith, h.exits, count-answered 3);
    early = λ k. omega (arith, h.early k, count-answered 4);
    owned =
        let all = subst (All (OfAccount a.data'.account_id)) e h.owned in
        All-append (OfAccount a.data'.account_id) xs ys
          (All-left (OfAccount a.data'.account_id) xs (r ∷ ys) all)
          (All-right (OfAccount a.data'.account_id) xs (r ∷ ys) all).1;
    holds = h.holds;
    inside = h.inside;
    known = h.known;
    apart = h.apart;
    registered = h.registered;
  }

  pub answered-lookup : kind r ≡ 1 → (rank a.status ≡ 1) × (count 1 (xs ++ ys) ≡ 0)
  answered-lookup k = ground (arith, h.lookups, count-answered 1)

  pub answered-enter : kind r ≡ 2 → (rank a.status ≡ 5) × (count 2 (xs ++ ys) ≡ 0)
  answered-enter k = ground (arith, h.enters, count-answered 2)

  pub answered-exit : kind r ≡ 3 → (rank a.status ≡ 7) × (count 3 (xs ++ ys) ≡ 0)
  answered-exit k = ground (arith, h.exits, count-answered 3)

  pub answered-late : kind r ≡ 4 → 3 ≤ rank a.status
  answered-late k = elim (Bool-cases (leb (rank a.status) 2)) [
    | inl early ↦ absurd (ground (arith, h.early (ground arith), count-answered 4))
    | inr late ↦ ground arith
  ]
