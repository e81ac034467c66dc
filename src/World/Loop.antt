-- ===== src/World/Loop.antt =====
-- The world server's read loop (src/NECROWorld/Server/Sockets/WorldSession.cpp,
-- `AsyncReadCallback`).
use necro_mmo.Common.{
  refl, ◌≢◌, ℕ, zero, suc, ◌+◌, ◌<◌, ◌≡◌, ◌∙◌, Bool, true, false, some, [], ◌∷◌, length, take,
  arith, Bool-cases, inl, inr, ◌==◌, ltb,
}
use necro_mmo.Aes.{Gcm}
use necro_mmo.Message.{active, active_size, read_completed}
use necro_mmo.Message.Buffer.{active_size_lem}
use necro_mmo.Message.Stream.{read_completed-active}
use necro_mmo.World.{
  WorldSession, Env, rank, post, gather_sessionkey_pending, sessionkey_by_greetcode,
}
use necro_mmo.World.Reading.{
  Round, again, over, dropped, read_round, read_loop, read_frames, gather_greet_code,
  async_read_callback,
}
use necro_mmo.World.Sending.{Calm, mood}
use necro_mmo.World.Rules.{Rules, Wires, count-append, All-append, OfAccount}
use necro_mmo.World.Rounds.{IsReady, Rounded}
use necro_mmo.World.Frames.{read_round-RoundedBy}
use necro_mmo.World.Waiting.{Read, ReadBy, reading-Read}

Read-earlier :
    {m : Bool × Bool × ℕ} (b c : WorldSession) (ok : Bool)
    → Calm m b
    → Read (mood b) c ok
    → Read m c ok
Read-earlier b c ok calm r = record {
  rules = r.rules;
  wires = r.wires;
  ready = r.ready;
  idle = λ k. r.idle k ∙ calm.0;
  fresh = λ k. calm.1 (r.fresh k);
  waits = r.waits;
}

read_loop-ReadBy :
    (fuel : ℕ) (gcm : Gcm) (env : ℕ → Env) (a : WorldSession)
    → IsReady a
    → rank a.status ≢ 1
    → length (active a.socket.in_buffer) < fuel
    → ReadBy (mood a) (read_loop fuel gcm env a)
unfolding read_loop
read_loop-ReadBy zero gcm env a h later lt = absurd (omega arith)
read_loop-ReadBy (suc fuel) gcm env a h later lt =
    let (o, e, d) = read_round-RoundedBy gcm (env 0) a h in
    from (read_loop-ReadBy fuel gcm (λ i. env (i + 1))) o e d
  where
    from :
        ((b : WorldSession)
          → IsReady b
          → rank b.status ≢ 1
          → length (active b.socket.in_buffer) < fuel
          → ReadBy (mood b) (read_loop fuel gcm (λ i. env (i + 1)) b))
        → (o : Round) → read_round gcm (env 0) a ≡ some o
        → Rounded a o
        → ReadBy (mood a) (read_loop (suc fuel) gcm env a)
    from next (again b) e (ready, less, calm) =
        let (c, ok, done, r) = next b ready (λ k. later (calm.2 k)) (omega arith) in
        (c, ok, rw (e, read_loop) done, Read-earlier b c ok calm r)
    from next (over b) e (ready, _, calm) =
        let (c, done, r) = reading-Read (mood a) b ready calm later in
        (c, true, rw (e, read_loop) done, r)
    from next (dropped b) e (rules, wires, calm) = (
      b,
      false,
      rw (e, read_loop),
      record {
        rules = rules;
        wires = wires;
        ready = λ k. cc;
        idle = λ _. calm.0;
        fresh = calm.1;
        waits = λ k. absurd (later (calm.2 k));
      },
    )

read_frames-ReadBy :
    (gcm : Gcm) (env : ℕ → Env) (a : WorldSession)
    → IsReady a
    → rank a.status ≢ 1
    → ReadBy (mood a) (read_frames gcm env a)
unfolding read_frames
read_frames-ReadBy gcm env a h later =
    read_loop-ReadBy (suc (active_size a.socket.in_buffer)) gcm env a h later
      (omega (arith, active_size_lem a.socket.in_buffer h.wires.buffer))

gather_greet_code-ReadBy :
    (a : WorldSession)
    → IsReady a
    → rank a.status ≡ 0
    → a.socket.reading ≡ false
    → ReadBy (mood a) (gather_greet_code a)
unfolding gather_greet_code
gather_greet_code-ReadBy a h zero' still =
    let m = a.socket.in_buffer in
    let code = take 16 (active m) in
    elim (Bool-cases (ltb (active_size m) 16)) [
      | inl few ↦
          let (c, done, r) =
            reading-Read (mood a) a h (refl, λ k. k, λ k. k) (λ k. omega (arith, zero', k)) in
          (c, true, rw few done, r)
      | inr enough ↦
          let (v, _) =
            read_completed-active 16 m h.wires.buffer
              (ground (arith, active_size_lem m h.wires.buffer)) in
          let b : WorldSession = post (sessionkey_by_greetcode code) (record a {
            data' = record a.data' { greet_code = code };
            socket = record a.socket { in_buffer = read_completed 16 m };
            status = gather_sessionkey_pending;
          }) in
          let q = sessionkey_by_greetcode code ∷ [] in
          let r = h.rules in
          let rules : Rules b = record {
            lookups = ground (arith, r.lookups, count-append 1 a.posted q);
            enters = ground (arith, r.enters, count-append 2 a.posted q);
            exits = ground (arith, r.exits, count-append 3 a.posted q);
            early = λ k. omega (arith, r.early (omega arith), count-append 4 a.posted q);
            owned = All-append (OfAccount a.data'.account_id) a.posted q r.owned (tt, tt);
            holds = λ k. absurd (omega (arith, r.holds k));
            inside = λ k. absurd (omega arith);
            known = λ k. absurd (omega arith);
            apart = λ k. absurd (omega arith);
            registered = ground (arith, r.registered);
          } in
          let wires : Wires b = record {
            flows = record {
              idle = h.wires.flows.idle;
              busy = h.wires.flows.busy;
              valid = h.wires.flows.valid;
            };
            buffer = v;
            plain = h.wires.plain;
          } in
          (
            b,
            true,
            rw enough,
            record {
              rules = rules;
              wires = wires;
              ready = λ _. record { rules = rules; wires = wires; no_text = h.no_text };
              idle = λ k. cc;
              fresh = λ k. k;
              waits = λ _. still;
            },
          )
    ]

-- The read callback of the world server, between two packets and whatever bytes have come: it ends,
-- after fewer rounds than there are bytes, no handler reads beyond its text, which is a whole frame's,
-- the session keeps to its rules, and while the callback returns 0 it is between two packets again.
pub async_read_callback-ReadBy :
    (gcm : Gcm) (env : ℕ → Env) (a : WorldSession)
    → IsReady a
    → rank a.status ≢ 1
    → a.socket.reading ≡ false
    → ReadBy (mood a) (async_read_callback gcm env a)
unfolding async_read_callback
async_read_callback-ReadBy gcm env a h waits still = elim (Bool-cases (rank a.status == 0)) [
  | inl first ↦
      let (b, ok, done, r) = gather_greet_code-ReadBy a h (ground arith) still in
      (b, ok, rw first done, r)
  | inr later ↦
      let (b, ok, done, r) = read_frames-ReadBy gcm env a h waits in (b, ok, rw later done, r)
]
