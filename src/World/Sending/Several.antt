-- ===== src/World/Sending/Several.antt =====
-- What a session sends of several packets
-- (src/NECROWorld/Server/Sockets/WorldSession.cpp, `ProcessPlayerPacketsQueue`).
use necro_mmo.Common.{
  ℕ, suc, ◌+◌, ◌≡◌, ◌⊎◌, refl, sym, ap, ◌∙◌, Bool, true, false, inl, inr, some, List, [], ◌∷◌, ◌++◌,
  length, arith, take, ◌<◌, if◌then◌else◌,
}
use mathlib.Core.List.{append-nil, append_assoc}
use necro_mmo.Message.Crypt.Outcomes.{encrypts}
use necro_mmo.Aes.{Gcm, EvpRun, Iv, increment_counter}
use necro_mmo.Packet.{Packet}
use necro_mmo.Socket.{is_open}
use necro_mmo.Socket.Sending.{Flows, unsent}
use necro_mmo.World.{WorldSession, send_packet, send_all}
use necro_mmo.World.Sending.{is_fresh, frame_of, Sent, send_packet-Sent}

-- The frames of several texts, under consecutive nonces.
abbrev pub frames_of : Gcm → List ℕ → Iv → List Packet → List ℕ
frames_of gcm key iv [] = []
frames_of gcm key iv (p ∷ ps) =
    frame_of gcm key iv p.bytes ++ frames_of gcm key (increment_counter iv) ps

-- How many packets come before the first that cannot be encrypted; the calls of OpenSSL for the first
-- of them turn out as `evp i`, and so on.
abbrev pub encryptable : (ℕ → EvpRun) → ℕ → List Packet → ℕ
encryptable evp i [] = 0
encryptable evp i (p ∷ ps) =
    let rest = encryptable evp (i + 1) ps in if encrypts (evp i) then suc rest else 0

-- The packets before the first that cannot be encrypted have been sent, in order; they are all, or the
-- connection has been closed.
pub record AllSent (gcm : Gcm) (evp : ℕ → EvpRun) (i : ℕ) (ps : List Packet) (a b : WorldSession)
    : Type 0 where
  pub number : ℕ
  pub counted : number ≡ encryptable evp i ps
  pub same : b ≡ record a { socket = b.socket; data' = record a.data' { iv = b.data'.iv } }
  pub flows : Flows b.socket
  pub buffer : b.socket.in_buffer ≡ a.socket.in_buffer
  pub prefix : b.data'.iv.prefix ≡ a.data'.iv.prefix
  pub reading : b.socket.reading ≡ a.socket.reading
  pub fresh : is_fresh b.socket.underlying_state ≡ true → is_fresh a.socket.underlying_state ≡ true
  pub sent :
      unsent b.socket.out_queue
      ≡ unsent a.socket.out_queue ++ frames_of gcm a.data'.session_key a.data'.iv (take number ps)
  pub ended :
      (number ≡ length ps) × (is_open b.socket ≡ is_open a.socket)
      ⊎ (number < length ps) × (is_open b.socket ≡ false)

pub send_all_lem :
    (gcm : Gcm) (evp : ℕ → EvpRun) (i : ℕ) (ps : List Packet) (a : WorldSession)
    → Flows a.socket
    → (b : WorldSession) × (send_all gcm evp i ps a ≡ some b) × AllSent gcm evp i ps a b
unfolding send_all
send_all_lem gcm evp i [] a f = (
  a,
  refl,
  record {
    number = 0;
    counted = refl;
    same = refl;
    flows = f;
    buffer = refl;
    prefix = refl;
    reading = refl;
    fresh = λ k. k;
    sent = sym (append-nil (unsent a.socket.out_queue));
    ended = inl (refl, refl);
  },
)
send_all_lem gcm evp i (p ∷ ps) a f =
    let (b, ok, e, s, tried) = send_packet-Sent gcm (evp i) p a f in
    from b ok e s tried (send_all_lem gcm evp (i + 1) ps)
  where
    from :
        (b : WorldSession) (ok : Bool)
        → send_packet gcm (evp i) p a ≡ some (b, ok)
        → Sent gcm p.bytes a b ok
        → ok ≡ encrypts (evp i)
        → ((x : WorldSession)
            → Flows x.socket
            → (y : WorldSession) × (send_all gcm evp (i + 1) ps x ≡ some y)
              × AllSent gcm evp (i + 1) ps x y)
        → (c : WorldSession) × (send_all gcm evp i (p ∷ ps) a ≡ some c)
          × AllSent gcm evp i (p ∷ ps) a c
    from b false e s tried later =
        let (shut, _, kept) = s.dropped refl in
        (
          b,
          rw (e, send_all),
          record {
            number = 0;
            counted = sym (rw (sym tried) refl);
            same = s.same;
            flows = s.flows;
            buffer = s.buffer;
            prefix = s.prefix;
            reading = s.reading;
            fresh = s.fresh;
            sent = ap unsent kept ∙ sym (append-nil (unsent a.socket.out_queue));
            ended = inr (omega arith, shut);
          },
        )
    from b true e s tried later =
        let (c, done, all) = later b s.flows in
        let front = take all.number ps in
        let frame = frame_of gcm a.data'.session_key a.data'.iv p.bytes in
        let (first, iv, stays) = s.queued refl in
        let key : b.data'.session_key ≡ a.data'.session_key =
          ap (λ x. x.data'.session_key) s.same in
        (
          c,
          rw (e, send_all) done,
          record {
            number = suc all.number;
            counted = ap suc all.counted ∙ sym (rw (sym tried) refl);
            same =
                all.same
                ∙ ap {A = WorldSession} {B = WorldSession}
                    (λ x. record x {
                      socket = c.socket;
                      data' = record x.data' { iv = c.data'.iv };
                    })
                    s.same;
            flows = all.flows;
            buffer = all.buffer ∙ s.buffer;
            prefix = all.prefix ∙ s.prefix;
            reading = all.reading ∙ s.reading;
            fresh = λ k. s.fresh (all.fresh k);
            sent =
                all.sent
                ∙ (ap (λ l. l ++ frames_of gcm b.data'.session_key b.data'.iv front) first
                    ∙ (append_assoc (unsent a.socket.out_queue) frame
                          (frames_of gcm b.data'.session_key b.data'.iv front)
                        ∙ (ap
                              (λ k.
                                unsent a.socket.out_queue
                                ++ (frame ++ frames_of gcm k b.data'.iv front))
                              key
                            ∙ ap
                                (λ v.
                                  unsent a.socket.out_queue
                                  ++ (frame ++ frames_of gcm a.data'.session_key v front))
                                iv)));
            ended = further c all.number all.ended stays;
          },
        )
      where
        further :
            (c : WorldSession) (n : ℕ)
            → (n ≡ length ps) × (is_open c.socket ≡ is_open b.socket)
              ⊎ (n < length ps) × (is_open c.socket ≡ false)
            → is_open b.socket ≡ is_open a.socket
            → (suc n ≡ length (p ∷ ps)) × (is_open c.socket ≡ is_open a.socket)
              ⊎ (suc n < length (p ∷ ps)) × (is_open c.socket ≡ false)
        further c n (inl (k, o)) stays = inl (ap suc k, o ∙ stays)
        further c n (inr (k, o)) stays = inr (omega arith, o)
