-- ===== src/World/Written.antt =====
-- What a valid session has written (src/NECROWorld/Server/Sockets/WorldSession.cpp,
-- `AsyncWriteCallback`, and src/shared/Sockets/TCPSocketBoost.cpp, `InternalWriteCallback`).
use mathlib.Core.Path.{subst}
use necro_mmo.Common.{
  ℕ, ◌≤◌, ◌≡◌, ◌⊎◌, refl, sym, ap, ◌∙◌, true, false, ◌&&◌, Option, none, some, List, [], ◌∷◌, ◌++◌,
  length, take, Bool-cases, inl, inr, Option-cases, some_unique, ◌==◌, if◌then◌else◌, leb,
}
use necro_mmo.Message as Message
use necro_mmo.Message.{active_size, read_completed}
use necro_mmo.Socket as Socket
use necro_mmo.Socket.{is_open, close_socket, written, async_write}
use necro_mmo.Socket.Receiving.{close_socket_lem}
use necro_mmo.Socket.Sending.{Flows, unsent, front_size, internal_write_callback-Flows}
use necro_mmo.World.{WorldSession}
use necro_mmo.World.Updating.{async_write_callback, internal_write_callback}
use necro_mmo.World.Sending.{
  async_write_quiet, closes, close_socket_reading, close_socket_fresh, async_write_state, is_fresh,
}
use necro_mmo.World.Received.{IsValid}
use necro_mmo.World.Replies.{active-IsValid}
use necro_mmo.World.Connection.{socket-IsValid}

-- What the callback does to the connection.
hung_up : ℕ → WorldSession → Socket.Socket → Socket.Socket
hung_up now a s = (async_write_callback now (record a { socket = s })).socket

hung_up_lem :
    (now : ℕ) (a : WorldSession) (s : Socket.Socket)
    → ((hung_up now a s).out_queue ≡ s.out_queue)
      × ((hung_up now a s).async_writing ≡ s.async_writing)
      × ((hung_up now a s).in_buffer ≡ s.in_buffer)
      × ((hung_up now a s).reading ≡ s.reading)
      × (is_open (hung_up now a s) ≡ true → is_open s ≡ true)
      × (is_fresh (hung_up now a s).underlying_state ≡ true → is_fresh s.underlying_state ≡ true)
unfolding hung_up async_write_callback
hung_up_lem now a s = elim (Bool-cases (a.close_after_send && length s.out_queue == 0)) [
  | inr stays ↦ rw (stays, hung_up, async_write_callback) (refl, refl, refl, refl, λ k. k, λ k. k)
  | inl ends ↦
      let (buffer, queue, writing) = close_socket_lem s in
      rw (ends, hung_up, async_write_callback)
        (
          queue,
          writing,
          buffer,
          close_socket_reading s,
          λ k. absurd (cc (closes s, k)),
          close_socket_fresh s,
        )
]

-- A write leaves the other side of the connection alone.
written_quiet :
    (n : ℕ) (s t : Socket.Socket)
    → written n s ≡ some t
    → (t.in_buffer ≡ s.in_buffer)
      × (t.reading ≡ s.reading)
      × (is_open t ≡ is_open s)
      × (is_fresh t.underlying_state ≡ is_fresh s.underlying_state)
unfolding written
written_quiet n s t e = from s.out_queue refl
  where
    nothing : s.out_queue ≡ [] → written n s ≡ none
    nothing k = rw k refl

    from :
        (q : List Message.Message)
        → s.out_queue ≡ q
        → (t.in_buffer ≡ s.in_buffer)
          × (t.reading ≡ s.reading)
          × (is_open t ≡ is_open s)
          × (is_fresh t.underlying_state ≡ is_fresh s.underlying_state)
    from [] k = absurd (cc (e, nothing k))
    from (m ∷ rest) k =
        let sent = read_completed n m in
        let u = record s {
          async_writing = false;
          out_queue = (if leb (active_size sent) 0 then rest else sent ∷ rest);
        } in
        let same : t ≡ u = some_unique (written n s) t u e (rw (k, written) refl) in
        (
          ap (λ x. x.in_buffer) same,
          ap (λ x. x.reading) same,
          ap (λ x. is_open x) same,
          ap (λ x. is_fresh x.underlying_state) same,
        )

-- A write of `n` bytes of the front message of a valid session: they were the first that were to go
-- out, the others still are, in their order, and the session stays valid.
pub internal_write_callback-IsValid :
    (n now : ℕ) (a : WorldSession)
    → IsValid a
    → a.socket.async_writing ≡ true
    → n ≤ front_size a.socket.out_queue
    → (b : WorldSession) × (internal_write_callback (some n) now a ≡ some b)
      × IsValid b
      × (unsent a.socket.out_queue
          ≡ take n (unsent a.socket.out_queue) ++ unsent b.socket.out_queue)
unfolding internal_write_callback async_write_callback Socket.internal_write_callback hung_up
internal_write_callback-IsValid n now a h writing few =
    let (t, e, flows, split) =
      internal_write_callback-Flows (hung_up now a) (λ s. (hung_up_lem now a s).0)
        (λ s. (hung_up_lem now a s).1) n a.socket h.wires.flows writing few in
    elim (Option-cases (written n a.socket)) [
      | inl nothing ↦ absurd (nothing_written e (rw (nothing, Socket.internal_write_callback) refl))
      | inr (s, done) ↦
          let (buffer, reading, stays, state) = written_quiet n a.socket s done in
          let (_, _, buffer', reading', opened, kept) = hung_up_lem now a s in
          let (buffer'', stays'', reading'') = async_write_quiet (hung_up now a s) in
          let last : async_write (hung_up now a s) ≡ t =
            some_unique (Socket.internal_write_callback (some n) (hung_up now a) a.socket)
              (async_write (hung_up now a s)) t (rw (done, Socket.internal_write_callback) refl)
              e in
          let flows' = subst Flows (sym last) flows in
          (
            record (async_write_callback now (record a { socket = s })) {
              socket = async_write (hung_up now a s);
            },
            rw (done, internal_write_callback, hung_up) refl,
            subst IsValid (sym (shape s)) (
                socket-IsValid (async_write (hung_up now a s)) (record a { last_activity = now })
                  (active-IsValid now a h) flows'
                  (subst Message.IsValid (sym (buffer'' ∙ (buffer' ∙ buffer))) h.wires.buffer)
                  (alive s (λ o. sym stays ∙ opened (sym stays'' ∙ o))
                    (reading'' ∙ (reading' ∙ reading)))
                  (λ k.
                    let (first, still) =
                      h.fresh (sym state ∙ kept (sym (async_write_state (hung_up now a s)) ∙ k)) in
                    (first, reading'' ∙ (reading' ∙ reading) ∙ still))
                  (λ k. reading'' ∙ (reading' ∙ reading) ∙ h.waits k)),
            split ∙ ap (λ x. take n (unsent a.socket.out_queue) ++ unsent x.out_queue) (sym last),
          )
    ]
  where
    nothing_written : {o : Option Socket.Socket} → {t : Socket.Socket} → o ≡ some t → o ≡ none → ⊥
    nothing_written p q = cc

    shape :
        (s : Socket.Socket)
        → record (async_write_callback now (record a { socket = s })) {
          socket = async_write (hung_up now a s);
        }
          ≡ record a { last_activity = now; socket = async_write (hung_up now a s) }
    shape s = elim (Bool-cases (a.close_after_send && length s.out_queue == 0)) [
      | inl ends ↦ rw (ends, async_write_callback) refl
      | inr stays ↦ rw (stays, async_write_callback) refl
    ]

    alive :
        (s : Socket.Socket)
        → (is_open (async_write (hung_up now a s)) ≡ true → is_open a.socket ≡ true)
        → (async_write (hung_up now a s)).reading ≡ a.socket.reading
        → (is_open (async_write (hung_up now a s)) ≡ true)
          ⊎ ((async_write (hung_up now a s)).reading ≡ true)
        → (is_open a.socket ≡ true) ⊎ (a.socket.reading ≡ true)
    alive s opened reading (inl o) = inl (opened o)
    alive s opened reading (inr o) = inr (sym reading ∙ o)
