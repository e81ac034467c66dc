-- ===== src/Auth/Results.antt =====
-- The answers of the database and of the crypto threads to a login session
-- (src/NECROAuth/Server/Auth/AuthSession.cpp, `DBCallback_AuthLoginProofPacket` and
-- `HandlePasswordHashResult`).
use mathlib.Core.Option
use necro_mmo.Common.{
  ℕ, ◌%◌, ◌≡◌, ◌≢◌, refl, sym, ap, ◌∙◌, Bool, true, false, not, Option, none, some, List, [], ◌∷◌,
  ◌++◌, map, ◌==◌, if◌then◌else◌, arith, Bool-cases, inl, inr,
}
use necro_mmo.Packet.{Field, u8, u16, encode}
use necro_mmo.Packet.Content.{encode_all, write_fields-empty}
use necro_mmo.Message.{of_moved}
use necro_mmo.Message.Stream.{of_moved-active}
use necro_mmo.Socket.{Socket, is_open, close_socket, queue_packet}
use necro_mmo.Socket.Receiving.{close_socket_lem}
use necro_mmo.Socket.Sending.{Flows, unsent, queue_packet-Flows}
use necro_mmo.Auth.{AuthSession, authed, verify_password, log_wrong_password, new_session}
use necro_mmo.Auth.Handlers.{send_reply}
use necro_mmo.Auth.Closing.{closes, ClosesOnceSent, flagged-ClosesOnceSent}

-- The text of the code, as bytes.
abbrev pub fake_hash : List ℕ
fake_hash =
    36 ∷ 97 ∷ 114 ∷ 103 ∷ 111 ∷ 110 ∷ 50 ∷ 105 ∷ 100 ∷ 36 ∷ 118 ∷ 61 ∷ 49 ∷ 57 ∷ 36 ∷ 109 ∷ 61 ∷ 54
    ∷ 53 ∷ 53 ∷ 51 ∷ 54 ∷ 44 ∷ 116 ∷ 61 ∷ 50 ∷ 44 ∷ 112 ∷ 61 ∷ 49 ∷ 36 ∷ 67 ∷ 106 ∷ 109 ∷ 65 ∷ 117
    ∷ 99 ∷ 75 ∷ 70 ∷ 78 ∷ 57 ∷ 47 ∷ 97 ∷ 57 ∷ 75 ∷ 102 ∷ 106 ∷ 48 ∷ 98 ∷ 70 ∷ 114 ∷ 75 ∷ 119 ∷ 36
    ∷ 87 ∷ 97 ∷ 111 ∷ 112 ∷ 89 ∷ 75 ∷ 110 ∷ 97 ∷ 106 ∷ 118 ∷ 57 ∷ 75 ∷ 54 ∷ 71 ∷ 82 ∷ 102 ∷ 119
    ∷ 111 ∷ 48 ∷ 115 ∷ 116 ∷ 51 ∷ 115 ∷ 112 ∷ 57 ∷ 120 ∷ 79 ∷ 67 ∷ 68 ∷ 66 ∷ 87 ∷ 100 ∷ 86 ∷ 53 ∷ 49
    ∷ 115 ∷ 56 ∷ 78 ∷ 53 ∷ 66 ∷ 65 ∷ 89 ∷ 103 ∷ []

abbrev pub fake_pass : List ℕ
fake_pass = 116 ∷ 104 ∷ 105 ∷ 115 ∷ 105 ∷ 115 ∷ 97 ∷ 112 ∷ 97 ∷ 115 ∷ 115 ∷ []

-- `DBCallback_AuthLoginProofPacket`, at the time `now`: whether the query failed, and the row of the
-- account with its id and the hash of its password.
unfoldable pub db_callback_auth_login_proof_packet :
    ℕ → Bool → Option (ℕ × List ℕ) → AuthSession → AuthSession × Bool
db_callback_auth_login_proof_packet now err row a =
    let b = record a { last_activity = now } in
    if not (is_open a.socket)
    then (a, false)
    else if err
    then (record a { socket = close_socket a.socket }, false)
    else elim row [
      | none ↦
          (record b { posted = b.posted ++ verify_password fake_hash fake_pass true ∷ [] }, true)
      | some (id, hash) ↦ (
        record b {
          data' = record b.data' { account_id = id };
          posted = b.posted ++ verify_password hash b.data'.pass false ∷ [];
        },
        true,
      )
    ]

-- The prefix of the server's nonce is drawn again while it is the client's; `none` while the draws
-- have not ended.
unfoldable pub draw_prefix : ℕ → List ℕ → Option ℕ
draw_prefix client [] = none
draw_prefix client (p ∷ ps) =
    let later = draw_prefix client ps in if client == p then later else some p

-- What `RAND_bytes` gives, where it succeeds.
pub record Draws : Type 0 where
  pub prefixes : List ℕ
  pub session_key : List ℕ
  pub greet_code : List ℕ

abbrev pub forget_password : AuthSession → AuthSession
forget_password a = record a { data' = record a.data' { pass = [] } }

-- The wrong password is logged unless the log is prevented; nothing tells whether the queue had room.
unfoldable pub refuse_login : Bool → Bool → AuthSession → Option AuthSession
refuse_login prevent_log has_room a =
    let logged =
      if prevent_log
      then a
      else if not has_room
      then a
      else record a { posted = a.posted ++ log_wrong_password a.data'.username ∷ [] } in
    send_reply (u8 1 ∷ u8 1 ∷ u16 0 ∷ []) (record logged { close_after_send = true })

abbrev pub success_fields : List ℕ → List ℕ → List Field
success_fields session_key greet_code =
    u8 1 ∷ u8 0 ∷ u16 32 ∷ map u8 session_key ++ map u8 greet_code

abbrev pub authenticated_with : ℕ → Draws → AuthSession → AuthSession
authenticated_with prefix draws a = record a {
  status = authed;
  data' = record a.data' {
    iv = record { prefix = prefix; counter = 0 };
    session_key = draws.session_key;
    greet_code = draws.greet_code;
  };
}

unfoldable pub accept_login : Draws → Bool → AuthSession → Option (AuthSession × Bool)
accept_login draws has_room a = elim (draw_prefix a.data'.rand_iv_prefix draws.prefixes) [
  | none ↦ none
  | some prefix ↦
      let b = authenticated_with prefix draws a in
      if not has_room
      then some (record b { socket = close_socket b.socket }, false)
      else Option.map (λ c. (c, true))
          (send_reply (success_fields draws.session_key draws.greet_code) (record b {
            posted =
                b.posted ++ new_session b.data'.account_id draws.session_key draws.greet_code ∷ [];
          }))
]

-- `HandlePasswordHashResult`.
unfoldable pub handle_password_hash_result :
    Bool → Bool → Draws → Bool → AuthSession → Option (AuthSession × Bool)
unfolding refuse_login accept_login
handle_password_hash_result authenticated prevent_log draws has_room a =
    if not authenticated
    then Option.map (λ b. (b, true)) (refuse_login prevent_log has_room (forget_password a))
    else accept_login draws has_room (forget_password a)

draw_prefix_lem : (client : ℕ) (ps : List ℕ) (p : ℕ) → draw_prefix client ps ≡ some p → client ≢ p
unfolding draw_prefix
draw_prefix_lem client [] p e = cc
draw_prefix_lem client (x ∷ ps) p e = elim (Bool-cases (client == x)) [
  | inl same ↦ draw_prefix_lem client ps p (rw same at e)
  | inr other ↦ λ k. ground arith
]

pub send_reply_lem :
    (fields : List Field) (a : AuthSession)
    → Flows a.socket
    → (s : Socket) × (send_reply fields a ≡ some (record a { socket = s }))
      × Flows s
      × (unsent s.out_queue ≡ unsent a.socket.out_queue ++ encode_all fields)
unfolding send_reply
send_reply_lem fields a f =
    let (p, e, _, bytes) = write_fields-empty fields in
    let (v, act) = of_moved-active p in
    let (f', sent, _) = queue_packet-Flows (of_moved p) a.socket f v in
    (
      queue_packet (of_moved p) a.socket,
      rw (e, send_reply),
      f',
      sent ∙ ap (λ l. unsent a.socket.out_queue ++ l) (act ∙ bytes),
    )

-- A password that is not verified never authenticates: the session keeps its status, the reply is the
-- refusal, behind all that was to be sent, and the password is forgotten. When a write has ended and
-- nothing is left to be sent, the connection is closed, and not before.
pub wrong_password_lem :
    (prevent_log has_room : Bool) (draws : Draws) (a : AuthSession)
    → Flows a.socket
    → (b : AuthSession) × (handle_password_hash_result false prevent_log draws has_room a
        ≡ some (b, true))
      × (b.status ≡ a.status)
      × (b.data'.pass ≡ [])
      × (unsent b.socket.out_queue ≡ unsent a.socket.out_queue ++ 1 ∷ 1 ∷ 0 ∷ 0 ∷ [])
      × ClosesOnceSent b
unfolding handle_password_hash_result refuse_login encode
wrong_password_lem true has_room draws a f =
    let (s, e, _, sent) =
      send_reply_lem (u8 1 ∷ u8 1 ∷ u16 0 ∷ [])
        (record (forget_password a) { close_after_send = true }) f in
    (
      record (forget_password a) { close_after_send = true; socket = s },
      rw e,
      refl,
      refl,
      sent,
      flagged-ClosesOnceSent (record (forget_password a) { close_after_send = true; socket = s })
          refl,
    )
wrong_password_lem false true draws a f =
    let b = record (forget_password a) {
      posted = a.posted ++ log_wrong_password a.data'.username ∷ [];
    } in
    let (s, e, _, sent) =
      send_reply_lem (u8 1 ∷ u8 1 ∷ u16 0 ∷ []) (record b { close_after_send = true }) f in
    (
      record b { close_after_send = true; socket = s },
      rw e,
      refl,
      refl,
      sent,
      flagged-ClosesOnceSent (record b { close_after_send = true; socket = s }) refl,
    )
wrong_password_lem false false draws a f =
    let (s, e, _, sent) =
      send_reply_lem (u8 1 ∷ u8 1 ∷ u16 0 ∷ [])
        (record (forget_password a) { close_after_send = true }) f in
    (
      record (forget_password a) { close_after_send = true; socket = s },
      rw e,
      refl,
      refl,
      sent,
      flagged-ClosesOnceSent (record (forget_password a) { close_after_send = true; socket = s })
          refl,
    )

-- The reply on the wire: the packet's id, success, the size 32, the session key and the greet code.
abbrev pub keys_bytes : List ℕ → List ℕ → List ℕ
keys_bytes session_key greet_code =
    1 ∷ 0 ∷ 32 ∷ 0 ∷ map (λ b. b % 256) session_key ++ map (λ b. b % 256) greet_code

encode_u8s : (xs : List ℕ) → encode_all (map u8 xs) ≡ map (λ b. b % 256) xs
unfolding encode
encode_u8s [] = refl
encode_u8s (x ∷ xs) = ap (λ l. x % 256 ∷ l) (encode_u8s xs)

encode_u8s_then :
    (xs : List ℕ) (rest : List Field)
    → encode_all (map u8 xs ++ rest) ≡ map (λ b. b % 256) xs ++ encode_all rest
unfolding encode
encode_u8s_then [] rest = refl
encode_u8s_then (x ∷ xs) rest = ap (λ l. x % 256 ∷ l) (encode_u8s_then xs rest)

keys_bytes_lem :
    (draws : Draws)
    → encode_all (success_fields draws.session_key draws.greet_code)
      ≡ keys_bytes draws.session_key draws.greet_code
unfolding encode
keys_bytes_lem draws =
    ap (λ l. 1 ∷ 0 ∷ 32 ∷ 0 ∷ l)
      (encode_u8s_then draws.session_key (map u8 draws.greet_code)
        ∙ ap (λ l. map (λ b. b % 256) draws.session_key ++ l) (encode_u8s draws.greet_code))

-- A verified password authenticates the session, as soon as a prefix is drawn that is not the
-- client's. The nonce has that prefix and the counter 0, and the password is forgotten. Exactly when
-- the database has room for them, the session key and the greet code are posted to it, and sent to the
-- client, in this order and behind all that was to be sent; otherwise the connection is closed and
-- nothing is queued.
pub right_password_lem :
    (prevent_log has_room : Bool) (draws : Draws) (prefix : ℕ) (a : AuthSession)
    → Flows a.socket
    → draw_prefix a.data'.rand_iv_prefix draws.prefixes ≡ some prefix
    → (b : AuthSession) × (handle_password_hash_result true prevent_log draws has_room a
        ≡ some (b, has_room))
      × (b.status ≡ authed)
      × (b.data'.pass ≡ [])
      × (b.data'.iv.prefix ≡ prefix)
      × (b.data'.iv.counter ≡ 0)
      × (prefix ≢ b.data'.rand_iv_prefix)
      × ((b.posted ≡ (
          if has_room
          then a.posted ++ new_session a.data'.account_id draws.session_key draws.greet_code ∷ []
          else a.posted)))
      × (if has_room
          then unsent b.socket.out_queue
            ≡ unsent a.socket.out_queue ++ keys_bytes draws.session_key draws.greet_code
          else (is_open b.socket ≡ false) × (b.socket.out_queue ≡ a.socket.out_queue))
unfolding handle_password_hash_result accept_login
right_password_lem prevent_log true draws prefix a f drawn =
    let b = authenticated_with prefix draws (forget_password a) in
    let c = record b {
      posted = a.posted ++ new_session a.data'.account_id draws.session_key draws.greet_code ∷ [];
    } in
    let (s, e, _, sent) = send_reply_lem (success_fields draws.session_key draws.greet_code) c f in
    (
      record c { socket = s },
      rw (drawn, handle_password_hash_result, accept_login, e),
      refl,
      refl,
      refl,
      refl,
      λ k. draw_prefix_lem a.data'.rand_iv_prefix draws.prefixes prefix drawn (sym k),
      refl,
      sent ∙ ap (λ l. unsent a.socket.out_queue ++ l) (keys_bytes_lem draws),
    )
right_password_lem prevent_log false draws prefix a f drawn =
    let b = authenticated_with prefix draws (forget_password a) in
    (
      record b { socket = close_socket a.socket },
      rw (drawn, handle_password_hash_result, accept_login),
      refl,
      refl,
      refl,
      refl,
      λ k. draw_prefix_lem a.data'.rand_iv_prefix draws.prefixes prefix drawn (sym k),
      refl,
      (closes a.socket, (close_socket_lem a.socket).1),
    )
