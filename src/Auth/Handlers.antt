-- ===== src/Auth/Handlers.antt =====
-- The handlers of the login server's packets (src/NECROAuth/Server/Auth/AuthSession.cpp).
use mathlib.Core.Option
use necro_mmo.Common.{
  ℕ, ◌+◌, ◌*◌, ◌/◌, ◌%◌, ◌^◌, Bool, true, false, not, ◌&&◌, ◌||◌, Option, none, some, List, [], ◌∷◌,
  ◌++◌, map, length, take, drop, ◌==◌, if◌then◌else◌, leb, ltb,
}
use necro_mmo.Common.Bytes.{read_at}
use necro_mmo.Packet.{Field, u8, u16, u32, raw, string_field, write_fields, empty, get_content}
use necro_mmo.Message.{of_moved, active}
use necro_mmo.Socket.{queue_packet}
use necro_mmo.Auth.{
  AuthSession, login_attempt, login_attempt_pending, gather_realmlist_pending, credentials_check,
  Settings,
}
use necro_mmo.Auth.Work.{verify_proof_of_work}

pub record Realm : Type 0 where
  pub id : ℕ
  pub status : ℕ
  pub ip : List ℕ
  pub port : ℕ
  pub name : List ℕ

-- What the handlers get from elsewhere.
pub record Env : Type 0 where
  pub settings : Settings
  pub now : ℕ
  -- OpenSSL's SHA-256, and `RAND_bytes`, where they succeed.
  pub sha256 : List ℕ → Option (List ℕ)
  pub random_bytes : Option (List ℕ)
  -- Whether the database's queue has room.
  pub has_room : Bool
  pub realms : List Realm
  -- `inet_pton`, where it succeeds.
  pub parse_ip : List ℕ → Option (List ℕ)

-- What a handler does: return true, return false, or throw.
pub data Outcome : Type 0 where
  accepted refused thrown : AuthSession → Outcome

-- `std::isalnum`, in the C locale.
abbrev pub is_alnum : ℕ → Bool
is_alnum c = (leb 48 c && leb c 57) || ((leb 65 c && leb c 90) || (leb 97 c && leb c 122))

abbrev pub all_alnum : List ℕ → Bool
all_alnum [] = true
all_alnum (c ∷ cs) = if not (is_alnum c) then false else all_alnum cs

-- The `n` bytes at an offset; `none` where they are not all there.
unfoldable pub slice_at : ℕ → ℕ → List ℕ → Option (List ℕ)
slice_at n i bytes = if leb (i + n) (length bytes) then some (take n (drop i bytes)) else none

-- A reply is built and queued.
unfoldable pub send_reply : List Field → AuthSession → Option AuthSession
send_reply fields a = elim (write_fields fields empty) [
  | none ↦ none
  | some p ↦ some (record a { socket = queue_packet (of_moved p) a.socket })
]

abbrev pub sent_with : (AuthSession → Outcome) → List Field → AuthSession → Option Outcome
sent_with outcome fields a = Option.map outcome (send_reply fields a)

-- The version is the server's.
abbrev pub is_supported : Settings → ℕ → ℕ → ℕ → Bool
is_supported s major minor revision =
    major == s.client_version_major
    && (minor == s.client_version_minor && revision == s.client_version_revision)

-- With the challenge that `RAND_bytes` gives.
unfoldable pub send_challenge : Option (List ℕ) → AuthSession → Option Outcome
send_challenge none a = some (thrown a)
send_challenge (some challenge) a =
    sent_with accepted (u8 0 ∷ u8 0 ∷ u16 17 ∷ map u8 challenge ++ u8 22 ∷ [])
      (record a { data' = record a.data' { challenge = challenge; difficulty = 22 } })

-- The user's name and the version are good to read.
unfoldable pub identify : Env → List ℕ → ℕ → ℕ → ℕ → AuthSession → Option Outcome
unfolding send_challenge
identify env name major minor revision a =
    let b = record a {
      data' = record a.data' {
        username = name;
        version_major = major;
        version_minor = minor;
        version_revision = revision;
      };
    } in
    if is_supported env.settings major minor revision
    then send_challenge env.random_bytes (record b { status = login_attempt })
    else sent_with accepted (u8 0 ∷ u8 1 ∷ u16 0 ∷ []) (record b { close_after_send = true })

-- `HandleAuthLoginGatherInfoPacket`.
unfoldable pub handle_auth_login_gather_info_packet : Env → AuthSession → Option Outcome
unfolding identify Option.bind
handle_auth_login_gather_info_packet env a =
    let bytes = active a.socket.in_buffer in
    let b = record a { last_activity = env.now } in
    Option.bind (read_at 1 7 bytes) λ username_size.
      if username_size == 0 || ltb 16 username_size
      then some (refused b)
      else Option.bind (read_at 2 2 bytes) λ size.
        if not (size == 4 + username_size)
        then some (refused b)
        else Option.bind (slice_at username_size 8 bytes) λ name.
          if not (all_alnum name)
          then some (refused b)
          else Option.bind (read_at 1 4 bytes) λ major. Option.bind (read_at 1 5 bytes) λ minor.
            Option.bind (read_at 1 6 bytes) λ revision. identify env name major minor revision b

-- The proof of work is done: ask the database for the account.
unfoldable pub check_credentials : Env → List ℕ → ℕ → AuthSession → Outcome
check_credentials env password prefix a =
    let b = record a { data' = record a.data' { pass = password; rand_iv_prefix = prefix } } in
    if not env.has_room
    then refused b
    else accepted (record b { posted = b.posted ++ credentials_check b.data'.username ∷ [] })

unfoldable pub judge_work : Env → Bool → List ℕ → ℕ → AuthSession → Option Outcome
unfolding check_credentials
judge_work env false password prefix a =
    sent_with accepted (u8 1 ∷ u8 1 ∷ u16 0 ∷ []) (record a { close_after_send = true })
judge_work env true password prefix a = some (check_credentials env password prefix a)

-- `HandleAuthLoginProofPacket`.
unfoldable pub handle_auth_login_proof_packet : Env → AuthSession → Option Outcome
unfolding judge_work Option.bind
handle_auth_login_proof_packet env a =
    let bytes = active a.socket.in_buffer in
    let b = record a { last_activity = env.now } in
    Option.bind (read_at 1 16 bytes) λ password_size.
      if password_size == 0 || ltb 16 password_size
      then some (refused b)
      else Option.bind (read_at 2 2 bytes) λ size.
        if not (size == 13 + password_size)
        then some (refused b)
        else Option.bind (slice_at password_size 17 bytes) λ password.
          if not (all_alnum password)
          then some (refused b)
          else Option.bind (read_at 8 4 bytes) λ answer. Option.bind (read_at 4 12 bytes) λ prefix.
            let c = record b { status = login_attempt_pending } in
            Option.bind
              (verify_proof_of_work env.sha256 c.data'.challenge answer c.data'.difficulty)
              λ solved. judge_work env solved password prefix c

-- `htons`.
abbrev pub htons : ℕ → ℕ
htons n = n / 256 % 256 + 256 * (n % 256)

-- The realms that are written, and how many they are: a realm without an IPv4 address or with a name
-- of more than 32 bytes is skipped.
unfoldable pub realm_fields : (List ℕ → Option (List ℕ)) → List Realm → ℕ → List Field × ℕ
realm_fields parse_ip [] count = ([], count)
realm_fields parse_ip (r ∷ rs) count =
    let skip = realm_fields parse_ip rs count in
    let (fields, total) = realm_fields parse_ip rs (count + 1) in
    if ltb 32 count then ([], count) else elim (parse_ip r.ip) [
      | none ↦ skip
      | some address ↦ if ltb 32 (length r.name) then skip else (
        u32 r.id
            ∷ u8 r.status
            ∷ raw address
            ∷ u16 (htons r.port)
            ∷ u8 (length r.name)
            ∷ string_field r.name
            ∷ fields,
        total,
      )
    ]

-- With the payload's content, which an empty payload refuses to give.
unfoldable pub send_realmlist : Option (List ℕ) → ℕ → AuthSession → Option Outcome
send_realmlist none count a = some (thrown a)
send_realmlist (some content) count a =
    sent_with accepted
      (u8 2 ∷ u8 0 ∷ u16 ((4 + length content) % 2 ^ 16) ∷ u32 count ∷ raw content ∷ []) a

-- `HandleGatherRealmlistPacket`.
unfoldable pub handle_gather_realmlist_packet : Env → AuthSession → Option Outcome
unfolding send_realmlist
handle_gather_realmlist_packet env a =
    let b = record a { last_activity = env.now; status = gather_realmlist_pending } in
    let (fields, count) = realm_fields env.parse_ip env.realms 0 in
    elim (write_fields fields empty) [
      | none ↦ none
      | some payload ↦
          send_realmlist (get_content payload) count (record b { close_after_send = true })
    ]
