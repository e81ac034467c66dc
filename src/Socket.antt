-- ===== src/Socket.antt =====
-- `TCPSocketBoost` (src/shared/Sockets/TCPSocketBoost.h and TCPSocketBoost.cpp) on its network
-- thread. Boost.Asio runs the operations that are posted here later: a read, a write, the shutdown
-- of TLS; a callback's arguments say what came of them. An operation returns `none` where it would
-- touch memory outside a buffer, or the front of an empty queue.
pub mod Sending
pub mod Receiving
use mathlib.Core.Option
use necro_mmo.Common.{
  ℕ, ◌+◌, ◌≡◌, Bool, true, false, not, ◌&&◌, ◌||◌, Option, none, some, List, [], ◌∷◌, ◌++◌, length,
  ◌==◌, if◌then◌else◌, leb,
}
use necro_mmo.Common.Int.{ℤ, pos, negsuc, eq_ℤ}
use necro_mmo.Message.{
  Message, active, active_size, compact_data, enlarge_buffer_if_needed, read_completed,
  write_completed, remaining_space, make,
}
use necro_mmo.Packet.{default_pckt_size}

pub data UnderlyingState : Type 0 where
  default_state resolving connecting handshaking just_connected connected critical_error :
      UnderlyingState

pub record Socket : Type 0 where
  pub uses_tls : Bool
  pub underlying_state : UnderlyingState
  pub in_buffer : Message
  pub out_queue : List Message
  pub async_writing : Bool
  pub closed : Bool
  pub closing : Bool
  -- What has been posted to Boost.Asio and has not come back.
  pub reading : Bool
  pub shutting_down : Bool

-- The constructors.
unfoldable pub make_socket : Bool → Socket
make_socket tls = record {
  uses_tls = tls;
  underlying_state = default_state;
  in_buffer = make default_pckt_size;
  out_queue = [];
  async_writing = false;
  closed = false;
  closing = false;
  reading = false;
  shutting_down = false;
}

abbrev pub is_open : Socket → Bool
is_open s = not s.closed && not s.closing

unfoldable pub force_close_socket : Socket → Socket
force_close_socket s =
    if s.closed then s else record s { closed = true; underlying_state = critical_error }

-- With TLS the shutdown is asynchronous, with a deadline.
unfoldable pub close_socket : Socket → Socket
close_socket s =
    if s.closing
    then s
    else if not s.uses_tls
    then force_close_socket (record s { closing = true })
    else record s { closing = true; shutting_down = true }

-- The end of the shutdown, or of its deadline.
pub shut_down : Socket → Socket
shut_down s = force_close_socket (record s { shutting_down = false })

unfoldable pub async_read : Socket → Option Socket
async_read s = if not (is_open s) then some s else elim (compact_data s.in_buffer) [
  | none ↦ none
  | some b ↦
      let (enlarged, code) = enlarge_buffer_if_needed b in
      let t = record s { in_buffer = enlarged } in
      some (if not (eq_ℤ code (pos 0)) then close_socket t else record t { reading = true })
]

unfoldable pub async_write : Socket → Socket
async_write s = elim s.out_queue [
  | [] ↦ s
  | _ ∷ _ ↦ if s.async_writing then s else record s { async_writing = true }
]

unfoldable pub queue_packet : Message → Socket → Socket
queue_packet m s = async_write (record s { out_queue = s.out_queue ++ m ∷ [] })

-- `PostQueuePacket`, when it runs.
pub post_queue_packet : Message → Socket → Socket
post_queue_packet m s = if not (is_open s) then s else queue_packet m s

-- `InternalWriteCallback` without an error, up to `AsyncWriteCallback`.
unfoldable pub written : ℕ → Socket → Option Socket
written n s = elim s.out_queue [
  | [] ↦ none
  | m ∷ rest ↦
      let sent = read_completed n m in
      some (record s {
        async_writing = false;
        out_queue = (if leb (active_size sent) 0 then rest else sent ∷ rest);
      })
]

-- The whole of `InternalWriteCallback`, around an `AsyncWriteCallback`.
unfoldable pub internal_write_callback : Option ℕ → (Socket → Socket) → Socket → Option Socket
internal_write_callback none callback s = some (close_socket s)
internal_write_callback (some n) callback s = elim (written n s) [
  | none ↦ none
  | some t ↦ some (async_write (callback t))
]

-- The first half of `InternalReadCallback` without an error; `AsyncReadCallback` follows.
unfoldable pub received : List ℕ → Socket → Option Socket
received bytes s = elim (write_completed bytes s.in_buffer) [
  | none ↦ none
  | some b ↦ some (record s { in_buffer = b; reading = false })
]
