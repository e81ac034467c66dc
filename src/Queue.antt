-- ===== src/Queue.antt =====
-- `PlayerPacketQueue` (src/NECROWorld/Server/Sockets/PlayerPacketQueue.h): the packets that the
-- simulation hands to the session of a player. Each method runs under the queue's mutex, so that a
-- call is one step.
use necro_mmo.Common.{
  ℕ, ◌≤◌, ◌<◌, ◌≡◌, Bool, true, false, List, [], ◌∷◌, ◌++◌, length, leb, if◌then◌else◌, arith,
  length-append,
}

abbrev pub player_packet_queue_max_size : ℕ
player_packet_queue_max_size = 1000

module _ {A : Type 0} where
  unfoldable pub try_enqueue : A → List A → List A × Bool
  try_enqueue p queue =
      if leb player_packet_queue_max_size (length queue)
      then (queue, false)
      else (queue ++ p ∷ [], true)

  -- `DrainQueue`: what is handed out, and the queue that is left. It swaps the two vectors, and clears
  -- what came in.
  unfoldable pub drain_queue : List A → List A → List A × List A
  drain_queue out queue = (queue, [])

  unfoldable pub clear : List A → List A
  clear queue = []

  -- A queue within its limit stays within it; a packet that is taken stands last, behind all that
  -- were there; and a packet is refused exactly when the queue is full, which leaves it as it was.
  pub try_enqueue-length :
      (p : A) (queue : List A)
      → length queue ≤ player_packet_queue_max_size
      → let (queue', taken) = try_enqueue p queue in
        (length queue' ≤ player_packet_queue_max_size)
        × (taken ≡ true → queue' ≡ queue ++ p ∷ [])
        × (taken ≡ false → (queue' ≡ queue) × (length queue ≡ player_packet_queue_max_size))
        × (length queue < player_packet_queue_max_size → taken ≡ true)
  unfolding try_enqueue
  try_enqueue-length p queue h = ground (arith, length-append queue (p ∷ []))
