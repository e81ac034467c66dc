-- ===== src/Entity/Corrections.antt =====
-- The movement corrections of a player
-- (src/NECROWorld/Server/Simulation/Entities/PlayerEntity.cpp).
use necro_mmo.Common.{
  ℕ, ◌+◌, ◌%◌, ◌^◌, ◌≡◌, ◌<◌, ◌≤◌, refl, Bool, true, false, some, Bool-cases, inl, inr, List, [],
  ◌∷◌, ◌++◌, length, leb, le→leb, arith,
}
use necro_mmo.Common.Bytes.{to_bytes}
use necro_mmo.Packet.{Packet, encode}
use necro_mmo.Packet.Content.{write_fields-empty}
use necro_mmo.Queue.{try_enqueue}
use necro_mmo.Entity.{
  Entity, EntityType, null_type, player_entity, ai_entity, send_movement_correction,
  correction_fields, on_cell_transfer_fails, on_cell_transfer_fails_of,
}

-- What a correction leaves of an entity: all but the epoch and the queue.
pub record SameBody (e e' : Entity) : Type 0 where
  pub guid : e'.guid ≡ e.guid
  pub zone : e'.current_zone ≡ e.current_zone
  pub cell : e'.current_cell ≡ e.current_cell
  pub grid_x : e'.cur_grid_pos_x ≡ e.cur_grid_pos_x
  pub grid_y : e'.cur_grid_pos_y ≡ e.cur_grid_pos_y
  pub owner : e'.char_id ≡ e.char_id
  pub at_x : e'.pos_x ≡ e.pos_x
  pub at_y : e'.pos_y ≡ e.pos_y
  pub at_z : e'.pos_z ≡ e.pos_z

SameBody-refl : (e : Entity) → SameBody e e
SameBody-refl e = record {
  guid = refl;
  zone = refl;
  cell = refl;
  grid_x = refl;
  grid_y = refl;
  owner = refl;
  at_x = refl;
  at_y = refl;
  at_z = refl;
}

not_full : (n m : ℕ) → m < n → leb n m ≡ false
not_full n m h = ground arith

-- A correction on the wire: the opcode, the epoch, the refused sequence number, the position's three
-- coordinates and the direction, each with its lowest byte first.
abbrev pub correction_bytes : ℕ → ℕ → Entity → List ℕ
correction_bytes epoch seq e =
    to_bytes 2 7
    ++ (to_bytes 4 epoch
        ++ (to_bytes 4 seq
            ++ (to_bytes 4 e.pos_x
                ++ (to_bytes 4 e.pos_y ++ (to_bytes 4 e.pos_z ++ to_bytes 1 e.iso_direction)))))

abbrev pub next_epoch : Entity → ℕ
next_epoch e = (e.last_correction_id + 1) % 2 ^ 32

-- A correction is always built: its bytes are the opcode 7, the next epoch, the refused sequence
-- number, the x, y and z that the entity has and its direction, each with its lowest byte first. While
-- the queue has fewer than 1000 packets it is queued last and the entity takes that epoch; when it is
-- full nothing changes at all, so that the client's packets of the old epoch still count.
pub send_movement_correction-epoch :
    (seq : ℕ) (e : Entity)
    → (p : Packet) × (p.bytes ≡ correction_bytes (next_epoch e) seq e)
      × (length e.packet_queue < 1000
          → send_movement_correction seq e
            ≡ some (
              record e {
                packet_queue = e.packet_queue ++ p ∷ [];
                last_correction_id = next_epoch e;
              },
              true,
            ))
      × (1000 ≤ length e.packet_queue → send_movement_correction seq e ≡ some (e, false))
unfolding send_movement_correction correction_fields encode try_enqueue
send_movement_correction-epoch seq e =
    let (p, ep, _, bytes) = write_fields-empty (correction_fields (next_epoch e) seq e) in
    (
      p,
      bytes,
      λ room.
          rw (ep, send_movement_correction) (rw (not_full 1000 (length e.packet_queue) room) refl),
      λ full.
          rw (ep, send_movement_correction) (rw (le→leb 1000 (length e.packet_queue) full) refl),
    )

pub send_movement_correction-SameBody :
    (seq : ℕ) (e : Entity)
    → (e' : Entity) × (sent : Bool) × (send_movement_correction seq e ≡ some (e', sent))
      × SameBody e e'
send_movement_correction-SameBody seq e =
    let (p, _, with_room, when_full) = send_movement_correction-epoch seq e in
    elim (Bool-cases (leb 1000 (length e.packet_queue))) [
      | inr room ↦ (
        record e { packet_queue = e.packet_queue ++ p ∷ []; last_correction_id = next_epoch e },
        true,
        with_room (ground (arith, room)),
        record {
          guid = refl;
          zone = refl;
          cell = refl;
          grid_x = refl;
          grid_y = refl;
          owner = refl;
          at_x = refl;
          at_y = refl;
          at_z = refl;
        },
      )
      | inl full ↦ (e, false, when_full (ground (arith, full)), SameBody-refl e)
    ]

of_kind-SameBody :
    (k : EntityType) (e : Entity)
    → (e' : Entity) × (on_cell_transfer_fails_of k e ≡ some e') × SameBody e e'
unfolding on_cell_transfer_fails_of
of_kind-SameBody player_entity e =
    let (e', sent, s, same) = send_movement_correction-SameBody 0 e in
    (e', rw (s, on_cell_transfer_fails_of), same)
of_kind-SameBody null_type e = (e, refl, SameBody-refl e)
of_kind-SameBody ai_entity e = (e, refl, SameBody-refl e)

-- A failed transfer is told to the client, and changes nothing of where the entity is.
pub on_cell_transfer_fails-SameBody :
    (e : Entity) → (e' : Entity) × (on_cell_transfer_fails e ≡ some e') × SameBody e e'
unfolding on_cell_transfer_fails
on_cell_transfer_fails-SameBody e = of_kind-SameBody e.kind e
