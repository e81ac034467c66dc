-- ===== src/Tests/Maps.antt =====
-- The theorems on zones, entities and queues, on a map of two by two cells.
use mathlib.Core.Path.{subst}
use necro_mmo.Common.{
  ℕ, ◌≤◌, ◌<◌, ◌≡◌, ◌≢◌, sym, ap, Bool, true, false, Option, none, some, List, [], ◌∷◌, ◌++◌,
  length, arith,
}
use necro_mmo.Common.Dict.{lookup}
use necro_mmo.Common.Int.{pos, negsuc}
use necro_mmo.Packet.{Packet, empty}
use necro_mmo.Queue.{player_packet_queue_max_size}
use necro_mmo.Entity.{
  Entity, make_player, set_current_cell, set_current_zone, send_movement_correction,
}
use necro_mmo.Entity.Corrections.{correction_bytes, next_epoch, send_movement_correction-epoch}
use necro_mmo.Zone.{Zone, load, load_row, load_rows, add_entity_here}
use necro_mmo.Zone.Moves.{
  place_at, place_checked, add_entity_to_zone, remove_entity_from_zone, transfer_pending_entities,
  update_zone,
}
use necro_mmo.Zone.Placement.{IsValid, count, here_at}
use necro_mmo.Zone.Loading.{load-IsValid}
use necro_mmo.Zone.Safety.{Added, add_entity_to_zone-Added, remove_entity_from_zone-IsValid}
use necro_mmo.Zone.Kept.{Kept, Arrived}
use necro_mmo.Zone.Transfers.{transfer_pending_entities-IsValid}
use necro_mmo.Zone.Ticks.{update_zone-IsValid}
use necro_mmo.Tests.Fixtures.{whole_numbers}

abbrev player : Entity
player =
    make_player whole_numbers 5
      (record { id = 7; level = 1; xp = 0; zone = 1; pos_x = 70; pos_y = 40; pos_z = 5 }) []

abbrev fresh : Zone
fresh = load 1 1 2 2

load-IsValid_example : IsValid fresh
load-IsValid_example = load-IsValid 1 1 2 2

fresh-IsValid : IsValid fresh
fresh-IsValid = load-IsValid 1 1 2 2

add_entity_to_zone-Added_example :
    (z' : Zone) × (taken : Bool) × (add_entity_to_zone whole_numbers player fresh
      ≡ some (z', taken))
    × Added whole_numbers player fresh z' taken
add_entity_to_zone-Added_example = add_entity_to_zone-Added whole_numbers player fresh fresh-IsValid

abbrev zone_of : Option (Zone × Bool) → Zone
zone_of none = fresh
zone_of (some (z, _)) = z

abbrev occupied : Zone
occupied = zone_of (add_entity_to_zone whole_numbers player fresh)

occupied-IsValid : IsValid occupied
occupied-IsValid =
    let (z, taken, e, a) = add_entity_to_zone-Added whole_numbers player fresh fresh-IsValid in
    subst IsValid (sym (ap zone_of e)) a.valid

here : 0 < count 5 (here_at occupied.cell_map 3)
unfolding add_entity_to_zone place_checked place_at add_entity_here set_current_cell
    set_current_zone make_player load load_rows load_row
here = omega arith

remove_entity_from_zone-IsValid_example :
    (z' : Zone) × (found : Bool) × (remove_entity_from_zone 5 occupied ≡ some (z', found))
    × IsValid z'
    × (z'.zone_id ≡ occupied.zone_id)
    × (lookup 5 z'.entities ≡ none)
    × ((h : ℕ) → h ≢ 5 → lookup h z'.entities ≡ lookup h occupied.entities)
    × (found ≡ true → lookup 5 occupied.entities ≢ none)
    × (found ≡ false → lookup 5 occupied.entities ≡ none)
remove_entity_from_zone-IsValid_example =
    remove_entity_from_zone-IsValid 5 occupied occupied-IsValid

update_zone-IsValid_example :
    (z' : Zone) × (update_zone whole_numbers occupied ≡ some z')
    × IsValid z'
    × Kept occupied z'
    × (z'.waiting ≡ [])
update_zone-IsValid_example = update_zone-IsValid whole_numbers occupied occupied-IsValid

abbrev crowded : Zone
crowded = record occupied {
  waiting =
      record { guid = 5; new_grid_pos_x = pos 0; new_grid_pos_y = pos 0 }
      ∷ record { guid = 5; new_grid_pos_x = pos 2; new_grid_pos_y = pos 0 }
      ∷ record { guid = 9; new_grid_pos_x = pos 0; new_grid_pos_y = negsuc 0 }
      ∷ [];
}

crowded-IsValid : IsValid crowded
crowded-IsValid =
    let v = occupied-IsValid in
    record { distinct = v.distinct; grid = v.grid; placed = v.placed; located = v.located }

transfer_pending_entities-IsValid_example :
    (z' : Zone) × (transfer_pending_entities whole_numbers crowded ≡ some z')
    × IsValid z'
    × Kept crowded z'
    × Arrived whole_numbers crowded.waiting crowded z'
    × (z'.waiting ≡ [])
transfer_pending_entities-IsValid_example =
    transfer_pending_entities-IsValid whole_numbers crowded crowded-IsValid

send_movement_correction-epoch_example :
    (p : Packet) × (p.bytes ≡ correction_bytes 1 9 player)
    × (length player.packet_queue < 1000
        → send_movement_correction 9 player
          ≡ some (
            record player {
              packet_queue = player.packet_queue ++ p ∷ [];
              last_correction_id = next_epoch player;
            },
            true,
          ))
    × (1000 ≤ length player.packet_queue → send_movement_correction 9 player ≡ some (player, false))
unfolding make_player
send_movement_correction-epoch_example = send_movement_correction-epoch 9 player

abbrev queued : List Packet
queued = empty ∷ []

queued_few : length queued ≤ player_packet_queue_max_size
queued_few = omega arith
