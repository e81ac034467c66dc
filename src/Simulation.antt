-- ===== src/Simulation.antt =====
-- `WorldSimulation` (src/NECROWorld/Server/Simulation/WorldSimulation.h and WorldSimulation.cpp), its
-- commands (src/NECROWorld/Server/Simulation/WorldCmds/PlayerWorldCmds.cpp, WorldCmdTypes.h) and
-- `GUIDManager` (src/NECROWorld/Server/Managers/GUIDManager.h). All of it runs on the simulation's
-- thread. A `PlayerEntity*` is the zone that owns the entity, and its guid there. An operation
-- returns `none` where it would follow a dangling or null pointer.
pub mod Commands
pub mod Loop
pub mod Registry
pub mod Invariant
pub mod Spawning
pub mod Departures
pub mod Moving
pub mod Turns
pub mod Reached
use necro_mmo.Common.{
  ℕ, ◌+◌, ◌%◌, ◌^◌, ◌/◌, ◌-◌, Bool, true, false, Option, none, some, List, [], ◌∷◌, ◌++◌, ◌==◌,
  if◌then◌else◌,
}
use necro_mmo.Common.Dict.{Dict, lookup, insert, erase}
use necro_mmo.Packet.{Packet}
pub use necro_mmo.Entity.{CharacterData}
use necro_mmo.Entity.{Fpu, Entity}
use necro_mmo.Zone.{Zone, load}

pub record Pointer : Type 0 where
  pub in_zone : ℕ
  pub guid : ℕ

-- The parameters of a `CHAR_SAVE_CHARACTER` statement.
pub record Save : Type 0 where
  pub level : ℕ
  pub xp : ℕ
  pub zone : ℕ
  pub pos_x : ℕ
  pub pos_y : ℕ
  pub pos_z : ℕ
  pub char_id : ℕ

-- The movement packet's contents.
pub record Movement : Type 0 where
  pub pos_x : ℕ
  pub pos_y : ℕ
  pub pos_z : ℕ
  pub iso_direction : ℕ
  pub seq : ℕ
  pub acked_correction_id : ℕ

-- What a session posts to the simulation's thread. The Boolean says whether the session is gone
-- when the command runs, where the command asks.
pub data Command : Type 0 where
  spawn_command : Bool → CharacterData → List Packet → Command
  exit_command : ℕ → Command
  rollback_command : ℕ → Command
  move_command : Bool → ℕ → Movement → Command

pub record Simulation : Type 0 where
  pub loop_counter : ℕ
  pub cur_time : ℕ
  pub prev_time : ℕ
  pub cur_time_diff : ℕ
  pub zones : Dict Zone
  pub char_id_to_guid : Dict ℕ
  pub players : Dict Pointer
  pub pending_cmds : List Command
  pub is_running : Bool
  -- `GUIDManager::s_nextGUID`.
  pub next_guid : ℕ
  -- The saves that were handed to the database.
  pub saved : List Save

-- Before `Start`.
unfoldable pub initial : Simulation
initial = record {
  loop_counter = 0;
  cur_time = 0;
  prev_time = 0;
  cur_time_diff = 0;
  zones = [];
  char_id_to_guid = [];
  players = [];
  pending_cmds = [];
  is_running = false;
  next_guid = 1;
  saved = [];
}

-- `Start` loads the map 1 as the zone 1, with the measures of its definition.
unfoldable pub start : ℕ → ℕ → Simulation → Simulation
start width height s = record s {
  zones = insert 1 (load 1 1 width height) s.zones;
  loop_counter = 0;
  is_running = true;
}

unfoldable pub stop : Simulation → Simulation
stop s = record s { is_running = false }

-- `GUIDManager::GetNextGUID`, which wraps as `uint64_t` does.
abbrev pub take_guid : Simulation → ℕ × Simulation
take_guid s = (s.next_guid, record s { next_guid = (s.next_guid + 1) % 2 ^ 64 })

unfoldable pub post_world_cmd : Command → Simulation → Simulation
post_world_cmd c s = record s { pending_cmds = s.pending_cmds ++ c ∷ [] }

unfoldable pub register_player : ℕ → ℕ → Pointer → Simulation → Simulation × Bool
register_player guid char_id player s = elim (lookup char_id s.char_id_to_guid) [
  | none ↦ (
    record s {
      players = insert guid player s.players;
      char_id_to_guid = insert char_id guid s.char_id_to_guid;
    },
    true,
  )
  | some _ ↦ (s, false)
]

unfoldable pub unregister_player : ℕ → ℕ → Simulation → Simulation × Bool
unregister_player guid char_id s = elim (lookup char_id s.char_id_to_guid) [
  | none ↦ (s, false)
  | some g ↦
      if g == guid
      then (
        record s {
          char_id_to_guid = erase char_id s.char_id_to_guid;
          players = erase guid s.players;
        },
        true,
      )
      else (s, false)
]

abbrev pub find_zone : ℕ → Simulation → Option Zone
find_zone id s = lookup id s.zones

abbrev pub find_player : ℕ → Simulation → Option Pointer
find_player guid s = lookup guid s.players

-- A write to a zone.
abbrev pub put_zone : ℕ → Zone → Simulation → Simulation
put_zone id z s = record s { zones = insert id z s.zones }

-- What a player pointer leads to.
abbrev pub target : Pointer → Simulation → Option Entity
target p s = elim (lookup p.in_zone s.zones) [ none ↦ none | some z ↦ lookup p.guid z.entities ]
