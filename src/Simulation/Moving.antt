-- ===== src/Simulation/Moving.antt =====
-- `WorldCmd_TryToUpdatePlayerMovement`
-- (src/NECROWorld/Server/Simulation/WorldCmds/PlayerWorldCmds.cpp) and `SavePlayerOnDatabase`
-- (WorldSimulation.cpp) on a valid simulation.
use necro_mmo.Common.{
  ℕ, ◌≡◌, refl, sym, ap, ◌∙◌, ◌≢◌, ◌⊎◌, Option, none, some, ◌==◌, arith, Bool, Bool-cases,
  Option-cases, inl, inr, ==→eq, [], ◌∷◌, true, false, not, ◌++◌, ◌<◌, ◌≤◌, length, some_unique,
}
use necro_mmo.Common.Dict.{lookup, insert, lookup-insert}
use necro_mmo.Entity.{Fpu, Entity, send_movement_correction}
use necro_mmo.Entity.Corrections.{
  correction_bytes, next_epoch, send_movement_correction-epoch, send_movement_correction-SameBody,
}
use necro_mmo.Packet.{Packet}
use necro_mmo.Zone.{Zone, store_entity}
use necro_mmo.Zone.Upkeep.{Alike, store-IsValid}
use necro_mmo.Simulation.{Simulation, Pointer, Movement, Save, put_zone}
use necro_mmo.Simulation.Invariant.{IsValid, Holds-put, owner}
use necro_mmo.Simulation.Departures.{Player, registered-Player, target_lem}
use necro_mmo.Simulation.Commands.{try_to_move, write_target, moved, is_refused, save_player}

-- The statement that saves a player's entity.
abbrev pub save_of : Entity → Save
save_of e = record {
  level = e.level;
  xp = e.xp;
  zone = e.zone;
  pos_x = e.pos_x;
  pos_y = e.pos_y;
  pos_z = e.pos_z;
  char_id = e.char_id;
}

-- On a valid simulation a save always ends. A player that is registered is saved, with its
-- character's level, experience, zone and id and the position that its entity has, after whatever
-- was saved before; nothing else of the simulation changes. One that is not registered is not
-- saved, and nothing changes.
pub save_player_lem :
    (g : ℕ) (s : Simulation)
    → IsValid s
    → (s' : Simulation) × (done : Bool) × (save_player g s ≡ some (s', done))
      × IsValid s'
      × (done ≡ false → (s' ≡ s) × (lookup g s.players ≡ none))
      × (done ≡ true
          → (p : Pointer) × (x : Player s g p) × (lookup g s.players ≡ some p)
            × (s' ≡ record s { saved = s.saved ++ save_of x.entity ∷ [] }))
unfolding save_player
save_player_lem g s h = elim (Option-cases (lookup g s.players)) [
  | inl unknown ↦ (s, false, rw (unknown, save_player), h, λ _. (refl, unknown), λ e. cc)
  | inr (p, known) ↦
      let x = registered-Player s g p h known in
      (
        record s { saved = s.saved ++ save_of x.entity ∷ [] },
        true,
        rw (known, save_player, target_lem s g p x),
        h,
        λ e. cc,
        λ _. (p, x, known, refl),
      )
]

-- A position that the server believes: three finite numbers and one of the directions, not too far from
-- where the entity is.
pub record Plausible (fpu : Fpu) (m : Movement) (e : Entity) : Type 0 where
  pub finite_x : fpu.is_finite m.pos_x ≡ true
  pub finite_y : fpu.is_finite m.pos_y ≡ true
  pub finite_z : fpu.is_finite m.pos_z ≡ true
  pub direction : m.iso_direction < 8
  pub near_x : fpu.too_far m.pos_x e.pos_x ≡ false
  pub near_y : fpu.too_far m.pos_y e.pos_y ≡ false

refused-implausible :
    (fpu : Fpu) (m : Movement) (e : Entity) → is_refused fpu m e ≡ true → Plausible fpu m e → ⊥
refused-implausible fpu m e bad h =
    ground (arith, h.finite_x, h.finite_y, h.finite_z, h.direction, h.near_x, h.near_y, bad)

believed-Plausible :
    (fpu : Fpu) (m : Movement) (e : Entity) → is_refused fpu m e ≡ false → Plausible fpu m e
believed-Plausible fpu m e good = record {
  finite_x = ground (arith, good);
  finite_y = ground (arith, good);
  finite_z = ground (arith, good);
  direction = ground (arith, good);
  near_x = ground (arith, good);
  near_y = ground (arith, good);
}

-- What a movement packet does to the entity. An answer to an older correction does nothing; a
-- plausible position is believed; and any other is refused by a correction with the position that the
-- entity keeps, where its queue has room, and else by nothing.
pub record Moves (fpu : Fpu) (m : Movement) (e e' : Entity) : Type 0 where
  pub alike : Alike e e'
  pub owner : e'.char_id ≡ e.char_id
  pub stale : m.acked_correction_id ≢ e.last_correction_id → e' ≡ e
  pub believed :
      m.acked_correction_id ≡ e.last_correction_id
      → Plausible fpu m e
      → e' ≡ record e {
        pos_x = m.pos_x;
        pos_y = m.pos_y;
        pos_z = m.pos_z;
        iso_direction = m.iso_direction;
      }
  pub refused :
      m.acked_correction_id ≡ e.last_correction_id
      → (Plausible fpu m e → ⊥)
      → (p : Packet) × (p.bytes ≡ correction_bytes (next_epoch e) m.seq e)
        × (length e.packet_queue < 1000
            → e' ≡ record e {
              packet_queue = e.packet_queue ++ p ∷ [];
              last_correction_id = next_epoch e;
            })
        × (1000 ≤ length e.packet_queue → e' ≡ e)

moved-Moves :
    (fpu : Fpu) (m : Movement) (e : Entity)
    → (e' : Entity) × (moved fpu m e ≡ some e') × Moves fpu m e e'
unfolding moved
moved-Moves fpu m e = elim (Bool-cases (not (m.acked_correction_id == e.last_correction_id))) [
  | inl stale ↦ (
    e,
    rw stale,
    record {
      alike = record { guid = refl; zone = refl; cell = refl; grid_x = refl; grid_y = refl };
      owner = refl;
      stale = λ _. refl;
      believed = λ a _. absurd (ground (arith, a));
      refused = λ a _. absurd (ground (arith, a));
    },
  )
  | inr fresh ↦ elim (Bool-cases (is_refused fpu m e)) [
    | inl bad ↦
        let (e', sent, corrected, same) = send_movement_correction-SameBody m.seq e in
        let (p, bytes, with_room, when_full) = send_movement_correction-epoch m.seq e in
        (
          e',
          rw (fresh, bad, corrected),
          record {
            alike = record {
              guid = same.guid;
              zone = same.zone;
              cell = same.cell;
              grid_x = same.grid_x;
              grid_y = same.grid_y;
            };
            owner = same.owner;
            stale = λ n. absurd (n (ground arith));
            believed = λ _ h. absurd (refused-implausible fpu m e bad h);
            refused = λ _ _. (
              p,
              bytes,
              λ room. corrected_once m.seq e e' sent corrected (with_room room),
              λ full. corrected_once m.seq e e' sent corrected (when_full full),
            );
          },
        )
    | inr good ↦ (
      record e {
        pos_x = m.pos_x;
        pos_y = m.pos_y;
        pos_z = m.pos_z;
        iso_direction = m.iso_direction;
      },
      rw (fresh, good),
      record {
        alike = record { guid = refl; zone = refl; cell = refl; grid_x = refl; grid_y = refl };
        owner = refl;
        stale = λ n. absurd (n (ground arith));
        believed = λ _ _. refl;
        refused = λ _ n. absurd (n (believed-Plausible fpu m e good));
      },
    )
  ]
]
  where
    corrected_once :
        {f : Entity}
        → {done : Bool} → (seq : ℕ) (e e' : Entity) (sent : Bool)
        → send_movement_correction seq e ≡ some (e', sent)
        → send_movement_correction seq e ≡ some (f, done)
        → e' ≡ f
    corrected_once {f} {done} seq e e' sent p q =
        ap (λ x. x.0) (some_unique (send_movement_correction seq e) (e', sent) (f, done) p q)

write_target_lem :
    (p : Pointer) (f : Entity → Option Entity) (z : Zone) (e e' : Entity) (s : Simulation)
    → lookup p.in_zone s.zones ≡ some z
    → lookup p.guid z.entities ≡ some e
    → f e ≡ some e'
    → write_target p f s ≡ some (put_zone p.in_zone (store_entity p.guid e' z) s)
unfolding write_target
write_target_lem p f z e e' s kz ke w = rw (kz, write_target, ke, w)

-- A movement packet on a valid simulation follows no dangling pointer and leaves it valid. Without a
-- registered player it does nothing. Otherwise it changes that player's entity alone: not at all for
-- an old epoch; to the position and direction that the client says when these are plausible, that is
-- finite, one of the eight directions and not too far from where the entity is; and for any other, the
-- correction with the position that the entity keeps is queued last under the next epoch, or nothing
-- changes where the queue is full.
pub try_to_move-IsValid :
    (fpu : Fpu) (g : ℕ) (m : Movement) (s : Simulation)
    → IsValid s
    → (s' : Simulation) × (try_to_move fpu g m s ≡ some s')
      × IsValid s'
      × (s'.next_guid ≡ s.next_guid)
      × (((lookup g s.players ≡ none) × (s' ≡ s))
          ⊎ ((p : Pointer) × (x : Player s g p) × (e' : Entity) × (lookup g s.players ≡ some p)
              × Moves fpu m x.entity e'
              × (s' ≡ put_zone p.in_zone (store_entity p.guid e' x.zone) s)))
unfolding try_to_move
try_to_move-IsValid fpu g m s h = elim (Option-cases (lookup g s.players)) [
  | inl unknown ↦ (s, rw (unknown, try_to_move), h, refl, inl (unknown, refl))
  | inr (p, known) ↦
      let x = registered-Player s g p h known in
      let (e', w, moves) = moved-Moves fpu m x.entity in
      let (v, id) = h.zones_valid p.in_zone x.zone x.zone_known in
      let found = ap (λ k. lookup k x.zone.entities) x.named ∙ x.known in
      (
        put_zone p.in_zone (store_entity p.guid e' x.zone) s,
        rw (known, try_to_move)
            (write_target_lem p (moved fpu m) x.zone x.entity e' s x.zone_known found w),
        Holds-put s.zones s.players s.char_id_to_guid s.next_guid p.in_zone x.zone
            (store_entity p.guid e' x.zone) h x.zone_known
            (store-IsValid x.zone p.guid x.entity e' v found moves.alike) refl
            (λ k. owner_stored p.guid k x.zone x.entity e' found moves.owner),
        refl,
        inr (p, x, e', known, moves, refl),
      )
]
  where
    owner_stored :
        (g k : ℕ) (z : Zone) (e e' : Entity)
        → lookup g z.entities ≡ some e
        → e'.char_id ≡ e.char_id
        → owner (lookup k (insert g e' z.entities)) ≡ owner (lookup k z.entities)
    owner_stored g k z e e' found same = elim (Bool-cases (g == k)) [
      | inl here ↦
          ap owner (lookup-insert g k e' z.entities)
          ∙ (rw here (ap (λ c. some c) same)
              ∙ (sym (ap owner found) ∙ ap (λ j. owner (lookup j z.entities)) (==→eq g k here)))
      | inr other ↦ ap owner (lookup-insert g k e' z.entities) ∙ rw other refl
    ]
