-- ===== src/Simulation/Spawning.antt =====
-- `WorldCmd_TryToSpawnPlayerCharacter`
-- (src/NECROWorld/Server/Simulation/WorldCmds/PlayerWorldCmds.cpp) on a valid simulation.
pub mod Arrival
pub mod Success
pub mod Undone
use necro_mmo.Common.{
  ℕ, ◌+◌, ◌%◌, ◌^◌, ◌≡◌, refl, sym, ap, ◌∙◌, ◌≢◌, none, some, ◌==◌, arith, Bool, Bool-cases,
  Option-cases, inl, inr, ==→eq, List, true, false, ◌<◌, ◌≤◌, not,
}
use necro_mmo.Common.Dict.{Dict, lookup, insert, lookup-insert}
use necro_mmo.Packet.{Packet}
use necro_mmo.Entity.{Fpu, Entity, make_player, world_to_cell, cell_bound_check}
use necro_mmo.Zone.{Zone}
use necro_mmo.Zone.Placement as Placement
use necro_mmo.Zone.Safety.{Added, add_entity_to_zone-Added, remove_entity_from_zone-IsValid}
use necro_mmo.Simulation.{Simulation, CharacterData, Pointer, put_zone, register_player}
use necro_mmo.Simulation.Registry.{Agree-ext, Agree-next, Agree-enter, elsewhere}
use necro_mmo.Simulation.Invariant.{
  IsValid, Holds, Holds-put, owner, owner_in, who_in, who_in-insert, who_in-changed,
  zones_valid-insert,
}
use necro_mmo.Simulation.Commands.{
  SpawnResult, try_to_spawn, after_add, finish_spawn, no_result, repositioned,
}

-- What a spawn gives. On success the character was not in the world, and is now registered under the
-- guid that the result names, which the zone owns and which is the last below the limit, and everybody
-- else is where they were; on failure nobody has come or gone. The next guid is within the limit.
pub record Spawned (char_id zone limit : ℕ) (s s' : Simulation) (r : SpawnResult) : Type 0 where
  pub valid : IsValid s'
  pub given : s'.next_guid ≤ limit
  pub entered :
      r.success ≡ true
      → (lookup char_id s.char_id_to_guid ≡ none)
        × (lookup r.guid s'.players ≡ some (record { in_zone = zone; guid = r.guid }))
        × (lookup char_id s'.char_id_to_guid ≡ some r.guid)
        × (who_in s'.zones zone r.guid ≡ some char_id)
  pub named : r.success ≡ true → r.guid + 1 ≡ limit
  pub others : r.success ≡ true → (i g : ℕ) → g ≢ r.guid → who_in s'.zones i g ≡ who_in s.zones i g
  pub refused :
      r.success ≡ false
      → (s'.players ≡ s.players)
        × (s'.char_id_to_guid ≡ s.char_id_to_guid)
        × ((i g : ℕ) → who_in s'.zones i g ≡ who_in s.zones i g)

-- Two writes to the same zone, that leave it with the inhabitants that it had.
who_in-restored :
    (zones : Dict Zone) (id : ℕ) (z z' z'' : Zone)
    → lookup id zones ≡ some z
    → ((g : ℕ) → owner (lookup g z''.entities) ≡ owner (lookup g z.entities))
    → (i g : ℕ) → who_in (insert id z'' (insert id z' zones)) i g ≡ who_in zones i g
who_in-restored zones id z z' z'' known same i g =
    who_in-insert (insert id z' zones) id i g z'' ∙ elim (Bool-cases (id == i)) [
      | inl here ↦ rw here (
          same g
          ∙ (sym (ap (λ o. owner_in o g) known) ∙ ap (λ j. who_in zones j g) (==→eq id i here)))
      | inr other ↦ rw other (who_in-insert zones id i g z' ∙ rw other refl)
    ]

abbrev pub outcome : Bool → Entity → Zone → SpawnResult
outcome success e z = record {
  success = success;
  guid = e.guid;
  zone_id = z.zone_id;
  pos_x = e.pos_x;
  pos_y = e.pos_y;
  pos_z = e.pos_z;
}

-- The entity `f`, with the guid `n`, has just come into the zone.
module _ (s : Simulation) (n char_id id : ℕ) (z z' : Zone) (f : Entity)
    (h : Holds s.zones s.players s.char_id_to_guid n) (later : s.next_guid ≡ n + 1)
    (known : lookup id s.zones ≡ some z) (v : Placement.IsValid z') (home : z'.zone_id ≡ id)
    (others : (g : ℕ) → g ≢ n → lookup g z'.entities ≡ lookup g z.entities)
    (new : lookup n z.entities ≡ none) (taken : lookup n z'.entities ≡ some f) (own : f.guid ≡ n)
    (character : f.char_id ≡ char_id) where
  registered-Spawned :
      lookup char_id s.char_id_to_guid ≡ none
      → (s' : Simulation) × (r : SpawnResult) × (finish_spawn char_id id f z' (put_zone id z' s)
          ≡ some (s', r))
        × Spawned char_id id (n + 1) s s' r
  unfolding finish_spawn register_player
  registered-Spawned free =
      let p : Pointer = record { in_zone = id; guid = f.guid } in
      let who_after =
        who_in-changed s.zones id n z z' (some char_id) known
          (ap owner taken ∙ ap (λ c. some c) character) others in
      (
        record s {
          zones = insert id z' s.zones;
          players = insert f.guid p s.players;
          char_id_to_guid = insert char_id f.guid s.char_id_to_guid;
        },
        outcome true f z',
        rw (free, finish_spawn, register_player),
        record {
          valid = record {
            zones_valid = zones_valid-insert s.zones id z' h.zones_valid v home;
            agree =
                rw (own, later)
                  (Agree-ext _ _ _ (who_in (insert id z' s.zones)) (n + 1) who_after (
                    Agree-enter s.players s.char_id_to_guid (who_in s.zones) n id n char_id h.agree
                      (omega arith) free));
          };
          given = omega arith;
          entered = λ _. (
            free,
            ground (arith, lookup-insert f.guid f.guid p s.players),
            ground (arith, lookup-insert char_id char_id f.guid s.char_id_to_guid),
            rw own (who_after id n ∙ ground arith),
          );
          named = λ _. ap (λ g. g + 1) own;
          others = λ _ i g ne.
              who_after i g
              ∙ elsewhere id n i g (some char_id) (who_in s.zones) (λ e. ne (e ∙ sym own));
          refused = λ e. cc;
        },
      )

  rolled_back-Spawned :
      (g : ℕ)
      → lookup char_id s.char_id_to_guid ≡ some g
      → (s' : Simulation) × (r : SpawnResult) × (finish_spawn char_id id f z' (put_zone id z' s)
          ≡ some (s', r))
        × Spawned char_id id (n + 1) s s' r
  unfolding finish_spawn register_player
  rolled_back-Spawned g there =
      let (z'', found, e, v'', home'', gone, others'', _, _) =
        remove_entity_from_zone-IsValid f.guid z' v in
      let back = who_in-restored s.zones id z z' z'' known (same z'' gone others'') in
      (
        record s { zones = insert id z'' (insert id z' s.zones) },
        outcome false f z',
        rw (there, finish_spawn, register_player, e) (rw (there, register_player)),
        record {
          valid = record {
            zones_valid =
                zones_valid-insert (insert id z' s.zones) id z''
                  (zones_valid-insert s.zones id z' h.zones_valid v home) v'' (home'' ∙ home);
            agree = rw later (
                Agree-ext _ _ _ (who_in (insert id z'' (insert id z' s.zones))) (n + 1) back (
                  Agree-next s.players s.char_id_to_guid (who_in s.zones) n (n + 1) (omega arith)
                    h.agree));
          };
          given = omega arith;
          entered = λ k. cc;
          named = λ k. cc;
          others = λ k. cc;
          refused = λ _. (refl, refl, back);
        },
      )
    where
      same :
          (y : Zone)
          → lookup f.guid y.entities ≡ none
          → ((k : ℕ) → k ≢ f.guid → lookup k y.entities ≡ lookup k z'.entities)
          → (k : ℕ) → owner (lookup k y.entities) ≡ owner (lookup k z.entities)
      same y gone away k = elim (Bool-cases (k == f.guid)) [
        | inl mine ↦
            let ek = ==→eq k f.guid mine in
            ap (λ j. owner (lookup j y.entities)) ek
            ∙ (ap owner gone
                ∙ (sym (ap owner new) ∙ ap (λ j. owner (lookup j z.entities)) (sym own ∙ sym ek)))
        | inr other ↦ ap owner (away k (λ e. ground arith) ∙ others k (λ e. ground (arith, own)))
      ]

  pub finish_spawn-Spawned :
      (s' : Simulation) × (r : SpawnResult) × (finish_spawn char_id id f z' (put_zone id z' s)
        ≡ some (s', r))
      × Spawned char_id id (n + 1) s s' r
  finish_spawn-Spawned = elim (Option-cases (lookup char_id s.char_id_to_guid)) [
    | inl free ↦ registered-Spawned free
    | inr (g, there) ↦ rolled_back-Spawned g there
  ]
