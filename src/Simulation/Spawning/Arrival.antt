-- ===== src/Simulation/Spawning/Arrival.antt =====
-- The whole of `WorldCmd_TryToSpawnPlayerCharacter`
-- (src/NECROWorld/Server/Simulation/WorldCmds/PlayerWorldCmds.cpp) on a valid simulation.
use necro_mmo.Common.{
  ℕ, ◌+◌, ◌%◌, ◌^◌, ◌≡◌, refl, sym, ap, ◌∙◌, ◌≢◌, none, some, ◌==◌, arith, Bool, Bool-cases,
  Option-cases, inl, inr, ==→eq, List, true, false, ◌<◌, not,
}
use necro_mmo.Common.Dict.{lookup}
use necro_mmo.Packet.{Packet}
use necro_mmo.Entity.{Fpu, Entity, make_player, world_to_cell, cell_bound_check}
use necro_mmo.Zone.{Zone}
use necro_mmo.Zone.Safety.{Added, add_entity_to_zone-Added}
use necro_mmo.Simulation.{Simulation, CharacterData, put_zone}
use necro_mmo.Simulation.Registry.{Agree-next, with_owner}
use necro_mmo.Simulation.Invariant.{IsValid, Holds, Holds-put, owner, who_in, who_in-changed}
use necro_mmo.Simulation.Commands.{SpawnResult, try_to_spawn, after_add, no_result, repositioned}
use necro_mmo.Simulation.Spawning.{Spawned, finish_spawn-Spawned}

pub repositioned_id : (fpu : Fpu) (c : CharacterData) (z : Zone) → (repositioned fpu c z).id ≡ c.id
unfolding repositioned
repositioned_id fpu c z =
    let (x, y) = world_to_cell fpu c.pos_x c.pos_y in
    elim (Bool-cases (not (cell_bound_check x y z.width z.height))) [
      | inl out ↦ rw out refl
      | inr inside ↦ rw inside refl
    ]

-- What has become of the entity `e` in the zone.
after_add-Spawned :
    (fpu : Fpu) (s : Simulation) (n char_id id : ℕ) (e : Entity) (z z' : Zone) (taken : Bool)
    → Holds s.zones s.players s.char_id_to_guid n
    → s.next_guid ≡ n + 1
    → lookup id s.zones ≡ some z
    → e.guid ≡ n
    → e.char_id ≡ char_id
    → Added fpu e z z' taken
    → (s' : Simulation) × (r : SpawnResult) × (after_add fpu char_id id n (some (z', taken)) s
        ≡ some (s', r))
      × Spawned char_id id (n + 1) s s' r
unfolding after_add no_result
after_add-Spawned fpu s n char_id id e z z' false h later known own character a =
    let same : (g : ℕ) → owner (lookup g z'.entities) ≡ owner (lookup g z.entities) =
      λ g. ap (λ y. owner (lookup g y.entities)) (a.refused refl).0 in
    let held =
      Holds-put s.zones s.players s.char_id_to_guid (n + 1) id z z'
        (record {
          zones_valid = h.zones_valid;
          agree =
              Agree-next s.players s.char_id_to_guid (who_in s.zones) n (n + 1) (omega arith)
                h.agree;
        })
        known a.valid a.zone_same same in
    (
      put_zone id z' s,
      no_result fpu,
      refl,
      record {
        valid = rw later held;
        given = omega (arith, later);
        entered = λ k. cc;
        named = λ k. cc;
        others = λ k. cc;
        refused = λ _. (
          refl,
          refl,
          λ i g.
              who_in-changed s.zones id g z z' (owner (lookup g z.entities)) known (same g)
                (λ k _. ap (λ y. lookup k y.entities) (a.refused refl).0) i g
              ∙ unchanged i g,
        );
      },
    )
  where
    unchanged :
        (i g : ℕ)
        → with_owner id g (owner (lookup g z.entities)) (who_in s.zones) i g ≡ who_in s.zones i g
    unchanged i g = elim (Bool-cases (id == i)) [
      | inl here ↦ rw (==→eq id i here, sym (==→eq id i here), known) (ground arith)
      | inr other ↦ ground arith
    ]
after_add-Spawned fpu s n char_id id e z z' true h later known own character a =
    let (f, here, new, owned, _, _, _, _, _) = a.entered refl in
    let taken : lookup n z'.entities ≡ some f = ap (λ k. lookup k z'.entities) (sym own) ∙ here in
    let home = a.zone_same ∙ (h.zones_valid id z known).1 in
    let others : (g : ℕ) → g ≢ n → lookup g z'.entities ≡ lookup g z.entities =
      λ g ne. a.others g (λ k. ne (k ∙ own)) in
    let new' : lookup n z.entities ≡ none = ap (λ k. lookup k z.entities) (sym own) ∙ new in
    let own' = (a.valid.located n f taken).own in
    let owned' = owned ∙ character in
    let (s', r, done, spawned) =
      finish_spawn-Spawned s n char_id id z z' f h later known a.valid home others new' taken own'
        owned' in
    (s', r, rw (taken, after_add) done, spawned)

-- A spawn on a valid simulation follows no null or dangling pointer and leaves it valid, while fewer
-- than 2 ^ 64 - 1 guids have been given out. It succeeds only for a character that is not in the
-- world, which is then registered, once, under the next guid, which its zone owns. When it fails, at
-- whatever step, everybody who was in the world is in it as before, under the same guids, and nobody
-- else.
pub try_to_spawn-Spawned :
    (fpu : Fpu) (c : CharacterData) (queue : List Packet) (s : Simulation)
    → IsValid s
    → s.next_guid + 1 < 2 ^ 64
    → (s' : Simulation) × (r : SpawnResult) × (try_to_spawn fpu c queue s ≡ some (s', r))
      × Spawned c.id c.zone (s.next_guid + 1) s s' r
unfolding try_to_spawn no_result make_player
try_to_spawn-Spawned fpu c queue s h few = elim (Option-cases (lookup c.zone s.zones)) [
  | inl nowhere ↦ (
    s,
    no_result fpu,
    rw (nowhere, try_to_spawn),
    record {
      valid = h;
      given = omega arith;
      entered = λ k. cc;
      named = λ k. cc;
      others = λ k. cc;
      refused = λ _. (refl, refl, λ i g. refl);
    },
  )
  | inr (z, known) ↦
      let d = repositioned fpu c z in
      let n = s.next_guid in
      let e = make_player fpu n d queue in
      let (z', taken, added, a) =
        add_entity_to_zone-Added fpu e z (h.zones_valid c.zone z known).0 in
      let (s', r, done, spawned) =
        after_add-Spawned fpu (record s { next_guid = (n + 1) % 2 ^ 64 }) n d.id c.zone e z z' taken
          h (omega arith) known refl refl a in
      (
        s',
        r,
        rw (known, try_to_spawn)
            (ap (λ o. after_add fpu d.id c.zone n o (record s { next_guid = (n + 1) % 2 ^ 64 }))
                added
              ∙ done),
        earlier (repositioned_id fpu c z) spawned,
      )
]
  where
    earlier :
        {a b : ℕ} {s' : Simulation} {r : SpawnResult}
        → a ≡ b
        → Spawned a c.zone
            (s.next_guid + 1)
            (record s { next_guid = (s.next_guid + 1) % 2 ^ 64 })
            s'
            r
        → Spawned b c.zone (s.next_guid + 1) s s' r
    earlier e x = rw (sym e) (record {
      valid = x.valid;
      given = x.given;
      entered = x.entered;
      named = x.named;
      others = x.others;
      refused = x.refused;
    })

-- The guid of a player that has come is not 0, the number of no player.
pub try_to_spawn-some_guid :
    (fpu : Fpu) (c : CharacterData) (queue : List Packet) (s s' : Simulation) (r : SpawnResult)
    → IsValid s
    → s.next_guid + 1 < 2 ^ 64
    → try_to_spawn fpu c queue s ≡ some (s', r)
    → r.success ≡ true
    → 0 < r.guid
try_to_spawn-some_guid fpu c queue s s' r h few e done =
    let (t, q, e', spawned) = try_to_spawn-Spawned fpu c queue s h few in
    let same : q ≡ r = cc in
    let named = spawned.named (ap (λ x. x.success) same ∙ done) in
    omega (arith, named, h.agree.counted, ap (λ x. x.guid) same)
