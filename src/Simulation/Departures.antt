-- ===== src/Simulation/Departures.antt =====
-- `WorldCmd_TryToDespawnPlayerCharacter`, `WorldCmd_TryToUpdatePlayerMovement`
-- (src/NECROWorld/Server/Simulation/WorldCmds/PlayerWorldCmds.cpp) and `SavePlayerOnDatabase`
-- (WorldSimulation.cpp) on a valid simulation.
use necro_mmo.Common.{
  ℕ, ◌≡◌, refl, ap, ◌∙◌, ◌≢◌, Option, none, some, ◌==◌, if◌then◌else◌, arith, Bool, Bool-cases,
  Option-cases, inl, inr, ==→eq, ==_self, true, false,
}
use necro_mmo.Common.Dict.{lookup, insert, erase, lookup-erase_self}
use necro_mmo.Entity.{Entity}
use necro_mmo.Zone.{Zone}
use necro_mmo.Zone.Moves.{remove_entity_from_zone}
use necro_mmo.Zone.Safety.{remove_entity_from_zone-IsValid}
use necro_mmo.Simulation.{Simulation, Pointer, put_zone, target, unregister_player}
use necro_mmo.Simulation.Registry.{Agree-ext, Agree-leave, with_owner}
use necro_mmo.Simulation.Invariant.{
  IsValid, owner, owner_in, who_in, who_in-changed, zones_valid-insert,
}
use necro_mmo.Simulation.Commands.{try_to_despawn, despawn_entity, leave_zone}

owner_some :
    (o : Option Entity) (c : ℕ) → owner o ≡ some c → (e : Entity) × (o ≡ some e) × (e.char_id ≡ c)
owner_some none c h = cc
owner_some (some e) c h = (e, refl, cc)

owner_in-some :
    (o : Option Zone) (g c : ℕ)
    → owner_in o g ≡ some c
    → (z : Zone) × (e : Entity) × (o ≡ some z) × (lookup g z.entities ≡ some e) × (e.char_id ≡ c)
owner_in-some none g c h = cc
owner_in-some (some z) g c h =
    let (e, found, k) = owner_some (lookup g z.entities) c h in (z, e, refl, found, k)

-- Where the pointer of a registered player leads.
pub record Player (s : Simulation) (g : ℕ) (p : Pointer) : Type 0 where
  pub zone : Zone
  pub entity : Entity
  pub named : p.guid ≡ g
  pub zone_known : lookup p.in_zone s.zones ≡ some zone
  pub known : lookup g zone.entities ≡ some entity
  pub listed : lookup entity.char_id s.char_id_to_guid ≡ some g
  pub own : entity.guid ≡ g
  pub home : entity.current_zone ≡ some p.in_zone

-- A registered player's pointer leads to its entity, which knows its guid, its zone and a character
-- that is listed under the guid.
pub registered-Player :
    (s : Simulation) (g : ℕ) (p : Pointer) → IsValid s → lookup g s.players ≡ some p → Player s g p
registered-Player s g p h k =
    let (c, named, w, kc) = h.agree.registered g p k in
    let (z, e, kz, ke, character) = owner_in-some (lookup p.in_zone s.zones) g c w in
    let (v, id) = h.zones_valid p.in_zone z kz in
    let l = v.located g e ke in
    record {
      zone = z;
      entity = e;
      named = named;
      zone_known = kz;
      known = ke;
      listed = ap (λ x. lookup x s.char_id_to_guid) character ∙ kc;
      own = l.own;
      home = l.home ∙ ap (λ x. some x) id;
    }

pub target_lem :
    (s : Simulation) (g : ℕ) (p : Pointer) (x : Player s g p) → target p s ≡ some x.entity
target_lem s g p x =
    rw (x.zone_known, target) (ap (λ k. lookup k x.zone.entities) x.named ∙ x.known)

unregistered : ℕ → ℕ → Simulation → Simulation
unregistered g c s = record s {
  char_id_to_guid = erase c s.char_id_to_guid;
  players = erase g s.players;
}

unregister_player_lem :
    (k g c : ℕ) (s : Simulation)
    → k ≡ g
    → lookup c s.char_id_to_guid ≡ some g
    → unregister_player k c s ≡ (unregistered g c s, true)
unfolding unregister_player unregistered
unregister_player_lem k g c s e known = rw (known, unregister_player) (rw (e, ==_self g))

leave_zone_lem :
    (o : Option ℕ) (id g : ℕ) (z z' : Zone) (found : Bool) (s : Simulation)
    → o ≡ some id
    → lookup id s.zones ≡ some z
    → remove_entity_from_zone g z ≡ some (z', found)
    → leave_zone o g s ≡ some (put_zone id z' s, true)
unfolding leave_zone
leave_zone_lem o id g z z' found s e known left = rw (e, leave_zone, known, left)

despawn_entity_lem :
    (g id : ℕ) (e : Entity) (z z' : Zone) (found : Bool) (s : Simulation)
    → e.guid ≡ g
    → lookup e.char_id s.char_id_to_guid ≡ some g
    → e.current_zone ≡ some id
    → lookup id s.zones ≡ some z
    → remove_entity_from_zone g z ≡ some (z', found)
    → despawn_entity g e s ≡ some (put_zone id z' (unregistered g e.char_id s), true)
unfolding despawn_entity unregistered
despawn_entity_lem g id e z z' found s own listed home known left =
    ap (λ r. if r.1 then leave_zone e.current_zone g r.0 else some (r.0, false))
      (unregister_player_lem e.guid g e.char_id s own listed)
    ∙ leave_zone_lem e.current_zone id g z z' found (unregistered g e.char_id s) home known left

-- A despawn on a valid simulation follows no dangling pointer and leaves it valid. After it nobody
-- is registered under the guid, no zone owns an entity under it, and everybody else is where they
-- were; it reports success exactly if the guid was registered.
pub try_to_despawn-IsValid :
    (g : ℕ) (s : Simulation)
    → IsValid s
    → (s' : Simulation) × (done : Bool) × (try_to_despawn g s ≡ some (s', done))
      × IsValid s'
      × (s'.next_guid ≡ s.next_guid)
      × (lookup g s'.players ≡ none)
      × ((i h : ℕ) → who_in s'.zones i h ≡ (if h == g then none else who_in s.zones i h))
      × (done ≡ true → lookup g s.players ≢ none)
      × (done ≡ false → s' ≡ s)
unfolding try_to_despawn unregistered
try_to_despawn-IsValid g s h = elim (Option-cases (lookup g s.players)) [
  | inl unknown ↦ (
    s,
    false,
    rw (unknown, try_to_despawn),
    h,
    refl,
    unknown,
    λ i k. nobody i k unknown,
    λ e. cc,
    λ e. refl,
  )
  | inr (p, known) ↦
      let x = registered-Player s g p h known in
      let (v, id) = h.zones_valid p.in_zone x.zone x.zone_known in
      let (z', found, e, v', id', gone, others, _, _) =
        remove_entity_from_zone-IsValid g x.zone v in
      let who_after =
        who_in-changed s.zones p.in_zone g x.zone z' none x.zone_known (ap owner gone) others in
      (
        record s {
          zones = insert p.in_zone z' s.zones;
          players = erase g s.players;
          char_id_to_guid = erase x.entity.char_id s.char_id_to_guid;
        },
        true,
        rw (known, try_to_despawn, target_lem s g p x)
            (despawn_entity_lem g p.in_zone x.entity x.zone z' found s x.own x.listed x.home
              x.zone_known e),
        record {
          zones_valid = zones_valid-insert s.zones p.in_zone z' h.zones_valid v' (id' ∙ id);
          agree = Agree-ext _ _ _ (who_in (insert p.in_zone z' s.zones)) s.next_guid who_after (
              Agree-leave s.players s.char_id_to_guid (who_in s.zones) s.next_guid p g
                x.entity.char_id h.agree known (owned p x) x.listed);
        },
        refl,
        lookup-erase_self g s.players h.agree.players_distinct,
        λ i k. who_after i k ∙ without p i k known,
        λ _ e'. cc (known, e'),
        λ e'. cc,
      )
]
  where
    owned : (p : Pointer) (x : Player s g p) → who_in s.zones p.in_zone g ≡ some x.entity.char_id
    owned p x = rw x.zone_known (ap owner x.known)

    without :
        (p : Pointer) (i k : ℕ)
        → lookup g s.players ≡ some p
        → with_owner p.in_zone g none (who_in s.zones) i k
          ≡ (if k == g then none else who_in s.zones i k)
    without p i k known = elim (Bool-cases (k == g)) [
      | inr other ↦ rw other (ground arith)
      | inl same ↦ elim (Option-cases (who_in s.zones i k)) [
        | inl absent ↦ rw (absent, same) (ground arith)
        | inr (c, w) ↦
            let (q, kq, ei) = h.agree.inhabited i k c w in
            let here : p.in_zone ≡ i = cc (==→eq k g same, kq, known, ei) in
            rw same (ground (arith, here))
      ]
    ]

    nobody :
        (i k : ℕ)
        → lookup g s.players ≡ none
        → who_in s.zones i k ≡ (if k == g then none else who_in s.zones i k)
    nobody i k unknown = elim (Bool-cases (k == g)) [
      | inr other ↦ rw other refl
      | inl same ↦ elim (Option-cases (who_in s.zones i k)) [
        | inl absent ↦ rw (absent, same) refl
        | inr (c, w) ↦
            let (q, kq, _) = h.agree.inhabited i k c w in absurd (cc (==→eq k g same, kq, unknown))
      ]
    ]
