-- ===== src/Processor/State/Restored.antt =====
-- The start-up of the state manager, internal/processor/state.go: HydrateDrones with the saved drones, then
-- SetNextTrackNum, then the calls of the
-- running server, of which BackfillTrackNumbers is the first. The source calls HydrateDrones and
-- SetNextTrackNum at no other time, and HydrateDrone not at all.
use skylens_azure.Common.{
  ℕ, ◌≡◌, ◌≢◌, ◌≤◌, refl, sym, ap, ◌∙◌, subst, Bytes, some, List, [], ◌∷◌, Bool, arith, inl, inr,
  Bool-cases, All, is_some,
}
use skylens_azure.Common.Int.{ℤ}
use skylens_azure.Common.Maps.{Map}
use skylens_azure.Processor.Model.{Drone}
use skylens_azure.Processor.Suspects.{DetectionConfig}
use skylens_azure.Processor.Drones.{ShardedDrones, get, set, put_drone}
use skylens_azure.Processor.Drones.Refinement.{get-set}
use skylens_azure.Processor.Drones.Placement.{
  IsStore, put_drone-IsStore, same_shards-IsStore, new-get,
}
use skylens_azure.Processor.State.{
  StateManager, new_state_manager, hydrate_drones, set_next_track_num,
}
use skylens_azure.Processor.State.Resolution.{IsNumbered, IsState}
use skylens_azure.Processor.State.Numbers.{after_put, none-ne}
use skylens_azure.Processor.State.Calls.{Call, run, Unnumbered, run-IsNumbered, new-IsState}

-- A number belongs to one identifier.
abbrev pub OneOwner : Drone → Drone → Type 0
OneOwner d e = d.track_number ≢ 0 → d.track_number ≡ e.track_number → d.identifier ≡ e.identifier

-- Saved drones with numbers up to a greatest one, no number of which has two identifiers.
abbrev pub AreSaved : ℕ → List Drone → Type 0
AreSaved n [] = Unit
AreSaved n (d ∷ ds) = (d.track_number ≤ n) × (All (OneOwner d) ds × AreSaved n ds)

-- The number of a drone belongs to no stored one under another identifier.
abbrev Joins : ShardedDrones → Drone → Type 0
Joins sd d =
    (j : Bytes) (e : Drone)
    → get j sd ≡ some e
    → d.track_number ≢ 0
    → d.track_number ≡ e.track_number
    → d.identifier ≡ j

set-IsStore : (id : Bytes) (d : Drone) (sd : ShardedDrones) → IsStore sd → IsStore (set id d sd)
unfolding set
set-IsStore id d sd v =
    same_shards-IsStore (put_drone id d sd) (set id d sd) refl (put_drone-IsStore id d sd v)

set-IsNumbered :
    (d : Drone) (sd : ShardedDrones) (n : ℕ)
    → IsNumbered sd n
    → d.track_number ≤ n
    → Joins sd d
    → IsNumbered (set d.identifier d sd) n
set-IsNumbered d sd n v le own =
    let back =
      after_put sd (set d.identifier d sd) d.identifier d
        (λ j. get-set d.identifier j d sd v.store.size) in
    record {
      store = set-IsStore d.identifier d sd v.store;
      named = λ j e h. elim (back j e h) [
        | inl (q, z) ↦ sym (ap (λ x. x.identifier) z) ∙ q
        | inr (q, z) ↦ v.named j e z
      ];
      numbered = λ j e h. elim (back j e h) [
        | inl (q, z) ↦ subst (λ x. x.track_number ≤ n) z le
        | inr (q, z) ↦ v.numbered j e z
      ];
      apart = λ i j e f h k nz same_number. elim (back i e h) [
        | inl (q, z) ↦ elim (back j f k) [
          | inl (r, y) ↦ sym q ∙ r
          | inr (r, y) ↦
              let t = ap (λ x. x.track_number) z in
              sym q ∙ own j f y (λ w. nz (sym t ∙ w)) (t ∙ same_number)
        ]
        | inr (q, z) ↦ elim (back j f k) [
          | inl (r, y) ↦
              let t = ap (λ x. x.track_number) y ∙ sym same_number in
              sym (own i e z (λ w. nz (sym t ∙ w)) t) ∙ r
          | inr (r, y) ↦ v.apart i j e f z y nz same_number
        ]
      ];
    }

Joins-set :
    (d : Drone) (sd : ShardedDrones) (n : ℕ) (ds : List Drone)
    → IsNumbered sd n
    → All (OneOwner d) ds
    → All (Joins sd) ds
    → All (Joins (set d.identifier d sd)) ds
Joins-set d sd n [] v o h = tt
Joins-set d sd n (e ∷ ds) v (p, o) (own, h) = (
  λ j f k nz same_number.
      elim (after_put sd (set d.identifier d sd) d.identifier d
        (λ i. get-set d.identifier i d sd v.store.size) j f k) [
          | inl (q, z) ↦
              let t = same_number ∙ sym (ap (λ x. x.track_number) z) in
              sym (p (λ w. nz (t ∙ w)) (sym t)) ∙ q
          | inr (q, z) ↦ own j f z nz same_number
        ],
  Joins-set d sd n ds v o h,
)

hydrate_drones-IsNumbered :
    (ds : List Drone) (s : StateManager) (n : ℕ)
    → IsNumbered s.drones n
    → All (Joins s.drones) ds
    → AreSaved n ds
    → IsNumbered (hydrate_drones ds s).0.drones n
unfolding hydrate_drones
hydrate_drones-IsNumbered [] s n v h a = v
hydrate_drones-IsNumbered (d ∷ ds) s n v (own, h) (le, (o, a)) =
    elim (Bool-cases (is_some (get d.identifier s.drones))) [
      | inl e ↦ rw (e, hydrate_drones) (hydrate_drones-IsNumbered ds s n v h a)
      | inr e ↦
          let sd = set d.identifier d s.drones in
          rw (e, hydrate_drones)
            (hydrate_drones-IsNumbered ds (record s { drones = sd }) n
              (set-IsNumbered d s.drones n v le own) (Joins-set d s.drones n ds v o h) a)
    ]

Joins-new :
    (cfg : DetectionConfig) (minutes : ℕ) (single_tap : Bool) (ds : List Drone)
    → All (Joins (new_state_manager cfg minutes single_tap).drones) ds
unfolding new_state_manager
Joins-new cfg minutes single_tap [] = tt
Joins-new cfg minutes single_tap (d ∷ ds) =
    (λ j e k. absurd (none-ne (sym (new-get j) ∙ k)), Joins-new cfg minutes single_tap ds)

zero-IsNumbered :
    (cfg : DetectionConfig) (minutes : ℕ) (single_tap : Bool)
    → IsNumbered (new_state_manager cfg minutes single_tap).drones 0
unfolding new_state_manager
zero-IsNumbered cfg minutes single_tap = new-IsState cfg minutes single_tap

-- A bound on the numbers of a store can be raised.
raised : (sd : ShardedDrones) (n : ℕ) → IsNumbered sd 0 → IsNumbered sd n
raised sd n v = record {
  store = v.store;
  named = v.named;
  numbered = λ id e h. omega (arith, v.numbered id e h);
  apart = v.apart;
}

-- The state after the start-up.
abbrev pub restored : DetectionConfig → ℕ → Bool → List Drone → ℕ → StateManager
restored cfg minutes single_tap ds n =
    set_next_track_num n (hydrate_drones ds (new_state_manager cfg minutes single_tap)).0

module _ (haversine : ℤ → ℤ → ℤ → ℤ → ℕ) (average : ℤ → ℤ → ℤ) (to_int32 : ℤ → ℤ)
    (first_tap : Map ℕ → Bytes) where
  -- A new state manager is given saved drones by HydrateDrones, no track number of which exceeds `n` or
  -- belongs to two identifiers, then `n` by SetNextTrackNum. After any further sequence of back-fills,
  -- detections, tags, classifications, hidings, deletions, clean-ups, range rings, estimates, heartbeats and
  -- changes of suspects, in which no controller is reported with a track number, every drone stands under its own identifier in the shard
  -- of its hash, no track number exceeds the counter, and no two drones share one,
  -- where 0 is no track number.
  pub run-restored-IsState :
      (cfg : DetectionConfig) (minutes : ℕ) (single_tap : Bool) (ds : List Drone) (n : ℕ)
      (cs : List Call)
      → AreSaved n ds
      → All Unnumbered cs
      → IsState (run haversine average to_int32 first_tap (restored cfg minutes single_tap ds n) cs)
  unfolding set_next_track_num
  run-restored-IsState cfg minutes single_tap ds n cs a h =
      let new = new_state_manager cfg minutes single_tap in
      run-IsNumbered haversine average to_int32 first_tap cs (restored cfg minutes single_tap ds n)
        (hydrate_drones-IsNumbered ds new n
          (raised new.drones n (zero-IsNumbered cfg minutes single_tap))
          (Joins-new cfg minutes single_tap ds) a)
        h
