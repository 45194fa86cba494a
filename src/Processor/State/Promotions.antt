-- ===== src/Processor/State/Promotions.antt =====
-- The promotion of suspects to drones in internal/processor/state.go.
use skylens_azure.Common.{
  ℕ, ◌≡◌, ◌≢◌, refl, sym, ap, ◌∙◌, Bytes, same, none, some, [], ◌+◌, arith, inl, inr, Bool-cases,
  Option-cases,
}
use skylens_azure.Common.Int.{ℤ}
use skylens_azure.Common.Maps.{Map, lookup, delete, lookup-delete}
use skylens_azure.Processor.Model.{Drone, SuspectCandidate}
use skylens_azure.Processor.Drones.{get}
use skylens_azure.Processor.Merge.{active}
use skylens_azure.Processor.State.{
  StateManager, update_drone, merge_target, merge_drone, create_drone, refresh_drone, broadcast,
}
use skylens_azure.Processor.State.Candidates.{promoted, enter_drone, promote_suspect}
use skylens_azure.Processor.State.Resolution.{IsState, update_drone-Stores, count_of, here_stored}

abbrev pub without_suspect : Bytes → StateManager → StateManager
without_suspect mac s = record s { suspect_candidates = delete mac s.suspect_candidates }

module _ (haversine : ℤ → ℤ → ℤ → ℤ → ℕ) where
  suspects-update_drone :
      (now : ℕ) (d : Drone) (s : StateManager)
      → (update_drone haversine now d s).state.suspect_candidates ≡ s.suspect_candidates
  unfolding update_drone merge_drone create_drone refresh_drone broadcast
  suspects-update_drone now d s = elim (Bool-cases (same d.identifier [])) [
    | inl e ↦ rw e refl
    | inr e ↦ rw e (elim (Option-cases (merge_target d s.drones)) [
      | inr (found, q) ↦ rw q refl
      | inl q ↦ rw q (elim (Option-cases (get d.identifier s.drones)) [
        | inl m ↦ rw m refl
        | inr (old, m) ↦ rw m refl
      ])
    ])
  ]

  suspects-enter_drone :
      (now : ℕ) (mac : Bytes) (d : Drone) (s : StateManager)
      → lookup mac (enter_drone haversine now mac d s).0.suspect_candidates ≡ none
  unfolding enter_drone broadcast
  suspects-enter_drone now mac d s =
      ap (lookup mac) (suspects-update_drone now d (without_suspect mac s))
      ∙ lookup-delete mac mac s.suspect_candidates
      ∙ ground arith

  drones-enter_drone :
      (now : ℕ) (mac : Bytes) (d : Drone) (s : StateManager)
      → (enter_drone haversine now mac d s).0.drones
        ≡ (update_drone haversine now d (without_suspect mac s)).state.drones
  unfolding enter_drone broadcast
  drones-enter_drone now mac d s = refl

  -- The identifier that UpdateDrone answers for a promoted drone.
  abbrev pub resolved : ℕ → Bytes → Drone → StateManager → Bytes
  resolved now mac d s = (update_drone haversine now d (without_suspect mac s)).resolved_id

module _ (haversine : ℤ → ℤ → ℤ → ℤ → ℕ) (to_int32 : ℤ → ℤ) (first_tap : Map ℕ → Bytes) where
  -- In a well-formed state the promotion of a suspect that has an identifier takes it from the suspects,
  -- and the store has a drone in contact, seen now, under the identifier that UpdateDrone resolves. Its
  -- count is one more than the store had there, whatever the number of observations of the suspect.
  pub promote_suspect-stores :
      (now : ℕ) (mac manufacturer model : Bytes) (c : SuspectCandidate) (s : StateManager)
      → IsState s
      → c.identifier ≢ []
      → lookup mac s.suspect_candidates ≡ some c
      → let id =
          resolved haversine now mac (promoted to_int32 first_tap mac manufacturer model c) s in
        let after = (promote_suspect to_int32 first_tap haversine now mac manufacturer model s).0 in
        (lookup mac after.suspect_candidates ≡ none)
        × ((e : Drone) × (get id after.drones ≡ some e)
            × (e.status ≡ active)
            × (e.last_seen ≡ now)
            × (e.detection_count ≡ count_of (get id s.drones) + 1))
  unfolding promote_suspect enter_drone
  promote_suspect-stores now mac manufacturer model c s v n h =
      let d = promoted to_int32 first_tap mac manufacturer model c in
      let same_id : d.identifier ≡ c.identifier = unfold promoted in refl in
      let u = update_drone haversine now d (without_suspect mac s) in
      let w =
        update_drone-Stores haversine now d (without_suspect mac s) v (λ e. n (sym same_id ∙ e)) in
      let entered : promote_suspect to_int32 first_tap haversine now mac manufacturer model s
          ≡ enter_drone haversine now mac d s =
        rw (promote_suspect, h) refl in
      (
        ap (λ r. lookup mac r.0.suspect_candidates) entered
            ∙ suspects-enter_drone haversine now mac d s,
        (
          w.drone,
          ap (λ r. get u.resolved_id r.0.drones) entered
              ∙ ap (get u.resolved_id) (drones-enter_drone haversine now mac d s)
              ∙ here_stored u.state.drones s.drones u.resolved_id w.drone w.stored,
          w.in_contact,
          w.seen,
          w.counted,
        ),
      )
