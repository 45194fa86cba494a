-- ===== src/Processor/State/Outcomes.antt =====
-- What UpdateDrone of internal/processor/state.go stores for a detection that belongs to no other drone.
use skylens_azure.Common.{ℕ, ◌+◌, ◌≡◌, ◌≢◌, refl, ap, ◌∙◌, none, some, []}
use skylens_azure.Common.Int.{ℤ}
use skylens_azure.Processor.Model.{Drone}
use skylens_azure.Processor.Drones.{get, set, put_drone, update_indexes}
use skylens_azure.Processor.Drones.Placement.{get-put_drone}
use skylens_azure.Processor.Merge.{update_existing}
use skylens_azure.Processor.State.{
  StateManager, update_drone, merge_target, create_drone, refresh_drone, broadcast, started,
}
use skylens_azure.Processor.State.Resolution.{IsState, same-false, here_stored}

module _ (haversine : ℤ → ℤ → ℤ → ℤ → ℕ) where
  update_drone-created :
      (now : ℕ) (d : Drone) (s : StateManager)
      → d.identifier ≢ []
      → merge_target d s.drones ≡ none
      → get d.identifier s.drones ≡ none
      → update_drone haversine now d s ≡ create_drone haversine now d s
  unfolding update_drone
  update_drone-created now d s n m g = rw (same-false d.identifier [] n, m, g) refl

  update_drone-refreshed :
      (now : ℕ) (d e : Drone) (s : StateManager)
      → d.identifier ≢ []
      → merge_target d s.drones ≡ none
      → get d.identifier s.drones ≡ some e
      → update_drone haversine now d s ≡ refresh_drone haversine now d e s
  unfolding update_drone
  update_drone-refreshed now d e s n m g = rw (same-false d.identifier [] n, m, g) refl

  created-drone :
      (now : ℕ) (d : Drone) (s : StateManager)
      → IsState s
      → get d.identifier (create_drone haversine now d s).state.drones
        ≡ some (started now (s.next_track_num + 1) d)
  unfolding create_drone broadcast set update_indexes get
  created-drone now d s v =
      let new = started now (s.next_track_num + 1) d in
      here_stored (put_drone d.identifier new s.drones) s.drones d.identifier new
        (λ j. get-put_drone d.identifier j new s.drones v.store)

  refreshed-drone :
      (now : ℕ) (d e : Drone) (s : StateManager)
      → IsState s
      → get d.identifier (refresh_drone haversine now d e s).state.drones
        ≡ some (update_existing now d e)
  unfolding refresh_drone broadcast update_indexes get
  refreshed-drone now d e s v =
      let new = update_existing now d e in
      here_stored (put_drone d.identifier new s.drones) s.drones d.identifier new
        (λ j. get-put_drone d.identifier j new s.drones v.store)

  pub get-created :
      (now : ℕ) (d : Drone) (s : StateManager)
      → IsState s
      → d.identifier ≢ []
      → merge_target d s.drones ≡ none
      → get d.identifier s.drones ≡ none
      → get d.identifier (update_drone haversine now d s).state.drones
        ≡ some (started now (s.next_track_num + 1) d)
  get-created now d s v n m g =
      ap (λ u. get d.identifier u.state.drones) (update_drone-created now d s n m g)
      ∙ created-drone now d s v

  pub get-refreshed :
      (now : ℕ) (d e : Drone) (s : StateManager)
      → IsState s
      → d.identifier ≢ []
      → merge_target d s.drones ≡ none
      → get d.identifier s.drones ≡ some e
      → get d.identifier (update_drone haversine now d s).state.drones
        ≡ some (update_existing now d e)
  get-refreshed now d e s v n m g =
      ap (λ u. get d.identifier u.state.drones) (update_drone-refreshed now d e s n m g)
      ∙ refreshed-drone now d e s v
