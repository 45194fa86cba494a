-- ===== src/Processor/Runs/StateRuns.antt =====
-- Runs of the state manager of internal/processor/state.go, and its theorems at concrete calls.
use skylens_azure.Common.{
  any, if◌then◌else◌, ℕ, ◌+◌, ◌≡◌, refl, Bytes, bytes_discrete, codes, none, some, List, [], ◌∷◌,
  map, Bool, true, false, arith, All,
}
use skylens_azure.Common.Int.{ℤ, pos, negsuc}
use skylens_azure.Common.Maps.{Map, lookup, insert, delete, map_values, keep_values}
use skylens_azure.Processor.Model.{Drone, no_drone, SuspectCandidate, no_candidate}
use skylens_azure.Processor.Suspects.{no_config, new_suspect_correlator}
use skylens_azure.Processor.Trails.{
  new_trail_manager, record_position, add_sample, is_duplicate, trim, remove_trail,
}
use skylens_azure.Processor.Drones.{
  get, get_all, new_sharded_drones, set, get_shard, fnv, update_indexes, delete_drone,
  remove_from_indexes, lookup_by_serial, lookup_by_mac, for_each_mut,
}
use skylens_azure.Processor.State.{
  merge_target, merge_drone, create_drone, started, broadcast, offer, record_trail,
}
use skylens_azure.Processor.State.Changes.{
  backfill_track_numbers, number_shards, number_drones, set_drone_tag, change_drone, hide_all_lost,
}
use skylens_azure.Processor.State.Cleanup.{
  mark_drones, broadcast_all, mark_lost, evict_drones, all_expired_ids, expired_ids, evict,
  mark_taps, mark_tap, expire_suspects,
}
use skylens_azure.Processor.Merge.{
  merge_names, update_telemetry, update_operator, operator_position, rejects_operator,
  update_motion, update_position, update_latitude, gps_stale,
}
use skylens_azure.Processor.Merge.{
  is_wifi_only, was_lost, fix, difference, active, merge_into_existing,
}
use skylens_azure.Processor.Merge.Beacons.{
  Report, receive_all, no_position, is_late, fix-receive_all, beacons-keep_position,
}
use skylens_azure.Processor.State.{StateManager, new_state_manager, update_drone}
use skylens_azure.Processor.State.Cleanup.{cleanup}
use skylens_azure.Processor.State.Candidates.{promoted, promote_suspect}
use skylens_azure.Processor.State.Resolution.{IsState, Stores, count_of, update_drone-Stores}
use skylens_azure.Processor.State.Settling.{
  settle, get-cleanup, at_cleanup, unseen-evicted, seen-stays,
}
use skylens_azure.Processor.State.Calls.{
  Call, detects, tags, hides_lost, backfills, cleans, run, step, Unnumbered, run-IsNumbered,
  new-IsState,
}
use skylens_azure.Processor.State.Restored.{AreSaved, restored, run-restored-IsState}
use skylens_azure.Processor.State.Promotions.{resolved, promote_suspect-stores}

-- A distance on a plane, in place of the great circle.
abbrev flat : ℤ → ℤ → ℤ → ℤ → ℕ
flat a b c d = difference a c + difference b d

abbrev newest : ℤ → ℤ → ℤ
newest new old = new

abbrev same_number : ℤ → ℤ
same_number n = n

abbrev first_key : Map ℕ → Bytes
first_key [] = []
first_key ((k, n) ∷ m) = k

abbrev mavic : Drone
mavic = record no_drone {
  identifier = codes "mavic";
  serial_number = codes "S1";
  mac_address = codes "m1";
  latitude = pos 500_000_000;
  longitude = pos 80_000_000;
  rssi = negsuc 60;
}

-- The same drone by another receiver, and one with another serial number.
abbrev mavic_by_wifi : Drone
mavic_by_wifi = record mavic { identifier = codes "wifi-1"; mac_address = codes "m7" }

abbrev other : Drone
other = record mavic {
  identifier = codes "other";
  serial_number = codes "S2";
  mac_address = codes "m2";
}

abbrev calls : List Call
calls =
    detects 10 mavic
    ∷ detects 20 mavic_by_wifi
    ∷ detects 30 other
    ∷ tags (codes "other") (codes "friend")
    ∷ cleans 15 100 40
    ∷ hides_lost
    ∷ backfills
    ∷ []

abbrev start : StateManager
start = new_state_manager no_config 30 true

abbrev state : StateManager
state = run flat newest same_number first_key start calls

calls-Unnumbered : All Unnumbered calls
calls-Unnumbered = (λ e. refl, (λ e. refl, (λ e. refl, (tt, (tt, (tt, (tt, tt)))))))

-- Two saved drones of different numbers.
abbrev saved : List Drone
saved = record mavic { track_number = 4 } ∷ record other { track_number = 7 } ∷ []

saved-AreSaved : AreSaved 7 saved
saved-AreSaved = (omega arith, ((λ n e. absurd (omega (arith, e)), tt), (omega arith, (tt, tt))))

run-restored-IsState_example :
    IsState (run flat newest same_number first_key (restored no_config 30 true saved 7) calls)
run-restored-IsState_example =
    run-restored-IsState flat newest same_number first_key no_config 30 true saved 7 calls
      saved-AreSaved calls-Unnumbered

start-IsState : IsState start
start-IsState = new-IsState no_config 30 true

state-IsState : IsState state
state-IsState =
    run-IsNumbered flat newest same_number first_key calls start start-IsState calls-Unnumbered

update_drone-Stores_example :
    Stores 50 mavic_by_wifi state (update_drone flat 50 mavic_by_wifi state)
update_drone-Stores_example =
    update_drone-Stores flat 50 mavic_by_wifi state state-IsState (λ e. cc)

get-cleanup_example :
    get (codes "mavic") (cleanup 15 100 60 state).drones
    ≡ settle 15 state.evict_after_min 60 (get (codes "mavic") state.drones)
get-cleanup_example = get-cleanup 15 100 60 (codes "mavic") state state-IsState.store

unseen-evicted_example : at_cleanup flat 10 mavic 60_000_000_000 100 1_900_000_000_000 start ≡ none
unfolding new_state_manager
unseen-evicted_example =
    unseen-evicted flat 10 mavic 60_000_000_000 100 1_900_000_000_000 start start-IsState (λ e. cc)
      (λ e. omega arith) (omega arith) (omega arith)

seen-stays_example :
    (e : Drone) × (at_cleanup flat 10 mavic 60_000_000_000 100 50_000_000_000 start ≡ some e)
    × (e.status ≡ active)
    × (e.last_seen ≡ 10)
seen-stays_example =
    seen-stays flat 10 mavic 60_000_000_000 100 50_000_000_000 start start-IsState (λ e. cc)
      (omega arith)

abbrev tracked : Drone
tracked = record mavic { status = active; contact_status = active; last_gps_time = 1_000 }

abbrev beacon : ℕ → Bool → Report
beacon now merged = record {
  now = now;
  detection = record no_drone { rssi = negsuc 70 };
  merged = merged;
}

beacon-wifi : is_wifi_only (record no_drone { rssi = negsuc 70 }) ≡ true
unfolding is_wifi_only
beacon-wifi = refl

-- The second beacon is late, the third is not.
fix-receive_all_example :
    fix
      (receive_all (beacon 5_000 true ∷ beacon 60_000_001_001 false ∷ beacon 70 true ∷ []) tracked)
    ≡ (if any
          (is_late 1_000)
          (beacon 5_000 true ∷ beacon 60_000_001_001 false ∷ beacon 70 true ∷ [])
        then no_position (fix tracked)
        else fix tracked)
unfolding was_lost bytes_discrete
fix-receive_all_example =
    fix-receive_all (beacon 5_000 true ∷ beacon 60_000_001_001 false ∷ beacon 70 true ∷ []) tracked
      refl refl (λ e. omega arith) (beacon-wifi, (beacon-wifi, (beacon-wifi, tt)))

beacons-keep_position_example :
    fix (receive_all (beacon 5_000 true ∷ beacon 60_000_000_000 false ∷ []) tracked) ≡ fix tracked
unfolding was_lost bytes_discrete
beacons-keep_position_example =
    beacons-keep_position (beacon 5_000 true ∷ beacon 60_000_000_000 false ∷ []) tracked refl
      ((beacon-wifi, omega arith), ((beacon-wifi, omega arith), tt))

abbrev suspect : SuspectCandidate
suspect = record no_candidate {
  identifier = codes "SUSPECT-m5";
  mac_address = codes "m5";
  first_seen = 5;
  last_seen = 9;
  observations = 8;
}

abbrev watching : StateManager
watching = record start { suspect_candidates = (codes "m5", suspect) ∷ [] }

promote_suspect-stores_example :
    let id =
      resolved flat 20
        (codes "m5")
        (promoted same_number first_key (codes "m5") [] [] suspect)
        watching in
    let after = (promote_suspect same_number first_key flat 20 (codes "m5") [] [] watching).0 in
    (lookup (codes "m5") after.suspect_candidates ≡ none)
    × ((e : Drone) × (get id after.drones ≡ some e)
        × (e.status ≡ active)
        × (e.last_seen ≡ 20)
        × (e.detection_count ≡ count_of (get id watching.drones) + 1))
unfolding lookup bytes_discrete
promote_suspect-stores_example =
    promote_suspect-stores flat same_number first_key 20 (codes "m5") [] [] suspect watching
      start-IsState (λ e. cc) refl

-- Two drones with the numbers 1 and 2: the second detection is merged into the first drone, which is
-- lost at the clean-up and hidden.
state_runs :
    map {B = ℕ × ℕ × Bool}
      (λ d. (d.track_number, d.detection_count, d.hidden))
      (get_all state.drones)
    ≡ (2, 1, false) ∷ (1, 2, true) ∷ []
unfolding backfill_track_numbers number_shards number_drones new_state_manager new_trail_manager
    new_suspect_correlator run step get_all new_sharded_drones set get get_shard fnv update_indexes
    delete_drone remove_from_indexes lookup insert delete bytes_discrete update_drone merge_target
    lookup_by_serial lookup_by_mac merge_drone create_drone started broadcast offer record_trail
    record_position add_sample is_duplicate trim merge_into_existing merge_names update_telemetry
    update_operator operator_position rejects_operator update_motion update_position update_latitude
    is_wifi_only gps_stale was_lost set_drone_tag change_drone cleanup mark_drones broadcast_all
    for_each_mut mark_lost evict_drones all_expired_ids expired_ids evict remove_trail mark_taps
    mark_tap expire_suspects map_values keep_values hide_all_lost
state_runs = refl
