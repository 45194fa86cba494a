-- ===== src/Processor/State.antt =====
-- The state manager of internal/processor/state.go: UpdateDrone with its track numbers, trails and
-- broadcasts, the taps, and the changes that an operator makes. A call is one step: the source holds a
-- shard's lock over the part that reads and writes a drone. Subscribers are buffered channels. The
-- correlator's part of the state, the controller links, is in Links.
pub mod Changes
pub mod Cleanup
pub mod Candidates
pub mod Resolution
pub mod Outcomes
pub mod Numbers
pub mod Expiry
pub mod Settling
pub mod Calls
pub mod Backfill
pub mod Restored
pub mod Promotions
use skylens_azure.Common.{
  ℕ, ◌+◌, ◌==◌, Bytes, codes, same, Option, none, some, List, [], ◌∷◌, ◌++◌, map, Bool, true, false,
  not, ltb, ◌&&◌, if◌then◌else◌, any, length, keep, is_some,
}
use skylens_azure.Common.Int.{ℤ, is_zero, ltb_ℤ, pos}
use skylens_azure.Common.Maps.{Map, lookup, insert}
use skylens_azure.Processor.Model.{Drone, Tap, SuspectCandidate, EstimatedPosition}
use skylens_azure.Processor.Trails.{
  TrailManager, PositionSample, record_position, new_trail_manager, default_trail_config,
}
use skylens_azure.Processor.Suspects.{
  SuspectCorrelator, DetectionConfig, new_suspect_correlator, or_default,
}
use skylens_azure.Processor.Drones.{
  ShardedDrones, new_sharded_drones, get, set, put_drone, update_indexes, delete_drone, get_all,
  get_unless_empty, lookup_by_serial, lookup_by_mac, drones_of,
}
use skylens_azure.Processor.Merge.{
  active, nonzero_or, text_or, number_or, update_existing, merge_into_existing,
}

pub data StateEvent : Type 0 where
  drone_new drone_update drone_lost suspect_promoted : Drone → StateEvent
  tap_status : Tap → StateEvent
  system_refresh : StateEvent

pub record Subscriber : Type 0 where
  pub channel : ℕ
  pub capacity : ℕ
  pub queue : List StateEvent

pub record StateManager : Type 0 where
  pub drones : ShardedDrones
  pub taps : Map Tap
  pub cfg : DetectionConfig
  pub evict_after_min : ℕ
  pub suspect_candidates : Map SuspectCandidate
  pub correlator : SuspectCorrelator
  pub trails : TrailManager
  pub next_track_num : ℕ
  pub subscribers : List Subscriber

unfoldable pub new_state_manager : DetectionConfig → ℕ → Bool → StateManager
unfolding new_sharded_drones new_trail_manager new_suspect_correlator
new_state_manager cfg evict_after_min single_tap_mode = record {
  drones = new_sharded_drones;
  taps = [];
  cfg = record {
    min_observations = or_default cfg.min_observations 5;
    min_time_span_sec = or_default cfg.min_time_span_sec 30;
    min_mobility = or_default cfg.min_mobility 6_000;
  };
  evict_after_min = evict_after_min;
  suspect_candidates = [];
  correlator = new_suspect_correlator 30 2 12_000 single_tap_mode;
  trails = new_trail_manager default_trail_config;
  next_track_num = 0;
  subscribers = [];
}

-- A send that does not wait: an event for a full channel is dropped.
unfoldable pub offer : StateEvent → Subscriber → Subscriber
offer event sub =
    if ltb (length sub.queue) sub.capacity
    then record sub { queue = sub.queue ++ event ∷ [] }
    else sub

unfoldable pub broadcast : StateEvent → StateManager → StateManager
unfolding offer
broadcast event s = record s { subscribers = map (offer event) s.subscribers }

unfoldable pub subscribe : Subscriber → StateManager → StateManager
subscribe sub s = record s { subscribers = s.subscribers ++ sub ∷ [] }

abbrev pub remove_first : ℕ → List Subscriber → List Subscriber
remove_first channel [] = []
remove_first channel (sub ∷ subs) =
    if sub.channel == channel then subs else sub ∷ remove_first channel subs

unfoldable pub unsubscribe : ℕ → StateManager → StateManager
unsubscribe channel s = record s { subscribers = remove_first channel s.subscribers }

unfoldable pub broadcast_refresh : StateManager → StateManager
broadcast_refresh s = broadcast system_refresh s

unfoldable pub broadcast_drone_update : Bytes → StateManager → StateManager
broadcast_drone_update id s = elim (get id s.drones) [
  | none ↦ s
  | some d ↦ broadcast (drone_update d) s
]

unfoldable pub set_next_track_num : ℕ → StateManager → StateManager
set_next_track_num n s = record s { next_track_num = n }

-- `HydrateDrone` leaves the indexes as they are, `HydrateDrones` writes them.
unfoldable pub hydrate_drone : Drone → StateManager → StateManager
hydrate_drone d s =
    if is_some (get d.identifier s.drones)
    then s
    else record s { drones = put_drone d.identifier d s.drones }

unfoldable pub hydrate_drones : List Drone → StateManager → StateManager × ℕ
hydrate_drones [] s = (s, 0)
hydrate_drones (d ∷ ds) s =
    if is_some (get d.identifier s.drones)
    then hydrate_drones ds s
    else let (final, added) =
        hydrate_drones ds (record s { drones = set d.identifier d s.drones }) in
      (final, added + 1)

-- The identifier that the index has for a name, unless it is the one to skip.
abbrev pub unless_excluded : Bytes → Bytes → Bytes
unless_excluded exclude id = if not (same id []) && not (same id exclude) then id else []

abbrev pub find_drone_by_serial : Bytes → Bytes → ShardedDrones → Bytes
find_drone_by_serial serial exclude sd = unless_excluded exclude (lookup_by_serial serial sd)

abbrev pub find_drone_by_mac : Bytes → Bytes → ShardedDrones → Bytes
find_drone_by_mac mac exclude sd = unless_excluded exclude (lookup_by_mac mac sd)

-- A stored drone with its identifier in the store.
abbrev pub at_id : Bytes → ShardedDrones → Option (Bytes × Drone)
at_id id sd = elim (get_unless_empty id sd) [ none ↦ none | some e ↦ some (id, e) ]

abbrev pub or_else {ℓ} : {A : Type ℓ} → Option A → Option A → Option A
or_else none b = b
or_else (some a) b = some a

-- The other drone that a detection belongs to: by its serial number, then by its MAC.
abbrev pub serial_target : Drone → ShardedDrones → Option (Bytes × Drone)
serial_target d sd =
    if same d.serial_number []
    then none
    else at_id (find_drone_by_serial d.serial_number d.identifier sd) sd

abbrev pub mac_target : Drone → ShardedDrones → Option (Bytes × Drone)
mac_target d sd =
    if same d.mac_address []
    then none
    else at_id (find_drone_by_mac d.mac_address d.identifier sd) sd

unfoldable pub merge_target : Drone → ShardedDrones → Option (Bytes × Drone)
unfolding lookup_by_serial lookup_by_mac get
merge_target d sd = or_else (serial_target d sd) (mac_target d sd)

abbrev pub sample_of : ℕ → Drone → PositionSample
sample_of now d = record {
  time = now;
  lat = d.latitude;
  lon = d.longitude;
  alt = d.altitude_geodetic;
  alt_agl = d.height_agl;
  speed = d.speed;
  heading = d.ground_track;
  v_speed = d.vertical_speed;
  rssi = d.rssi;
  tap_id = d.tap_id;
}

-- The fields of a drone that is stored for the first time; `number` is the next track number.
unfoldable pub started : ℕ → ℕ → Drone → Drone
started now number d = record d {
  first_seen = now;
  last_seen = now;
  timestamp = now;
  status = active;
  contact_status = active;
  detection_count = 1;
  track_number = if d.is_controller then d.track_number else number;
  trust_score = number_or d.trust_score 100;
  classification = text_or d.classification (codes "UNKNOWN");
  ground_track = nonzero_or d.ground_track d.heading;
}

abbrev pub next_number : Drone → StateManager → ℕ
next_number d s = if d.is_controller then s.next_track_num else s.next_track_num + 1

-- What UpdateDrone answers: the state, whether the drone is new, and its identifier in the store.
pub record Updated : Type 0 where
  pub state : StateManager
  pub is_new : Bool
  pub resolved_id : Bytes

unfoldable pub merge_drone : ℕ → Drone → Bytes × Drone → StateManager → Updated
unfolding broadcast
merge_drone now d (id, existing) s =
    let merged = merge_into_existing now d existing in
    record {
      state = broadcast (drone_update merged) (record s { drones = put_drone id merged s.drones });
      is_new = false;
      resolved_id = id;
    }

module _ (haversine : ℤ → ℤ → ℤ → ℤ → ℕ) where
  -- The trail gets the position of a drone that has one.
  unfoldable pub record_trail : ℕ → Bytes → Drone → TrailManager → TrailManager
  record_trail now id d tm =
      if not (is_zero d.latitude) && not (is_zero d.longitude)
      then (record_position haversine tm id (sample_of now d) now).0
      else tm

  unfoldable pub create_drone : ℕ → Drone → StateManager → Updated
  unfolding broadcast started
  create_drone now d s =
      let new = started now (s.next_track_num + 1) d in
      record {
        state = broadcast (drone_new new) (record s {
          next_track_num = next_number d s;
          drones = set d.identifier new s.drones;
          trails = record_trail now d.identifier new s.trails;
        });
        is_new = true;
        resolved_id = d.identifier;
      }

  unfoldable pub refresh_drone : ℕ → Drone → Drone → StateManager → Updated
  unfolding broadcast
  refresh_drone now d existing s =
      let updated = update_existing now d existing in
      record {
        state = broadcast (drone_update updated) (record s {
          drones =
              update_indexes updated.identifier updated (put_drone d.identifier updated s.drones);
          trails = record_trail now updated.identifier updated s.trails;
        });
        is_new = false;
        resolved_id = updated.identifier;
      }

  unfoldable pub update_drone : ℕ → Drone → StateManager → Updated
  unfolding merge_target merge_drone create_drone refresh_drone
  update_drone now d s =
      if same d.identifier []
      then record { state = s; is_new = false; resolved_id = [] }
      else elim (merge_target d s.drones) [
        | some found ↦ merge_drone now d found s
        | none ↦ elim (get d.identifier s.drones) [
          | none ↦ create_drone now d s
          | some existing ↦ refresh_drone now d existing s
        ]
      ]
