-- ===== src/Processor/Trails.antt =====
-- The GPS trails of internal/processor/trails.go. Times and durations are nanoseconds, the zero time
-- is 0, coordinates are integers in units of 1e-7 degrees, altitudes and speeds integers in a unit
-- of the caller's, distances millimetres. The great-circle distance, a float computation, is an
-- argument. `a.Sub(b) < d` is `a < b + d`.
pub mod Spacing
pub mod Manager
use skylens_azure.Common.{
  ℕ, ◌+◌, ◌-◌, ◌/◌, Bytes, Option, none, some, List, [], ◌∷◌, ◌++◌, Bool, true, false, ltb, leb,
  ◌==◌, ◌&&◌, if◌then◌else◌, length, drop, keep, last?,
}
use skylens_azure.Common.Int.{ℤ, is_zero}
use skylens_azure.Common.Maps.{Map, lookup, insert, delete}

pub record PositionSample : Type 0 where
  pub time : ℕ
  pub lat : ℤ
  pub lon : ℤ
  pub alt : ℤ
  pub alt_agl : ℤ
  pub speed : ℤ
  pub heading : ℤ
  pub v_speed : ℤ
  pub rssi : ℤ
  pub tap_id : Bytes

pub record DroneTrail : Type 0 where
  pub samples : List PositionSample
  pub max_size : ℕ
  pub min_interval : ℕ
  pub min_distance : ℕ
  pub last_sample : Option PositionSample

pub record TrailConfig : Type 0 where
  pub max_size : ℕ
  pub min_interval : ℕ
  pub min_distance : ℕ

abbrev pub default_trail_config : TrailConfig
default_trail_config = record { max_size = 200; min_interval = 500_000_000; min_distance = 1000 }

pub record TrailManager : Type 0 where
  pub trails : Map DroneTrail
  pub config : TrailConfig
  pub max_age : ℕ

unfoldable pub new_trail_manager : TrailConfig → TrailManager
new_trail_manager config = record { trails = []; config = config; max_age = 600_000_000_000 }

abbrev pub new_trail : TrailConfig → DroneTrail
new_trail config = record {
  samples = [];
  max_size = config.max_size;
  min_interval = config.min_interval;
  min_distance = config.min_distance;
  last_sample = none;
}

-- Set the timestamp if none is given.
abbrev pub stamped : PositionSample → ℕ → PositionSample
stamped sample now = if sample.time == 0 then record sample { time = now } else sample

-- Cut the oldest tenth off once the trail is over its capacity.
unfoldable pub trim : ℕ → List PositionSample → List PositionSample
trim max_size samples =
    if ltb max_size (length samples) then drop (max_size / 10) samples else samples

module _ (haversine : ℤ → ℤ → ℤ → ℤ → ℕ) where
  -- The two early returns of `addSample`.
  unfoldable pub is_duplicate : DroneTrail → Option PositionSample → PositionSample → Bool
  is_duplicate t none sample = false
  is_duplicate t (some last) sample =
      if ltb sample.time (last.time + t.min_interval)
      then true
      else ltb (haversine last.lat last.lon sample.lat sample.lon) t.min_distance
        && ltb sample.time (last.time + 5_000_000_000)

  unfoldable pub add_sample : DroneTrail → PositionSample → ℕ → DroneTrail × Bool
  unfolding is_duplicate trim
  add_sample t sample now =
      let s = stamped sample now in
      if is_duplicate t t.last_sample s then (t, false) else (
        record t { samples = trim t.max_size (t.samples ++ s ∷ []); last_sample = some s },
        true,
      )

  abbrev pub trail_or_new : TrailConfig → Option DroneTrail → DroneTrail
  trail_or_new config none = new_trail config
  trail_or_new config (some t) = t

  unfoldable pub record_position : TrailManager → Bytes → PositionSample → ℕ → TrailManager × Bool
  unfolding add_sample
  record_position tm identifier sample now =
      if is_zero sample.lat && is_zero sample.lon
      then (tm, false)
      else let (trail, added) =
          add_sample (trail_or_new tm.config (lookup identifier tm.trails)) sample now in
        (record tm { trails = insert identifier trail tm.trails }, added)

unfoldable pub get_trail : TrailManager → Bytes → Option (List PositionSample)
get_trail tm identifier = elim (lookup identifier tm.trails) [
  | none ↦ none
  | some trail ↦ some trail.samples
]

unfoldable pub get_trail_since : TrailManager → Bytes → ℕ → Option (List PositionSample)
get_trail_since tm identifier since = elim (lookup identifier tm.trails) [
  | none ↦ none
  | some trail ↦ some (keep (λ s. ltb since s.time) trail.samples)
]

unfoldable pub remove_trail : TrailManager → Bytes → TrailManager
remove_trail tm identifier = record tm { trails = delete identifier tm.trails }

unfoldable pub clear_all : TrailManager → TrailManager
clear_all tm = record tm { trails = [] }

unfoldable pub count : TrailManager → ℕ
count tm = length tm.trails

-- `len(trail.samples) == 0 || last.Time.Before(now.Add(-maxAge))`.
abbrev pub is_stale_at : ℕ → ℕ → Option PositionSample → Bool
is_stale_at max_age now none = true
is_stale_at max_age now (some s) = ltb (s.time + max_age) now

abbrev pub is_stale : ℕ → ℕ → DroneTrail → Bool
is_stale max_age now trail = is_stale_at max_age now (last? trail.samples)

-- The identifiers that `cleanup` collects, and the loop that deletes them.
unfoldable pub stale_ids : ℕ → ℕ → Map DroneTrail → List Bytes
stale_ids max_age now [] = []
stale_ids max_age now ((id, trail) ∷ m) =
    let rest = stale_ids max_age now m in if is_stale max_age now trail then id ∷ rest else rest

unfoldable pub delete_all : List Bytes → Map DroneTrail → Map DroneTrail
delete_all [] m = m
delete_all (id ∷ ids) m = delete_all ids (delete id m)

unfoldable pub cleanup : TrailManager → ℕ → TrailManager
unfolding stale_ids delete_all
cleanup tm now = record tm { trails = delete_all (stale_ids tm.max_age now tm.trails) tm.trails }
