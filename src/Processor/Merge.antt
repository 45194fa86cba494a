-- ===== src/Processor/Merge.antt =====
-- What a detection changes in a stored drone: the field rules of UpdateDrone and mergeIntoExisting in
-- internal/processor/state.go. The clock is read once in a call, as `now`.
pub mod Kept
pub mod Beacons
use skylens_azure.Common.{
  ℕ, ◌+◌, ◌*◌, Bytes, codes, same, List, [], ◌∷◌, Bool, not, ltb, ◌==◌, ◌&&◌, ◌||◌, if◌then◌else◌,
  any,
}
use skylens_azure.Common.Int.{ℤ, pos, pos_part, neg_part, sub_ℕ, abs, is_zero}
use skylens_azure.Processor.Model.{Drone}

abbrev pub active : Bytes
active = codes "active"

abbrev pub lost : Bytes
lost = codes "lost"

-- The new value of a number unless it is 0, and of a text unless it is empty.
abbrev pub nonzero_or : ℤ → ℤ → ℤ
nonzero_or new old = if is_zero new then old else new

abbrev pub text_or : Bytes → Bytes → Bytes
text_or [] old = old
text_or (c ∷ cs) old = c ∷ cs

abbrev pub number_or : ℕ → ℕ → ℕ
number_or new old = if new == 0 then old else new

abbrev pub list_or : List Bytes → List Bytes → List Bytes
list_or [] old = old
list_or (f ∷ fs) old = f ∷ fs

unfoldable pub is_wifi_only : Drone → Bool
is_wifi_only d = is_zero d.latitude && is_zero d.longitude && not (is_zero d.rssi)

-- Where a drone is, and when GPS last told it.
pub record Fix : Type 0 where
  pub latitude : ℤ
  pub longitude : ℤ
  pub last_gps_time : ℕ

abbrev pub fix : Drone → Fix
fix e = record { latitude = e.latitude; longitude = e.longitude; last_gps_time = e.last_gps_time }

-- A GPS time is known, and it is more than 60 s ago.
unfoldable pub gps_stale : ℕ → ℕ → Bool
gps_stale now last_gps_time = not (last_gps_time == 0) && ltb (last_gps_time + 60_000_000_000) now

unfoldable pub was_lost : Drone → Bool
was_lost e = same e.status lost || same e.contact_status lost

-- What every detection sets.
abbrev pub touch : ℕ → Drone → Drone
touch now e = record e {
  last_seen = now;
  timestamp = now;
  status = active;
  contact_status = active;
  detection_count = e.detection_count + 1;
}

-- `returned` tells that the drone was lost before this detection.
unfoldable pub update_latitude : ℕ → Bool → Drone → Fix → Fix
unfolding is_wifi_only gps_stale
update_latitude now returned d f =
    if not (is_zero d.latitude)
    then record f { latitude = d.latitude; last_gps_time = now }
    else if is_wifi_only d && not (is_zero f.latitude)
    then if returned
      then record f { last_gps_time = now }
      else if gps_stale now f.last_gps_time
      then record f { latitude = pos 0; longitude = pos 0 }
      else f
    else f

unfoldable pub update_position : ℕ → Bool → Drone → Drone → Drone
unfolding update_latitude
update_position now returned d e =
    let moved = update_latitude now returned d (fix e) in
    record e {
      latitude = moved.latitude;
      longitude = nonzero_or d.longitude moved.longitude;
      last_gps_time = moved.last_gps_time;
    }

-- The new value, or 0 for a drone that only beacons and whose GPS is stale.
abbrev pub number_or_dark : ℕ → Drone → Drone → ℤ → ℤ → ℤ
number_or_dark now d e new old =
    if not (is_zero new)
    then new
    else if is_wifi_only d && gps_stale now e.last_gps_time
    then pos 0
    else old

-- The fields that both callers set from numbers.
unfoldable pub update_motion : ℕ → Drone → Drone → Drone
unfolding is_wifi_only gps_stale
update_motion now d e = record e {
  altitude_geodetic = nonzero_or d.altitude_geodetic e.altitude_geodetic;
  speed = number_or_dark now d e d.speed e.speed;
  vertical_speed = number_or_dark now d e d.vertical_speed e.vertical_speed;
  heading = nonzero_or d.heading e.heading;
  ground_track = nonzero_or d.ground_track (nonzero_or d.heading e.ground_track);
  rssi = nonzero_or d.rssi e.rssi;
  channel = nonzero_or d.channel e.channel;
}

abbrev pub difference : ℤ → ℤ → ℕ
difference a b = abs (sub_ℕ (pos_part a + neg_part b) (pos_part b + neg_part a))

-- The square of the source's distance in metres, times 10 ^ 20: 111320 m in a degree, and 0.946 of
-- that in a degree of longitude, with degrees in units of 1e-7.
abbrev pub operator_distance : Drone → Drone → ℕ
operator_distance d e =
    let north = difference d.operator_latitude e.latitude * 111_320_000 in
    let east = difference d.operator_longitude e.longitude * 105_308_720 in
    north * north + east * east

-- Less than 10 m or more than 50 km from the drone.
unfoldable pub rejects_operator : Drone → Drone → Bool
rejects_operator d e =
    not (is_zero e.latitude)
    && not (is_zero e.longitude)
    && (ltb (operator_distance d e) 10_000_000_000_000_000_000_000
        || ltb 250_000_000_000_000_000_000_000_000_000 (operator_distance d e))

-- The operator's latitude and longitude.
unfoldable pub operator_position : ℕ → Drone → Drone → ℤ × ℤ
unfolding is_wifi_only gps_stale rejects_operator
operator_position now d e =
    if not (is_zero d.operator_latitude) && not (is_zero d.operator_longitude)
    then if rejects_operator d e
      then (e.operator_latitude, e.operator_longitude)
      else (d.operator_latitude, d.operator_longitude)
    else if is_wifi_only d && gps_stale now e.last_gps_time
    then (pos 0, pos 0)
    else (e.operator_latitude, e.operator_longitude)

unfoldable pub update_operator : ℕ → Drone → Drone → Drone
unfolding operator_position
update_operator now d e =
    let (latitude, longitude) = operator_position now d e in
    record e { operator_latitude = latitude; operator_longitude = longitude }

abbrev pub generic_designations : List Bytes
generic_designations =
    []
    ∷ codes "UNKNOWN"
    ∷ codes "Unknown"
    ∷ codes "WiFi RemoteID broadcast"
    ∷ codes "DJI WiFi RemoteID broadcast"
    ∷ codes "RemoteID"
    ∷ []

unfoldable pub is_generic : Bytes → Bool
is_generic designation = any (λ g. same g designation) generic_designations

-- A specific name replaces any, a generic one replaces a generic one.
unfoldable pub best_designation : Bytes → Bytes → Bytes
unfolding is_generic
best_designation new old =
    if not (is_generic new) then new else if is_generic old then text_or new old else old

-- The last part of UpdateDrone, and the one of mergeIntoExisting.
unfoldable pub update_names : Drone → Drone → Drone
unfolding best_designation
update_names d e = record e {
  serial_number = text_or d.serial_number e.serial_number;
  designation = best_designation d.designation e.designation;
  model = text_or d.model e.model;
  tap_id = text_or d.tap_id e.tap_id;
  trust_score = number_or d.trust_score e.trust_score;
  spoof_flags = list_or d.spoof_flags e.spoof_flags;
  detection_source = text_or d.detection_source e.detection_source;
}

unfoldable pub merge_names : Drone → Drone → Drone
merge_names d e = record e {
  mac_address = text_or e.mac_address d.mac_address;
  height_agl = nonzero_or d.height_agl e.height_agl;
  tap_id = text_or d.tap_id e.tap_id;
  designation = text_or e.designation d.designation;
  model = text_or e.model d.model;
  registration = text_or d.registration e.registration;
  detection_source = text_or d.detection_source e.detection_source;
  trust_score = number_or d.trust_score e.trust_score;
  spoof_flags = list_or d.spoof_flags e.spoof_flags;
  classification = text_or d.classification e.classification;
}

-- The part that the two have in common.
unfoldable pub update_telemetry : ℕ → Drone → Drone → Drone
unfolding was_lost update_position update_motion update_operator
update_telemetry now d e =
    update_operator now d (update_motion now d (update_position now (was_lost e) d (touch now e)))

-- The update of a drone that is stored under the identifier of the detection.
unfoldable pub update_existing : ℕ → Drone → Drone → Drone
unfolding update_telemetry update_names
update_existing now d e = update_names d (update_telemetry now d e)

unfoldable pub merge_into_existing : ℕ → Drone → Drone → Drone
unfolding update_telemetry merge_names
merge_into_existing now d e = merge_names d (update_telemetry now d e)
