-- ===== src/Processor/Model.antt =====
-- The drones, taps and suspects of internal/processor/state.go, with the fields that internal/processor
-- reads or writes.
-- Times are nanoseconds, and 0 is the zero time; coordinates are integers in units of 1e-7 degrees;
-- altitudes, speeds and angles integers in a unit of the caller's. A confidence is in units of
-- 1/40000, a mobility score and a variance in units of 1/10000, an average RSSI in a unit of the caller's.
use skylens_azure.Common.{ℕ, Bytes, Option, none, List, [], Bool, false}
use skylens_azure.Common.Int.{ℤ, pos}
use skylens_azure.Common.Maps.{Map}

pub record RangeRing : Type 0 where
  pub tap_id : Bytes
  pub distance : ℕ
  pub confidence : ℕ
  pub updated_at : ℕ

pub record EstimatedPosition : Type 0 where
  pub latitude : ℤ
  pub longitude : ℤ

pub record Drone : Type 0 where
  pub identifier : Bytes
  pub mac_address : Bytes
  pub serial_number : Bytes
  pub registration : Bytes
  pub designation : Bytes
  pub manufacturer : Bytes
  pub model : Bytes
  pub ssid : Bytes
  pub latitude : ℤ
  pub longitude : ℤ
  pub altitude_geodetic : ℤ
  pub height_agl : ℤ
  pub speed : ℤ
  pub vertical_speed : ℤ
  pub heading : ℤ
  pub ground_track : ℤ
  pub operator_latitude : ℤ
  pub operator_longitude : ℤ
  pub rssi : ℤ
  pub channel : ℤ
  pub detection_source : Bytes
  pub confidence : ℕ
  pub is_controller : Bool
  pub trust_score : ℕ
  pub spoof_flags : List Bytes
  pub classification : Bytes
  pub tag : Bytes
  pub status : Bytes
  pub contact_status : Bytes
  pub first_seen : ℕ
  pub last_seen : ℕ
  pub timestamp : ℕ
  pub detection_count : ℕ
  pub track_number : ℕ
  pub hidden : Bool
  pub tap_id : Bytes
  pub last_gps_time : ℕ
  pub distance_est : ℕ
  pub range_rings : List RangeRing
  pub estimated_pos : Option EstimatedPosition
  pub linked_controller_id : Bytes
  pub linked_uav_id : Bytes

-- The zero value of the struct.
abbrev pub no_drone : Drone
no_drone = record {
  identifier = [];
  mac_address = [];
  serial_number = [];
  registration = [];
  designation = [];
  manufacturer = [];
  model = [];
  ssid = [];
  latitude = pos 0;
  longitude = pos 0;
  altitude_geodetic = pos 0;
  height_agl = pos 0;
  speed = pos 0;
  vertical_speed = pos 0;
  heading = pos 0;
  ground_track = pos 0;
  operator_latitude = pos 0;
  operator_longitude = pos 0;
  rssi = pos 0;
  channel = pos 0;
  detection_source = [];
  confidence = 0;
  is_controller = false;
  trust_score = 0;
  spoof_flags = [];
  classification = [];
  tag = [];
  status = [];
  contact_status = [];
  first_seen = 0;
  last_seen = 0;
  timestamp = 0;
  detection_count = 0;
  track_number = 0;
  hidden = false;
  tap_id = [];
  last_gps_time = 0;
  distance_est = 0;
  range_rings = [];
  estimated_pos = none;
  linked_controller_id = [];
  linked_uav_id = [];
}

pub record Tap : Type 0 where
  pub id : Bytes
  pub name : Bytes
  pub latitude : ℤ
  pub longitude : ℤ
  pub status : Bytes
  pub last_seen : ℕ
  pub current_channel : ℤ
  pub seen_channels : List ℤ

pub record SuspectCandidate : Type 0 where
  pub identifier : Bytes
  pub mac_address : Bytes
  pub first_seen : ℕ
  pub last_seen : ℕ
  pub taps_seen : Map ℕ
  pub observations : ℕ
  pub best_confidence : ℕ
  pub channel : ℤ
  pub avg_rssi : ℤ
  pub behavioral_flags : List Bytes
  pub mobility_score : ℕ
  pub remote_id_upgrade : Bool
  pub rssi_variance : ℕ
  pub rssi_min : ℤ
  pub rssi_max : ℤ
  pub channel_changes : ℕ
  pub is_likely_mobile : Bool
  pub manually_confirmed : Bool

abbrev pub no_candidate : SuspectCandidate
no_candidate = record {
  identifier = [];
  mac_address = [];
  first_seen = 0;
  last_seen = 0;
  taps_seen = [];
  observations = 0;
  best_confidence = 0;
  channel = pos 0;
  avg_rssi = pos 0;
  behavioral_flags = [];
  mobility_score = 0;
  remote_id_upgrade = false;
  rssi_variance = 0;
  rssi_min = pos 0;
  rssi_max = pos 0;
  channel_changes = 0;
  is_likely_mobile = false;
  manually_confirmed = false;
}
