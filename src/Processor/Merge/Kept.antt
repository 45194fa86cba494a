-- ===== src/Processor/Merge/Kept.antt =====
-- What the two updates of a stored drone in internal/processor/state.go do to the fields that no
-- detection carries: identity, track number, times, status and count.
use skylens_azure.Common.{ℕ, ◌≡◌, refl, Bytes, Bool}
use skylens_azure.Processor.Model.{Drone}
use skylens_azure.Processor.Merge.{
  touch, update_position, update_motion, update_operator, update_names, merge_names,
  update_telemetry, update_existing, merge_into_existing,
}

pub record Core : Type 0 where
  pub identifier : Bytes
  pub is_controller : Bool
  pub track_number : ℕ
  pub first_seen : ℕ
  pub last_seen : ℕ
  pub timestamp : ℕ
  pub status : Bytes
  pub contact_status : Bytes
  pub detection_count : ℕ
  pub hidden : Bool
  pub tag : Bytes

abbrev pub core : Drone → Core
core d = record {
  identifier = d.identifier;
  is_controller = d.is_controller;
  track_number = d.track_number;
  first_seen = d.first_seen;
  last_seen = d.last_seen;
  timestamp = d.timestamp;
  status = d.status;
  contact_status = d.contact_status;
  detection_count = d.detection_count;
  hidden = d.hidden;
  tag = d.tag;
}

core-update_telemetry :
    (now : ℕ) (d e : Drone) → core (update_telemetry now d e) ≡ core (touch now e)
unfolding update_telemetry update_position update_motion update_operator
core-update_telemetry now d e = refl

pub core-update_existing :
    (now : ℕ) (d e : Drone) → core (update_existing now d e) ≡ core (touch now e)
unfolding update_existing update_names
core-update_existing now d e = core-update_telemetry now d e

pub core-merge_into_existing :
    (now : ℕ) (d e : Drone) → core (merge_into_existing now d e) ≡ core (touch now e)
unfolding merge_into_existing merge_names
core-merge_into_existing now d e = core-update_telemetry now d e
