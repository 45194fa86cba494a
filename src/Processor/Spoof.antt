-- ===== src/Processor/Spoof.antt =====
-- The spoofing detector of internal/processor/spoof.go. Times are nanoseconds, coordinates units of 1e-7
-- degrees, altitudes and distances millimetres, speeds millimetres per second, and a confidence is in
-- units of 1/40000. The great-circle distance and the distance that a signal strength suggests, float
-- computations, are arguments. Coordinates that are no numbers do not occur.
mod Tables
pub mod Vendors
pub mod Analysis
pub mod Trust
pub mod Flags
use skylens_azure.Common.{
  ℕ, zero, suc, ◌+◌, ◌-◌, ◌*◌, ◌%◌, ◌==◌, Bytes, codes, same, Option, none, some, List, [], ◌∷◌,
  ◌++◌, map, Bool, true, false, not, ltb, leb, ◌&&◌, ◌||◌, if◌then◌else◌, any, length, get_or,
  is_some,
}
use skylens_azure.Common.Int.{ℤ, pos, negsuc, ltb_ℤ, is_zero}
use skylens_azure.Common.Maps.{Map, lookup, insert, delete, keep_values}
use skylens_azure.Intel.Oui.{is_locally_administered_mac}
use skylens_azure.Processor.Model.{Drone}
use skylens_azure.Processor.Merge.{difference, text_or}
use skylens_azure.Processor.Drones.{get_shard}
use skylens_azure.Processor.Spoof.Tables.{penalties}
use skylens_azure.Processor.Spoof.Vendors.{check_oui_ssid_consistency, calculate_correlation_bonus}

pub record DroneTrack : Type 0 where
  pub last_lat : ℤ
  pub last_lng : ℤ
  pub last_alt : ℤ
  pub last_speed : ℤ
  pub last_time : ℕ
  pub flags : Map ℕ
  pub consecutive_clean : ℕ
  pub last_rssi : ℤ
  pub first_seen : ℕ

pub record IdentifierMacInfo : Type 0 where
  pub last_lat : ℤ
  pub last_lng : ℤ
  pub last_seen : ℕ

pub record SpoofShard : Type 0 where
  pub tracks : Map DroneTrack
  pub identifier_macs : Map (Map IdentifierMacInfo)

pub record SpoofDetector : Type 0 where
  pub shards : List SpoofShard

abbrev pub empty_shard : SpoofShard
empty_shard = record { tracks = []; identifier_macs = [] }

abbrev pub empty_spoof_shards : ℕ → List SpoofShard
empty_spoof_shards zero = []
empty_spoof_shards (suc n) = empty_shard ∷ empty_spoof_shards n

unfoldable pub new_spoof_detector : SpoofDetector
new_spoof_detector = record { shards = empty_spoof_shards 16 }

abbrev pub new_track : ℕ → DroneTrack
new_track now = record {
  last_lat = pos 0;
  last_lng = pos 0;
  last_alt = pos 0;
  last_speed = pos 0;
  last_time = 0;
  flags = [];
  consecutive_clean = 0;
  last_rssi = pos 0;
  first_seen = now;
}

-- The flags that are at most 300 s old.
unfoldable pub clean_flags : ℕ → Map ℕ → Map ℕ
clean_flags now flags = keep_values (λ at. not (ltb (at + 300_000_000_000) now)) flags

-- A list of checks: what each raises, and whether it does.
abbrev pub Checks : Type 0
Checks = List (Bytes × Bool)

-- `addFlag` for the checks that fail, in their order: the flags, and how many of them are new.
unfoldable pub add_flags : ℕ → Checks → Map ℕ → Map ℕ × ℕ
add_flags now [] flags = (flags, 0)
add_flags now ((name, raised) ∷ checks) flags =
    let (final, added) = add_flags now checks (if raised then insert name now flags else flags) in
    (final, if raised && not (is_some (lookup name flags)) then added + 1 else added)

abbrev pub out_of_range : Drone → Bool
out_of_range d =
    (not (is_zero d.latitude) || not (is_zero d.longitude))
    && (ltb_ℤ d.latitude (negsuc 899_999_999)
        || ltb_ℤ (pos 900_000_000) d.latitude
        || ltb_ℤ d.longitude (negsuc 1_799_999_999)
        || ltb_ℤ (pos 1_800_000_000) d.longitude)

-- More than 5 s ahead of the clock or 30 s behind it.
abbrev pub bad_timestamp : ℕ → Drone → Bool
bad_timestamp now d =
    not (d.timestamp == 0)
    && (ltb (now + 5_000_000_000) d.timestamp || ltb (d.timestamp + 30_000_000_000) now)

abbrev pub has_position : Drone → Bool
has_position d = not (is_zero d.latitude) && not (is_zero d.longitude)

-- The checks on a MAC and an SSID.
abbrev pub identity_checks : Drone → Checks
identity_checks d =
    let mismatch = check_oui_ssid_consistency d.mac_address d.ssid in
    (codes "no_serial", same d.serial_number [])
    ∷ (
      codes "randomized_mac",
      not (same d.mac_address []) && is_locally_administered_mac d.mac_address,
    )
    ∷ (mismatch, not (same d.mac_address []) && not (same d.ssid []) && not (same mismatch []))
    ∷ []

abbrev pub is_located : Drone → Bool
is_located d =
    not (same d.identifier [])
    && not (same d.mac_address [])
    && (not (is_zero d.latitude) || not (is_zero d.longitude))

abbrev pub macs_or_empty : Option (Map IdentifierMacInfo) → Map IdentifierMacInfo
macs_or_empty none = []
macs_or_empty (some m) = m

abbrev pub macs_of : Drone → SpoofShard → Map IdentifierMacInfo
macs_of d shard = macs_or_empty (lookup d.identifier shard.identifier_macs)

module _ (haversine : ℤ → ℤ → ℤ → ℤ → ℕ) (estimate : ℤ → Bytes → ℕ) where
  -- The signal is too strong for the distance to the operator.
  abbrev pub far_operator : Drone → Bool
  far_operator d =
      ltb_ℤ (negsuc 39) d.rssi
      && not (is_zero d.rssi)
      && not (is_zero d.operator_latitude)
      && not (is_zero d.operator_longitude)
      && has_position d
      && ltb 500_000 (haversine d.latitude d.longitude d.operator_latitude d.operator_longitude)

  -- The signal suggests less than 100 m, the altitude more.
  abbrev pub too_high : Drone → Bool
  too_high d =
      let distance = estimate d.rssi (text_or d.model d.designation) in
      ltb_ℤ (negsuc 49) d.rssi
      && has_position d
      && ltb 0 distance
      && ltb distance 100_000
      && (ltb_ℤ (pos 2_000_000) d.height_agl || ltb_ℤ (pos 5_000_000) d.altitude_geodetic)

  abbrev pub signal_checks : Drone → Checks
  signal_checks d =
      (codes "rssi_distance_mismatch", far_operator d)
      ∷ (codes "rssi_impossible", not (is_zero d.rssi) && ltb_ℤ (negsuc 19) d.rssi)
      ∷ (codes "rssi_impossible", not (is_zero d.rssi) && ltb_ℤ d.rssi (negsuc 99))
      ∷ (codes "rssi_impossible", not (is_zero d.rssi) && too_high d)
      ∷ []

  -- A previous position, and at least 100 ms since.
  abbrev pub has_moved : ℕ → DroneTrack → Drone → Bool
  has_moved now t d =
      not (is_zero t.last_lat) && not (is_zero d.latitude) && ltb (t.last_time + 100_000_000) now

  -- Faster than 80 m/s over more than 100 m, and a change of altitude by more than 100 m/s.
  abbrev pub movement_checks : ℕ → DroneTrack → Drone → Checks
  movement_checks now t d =
      let dt = now - t.last_time in
      let dist = haversine t.last_lat t.last_lng d.latitude d.longitude in
      (
        codes "coordinate_jump",
        has_moved now t d && ltb (80 * dt) (dist * 1_000_000) && ltb 100_000 dist,
      )
      ∷ (
        codes "altitude_spike",
        has_moved now t d
            && not (is_zero t.last_alt)
            && not (is_zero d.altitude_geodetic)
            && ltb (100 * dt) (difference d.altitude_geodetic t.last_alt * 1_000_000),
      )
      ∷ []

  -- Another MAC sent this identifier in the last five minutes, more than 100 m away.
  unfoldable pub has_duplicate : ℕ → Drone → Map IdentifierMacInfo → Bool
  has_duplicate now d macs =
      any
        (λ entry.
          not (same entry.0 d.mac_address)
          && not (ltb (entry.1.last_seen + 300_000_000_000) now)
          && not (is_zero entry.1.last_lat)
          && not (is_zero entry.1.last_lng)
          && ltb 100_000 (haversine d.latitude d.longitude entry.1.last_lat entry.1.last_lng))
        macs

  -- All checks, in the source's order.
  unfoldable pub all_checks : ℕ → DroneTrack → Drone → SpoofShard → Checks
  unfolding has_duplicate
  all_checks now t d shard =
      (codes "invalid_coordinates", out_of_range d) ∷ identity_checks d
      ++ (codes "timestamp_anomaly", bad_timestamp now d) ∷ signal_checks d
      ++ movement_checks now t d
      ++ (codes "speed_violation", ltb_ℤ (pos 80_000) d.speed)
        ∷ (codes "low_confidence", ltb 0 d.confidence && ltb d.confidence 20_000)
        ∷ (codes "duplicate_id", is_located d && has_duplicate now d (macs_of d shard))
        ∷ []
