-- ===== src/Processor/State/Candidates.antt =====
-- The suspects of internal/processor/state.go: what a detection without identification adds to one, and
-- its promotion to a drone. Scores are in units of 1/10000, in which the source's weights are exact; the
-- quotient of observations and seconds is rounded down to one. The running average of the RSSI (0 before
-- the first value) and its conversion to int32, float computations, are arguments, and so is the TAP
-- that Go's iteration over the map of TAPs yields first. A pointer that the caller gets back is the
-- value it points to when the call returns.
use skylens_azure.Common.{
  ℕ, ◌+◌, ◌-◌, ◌*◌, ◌/◌, ◌==◌, Bytes, codes, same, Option, none, some, List, [], ◌∷◌, ◌++◌, true,
  not, ltb, leb, ◌&&◌, ◌||◌, if◌then◌else◌, any, length,
}
use skylens_azure.Common.Int.{ℤ, ltb_ℤ, eq_ℤ}
use skylens_azure.Common.Maps.{Map, lookup, insert, delete}
use skylens_azure.Processor.Model.{Drone, no_drone, SuspectCandidate, no_candidate}
use skylens_azure.Processor.Suspects.{
  DetectionConfig, CorrelationResult, add_observation_with_candidate, cap_at,
}
use skylens_azure.Processor.Drones.{get}
use skylens_azure.Processor.Merge.{active, text_or, difference}
use skylens_azure.Processor.State.{StateManager, Updated, update_drone, suspect_promoted, broadcast}

-- A detection that names no drone.
pub record Sighting : Type 0 where
  pub mac : Bytes
  pub tap_id : Bytes
  pub confidence : ℕ
  pub channel : ℤ
  pub rssi : ℤ
  pub flags : List Bytes

abbrev pub new_candidate : ℕ → Sighting → SuspectCandidate
new_candidate now o = record no_candidate {
  identifier = codes "SUSPECT-" ++ o.mac;
  mac_address = o.mac;
  first_seen = now;
  last_seen = now;
  channel = o.channel;
  rssi_min = o.rssi;
  rssi_max = o.rssi;
}

-- The flags that are not there yet, added in order.
unfoldable pub merge_flags : List Bytes → List Bytes → List Bytes
merge_flags flags [] = flags
merge_flags flags (f ∷ fs) =
    merge_flags (if any (λ g. same g f) flags then flags else flags ++ f ∷ []) fs

-- `obs / seconds / 2`, for a time span of more than one second.
abbrev pub density : ℕ → SuspectCandidate → ℕ
density weight c =
    let span = c.last_seen - c.first_seen in
    if ltb 1_000_000_000 span
    then cap_at weight (weight * c.observations * 1_000_000_000 / (2 * span))
    else 0

unfoldable pub mobility : ℕ → SuspectCandidate → ℕ
mobility range c =
    let taps = length c.taps_seen in
    if ltb 1 taps
    then cap_at 4_000 (800 * taps)
      + cap_at 3_000 (150 * range)
      + cap_at 2_000 (1_000 * c.channel_changes)
      + density 1_000 c
    else cap_at 1_000 (200 * taps)
      + cap_at 4_500 (225 * range)
      + cap_at 3_000 (1_500 * c.channel_changes)
      + density 1_500 c

unfoldable pub assess : DetectionConfig → SuspectCandidate → SuspectCandidate
unfolding mobility
assess cfg c =
    let range = difference c.rssi_max c.rssi_min in
    let score = mobility range c in
    record c {
      rssi_variance = 10_000 * range;
      mobility_score = score;
      is_likely_mobile = leb cfg.min_mobility score || leb 15 range || leb 2 c.channel_changes;
    }

abbrev pub or_new : ℕ → Sighting → Option SuspectCandidate → SuspectCandidate
or_new now o none = new_candidate now o
or_new now o (some c) = c

module _ (average : ℤ → ℤ → ℤ) where
  -- The counters of a candidate after a sighting, before its scores.
  unfoldable pub observe : ℕ → Sighting → SuspectCandidate → SuspectCandidate
  unfolding merge_flags
  observe now o c = record c {
    channel_changes =
        if not (eq_ℤ c.channel o.channel) && ltb 0 c.observations
        then c.channel_changes + 1
        else c.channel_changes;
    last_seen = now;
    taps_seen = insert o.tap_id now c.taps_seen;
    observations = c.observations + 1;
    best_confidence =
        if ltb c.best_confidence o.confidence then o.confidence else c.best_confidence;
    channel = o.channel;
    rssi_min = if ltb_ℤ o.rssi c.rssi_min then o.rssi else c.rssi_min;
    rssi_max = if ltb_ℤ c.rssi_max o.rssi then o.rssi else c.rssi_max;
    avg_rssi = average o.rssi c.avg_rssi;
    behavioral_flags = merge_flags c.behavioral_flags o.flags;
  }

  unfoldable pub update_suspect_candidate :
      ℕ → Sighting → StateManager → StateManager × CorrelationResult
  unfolding observe assess add_observation_with_candidate
  update_suspect_candidate now o s =
      let c = assess s.cfg (observe now o (or_new now o (lookup o.mac s.suspect_candidates))) in
      let (correlator, result) =
        add_observation_with_candidate s.correlator
          (record { mac = o.mac; tap_id = o.tap_id; rssi = o.rssi; channel = o.channel; now = now })
          o.confidence (some c) s.cfg in
      (
        record s {
          suspect_candidates = insert o.mac c s.suspect_candidates;
          correlator = correlator;
        },
        result,
      )

-- The trust score and the classification of a source.
unfoldable pub source_trust : Bytes → ℕ × Bytes
source_trust source =
    if same source (codes "MULTI_TAP_CORRELATED")
    then (70, codes "CORRELATED")
    else if same source (codes "OPERATOR_CONFIRMED")
    then (80, codes "OPERATOR_CONFIRMED")
    else if same source (codes "REMOTEID_UPGRADE")
    then (85, codes "VERIFIED")
    else if same source (codes "SINGLE_TAP_MOBILITY")
    then (55, codes "MOBILITY_DETECTED")
    else if same source (codes "SINGLE_TAP_OBSERVATION")
    then (45, codes "OBSERVATION_BASED")
    else (50, codes "UNVERIFIED")

abbrev pub drone_or : Drone → Option Drone → Drone
drone_or d none = d
drone_or d (some e) = e

-- The drone that the caller holds after UpdateDrone: the stored one, if it was stored as new.
abbrev pub held : Drone → Updated → Drone
held d u = if u.is_new then drone_or d (get d.identifier u.state.drones) else d

abbrev pub confirmed : SuspectCandidate → SuspectCandidate
confirmed c = record c { manually_confirmed = true }

module _ (haversine : ℤ → ℤ → ℤ → ℤ → ℕ) where
  -- The suspect leaves, the drone goes through UpdateDrone, and the subscribers are told.
  unfoldable pub enter_drone : ℕ → Bytes → Drone → StateManager → StateManager × Option Drone
  unfolding update_drone broadcast get
  enter_drone now mac d s =
      let u =
        update_drone haversine now d
          (record s { suspect_candidates = delete mac s.suspect_candidates }) in
      (broadcast (suspect_promoted (held d u)) u.state, some (held d u))

module _ (to_int32 : ℤ → ℤ) (first_tap : Map ℕ → Bytes) where
  -- What the two promotions have in common of the drone that they make.
  abbrev pub drone_of : Bytes → SuspectCandidate → Drone
  drone_of mac c = record no_drone {
    identifier = c.identifier;
    mac_address = mac;
    rssi = to_int32 c.avg_rssi;
    channel = c.channel;
    status = active;
    contact_status = active;
    first_seen = c.first_seen;
    last_seen = c.last_seen;
    timestamp = c.last_seen;
    detection_count = c.observations;
    tap_id = first_tap c.taps_seen;
  }

  unfoldable pub promoted : Bytes → Bytes → Bytes → SuspectCandidate → Drone
  promoted mac manufacturer model c = record (drone_of mac c) {
    manufacturer = text_or manufacturer (codes "UNKNOWN");
    model = text_or model (codes "WiFi Correlated");
    designation = codes "CORRELATED";
    detection_source = codes "WIFI_CORRELATED";
    confidence = c.best_confidence;
    trust_score = 50;
    classification = codes "UNVERIFIED";
    spoof_flags = codes "NO_REMOTEID" ∷ [];
  }

  unfoldable pub promoted_with : Bytes → Bytes → Bytes → ℕ → Bytes → SuspectCandidate → Drone
  unfolding source_trust
  promoted_with mac manufacturer model confidence source c = record (drone_of mac c) {
    manufacturer = text_or manufacturer (codes "UNKNOWN");
    model = text_or model (codes "WiFi Detected");
    designation = source;
    detection_source = source;
    confidence = confidence;
    trust_score = (source_trust source).0;
    classification = (source_trust source).1;
    spoof_flags =
        codes "NO_REMOTEID"
        ∷ (if length c.taps_seen == 1 then codes "SINGLE_TAP_ONLY" ∷ [] else []);
  }

  module _ (haversine : ℤ → ℤ → ℤ → ℤ → ℕ) where
    -- The answer is `none` for an unknown suspect, which is an error of the source.
    unfoldable pub promote_suspect :
        ℕ → Bytes → Bytes → Bytes → StateManager → StateManager × Option Drone
    unfolding promoted enter_drone
    promote_suspect now mac manufacturer model s = elim (lookup mac s.suspect_candidates) [
      | none ↦ (s, none)
      | some c ↦ enter_drone haversine now mac (promoted mac manufacturer model c) s
    ]

    unfoldable pub promote_suspect_with_confidence :
        ℕ → Bytes → Bytes → Bytes → ℕ → Bytes → StateManager → StateManager × Option Drone
    unfolding promoted_with enter_drone
    promote_suspect_with_confidence now mac manufacturer model confidence source s =
        elim (lookup mac s.suspect_candidates) [
          | none ↦ (s, none)
          | some c ↦
              enter_drone haversine now mac
                (promoted_with mac manufacturer model confidence source c) s
        ]

    unfoldable pub confirm_suspect : ℕ → Bytes → StateManager → StateManager × Option Drone
    unfolding promote_suspect_with_confidence
    confirm_suspect now mac s = elim (lookup mac s.suspect_candidates) [
      | none ↦ (s, none)
      | some c ↦
          promote_suspect_with_confidence now mac (codes "UNKNOWN") (codes "Operator Confirmed")
            34_000 (codes "OPERATOR_CONFIRMED")
            (record s { suspect_candidates = insert mac (confirmed c) s.suspect_candidates })
    ]

unfoldable pub dismiss_suspect : Bytes → StateManager → StateManager
dismiss_suspect mac s = record s { suspect_candidates = delete mac s.suspect_candidates }

-- The suspect that a drone turns out to be leaves the suspects.
unfoldable pub check_remote_id_upgrade :
    Drone → StateManager → StateManager × Option SuspectCandidate
check_remote_id_upgrade d s =
    if same d.mac_address [] then (s, none) else elim (lookup d.mac_address s.suspect_candidates) [
      | none ↦ (s, none)
      | some c ↦ (
        record s { suspect_candidates = delete d.mac_address s.suspect_candidates },
        some (record c { remote_id_upgrade = true }),
      )
    ]
