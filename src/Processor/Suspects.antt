-- ===== src/Processor/Suspects.antt =====
-- The suspect correlator of internal/processor/suspect_correlator.go. Times are nanoseconds.
-- Confidences are integers in units of 1/40000 and scores in units of 1/10000, in which the source's
-- float32 constants and products are exact: `0.25 * mobility` is the score's own number, `obs / 20` is
-- `2000 * obs`. Rounding of float32 is not modelled. A variance is in units of 1/10000.
pub mod Window
pub mod Promotion
use skylens_azure.Common.{
  ℕ, ◌+◌, ◌-◌, ◌*◌, ◌/◌, Bytes, Option, none, some, List, [], ◌∷◌, Bool, true, false, ltb, leb,
  ◌==◌, ◌&&◌, ◌||◌, if◌then◌else◌, length,
}
use skylens_azure.Common.Int.{ℤ}
use skylens_azure.Common.Maps.{Map, lookup, insert}
use skylens_azure.Processor.Model.{SuspectCandidate}

pub record TapObservation : Type 0 where
  pub tap_id : Bytes
  pub timestamp : ℕ
  pub rssi : ℤ
  pub channel : ℤ

pub record CorrelationWindow : Type 0 where
  pub mac : Bytes
  pub tap_obs : Map TapObservation
  pub first_seen : ℕ
  pub last_seen : ℕ

pub data PromotionReason : Type 0 where
  promotion_none multi_tap single_tap_mobility single_tap_observation operator_confirmed :
      PromotionReason

pub data ConfidenceLevel : Type 0 where
  high medium low : ConfidenceLevel

pub record CorrelationResult : Type 0 where
  pub confirmed : Bool
  pub taps_count : ℕ
  pub combined_confidence : ℕ
  pub reason : PromotionReason
  pub confidence_level : ConfidenceLevel
  pub single_tap_eligible : Bool
  pub observations : ℕ
  pub time_span : ℕ
  pub mobility_score : ℕ
  pub is_likely_mobile : Bool

-- The thresholds of DetectionConfig that the correlator reads.
pub record DetectionConfig : Type 0 where
  pub min_observations : ℕ
  pub min_time_span_sec : ℕ
  pub min_mobility : ℕ

pub record SuspectCorrelator : Type 0 where
  pub observations : Map CorrelationWindow
  pub window_duration : ℕ
  pub min_taps_required : ℕ
  pub confidence_boost : ℕ
  pub single_tap_mode : Bool

abbrev pub or_default : ℕ → ℕ → ℕ
or_default n d = if n == 0 then d else n

unfoldable pub new_suspect_correlator : ℕ → ℕ → ℕ → Bool → SuspectCorrelator
new_suspect_correlator window_sec min_taps boost single_tap_mode = record {
  observations = [];
  window_duration = or_default window_sec 5 * 1_000_000_000;
  min_taps_required = or_default min_taps 2;
  confidence_boost = or_default boost 12_000;
  single_tap_mode = single_tap_mode;
}

-- The window of a MAC at a new observation: a new one, a stale one that is reset, or the one there.
unfoldable pub open_window : ℕ → Bytes → ℕ → Option CorrelationWindow → CorrelationWindow
open_window duration mac now none = record {
  mac = mac;
  tap_obs = [];
  first_seen = now;
  last_seen = now;
}
open_window duration mac now (some w) =
    if ltb (w.last_seen + duration) now
    then record w { tap_obs = []; first_seen = now; last_seen = now }
    else record w { last_seen = now }

-- `countActiveTapsLocked`: `now.Sub(t) <= d` is `now <= t + d`.
unfoldable pub count_active_taps : ℕ → ℕ → Map TapObservation → ℕ
count_active_taps duration now [] = 0
count_active_taps duration now ((tap, obs) ∷ m) =
    let rest = count_active_taps duration now m in
    if leb now (obs.timestamp + duration) then rest + 1 else rest

abbrev pub cap_at : ℕ → ℕ → ℕ
cap_at limit n = if ltb limit n then limit else n

abbrev initial_result : ℕ → ℕ → Option SuspectCandidate → CorrelationResult
initial_result active base none = record {
  confirmed = false;
  taps_count = active;
  combined_confidence = base;
  reason = promotion_none;
  confidence_level = low;
  single_tap_eligible = false;
  observations = 0;
  time_span = 0;
  mobility_score = 0;
  is_likely_mobile = false;
}
initial_result active base (some c) = record {
  confirmed = false;
  taps_count = active;
  combined_confidence = base;
  reason = promotion_none;
  confidence_level = low;
  single_tap_eligible = false;
  observations = c.observations;
  time_span = c.last_seen - c.first_seen;
  mobility_score = c.mobility_score;
  is_likely_mobile = c.is_likely_mobile;
}

abbrev promote : PromotionReason → ConfidenceLevel → ℕ → CorrelationResult → CorrelationResult
promote reason level confidence r = record r {
  confirmed = true;
  reason = reason;
  confidence_level = level;
  combined_confidence = confidence;
}

-- The thresholds, with the defaults for those that are not set.
abbrev pub min_obs : DetectionConfig → ℕ
min_obs cfg = or_default cfg.min_observations 5

abbrev pub min_span : DetectionConfig → ℕ
min_span cfg = or_default cfg.min_time_span_sec 30 * 1_000_000_000

abbrev pub min_mob : DetectionConfig → ℕ
min_mob cfg = or_default cfg.min_mobility 6_000

-- The single-TAP pathways, in the source's order.
unfoldable pub evaluate_single_tap :
    DetectionConfig → ℕ → SuspectCandidate → CorrelationResult → CorrelationResult
evaluate_single_tap cfg base c r =
    if c.manually_confirmed
    then promote operator_confirmed high 34_000 r
    else if c.is_likely_mobile && leb (min_mob cfg) c.mobility_score && leb 3 r.observations
    then promote single_tap_mobility medium (cap_at 32_000 (base + c.mobility_score)) r
    else if leb (min_obs cfg) r.observations
        && leb (min_span cfg) r.time_span
        && (leb 3_000 c.mobility_score || leb 80_000 c.rssi_variance)
    then promote single_tap_observation medium
        (cap_at 30_000 (base + cap_at 12_000 (2_000 * r.observations))) r
    else if leb (min_obs cfg / 2) r.observations
        || (leb (min_span cfg) (2 * r.time_span) && leb 3_000 c.mobility_score)
    then record r { single_tap_eligible = true }
    else r

abbrev single_tap :
    Bool → DetectionConfig → ℕ → Option SuspectCandidate → CorrelationResult → CorrelationResult
single_tap mode cfg base none r = r
single_tap mode cfg base (some c) r = if mode then evaluate_single_tap cfg base c r else r

unfoldable pub evaluate :
    SuspectCorrelator → DetectionConfig → ℕ → Option SuspectCandidate → ℕ → CorrelationResult
unfolding evaluate_single_tap
evaluate sc cfg base candidate active =
    let r = initial_result active base candidate in
    if leb sc.min_taps_required active
    then promote multi_tap high (cap_at 38_000 (base + (active - 1) * sc.confidence_boost)) r
    else single_tap sc.single_tap_mode cfg base candidate r

-- One observation of a MAC by a TAP.
pub record Observation : Type 0 where
  pub mac : Bytes
  pub tap_id : Bytes
  pub rssi : ℤ
  pub channel : ℤ
  pub now : ℕ

unfoldable pub observed : SuspectCorrelator → Observation → CorrelationWindow
unfolding open_window
observed sc o =
    let w = open_window sc.window_duration o.mac o.now (lookup o.mac sc.observations) in
    record w {
      tap_obs =
          insert o.tap_id
            (record { tap_id = o.tap_id; timestamp = o.now; rssi = o.rssi; channel = o.channel })
            w.tap_obs;
    }

unfoldable pub add_observation_with_candidate :
    SuspectCorrelator
    → Observation
    → ℕ
    → Option SuspectCandidate
    → DetectionConfig
    → SuspectCorrelator × CorrelationResult
unfolding observed count_active_taps evaluate
add_observation_with_candidate sc o base candidate cfg =
    let w = observed sc o in
    (
      record sc { observations = insert o.mac w sc.observations },
      evaluate sc cfg base candidate (count_active_taps sc.window_duration o.now w.tap_obs),
    )

abbrev pub no_config : DetectionConfig
no_config = record { min_observations = 0; min_time_span_sec = 0; min_mobility = 0 }

unfoldable pub add_observation :
    SuspectCorrelator → Observation → ℕ → SuspectCorrelator × CorrelationResult
unfolding add_observation_with_candidate
add_observation sc o base = add_observation_with_candidate sc o base none no_config

-- `Cleanup`: the windows that are left, and how many were removed.
unfoldable pub cleanup_windows : ℕ → ℕ → Map CorrelationWindow → Map CorrelationWindow × ℕ
cleanup_windows max_age now [] = ([], 0)
cleanup_windows max_age now ((mac, w) ∷ m) =
    let (rest, removed) = cleanup_windows max_age now m in
    if ltb (w.last_seen + max_age) now then (rest, removed + 1) else ((mac, w) ∷ rest, removed)

unfoldable pub cleanup : SuspectCorrelator → ℕ → ℕ → SuspectCorrelator × ℕ
unfolding cleanup_windows
cleanup sc max_age now =
    let (left, removed) = cleanup_windows max_age now sc.observations in
    (record sc { observations = left }, removed)

-- The copy of the active observations of a window in `GetPendingSuspects`.
unfoldable pub active_obs : ℕ → ℕ → Map TapObservation → Map TapObservation
active_obs duration now [] = []
active_obs duration now ((tap, obs) ∷ m) =
    let rest = active_obs duration now m in
    if leb now (obs.timestamp + duration) then (tap, obs) ∷ rest else rest

unfoldable pub pending_windows : ℕ → ℕ → ℕ → Map CorrelationWindow → List CorrelationWindow
pending_windows duration min_taps now [] = []
pending_windows duration min_taps now ((mac, w) ∷ m) =
    let rest = pending_windows duration min_taps now m in
    let active = count_active_taps duration now w.tap_obs in
    if ltb 0 active && ltb active min_taps
    then record w { tap_obs = active_obs duration now w.tap_obs } ∷ rest
    else rest

unfoldable pub get_pending_suspects : SuspectCorrelator → ℕ → List CorrelationWindow
unfolding count_active_taps active_obs pending_windows
get_pending_suspects sc now =
    pending_windows sc.window_duration sc.min_taps_required now sc.observations
