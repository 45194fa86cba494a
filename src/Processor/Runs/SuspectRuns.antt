-- ===== src/Processor/Runs/SuspectRuns.antt =====
-- Runs of internal/processor/suspect_correlator.go, and its theorems at concrete observations.
use skylens_azure.Common.{
  ℕ, ◌≤◌, ◌≡◌, refl, Bytes, bytes_discrete, codes, none, some, List, [], ◌∷◌, true, arith,
}
use skylens_azure.Common.Int.{pos, negsuc}
use skylens_azure.Common.Maps.{lookup, insert}
use skylens_azure.Processor.Model.{SuspectCandidate, no_candidate}
use skylens_azure.Processor.Suspects.{
  SuspectCorrelator, add_observation_with_candidate, no_config, evaluate, observed, open_window,
  count_active_taps,
}
use skylens_azure.Processor.Suspects.Window.{
  Call, run, active-reported, active_in, reported, Ordered,
}
use skylens_azure.Processor.Suspects.Promotion.{reason_of, is_promotion, greatest, evaluate_reason}

abbrev mac : Bytes
mac = codes "60:60:1f:00:00:01"

abbrev seen : SuspectCandidate
seen = record no_candidate { last_seen = 40_000_000_000; observations = 6; mobility_score = 4_000 }

abbrev report : Bytes → ℕ → Call
report tap now = record {
  obs = record { mac = mac; tap_id = tap; rssi = negsuc 70; channel = pos 6; now = now };
  base = 8_000;
  candidate = some seen;
  config = no_config;
}

abbrev correlator : SuspectCorrelator
correlator = record {
  observations = [];
  window_duration = 5;
  min_taps_required = 2;
  confidence_boost = 12_000;
  single_tap_mode = true;
}

-- Two TAPs, the newest report first.
abbrev history : List Call
history = report (codes "TAP-2") 12 ∷ report (codes "TAP-1") 10 ∷ []

history-Ordered : Ordered history
history-Ordered = (omega arith, (omega arith, tt))

active-reported_example :
    active_in 5 16 (codes "TAP-1") (lookup mac (run correlator history).observations)
    ≡ reported 5 16 mac (codes "TAP-1") history
active-reported_example =
    active-reported correlator mac (codes "TAP-1") history 16 refl history-Ordered (omega arith)

-- Both TAPs count; the single-TAP pathway is not asked.
result_runs :
    (add_observation_with_candidate
      (run correlator (report (codes "TAP-1") 10 ∷ []))
      (report (codes "TAP-2") 12).obs
      8_000
      none
      no_config).1.combined_confidence
    ≡ 20_000
unfolding add_observation_with_candidate observed open_window count_active_taps evaluate lookup
    insert bytes_discrete
result_runs = refl

evaluate_reason_example :
    let r = evaluate correlator no_config 8_000 (some seen) 1 in
    (r.reason ≡ reason_of correlator no_config (some seen) 1)
    × (r.confirmed ≡ is_promotion (reason_of correlator no_config (some seen) 1))
    × (r.taps_count ≡ 1)
    × (r.combined_confidence ≤ greatest (reason_of correlator no_config (some seen) 1) 8_000)
evaluate_reason_example = evaluate_reason correlator no_config 8_000 (some seen) 1

abbrev alone : List Call
alone = report (codes "TAP-1") 12 ∷ report (codes "TAP-1") 10 ∷ []
