-- ===== src/Receiver/Runs.antt =====
-- Runs of internal/receiver/nats.go, and its theorems at concrete detections.
use skylens_azure.Common.{
  ℕ, ◌+◌, ◌==◌, ◌≡◌, ◌≤◌, refl, Bytes, bytes_discrete, codes, none, some, [], ◌∷◌, true, false,
  if◌then◌else◌, arith,
}
use skylens_azure.Common.Int.{ℤ, pos, negsuc}
use skylens_azure.Common.Maps.{lookup, insert, keep_values}
use skylens_azure.Intel.Dji.{contains, contains_substr}
use skylens_azure.Intel.Oui.{match_oui, is_locally_administered_mac}
use skylens_azure.Processor.Model.{Drone, no_drone}
use skylens_azure.Processor.Merge.{difference}
use skylens_azure.Processor.Suspects.{no_config}
use skylens_azure.Processor.Drones.{
  get, get_shard, fnv, new_sharded_drones, lookup_by_serial, lookup_by_mac,
}
use skylens_azure.Processor.Drones.Placement.{new-get}
use skylens_azure.Processor.State.{
  StateManager, new_state_manager, update_drone, merge_target, started,
}
use skylens_azure.Processor.State.Resolution.{IsState}
use skylens_azure.Processor.State.Outcomes.{get-created}
use skylens_azure.Processor.State.Numbers.{update_drone-IsState}
use skylens_azure.Processor.State.Calls.{new-IsState}
use skylens_azure.Processor.Spoof.{
  new_spoof_detector, clean_flags, add_flags, all_checks, has_duplicate,
}
use skylens_azure.Processor.Spoof.Vendors.{
  check_oui_ssid_consistency, extract_vendor_from_oui, before_paren, claimed_vendor, vendor_matches,
  calculate_correlation_bonus, extract_vendor_from_ssid, first_vendor,
}
use skylens_azure.Processor.Spoof.Analysis.{
  analyze, next_track, trust_score, bonus_of, total_penalty,
}
use skylens_azure.Receiver.{
  classify_by_trust, spoof_flag_count, is_valid_identifier, normalize_op_status, ingest,
}
use skylens_azure.Receiver.Ingest.{
  gravity, classify_by_trust_monotone, ingest_zero_trust, ingest_keeps_class,
}

abbrev flat : ℤ → ℤ → ℤ → ℤ → ℕ
flat a b c d = difference a c + difference b d

abbrev no_estimate : ℤ → Bytes → ℕ
no_estimate rssi model = 0

suspect_runs :
    classify_by_trust 60 (codes "no_serial" ∷ codes "oui_ssid_mismatch" ∷ []) ≡ codes "UNKNOWN"
unfolding classify_by_trust spoof_flag_count bytes_discrete
suspect_runs = refl

unprintable_runs : is_valid_identifier (65 ∷ 7 ∷ []) ≡ false
unfolding is_valid_identifier
unprintable_runs = refl

unknown_status_runs : normalize_op_status (codes "15") ≡ codes "OP_STATUS_UNKNOWN"
unfolding normalize_op_status bytes_discrete
unknown_status_runs = refl

classify_by_trust_monotone_example :
    gravity (classify_by_trust 70 (codes "no_serial" ∷ []))
    ≤ gravity (classify_by_trust 30 (codes "no_serial" ∷ []))
classify_by_trust_monotone_example =
    classify_by_trust_monotone 30 70 (codes "no_serial" ∷ []) (omega arith)

-- A DJI address, a Parrot network, a latitude of 100 degrees, an impossible signal and a future time.
abbrev villain : Drone
villain = record no_drone {
  identifier = codes "v";
  mac_address = codes "04:A8:5A:00:00:01";
  ssid = codes "ANAFI-1";
  latitude = pos 1_000_000_000;
  rssi = negsuc 9;
  timestamp = 100_000_000_000;
}

abbrev start : StateManager
start = new_state_manager no_config 30 true

start-IsState : IsState start
start-IsState = new-IsState no_config 30 true

villain-untrusted : (analyze flat no_estimate 7 villain new_spoof_detector).score ≡ 0
unfolding analyze new_spoof_detector next_track trust_score bonus_of total_penalty get_shard fnv
    lookup insert keep_values bytes_discrete clean_flags add_flags all_checks has_duplicate
    check_oui_ssid_consistency match_oui extract_vendor_from_oui before_paren claimed_vendor
    vendor_matches contains contains_substr calculate_correlation_bonus extract_vendor_from_ssid
    first_vendor is_locally_administered_mac
villain-untrusted = refl

villain-unmerged : merge_target villain start.drones ≡ none
unfolding merge_target new_state_manager new_sharded_drones lookup lookup_by_serial lookup_by_mac
    bytes_discrete
villain-unmerged = refl

start-get : (id : Bytes) → get id start.drones ≡ none
unfolding new_state_manager
start-get id = new-get id

ingest_zero_trust_example :
    (e : Drone) × (get
        (codes "v")
        (ingest flat no_estimate 7 villain new_spoof_detector start).updated.state.drones
      ≡ some e)
    × (e.trust_score ≡ 100)
    × (e.classification ≡ codes "HOSTILE")
ingest_zero_trust_example =
    ingest_zero_trust flat no_estimate 7 villain new_spoof_detector start start-IsState (λ e. cc)
      villain-unmerged (start-get (codes "v")) villain-untrusted

-- A drone without serial number and MAC, which no other drone can be.
abbrev plain : Drone
plain = record no_drone { identifier = codes "p"; rssi = negsuc 60 }

plain-unmerged : (s : StateManager) → merge_target plain s.drones ≡ none
unfolding merge_target bytes_discrete
plain-unmerged s = refl

abbrev tracking : StateManager
tracking = (update_drone flat 1 plain start).state

ingest_keeps_class_example :
    (f : Drone) × (get
        (codes "p")
        (ingest flat no_estimate 7 plain new_spoof_detector tracking).updated.state.drones
      ≡ some f)
    × (f.classification ≡ (started 1 (start.next_track_num + 1) plain).classification)
    × (f.trust_score ≡ (
        if (analyze flat no_estimate 7 plain new_spoof_detector).score == 0
        then (started 1 (start.next_track_num + 1) plain).trust_score
        else (analyze flat no_estimate 7 plain new_spoof_detector).score))
ingest_keeps_class_example =
    ingest_keeps_class flat no_estimate 7 plain (started 1 (start.next_track_num + 1) plain)
      new_spoof_detector tracking
      (update_drone-IsState flat 1 plain start start-IsState (λ e. refl)) (λ e. cc)
      (plain-unmerged tracking)
      (get-created flat 1 plain start start-IsState (λ e. cc) (plain-unmerged start)
        (start-get (codes "p")))
