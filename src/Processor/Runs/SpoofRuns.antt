-- ===== src/Processor/Runs/SpoofRuns.antt =====
-- Runs of the spoofing detector of internal/processor/spoof.go, and its theorems at concrete samples.
use skylens_azure.Common.{
  ℕ, ◌+◌, ◌≡◌, ◌↔◌, refl, Bytes, bytes_discrete, codes, some, All, if◌then◌else◌,
}
use skylens_azure.Common.Int.{ℤ, negsuc}
use skylens_azure.Common.Maps.{lookup, insert, keep_values, Unique}
use skylens_azure.Intel.Dji.{contains, contains_substr}
use skylens_azure.Intel.Oui.{match_oui, is_locally_administered_mac}
use skylens_azure.Processor.Model.{Drone, no_drone}
use skylens_azure.Processor.Merge.{difference}
use skylens_azure.Processor.Drones.{get_shard, fnv}
use skylens_azure.Processor.Spoof.{
  empty_shard, new_spoof_detector, clean_flags, add_flags, all_checks, has_duplicate,
}
use skylens_azure.Processor.Spoof.Vendors.{
  check_oui_ssid_consistency, extract_vendor_from_oui, before_paren, claimed_vendor, vendor_matches,
  calculate_correlation_bonus, extract_vendor_from_ssid, first_vendor,
}
use skylens_azure.Processor.Spoof.Analysis.{
  analyze, next_track, trust_score, bonus_of, total_penalty,
}
use skylens_azure.Processor.Spoof.Trust.{Bounded, raises, analyze-Bounded}
use skylens_azure.Processor.Spoof.Flags.{
  Known, still, old_track, checks_of, lookup-next_track, next_track-clean_iff,
}

abbrev flat : ℤ → ℤ → ℤ → ℤ → ℕ
flat a b c d = difference a c + difference b d

abbrev no_estimate : ℤ → Bytes → ℕ
no_estimate rssi model = 0

-- A DJI sensor address with the network name of a Parrot drone.
abbrev impostor : Drone
impostor = record no_drone {
  identifier = codes "x";
  mac_address = codes "04:A8:5A:00:00:01";
  ssid = codes "Anafi-1";
  rssi = negsuc 60;
}

-- The flags no_serial and oui_ssid_mismatch: 100 - 5 - 35.
impostor_runs : (analyze flat no_estimate 7 impostor new_spoof_detector).score ≡ 60
unfolding analyze new_spoof_detector next_track trust_score bonus_of total_penalty get_shard fnv
    lookup insert keep_values bytes_discrete clean_flags add_flags all_checks has_duplicate
    check_oui_ssid_consistency match_oui extract_vendor_from_oui before_paren claimed_vendor
    vendor_matches contains contains_substr calculate_correlation_bonus extract_vendor_from_ssid
    first_vendor is_locally_administered_mac
impostor_runs = refl

analyze-Bounded_example :
    Bounded
      (analyze flat no_estimate 7 impostor new_spoof_detector).score
      (total_penalty (analyze flat no_estimate 7 impostor new_spoof_detector).flags)
      30
analyze-Bounded_example = analyze-Bounded flat no_estimate 7 impostor new_spoof_detector

lookup-next_track_example :
    (lookup (codes "no_serial") (next_track flat no_estimate 7 impostor empty_shard).flags ≡ (
      if raises (codes "no_serial") (checks_of flat no_estimate 7 impostor empty_shard)
      then some 7
      else still 7
          (lookup (codes "no_serial") (old_track flat no_estimate 7 impostor empty_shard).flags)))
    × Unique (next_track flat no_estimate 7 impostor empty_shard).flags
unfolding lookup
lookup-next_track_example =
    lookup-next_track flat no_estimate 7 impostor empty_shard (codes "no_serial") tt

next_track-clean_iff_example :
    let known =
      All
        (Known (clean_flags 7 (old_track flat no_estimate 7 impostor empty_shard).flags))
        (checks_of flat no_estimate 7 impostor empty_shard) in
    (((next_track flat no_estimate 7 impostor empty_shard).consecutive_clean
        ≡ (old_track flat no_estimate 7 impostor empty_shard).consecutive_clean + 1)
      ↔ known)
    × (((next_track flat no_estimate 7 impostor empty_shard).consecutive_clean ≡ 0) ↔ (¬ known))
next_track-clean_iff_example = next_track-clean_iff flat no_estimate 7 impostor empty_shard
