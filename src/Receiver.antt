-- ===== src/Receiver.antt =====
-- What internal/receiver/nats.go does with a parsed detection: the checks of its texts, the class of a
-- trust score, and the step that analyzes a drone, classifies it and hands it to the state manager.
pub mod Ingest
mod Runs
use skylens_azure.Common.{
  ℕ, ◌+◌, Bytes, codes, same, List, [], ◌∷◌, Bool, false, not, ltb, leb, ◌&&◌, ◌||◌, if◌then◌else◌,
  length, any,
}
use skylens_azure.Common.Int.{ℤ}
use skylens_azure.Processor.Model.{Drone}
use skylens_azure.Processor.State.{StateManager, Updated, update_drone}
use skylens_azure.Processor.Spoof.{SpoofDetector}
use skylens_azure.Processor.Spoof.Analysis.{Analysis, analyze}

abbrev pub one_of : List Bytes → Bytes → Bool
one_of texts s = any (same s) texts

unfoldable pub is_generic_designation : Bytes → Bool
is_generic_designation =
    one_of ([] ∷ codes "WiFi RemoteID broadcast" ∷ codes "UNKNOWN" ∷ codes "Unknown" ∷ [])

abbrev pub is_unprintable : ℕ → Bool
is_unprintable r = ltb r 0x20 || ltb 0x7E r

-- `isValidIdentifier` and `isCleanSerial`, which are the same code.
unfoldable pub is_valid_identifier : Bytes → Bool
is_valid_identifier [] = false
is_valid_identifier (c ∷ cs) = not (any is_unprintable (c ∷ cs))

unfoldable pub is_clean_serial : Bytes → Bool
is_clean_serial [] = false
is_clean_serial (c ∷ cs) = not (any is_unprintable (c ∷ cs))

unfoldable pub normalize_op_status : Bytes → Bytes
normalize_op_status s =
    if one_of
      (codes "OP_STATUS_UNKNOWN"
        ∷ codes "OP_STATUS_UNDECLARED"
        ∷ codes "OP_STATUS_GROUND"
        ∷ codes "OP_STATUS_AIRBORNE"
        ∷ codes "OP_STATUS_EMERGENCY"
        ∷ codes "OP_STATUS_REMOTE_ID_FAILURE"
        ∷ [])
      s
    then s
    else codes "OP_STATUS_UNKNOWN"

abbrev pub is_critical : Bytes → Bool
is_critical = one_of (
    codes "coordinate_jump"
    ∷ codes "invalid_coordinates"
    ∷ codes "impossible_vendor"
    ∷ codes "duplicate_id"
    ∷ [])

abbrev pub is_spoof_sign : Bytes → Bool
is_spoof_sign =
    one_of
      (codes "oui_ssid_mismatch" ∷ codes "rssi_distance_mismatch" ∷ codes "rssi_impossible" ∷ [])

unfoldable pub spoof_flag_count : List Bytes → ℕ
spoof_flag_count [] = 0
spoof_flag_count (f ∷ fs) =
    let rest = spoof_flag_count fs in if is_spoof_sign f then rest + 1 else rest

-- The class for what the loop over the flags has found.
abbrev pub class_of : ℕ → Bool → ℕ → ℕ → Bytes
class_of trust critical signs flags =
    if ltb trust 20 || (critical && ltb trust 40)
    then codes "HOSTILE"
    else if ltb trust 40 || leb 2 signs || (leb 1 signs && ltb trust 50) || ltb 3 flags
    then codes "SUSPECT"
    else if ltb trust 60 || ltb 1 flags
    then codes "UNKNOWN"
    else if ltb trust 80
    then codes "NEUTRAL"
    else codes "FRIENDLY"

unfoldable pub classify_by_trust : ℕ → List Bytes → Bytes
unfolding spoof_flag_count
classify_by_trust trust flags =
    class_of trust (any is_critical flags) (spoof_flag_count flags) (length flags)

-- The part of `handleDetection` from the analysis to the state manager.
pub record Ingested : Type 0 where
  pub spoof : SpoofDetector
  pub updated : Updated

abbrev pub judged : Analysis → Drone → Drone
judged a d = record d {
  trust_score = a.score;
  spoof_flags = a.flags;
  classification = classify_by_trust a.score a.flags;
}

module _ (haversine : ℤ → ℤ → ℤ → ℤ → ℕ) (estimate : ℤ → Bytes → ℕ) where
  unfoldable pub ingest : ℕ → Drone → SpoofDetector → StateManager → Ingested
  unfolding analyze update_drone classify_by_trust
  ingest now d spoof s =
      let a = analyze haversine estimate now d spoof in
      record { spoof = a.detector; updated = update_drone haversine now (judged a d) s }
