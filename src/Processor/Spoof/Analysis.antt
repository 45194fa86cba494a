-- ===== src/Processor/Spoof/Analysis.antt =====
-- Analyze and Cleanup of internal/processor/spoof.go. The score is the sum of the credits less the
-- penalties, where a difference below 0 is 0, as in the source's clamp.
use skylens_azure.Common.{
  ℕ, zero, suc, ◌+◌, ◌-◌, ◌==◌, Bytes, Option, none, some, List, [], ◌∷◌, map, Bool, not, ltb, leb,
  ◌&&◌, if◌then◌else◌, length, get_or,
}
use skylens_azure.Common.Int.{ℤ}
use skylens_azure.Common.Maps.{Map, lookup, insert, keep_values}
use skylens_azure.Processor.Model.{Drone}
use skylens_azure.Processor.Drones.{get_shard}
use skylens_azure.Processor.Suspects.{cap_at}
use skylens_azure.Processor.Spoof.Tables.{penalties}
use skylens_azure.Processor.Spoof.Vendors.{calculate_correlation_bonus}
use skylens_azure.Processor.Spoof.{
  DroneTrack, IdentifierMacInfo, SpoofShard, SpoofDetector, empty_shard, new_track, clean_flags,
  add_flags, all_checks, is_located, macs_of,
}

abbrev pub number_at : Option ℕ → ℕ
number_at none = 0
number_at (some n) = n

-- 0 for a flag that the table does not have.
abbrev pub penalty_of : Bytes → ℕ
penalty_of flag = number_at (lookup flag penalties)

unfoldable pub total_penalty : List Bytes → ℕ
total_penalty [] = 0
total_penalty (f ∷ fs) = penalty_of f + total_penalty fs

abbrev pub confidence_bonus : Drone → ℕ
confidence_bonus d =
    if leb 36_000 d.confidence then 10 else if leb 32_000 d.confidence then 5 else 0

abbrev pub recovery : ℕ → ℕ → ℕ
recovery clean total = if leb 5 clean && ltb 0 total then 5 else 0

unfoldable pub trust_score : ℕ → List Bytes → ℕ → ℕ
unfolding total_penalty
trust_score clean flags bonus =
    let total = total_penalty flags in
    if leb 10 clean && length flags == 0
    then 100
    else cap_at 100 (100 + bonus + recovery clean total - total)

unfoldable pub bonus_of : Drone → ℕ
unfolding calculate_correlation_bonus
bonus_of d = confidence_bonus d + calculate_correlation_bonus d

abbrev pub flag_names : Map ℕ → List Bytes
flag_names = map (λ entry. entry.0)

abbrev pub replace_at : ℕ → SpoofShard → List SpoofShard → List SpoofShard
replace_at i shard [] = []
replace_at zero shard (s ∷ ss) = shard ∷ ss
replace_at (suc i) shard (s ∷ ss) = s ∷ replace_at i shard ss

abbrev pub spoof_shard : Bytes → SpoofDetector → SpoofShard
spoof_shard id sd = get_or sd.shards (get_shard id) empty_shard

abbrev pub track_or_new : ℕ → Option DroneTrack → DroneTrack
track_or_new now none = new_track now
track_or_new now (some t) = t

-- The track after a sample with the flags, of which `added` are new.
abbrev pub sampled : ℕ → Drone → Map ℕ → ℕ → DroneTrack → DroneTrack
sampled now d flags added t = record t {
  flags = flags;
  consecutive_clean = if added == 0 then t.consecutive_clean + 1 else 0;
  last_lat = d.latitude;
  last_lng = d.longitude;
  last_alt = d.altitude_geodetic;
  last_speed = d.speed;
  last_rssi = d.rssi;
  last_time = now;
}

abbrev pub noted_macs : ℕ → Drone → SpoofShard → Map (Map IdentifierMacInfo)
noted_macs now d shard =
    if is_located d
    then insert d.identifier
        (insert d.mac_address
          (record { last_lat = d.latitude; last_lng = d.longitude; last_seen = now })
          (macs_of d shard))
        shard.identifier_macs
    else shard.identifier_macs

-- What Analyze answers: the detector, the score and the flags.
pub record Analysis : Type 0 where
  pub detector : SpoofDetector
  pub score : ℕ
  pub flags : List Bytes

module _ (haversine : ℤ → ℤ → ℤ → ℤ → ℕ) (estimate : ℤ → Bytes → ℕ) where
  -- The track of a drone after a sample.
  unfoldable pub next_track : ℕ → Drone → SpoofShard → DroneTrack
  unfolding clean_flags add_flags all_checks
  next_track now d shard =
      let old = track_or_new now (lookup d.identifier shard.tracks) in
      let (flags, added) =
        add_flags now (all_checks haversine estimate now old d shard) (clean_flags now old.flags) in
      sampled now d flags added old

  unfoldable pub analyze : ℕ → Drone → SpoofDetector → Analysis
  unfolding next_track trust_score bonus_of
  analyze now d sd =
      let shard = spoof_shard d.identifier sd in
      let t = next_track now d shard in
      let names = flag_names t.flags in
      record {
        detector = record {
          shards =
              replace_at (get_shard d.identifier)
                (record {
                  tracks = insert d.identifier t shard.tracks;
                  identifier_macs = noted_macs now d shard;
                })
                sd.shards;
        };
        score = trust_score t.consecutive_clean names (bonus_of d);
        flags = names;
      }

-- `Cleanup`: the tracks and MACs of a shard that are not too old.
abbrev pub is_current : ℕ → ℕ → ℕ → Bool
is_current max_age now at = not (ltb (at + max_age) now)

unfoldable pub current_macs : ℕ → ℕ → Map (Map IdentifierMacInfo) → Map (Map IdentifierMacInfo)
current_macs max_age now [] = []
current_macs max_age now ((id, macs) ∷ m) =
    let rest = current_macs max_age now m in
    let left = keep_values (λ info. is_current max_age now info.last_seen) macs in
    if length left == 0 then rest else (id, left) ∷ rest

unfoldable pub clean_shard : ℕ → ℕ → SpoofShard → SpoofShard
unfolding current_macs
clean_shard max_age now shard = record {
  tracks = keep_values (λ t. is_current max_age now t.last_time) shard.tracks;
  identifier_macs = current_macs max_age now shard.identifier_macs;
}

unfoldable pub track_count : List SpoofShard → ℕ
track_count [] = 0
track_count (shard ∷ shards) = length shard.tracks + track_count shards

-- The detector, and the number of tracks that left.
unfoldable pub cleanup : ℕ → ℕ → SpoofDetector → SpoofDetector × ℕ
unfolding clean_shard track_count
cleanup max_age now sd =
    let left = map (clean_shard max_age now) sd.shards in
    (record { shards = left }, track_count sd.shards - track_count left)
