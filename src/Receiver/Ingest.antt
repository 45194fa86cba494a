-- ===== src/Receiver/Ingest.antt =====
-- The theorems on the classes and the step of internal/receiver/nats.go.
use skylens_azure.Common.{
  ℕ, ◌+◌, ◌≡◌, ◌≢◌, ◌≤◌, refl, ap, ◌∙◌, Bytes, bytes_discrete, codes, same, none, some, List, [],
  Bool, true, false, ltb, leb, ◌==◌, ◌&&◌, ◌||◌, if◌then◌else◌, length, any, arith,
}
use skylens_azure.Common.Int.{ℤ}
use skylens_azure.Processor.Model.{Drone}
use skylens_azure.Processor.State.{StateManager, merge_target, started}
use skylens_azure.Processor.Drones.{get}
use skylens_azure.Processor.State.Resolution.{IsState}
use skylens_azure.Processor.State.Outcomes.{get-created, get-refreshed}
use skylens_azure.Processor.Merge.{
  update_existing, update_names, update_telemetry, update_position, update_motion, update_operator,
}
use skylens_azure.Processor.Spoof.{SpoofDetector}
use skylens_azure.Processor.Spoof.Analysis.{analyze}
use skylens_azure.Receiver.{
  class_of, classify_by_trust, spoof_flag_count, is_critical, judged, ingest,
}

-- How grave a class is.
abbrev pub gravity : Bytes → ℕ
gravity c =
    if same c (codes "HOSTILE")
    then 4
    else if same c (codes "SUSPECT")
    then 3
    else if same c (codes "UNKNOWN")
    then 2
    else if same c (codes "NEUTRAL")
    then 1
    else 0

gravity-if :
    (a b c d : Bool)
    → gravity (
        if a
        then codes "HOSTILE"
        else if b
        then codes "SUSPECT"
        else if c
        then codes "UNKNOWN"
        else if d
        then codes "NEUTRAL"
        else codes "FRIENDLY")
      ≡ (if a then 4 else if b then 3 else if c then 2 else if d then 1 else 0)
unfolding bytes_discrete
gravity-if true b c d = refl
gravity-if false true c d = refl
gravity-if false false true d = refl
gravity-if false false false true = refl
gravity-if false false false false = refl

abbrev level : ℕ → Bool → ℕ → ℕ → ℕ
level trust critical signs flags =
    if ltb trust 20 || (critical && ltb trust 40)
    then 4
    else if ltb trust 40 || leb 2 signs || (leb 1 signs && ltb trust 50) || ltb 3 flags
    then 3
    else if ltb trust 60 || ltb 1 flags
    then 2
    else if ltb trust 80
    then 1
    else 0

gravity-class_of :
    (trust : ℕ) (critical : Bool) (signs flags : ℕ)
    → gravity (class_of trust critical signs flags) ≡ level trust critical signs flags
gravity-class_of trust critical signs flags =
    gravity-if (ltb trust 20 || (critical && ltb trust 40))
      (ltb trust 40 || leb 2 signs || (leb 1 signs && ltb trust 50) || ltb 3 flags)
      (ltb trust 60 || ltb 1 flags) (ltb trust 80)

level-le :
    (low high : ℕ) (critical : Bool) (signs flags : ℕ)
    → low ≤ high
    → level high critical signs flags ≤ level low critical signs flags
level-le low high true signs flags le = ground (arith, le)
level-le low high false signs flags le = ground (arith, le)

-- With the same flags, a higher trust score never gives a graver class.
pub classify_by_trust_monotone :
    (low high : ℕ) (flags : List Bytes)
    → low ≤ high
    → gravity (classify_by_trust high flags) ≤ gravity (classify_by_trust low flags)
unfolding classify_by_trust
classify_by_trust_monotone low high flags le =
    let critical = any is_critical flags in
    let signs = spoof_flag_count flags in
    let at_high = gravity-class_of high critical signs (length flags) in
    let at_low = gravity-class_of low critical signs (length flags) in
    omega (arith, at_high, at_low, level-le low high critical signs (length flags) le)

zero-trust :
    (now number : ℕ) (d : Drone) → d.trust_score ≡ 0 → (started now number d).trust_score ≡ 100
unfolding started
zero-trust now number d e = rw e refl

hostile :
    (now number : ℕ) (d : Drone)
    → d.classification ≡ codes "HOSTILE"
    → (started now number d).classification ≡ codes "HOSTILE"
unfolding started
hostile now number d e = rw e refl

zero-hostile : (flags : List Bytes) → classify_by_trust 0 flags ≡ codes "HOSTILE"
unfolding classify_by_trust
zero-hostile flags = refl

refreshed-class :
    (now : ℕ) (d e : Drone) → (update_existing now d e).classification ≡ e.classification
unfolding update_existing update_names update_telemetry update_position update_motion
    update_operator
refreshed-class now d e = refl

refreshed-trust :
    (now : ℕ) (d e : Drone)
    → (update_existing now d e).trust_score
      ≡ (if d.trust_score == 0 then e.trust_score else d.trust_score)
unfolding update_existing update_names update_telemetry update_position update_motion
    update_operator
refreshed-trust now d e = refl

module _ (haversine : ℤ → ℤ → ℤ → ℤ → ℕ) (estimate : ℤ → Bytes → ℕ) where
  -- A drone that is new in a well-formed state and that the analysis gives the trust 0 is stored as
  -- hostile, with the trust 100.
  pub ingest_zero_trust :
      (now : ℕ) (d : Drone) (spoof : SpoofDetector) (s : StateManager)
      → IsState s
      → d.identifier ≢ []
      → merge_target d s.drones ≡ none
      → get d.identifier s.drones ≡ none
      → (analyze haversine estimate now d spoof).score ≡ 0
      → (e : Drone) × (get d.identifier
            (ingest haversine estimate now d spoof s).updated.state.drones
          ≡ some e)
        × (e.trust_score ≡ 100)
        × (e.classification ≡ codes "HOSTILE")
  unfolding ingest
  ingest_zero_trust now d spoof s v n m g zero_score =
      let j = judged (analyze haversine estimate now d spoof) d in
      (
        started now (s.next_track_num + 1) j,
        get-created haversine now j s v n m g,
        zero-trust now (s.next_track_num + 1) j zero_score,
        hostile now (s.next_track_num + 1) j (
            ap (λ t. classify_by_trust t (analyze haversine estimate now d spoof).flags) zero_score
            ∙ zero-hostile (analyze haversine estimate now d spoof).flags),
      )

  -- A drone of a well-formed state that is detected again under its own identifier keeps its class,
  -- whatever the analysis says, and keeps its trust if the analysis gives the trust 0.
  pub ingest_keeps_class :
      (now : ℕ) (d e : Drone) (spoof : SpoofDetector) (s : StateManager)
      → IsState s
      → d.identifier ≢ []
      → merge_target d s.drones ≡ none
      → get d.identifier s.drones ≡ some e
      → (f : Drone) × (get d.identifier
            (ingest haversine estimate now d spoof s).updated.state.drones
          ≡ some f)
        × (f.classification ≡ e.classification)
        × (f.trust_score ≡ (
            if (analyze haversine estimate now d spoof).score == 0
            then e.trust_score
            else (analyze haversine estimate now d spoof).score))
  unfolding ingest
  ingest_keeps_class now d e spoof s v n m g =
      let j = judged (analyze haversine estimate now d spoof) d in
      (
        update_existing now j e,
        get-refreshed haversine now j e s v n m g,
        refreshed-class now j e,
        refreshed-trust now j e,
      )
