-- ===== src/Processor/Suspects/Promotion.antt =====
-- When internal/processor/suspect_correlator.go promotes a suspect, and with which confidence.
use skylens_azure.Common.{
  ℕ, ◌-◌, ◌≤◌, ◌≡◌, refl, sym, subst, Bytes, bytes_discrete, Option, none, some, List, [], ◌∷◌,
  Bool, true, false, leb, ◌&&◌, ◌||◌, if◌then◌else◌, length, arith, All, ◌≢◌, ◌⊎◌, subst₂,
}
use skylens_azure.Common.Maps.{Map, lookup, insert, lookup-insert, Unique, insert-Unique}
use skylens_azure.Processor.Model.{SuspectCandidate}
use skylens_azure.Processor.Suspects.{
  TapObservation, CorrelationWindow, DetectionConfig, SuspectCorrelator, Observation,
  PromotionReason, promotion_none, multi_tap, single_tap_mobility, single_tap_observation,
  operator_confirmed, min_obs, min_span, min_mob, open_window, count_active_taps, observed,
  evaluate, add_observation_with_candidate,
}
use skylens_azure.Processor.Suspects.Window.{Call, run}

-- The three ways to promotion from a single TAP.
abbrev pub moves : DetectionConfig → SuspectCandidate → Bool
moves cfg c = c.is_likely_mobile && leb (min_mob cfg) c.mobility_score && leb 3 c.observations

abbrev pub persists : DetectionConfig → SuspectCandidate → Bool
persists cfg c =
    leb (min_obs cfg) c.observations
    && leb (min_span cfg) (c.last_seen - c.first_seen)
    && (leb 3_000 c.mobility_score || leb 80_000 c.rssi_variance)

abbrev pub single_tap_reason : DetectionConfig → SuspectCandidate → PromotionReason
single_tap_reason cfg c =
    if c.manually_confirmed
    then operator_confirmed
    else if moves cfg c
    then single_tap_mobility
    else if persists cfg c
    then single_tap_observation
    else promotion_none

abbrev pub candidate_reason : Bool → DetectionConfig → Option SuspectCandidate → PromotionReason
candidate_reason mode cfg none = promotion_none
candidate_reason mode cfg (some c) = if mode then single_tap_reason cfg c else promotion_none

abbrev pub reason_of :
    SuspectCorrelator → DetectionConfig → Option SuspectCandidate → ℕ → PromotionReason
reason_of sc cfg candidate active =
    if leb sc.min_taps_required active
    then multi_tap
    else candidate_reason sc.single_tap_mode cfg candidate

abbrev pub is_promotion : PromotionReason → Bool
is_promotion promotion_none = false
is_promotion _ = true

-- The greatest confidence of each kind of promotion, and the base confidence where there is none.
abbrev pub greatest : PromotionReason → ℕ → ℕ
greatest promotion_none base = base
greatest multi_tap base = 38_000
greatest single_tap_mobility base = 32_000
greatest single_tap_observation base = 30_000
greatest operator_confirmed base = 34_000

-- The reason of a result is the first that applies of: enough TAPs; and in single-TAP mode, with a
-- candidate, the operator's word, mobility, and persistence. The result is confirmed exactly when
-- there is a reason, reports the number of TAPs, and its confidence stays within the reason's cap.
pub evaluate_reason :
    (sc : SuspectCorrelator) (cfg : DetectionConfig) (base : ℕ)
    (candidate : Option SuspectCandidate) (active : ℕ)
    → let r = evaluate sc cfg base candidate active in
      (r.reason ≡ reason_of sc cfg candidate active)
      × (r.confirmed ≡ is_promotion (reason_of sc cfg candidate active))
      × (r.taps_count ≡ active)
      × (r.combined_confidence ≤ greatest (reason_of sc cfg candidate active) base)
unfolding evaluate
evaluate_reason sc cfg base none active = ground arith
evaluate_reason sc cfg base (some c) active =
    (ground arith, ground arith, ground arith, ground arith)

-- Every entry is the TAP's.
abbrev Only : Bytes → Map TapObservation → Type 0
Only tap [] = Unit
Only tap ((j, o) ∷ m) = (j ≡ tap) × Only tap m

insert-Only :
    (tap : Bytes) (o : TapObservation) (m : Map TapObservation)
    → Only tap m
    → Only tap (insert tap o m)
unfolding insert
insert-Only tap o [] h = (refl, tt)
insert-Only tap o ((j, p) ∷ m) (e, h) = ground (arith, insert-Only tap o m h)

count_active_taps-le : (d now : ℕ) (m : Map TapObservation) → count_active_taps d now m ≤ length m
unfolding count_active_taps
count_active_taps-le d now [] = omega arith
count_active_taps-le d now ((j, o) ∷ m) = ground (arith, count_active_taps-le d now m)

length-Only : (tap : Bytes) (m : Map TapObservation) → Only tap m → Unique m → length m ≤ 1
length-Only tap [] h u = omega arith
length-Only tap ((j, o) ∷ []) h u = omega arith
length-Only tap ((j, o) ∷ (k, p) ∷ m) (e, (f, h)) ((n, a), u) = absurd (n (ground arith))

abbrev OneTap : Bytes → Option CorrelationWindow → Type 0
OneTap tap none = Unit
OneTap tap (some w) = Unique w.tap_obs × Only tap w.tap_obs

-- Every report of the MAC comes from the TAP.
abbrev pub OnlyFrom : Bytes → Bytes → List Call → Type 0
OnlyFrom mac tap = All (λ c. (c.obs.mac ≢ mac) ⊎ (c.obs.tap_id ≡ tap))

open_window-OneTap :
    (d at : ℕ) (mac tap : Bytes) (o : Option CorrelationWindow)
    → OneTap tap o
    → OneTap tap (some (open_window d mac at o))
unfolding open_window
open_window-OneTap d at mac tap none h = (tt, tt)
open_window-OneTap d at mac tap (some w) h = ground arith

observed-OneTap :
    (sc : SuspectCorrelator) (o : Observation)
    → OneTap o.tap_id (lookup o.mac sc.observations)
    → OneTap o.tap_id (some (observed sc o))
unfolding observed
observed-OneTap sc o h =
    let (u, only) = open_window-OneTap sc.window_duration o.now o.mac o.tap_id _ h in
    (insert-Unique o.tap_id _ _ u, insert-Only o.tap_id _ _ only)

run-OneTap :
    (sc : SuspectCorrelator) (mac tap : Bytes) (h : List Call)
    → sc.observations ≡ []
    → OnlyFrom mac tap h
    → OneTap tap (lookup mac (run sc h).observations)
unfolding add_observation_with_candidate
run-OneTap sc mac tap [] n f = rw n (unfold lookup in tt)
run-OneTap sc mac tap (c ∷ h) n (f, fs) =
    let before = run sc h in
    let ih = run-OneTap sc mac tap h n fs in
    let new = observed before c.obs in
    let put = lookup-insert c.obs.mac mac new before.observations in
    elim (bytes_discrete c.obs.mac mac) [
      | yes e ↦
          let here : lookup mac (insert c.obs.mac new before.observations) ≡ some new =
            ground (arith, put) in
          let t : c.obs.tap_id ≡ tap = ground (arith, f) in
          subst (OneTap tap) (sym here) (
            subst (λ x. OneTap x (some new)) t
              (observed-OneTap before c.obs
                (subst₂ (λ x y. OneTap x (lookup y before.observations)) (sym t) (sym e) ih)))
      | no ne ↦
          let there : lookup mac (insert c.obs.mac new before.observations)
              ≡ lookup mac before.observations =
            ground (arith, put) in
          subst (OneTap tap) (sym there) ih
    ]

run-min_taps :
    (sc : SuspectCorrelator) (h : List Call) → (run sc h).min_taps_required ≡ sc.min_taps_required
unfolding add_observation_with_candidate
run-min_taps sc [] = refl
run-min_taps sc (c ∷ h) = run-min_taps sc h

evaluate_few :
    (sc : SuspectCorrelator) (cfg : DetectionConfig) (base : ℕ)
    (candidate : Option SuspectCandidate) (active : ℕ)
    → active ≤ 1
    → 2 ≤ sc.min_taps_required
    → ((evaluate sc cfg base candidate active).taps_count ≤ 1)
      × ((evaluate sc cfg base candidate active).reason ≢ multi_tap)
evaluate_few sc cfg base candidate active few two =
    let (reason, _, taps, _) = evaluate_reason sc cfg base candidate active in
    (omega (arith, taps), λ e. ground (arith, reason, e))

-- As long as a single TAP reports a MAC, however often, it counts as one TAP at most; so where two TAPs
-- are required the reason of a promotion is never the correlation of several.
single_tap-ne-multi_tap :
    (sc : SuspectCorrelator) (h : List Call) (c : Call)
    → sc.observations ≡ []
    → OnlyFrom c.obs.mac c.obs.tap_id h
    → 2 ≤ sc.min_taps_required
    → let r = (add_observation_with_candidate (run sc h) c.obs c.base c.candidate c.config).1 in
      (r.taps_count ≤ 1) × (r.reason ≢ multi_tap)
unfolding add_observation_with_candidate
single_tap-ne-multi_tap sc h c n f two =
    let before = run sc h in
    let w = observed before c.obs in
    let (u, only) = observed-OneTap before c.obs (run-OneTap sc c.obs.mac c.obs.tap_id h n f) in
    evaluate_few before c.config c.base c.candidate
      (count_active_taps before.window_duration c.obs.now w.tap_obs)
      (omega (
        arith,
        count_active_taps-le before.window_duration c.obs.now w.tap_obs,
        length-Only c.obs.tap_id w.tap_obs only u,
      ))
      (omega (arith, run-min_taps sc h))
