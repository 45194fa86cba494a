-- ===== src/Processor/State/Calls.antt =====
-- Histories of calls of the state manager, internal/processor/state.go.
use skylens_azure.Common.{
  ℕ, ◌≡◌, refl, sym, ◌∙◌, Bytes, codes, same, Option, List, [], ◌∷◌, Bool, true, false, arith, inl,
  inr, Bool-cases, ◌||◌, Option-cases, All,
}
use skylens_azure.Common.Int.{ℤ}
use skylens_azure.Common.Maps.{Map, lookup, insert, delete}
use skylens_azure.Processor.Model.{Drone, Tap, RangeRing, EstimatedPosition}
use skylens_azure.Processor.Drones.{get, for_each_mut}
use skylens_azure.Processor.Drones.Refinement.{removed}
use skylens_azure.Processor.Drones.Placement.{new-IsStore, new-get}
use skylens_azure.Processor.Suspects.{DetectionConfig}
use skylens_azure.Processor.Merge.{lost}
use skylens_azure.Processor.State.{StateManager, update_drone, broadcast, new_state_manager}
use skylens_azure.Processor.State.Changes.{
  change_drone, change_silently, set_drone_tag, set_drone_classification, set_drone_hidden,
  hide_all_lost, hide_if_lost, unhide_all, update_drone_range_ring, with_ring,
  set_drone_estimated_position, clear_old_range_rings, update_tap, backfill_track_numbers,
}
use skylens_azure.Processor.State.Cleanup.{cleanup}
use skylens_azure.Processor.State.Candidates.{
  Sighting, update_suspect_candidate, promoted, promoted_with, enter_drone, promote_suspect,
  promote_suspect_with_confidence, confirm_suspect, confirmed, dismiss_suspect,
  check_remote_id_upgrade,
}
use skylens_azure.Processor.State.Resolution.{IsNumbered, IsState}
use skylens_azure.Processor.State.Numbers.{
  Within-IsNumbered, update_drone-IsState, put_drone-Within, removed-Within, for_each_mut-Within,
  none-ne,
}
use skylens_azure.Processor.State.Settling.{cleanup-IsState}
use skylens_azure.Processor.State.Backfill.{backfill_track_numbers-IsState}

pub data Call : Type 0 where
  detects : ℕ → Drone → Call
  tags : Bytes → Bytes → Call
  classifies : Bytes → Bytes → Call
  hides : Bytes → Bool → Call
  hides_lost : Call
  unhides : Call
  deletes : Bytes → Call
  cleans : ℕ → ℕ → ℕ → Call
  measures : ℕ → Bytes → RangeRing → Call
  estimates : Bytes → Option EstimatedPosition → Call
  clears_rings : ℕ → ℕ → Call
  beats : ℕ → Tap → Call
  sights : ℕ → Sighting → Call
  promotes : ℕ → Bytes → Bytes → Bytes → Call
  confirms : ℕ → Bytes → Call
  dismisses : Bytes → Call
  upgrades : Drone → Call
  backfills : Call

module _ (haversine : ℤ → ℤ → ℤ → ℤ → ℕ) (average : ℤ → ℤ → ℤ) (to_int32 : ℤ → ℤ)
    (first_tap : Map ℕ → Bytes) where
  unfoldable pub step : StateManager → Call → StateManager
  step s (detects now d) = (update_drone haversine now d s).state
  step s (tags id tag) = (set_drone_tag id tag s).0
  step s (classifies id c) = (set_drone_classification id c s).0
  step s (hides id b) = (set_drone_hidden id b s).0
  step s hides_lost = hide_all_lost s
  step s unhides = unhide_all s
  step s (deletes id) = record s { drones = removed id s.drones }
  step s (cleans threshold tap now) = cleanup threshold tap now s
  step s (measures now id ring) = (update_drone_range_ring now id ring s).0
  step s (estimates id p) = (set_drone_estimated_position id p s).0
  step s (clears_rings age now) = clear_old_range_rings age now s
  step s (beats now t) = update_tap now t s
  step s (sights now o) = (update_suspect_candidate average now o s).0
  step s (promotes now mac manufacturer model) =
      (promote_suspect to_int32 first_tap haversine now mac manufacturer model s).0
  step s (confirms now mac) = (confirm_suspect to_int32 first_tap haversine now mac s).0
  step s (dismisses mac) = dismiss_suspect mac s
  step s (upgrades d) = (check_remote_id_upgrade d s).0
  step s backfills = (backfill_track_numbers s).0

  unfoldable pub run : StateManager → List Call → StateManager
  unfolding step
  run s [] = s
  run s (c ∷ cs) = run (step s c) cs

-- A detection comes without a track number if it is a controller's: UpdateDrone gives it none.
abbrev pub Unnumbered : Call → Type 0
Unnumbered (detects now d) = d.is_controller ≡ true → d.track_number ≡ 0
Unnumbered c = Unit

change_drone-IsState :
    (f : Drone → Drone) (id : Bytes) (s : StateManager)
    → IsState s
    → ((d : Drone) → ((f d).identifier ≡ d.identifier) × ((f d).track_number ≡ d.track_number))
    → IsState (change_drone f id s).0
unfolding change_drone broadcast
change_drone-IsState f id s v same_core = elim (Option-cases (get id s.drones)) [
  | inl e ↦ rw (e, change_drone) v
  | inr (d, e) ↦
      rw (e, change_drone)
        (Within-IsNumbered s.drones _ s.next_track_num v
          (put_drone-Within id d (f d) s.drones v.store e (same_core d).0 (same_core d).1))
]

change_silently-IsState :
    (f : Drone → Drone) (id : Bytes) (s : StateManager)
    → IsState s
    → ((d : Drone) → ((f d).identifier ≡ d.identifier) × ((f d).track_number ≡ d.track_number))
    → IsState (change_silently f id s).0
unfolding change_silently
change_silently-IsState f id s v same_core = elim (Option-cases (get id s.drones)) [
  | inl e ↦ rw (e, change_silently) v
  | inr (d, e) ↦
      rw (e, change_silently)
        (Within-IsNumbered s.drones _ s.next_track_num v
          (put_drone-Within id d (f d) s.drones v.store e (same_core d).0 (same_core d).1))
]

all-IsState :
    (f : Drone → Drone) (s : StateManager)
    → IsState s
    → ((d : Drone) → ((f d).identifier ≡ d.identifier) × ((f d).track_number ≡ d.track_number))
    → IsNumbered (for_each_mut f s.drones) s.next_track_num
all-IsState f s v same_core =
    Within-IsNumbered s.drones _ s.next_track_num v
      (for_each_mut-Within f s.drones v.store same_core)

hide_if_lost-same :
    (d : Drone)
    → ((hide_if_lost d).identifier ≡ d.identifier)
      × ((hide_if_lost d).track_number ≡ d.track_number)
hide_if_lost-same d = elim (Bool-cases (same d.status lost || same d.contact_status lost)) [
  | inl e ↦ rw e (refl, refl)
  | inr e ↦ rw e (refl, refl)
]

module _ (haversine : ℤ → ℤ → ℤ → ℤ → ℕ) where
  enter_drone-IsState :
      (now : ℕ) (mac : Bytes) (d : Drone) (s : StateManager)
      → IsState s
      → d.is_controller ≡ false
      → IsState (enter_drone haversine now mac d s).0
  unfolding enter_drone broadcast
  enter_drone-IsState now mac d s v n =
      update_drone-IsState haversine now d
        (record s { suspect_candidates = delete mac s.suspect_candidates }) v (λ e. ground arith)

module _ (haversine : ℤ → ℤ → ℤ → ℤ → ℕ) (to_int32 : ℤ → ℤ) (first_tap : Map ℕ → Bytes) where
  promote_suspect-IsState :
      (now : ℕ) (mac manufacturer model : Bytes) (s : StateManager)
      → IsState s
      → IsState (promote_suspect to_int32 first_tap haversine now mac manufacturer model s).0
  unfolding promote_suspect promoted
  promote_suspect-IsState now mac manufacturer model s v =
      elim (Option-cases (lookup mac s.suspect_candidates)) [
        | inl e ↦ rw (e, promote_suspect) v
        | inr (c, e) ↦
            rw (e, promote_suspect)
              (enter_drone-IsState haversine now mac
                (promoted to_int32 first_tap mac manufacturer model c) s v refl)
      ]

  promote_with-IsState :
      (now : ℕ) (mac manufacturer model : Bytes) (confidence : ℕ) (source : Bytes)
      (s : StateManager)
      → IsState s
      → IsState
          (promote_suspect_with_confidence to_int32 first_tap haversine now mac manufacturer model
            confidence source s).0
  unfolding promote_suspect_with_confidence promoted_with
  promote_with-IsState now mac manufacturer model confidence source s v =
      elim (Option-cases (lookup mac s.suspect_candidates)) [
        | inl e ↦ rw (e, promote_suspect_with_confidence) v
        | inr (c, e) ↦
            rw (e, promote_suspect_with_confidence)
              (enter_drone-IsState haversine now mac
                (promoted_with to_int32 first_tap mac manufacturer model confidence source c) s v
                refl)
      ]

  confirm_suspect-IsState :
      (now : ℕ) (mac : Bytes) (s : StateManager)
      → IsState s
      → IsState (confirm_suspect to_int32 first_tap haversine now mac s).0
  unfolding confirm_suspect
  confirm_suspect-IsState now mac s v = elim (Option-cases (lookup mac s.suspect_candidates)) [
    | inl e ↦ rw (e, confirm_suspect) v
    | inr (c, e) ↦
        rw (e, confirm_suspect)
          (promote_with-IsState now mac (codes "UNKNOWN") (codes "Operator Confirmed") 34_000
            (codes "OPERATOR_CONFIRMED")
            (record s { suspect_candidates = insert mac (confirmed c) s.suspect_candidates }) v)
  ]

check_upgrade-IsState :
    (d : Drone) (s : StateManager) → IsState s → IsState (check_remote_id_upgrade d s).0
unfolding check_remote_id_upgrade
check_upgrade-IsState d s v = elim (Bool-cases (same d.mac_address [])) [
  | inl e ↦ rw e v
  | inr e ↦ elim (Option-cases (lookup d.mac_address s.suspect_candidates)) [
    | inl q ↦ rw (e, q) v
    | inr (c, q) ↦ rw (e, q) v
  ]
]

module _ (haversine : ℤ → ℤ → ℤ → ℤ → ℕ) (average : ℤ → ℤ → ℤ) (to_int32 : ℤ → ℤ)
    (first_tap : Map ℕ → Bytes) where
  step-IsState :
      (c : Call) (s : StateManager)
      → IsState s
      → Unnumbered c
      → IsState (step haversine average to_int32 first_tap s c)
  unfolding step set_drone_tag set_drone_classification set_drone_hidden hide_all_lost unhide_all
      update_drone_range_ring with_ring set_drone_estimated_position clear_old_range_rings
      update_tap update_suspect_candidate dismiss_suspect broadcast
  step-IsState (detects now d) s v h = update_drone-IsState haversine now d s v h
  step-IsState (tags id tag) s v h = change_drone-IsState _ id s v (λ d. (refl, refl))
  step-IsState (classifies id c) s v h = change_drone-IsState _ id s v (λ d. (refl, refl))
  step-IsState (hides id b) s v h = change_drone-IsState _ id s v (λ d. (refl, refl))
  step-IsState hides_lost s v h = all-IsState hide_if_lost s v hide_if_lost-same
  step-IsState unhides s v h = all-IsState _ s v (λ d. (refl, refl))
  step-IsState (deletes id) s v h =
      Within-IsNumbered s.drones _ s.next_track_num v (removed-Within id s.drones v.store)
  step-IsState (cleans threshold tap now) s v h = cleanup-IsState threshold tap now s v
  step-IsState (measures now id ring) s v h = change_silently-IsState _ id s v (λ d. (refl, refl))
  step-IsState (estimates id p) s v h = change_silently-IsState _ id s v (λ d. (refl, refl))
  step-IsState (clears_rings age now) s v h = all-IsState _ s v (λ d. (refl, refl))
  step-IsState (beats now t) s v h = v
  step-IsState (sights now o) s v h = v
  step-IsState (promotes now mac manufacturer model) s v h =
      promote_suspect-IsState haversine to_int32 first_tap now mac manufacturer model s v
  step-IsState (confirms now mac) s v h =
      confirm_suspect-IsState haversine to_int32 first_tap now mac s v
  step-IsState (dismisses mac) s v h = v
  step-IsState (upgrades d) s v h = check_upgrade-IsState d s v
  step-IsState backfills s v h = backfill_track_numbers-IsState s v

  pub run-IsNumbered :
      (cs : List Call) (s : StateManager)
      → IsState s
      → All Unnumbered cs
      → IsState (run haversine average to_int32 first_tap s cs)
  unfolding run
  run-IsNumbered [] s v h = v
  run-IsNumbered (c ∷ cs) s v (h, hs) = run-IsNumbered cs _ (step-IsState c s v h) hs

pub new-IsState :
    (cfg : DetectionConfig) (minutes : ℕ) (single_tap : Bool)
    → IsState (new_state_manager cfg minutes single_tap)
unfolding new_state_manager
new-IsState cfg minutes single_tap = record {
  store = new-IsStore;
  named = λ id e h. absurd (none-ne (sym (new-get id) ∙ h));
  numbered = λ id e h. absurd (none-ne (sym (new-get id) ∙ h));
  apart = λ id j e f h. absurd (none-ne (sym (new-get id) ∙ h));
}
