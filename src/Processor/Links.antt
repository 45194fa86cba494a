-- ===== src/Processor/Links.antt =====
-- The controller correlator of internal/processor/controller_link.go, with the link store of
-- internal/processor/state.go. Scores are hundredths, in which the source's float64 sums and their
-- test against 0.4 are exact; times are nanoseconds, coordinates units of 1e-7 degrees, and the
-- great-circle distance, a float computation, is an argument in millimetres.
pub mod Sorting
pub mod Matching
pub mod Store
pub mod Rounds
use skylens_azure.Common.{
  ℕ, zero, suc, ◌+◌, Bytes, codes, same, Option, none, some, List, [], ◌∷◌, ◌++◌, Bool, true, false,
  ltb, leb, ◌==◌, ◌&&◌, ◌||◌, not, if◌then◌else◌, length, keep, any,
}
use skylens_azure.Common.Int.{ℤ, is_zero}
use skylens_azure.Common.Maps.{Map, lookup, insert, delete}
use skylens_azure.Processor.Model.{Drone}

pub record ControllerLink : Type 0 where
  pub controller_id : Bytes
  pub uav_id : Bytes
  pub confidence : ℕ
  pub last_updated : ℕ
  pub method : Bytes

-- The part of StateManager that the correlator uses.
pub record LinkState : Type 0 where
  pub drones : Map Drone
  pub controller_links : Map ControllerLink

pub record Candidate : Type 0 where
  pub ctrl : Drone
  pub uav : Drone
  pub score : ℕ
  pub method : Bytes

abbrev pub is_empty : Bytes → Bool
is_empty [] = true
is_empty (x ∷ xs) = false

-- A score and the name of how it came about.
abbrev add_if : Bool → ℕ → Bytes → ℕ × Bytes → ℕ × Bytes
add_if b n name (score, method) = if b then (score + n, method ++ name) else (score, method)

-- One activity window: a minute.
abbrev pub active_window : ℕ
active_window = 60_000_000_000

abbrev pub is_recent : ℕ → Drone → Bool
is_recent now d = not (same d.status (codes "lost")) && leb now (d.last_seen + active_window)

unfoldable pub values : Map Drone → List Drone
values [] = []
values ((id, d) ∷ m) = d ∷ values m

abbrev pub controllers_of : ℕ → List Drone → List Drone
controllers_of now = keep (λ d. is_recent now d && d.is_controller)

abbrev pub uavs_of : ℕ → List Drone → List Drone
uavs_of now = keep (λ d. is_recent now d && not d.is_controller)

abbrev distance_score : ℕ → ℕ × Bytes → ℕ × Bytes
distance_score dist s =
    if ltb dist 500_000
    then add_if true 30 (codes "+operator_proximity") s
    else add_if (ltb dist 2_000_000) 10 (codes "+operator_nearby") s

module _ (haversine : ℤ → ℤ → ℤ → ℤ → ℕ) where
  -- What the operator's position in the UAV's broadcast adds.
  abbrev operator_score : Drone → Drone → ℕ × Bytes → ℕ × Bytes
  operator_score ctrl uav s =
      if not (is_zero uav.operator_latitude) && not (is_zero uav.operator_longitude)
      then if not (is_zero ctrl.latitude) && not (is_zero ctrl.longitude)
        then distance_score
            (haversine ctrl.latitude ctrl.longitude uav.operator_latitude uav.operator_longitude) s
        else add_if (ltb 0 ctrl.distance_est) 10 (codes "+operator_exists") s
      else s

  unfoldable pub score_link : Drone → Drone → ℕ → ℕ × Bytes
  score_link ctrl uav now =
      if not (same ctrl.manufacturer uav.manufacturer)
      then (0, [])
      else if is_empty ctrl.manufacturer
      then (0, [])
      else operator_score ctrl uav (
          add_if
            (ltb now (ctrl.last_seen + 30_000_000_000) && ltb now (uav.last_seen + 30_000_000_000))
            15 (codes "+temporal")
            (add_if (same ctrl.tap_id uav.tap_id && not (is_empty ctrl.tap_id)) 20 (codes "+tap")
              (25, codes "manufacturer")))

  -- The candidates of one controller, and of all.
  unfoldable pub candidates_for : Drone → List Drone → ℕ → List Candidate
  unfolding score_link
  candidates_for ctrl [] now = []
  candidates_for ctrl (uav ∷ uavs) now =
      let (score, method) = score_link ctrl uav now in
      let rest = candidates_for ctrl uavs now in
      if leb 40 score
      then record { ctrl = ctrl; uav = uav; score = score; method = method } ∷ rest
      else rest

  unfoldable pub all_candidates : List Drone → List Drone → ℕ → List Candidate
  unfolding candidates_for
  all_candidates [] uavs now = []
  all_candidates (ctrl ∷ ctrls) uavs now =
      candidates_for ctrl uavs now ++ all_candidates ctrls uavs now

-- The inner loop of the sort: `x` is the candidate at place i, and the places behind it follow.
unfoldable pub pass : Candidate → List Candidate → Candidate × List Candidate
pass x [] = (x, [])
pass x (y ∷ ys) =
    let (best, rest) = pass (if ltb x.score y.score then y else x) ys in
    (best, (if ltb x.score y.score then x else y) ∷ rest)

-- The outer loop: one round for each place.
unfoldable pub sort_rounds : ℕ → List Candidate → List Candidate
unfolding pass
sort_rounds zero xs = xs
sort_rounds (suc n) [] = []
sort_rounds (suc n) (x ∷ xs) = let (best, rest) = pass x xs in best ∷ sort_rounds n rest

unfoldable pub sort : List Candidate → List Candidate
unfolding sort_rounds
sort xs = sort_rounds (length xs) xs

abbrev pub update_drone_field : Bytes → (Drone → Drone) → Map Drone → Map Drone
update_drone_field id f m = elim (lookup id m) [ none ↦ m | some d ↦ insert id (f d) m ]

abbrev pub get_controller_link_by_controller : Bytes → LinkState → Option ControllerLink
get_controller_link_by_controller id st = lookup id st.controller_links

abbrev pub set_controller_link : ControllerLink → LinkState → LinkState
set_controller_link link st = record st {
  controller_links = insert link.controller_id link st.controller_links;
}

abbrev pub new_link : Candidate → ℕ → ControllerLink
new_link c now = record {
  controller_id = c.ctrl.identifier;
  uav_id = c.uav.identifier;
  confidence = c.score;
  last_updated = now;
  method = c.method;
}

abbrev link_both : Candidate → ℕ → LinkState → LinkState
link_both c now st =
    let linked = set_controller_link (new_link c now) st in
    record linked {
      drones =
          update_drone_field c.uav.identifier
            (λ d. record d { linked_controller_id = c.ctrl.identifier })
            (update_drone_field c.ctrl.identifier
              (λ d. record d { linked_uav_id = c.uav.identifier }) linked.drones);
    }

abbrev refresh_or_link : Candidate → ℕ → LinkState → Option ControllerLink → LinkState
refresh_or_link c now st none = link_both c now st
refresh_or_link c now st (some existing) =
    if same existing.uav_id c.uav.identifier && leb c.score existing.confidence
    then set_controller_link (record existing { last_updated = now }) st
    else link_both c now st

-- What one claimed candidate does to the state.
unfoldable pub establish : Candidate → ℕ → LinkState → LinkState
establish c now st =
    refresh_or_link c now st (get_controller_link_by_controller c.ctrl.identifier st)

abbrev pub listed : Bytes → List Bytes → Bool
listed id = any (λ x. same x id)

pub record Assigned : Type 0 where
  pub claimed_uavs : List Bytes
  pub claimed_ctrls : List Bytes
  pub state : LinkState

abbrev pub is_claimed : Candidate → List Bytes → List Bytes → Bool
is_claimed c uavs ctrls = listed c.uav.identifier uavs || listed c.ctrl.identifier ctrls

-- The greedy loop over the sorted candidates.
unfoldable pub assign : ℕ → List Candidate → Assigned → Assigned
unfolding establish
assign now [] a = a
assign now (c ∷ cs) a = assign now cs (
    if is_claimed c a.claimed_uavs a.claimed_ctrls then a else record {
      claimed_uavs = c.uav.identifier ∷ a.claimed_uavs;
      claimed_ctrls = c.ctrl.identifier ∷ a.claimed_ctrls;
      state = establish c now a.state;
    })

abbrev pub clear_link : Drone → LinkState → Option ControllerLink → LinkState
clear_link ctrl st none = st
clear_link ctrl st (some existing) = record {
  controller_links = delete ctrl.identifier st.controller_links;
  drones = update_drone_field ctrl.identifier (λ d. record d { linked_uav_id = [] }) st.drones;
}

-- The last loop: controllers that were not matched lose their links.
unfoldable pub clear_unmatched : List Drone → List Bytes → LinkState → LinkState
clear_unmatched [] claimed st = st
clear_unmatched (ctrl ∷ ctrls) claimed st = clear_unmatched ctrls claimed (
    if listed ctrl.identifier claimed
    then st
    else clear_link ctrl st (get_controller_link_by_controller ctrl.identifier st))

abbrev pub no_claims : LinkState → Assigned
no_claims st = record { claimed_uavs = []; claimed_ctrls = []; state = st }

unfoldable pub correlate : (ℤ → ℤ → ℤ → ℤ → ℕ) → ℕ → LinkState → LinkState
unfolding all_candidates sort assign clear_unmatched values
correlate haversine now st =
    let ctrls = controllers_of now (values st.drones) in
    let uavs = uavs_of now (values st.drones) in
    if length ctrls == 0 || length uavs == 0
    then st
    else let a = assign now (sort (all_candidates haversine ctrls uavs now)) (no_claims st) in
      clear_unmatched ctrls a.claimed_ctrls a.state
