-- ===== src/Processor/Runs/LinkRuns.antt =====
-- Runs of internal/processor/controller_link.go, and its theorems at concrete drones.
use skylens_azure.Common.{
  ℕ, ◌≡◌, refl, Bytes, bytes_discrete, codes, none, some, List, [], ◌∷◌, Bool, true, false, arith,
  map, All, if◌then◌else◌,
}
use skylens_azure.Common.Int.{ℤ}
use skylens_azure.Common.Maps.{lookup, insert, delete}
use skylens_azure.Processor.Model.{Drone, no_drone}
use skylens_azure.Processor.Links.{
  Candidate, LinkState, values, controllers_of, uavs_of, all_candidates, score_link, candidates_for,
  sort, sort_rounds, pass, assign, establish, clear_unmatched, correlate, listed,
}
use skylens_azure.Processor.Links.Matching.{matching}
use skylens_azure.Processor.Links.Rounds.{is_settled, pairs, correlate_stable, correlate_one_to_one}
use skylens_azure.Processor.Links.Store.{Keyed, uav_of, or_else, partner, names, correlate-links}

abbrev drone : Bytes → Bytes → Bool → Drone
drone id tap is_controller = record no_drone {
  identifier = id;
  manufacturer = codes "DJI";
  tap_id = tap;
  status = codes "active";
  last_seen = 1_000;
  is_controller = is_controller;
}

abbrev drones : List Drone
drones =
    drone (codes "c1") (codes "TAP-1") true
    ∷ drone (codes "u1") (codes "TAP-2") false
    ∷ drone (codes "u2") (codes "TAP-1") false
    ∷ drone (codes "c2") (codes "TAP-3") true
    ∷ []

abbrev state : LinkState
state = record { drones = map (λ d. (d.identifier, d)) drones; controller_links = [] }

-- The test distance is always a kilometre.
abbrev far : ℤ → ℤ → ℤ → ℤ → ℕ
far _ _ _ _ = 1_000_000

abbrev candidates : List Candidate
candidates = all_candidates far (controllers_of 2_000 drones) (uavs_of 2_000 drones) 2_000

-- The first controller takes the UAV of its own TAP, the second the other one.
correlate_runs :
    map (λ p. p.1.uav_id) (correlate far 2_000 state).controller_links
    ≡ codes "u2" ∷ codes "u1" ∷ []
unfolding correlate values all_candidates candidates_for score_link sort sort_rounds pass assign
    establish clear_unmatched lookup insert delete bytes_discrete
correlate_runs = refl

state-Keyed : Keyed state
unfolding lookup
state-Keyed id l e = cc

correlate-links_example :
    let ctrls = controllers_of 2_000 (values state.drones) in
    let ms = matching (all_candidates far ctrls (uavs_of 2_000 (values state.drones)) 2_000) in
    uav_of (codes "c1") (correlate far 2_000 state)
    ≡ or_else
        (partner (codes "c1") ms)
        (if listed (codes "c1") (names ctrls) then none else uav_of (codes "c1") state)
unfolding values bytes_discrete
correlate-links_example =
    correlate-links far 2_000 state (codes "c1") state-Keyed (omega arith) (omega arith)

correlate_stable_example : All (λ c. is_settled far 2_000 state c ≡ true) (pairs far 2_000 state)
unfolding values bytes_discrete
correlate_stable_example = correlate_stable far 2_000 state state-Keyed (omega arith) (omega arith)

c1-linked : uav_of (codes "c1") (correlate far 2_000 state) ≡ some (codes "u2")
unfolding correlate values all_candidates candidates_for score_link sort sort_rounds pass assign
    establish clear_unmatched lookup insert delete bytes_discrete
c1-linked = refl

c1-active : listed (codes "c1") (names (controllers_of 2_000 (values state.drones))) ≡ true
unfolding values bytes_discrete
c1-active = refl

correlate_one_to_one_example : codes "c1" ≡ codes "c1"
unfolding values bytes_discrete
correlate_one_to_one_example =
    correlate_one_to_one far 2_000 state (codes "c1") (codes "c1") (codes "u2") state-Keyed
      (omega arith) (omega arith) c1-active c1-active c1-linked c1-linked
