-- ===== src/Processor/Links/Store.antt =====
-- The links that a round of internal/processor/controller_link.go leaves in the store.
use skylens_azure.Common.{
  ℕ, ◌≤◌, ◌≡◌, refl, ap, ◌∙◌, Bytes, same, same→eq, Option, none, some, List, [], ◌∷◌, Bool, false,
  ◌==◌, ◌&&◌, ◌||◌, if◌then◌else◌, map, arith, Bool-cases, inl, inr, length, Option-cases, is_some,
  not,
}
use skylens_azure.Common.Int.{ℤ}
use skylens_azure.Common.Maps.{lookup, lookup-insert, lookup-delete}
use skylens_azure.Processor.Model.{Drone}
use skylens_azure.Processor.Links.{
  ControllerLink, LinkState, Candidate, Assigned, values, controllers_of, uavs_of, all_candidates,
  sort, new_link, establish, listed, is_claimed, assign, clear_unmatched, clear_link, no_claims,
  correlate,
}
use skylens_azure.Processor.Links.Matching.{matched, matching}

-- A link stands under its own controller's name.
abbrev pub Keyed : LinkState → Type 0
Keyed st =
    (id : Bytes) (l : ControllerLink)
    → lookup id st.controller_links ≡ some l
    → l.controller_id ≡ id

abbrev pub linked_uav : Option ControllerLink → Option Bytes
linked_uav none = none
linked_uav (some l) = some l.uav_id

abbrev pub uav_of : Bytes → LinkState → Option Bytes
uav_of ctrl st = linked_uav (lookup ctrl st.controller_links)

-- A claimed candidate links its controller to its UAV, and touches no other controller's link.
uav_of-establish :
    (c : Candidate) (now : ℕ) (st : LinkState) (k : Bytes)
    → Keyed st
    → uav_of k (establish c now st)
      ≡ (if same c.ctrl.identifier k then some c.uav.identifier else uav_of k st)
unfolding establish
uav_of-establish c now st k v = elim (Option-cases (lookup c.ctrl.identifier st.controller_links)) [
  | inl e ↦
      rw e (ground (arith, lookup-insert c.ctrl.identifier k (new_link c now) st.controller_links))
  | inr (l, e) ↦ rw e (
      ground (
        arith,
        v c.ctrl.identifier l e,
        same→eq l.uav_id c.uav.identifier,
        lookup-insert c.ctrl.identifier k (new_link c now) st.controller_links,
        lookup-insert l.controller_id k (record l { last_updated = now }) st.controller_links,
      ))
]

establish-Keyed : (c : Candidate) (now : ℕ) (st : LinkState) → Keyed st → Keyed (establish c now st)
unfolding establish
establish-Keyed c now st v id l e =
    elim (Option-cases (lookup c.ctrl.identifier st.controller_links)) [
      | inl n ↦
          let e' = rw n at e in
          ground
            (arith, v id l, lookup-insert c.ctrl.identifier id (new_link c now) st.controller_links)
      | inr (m, f) ↦
          let e' = rw f at e in
          ground (
            arith,
            v id l,
            lookup-insert c.ctrl.identifier id (new_link c now) st.controller_links,
            lookup-insert m.controller_id id (record m { last_updated = now }) st.controller_links,
          )
    ]

abbrev pub or_else : Option Bytes → Option Bytes → Option Bytes
or_else none d = d
or_else (some u) d = some u

-- The UAV that a list of candidates gives to the controller.
abbrev pub partner : Bytes → List Candidate → Option Bytes
partner k [] = none
partner k (c ∷ cs) =
    or_else (partner k cs) (if same c.ctrl.identifier k then some c.uav.identifier else none)

abbrev claim : Candidate → ℕ → Assigned → Assigned
claim c now a = record {
  claimed_uavs = c.uav.identifier ∷ a.claimed_uavs;
  claimed_ctrls = c.ctrl.identifier ∷ a.claimed_ctrls;
  state = establish c now a.state;
}

or_else-if :
    (o d : Option Bytes) (b : Bool) (u : Bytes)
    → or_else o (if b then some u else d) ≡ or_else (or_else o (if b then some u else none)) d
or_else-if none d b u = ground arith
or_else-if (some v) d b u = refl

uav_of-assign :
    (cs : List Candidate) (now : ℕ) (a : Assigned) (k : Bytes)
    → Keyed a.state
    → uav_of k (assign now cs a).state
      ≡ or_else (partner k (matched cs a.claimed_uavs a.claimed_ctrls)) (uav_of k a.state)
unfolding assign
uav_of-assign [] now a k v = refl
uav_of-assign (c ∷ cs) now a k v = elim (Bool-cases (is_claimed c a.claimed_uavs a.claimed_ctrls)) [
  | inl e ↦ rw (e, assign) (uav_of-assign cs now a k v)
  | inr e ↦
      let ms =
        matched cs (c.uav.identifier ∷ a.claimed_uavs) (c.ctrl.identifier ∷ a.claimed_ctrls) in
      rw (e, assign)
        (uav_of-assign cs now (claim c now a) k (establish-Keyed c now a.state v)
          ∙ ap (or_else (partner k ms)) (uav_of-establish c now a.state k v)
          ∙ or_else-if (partner k ms) (uav_of k a.state) (same c.ctrl.identifier k)
              c.uav.identifier)
]

assign-Keyed :
    (cs : List Candidate) (now : ℕ) (a : Assigned) → Keyed a.state → Keyed (assign now cs a).state
unfolding assign
assign-Keyed [] now a v = v
assign-Keyed (c ∷ cs) now a v = elim (Bool-cases (is_claimed c a.claimed_uavs a.claimed_ctrls)) [
  | inl e ↦ rw (e, assign) (assign-Keyed cs now a v)
  | inr e ↦ rw (e, assign) (assign-Keyed cs now (claim c now a) (establish-Keyed c now a.state v))
]

claimed-assign :
    (cs : List Candidate) (now : ℕ) (a : Assigned) (k : Bytes)
    → listed k (assign now cs a).claimed_ctrls ≡ (
        listed k a.claimed_ctrls || is_some (partner k (matched cs a.claimed_uavs a.claimed_ctrls)))
unfolding assign
claimed-assign [] now a k = ground arith
claimed-assign (c ∷ cs) now a k = elim (Bool-cases (is_claimed c a.claimed_uavs a.claimed_ctrls)) [
  | inl e ↦ rw (e, assign) (claimed-assign cs now a k)
  | inr e ↦ rw (e, assign) (ground (arith, claimed-assign cs now (claim c now a) k))
]

uav_of-clear_link :
    (ctrl : Drone) (st : LinkState) (k : Bytes)
    → uav_of k (clear_link ctrl st (lookup ctrl.identifier st.controller_links))
      ≡ (if same ctrl.identifier k then none else uav_of k st)
uav_of-clear_link ctrl st k = elim (Option-cases (lookup ctrl.identifier st.controller_links)) [
  | inl e ↦ rw e (ground (arith, same→eq ctrl.identifier k))
  | inr (l, e) ↦ rw e (ground (arith, lookup-delete ctrl.identifier k st.controller_links))
]

abbrev pub names : List Drone → List Bytes
names = map (λ d. d.identifier)

uav_of-clear_unmatched :
    (ctrls : List Drone) (claimed : List Bytes) (st : LinkState) (k : Bytes)
    → uav_of k (clear_unmatched ctrls claimed st)
      ≡ (if listed k (names ctrls) && not (listed k claimed) then none else uav_of k st)
unfolding clear_unmatched
uav_of-clear_unmatched [] claimed st k = refl
uav_of-clear_unmatched (c ∷ cs) claimed st k = elim (Bool-cases (listed c.identifier claimed)) [
  | inl e ↦
      rw (e, clear_unmatched)
        (ground (arith, same→eq c.identifier k, uav_of-clear_unmatched cs claimed st k))
  | inr e ↦
      let st' = clear_link c st (lookup c.identifier st.controller_links) in
      rw (e, clear_unmatched)
        (ground (
          arith,
          same→eq c.identifier k,
          uav_of-clear_unmatched cs claimed st' k,
          uav_of-clear_link c st k,
        ))
]

-- In a state whose links stand under their controllers' names, and with a controller and a UAV active,
-- a round leaves every controller exactly one link or none: the matched ones their partner's, the
-- other active ones none, and the inactive ones the link they had.
pub correlate-links :
    (haversine : ℤ → ℤ → ℤ → ℤ → ℕ) (now : ℕ) (st : LinkState) (k : Bytes)
    → Keyed st
    → 1 ≤ length (controllers_of now (values st.drones))
    → 1 ≤ length (uavs_of now (values st.drones))
    → let ctrls = controllers_of now (values st.drones) in
      let ms = matching (all_candidates haversine ctrls (uavs_of now (values st.drones)) now) in
      uav_of k (correlate haversine now st)
      ≡ or_else (partner k ms) (if listed k (names ctrls) then none else uav_of k st)
unfolding correlate
correlate-links haversine now st k v hc hu =
    let ctrls = controllers_of now (values st.drones) in
    let cs = sort (all_candidates haversine ctrls (uavs_of now (values st.drones)) now) in
    let a = assign now cs (no_claims st) in
    let active : (length ctrls == 0 || length (uavs_of now (values st.drones)) == 0) ≡ false =
      ground arith in
    rw active (
      ground (
        arith,
        uav_of-clear_unmatched ctrls a.claimed_ctrls a.state k,
        uav_of-assign cs now (no_claims st) k v,
        claimed-assign cs now (no_claims st) k,
      ))
