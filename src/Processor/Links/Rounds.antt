-- ===== src/Processor/Links/Rounds.antt =====
-- A round of internal/processor/controller_link.go as a matching that the links of the store show.
use skylens_azure.Common.{
  ℕ, ◌≤◌, ◌≡◌, ◌≢◌, refl, sym, ◌∙◌, Bytes, same, same→eq, same_refl, Option, none, some, List, [],
  ◌∷◌, Bool, true, false, leb, ◌&&◌, ◌||◌, if◌then◌else◌, arith, Bool-cases, Option-cases, inl, inr,
  length, any, All,
}
use skylens_azure.Common.Int.{ℤ}
use skylens_azure.Processor.Links.{
  LinkState, Candidate, values, controllers_of, uavs_of, all_candidates, sort, listed, is_claimed,
  correlate,
}
use skylens_azure.Processor.Links.Matching.{
  matched, matching, OneToOne, All-map, has_rival, matching_stable,
}
use skylens_azure.Processor.Links.Sorting.{any-sort, All-sort}
use skylens_azure.Processor.Links.Store.{Keyed, uav_of, or_else, partner, names, correlate-links}

-- A candidate that the store links.
abbrev pub names_uav : Bytes → Option Bytes → Bool
names_uav uav none = false
names_uav uav (some u) = same u uav

abbrev pub is_linked : LinkState → Candidate → Bool
is_linked st d = names_uav d.uav.identifier (uav_of d.ctrl.identifier st)

-- A rival of `c`: a candidate for the same UAV or the same controller at no smaller score.
abbrev pub is_rival : Candidate → Candidate → Bool
is_rival c d =
    (same d.uav.identifier c.uav.identifier || same d.ctrl.identifier c.ctrl.identifier)
    && leb c.score d.score

any-matched :
    (f : Candidate → Bool) (cs : List Candidate) (uavs ctrls : List Bytes)
    → any f (matched cs uavs ctrls) ≡ true
    → any f cs ≡ true
any-matched f [] uavs ctrls h = h
any-matched f (c ∷ cs) uavs ctrls h = elim (Bool-cases (is_claimed c uavs ctrls)) [
  | inl e ↦ let h' = rw e at h in ground (arith, any-matched f cs uavs ctrls h')
  | inr e ↦
      let h' = rw e at h in
      ground (arith, h', any-matched f cs (c.uav.identifier ∷ uavs) (c.ctrl.identifier ∷ ctrls))
]

partner-none :
    (k : Bytes) (cs : List Candidate) → All (λ d. d.ctrl.identifier ≢ k) cs → partner k cs ≡ none
partner-none k [] h = refl
partner-none k (c ∷ cs) (n, h) = ground (arith, partner-none k cs h, same→eq c.ctrl.identifier k, n)

All-partner :
    (ms : List Candidate)
    → OneToOne ms
    → All (λ d. partner d.ctrl.identifier ms ≡ some d.uav.identifier) ms
All-partner [] h = tt
All-partner (c ∷ cs) (apart, h) = (
  ground (
    arith,
    same_refl c.ctrl.identifier,
    partner-none c.ctrl.identifier cs (
        All-map
          (λ d. (d.uav.identifier ≢ c.uav.identifier) × (d.ctrl.identifier ≢ c.ctrl.identifier))
          (λ d. d.ctrl.identifier ≢ c.ctrl.identifier) (λ d b. b.1) cs apart),
  ),
  All-map (λ d. partner d.ctrl.identifier cs ≡ some d.uav.identifier)
      (λ d. partner d.ctrl.identifier (c ∷ cs) ≡ some d.uav.identifier) (λ d e. rw e refl) cs
      (All-partner cs h),
)

any-both :
    (f g : Candidate → Bool) (ms : List Candidate)
    → All (λ d. f d ≡ true) ms
    → any g ms ≡ true
    → any (λ d. f d && g d) ms ≡ true
any-both f g [] h e = e
any-both f g (d ∷ ms) (p, h) e = ground (arith, p, any-both f g ms h)

partner-ne :
    (x k : Bytes) (cs : List Candidate) → All (λ d. d.uav.identifier ≢ x) cs → partner k cs ≢ some x
partner-ne x k [] h = λ e. absurd cc
partner-ne x k (c ∷ cs) (n, h) = λ e. elim (Option-cases (partner k cs)) [
  | inl q ↦ n (ground (arith, q, e))
  | inr (u, q) ↦ partner-ne x k cs h (ground (arith, q, e))
]

partner_injective :
    (k j u : Bytes) (ms : List Candidate)
    → OneToOne ms
    → partner k ms ≡ some u
    → partner j ms ≡ some u
    → k ≡ j
partner_injective k j u [] h p q = absurd cc
partner_injective k j u (c ∷ cs) (apart, h) p q =
    let other : All (λ d. d.uav.identifier ≢ c.uav.identifier) cs =
      All-map (λ d. (d.uav.identifier ≢ c.uav.identifier) × (d.ctrl.identifier ≢ c.ctrl.identifier))
        (λ d. d.uav.identifier ≢ c.uav.identifier) (λ d b. b.0) cs apart in
    elim (Option-cases (partner k cs)) [
      | inl a ↦ elim (Option-cases (partner j cs)) [
        | inl b ↦
            ground (arith, a, b, p, q, same→eq c.ctrl.identifier k, same→eq c.ctrl.identifier j)
        | inr (v, b) ↦ absurd (partner-ne c.uav.identifier j cs other (ground (arith, a, b, p, q)))
      ]
      | inr (w, a) ↦ elim (Option-cases (partner j cs)) [
        | inl b ↦ absurd (partner-ne c.uav.identifier k cs other (ground (arith, a, b, p, q)))
        | inr (v, b) ↦ partner_injective k j u cs h (ground (arith, a, p)) (ground (arith, b, q))
      ]
    ]

only_partner :
    (o d : Option Bytes) (active : Bool) (u : Bytes)
    → active ≡ true
    → or_else o (if active then none else d) ≡ some u
    → o ≡ some u
only_partner none d active u a e = absurd (ground (arith, a, e))
only_partner (some x) d active u a e = e

module _ (haversine : ℤ → ℤ → ℤ → ℤ → ℕ) (now : ℕ) (st : LinkState) where
  -- The candidate pairs of the round.
  abbrev pub pairs : List Candidate
  pairs =
      all_candidates haversine (controllers_of now (values st.drones))
        (uavs_of now (values st.drones)) now

  -- A candidate is linked after the round, or one that is has the same controller or UAV and no smaller
  -- score.
  abbrev pub is_settled : Candidate → Bool
  is_settled c = any (λ d. is_linked (correlate haversine now st) d && is_rival c d) pairs

  settled-sort :
      (c : Candidate)
      → has_rival (matching pairs) c ≡ true
      → All (λ d. is_linked (correlate haversine now st) d ≡ true) (matching pairs)
      → is_settled c ≡ true
  settled-sort c e linked =
      let f : Candidate → Bool = λ d. is_linked (correlate haversine now st) d && is_rival c d in
      sym (any-sort f pairs)
      ∙ any-matched f (sort pairs) [] []
          (any-both (is_linked (correlate haversine now st)) (is_rival c) (matching pairs) linked e)

  -- In a state whose links stand under their controllers' names, and with a controller and a UAV active, a
  -- round is stable: for every candidate pair there is a candidate pair that is linked afterwards and has
  -- the same controller or the same UAV and a score at least as high, be it the pair itself or a rival.
  pub correlate_stable :
      Keyed st
      → 1 ≤ length (controllers_of now (values st.drones))
      → 1 ≤ length (uavs_of now (values st.drones))
      → All (λ c. is_settled c ≡ true) pairs
  correlate_stable v hc hu =
      let ms = matching pairs in
      let after = correlate haversine now st in
      let (apart, rivals) = matching_stable pairs in
      let linked : All (λ d. is_linked after d ≡ true) ms =
        All-map (λ d. partner d.ctrl.identifier ms ≡ some d.uav.identifier)
          (λ d. is_linked after d ≡ true)
          (λ d e.
            rw (correlate-links haversine now st d.ctrl.identifier v hc hu, e)
              (same_refl d.uav.identifier))
          ms (All-partner ms apart) in
      All-sort is_settled pairs (
        All-map (λ c. has_rival ms c ≡ true) (λ c. is_settled c ≡ true)
          (λ c e. settled-sort c e linked) (sort pairs) rivals)

  -- In a state whose links stand under their controllers' names, and with a controller and a UAV active, no
  -- two active controllers are linked to the same UAV after a round.
  pub correlate_one_to_one :
      (k j u : Bytes)
      → Keyed st
      → 1 ≤ length (controllers_of now (values st.drones))
      → 1 ≤ length (uavs_of now (values st.drones))
      → listed k (names (controllers_of now (values st.drones))) ≡ true
      → listed j (names (controllers_of now (values st.drones))) ≡ true
      → uav_of k (correlate haversine now st) ≡ some u
      → uav_of j (correlate haversine now st) ≡ some u
      → k ≡ j
  correlate_one_to_one k j u v hc hu a b p q =
      let ms = matching pairs in
      let apart = (matching_stable pairs).0 in
      partner_injective k j u ms apart
        (only_partner (partner k ms) (uav_of k st) _ u a
          (sym (correlate-links haversine now st k v hc hu) ∙ p))
        (only_partner (partner j ms) (uav_of j st) _ u b
          (sym (correlate-links haversine now st j v hc hu) ∙ q))
