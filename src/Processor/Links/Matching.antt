-- ===== src/Processor/Links/Matching.antt =====
-- The greedy loop of internal/processor/controller_link.go as a matching of controllers and UAVs.
use skylens_azure.Common.{
  ◌≤◌, ◌≡◌, ◌≢◌, sym, subst, Bytes, same, same_refl, List, [], ◌∷◌, All, Bool, true, false, leb,
  ◌&&◌, ◌||◌, if◌then◌else◌, any, map, arith, Bool-cases, inl, inr,
}
use skylens_azure.Processor.Links.{Candidate, sort, listed, is_claimed}
use skylens_azure.Processor.Links.Sorting.{IsSorted, sort-sorts}

-- The candidates that the loop claims, in its order.
abbrev pub matched : List Candidate → List Bytes → List Bytes → List Candidate
matched [] uavs ctrls = []
matched (c ∷ cs) uavs ctrls =
    let skip = matched cs uavs ctrls in
    let take = c ∷ matched cs (c.uav.identifier ∷ uavs) (c.ctrl.identifier ∷ ctrls) in
    if is_claimed c uavs ctrls then skip else take

abbrev pub matching : List Candidate → List Candidate
matching cs = matched (sort cs) [] []

-- No two candidates share a controller or a UAV.
abbrev pub OneToOne : List Candidate → Type 0
OneToOne [] = Unit
OneToOne (c ∷ cs) =
    All (λ d. (d.uav.identifier ≢ c.uav.identifier) × (d.ctrl.identifier ≢ c.ctrl.identifier)) cs
    × OneToOne cs

-- The candidate shares neither its UAV nor its controller with the claims.
abbrev Free : List Bytes → List Bytes → Candidate → Type 0
Free uavs ctrls c =
    (listed c.uav.identifier uavs ≡ false) × (listed c.ctrl.identifier ctrls ≡ false)

pub All-map :
    {A : Type 0} (P Q : A → Type 0) (f : (a : A) → P a → Q a) (xs : List A) → All P xs → All Q xs
All-map P Q f [] h = tt
All-map P Q f (x ∷ xs) (p, h) = (f x p, All-map P Q f xs h)

not_listed-ne : (x y : Bytes) (ys : List Bytes) → listed x (y ∷ ys) ≡ false → x ≢ y
not_listed-ne x y ys h e = ground arith

matched-Free :
    (cs : List Candidate) (uavs ctrls : List Bytes) → All (Free uavs ctrls) (matched cs uavs ctrls)
matched-Free [] uavs ctrls = tt
matched-Free (c ∷ cs) uavs ctrls = elim (Bool-cases (is_claimed c uavs ctrls)) [
  | inl e ↦ rw e (matched-Free cs uavs ctrls)
  | inr e ↦ rw e (
    ground arith,
    All-map (Free (c.uav.identifier ∷ uavs) (c.ctrl.identifier ∷ ctrls)) (Free uavs ctrls)
        (λ d h. ground arith) _
        (matched-Free cs (c.uav.identifier ∷ uavs) (c.ctrl.identifier ∷ ctrls)),
  )
]

matched-OneToOne :
    (cs : List Candidate) (uavs ctrls : List Bytes) → OneToOne (matched cs uavs ctrls)
matched-OneToOne [] uavs ctrls = tt
matched-OneToOne (c ∷ cs) uavs ctrls = elim (Bool-cases (is_claimed c uavs ctrls)) [
  | inl e ↦ rw e (matched-OneToOne cs uavs ctrls)
  | inr e ↦
      let us = c.uav.identifier ∷ uavs in
      let ks = c.ctrl.identifier ∷ ctrls in
      rw e (
        All-map (Free us ks)
            (λ d. (d.uav.identifier ≢ c.uav.identifier) × (d.ctrl.identifier ≢ c.ctrl.identifier))
            (λ d h. (not_listed-ne _ _ uavs h.0, not_listed-ne _ _ ctrls h.1)) _
            (matched-Free cs us ks),
        matched-OneToOne cs us ks,
      )
]

-- A candidate of the list that shares the UAV or the controller of `c`, at no smaller score.
abbrev pub has_rival : List Candidate → Candidate → Bool
has_rival ms c =
    any
      (λ d.
        (same d.uav.identifier c.uav.identifier || same d.ctrl.identifier c.ctrl.identifier)
        && leb c.score d.score)
      ms

abbrev uav_ids : List Candidate → List Bytes
uav_ids = map (λ d. d.uav.identifier)

abbrev ctrl_ids : List Candidate → List Bytes
ctrl_ids = map (λ d. d.ctrl.identifier)

claimed-rival :
    (c : Candidate) (done : List Candidate)
    → All (λ d. c.score ≤ d.score) done
    → is_claimed c (uav_ids done) (ctrl_ids done) ≡ true
    → has_rival done c ≡ true
claimed-rival c [] h e = ground arith
claimed-rival c (d ∷ done) (hd, h) e = ground (arith, claimed-rival c done h)

abbrev Covered : List Candidate → List Candidate → List Candidate → Type 0
Covered done ms = All (λ c. (has_rival done c || has_rival ms c) ≡ true)

abbrev Below : List Candidate → Candidate → Type 0
Below cs d = All (λ c. c.score ≤ d.score) cs

rivals :
    (cs done : List Candidate)
    → IsSorted cs
    → All (Below cs) done
    → Covered done (matched cs (uav_ids done) (ctrl_ids done)) cs
rivals [] done s h = tt
rivals (c ∷ cs) done (s, ss) h =
    let us = uav_ids done in
    let ks = ctrl_ids done in
    let rest = All-map (Below (c ∷ cs)) (Below cs) (λ d b. b.1) done h in
    elim (Bool-cases (is_claimed c us ks)) [
      | inl e ↦
          let skipped : matched (c ∷ cs) us ks ≡ matched cs us ks = rw e in
          let mine =
            claimed-rival c done
              (All-map (Below (c ∷ cs)) (λ d. c.score ≤ d.score) (λ d b. b.0) done h) e in
          subst (λ ms. Covered done ms (c ∷ cs)) (sym skipped)
            (ground (arith, mine), rivals cs done ss rest)
      | inr e ↦
          let ms = matched cs (uav_ids (c ∷ done)) (ctrl_ids (c ∷ done)) in
          let taken : matched (c ∷ cs) us ks ≡ c ∷ ms = rw e in
          subst (λ ms. Covered done ms (c ∷ cs)) (sym taken)
            (
              ground (arith, same_refl c.uav.identifier),
              All-map (λ x. (has_rival (c ∷ done) x || has_rival ms x) ≡ true)
                  (λ x. (has_rival done x || has_rival (c ∷ ms) x) ≡ true) (λ x b. ground arith) cs
                  (rivals cs (c ∷ done) ss (s, rest)),
            )
    ]

-- The matching of the sorted candidates is one to one, and it is stable: every candidate that is not in
-- it has a rival in it, one for the same controller or the same UAV with a score at least as high.
pub matching_stable :
    (xs : List Candidate)
    → OneToOne (matching xs) × All (λ c. has_rival (matching xs) c ≡ true) (sort xs)
matching_stable xs = (matched-OneToOne (sort xs) [] [], rivals (sort xs) [] (sort-sorts xs).1 tt)
