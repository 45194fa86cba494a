-- ===== src/Processor/Trails/Manager.antt =====
-- The operations of the trail manager of internal/processor/trails.go, as what they do to the trails
-- of one identifier and of the others.
use skylens_azure.Common.{
  ℕ, ◌≡◌, refl, Bytes, bytes_discrete, Option, none, some, List, [], ◌∷◌, Bool, true, false, arith,
  if◌then◌else◌, ite, inl, inr, Bool-cases, subst, ◌&&◌, ◌||◌, not, ltb, ◌+◌, last?, same,
  same_refl, ◌∙◌, ap,
}
use skylens_azure.Common.Int.{ℤ, is_zero}
use skylens_azure.Common.Maps.{
  Map, lookup, insert, delete, lookup-insert, lookup-delete, Absent, Unique, insert-Unique,
  delete-Unique,
}
use skylens_azure.Processor.Trails.Spacing.{IsTrail, feed-IsTrail, add_sample-IsTrail, feed}
use skylens_azure.Processor.Trails.{
  PositionSample, DroneTrail, TrailManager, is_stale, stale_ids, delete_all, is_stale_at, cleanup,
  record_position, remove_trail, clear_all, TrailConfig, new_trail_manager, trail_or_new,
  add_sample,
}

-- What `cleanup` leaves of an entry.
abbrev pub kept_trail : ℕ → ℕ → Option DroneTrail → Option DroneTrail
kept_trail max_age now none = none
kept_trail max_age now (some t) = if is_stale max_age now t then none else some t

abbrev listed : Bytes → List Bytes → Bool
listed id [] = false
listed id (x ∷ xs) = ite (bytes_discrete x id) true (listed id xs)

lookup-delete_all :
    (id : Bytes) (ids : List Bytes) (m : Map DroneTrail)
    → lookup id (delete_all ids m) ≡ (if listed id ids then none else lookup id m)
unfolding delete_all
lookup-delete_all id [] m = refl
lookup-delete_all id (x ∷ ids) m =
    ground (arith, lookup-delete_all id ids (delete x m), lookup-delete x id m)

listed-Absent :
    (max_age now : ℕ) (id : Bytes) (m : Map DroneTrail)
    → Absent id m
    → listed id (stale_ids max_age now m) ≡ false
unfolding stale_ids
listed-Absent max_age now id [] a = refl
listed-Absent max_age now id ((j, t) ∷ m) (n, a) = ground (arith, listed-Absent max_age now id m a)

kept_unless_listed :
    (max_age now : ℕ) (id : Bytes) (m : Map DroneTrail)
    → Unique m
    → (if listed id (stale_ids max_age now m) then none else lookup id m)
      ≡ kept_trail max_age now (lookup id m)
unfolding lookup stale_ids
kept_unless_listed max_age now id [] u = refl
kept_unless_listed max_age now id ((j, t) ∷ m) (a, u) = elim (bytes_discrete j id) [
  | yes e ↦ ground (arith, listed-Absent max_age now id m (subst (λ x. Absent x m) e a))
  | no n ↦ ground (arith, kept_unless_listed max_age now id m u)
]

-- The clean-up removes exactly the trails that are empty or whose last sample is older than the
-- manager's greatest age, and leaves every other trail as it is.
lookup-cleanup :
    (tm : TrailManager) (now : ℕ) (id : Bytes)
    → Unique tm.trails
    → lookup id (cleanup tm now).trails ≡ kept_trail tm.max_age now (lookup id tm.trails)
unfolding cleanup
lookup-cleanup tm now id u =
    rw (lookup-delete_all id (stale_ids tm.max_age now tm.trails) tm.trails)
      (kept_unless_listed tm.max_age now id tm.trails u)

-- The calls that change the manager.
pub data Op : Type 0 where
  records : Bytes → PositionSample → ℕ → Op
  cleans : ℕ → Op
  removes : Bytes → Op
  clears : Op

module _ (haversine : ℤ → ℤ → ℤ → ℤ → ℕ) where
  abbrev pub step : TrailManager → Op → TrailManager
  step tm (records id s now) = (record_position haversine tm id s now).0
  step tm (cleans now) = cleanup tm now
  step tm (removes id) = remove_trail tm id
  step tm clears = clear_all tm

  abbrev pub run : TrailManager → List Op → TrailManager
  run tm [] = tm
  run tm (o ∷ os) = run (step tm o) os

  pub record IsManager (c : TrailConfig) (tm : TrailManager) : Type 0 where
    pub same_config : tm.config ≡ c
    pub distinct : Unique tm.trails
    pub each : (id : Bytes) (t : DroneTrail) → lookup id tm.trails ≡ some t → IsTrail haversine c t

  delete_all-Unique : (ids : List Bytes) (m : Map DroneTrail) → Unique m → Unique (delete_all ids m)
  unfolding delete_all
  delete_all-Unique [] m u = u
  delete_all-Unique (id ∷ ids) m u = delete_all-Unique ids (delete id m) (delete-Unique id m u)

  trail_or_new-IsTrail :
      (c : TrailConfig) (tm : TrailManager) (id : Bytes) (o : Option DroneTrail)
      → IsManager c tm
      → lookup id tm.trails ≡ o
      → IsTrail haversine c (trail_or_new haversine tm.config o)
  unfolding feed
  trail_or_new-IsTrail c tm id none v e = rw v.same_config (feed-IsTrail haversine c [])
  trail_or_new-IsTrail c tm id (some t) v e = v.each id t e

  record-IsManager :
      (c : TrailConfig) (tm : TrailManager) (id : Bytes) (s : PositionSample) (now : ℕ)
      → IsManager c tm
      → IsManager c (record_position haversine tm id s now).0
  unfolding record_position
  record-IsManager c tm id s now v =
      let old = trail_or_new haversine tm.config (lookup id tm.trails) in
      let new = (add_sample haversine old s now).0 in
      let good = add_sample-IsTrail haversine c old s now (trail_or_new-IsTrail c tm id _ v refl) in
      elim (Bool-cases (is_zero s.lat && is_zero s.lon)) [
        | inl z ↦ rw z v
        | inr z ↦ rw z (record {
          same_config = v.same_config;
          distinct = insert-Unique id new tm.trails v.distinct;
          each = λ j t e. elim (bytes_discrete id j) [
            | yes q ↦
                subst (IsTrail haversine c) (ground (arith, lookup-insert id j new tm.trails)) good
            | no n ↦ v.each j t (ground (arith, lookup-insert id j new tm.trails))
          ];
        })
      ]

  step-IsManager :
      (c : TrailConfig) (tm : TrailManager) (o : Op) → IsManager c tm → IsManager c (step tm o)
  step-IsManager c tm (records id s now) v = record-IsManager c tm id s now v
  step-IsManager c tm (cleans now) v = record {
    same_config = unfold cleanup in v.same_config;
    distinct =
        unfold cleanup in
        delete_all-Unique (stale_ids tm.max_age now tm.trails) tm.trails v.distinct;
    each = λ j t e. v.each j t (ground (arith, lookup-cleanup tm now j v.distinct));
  }
  step-IsManager c tm (removes id) v =
      unfold remove_trail in
      record {
        same_config = v.same_config;
        distinct = delete-Unique id tm.trails v.distinct;
        each = λ j t e. v.each j t (ground (arith, lookup-delete id j tm.trails));
      }
  step-IsManager c tm clears v =
      unfold clear_all lookup in
      record { same_config = v.same_config; distinct = tt; each = λ j t e. absurd (ground arith) }

  run-IsManager' :
      (c : TrailConfig) (tm : TrailManager) (os : List Op)
      → IsManager c tm
      → IsManager c (run tm os)
  run-IsManager' c tm [] v = v
  run-IsManager' c tm (o ∷ os) v = run-IsManager' c (step tm o) os (step-IsManager c tm o v)

  run-IsManager : (c : TrailConfig) (os : List Op) → IsManager c (run (new_trail_manager c) os)
  run-IsManager c os = run-IsManager' c (new_trail_manager c) os (
      unfold new_trail_manager lookup in
      record { same_config = refl; distinct = tt; each = λ j t e. absurd (ground arith) })

  -- Whether a trail has no sample, or a last one that is more than ten minutes old.
  abbrev pub is_past : ℕ → Option PositionSample → Bool
  is_past now none = true
  is_past now (some s) = ltb (s.time + 600_000_000_000) now

  abbrev pub not_past : ℕ → Option DroneTrail → Option DroneTrail
  not_past now none = none
  not_past now (some t) = if is_past now (last? t.samples) then none else some t

  -- What a call does to the trail of one identifier, where `none` is no trail.
  abbrev pub follow : TrailConfig → Bytes → Option DroneTrail → Op → Option DroneTrail
  follow c id o (records j s now) =
      if not (same j id) || (is_zero s.lat && is_zero s.lon)
      then o
      else some (add_sample haversine (trail_or_new haversine c o) s now).0
  follow c id o (cleans now) = not_past now o
  follow c id o (removes j) = if same j id then none else o
  follow c id o clears = none

  abbrev pub follow_all : TrailConfig → Bytes → Option DroneTrail → List Op → Option DroneTrail
  follow_all c id o [] = o
  follow_all c id o (op ∷ ops) = follow_all c id (follow c id o op) ops

  max_age-step : (tm : TrailManager) (op : Op) → (step tm op).max_age ≡ tm.max_age
  unfolding record_position cleanup remove_trail clear_all
  max_age-step tm (records id s now) = ground arith
  max_age-step tm (cleans now) = refl
  max_age-step tm (removes id) = refl
  max_age-step tm clears = refl

  stale-past :
      (now : ℕ) (o : Option PositionSample) → is_stale_at 600_000_000_000 now o ≡ is_past now o
  stale-past now none = refl
  stale-past now (some s) = refl

  kept-not_past :
      (now : ℕ) (o : Option DroneTrail) → kept_trail 600_000_000_000 now o ≡ not_past now o
  kept-not_past now none = refl
  kept-not_past now (some t) =
      ap (λ b. if b then none else some t) (stale-past now (last? t.samples))

  lookup-record_position :
      (tm : TrailManager) (id j : Bytes) (s : PositionSample) (now : ℕ)
      → lookup id (record_position haversine tm j s now).0.trails ≡ (
          if not (same j id) || (is_zero s.lat && is_zero s.lon)
          then lookup id tm.trails
          else some
              (add_sample haversine
                (trail_or_new haversine tm.config (lookup id tm.trails))
                s
                now).0)
  unfolding record_position
  lookup-record_position tm id j s now =
      let new =
        (add_sample haversine (trail_or_new haversine tm.config (lookup j tm.trails)) s now).0 in
      elim (Bool-cases (is_zero s.lat && is_zero s.lon)) [
        | inl z ↦ elim (Bool-cases (same j id)) [ inl e ↦ rw (z, e) refl | inr e ↦ rw (z, e) refl ]
        | inr z ↦ elim (bytes_discrete j id) [
          | yes e ↦ rw z (
              subst
                (λ k. lookup k (insert j new tm.trails) ≡ (
                  if not (same j k) || false
                  then lookup k tm.trails
                  else some
                      (add_sample haversine (trail_or_new haversine tm.config (lookup k tm.trails))
                        s now).0))
                e (ground (arith, lookup-insert j j new tm.trails, same_refl j)))
          | no n ↦ rw z (ground (arith, lookup-insert j id new tm.trails))
        ]
      ]

  lookup-step :
      (c : TrailConfig) (tm : TrailManager) (id : Bytes) (op : Op)
      → IsManager c tm
      → tm.max_age ≡ 600_000_000_000
      → lookup id (step tm op).trails ≡ follow c id (lookup id tm.trails) op
  unfolding remove_trail clear_all lookup
  lookup-step c tm id (records j s now) v m =
      lookup-record_position tm id j s now
      ∙ ap
          (λ d.
            if not (same j id) || (is_zero s.lat && is_zero s.lon)
            then lookup id tm.trails
            else some
                (add_sample haversine (trail_or_new haversine d (lookup id tm.trails)) s now).0)
          v.same_config
  lookup-step c tm id (cleans now) v m =
      lookup-cleanup tm now id v.distinct
      ∙ ap (λ a. kept_trail a now (lookup id tm.trails)) m
      ∙ kept-not_past now (lookup id tm.trails)
  lookup-step c tm id (removes j) v m = ground (arith, lookup-delete j id tm.trails)
  lookup-step c tm id clears v m = refl

  run-follow :
      (c : TrailConfig) (tm : TrailManager) (id : Bytes) (ops : List Op)
      → IsManager c tm
      → tm.max_age ≡ 600_000_000_000
      → lookup id (run tm ops).trails ≡ follow_all c id (lookup id tm.trails) ops
  run-follow c tm id [] v m = refl
  run-follow c tm id (op ∷ ops) v m =
      run-follow c (step tm op) id ops (step-IsManager c tm op v) (max_age-step tm op ∙ m)
      ∙ ap (λ o. follow_all c id o ops) (lookup-step c tm id op v m)

  -- After any sequence of recordings, clean-ups and removals, the trail of an identifier is what its own
  -- calls make of it alone: a recorded sample that is not at latitude and longitude 0 goes to its trail, or
  -- to a new one; a clean-up removes the trail if it has no sample or its last one is more than ten minutes
  -- old; a removal removes it; and the calls for other identifiers change nothing.
  pub lookup-run :
      (c : TrailConfig) (id : Bytes) (ops : List Op)
      → lookup id (run (new_trail_manager c) ops).trails ≡ follow_all c id none ops
  unfolding new_trail_manager lookup
  lookup-run c id ops = run-follow c (new_trail_manager c) id ops (run-IsManager c []) refl
