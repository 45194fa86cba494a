-- ===== src/Processor/Spoof/Flags.antt =====
-- How flags come and go in the tracks of internal/processor/spoof.go.
use skylens_azure.Common.{
  ℕ, ◌+◌, ◌≡◌, ◌≢◌, ◌↔◌, refl, ap, ◌∙◌, subst, Bytes, bytes_discrete, same, Option, none, some, [],
  ◌∷◌, Bool, true, false, ltb, ◌==◌, ◌||◌, if◌then◌else◌, arith, inl, inr, Bool-cases, Option-cases,
  is_some, All,
}
use skylens_azure.Common.Int.{ℤ}
use skylens_azure.Common.Maps.{
  Map, lookup, insert, Unique, lookup-insert, lookup-keep_values, lookup-keep_values-none,
}
use skylens_azure.Processor.Model.{Drone}
use skylens_azure.Processor.Spoof.{Checks, clean_flags, add_flags}
use skylens_azure.Processor.Spoof.Trust.{raises, lookup-add_flags}
use skylens_azure.Processor.Spoof.{DroneTrack, SpoofShard, all_checks}
use skylens_azure.Processor.Spoof.Analysis.{next_track, track_or_new}
use skylens_azure.Common.Maps.{insert-Unique, keep_values-Unique}

-- What is left of a flag that was raised at a time.
abbrev pub still : ℕ → Option ℕ → Option ℕ
still now none = none
still now (some at) = if ltb (at + 300_000_000_000) now then none else some at

-- The checks that are raised find their flags there already.
abbrev pub Known : Map ℕ → Bytes × Bool → Type 0
Known flags (name, raised) = raised ≡ true → is_some (lookup name flags) ≡ true

is_some-insert :
    (name flag : Bytes) (now : ℕ) (flags : Map ℕ)
    → is_some (lookup flag (insert name now flags))
      ≡ (same name flag || is_some (lookup flag flags))
is_some-insert name flag now flags = ground (arith, lookup-insert name flag now flags)

-- Flags that are there stay known when another is added.
All-Known :
    (name : Bytes) (now : ℕ) (flags : Map ℕ) (checks : Checks)
    → All (Known flags) checks
    → All (Known (insert name now flags)) checks
All-Known name now flags [] h = tt
All-Known name now flags ((flag, b) ∷ checks) (k, h) = (
  λ e. ground (arith, is_some-insert name flag now flags, k e),
  All-Known name now flags checks h,
)

All-Known_back :
    (name : Bytes) (now : ℕ) (flags : Map ℕ) (checks : Checks)
    → is_some (lookup name flags) ≡ true
    → All (Known (insert name now flags)) checks
    → All (Known flags) checks
All-Known_back name now flags [] there h = tt
All-Known_back name now flags ((flag, b) ∷ checks) there (k, h) = (
  λ e. elim (bytes_discrete name flag) [
    | yes q ↦ subst (λ x. is_some (lookup x flags) ≡ true) q there
    | no n ↦ ground (arith, is_some-insert name flag now flags, k e)
  ],
  All-Known_back name now flags checks there h,
)

suc-ne : (n : ℕ) → n + 1 ≢ 0
suc-ne n e = omega arith

added-Known :
    (now : ℕ) (checks : Checks) (flags : Map ℕ)
    → All (Known flags) checks
    → (add_flags now checks flags).1 ≡ 0
unfolding add_flags
added-Known now [] flags h = refl
added-Known now ((name, true) ∷ checks) flags (k, h) =
    rw (k refl) (added-Known now checks (insert name now flags) (All-Known name now flags checks h))
added-Known now ((name, false) ∷ checks) flags (k, h) = added-Known now checks flags h

Known-added :
    (now : ℕ) (checks : Checks) (flags : Map ℕ)
    → (add_flags now checks flags).1 ≡ 0
    → All (Known flags) checks
unfolding add_flags
Known-added now [] flags e = tt
Known-added now ((name, true) ∷ checks) flags e =
    let rest = add_flags now checks (insert name now flags) in
    elim (Bool-cases (is_some (lookup name flags))) [
      | inl there ↦
          let none_new : rest.1 ≡ 0 = ground (arith, e, there) in
          (
            λ q. there,
            All-Known_back name now flags checks there
                (Known-added now checks (insert name now flags) none_new),
          )
      | inr missing ↦ absurd (suc-ne rest.1 (ground (arith, e, missing)))
    ]
Known-added now ((name, false) ∷ checks) flags e =
    (λ q. absurd (ground arith), Known-added now checks flags e)

lookup-clean_flags :
    (now : ℕ) (flag : Bytes) (flags : Map ℕ)
    → Unique flags
    → lookup flag (clean_flags now flags) ≡ still now (lookup flag flags)
unfolding clean_flags
lookup-clean_flags now flag flags u = elim (Option-cases (lookup flag flags)) [
  | inl e ↦ lookup-keep_values-none _ flag flags e ∙ rw e refl
  | inr (at, e) ↦
      let old = ltb (at + 300_000_000_000) now in
      lookup-keep_values _ flag flags at u e
      ∙ rw e (elim (Bool-cases old) [ inl o ↦ rw o refl | inr o ↦ rw o refl ])
]

add_flags-Unique :
    (now : ℕ) (checks : Checks) (flags : Map ℕ)
    → Unique flags
    → Unique (add_flags now checks flags).0
unfolding add_flags
add_flags-Unique now [] flags u = u
add_flags-Unique now ((name, true) ∷ checks) flags u =
    add_flags-Unique now checks (insert name now flags) (insert-Unique name now flags u)
add_flags-Unique now ((name, false) ∷ checks) flags u = add_flags-Unique now checks flags u

grows-zero : (added old : ℕ) → (if added == 0 then old + 1 else 0) ≡ old + 1 → added ≡ 0
grows-zero added old e = ground arith

zero-grows : (added old : ℕ) → added ≡ 0 → (if added == 0 then old + 1 else 0) ≡ old + 1
zero-grows added old e = ground arith

resets-nonzero : (added old : ℕ) → (if added == 0 then old + 1 else 0) ≡ 0 → added ≢ 0
resets-nonzero added old e = λ z. ground arith

nonzero-resets : (added old : ℕ) → added ≢ 0 → (if added == 0 then old + 1 else 0) ≡ 0
nonzero-resets added old n = ground (arith, n)

module _ (haversine : ℤ → ℤ → ℤ → ℤ → ℕ) (estimate : ℤ → Bytes → ℕ) where
  abbrev pub old_track : ℕ → Drone → SpoofShard → DroneTrack
  old_track now d shard = track_or_new now (lookup d.identifier shard.tracks)

  -- The checks of a sample.
  abbrev pub checks_of : ℕ → Drone → SpoofShard → Checks
  checks_of now d shard = all_checks haversine estimate now (old_track now d shard) d shard

  -- After a sample a flag of the drone has the time of the sample if some check raises it, and else its
  -- old time for up to 300 s; no flag is listed twice if none was before.
  pub lookup-next_track :
      (now : ℕ) (d : Drone) (shard : SpoofShard) (flag : Bytes)
      → Unique (old_track now d shard).flags
      → (lookup flag (next_track haversine estimate now d shard).flags ≡ (
          if raises flag (checks_of now d shard)
          then some now
          else still now (lookup flag (old_track now d shard).flags)))
        × Unique (next_track haversine estimate now d shard).flags
  unfolding next_track clean_flags
  lookup-next_track now d shard flag u =
      let flags = (old_track now d shard).flags in
      let checks = checks_of now d shard in
      (
        lookup-add_flags now flag checks (clean_flags now flags)
            ∙ ap (λ o. if raises flag checks then some now else o)
                (lookup-clean_flags now flag flags u),
        add_flags-Unique now checks (clean_flags now flags) (keep_values-Unique _ flags u),
      )

  -- A sample counts as clean exactly when every flag that its checks raise is there already and at most
  -- 300 s old: the number of clean samples in a row grows by one exactly for such a sample, and becomes 0
  -- exactly for any other.
  pub next_track-clean_iff :
      (now : ℕ) (d : Drone) (shard : SpoofShard)
      → (((next_track haversine estimate now d shard).consecutive_clean
            ≡ (old_track now d shard).consecutive_clean + 1)
          ↔ All (Known (clean_flags now (old_track now d shard).flags)) (checks_of now d shard))
        × (((next_track haversine estimate now d shard).consecutive_clean ≡ 0) ↔ (
            ¬ All (Known (clean_flags now (old_track now d shard).flags)) (checks_of now d shard)))
  unfolding next_track
  next_track-clean_iff now d shard =
      let old = old_track now d shard in
      let flags = clean_flags now old.flags in
      let checks = checks_of now d shard in
      let added = (add_flags now checks flags).1 in
      (
        (
          λ e. Known-added now checks flags (grows-zero added old.consecutive_clean e),
          λ h. zero-grows added old.consecutive_clean (added-Known now checks flags h),
        ),
        (
          λ e h. resets-nonzero added old.consecutive_clean e (added-Known now checks flags h),
          λ n. nonzero-resets added old.consecutive_clean (λ z. n (Known-added now checks flags z)),
        ),
      )
