-- ===== src/Processor/Trails/Spacing.antt =====
-- What holds of every trail that internal/processor/trails.go builds.
use skylens_azure.Common.{
  ℕ, ◌+◌, ◌/◌, ◌≤◌, ◌<◌, ◌≡◌, refl, Option, none, some, List, [], ◌∷◌, ◌++◌, true, false, length,
  length-append, length-drop, drop, last?, last?-append, arith, ◌⊎◌, inl, inr, subst, Bool-cases,
  zero, suc, sym, ◌∙◌,
}
use skylens_azure.Common.Int.{ℤ}
use skylens_azure.Processor.Trails.{
  PositionSample, DroneTrail, TrailConfig, new_trail, stamped, trim, is_duplicate, add_sample,
}

nonempty : (y : PositionSample) (xs : List PositionSample) → ¬ (last? (y ∷ xs) ≡ none)
nonempty y [] e = cc
nonempty y (x ∷ xs) e = nonempty x xs e

module _ (haversine : ℤ → ℤ → ℤ → ℤ → ℕ) where
  -- What two neighbours in a trail keep between them: the least interval, and the least distance
  -- unless five seconds have passed.
  pub record Spaced (c : TrailConfig) (s t : PositionSample) : Type 0 where
    pub in_time : s.time + c.min_interval ≤ t.time
    pub in_space :
        (c.min_distance ≤ haversine s.lat s.lon t.lat t.lon) ⊎ (s.time + 5_000_000_000 ≤ t.time)

  abbrev pub Chain : TrailConfig → List PositionSample → Type 0
  Chain c [] = Unit
  Chain c (s ∷ []) = Unit
  Chain c (s ∷ t ∷ r) = Spaced c s t × Chain c (t ∷ r)

  pub record IsTrail (c : TrailConfig) (t : DroneTrail) : Type 0 where
    pub same_size : t.max_size ≡ c.max_size
    pub same_interval : t.min_interval ≡ c.min_interval
    pub same_distance : t.min_distance ≡ c.min_distance
    pub newest : t.last_sample ≡ last? t.samples
    pub chained : Chain c t.samples

  Chain-drop :
      (c : TrailConfig) (n : ℕ) (xs : List PositionSample) → Chain c xs → Chain c (drop n xs)
  Chain-drop c zero xs h = h
  Chain-drop c (suc n) [] h = tt
  Chain-drop c (suc n) (x ∷ []) h = Chain-drop c n [] tt
  Chain-drop c (suc n) (x ∷ y ∷ xs) (_, h) = Chain-drop c n (y ∷ xs) h

  last?-drop : (n : ℕ) (xs : List PositionSample) → n < length xs → last? (drop n xs) ≡ last? xs
  last?-drop zero xs h = refl
  last?-drop (suc n) [] h = refl
  last?-drop (suc n) (x ∷ []) h = absurd (omega arith)
  last?-drop (suc n) (x ∷ y ∷ xs) h = last?-drop n (y ∷ xs) (omega arith)

  Chain-append :
      (c : TrailConfig) (xs : List PositionSample) (s l : PositionSample)
      → Chain c xs
      → last? xs ≡ some l
      → Spaced c l s
      → Chain c (xs ++ s ∷ [])
  Chain-append c [] s l h e sp = tt
  Chain-append c (x ∷ []) s l h e sp = (subst (λ y. Spaced c y s) (ground arith) sp, tt)
  Chain-append c (x ∷ y ∷ xs) s l (p, h) e sp = (p, Chain-append c (y ∷ xs) s l h e sp)

  trim-Chain :
      (c : TrailConfig) (n : ℕ) (xs : List PositionSample) → Chain c xs → Chain c (trim n xs)
  unfolding trim
  trim-Chain c n xs h = ground (arith, Chain-drop c (n / 10) xs h)

  last?-trim : (n : ℕ) (xs : List PositionSample) → last? (trim n xs) ≡ last? xs
  unfolding trim
  last?-trim n xs = ground (arith, last?-drop (n / 10) xs)

  not_duplicate-Spaced :
      (c : TrailConfig) (t : DroneTrail) (l s : PositionSample)
      → t.min_interval ≡ c.min_interval
      → t.min_distance ≡ c.min_distance
      → is_duplicate haversine t (some l) s ≡ false
      → Spaced c l s
  unfolding is_duplicate
  not_duplicate-Spaced c t l s i d e = record { in_time = ground arith; in_space = ground arith }

  empty_of_last : (xs : List PositionSample) → last? xs ≡ none → xs ≡ []
  empty_of_last [] e = refl
  empty_of_last (x ∷ []) e = cc
  empty_of_last (x ∷ y ∷ xs) e = absurd (nonempty y xs e)

  appended :
      (c : TrailConfig) (t : DroneTrail) (o : Option PositionSample) (s : PositionSample)
      → IsTrail c t
      → t.last_sample ≡ o
      → is_duplicate haversine t o s ≡ false
      → Chain c (t.samples ++ s ∷ [])
  appended c t none s v e d = rw (empty_of_last t.samples (sym v.newest ∙ e)) tt
  appended c t (some l) s v e d =
      Chain-append c t.samples s l v.chained (sym v.newest ∙ e)
        (not_duplicate-Spaced c t l s v.same_interval v.same_distance d)

  pub add_sample-IsTrail :
      (c : TrailConfig) (t : DroneTrail) (sample : PositionSample) (now : ℕ)
      → IsTrail c t
      → IsTrail c (add_sample haversine t sample now).0
  unfolding add_sample
  add_sample-IsTrail c t sample now v =
      let s = stamped sample now in
      elim (Bool-cases (is_duplicate haversine t t.last_sample s)) [
        | inl d ↦ rw d v
        | inr d ↦ rw d (record {
          same_size = v.same_size;
          same_interval = v.same_interval;
          same_distance = v.same_distance;
          newest = sym (last?-trim t.max_size (t.samples ++ s ∷ []) ∙ last?-append t.samples s);
          chained = trim-Chain c t.max_size _ (appended c t t.last_sample s v refl d);
        })
      ]

  -- A trail that is fed samples, each with the time of its call.
  unfoldable pub feed : DroneTrail → List (PositionSample × ℕ) → DroneTrail
  feed t [] = t
  feed t ((s, now) ∷ xs) = feed (add_sample haversine t s now).0 xs

  feed-IsTrail' :
      (c : TrailConfig) (t : DroneTrail) (xs : List (PositionSample × ℕ))
      → IsTrail c t
      → IsTrail c (feed t xs)
  unfolding feed
  feed-IsTrail' c t [] v = v
  feed-IsTrail' c t ((s, now) ∷ xs) v =
      feed-IsTrail' c (add_sample haversine t s now).0 xs (add_sample-IsTrail c t s now v)

  -- Whatever samples a new trail is fed, also out of order of time, neighbours in the trail are at least
  -- the least interval apart in time, and at least the least distance or else five seconds; the last
  -- sample that new ones are compared with is the last of the trail.
  pub feed-IsTrail :
      (c : TrailConfig) (xs : List (PositionSample × ℕ)) → IsTrail c (feed (new_trail c) xs)
  feed-IsTrail c xs = feed-IsTrail' c (new_trail c) xs (record {
    same_size = refl;
    same_interval = refl;
    same_distance = refl;
    newest = refl;
    chained = tt;
  })

  length-add_sample :
      (t : DroneTrail) (s : PositionSample) (now : ℕ)
      → 10 ≤ t.max_size
      → length t.samples ≤ t.max_size
      → (length (add_sample haversine t s now).0.samples ≤ t.max_size)
        × ((add_sample haversine t s now).0.max_size ≡ t.max_size)
  unfolding add_sample trim
  length-add_sample t s now h b = ground (
    arith,
    length-append t.samples (stamped s now ∷ []),
    length-drop (t.max_size / 10) (t.samples ++ stamped s now ∷ []),
  )

  feed_bounded :
      (t : DroneTrail) (n : ℕ) (xs : List (PositionSample × ℕ))
      → t.max_size ≡ n
      → 10 ≤ n
      → length t.samples ≤ n
      → length (feed t xs).samples ≤ n
  unfolding feed
  feed_bounded t n [] e h b = b
  feed_bounded t n ((s, now) ∷ xs) e h b =
      let (l, m) = length-add_sample t s now (omega arith) (omega arith) in
      feed_bounded (add_sample haversine t s now).0 n xs (m ∙ e) h (omega arith)

  -- A trail with a capacity of at least ten never holds more samples than its capacity.
  length-feed-le :
      (c : TrailConfig) (xs : List (PositionSample × ℕ))
      → 10 ≤ c.max_size
      → length (feed (new_trail c) xs).samples ≤ c.max_size
  length-feed-le c xs h = feed_bounded (new_trail c) c.max_size xs refl h (omega arith)

  -- With a capacity below ten the trim cuts nothing off: every accepted sample makes the trail longer,
  -- whatever its length is.
  pub add_sample-grows_small :
      (t : DroneTrail) (s : PositionSample) (now : ℕ)
      → t.max_size < 10
      → (add_sample haversine t s now).1 ≡ true
      → length (add_sample haversine t s now).0.samples ≡ length t.samples + 1
  unfolding add_sample trim
  add_sample-grows_small t s now h e = ground (
    arith,
    length-append t.samples (stamped s now ∷ []),
    length-drop (t.max_size / 10) (t.samples ++ stamped s now ∷ []),
  )
