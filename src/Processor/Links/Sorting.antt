-- ===== src/Processor/Links/Sorting.antt =====
-- The exchange sort of internal/processor/controller_link.go sorts.
use skylens_azure.Common.{
  any, not, Bool, true, false, sym, ◌∙◌, ℕ, zero, suc, ◌≤◌, ◌≡◌, refl, List, [], ◌∷◌, All, ltb,
  if◌then◌else◌, length, arith, Bool-cases, inl, inr, ltb→lt,
}
use mathlib.Core.List.{Perm}
use mathlib.Core.List.Perm
use skylens_azure.Processor.Links.{Candidate, pass, sort_rounds, sort}

-- Scores fall along the list.
abbrev pub IsSorted : List Candidate → Type 0
IsSorted [] = Unit
IsSorted (c ∷ cs) = All (λ d. d.score ≤ c.score) cs × IsSorted cs

pass-perm : (x : Candidate) (xs : List Candidate) → Perm (x ∷ xs) ((pass x xs).0 ∷ (pass x xs).1)
unfolding pass
pass-perm x [] = Perm.refl (x ∷ [])
pass-perm x (y ∷ ys) = elim (Bool-cases (ltb x.score y.score)) [
  | inl e ↦ rw e (Perm.trans (Perm.cons x (pass-perm y ys)) (Perm.swap _ x _))
  | inr e ↦
      rw e (
        Perm.trans (Perm.swap y x ys) (Perm.trans (Perm.cons y (pass-perm x ys)) (Perm.swap _ y _)))
]

le-pass : (x : Candidate) (xs : List Candidate) → x.score ≤ (pass x xs).0.score
unfolding pass
le-pass x [] = omega arith
le-pass x (y ∷ ys) = ground (arith, le-pass y ys, le-pass x ys)

pass-greatest :
    (n : ℕ) (x : Candidate) (xs : List Candidate)
    → (pass x xs).0.score ≤ n
    → All (λ d. d.score ≤ n) (pass x xs).1
unfolding pass
pass-greatest n x [] h = tt
pass-greatest n x (y ∷ ys) h = elim (Bool-cases (ltb x.score y.score)) [
  | inl e ↦
      let below : (pass y ys).0.score ≤ n = rw e at h in
      let lt = ltb→lt x.score y.score e in
      rw e (omega (arith, below, le-pass y ys), pass-greatest n y ys below)
  | inr e ↦
      let below : (pass x ys).0.score ≤ n = rw e at h in
      let ge : y.score ≤ x.score = ground arith in
      rw e (omega (arith, below, le-pass x ys), pass-greatest n x ys below)
]

length-pass : (x : Candidate) (xs : List Candidate) → length (pass x xs).1 ≡ length xs
unfolding pass
length-pass x [] = refl
length-pass x (y ∷ ys) = ground (arith, length-pass (if ltb x.score y.score then y else x) ys)

sort_rounds-perm : (n : ℕ) (xs : List Candidate) → Perm xs (sort_rounds n xs)
unfolding sort_rounds
sort_rounds-perm zero xs = Perm.refl xs
sort_rounds-perm (suc n) [] = Perm.refl []
sort_rounds-perm (suc n) (x ∷ xs) =
    Perm.trans (pass-perm x xs) (Perm.cons _ (sort_rounds-perm n (pass x xs).1))

-- A bound on the scores holds after any round.
All-pass :
    (n : ℕ) (x : Candidate) (xs : List Candidate)
    → x.score ≤ n
    → All (λ d. d.score ≤ n) xs
    → ((pass x xs).0.score ≤ n) × All (λ d. d.score ≤ n) (pass x xs).1
unfolding pass
All-pass n x [] h a = (h, tt)
All-pass n x (y ∷ ys) h (hy, a) = elim (Bool-cases (ltb x.score y.score)) [
  | inl e ↦ let (b, r) = All-pass n y ys hy a in rw e (b, (h, r))
  | inr e ↦ let (b, r) = All-pass n x ys h a in rw e (b, (hy, r))
]

All-sort_rounds :
    (n k : ℕ) (xs : List Candidate)
    → All (λ d. d.score ≤ n) xs
    → All (λ d. d.score ≤ n) (sort_rounds k xs)
unfolding sort_rounds
All-sort_rounds n zero xs a = a
All-sort_rounds n (suc k) [] a = tt
All-sort_rounds n (suc k) (x ∷ xs) (h, a) =
    let (b, r) = All-pass n x xs h a in (b, All-sort_rounds n k (pass x xs).1 r)

sort_rounds-IsSorted : (k : ℕ) (xs : List Candidate) → length xs ≤ k → IsSorted (sort_rounds k xs)
unfolding sort_rounds
sort_rounds-IsSorted zero [] h = tt
sort_rounds-IsSorted zero (x ∷ xs) h = absurd (omega arith)
sort_rounds-IsSorted (suc k) [] h = tt
sort_rounds-IsSorted (suc k) (x ∷ xs) h = (
  All-sort_rounds (pass x xs).0.score k (pass x xs).1 (pass-greatest _ x xs (omega arith)),
  sort_rounds-IsSorted k (pass x xs).1 (omega (arith, length-pass x xs)),
)

-- The exchange sort returns the same candidates, with the scores falling.
pub sort-sorts : (xs : List Candidate) → Perm xs (sort xs) × IsSorted (sort xs)
unfolding sort
sort-sorts xs = (sort_rounds-perm (length xs) xs, sort_rounds-IsSorted (length xs) xs (omega arith))

-- A search finds the same in the sorted list.
any-pass :
    (f : Candidate → Bool) (x : Candidate) (xs : List Candidate)
    → any f ((pass x xs).0 ∷ (pass x xs).1) ≡ any f (x ∷ xs)
unfolding pass
any-pass f x [] = refl
any-pass f x (y ∷ ys) = elim (Bool-cases (ltb x.score y.score)) [
  | inl e ↦ rw e (ground (arith, any-pass f y ys))
  | inr e ↦ rw e (ground (arith, any-pass f x ys))
]

any-sort_rounds :
    (f : Candidate → Bool) (n : ℕ) (xs : List Candidate) → any f (sort_rounds n xs) ≡ any f xs
unfolding sort_rounds
any-sort_rounds f zero xs = refl
any-sort_rounds f (suc n) [] = refl
any-sort_rounds f (suc n) (x ∷ xs) =
    ground (arith, any-sort_rounds f n (pass x xs).1, any-pass f x xs)

pub any-sort : (f : Candidate → Bool) (xs : List Candidate) → any f (sort xs) ≡ any f xs
unfolding sort
any-sort f xs = any-sort_rounds f (length xs) xs

All-any :
    (f : Candidate → Bool) (xs : List Candidate)
    → All (λ c. f c ≡ true) xs
    → any (λ c. not (f c)) xs ≡ false
All-any f [] h = refl
All-any f (x ∷ xs) (p, h) = ground (arith, p, All-any f xs h)

any-All :
    (f : Candidate → Bool) (xs : List Candidate)
    → any (λ c. not (f c)) xs ≡ false
    → All (λ c. f c ≡ true) xs
any-All f [] e = tt
any-All f (x ∷ xs) e = (ground (arith, e), any-All f xs (ground (arith, e)))

pub All-sort :
    (f : Candidate → Bool) (xs : List Candidate)
    → All (λ c. f c ≡ true) (sort xs)
    → All (λ c. f c ≡ true) xs
All-sort f xs h = any-All f xs (sym (any-sort (λ c. not (f c)) xs) ∙ All-any f (sort xs) h)
