-- ===== src/Auth/RateLimit/Window.antt =====
-- What the limiter of internal/auth/middleware.go grants over a whole history of calls.
use skylens_azure.Common.{
  ℕ, ◌+◌, ◌≤◌, ◌<◌, ◌≡◌, refl, ap, subst, Bytes, bytes_discrete, same, List, [], ◌∷◌, ◌++◌, Bool,
  true, false, ltb, leb, if◌then◌else◌, length, keep, All, length-append, arith, All-append, ◌&&◌,
  ◌≢◌, Bool-cases, inl, inr,
}
use skylens_azure.Common.Maps.{
  Map, lookup, insert, lookup-insert, Absent, Unique, Absent-lookup, insert-Unique,
}
use mathlib.Core.List.{append-nil, append_assoc}
use skylens_azure.Auth.RateLimit.{
  RateLimiter, new_rate_limiter, or_nil, recent, allow, cleanup_requests, cleanup,
}

-- A call of the limiter: a request of a key, or the periodic clean-up, at a time.
pub data Call : Type 0 where
  allows : Bytes → ℕ → Call
  cleans : ℕ → Call

abbrev pub at_time : Call → ℕ
at_time (allows key now) = now
at_time (cleans now) = now

abbrev pub after : RateLimiter → Call → RateLimiter
after rl (allows key now) = (allow rl key now).0
after rl (cleans now) = cleanup rl now

-- The times that a call grants to the key `k`: one or none.
abbrev pub grants : Bytes → RateLimiter → Call → List ℕ
grants k rl (allows key now) = if same key k && (allow rl key now).1 then now ∷ [] else []
grants k rl (cleans now) = []

unfoldable pub granted : Bytes → RateLimiter → List Call → List ℕ
granted k rl [] = []
granted k rl (c ∷ cs) = grants k rl c ++ granted k (after rl c) cs

abbrev pub run : RateLimiter → List Call → RateLimiter
run rl [] = rl
run rl (c ∷ cs) = run (after rl c) cs

-- The time of the last call.
abbrev pub end_time : ℕ → List Call → ℕ
end_time t [] = t
end_time t (c ∷ cs) = end_time (at_time c) cs

-- The clock does not run backwards.
abbrev pub Ordered : ℕ → List Call → Type 0
Ordered t [] = Unit
Ordered t (c ∷ cs) = (t ≤ at_time c) × Ordered (at_time c) cs

-- The grants that lie in the window which ends at `t`.
abbrev pub in_window : ℕ → ℕ → List ℕ → List ℕ
in_window window t = keep (λ s. ltb t (s + window) && leb s t)

recent-recent :
    (window t now : ℕ) (xs : List ℕ)
    → now ≤ t
    → recent window t (recent window now xs) ≡ recent window t xs
recent-recent window t now [] h = refl
recent-recent window t now (x ∷ xs) h = ground (arith, recent-recent window t now xs h)

keep-append :
    {A : Type 0} (p : A → Bool) (xs ys : List A) → keep p (xs ++ ys) ≡ keep p xs ++ keep p ys
keep-append p [] ys = refl
keep-append p (x ∷ xs) ys = ground (arith, keep-append p xs ys)

in_window-le :
    (window t : ℕ) (xs : List ℕ) → length (in_window window t xs) ≤ length (recent window t xs)
in_window-le window t [] = omega arith
in_window-le window t (x ∷ xs) = ground (arith, in_window-le window t xs)

recent_mono :
    (window t now : ℕ) (xs : List ℕ)
    → now ≤ t
    → length (recent window t xs) ≤ length (recent window now xs)
recent_mono window t now [] h = omega arith
recent_mono window t now (x ∷ xs) h = ground (arith, recent_mono window t now xs h)

abbrev stored : Bytes → RateLimiter → List ℕ
stored k rl = or_nil (lookup k rl.requests)

Absent-cleanup :
    (window now : ℕ) (k : Bytes) (m : Map (List ℕ))
    → Absent k m
    → Absent k (cleanup_requests window now m)
unfolding cleanup_requests
Absent-cleanup window now k [] a = tt
Absent-cleanup window now k ((j, ts) ∷ m) (n, a) = ground (arith, Absent-cleanup window now k m a)

cleanup-Unique :
    (window now : ℕ) (m : Map (List ℕ)) → Unique m → Unique (cleanup_requests window now m)
unfolding cleanup_requests
cleanup-Unique window now [] u = tt
cleanup-Unique window now ((j, ts) ∷ m) (a, u) =
    ground (arith, cleanup-Unique window now m u, Absent-cleanup window now j m a)

empty_of_length : (xs : List ℕ) → length xs ≡ 0 → xs ≡ []
empty_of_length [] h = refl
empty_of_length (x ∷ xs) h = absurd (omega arith)

lookup-cleanup_requests :
    (window now t : ℕ) (k : Bytes) (m : Map (List ℕ))
    → now ≤ t
    → Unique m
    → recent window t (or_nil (lookup k (cleanup_requests window now m)))
      ≡ recent window t (or_nil (lookup k m))
unfolding lookup cleanup_requests
lookup-cleanup_requests window now t k [] h u = refl
lookup-cleanup_requests window now t k ((j, ts) ∷ m) h (a, u) = elim (bytes_discrete j k) [
  | yes e ↦ ground (
    arith,
    empty_of_length (recent window now ts),
    recent-recent window t now ts h,
    Absent-lookup k (cleanup_requests window now m)
        (Absent-cleanup window now k m (subst (λ x. Absent x m) e a)),
  )
  | no n ↦ ground (arith, lookup-cleanup_requests window now t k m h u)
]

-- `h` is what the limiter has granted to `k` up to the time `now`.
record Inv (limit window : ℕ) (k : Bytes) (rl : RateLimiter) (now : ℕ) (h : List ℕ) : Type 0 where
  same_limit : rl.limit ≡ limit
  same_window : rl.window ≡ window
  distinct : Unique rl.requests
  past : All (λ t. t ≤ now) h
  kept : (t : ℕ) → now ≤ t → recent window t (stored k rl) ≡ recent window t h
  bounded : (t : ℕ) → length (in_window window t h) ≤ limit

past_mono : (s t : ℕ) (h : List ℕ) → s ≤ t → All (λ x. x ≤ s) h → All (λ x. x ≤ t) h
past_mono s t [] l a = tt
past_mono s t (x ∷ h) l (le, a) = (omega arith, past_mono s t h l a)

module _ (limit window : ℕ) (k : Bytes) (rl : RateLimiter) (now : ℕ) (h : List ℕ) where
  bounded_grant :
      Inv limit window k rl now h
      → (at t : ℕ) → length (recent window at h) < limit
      → length (in_window window t (h ++ at ∷ [])) ≤ limit
  bounded_grant v at t free = rw (keep-append (λ s. ltb t (s + window) && leb s t) h (at ∷ [])) (
      ground (
        arith,
        length-append (in_window window t h) (in_window window t (at ∷ [])),
        v.bounded t,
        in_window-le window t h,
        recent_mono window t at h,
      ))

  later : Inv limit window k rl now h → (at : ℕ) → now ≤ at → Inv limit window k rl at h
  later v at le = record {
    same_limit = v.same_limit;
    same_window = v.same_window;
    distinct = v.distinct;
    past = past_mono now at h le v.past;
    kept = λ t l. v.kept t (omega arith);
    bounded = v.bounded;
  }

  -- A granted request of `k` itself.
  grant-Inv :
      Inv limit window k rl now h
      → (at : ℕ) → now ≤ at
      → length (recent rl.window at (stored k rl)) < limit
      → Inv limit window k
          (record rl {
            requests = insert k (recent rl.window at (stored k rl) ++ at ∷ []) rl.requests;
          })
          at
          (h ++ at ∷ [])
  grant-Inv v at le free =
      let same_recent = ap (λ w. recent w at (stored k rl)) v.same_window in
      record {
        same_limit = v.same_limit;
        same_window = v.same_window;
        distinct = insert-Unique k _ rl.requests v.distinct;
        past = All-append (λ t. t ≤ at) h (at ∷ []) (past_mono now at h le v.past) (omega arith);
        kept = λ t l. ground (
          arith,
          lookup-insert k k (recent rl.window at (stored k rl) ++ at ∷ []) rl.requests,
          same_recent,
          keep-append (λ s. ltb t (s + window)) (recent window at (stored k rl)) (at ∷ []),
          keep-append (λ s. ltb t (s + window)) h (at ∷ []),
          recent-recent window t at (stored k rl) l,
          v.kept t (omega arith),
        );
        bounded = λ t.
            bounded_grant v at t (omega (arith, ap length same_recent, ap length (v.kept at le)));
      }

  -- A granted request of another key.
  other-Inv :
      Inv limit window k rl now h
      → (key : Bytes) (at : ℕ) (ts : List ℕ) → now ≤ at
      → key ≢ k
      → Inv limit window k (record rl { requests = insert key ts rl.requests }) at h
  other-Inv v key at ts le ne = record {
    same_limit = v.same_limit;
    same_window = v.same_window;
    distinct = insert-Unique key ts rl.requests v.distinct;
    past = past_mono now at h le v.past;
    kept = λ t l. ground (arith, lookup-insert key k ts rl.requests, v.kept t (omega arith));
    bounded = v.bounded;
  }

  clean-Inv :
      Inv limit window k rl now h → (at : ℕ) → now ≤ at → Inv limit window k (cleanup rl at) at h
  unfolding cleanup
  clean-Inv v at le = record {
    same_limit = v.same_limit;
    same_window = v.same_window;
    distinct = cleanup-Unique rl.window at rl.requests v.distinct;
    past = past_mono now at h le v.past;
    kept = λ t l. ground (
      arith,
      v.same_window,
      lookup-cleanup_requests window at t k rl.requests l v.distinct,
      v.kept t (omega arith),
    );
    bounded = v.bounded;
  }

  allow-Inv :
      Inv limit window k rl now h
      → (key : Bytes) (at : ℕ) → now ≤ at
      → Inv limit window k (allow rl key at).0 at (h ++ grants k rl (allows key at))
  unfolding allow
  allow-Inv v key at le =
      elim (Bool-cases (leb rl.limit (length (recent rl.window at (stored key rl))))) [
        | inl full ↦
            let none_given : (if same key k && false then at ∷ [] else []) ≡ [] = ground arith in
            rw full (rw none_given (rw append-nil (later v at le)))
        | inr free ↦ elim (bytes_discrete key k) [
          | yes e ↦
              let given : (if same key k && true then at ∷ [] else []) ≡ at ∷ [] = ground arith in
              rw free (
                rw given (
                  rw e (grant-Inv v at le (ground (arith, v.same_limit, ap (λ j. stored j rl) e)))))
          | no ne ↦
              let none_given : (if same key k && true then at ∷ [] else []) ≡ [] = ground arith in
              rw free (rw none_given (rw append-nil (other-Inv v key at _ le ne)))
        ]
      ]

  step-Inv :
      Inv limit window k rl now h
      → (c : Call) → now ≤ at_time c
      → Inv limit window k (after rl c) (at_time c) (h ++ grants k rl c)
  step-Inv v (allows key at) le = allow-Inv v key at le
  step-Inv v (cleans at) le = rw append-nil (clean-Inv v at le)

run-Inv :
    (limit window : ℕ) (k : Bytes) (rl : RateLimiter) (now : ℕ) (h : List ℕ) (cs : List Call)
    → Inv limit window k rl now h
    → Ordered now cs
    → Inv limit window k (run rl cs) (end_time now cs) (h ++ granted k rl cs)
unfolding granted
run-Inv limit window k rl now h [] v o = rw append-nil v
run-Inv limit window k rl now h (c ∷ cs) v (le, o) = rw (← append_assoc) (
    run-Inv limit window k (after rl c) (at_time c) (h ++ grants k rl c) cs
      (step-Inv limit window k rl now h v c le) o)

history-Inv :
    (limit window : ℕ) (k : Bytes) (cs : List Call)
    → Ordered 0 cs
    → Inv limit window k
        (run (new_rate_limiter limit window) cs)
        (end_time 0 cs)
        (granted k (new_rate_limiter limit window) cs)
unfolding new_rate_limiter lookup
history-Inv limit window k cs o =
    run-Inv limit window k (new_rate_limiter limit window) 0 [] cs
      (record {
        same_limit = refl;
        same_window = refl;
        distinct = tt;
        past = tt;
        kept = λ t l. refl;
        bounded = λ t. omega arith;
      })
      o

-- Over any history of requests and clean-ups in order of time, no window of the limiter's length,
-- wherever it ends, holds more grants to one key than the limit.
pub granted-le-limit :
    (limit window : ℕ) (k : Bytes) (cs : List Call) (t : ℕ)
    → Ordered 0 cs
    → length (in_window window t (granted k (new_rate_limiter limit window) cs)) ≤ limit
granted-le-limit limit window k cs t o = (history-Inv limit window k cs o).bounded t

-- After any history in order of time, a request of a key is granted exactly when the key has fewer
-- grants than the limit in the window that ends at the request. So other keys' requests, refused
-- requests and clean-ups have no influence.
pub allow_exact :
    (limit window : ℕ) (k : Bytes) (cs : List Call) (now : ℕ)
    → Ordered 0 cs
    → end_time 0 cs ≤ now
    → (allow (run (new_rate_limiter limit window) cs) k now).1
      ≡ ltb (length (recent window now (granted k (new_rate_limiter limit window) cs))) limit
unfolding allow
allow_exact limit window k cs now o le =
    let rl = run (new_rate_limiter limit window) cs in
    let v = history-Inv limit window k cs o in
    ground (arith, v.same_limit, ap (λ w. recent w now (stored k rl)) v.same_window, v.kept now le)
