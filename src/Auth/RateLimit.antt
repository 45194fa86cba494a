-- ===== src/Auth/RateLimit.antt =====
-- The sliding-window rate limiter of internal/auth/middleware.go. Times are nanoseconds, and
-- `t.After(now.Add(-window))` is `now < t + window`.
pub mod Window
use skylens_azure.Common.{
  ℕ, ◌+◌, Bytes, Option, none, some, List, [], ◌∷◌, ◌++◌, Bool, true, false, ltb, leb,
  if◌then◌else◌, length, keep, not, ◌==◌,
}
use skylens_azure.Common.Maps.{Map, lookup, insert}

pub record RateLimiter : Type 0 where
  pub requests : Map (List ℕ)
  pub limit : ℕ
  pub window : ℕ

unfoldable pub new_rate_limiter : ℕ → ℕ → RateLimiter
new_rate_limiter limit window = record { requests = []; limit = limit; window = window }

-- A key that is not in the map reads as the nil slice.
abbrev pub or_nil : Option (List ℕ) → List ℕ
or_nil none = []
or_nil (some ts) = ts

-- The loop over `requests` of `Allow` and of `Cleanup`.
abbrev pub recent : ℕ → ℕ → List ℕ → List ℕ
recent window now = keep (λ t. ltb now (t + window))

unfoldable pub allow : RateLimiter → Bytes → ℕ → RateLimiter × Bool
allow rl key now =
    let kept = recent rl.window now (or_nil (lookup key rl.requests)) in
    if leb rl.limit (length kept)
    then (rl, false)
    else (record rl { requests = insert key (kept ++ now ∷ []) rl.requests }, true)

-- The body of the loop of `Cleanup`, and the loop.
unfoldable pub cleanup_requests : ℕ → ℕ → Map (List ℕ) → Map (List ℕ)
cleanup_requests window now [] = []
cleanup_requests window now ((key, ts) ∷ m) =
    let kept = recent window now ts in
    let rest = cleanup_requests window now m in
    if length kept == 0 then rest else (key, kept) ∷ rest

unfoldable pub cleanup : RateLimiter → ℕ → RateLimiter
unfolding cleanup_requests
cleanup rl now = record rl { requests = cleanup_requests rl.window now rl.requests }
