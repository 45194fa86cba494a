-- ===== src/Auth/Runs/Limits.antt =====
-- Runs of the limiter of internal/auth/middleware.go, and its theorems at concrete histories.
use skylens_azure.Common.{
  ◌≤◌, ◌≡◌, refl, bytes_discrete, List, [], ◌∷◌, length, codes, ltb, arith, Bytes,
}
use skylens_azure.Common.Maps.{lookup, insert}
use skylens_azure.Auth.RateLimit.{new_rate_limiter, allow, cleanup, recent}
use skylens_azure.Auth.RateLimit.Window.{
  Call, allows, cleans, granted, in_window, run, granted-le-limit, allow_exact,
}

abbrev ip : Bytes
ip = codes "10.0.0.7"

-- Two requests in the window, one refused, a clean-up, and one when the first has left it.
abbrev calls : List Call
calls =
    allows ip 0
    ∷ allows ip 40
    ∷ allows ip 50
    ∷ allows (codes "10.0.0.8") 55
    ∷ cleans 90
    ∷ allows ip 101
    ∷ []

granted_runs : granted ip (new_rate_limiter 2 100) calls ≡ 0 ∷ 40 ∷ 101 ∷ []
unfolding granted new_rate_limiter allow cleanup lookup insert bytes_discrete
granted_runs = refl

granted-le-limit_example :
    length (in_window 100 120 (granted ip (new_rate_limiter 2 100) calls)) ≤ 2
granted-le-limit_example = granted-le-limit 2 100 ip calls 120 (omega arith)

allow_exact_example :
    (allow (run (new_rate_limiter 2 100) calls) ip 130).1
    ≡ ltb (length (recent 100 130 (granted ip (new_rate_limiter 2 100) calls))) 2
allow_exact_example = allow_exact 2 100 ip calls 130 (omega arith) (omega arith)
