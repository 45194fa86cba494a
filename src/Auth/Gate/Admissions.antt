-- ===== src/Auth/Gate/Admissions.antt =====
-- The theorems on RequireAuth of internal/auth/middleware.go.
use skylens_azure.Common.{◌≡◌, refl, Bytes, Option, none, some, [], ◌∷◌, ◌⊎◌, inl, inr}
use skylens_azure.Auth.Models.{User, JwtClaims}
use skylens_azure.Auth.Service.Defs.{Service, Store, Env, Result, ok, err}
use skylens_azure.Auth.Service.Login.{validate, refresh_tokens}
use skylens_azure.Auth.Service.Sessions.{Accepted, validate-Accepted}
use skylens_azure.Auth.Gate.{
  Credentials, admitted, token_of, require_auth, with_token, validate_again, try_refresh,
  try_refreshed, after_validation,
}

-- A request was let in for the token that it brought, or for one that its refresh token was exchanged for.
abbrev pub Entered :
    Service
    → Credentials
    → Env
    → Env
    → Env
    → Store
    → User
    → JwtClaims
    → Option (Bytes × Bytes)
    → Type 0
Entered svc r first mid last st u claims new =
    ((new ≡ none) × Accepted svc (token_of r) first st u claims)
    ⊎ ((cookie : Bytes) × (tokens : Bytes × Bytes) × (new ≡ some tokens)
        × (r.refresh_cookie ≡ some cookie)
        × ((refresh_tokens svc cookie mid (validate svc (token_of r) first st).store).result
            ≡ ok tokens)
        × Accepted svc tokens.0 last
            (refresh_tokens svc cookie mid (validate svc (token_of r) first st).store).store u
            claims)

validate_again-admitted :
    (tokens : Bytes × Bytes) (s : Store) (res : Result (User × JwtClaims)) (u : User)
    (claims : JwtClaims) (new : Option (Bytes × Bytes))
    → (validate_again tokens (record { store = s; result = res })).answer ≡ admitted u claims new
    → (res ≡ ok (u, claims)) × (new ≡ some tokens)
validate_again-admitted tokens s (ok (v, d)) u claims new e = (cc, cc)
validate_again-admitted tokens s (err x) u claims new e = absurd cc

try_refreshed-admitted :
    (svc : Service) (last : Env) (s : Store) (res : Result (Bytes × Bytes)) (u : User)
    (claims : JwtClaims) (new : Option (Bytes × Bytes))
    → (try_refreshed svc last (record { store = s; result = res })).answer ≡ admitted u claims new
    → (tokens : Bytes × Bytes) × (res ≡ ok tokens)
      × ((validate svc tokens.0 last s).result ≡ ok (u, claims))
      × (new ≡ some tokens)
try_refreshed-admitted svc last s (ok tokens) u claims new e =
    let o = validate svc tokens.0 last s in
    let (v, n) = validate_again-admitted tokens o.store o.result u claims new e in
    (tokens, refl, v, n)
try_refreshed-admitted svc last s (err x) u claims new e = absurd cc

module _ (svc : Service) (mid last : Env) (u : User) (claims : JwtClaims)
    (new : Option (Bytes × Bytes)) where
  -- What a refresh needs to admit a request.
  abbrev pub Exchanged : Option Bytes → Store → Type 0
  Exchanged cookie s =
      (c : Bytes) × (tokens : Bytes × Bytes) × (new ≡ some tokens)
      × (cookie ≡ some c)
      × ((refresh_tokens svc c mid s).result ≡ ok tokens)
      × Accepted svc tokens.0 last (refresh_tokens svc c mid s).store u claims

  try_refresh-admitted :
      (cookie : Option Bytes) (s : Store)
      → (try_refresh svc mid last cookie s).answer ≡ admitted u claims new
      → Exchanged cookie s
  try_refresh-admitted none s e = absurd cc
  try_refresh-admitted (some c) s e =
      let o = refresh_tokens svc c mid s in
      let (tokens, ok_tokens, v, n) =
        try_refreshed-admitted svc last o.store o.result u claims new e in
      (c, tokens, n, refl, ok_tokens, validate-Accepted svc tokens.0 last o.store u claims v)

  pub after_validation-admitted :
      (cookie : Option Bytes) (s : Store) (res : Result (User × JwtClaims))
      → (after_validation svc mid last cookie (record { store = s; result = res })).answer
        ≡ admitted u claims new
      → ((new ≡ none) × (res ≡ ok (u, claims))) ⊎ Exchanged cookie s
  after_validation-admitted cookie s (ok (v, d)) e = inl (cc, cc)
  after_validation-admitted cookie s (err x) e = inr (try_refresh-admitted cookie s e)

  with_token-admitted :
      (first : Env) (cookie : Option Bytes) (s : Store) (token : Bytes)
      → (with_token svc first mid last cookie s token).answer ≡ admitted u claims new
      → ((new ≡ none) × Accepted svc token first s u claims)
        ⊎ Exchanged cookie (validate svc token first s).store
  with_token-admitted first cookie s [] e = absurd cc
  with_token-admitted first cookie s (c ∷ cs) e =
      let o = validate svc (c ∷ cs) first s in
      elim (after_validation-admitted cookie o.store o.result e) [
        | inl (n, v) ↦ inl (n, validate-Accepted svc (c ∷ cs) first s u claims v)
        | inr h ↦ inr h
      ]

-- RequireAuth lets a request pass, for a user and claims, only if the token that the request brings is
-- accepted for them in the sense of ValidateToken, or if the cookie has a refresh token that is exchanged for
-- new tokens and the new access token is accepted for them.
pub require_auth-Entered :
    (svc : Service) (r : Credentials) (first mid last : Env) (st : Store) (u : User)
    (claims : JwtClaims) (new : Option (Bytes × Bytes))
    → (require_auth svc r first mid last st).answer ≡ admitted u claims new
    → Entered svc r first mid last st u claims new
unfolding require_auth
require_auth-Entered svc r first mid last st u claims new e =
    with_token-admitted svc mid last u claims new first r.refresh_cookie st (token_of r) e
