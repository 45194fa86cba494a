-- ===== src/Auth/Gate.antt =====
-- RequireAuth and OptionalAuth of internal/auth/middleware.go, as what they answer to a request and what
-- their calls of the log-in service do to its store. Each call of the service has an `Env` of its own.
pub mod Admissions
pub mod Closed
use skylens_azure.Common.{
  Bytes, codes, Option, none, some, List, [], ◌∷◌, Bool, true, false, ◌==◌, if◌then◌else◌, ℕ,
}
use skylens_azure.Auth.Models.{User, JwtClaims}
use skylens_azure.Auth.Service.Defs.{Service, Store, Env, Result, ok, err}
use skylens_azure.Auth.Service.Login.{Outcome, validate, refresh_tokens}

-- The cookies and the header "Authorization" of a request.
pub record Credentials : Type 0 where
  pub access_cookie : Option Bytes
  pub authorization : Bytes
  pub refresh_cookie : Option Bytes

pub data Denial : Type 0 where
  authentication_required session_ended token_invalid : Denial

-- An admitted request gets the cookies of new tokens, if there are any; a denied one that ends the session
-- gets its cookies cleared.
pub data Admission : Type 0 where
  admitted : User → JwtClaims → Option (Bytes × Bytes) → Admission
  denied : Denial → Admission

pub record Gated : Type 0 where
  pub store : Store
  pub answer : Admission

unfoldable pub after_prefix : Bytes → Bytes → Bytes
after_prefix [] text = text
after_prefix (p ∷ ps) [] = []
after_prefix (p ∷ ps) (c ∷ cs) = let rest = after_prefix ps cs in if p == c then rest else []

abbrev pub cookie_or_empty : Option Bytes → Bytes
cookie_or_empty none = []
cookie_or_empty (some value) = value

abbrev pub token_or_bearer : Bytes → Bytes → Bytes
token_or_bearer [] authorization = after_prefix (codes "Bearer ") authorization
token_or_bearer (c ∷ cs) authorization = c ∷ cs

-- The token of a request; the empty token stands for none.
unfoldable pub token_of : Credentials → Bytes
unfolding after_prefix
token_of r = token_or_bearer (cookie_or_empty r.access_cookie) r.authorization

abbrev pub validate_again : Bytes × Bytes → Outcome (User × JwtClaims) → Gated
validate_again tokens o = elim o.result [
  | ok (user, claims) ↦ record { store = o.store; answer = admitted user claims (some tokens) }
  | err e ↦ record { store = o.store; answer = denied session_ended }
]

abbrev pub try_refreshed : Service → Env → Outcome (Bytes × Bytes) → Gated
try_refreshed svc last o = elim o.result [
  | ok tokens ↦ validate_again tokens (validate svc tokens.0 last o.store)
  | err e ↦ record { store = o.store; answer = denied session_ended }
]

abbrev pub try_refresh : Service → Env → Env → Option Bytes → Store → Gated
try_refresh svc mid last none st = record { store = st; answer = denied token_invalid }
try_refresh svc mid last (some cookie) st =
    try_refreshed svc last (refresh_tokens svc cookie mid st)

abbrev pub after_validation :
    Service → Env → Env → Option Bytes → Outcome (User × JwtClaims) → Gated
after_validation svc mid last cookie o = elim o.result [
  | ok (user, claims) ↦ record { store = o.store; answer = admitted user claims none }
  | err e ↦ try_refresh svc mid last cookie o.store
]

abbrev pub with_token : Service → Env → Env → Env → Option Bytes → Store → Bytes → Gated
with_token svc first mid last cookie st [] = record {
  store = st;
  answer = denied authentication_required;
}
with_token svc first mid last cookie st (c ∷ cs) =
    after_validation svc mid last cookie (validate svc (c ∷ cs) first st)

-- `first` is the environment of the first validation, `mid` that of the refresh, `last` that of the second
-- validation.
unfoldable pub require_auth : Service → Credentials → Env → Env → Env → Store → Gated
unfolding token_of validate refresh_tokens
require_auth svc r first mid last st =
    with_token svc first mid last r.refresh_cookie st (token_of r)

-- What OptionalAuth puts into the context of a request.
pub record Optional : Type 0 where
  pub store : Store
  pub user : Option (User × JwtClaims)

abbrev pub noted_user : Outcome (User × JwtClaims) → Optional
noted_user o = elim o.result [
  | ok known ↦ record { store = o.store; user = some known }
  | err e ↦ record { store = o.store; user = none }
]

abbrev pub optional_token : Service → Env → Store → Bytes → Optional
optional_token svc env st [] = record { store = st; user = none }
optional_token svc env st (c ∷ cs) = noted_user (validate svc (c ∷ cs) env st)

unfoldable pub optional_auth : Service → Credentials → Env → Store → Optional
unfolding token_of validate
optional_auth svc r env st = optional_token svc env st (token_of r)
