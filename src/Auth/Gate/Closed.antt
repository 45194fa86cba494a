-- ===== src/Auth/Gate/Closed.antt =====
-- The theorem on RequireAuth of internal/auth/middleware.go after a log-out.
use skylens_azure.Common.{
  ℕ, ◌≡◌, ◌≢◌, refl, sym, subst, Bytes, Option, none, some, [], ◌∷◌, true, false, inl, inr, arith,
}
use skylens_azure.Auth.Models.{User, Session, JwtClaims}
use skylens_azure.Auth.Jwt
use skylens_azure.Auth.Jwt.{validate_token, Decoded}
use skylens_azure.Auth.Service.Defs.{Service, Store, Env, Result, ok, get_session, user_by_id}
use skylens_azure.Auth.Service.Login.{
  validate, valid_user, valid_session, valid_claims, refresh_tokens, logout,
}
use skylens_azure.Auth.Service.Lockout.{is_ok}
use skylens_azure.Auth.Service.Sessions.{logout_ends}
use skylens_azure.Auth.Gate.{Credentials, admitted, token_of, require_auth, with_token}
use skylens_azure.Auth.Gate.Admissions.{after_validation-admitted}

valid_user-unchanged :
    (claims : JwtClaims) (now : ℕ) (st : Store) (o : Option User)
    → is_ok (valid_user claims now st o).result ≡ false
    → (valid_user claims now st o).store ≡ st
valid_user-unchanged claims now st none e = refl
valid_user-unchanged claims now st (some u) e = ground arith

valid_session-unchanged :
    (claims : JwtClaims) (now : ℕ) (st : Store) (o : Option Session)
    → is_ok (valid_session claims now st o).result ≡ false
    → (valid_session claims now st o).store ≡ st
valid_session-unchanged claims now st none e = refl
valid_session-unchanged claims now st (some s) e =
    ground (arith, valid_user-unchanged claims now st (user_by_id claims.user_id st.users))

valid_claims-unchanged :
    (env : Env) (st : Store) (d : Decoded)
    → is_ok (valid_claims env st d).result ≡ false
    → (valid_claims env st d).store ≡ st
valid_claims-unchanged env st (Jwt.Decoded.err x) e = refl
valid_claims-unchanged env st (Jwt.Decoded.ok claims) e =
    ground (arith, valid_session-unchanged claims env.now st (get_session env claims.session_id st))

validate-unchanged :
    (svc : Service) (token : Bytes) (env : Env) (st : Store)
    → is_ok (validate svc token env st).result ≡ false
    → (validate svc token env st).store ≡ st
unfolding validate
validate-unchanged svc token env st e =
    valid_claims-unchanged env st (validate_token svc.jwt token env.now) e

ok-false {ℓ} : {A : Type ℓ} (r : Result A) (a : A) → r ≡ ok a → is_ok r ≢ false
ok-false r a e = λ f. absurd cc

with_token-refused :
    (svc : Service) (first mid last : Env) (cookie : Option Bytes) (st : Store) (token : Bytes)
    (u : User) (claims : JwtClaims) (new : Option (Bytes × Bytes))
    → is_ok (validate svc token first st).result ≡ false
    → ((c : Bytes) → cookie ≡ some c → is_ok (refresh_tokens svc c mid st).result ≡ false)
    → (with_token svc first mid last cookie st token).answer ≢ admitted u claims new
with_token-refused svc first mid last cookie st [] u claims new v r = λ e. absurd cc
with_token-refused svc first mid last cookie st (x ∷ xs) u claims new v r = λ e.
    let o = validate svc (x ∷ xs) first st in
    elim (after_validation-admitted svc mid last u claims new cookie o.store o.result e) [
      | inl (n, k) ↦ ok-false o.result (u, claims) k v
      | inr (c, tokens, n, h, k, a) ↦ ok-false (refresh_tokens svc c mid o.store).result tokens k (
          subst (λ s. is_ok (refresh_tokens svc c mid s).result ≡ false)
            (sym (validate-unchanged svc (x ∷ xs) first st v)) (r c h))
    ]

-- A token that belongs to a session.
abbrev pub OfSession : Service → Bytes → ℕ → Bytes → Type 0
OfSession svc token now id =
    (d : JwtClaims) × (d.session_id ≡ id) × (validate_token svc.jwt token now ≡ Jwt.Decoded.ok d)

module _ (svc : Service) (id : Bytes) (env later : Env) (st : Store) (read : env.read_ok ≡ true)
    (k : is_ok (logout id env st).result ≡ true) (token : Bytes) where
  ended :
      OfSession svc token later.now id
      → (is_ok (validate svc token later (logout id env st).store).result ≡ false)
        × (is_ok (refresh_tokens svc token later (logout id env st).store).result ≡ false)
  ended (d, q, s) =
      subst
        (λ j.
          (is_ok (validate svc token later (logout j env st).store).result ≡ false)
          × (is_ok (refresh_tokens svc token later (logout j env st).store).result ≡ false))
        q
        (logout_ends svc token d env later st read
          (subst (λ j. is_ok (logout j env st).result ≡ true) (sym q) k) s)

-- After a log-out that could read the session and reports no error, RequireAuth lets no request pass whose
-- token, and whose refresh token if it has one, are of the session.
pub require_auth-logout :
    (svc : Service) (id : Bytes) (r : Credentials) (env first mid last : Env) (st : Store)
    (u : User) (claims : JwtClaims) (new : Option (Bytes × Bytes))
    → env.read_ok ≡ true
    → is_ok (logout id env st).result ≡ true
    → OfSession svc (token_of r) first.now id
    → ((c : Bytes) → r.refresh_cookie ≡ some c → OfSession svc c mid.now id)
    → (require_auth svc r first mid last (logout id env st).store).answer ≢ admitted u claims new
unfolding require_auth
require_auth-logout svc id r env first mid last st u claims new read k t f =
    with_token-refused svc first mid last r.refresh_cookie (logout id env st).store (token_of r) u
      claims new (ended svc id env first st read k (token_of r) t).0
      (λ c h. (ended svc id env mid st read k c (f c h)).1)
