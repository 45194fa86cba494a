-- ===== src/Auth/Service/Login.antt =====
-- Login, Logout, ValidateToken and RefreshToken of internal/auth/auth.go.
use skylens_azure.Common.{
  ℕ, ◌+◌, Bytes, codes, same, Option, none, some, [], ◌∷◌, Bool, true, false, ltb, leb,
  if◌then◌else◌, not,
}
use skylens_azure.Auth.Models.{User, Session, JwtClaims, LoginRequest, is_expired}
use skylens_azure.Auth.Jwt
use skylens_azure.Auth.Jwt.{
  Decoded, access, refresh, generate_access_token, generate_refresh_token, validate_token,
}
use skylens_azure.Auth.Service.Defs.{
  Service, Store, Env, Result, AuthError, ok, err, invalid_credentials, account_locked,
  account_disabled, session_expired, session_revoked, invalid_token, user_not_found, internal,
  event_login, event_login_failed, event_logout, event_token_refresh, event_account_locked,
  user_by_username, user_by_id, get_session, increment_failed_attempts, reset_failed_attempts,
  lock_account, unlock_account, update_last_login, update_session_refresh_token,
  update_session_activity, revoke_session, log_audit_event,
}

pub record LoginResponse : Type 0 where
  pub user : User
  pub access_token : Bytes
  pub refresh_token : Bytes
  pub session : Session

-- The Go value and the store that the call leaves behind.
pub record Outcome {ℓ} (A : Type ℓ) : Type ℓ where
  pub store : Store
  pub result : Result A

abbrev pub fail {ℓ} : {A : Type ℓ} → AuthError → Store → Outcome A
fail e st = record { store = st; result = err e }

abbrev login_failed : User → Store → Store
login_failed u = log_audit_event (some u.id) u.username event_login_failed false

abbrev pub session_expiry : Service → Bool → ℕ
session_expiry svc remember_me =
    if remember_me then svc.config.refresh_expiry else svc.config.session_expiry

abbrev pub new_session : Service → User → Env → Bool → Bytes → Session
new_session svc u env remember_me id = record {
  id = id;
  user_id = u.id;
  refresh_token = [];
  ip_address = env.ip_address;
  user_agent = env.user_agent;
  created_at = env.now;
  expires_at = env.now + session_expiry svc remember_me;
  last_activity = env.now;
  is_revoked = false;
  revoked_at = none;
  revoked_reason = none;
}

-- `createSession`: no session if the random source or the INSERT failed.
unfoldable pub create_session : Service → User → Env → Bool → Store → Store × Option Session
create_session svc u env remember_me st = elim env.new_id [
  | none ↦ (st, none)
  | some id ↦
      if env.insert_ok
      then (
        record st { sessions = new_session svc u env remember_me id ∷ st.sessions },
        some (new_session svc u env remember_me id),
      )
      else (st, none)
]

-- Login from the tokens on.
abbrev issue : Service → User → Env → Store × Option Session → Outcome LoginResponse
issue svc u env (st, none) = fail internal st
issue svc u env (st, some session) =
    let access_token = generate_access_token svc.jwt u session.id env.now in
    let refresh_token = generate_refresh_token svc.jwt u session.id env.now in
    record {
      store = log_audit_event (some u.id) u.username event_login true (
          update_last_login u.id env.now
            (update_session_refresh_token session.id refresh_token st));
      result = ok (record {
        user = u;
        access_token = access_token;
        refresh_token = refresh_token;
        session = record session { refresh_token = refresh_token };
      });
    }

-- Login from a password that verified on.
unfoldable pub admit : Service → User → Env → Bool → Store → Outcome LoginResponse
unfolding create_session
admit svc u env remember_me st =
    issue svc u env (create_session svc u env remember_me (reset_failed_attempts u.id st))

-- Login at a password that did not verify. `u` is the row as it was read, its counter included.
unfoldable pub reject : Service → User → Env → Store → Outcome LoginResponse
reject svc u env st =
    let counted = increment_failed_attempts u.id st in
    let locked =
      if leb svc.config.max_failed_attempts (u.failed_attempts + 1)
      then log_audit_event (some u.id) u.username event_account_locked true
          (lock_account u.id svc.config.lockout_duration env.now counted)
      else counted in
    fail invalid_credentials (login_failed u locked)

-- Login after the test of the lock.
unfoldable pub check_user : Service → User → LoginRequest → Env → Store → Outcome LoginResponse
unfolding admit reject
check_user svc u req env st =
    if not u.is_active
    then fail account_disabled (login_failed u st)
    else if not (svc.verify_password req.password u.password_hash)
    then reject svc u env st
    else admit svc u env req.remember_me st

-- `user.LockedUntil != nil && time.Now().Before(*user.LockedUntil)`.
abbrev pub still_locked : Option ℕ → ℕ → Bool
still_locked none now = false
still_locked (some until) now = ltb now until

unfoldable pub login_user : Service → User → LoginRequest → Env → Store → Outcome LoginResponse
unfolding check_user
login_user svc u req env st =
    if u.is_locked
    then if still_locked u.locked_until env.now
      then fail account_locked (login_failed u st)
      else check_user svc (record u { is_locked = false }) req env (unlock_account u.id st)
    else check_user svc u req env st

unfoldable pub login : Service → LoginRequest → Env → Store → Outcome LoginResponse
unfolding login_user
login svc req env st = elim (user_by_username req.username st.users) [
  | none ↦ fail invalid_credentials (log_audit_event none req.username event_login_failed false st)
  | some u ↦ login_user svc u req env st
]

-- Service.Logout: no session, or none that could be read, is taken for logged out.
unfoldable pub logout : Bytes → Env → Store → Outcome (Unit {0})
unfolding get_session
logout session_id env st = elim (get_session env session_id st) [
  | none ↦ record { store = st; result = ok tt }
  | some session ↦
      if env.revoke_ok
      then record {
        store =
            log_audit_event (some session.user_id) [] event_logout true
              (revoke_session session_id (codes "logout") env.now st);
        result = ok tt;
      }
      else fail internal st
]

abbrev pub valid_user : JwtClaims → ℕ → Store → Option User → Outcome (User × JwtClaims)
valid_user claims now st none = fail user_not_found st
valid_user claims now st (some u) = if not u.is_active then fail account_disabled st else record {
  store = update_session_activity claims.session_id now st;
  result = ok (u, claims);
}

abbrev pub valid_session : JwtClaims → ℕ → Store → Option Session → Outcome (User × JwtClaims)
valid_session claims now st none = fail session_expired st
valid_session claims now st (some session) =
    if session.is_revoked
    then fail session_revoked st
    else if is_expired session now
    then fail session_expired st
    else valid_user claims now st (user_by_id claims.user_id st.users)

abbrev pub valid_claims : Env → Store → Decoded → Outcome (User × JwtClaims)
valid_claims env st (Jwt.Decoded.err e) = fail invalid_token st
valid_claims env st (Jwt.Decoded.ok claims) =
    if not (same claims.token_type access)
    then fail invalid_token st
    else valid_session claims env.now st (get_session env claims.session_id st)

-- Service.ValidateToken.
unfoldable pub validate : Service → Bytes → Env → Store → Outcome (User × JwtClaims)
unfolding is_expired get_session
validate svc token env st = valid_claims env st (validate_token svc.jwt token env.now)

abbrev refresh_user :
    Service → JwtClaims → Session → Env → Store → Option User → Outcome (Bytes × Bytes)
refresh_user svc claims session env st none = fail user_not_found st
refresh_user svc claims session env st (some u) =
    if not u.is_active
    then fail account_disabled st
    else let access_token = generate_access_token svc.jwt u session.id env.now in
      let new_refresh_token = generate_refresh_token svc.jwt u session.id env.now in
      record {
        store = log_audit_event (some u.id) u.username event_token_refresh true (
            update_session_activity session.id env.now
              (update_session_refresh_token session.id new_refresh_token st));
        result = ok (access_token, new_refresh_token);
      }

abbrev refresh_session :
    Service → JwtClaims → Env → Store → Option Session → Outcome (Bytes × Bytes)
refresh_session svc claims env st none = fail session_expired st
refresh_session svc claims env st (some session) =
    if session.is_revoked
    then fail session_revoked st
    else refresh_user svc claims session env st (user_by_id claims.user_id st.users)

abbrev refresh_with_claims : Service → Env → Store → Decoded → Outcome (Bytes × Bytes)
refresh_with_claims svc env st (Jwt.Decoded.err e) = fail invalid_token st
refresh_with_claims svc env st (Jwt.Decoded.ok claims) =
    if not (same claims.token_type refresh)
    then fail invalid_token st
    else refresh_session svc claims env st (get_session env claims.session_id st)

-- Service.RefreshToken.
unfoldable pub refresh_tokens : Service → Bytes → Env → Store → Outcome (Bytes × Bytes)
unfolding get_session
refresh_tokens svc token env st =
    refresh_with_claims svc env st (validate_token svc.jwt token env.now)
