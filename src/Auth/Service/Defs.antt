-- ===== src/Auth/Service/Defs.antt =====
-- The configuration, the store and its statements, of internal/auth/auth.go. PostgreSQL is its tables: each statement of the source is a function on the
-- store, and takes effect unless the source looks at its error, which is then an argument. One call
-- sees one time `now`. bcrypt's comparison is an argument, and so is what `generateSecureID` returned.
use skylens_azure.Common.{
  ℕ, ◌+◌, Bytes, same, Option, none, some, List, [], ◌∷◌, Bool, true, false, if◌then◌else◌, ◌==◌,
}
use skylens_azure.Auth.Models.{User, Session}
use skylens_azure.Auth.Jwt.{JwtManager}

pub record Config : Type 0 where
  pub jwt_expiry : ℕ
  pub refresh_expiry : ℕ
  pub session_expiry : ℕ
  pub max_failed_attempts : ℕ
  pub lockout_duration : ℕ

pub data EventType : Type 0 where
  event_login event_login_failed event_logout event_token_refresh event_account_locked : EventType

pub record AuditEvent : Type 0 where
  pub user_id : Option ℕ
  pub username : Bytes
  pub event_type : EventType
  pub success : Bool

-- The tables `users`, `sessions` and `audit_log`, the last newest first.
pub record Store : Type 0 where
  pub users : List User
  pub sessions : List Session
  pub audit_log : List AuditEvent

pub data AuthError : Type 0 where
  invalid_credentials account_locked account_disabled session_expired session_revoked : AuthError
  invalid_token user_not_found internal : AuthError

pub data Result {ℓ} (A : Type ℓ) : Type ℓ where
  ok : A → Result A
  err : AuthError → Result A

-- What the libraries gave to one call: the clock, a fresh identifier (none if the random source
-- failed), and whether the INSERT into `sessions`, the SELECT of a session and its revocation succeeded.
pub record Env : Type 0 where
  pub now : ℕ
  pub new_id : Option Bytes
  pub insert_ok : Bool
  pub read_ok : Bool
  pub revoke_ok : Bool
  pub ip_address : Bytes
  pub user_agent : Bytes

pub record Service : Type 0 where
  pub config : Config
  pub jwt : JwtManager
  pub verify_password : Bytes → Bytes → Bool

-- SELECT … WHERE u.username = $1, and WHERE u.id = $1.
unfoldable pub user_by_username : Bytes → List User → Option User
user_by_username name [] = none
user_by_username name (u ∷ us) = if same u.username name then some u else user_by_username name us

unfoldable pub user_by_id : ℕ → List User → Option User
user_by_id id [] = none
user_by_id id (u ∷ us) = if u.id == id then some u else user_by_id id us

unfoldable pub session_by_id : Bytes → List Session → Option Session
session_by_id id [] = none
session_by_id id (s ∷ ss) = if same s.id id then some s else session_by_id id ss

-- The source's `getSession`. Its callers do not tell a session that is not there from a failed SELECT.
unfoldable pub get_session : Env → Bytes → Store → Option Session
get_session env id st = if env.read_ok then session_by_id id st.sessions else none

-- UPDATE users SET … WHERE id = $1, and the same of `sessions`.
unfoldable pub update_users : ℕ → (User → User) → List User → List User
update_users id f [] = []
update_users id f (u ∷ us) = (if u.id == id then f u else u) ∷ update_users id f us

unfoldable pub update_sessions : Bytes → (Session → Session) → List Session → List Session
update_sessions id f [] = []
update_sessions id f (s ∷ ss) = (if same s.id id then f s else s) ∷ update_sessions id f ss

abbrev pub update_user : ℕ → (User → User) → Store → Store
update_user id f st = record st { users = update_users id f st.users }

abbrev pub update_session : Bytes → (Session → Session) → Store → Store
update_session id f st = record st { sessions = update_sessions id f st.sessions }

unfoldable pub increment_failed_attempts : ℕ → Store → Store
increment_failed_attempts id =
    update_user id (λ u. record u { failed_attempts = u.failed_attempts + 1 })

unfoldable pub reset_failed_attempts : ℕ → Store → Store
reset_failed_attempts id = update_user id (λ u. record u { failed_attempts = 0 })

unfoldable pub lock_account : ℕ → ℕ → ℕ → Store → Store
lock_account id duration now =
    update_user id (λ u. record u { is_locked = true; locked_until = some (now + duration) })

unfoldable pub unlock_account : ℕ → Store → Store
unlock_account id =
    update_user id (λ u. record u { is_locked = false; locked_until = none; failed_attempts = 0 })

unfoldable pub update_last_login : ℕ → ℕ → Store → Store
update_last_login id now = update_user id (λ u. record u { last_login = some now })

unfoldable pub update_session_refresh_token : Bytes → Bytes → Store → Store
update_session_refresh_token id token = update_session id (λ s. record s { refresh_token = token })

unfoldable pub update_session_activity : Bytes → ℕ → Store → Store
update_session_activity id now = update_session id (λ s. record s { last_activity = now })

unfoldable pub revoke_session : Bytes → Bytes → ℕ → Store → Store
revoke_session id reason now =
    update_session id
      (λ s. record s { is_revoked = true; revoked_at = some now; revoked_reason = some reason })

unfoldable pub log_audit_event : Option ℕ → Bytes → EventType → Bool → Store → Store
log_audit_event user_id username event_type success st = record st {
  audit_log =
      record { user_id = user_id; username = username; event_type = event_type; success = success }
      ∷ st.audit_log;
}
