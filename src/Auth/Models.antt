-- ===== src/Auth/Models.antt =====
-- The rows and requests of internal/auth/models.go, and its permission checks. Times are
-- nanoseconds; a time that Go keeps behind a pointer is an `Option`. Fields that no modelled
-- operation reads or writes (e-mail, display name, creation data) are left out.
use skylens_azure.Common.{
  ℕ, Bytes, codes, same, Option, List, Bool, true, any, if◌then◌else◌, ltb, not, ◌&&◌, ◌||◌,
}

pub record User : Type 0 where
  pub id : ℕ
  pub username : Bytes
  pub password_hash : Bytes
  pub role_id : ℕ
  pub role_name : Bytes
  pub is_active : Bool
  pub is_locked : Bool
  pub locked_until : Option ℕ
  pub failed_attempts : ℕ
  pub last_login : Option ℕ
  pub permissions : List Bytes
  pub allowed_taps : List Bytes

pub record Session : Type 0 where
  pub id : Bytes
  pub user_id : ℕ
  pub refresh_token : Bytes
  pub ip_address : Bytes
  pub user_agent : Bytes
  pub created_at : ℕ
  pub expires_at : ℕ
  pub last_activity : ℕ
  pub is_revoked : Bool
  pub revoked_at : Option ℕ
  pub revoked_reason : Option Bytes

-- `issued_at`, `expires_at` and `not_before` are Unix seconds.
pub record JwtClaims : Type 0 where
  pub user_id : ℕ
  pub username : Bytes
  pub role_id : ℕ
  pub role_name : Bytes
  pub session_id : Bytes
  pub permissions : List Bytes
  pub issued_at : ℕ
  pub expires_at : ℕ
  pub not_before : ℕ
  pub token_type : Bytes

pub record LoginRequest : Type 0 where
  pub username : Bytes
  pub password : Bytes
  pub remember_me : Bool

unfoldable pub has_permission : User → Bytes → Bool
has_permission u permission = any (λ p. same p permission) u.permissions

unfoldable pub has_role : User → Bytes → Bool
has_role u role_name = same u.role_name role_name

unfoldable pub is_admin : User → Bool
unfolding has_role
is_admin u = has_role u (codes "admin")

unfoldable pub can_access_tap : User → Bytes → Bool
can_access_tap u tap_id =
    if same u.role_name (codes "admin") || same u.role_name (codes "operator")
    then true
    else any (λ t. same t tap_id) u.allowed_taps

-- `time.Now().After(s.ExpiresAt)`.
unfoldable pub is_expired : Session → ℕ → Bool
is_expired s now = ltb s.expires_at now

unfoldable pub is_valid : Session → ℕ → Bool
unfolding is_expired
is_valid s now = not (is_expired s now) && not s.is_revoked
