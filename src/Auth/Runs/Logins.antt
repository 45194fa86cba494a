-- ===== src/Auth/Runs/Logins.antt =====
-- Runs of the log-in and the tokens of internal/auth/auth.go, and its theorems at concrete stores.
use skylens_azure.Common.{
  ℕ, ◌≡◌, refl, Bytes, bytes_discrete, codes, same, none, some, [], ◌∷◌, true, false, arith, not,
  ◌&&◌, is_some,
}
use skylens_azure.Auth.Models.{User, Session, JwtClaims, LoginRequest}
use skylens_azure.Auth.Jwt
use skylens_azure.Auth.Jwt.{
  JwtManager, validate_token, generate_access_token, generate_refresh_token, access_claims,
  refresh_claims, encode, decode, split, sign, check_parts,
}
use skylens_azure.Auth.Samples.{viewer, manager, empty_claims}
use skylens_azure.Auth.Service.Defs.{
  Service, Store, Env, ok, user_by_username, user_by_id, session_by_id, get_session,
}
use skylens_azure.Auth.Service.Login.{login, validate, refresh_tokens, logout, still_locked}
use skylens_azure.Auth.Service.Lockout.{
  is_ok, attempts, login-ok_iff, lockout_at_limit, relock_after_lockout,
}
use skylens_azure.Auth.Service.Sessions.{
  Accepted, may_refresh, validate-Accepted, logout_ends, refresh-ok_iff, refresh_again,
}

-- Three failures lock an account for 900 units of time.
abbrev pub service_for : JwtClaims → Service
service_for claims = record {
  config = record {
    jwt_expiry = 28_800_000_000_000;
    refresh_expiry = 604_800_000_000_000;
    session_expiry = 86_400_000_000_000;
    max_failed_attempts = 3;
    lockout_duration = 900;
  };
  jwt = manager claims;
  verify_password = same;
}

abbrev service : Service
service = service_for empty_claims

abbrev pub at : ℕ → Env
at now = record {
  now = now;
  new_id = some (codes "s1");
  insert_ok = true;
  read_ok = true;
  revoke_ok = true;
  ip_address = codes "10.0.0.7";
  user_agent = codes "test";
}

abbrev wrong : LoginRequest
wrong = record { username = codes "ada"; password = codes "guess"; remember_me = false }

abbrev right : LoginRequest
right = record { username = codes "ada"; password = codes "secret"; remember_me = false }

abbrev locked_viewer : User
locked_viewer = record viewer { is_locked = true; locked_until = some 1000; failed_attempts = 3 }

abbrev store_of : User → Store
store_of u = record { users = u ∷ []; sessions = []; audit_log = [] }

found : user_by_username (codes "ada") (store_of viewer).users ≡ some viewer
unfolding user_by_username bytes_discrete
found = refl

found_locked : user_by_username (codes "ada") (store_of locked_viewer).users ≡ some locked_viewer
unfolding user_by_username bytes_discrete
found_locked = refl

rejected : same (codes "guess") (codes "secret") ≡ false
unfolding bytes_discrete
rejected = refl

login-ok_iff_example : is_ok (login service right (at 5) (store_of viewer)).result ≡ (
    not (false && still_locked none 5)
    && true
    && same (codes "secret") (codes "secret")
    && is_some (some (codes "s1"))
    && true)
login-ok_iff_example = login-ok_iff service right (at 5) (store_of viewer) viewer found

lockout_at_limit_example :
    (user_by_username
        (codes "ada")
        (attempts service ((wrong, at 1) ∷ (wrong, at 2) ∷ []) (store_of viewer)).users
      ≡ some (record viewer { failed_attempts = 2 }))
    × (user_by_username
          (codes "ada")
          (attempts service
            ((wrong, at 1) ∷ (wrong, at 2) ∷ (wrong, at 3) ∷ [])
            (store_of viewer)).users
        ≡ some (record viewer { failed_attempts = 3; is_locked = true; locked_until = some 903 }))
lockout_at_limit_example =
    lockout_at_limit service ((wrong, at 1) ∷ (wrong, at 2) ∷ []) wrong (at 3) (store_of viewer)
      viewer found refl refl refl ((refl, rejected), ((refl, rejected), tt)) ((refl, rejected), tt)
      refl

relock_after_lockout_example :
    user_by_username
      (codes "ada")
      (login service wrong (at 2000) (store_of locked_viewer)).store.users
    ≡ some (record viewer { failed_attempts = 1; is_locked = true; locked_until = some 2900 })
relock_after_lockout_example =
    relock_after_lockout service wrong (at 2000) (store_of locked_viewer) locked_viewer found_locked
      refl refl refl refl rejected (omega arith)

abbrev viewer_session : Session
viewer_session = record {
  id = codes "s1";
  user_id = 3;
  refresh_token = codes "other";
  ip_address = [];
  user_agent = [];
  created_at = 0;
  expires_at = 500;
  last_activity = 0;
  is_revoked = false;
  revoked_at = none;
  revoked_reason = none;
}

abbrev pub with_session : Store
with_session = record (store_of viewer) { sessions = viewer_session ∷ [] }

abbrev pub access_of_viewer : JwtClaims
unfolding access_claims
access_of_viewer = access_claims (manager empty_claims) viewer (codes "s1") 0

abbrev refresh_of_viewer : JwtClaims
refresh_of_viewer =
    unfold refresh_claims in refresh_claims (manager empty_claims) viewer (codes "s1") 0

abbrev pub access_token : Bytes
unfolding generate_access_token sign
access_token = generate_access_token (manager access_of_viewer) viewer (codes "s1") 0

abbrev refresh_token : Bytes
unfolding generate_refresh_token sign
refresh_token = generate_refresh_token (manager refresh_of_viewer) viewer (codes "s1") 0

pub access_valid :
    validate_token (manager access_of_viewer) access_token 400 ≡ Jwt.Decoded.ok access_of_viewer
unfolding validate_token generate_access_token check_parts sign bytes_discrete access_claims
access_valid = refl

refresh_valid :
    validate_token (manager refresh_of_viewer) refresh_token 600 ≡ Jwt.Decoded.ok refresh_of_viewer
unfolding validate_token generate_refresh_token check_parts sign bytes_discrete refresh_claims
refresh_valid = refl

accepted :
    (validate (service_for access_of_viewer) access_token (at 400) with_session).result
    ≡ ok (viewer, access_of_viewer)
unfolding validate validate_token generate_access_token check_parts sign bytes_discrete
    access_claims session_by_id get_session user_by_id
accepted = refl

validate-Accepted_example :
    Accepted
      (service_for access_of_viewer)
      access_token
      (at 400)
      with_session
      viewer
      access_of_viewer
validate-Accepted_example =
    validate-Accepted (service_for access_of_viewer) access_token (at 400) with_session viewer
      access_of_viewer accepted

pub logged_out : is_ok (logout access_of_viewer.session_id (at 300) with_session).result ≡ true
unfolding logout session_by_id get_session bytes_discrete access_claims
logged_out = refl

logout_ends_example :
    (is_ok
        (validate
          (service_for access_of_viewer)
          access_token
          (at 400)
          (logout access_of_viewer.session_id (at 300) with_session).store).result
      ≡ false)
    × (is_ok
          (refresh_tokens
            (service_for access_of_viewer)
            access_token
            (at 400)
            (logout access_of_viewer.session_id (at 300) with_session).store).result
        ≡ false)
logout_ends_example =
    logout_ends (service_for access_of_viewer) access_token access_of_viewer (at 300) (at 400)
      with_session refl logged_out access_valid

-- The session has expired at 500; the refresh at 600 goes through.
refresh-ok_iff_example :
    is_ok
      (refresh_tokens (service_for refresh_of_viewer) refresh_token (at 600) with_session).result
    ≡ may_refresh refresh_of_viewer
        (get_session (at 600) refresh_of_viewer.session_id with_session)
        (user_by_id refresh_of_viewer.user_id (viewer ∷ []))
refresh-ok_iff_example =
    refresh-ok_iff (service_for refresh_of_viewer) refresh_token refresh_of_viewer (at 600)
      with_session refresh_valid

refreshed :
    is_ok
      (refresh_tokens (service_for refresh_of_viewer) refresh_token (at 600) with_session).result
    ≡ true
unfolding refresh_tokens validate_token generate_refresh_token check_parts sign bytes_discrete
    refresh_claims session_by_id get_session user_by_id
refreshed = refl

refresh_again_example :
    is_ok
      (refresh_tokens
        (service_for refresh_of_viewer)
        refresh_token
        (at 600)
        (refresh_tokens
          (service_for refresh_of_viewer)
          refresh_token
          (at 600)
          with_session).store).result
    ≡ true
refresh_again_example =
    refresh_again (service_for refresh_of_viewer) refresh_token refresh_of_viewer (at 600) (at 600)
      with_session refresh_valid refresh_valid refl refreshed
