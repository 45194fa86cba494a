-- ===== src/Auth/Runs/Gates.antt =====
-- Runs of RequireAuth of internal/auth/middleware.go, and its theorems at concrete requests.
use skylens_azure.Common.{
  ◌≡◌, ◌≢◌, refl, sym, subst, Bytes, bytes_discrete, codes, arith, none, some, [], ◌++◌,
}
use skylens_azure.Auth.Jwt.{validate_token, generate_access_token, access_claims, check_parts, sign}
use skylens_azure.Auth.Samples.{viewer}
use skylens_azure.Auth.Service.Defs.{session_by_id, get_session, user_by_id}
use skylens_azure.Auth.Service.Login.{validate, logout}
use skylens_azure.Auth.Runs.Logins.{
  service_for, at, with_session, access_of_viewer, access_token, access_valid, logged_out,
}
use skylens_azure.Auth.Gate.{
  Credentials, admitted, denied, authentication_required, after_prefix, token_of, require_auth,
  optional_auth,
}
use skylens_azure.Auth.Gate.Admissions.{Entered, require_auth-Entered}
use skylens_azure.Auth.Gate.Closed.{OfSession, require_auth-logout}

abbrev nobody : Credentials
nobody = record {
  access_cookie = none;
  authorization = codes "Basic YTpi";
  refresh_cookie = some (codes "refresh");
}

-- A refresh token alone is not tried.
refresh_only_runs :
    (require_auth
      (service_for access_of_viewer)
      nobody
      (at 400)
      (at 400)
      (at 400)
      with_session).answer
    ≡ denied authentication_required
unfolding require_auth token_of after_prefix bytes_discrete
refresh_only_runs = refl

abbrev bearer : Credentials
bearer = record {
  access_cookie = some [];
  authorization = codes "Bearer " ++ access_token;
  refresh_cookie = some access_token;
}

bearer-token : token_of bearer ≡ access_token
unfolding token_of after_prefix generate_access_token sign
bearer-token = refl

admits :
    (require_auth
      (service_for access_of_viewer)
      bearer
      (at 400)
      (at 400)
      (at 400)
      with_session).answer
    ≡ admitted viewer access_of_viewer none
unfolding require_auth token_of after_prefix validate validate_token generate_access_token
    check_parts sign bytes_discrete access_claims session_by_id get_session user_by_id
admits = refl

optional_runs :
    (optional_auth (service_for access_of_viewer) bearer (at 400) with_session).user
    ≡ some (viewer, access_of_viewer)
unfolding optional_auth token_of after_prefix validate validate_token generate_access_token
    check_parts sign bytes_discrete access_claims session_by_id get_session user_by_id
optional_runs = refl

require_auth-Entered_example :
    Entered
      (service_for access_of_viewer)
      bearer
      (at 400)
      (at 400)
      (at 400)
      with_session
      viewer
      access_of_viewer
      none
require_auth-Entered_example =
    require_auth-Entered (service_for access_of_viewer) bearer (at 400) (at 400) (at 400)
      with_session viewer access_of_viewer none admits

token-OfSession :
    OfSession (service_for access_of_viewer) access_token 400 access_of_viewer.session_id
token-OfSession = (access_of_viewer, refl, access_valid)

bearer-OfSession :
    OfSession (service_for access_of_viewer) (token_of bearer) 400 access_of_viewer.session_id
bearer-OfSession =
    subst (λ t. OfSession (service_for access_of_viewer) t 400 access_of_viewer.session_id)
      (sym bearer-token) token-OfSession

cookie-OfSession :
    (c : Bytes)
    → some access_token ≡ some c
    → OfSession (service_for access_of_viewer) c 400 access_of_viewer.session_id
cookie-OfSession c e =
    let same_token : access_token ≡ c = ground arith in
    subst (λ t. OfSession (service_for access_of_viewer) t 400 access_of_viewer.session_id)
      same_token token-OfSession

require_auth-logout_example :
    (require_auth
      (service_for access_of_viewer)
      bearer
      (at 400)
      (at 400)
      (at 400)
      (logout access_of_viewer.session_id (at 300) with_session).store).answer
    ≢ admitted viewer access_of_viewer none
require_auth-logout_example =
    require_auth-logout (service_for access_of_viewer) access_of_viewer.session_id bearer (at 300)
      (at 400) (at 400) (at 400) with_session viewer access_of_viewer none refl logged_out
      bearer-OfSession cookie-OfSession
