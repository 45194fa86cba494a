-- ===== src/Auth/Runs/Guarded.antt =====
-- Runs of the guards of internal/auth/middleware.go, and their theorems at concrete requests.
use skylens_azure.Common.{◌≡◌, refl, Bytes, bytes_discrete, codes, some, [], ◌∷◌, true, false, ◌↔◌}
use skylens_azure.Auth.Models.{has_role}
use skylens_azure.Auth.Samples.{viewer}
use skylens_azure.Auth.Guards.{
  serves, forbidden, require_role, require_permission, Request, is_safe, require_csrf, Allowed,
  require_permission_iff,
}

abbrev post : Bytes → Request
post header = record {
  method = codes "POST";
  csrf_cookie = some (codes "token");
  csrf_header = header;
  csrf_form = codes "token";
}

form_runs : require_csrf true (post []) ≡ serves
unfolding require_csrf bytes_discrete
form_runs = refl

forged_runs : require_csrf true (post (codes "guess")) ≡ forbidden true
unfolding require_csrf bytes_discrete
forged_runs = refl

role_runs : require_role (codes "admin" ∷ []) (some viewer) ≡ forbidden true
unfolding require_role has_role bytes_discrete
role_runs = refl

post_unsafe : is_safe (post []).method ≡ false
unfolding bytes_discrete
post_unsafe = refl

require_permission_iff_example :
    (require_permission (codes "drones.view" ∷ []) (some viewer) ≡ serves)
    ↔ Allowed (codes "drones.view" ∷ []) viewer
require_permission_iff_example = require_permission_iff (codes "drones.view" ∷ []) viewer
