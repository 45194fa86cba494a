-- ===== src/Auth/Guards.antt =====
-- The guards of internal/auth/middleware.go: RequireRole, RequirePermission and RequireCSRF, as what they
-- answer to a request. A guard that denies also says whether it logs the denial.
use skylens_azure.Common.{
  ◌≡◌, ◌≢◌, refl, ap, sym, subst, Bytes, bytes_discrete, codes, same, same→eq, same_refl, Option,
  none, some, List, [], ◌∷◌, Bool, true, false, ◌||◌, not, if◌then◌else◌, any, arith, ◌↔◌, ◌⊎◌, inl,
  inr, Bool-cases,
}
use skylens_azure.Auth.Models.{User, has_role, has_permission, is_admin}

pub data Answer : Type 0 where
  serves unauthorized : Answer
  forbidden : Bool → Answer

unfoldable pub require_role : List Bytes → Option User → Answer
require_role roles none = unauthorized
require_role roles (some user) =
    if any (λ role. has_role user role) roles then serves else forbidden true

unfoldable pub require_permission : List Bytes → Option User → Answer
require_permission permissions none = unauthorized
require_permission permissions (some user) =
    if is_admin user
    then serves
    else if any (λ perm. has_permission user perm) permissions
    then serves
    else forbidden true

pub record Request : Type 0 where
  pub method : Bytes
  pub csrf_cookie : Option Bytes
  pub csrf_header : Bytes
  pub csrf_form : Bytes

abbrev pub is_safe : Bytes → Bool
is_safe method =
    same method (codes "GET") || (same method (codes "HEAD") || same method (codes "OPTIONS"))

-- The header's token, or else the form's.
abbrev pub sent_token : Bytes → Bytes → Bytes
sent_token [] form = form
sent_token (c ∷ cs) form = c ∷ cs

abbrev pub match_token : Bytes → Bytes → Answer
match_token cookie [] = forbidden false
match_token cookie (c ∷ cs) = if same cookie (c ∷ cs) then serves else forbidden true

abbrev pub check_cookie : Request → Option Bytes → Answer
check_cookie r none = forbidden false
check_cookie r (some cookie) = match_token cookie (sent_token r.csrf_header r.csrf_form)

unfoldable pub require_csrf : Bool → Request → Answer
require_csrf csrf_enabled r =
    if is_safe r.method
    then serves
    else if not csrf_enabled
    then serves
    else check_cookie r r.csrf_cookie

match_token-serves :
    (cookie sent : Bytes) → match_token cookie sent ≡ serves → (cookie ≡ sent) × (sent ≢ [])
match_token-serves cookie [] e = absurd (ground arith)
match_token-serves cookie (c ∷ cs) e = (ground (arith, same→eq cookie (c ∷ cs)), λ q. cc)

serves-match_token : (sent : Bytes) → sent ≢ [] → match_token sent sent ≡ serves
serves-match_token [] n = absurd (n refl)
serves-match_token (c ∷ cs) n = ground (arith, same_refl (c ∷ cs))

some-same : (a b : Bytes) → some a ≡ some b → a ≡ b
some-same a b e = ground arith

check_cookie_iff :
    (r : Request) (o : Option Bytes)
    → (check_cookie r o ≡ serves) ↔ (
        (o ≡ some (sent_token r.csrf_header r.csrf_form))
        × (sent_token r.csrf_header r.csrf_form ≢ []))
check_cookie_iff r none = (λ e. absurd (ground arith), λ h. absurd (ground (arith, h.0)))
check_cookie_iff r (some cookie) =
    let sent = sent_token r.csrf_header r.csrf_form in
    (
      λ e. let (q, n) = match_token-serves cookie sent e in (ap some q, n),
      λ h.
          subst (λ c. match_token c sent ≡ serves) (sym (some-same cookie sent h.0))
            (serves-match_token sent h.1),
    )

-- A request that can change state is served, with the protection on, exactly when it brings a token that
-- is not empty, in the header or else in the form, and the cookie holds the same token.
require_csrf_iff :
    (r : Request)
    → is_safe r.method ≡ false
    → (require_csrf true r ≡ serves) ↔ (
        (r.csrf_cookie ≡ some (sent_token r.csrf_header r.csrf_form))
        × (sent_token r.csrf_header r.csrf_form ≢ []))
unfolding require_csrf
require_csrf_iff r s = rw s (check_cookie_iff r r.csrf_cookie)

abbrev pub Member : Bytes → List Bytes → Type 0
Member x ys = any (λ y. same y x) ys ≡ true

-- What RequirePermission asks of a user: the role "admin", or one of the permissions.
abbrev pub Allowed : List Bytes → User → Type 0
Allowed permissions u =
    (u.role_name ≡ codes "admin") ⊎ ((p : Bytes) × Member p permissions × Member p u.permissions)

has_permission-Member : (u : User) (p : Bytes) → has_permission u p ≡ true → Member p u.permissions
unfolding has_permission
has_permission-Member u p e = e

any_permission :
    (u : User) (ps : List Bytes)
    → any (λ p. has_permission u p) ps ≡ true
    → (p : Bytes) × Member p ps × Member p u.permissions
any_permission u [] e = absurd (ground arith)
any_permission u (p ∷ ps) e = elim (Bool-cases (has_permission u p)) [
  | inl h ↦ (p, ground (arith, same_refl p), has_permission-Member u p h)
  | inr h ↦ let (q, m, n) = any_permission u ps (ground arith) in (q, ground arith, n)
]

permission_any :
    (u : User) (ps : List Bytes) (p : Bytes)
    → Member p ps
    → Member p u.permissions
    → any (λ q. has_permission u q) ps ≡ true
unfolding has_permission
permission_any u [] p m n = absurd (ground arith)
permission_any u (q ∷ ps) p m n = elim (bytes_discrete q p) [
  | yes e ↦
      let here : has_permission u q ≡ true = subst (λ x. has_permission u x ≡ true) (sym e) n in
      ground (arith, here)
  | no ne ↦ ground (arith, permission_any u ps p (ground arith) n)
]

-- RequirePermission lets a logged-in user pass exactly when the user is an administrator or has one of
-- the permissions.
pub require_permission_iff :
    (permissions : List Bytes) (u : User)
    → (require_permission permissions (some u) ≡ serves) ↔ Allowed permissions u
unfolding require_permission is_admin has_role
require_permission_iff permissions u = (
  λ e. elim (Bool-cases (same u.role_name (codes "admin"))) [
    | inl a ↦ inl (same→eq _ _ a)
    | inr a ↦ inr (any_permission u permissions (ground arith))
  ],
  λ h. elim h [
    | inl a ↦ ground arith
    | inr (p, m, n) ↦ ground (arith, permission_any u permissions p m n)
  ],
)
