-- ===== src/Auth/Service/Sessions.antt =====
-- What ValidateToken, RefreshToken and Logout of internal/auth/auth.go require of a session.
use skylens_azure.Common.{
  ℕ, ◌≤◌, ◌≡◌, refl, Bytes, same, same→eq, Option, none, some, List, [], ◌∷◌, Bool, true, false,
  if◌then◌else◌, not, arith, codes, inl, inr, Bool-cases, Option-cases, same_refl, ◌&&◌,
}
use skylens_azure.Auth.Models.{User, Session, JwtClaims}
use skylens_azure.Auth.Jwt
use skylens_azure.Auth.Jwt.{access, refresh, generate_refresh_token, validate_token}
use skylens_azure.Auth.Service.Defs.{
  Service, Store, Env, ok, user_by_id, session_by_id, get_session, update_sessions,
  update_session_activity, update_session_refresh_token, revoke_session, log_audit_event,
}
use skylens_azure.Auth.Service.Login.{validate, refresh_tokens, logout}
use skylens_azure.Auth.Service.Lockout.{is_ok}

-- What an accepted access token rests on.
pub record Accepted (svc : Service) (token : Bytes) (env : Env) (st : Store) (u : User)
    (claims : JwtClaims) : Type 0 where
  pub session : Session
  pub signed : validate_token svc.jwt token env.now ≡ Jwt.Decoded.ok claims
  pub is_access : claims.token_type ≡ access
  pub in_store : session_by_id claims.session_id st.sessions ≡ some session
  pub not_revoked : session.is_revoked ≡ false
  pub in_time : env.now ≤ session.expires_at
  pub owner : user_by_id claims.user_id st.users ≡ some u
  pub active : u.is_active ≡ true

get_session-stored :
    (env : Env) (id : Bytes) (st : Store) (s : Session)
    → get_session env id st ≡ some s
    → session_by_id id st.sessions ≡ some s
unfolding get_session
get_session-stored env id st s e = ground (arith, e)

get_session-read :
    (env : Env) (id : Bytes) (st : Store)
    → env.read_ok ≡ true
    → get_session env id st ≡ session_by_id id st.sessions
unfolding get_session
get_session-read env id st r = rw r refl

validate_session :
    (svc : Service) (token : Bytes) (env : Env) (st : Store) (u : User) (claims : JwtClaims)
    (o : Option Session)
    → get_session env claims.session_id st ≡ o
    → validate_token svc.jwt token env.now ≡ Jwt.Decoded.ok claims
    → (validate svc token env st).result ≡ ok (u, claims)
    → Accepted svc token env st u claims
unfolding validate
validate_session svc token env st u claims none e s h = absurd (ground arith)
validate_session svc token env st u claims (some session) e s h = record {
  session = session;
  signed = s;
  is_access = ground (arith, same→eq claims.token_type access);
  in_store = get_session-stored env claims.session_id st session e;
  not_revoked = ground arith;
  in_time = ground arith;
  owner = ground arith;
  active = ground arith;
}

validate_token-ok :
    (svc : Service) (token : Bytes) (env : Env) (st : Store) (u : User) (claims : JwtClaims)
    → (validate svc token env st).result ≡ ok (u, claims)
    → validate_token svc.jwt token env.now ≡ Jwt.Decoded.ok claims
unfolding validate
validate_token-ok svc token env st u claims h = ground arith

-- An access token is accepted, for a user and claims, only if it is a valid token with these claims,
-- it is an access token, its session is in the store, is not revoked and has not expired, and the
-- user of the claims is in the store and active.
pub validate-Accepted :
    (svc : Service) (token : Bytes) (env : Env) (st : Store) (u : User) (claims : JwtClaims)
    → (validate svc token env st).result ≡ ok (u, claims)
    → Accepted svc token env st u claims
validate-Accepted svc token env st u claims h =
    validate_session svc token env st u claims (get_session env claims.session_id st) refl
      (validate_token-ok svc token env st u claims h) h

session_by_id-update :
    (id j : Bytes) (f : Session → Session) (ss : List Session)
    → ((s : Session) → (f s).id ≡ s.id)
    → session_by_id j (update_sessions id f ss) ≡ (elim (session_by_id j ss) [
      | none ↦ none
      | some s ↦ some (if same s.id id then f s else s)
    ])
unfolding session_by_id update_sessions
session_by_id-update id j f [] k = refl
session_by_id-update id j f (s ∷ ss) k = ground (arith, k s, session_by_id-update id j f ss k)

session_by_id-id :
    (j : Bytes) (ss : List Session) (s : Session) → session_by_id j ss ≡ some s → s.id ≡ j
unfolding session_by_id
session_by_id-id j [] s e = cc
session_by_id-id j (x ∷ ss) s e = ground (arith, session_by_id-id j ss s, same→eq x.id j)

abbrev IsRefused : Option Session → Type 0
IsRefused none = Unit
IsRefused (some s) = s.is_revoked ≡ true

logout-revoked :
    (id : Bytes) (env : Env) (st : Store)
    → env.read_ok ≡ true
    → is_ok (logout id env st).result ≡ true
    → IsRefused (session_by_id id (logout id env st).store.sessions)
unfolding logout revoke_session log_audit_event
logout-revoked id env st read k = elim (Option-cases (session_by_id id st.sessions)) [
  | inl e ↦ rw (get_session-read env id st read, e, logout) (rw e tt)
  | inr (s, e) ↦
      let k' = rw (get_session-read env id st read, e, logout) at k in
      let r : env.revoke_ok ≡ true = ground arith in
      rw (get_session-read env id st read, e, r, logout)
        (rw
          (session_by_id-update id id
            (λ x. record x {
              is_revoked = true;
              revoked_at = some env.now;
              revoked_reason = some (codes "logout");
            })
            st.sessions (λ x. refl))
          (rw e (ground (arith, session_by_id-id id st.sessions s e, same_refl id))))
]

get_session-IsRefused :
    (env : Env) (id : Bytes) (st : Store)
    → IsRefused (session_by_id id st.sessions)
    → IsRefused (get_session env id st)
unfolding get_session
get_session-IsRefused env id st r = elim (Bool-cases env.read_ok) [
  | inl e ↦ rw e r
  | inr e ↦ rw e tt
]

module _ (svc : Service) (token : Bytes) (claims : JwtClaims) (env : Env) (st : Store) where
  refused_validate :
      (o : Option Session)
      → get_session env claims.session_id st ≡ o
      → IsRefused o
      → validate_token svc.jwt token env.now ≡ Jwt.Decoded.ok claims
      → is_ok (validate svc token env st).result ≡ false
  unfolding validate
  refused_validate none e r s = ground arith
  refused_validate (some x) e r s = ground arith

  refused_refresh :
      (o : Option Session)
      → get_session env claims.session_id st ≡ o
      → IsRefused o
      → validate_token svc.jwt token env.now ≡ Jwt.Decoded.ok claims
      → is_ok (refresh_tokens svc token env st).result ≡ false
  unfolding refresh_tokens
  refused_refresh none e r s = ground arith
  refused_refresh (some x) e r s = ground arith

-- After a log-out that could read the session and reports no error, no token of the session, of either
-- type, is accepted or refreshed any more, whatever its own expiry and whatever the later reads give.
pub logout_ends :
    (svc : Service) (token : Bytes) (claims : JwtClaims) (env later : Env) (st : Store)
    → env.read_ok ≡ true
    → is_ok (logout claims.session_id env st).result ≡ true
    → validate_token svc.jwt token later.now ≡ Jwt.Decoded.ok claims
    → let after = (logout claims.session_id env st).store in
      (is_ok (validate svc token later after).result ≡ false)
      × (is_ok (refresh_tokens svc token later after).result ≡ false)
logout_ends svc token claims env later st read k s =
    let after = (logout claims.session_id env st).store in
    let gone =
      get_session-IsRefused later claims.session_id after
        (logout-revoked claims.session_id env st read k) in
    (
      refused_validate svc token claims later after _ refl gone s,
      refused_refresh svc token claims later after _ refl gone s,
    )

-- The conditions under which a refresh goes through. The expiry of the session and the token that
-- it stores are not among them.
abbrev pub may_refresh : JwtClaims → Option Session → Option User → Bool
may_refresh claims none o = false
may_refresh claims (some s) none = false
may_refresh claims (some s) (some u) =
    same claims.token_type refresh && not s.is_revoked && u.is_active

-- A refresh with a valid token succeeds exactly when it is a refresh token, its session is in the
-- store, can be read and is not revoked, and its user is in the store and active: neither the session's expiry nor
-- the refresh token that the session stores is looked at.
pub refresh-ok_iff :
    (svc : Service) (token : Bytes) (claims : JwtClaims) (env : Env) (st : Store)
    → validate_token svc.jwt token env.now ≡ Jwt.Decoded.ok claims
    → is_ok (refresh_tokens svc token env st).result
      ≡ may_refresh claims
          (get_session env claims.session_id st)
          (user_by_id claims.user_id st.users)
unfolding refresh_tokens
refresh-ok_iff svc token claims env st s = ground arith

-- The two updates of the session that a refresh makes leave its revocation alone.
touched :
    (j token : Bytes) (now : ℕ) (st : Store) (s : Session)
    → session_by_id j st.sessions ≡ some s
    → let st' = update_session_activity s.id now (update_session_refresh_token s.id token st) in
      (session_by_id j st'.sessions
        ≡ some (record s { refresh_token = token; last_activity = now }))
      × (st'.users ≡ st.users)
unfolding update_session_activity update_session_refresh_token
touched j token now st s e =
    let stored = λ (x : Session). record x { refresh_token = token } in
    (
      ground (
        arith,
        same_refl s.id,
        session_by_id-update s.id j stored st.sessions (λ x. refl),
        session_by_id-update s.id j (λ x. record x { last_activity = now })
            (update_sessions s.id stored st.sessions) (λ x. refl),
      ),
      refl,
    )

refresh_store :
    (svc : Service) (token : Bytes) (claims : JwtClaims) (env : Env) (st : Store)
    → validate_token svc.jwt token env.now ≡ Jwt.Decoded.ok claims
    → env.read_ok ≡ true
    → may_refresh claims
        (session_by_id claims.session_id (refresh_tokens svc token env st).store.sessions)
        (user_by_id claims.user_id (refresh_tokens svc token env st).store.users)
      ≡ may_refresh claims
          (session_by_id claims.session_id st.sessions)
          (user_by_id claims.user_id st.users)
unfolding refresh_tokens log_audit_event
refresh_store svc token claims env st s read =
    elim (Option-cases (session_by_id claims.session_id st.sessions)) [
      | inl e ↦ ground arith
      | inr (session, e) ↦ elim (Option-cases (user_by_id claims.user_id st.users)) [
        | inl e' ↦ ground arith
        | inr (u, e') ↦ ground (
          arith,
          touched claims.session_id (generate_refresh_token svc.jwt u session.id env.now) env.now st
              session e,
        )
      ]
    ]

refreshed-read :
    (svc : Service) (token : Bytes) (claims : JwtClaims) (env : Env) (st : Store)
    → validate_token svc.jwt token env.now ≡ Jwt.Decoded.ok claims
    → is_ok (refresh_tokens svc token env st).result ≡ true
    → env.read_ok ≡ true
unfolding get_session
refreshed-read svc token claims env st s h =
    ground (arith, h, refresh-ok_iff svc token claims env st s)

-- Rotation does not retire the token that was used: for as long as it is valid by its own claims and the
-- session can be read, it can be exchanged again, in the store that its first exchange left.
pub refresh_again :
    (svc : Service) (token : Bytes) (claims : JwtClaims) (env later : Env) (st : Store)
    → validate_token svc.jwt token env.now ≡ Jwt.Decoded.ok claims
    → validate_token svc.jwt token later.now ≡ Jwt.Decoded.ok claims
    → later.read_ok ≡ true
    → is_ok (refresh_tokens svc token env st).result ≡ true
    → is_ok (refresh_tokens svc token later (refresh_tokens svc token env st).store).result ≡ true
refresh_again svc token claims env later st s t r h =
    let read = refreshed-read svc token claims env st s h in
    ground (
      arith,
      get_session-read env claims.session_id st read,
      get_session-read later claims.session_id (refresh_tokens svc token env st).store r,
      refresh-ok_iff svc token claims env st s,
      refresh-ok_iff svc token claims later (refresh_tokens svc token env st).store t,
      refresh_store svc token claims env st s read,
    )
