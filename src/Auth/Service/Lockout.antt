-- ===== src/Auth/Service/Lockout.antt =====
-- Who gets in, and when an account is locked, by Login of internal/auth/auth.go.
use skylens_azure.Common.{
  ℕ, ◌+◌, ◌≤◌, ◌<◌, ◌≡◌, refl, ap, Bytes, none, some, List, [], ◌∷◌, ◌++◌, Bool, true, false, leb,
  if◌then◌else◌, not, ◌&&◌, All, arith, length, is_some,
}
use skylens_azure.Auth.Models.{User, LoginRequest}
use skylens_azure.Auth.Service.Defs.{
  Service, Store, Env, Result, ok, err, account_locked, user_by_username, update_users,
  increment_failed_attempts, lock_account, unlock_account, log_audit_event,
}
use skylens_azure.Auth.Service.Login.{still_locked, create_session, login}

abbrev pub is_ok {ℓ} : {A : Type ℓ} → Result A → Bool
is_ok (ok a) = true
is_ok (err e) = false

-- A log-in succeeds exactly when the account is not within a lock-out, is active, the password
-- verifies, and an identifier and the row of the session could be had.
pub login-ok_iff :
    (svc : Service) (req : LoginRequest) (env : Env) (st : Store) (u : User)
    → user_by_username req.username st.users ≡ some u
    → is_ok (login svc req env st).result ≡ (
        not (u.is_locked && still_locked u.locked_until env.now)
        && u.is_active
        && svc.verify_password req.password u.password_hash
        && is_some env.new_id
        && env.insert_ok)
unfolding login create_session
login-ok_iff svc req env st u e = ground arith

-- Within a lock-out every attempt is refused as locked, whatever its password, and no row of the
-- users or of the sessions changes.
login_locked :
    (svc : Service) (req : LoginRequest) (env : Env) (st : Store) (u : User) (until : ℕ)
    → user_by_username req.username st.users ≡ some u
    → u.is_locked ≡ true
    → u.locked_until ≡ some until
    → env.now < until
    → ((login svc req env st).result ≡ err account_locked)
      × ((login svc req env st).store.users ≡ st.users)
      × ((login svc req env st).store.sessions ≡ st.sessions)
unfolding login log_audit_event
login_locked svc req env st u until e l t h = ground arith

-- A statement that keeps names changes the row that a name finds as it says.
user_by_username-update :
    (name : Bytes) (f : User → User) (us : List User) (u : User)
    → ((v : User) → (f v).username ≡ v.username)
    → user_by_username name us ≡ some u
    → user_by_username name (update_users u.id f us) ≡ some (f u)
unfolding user_by_username update_users
user_by_username-update name f [] u k e = cc
user_by_username-update name f (v ∷ us) u k e =
    ground (arith, k v, k u, user_by_username-update name f us u k)

-- The row after one wrong password for an account that is active and not locked.
abbrev pub after_wrong : Service → User → ℕ → User
after_wrong svc u now =
    if leb svc.config.max_failed_attempts (u.failed_attempts + 1)
    then record u {
      failed_attempts = u.failed_attempts + 1;
      is_locked = true;
      locked_until = some (now + svc.config.lockout_duration);
    }
    else record u { failed_attempts = u.failed_attempts + 1 }

abbrev count_one : User → User
count_one v = record v { failed_attempts = v.failed_attempts + 1 }

abbrev lock_until : ℕ → User → User
lock_until t v = record v { is_locked = true; locked_until = some t }

abbrev unlock : User → User
unlock v = record v { is_locked = false; locked_until = none; failed_attempts = 0 }

wrong_step :
    (svc : Service) (req : LoginRequest) (env : Env) (st : Store) (u : User)
    → user_by_username u.username st.users ≡ some u
    → req.username ≡ u.username
    → u.is_locked ≡ false
    → u.is_active ≡ true
    → svc.verify_password req.password u.password_hash ≡ false
    → user_by_username u.username (login svc req env st).store.users
      ≡ some (after_wrong svc u env.now)
unfolding login log_audit_event increment_failed_attempts lock_account
wrong_step svc req env st u e n l a w =
    let t = env.now + svc.config.lockout_duration in
    let counted = user_by_username-update u.username count_one st.users u (λ v. refl) e in
    ground (
      arith,
      ap (λ x. user_by_username x st.users) n,
      counted,
      user_by_username-update u.username (lock_until t) (update_users u.id count_one st.users)
          (count_one u) (λ v. refl) counted,
    )

-- The stores that a sequence of log-ins goes through.
pub attempts : Service → List (LoginRequest × Env) → Store → Store
attempts svc [] st = st
attempts svc ((req, env) ∷ ts) st = attempts svc ts (login svc req env st).store

-- Attempts at one account with passwords that do not verify.
abbrev pub Wrong : Service → User → List (LoginRequest × Env) → Type 0
Wrong svc u =
    All (λ t.
      (t.0.username ≡ u.username) × (svc.verify_password t.0.password u.password_hash ≡ false))

Wrong-below_limit :
    (svc : Service) (ts : List (LoginRequest × Env)) (st : Store) (u : User)
    → user_by_username u.username st.users ≡ some u
    → u.is_locked ≡ false
    → u.is_active ≡ true
    → Wrong svc u ts
    → u.failed_attempts + length ts < svc.config.max_failed_attempts
    → user_by_username u.username (attempts svc ts st).users
      ≡ some (record u { failed_attempts = u.failed_attempts + length ts })
unfolding attempts
Wrong-below_limit svc [] st u e l a w lt = ground arith
Wrong-below_limit svc ((req, env) ∷ ts) st u e l a ((n, bad), w) lt =
    let step = wrong_step svc req env st u e n l a bad in
    ground (
      arith,
      step,
      Wrong-below_limit svc ts (login svc req env st).store (count_one u) (ground (arith, step)) l a
          w (omega arith),
    )

attempts-append :
    (svc : Service) (ts : List (LoginRequest × Env)) (req : LoginRequest) (env : Env) (st : Store)
    → attempts svc (ts ++ (req, env) ∷ []) st ≡ (login svc req env (attempts svc ts st)).store
unfolding attempts
attempts-append svc [] req env st = refl
attempts-append svc ((r, v) ∷ ts) req env st =
    attempts-append svc ts req env (login svc r v st).store

-- From a counter of zero, wrong passwords up to one short of the limit count up and leave the account
-- open; the next one, at the limit, locks it for the lock-out's duration from its own time on.
pub lockout_at_limit :
    (svc : Service) (ts : List (LoginRequest × Env)) (req : LoginRequest) (env : Env) (st : Store)
    (u : User)
    → user_by_username u.username st.users ≡ some u
    → u.is_locked ≡ false
    → u.is_active ≡ true
    → u.failed_attempts ≡ 0
    → Wrong svc u ts
    → Wrong svc u ((req, env) ∷ [])
    → length ts + 1 ≡ svc.config.max_failed_attempts
    → (user_by_username u.username (attempts svc ts st).users
        ≡ some (record u { failed_attempts = length ts }))
      × (user_by_username u.username (attempts svc (ts ++ (req, env) ∷ []) st).users
          ≡ some (record u {
            failed_attempts = svc.config.max_failed_attempts;
            is_locked = true;
            locked_until = some (env.now + svc.config.lockout_duration);
          }))
lockout_at_limit svc ts req env st u e l a z w (bad, _) n =
    let below = Wrong-below_limit svc ts st u e l a w (omega arith) in
    let v = record u { failed_attempts = u.failed_attempts + length ts } in
    let last = wrong_step svc req env (attempts svc ts st) v below bad.0 l a bad.1 in
    (ground (arith, below), rw (attempts-append svc ts req env st) (ground (arith, last)))

-- Once a lock-out has run out, a single wrong password locks the account again, although the row then
-- counts one failed attempt: the test goes by the counter that was read before the unlock.
pub relock_after_lockout :
    (svc : Service) (req : LoginRequest) (env : Env) (st : Store) (u : User)
    → user_by_username u.username st.users ≡ some u
    → req.username ≡ u.username
    → u.is_locked ≡ true
    → still_locked u.locked_until env.now ≡ false
    → u.is_active ≡ true
    → svc.verify_password req.password u.password_hash ≡ false
    → svc.config.max_failed_attempts ≤ u.failed_attempts + 1
    → user_by_username u.username (login svc req env st).store.users
      ≡ some (record u {
        failed_attempts = 1;
        is_locked = true;
        locked_until = some (env.now + svc.config.lockout_duration);
      })
unfolding login log_audit_event increment_failed_attempts lock_account unlock_account
relock_after_lockout svc req env st u e n l t a w h =
    let until = env.now + svc.config.lockout_duration in
    let open_again = user_by_username-update u.username unlock st.users u (λ v. refl) e in
    let counted =
      user_by_username-update u.username count_one (update_users u.id unlock st.users) (unlock u)
        (λ v. refl) open_again in
    ground (
      arith,
      ap (λ x. user_by_username x st.users) n,
      user_by_username-update u.username (lock_until until)
          (update_users u.id count_one (update_users u.id unlock st.users)) (count_one (unlock u))
          (λ v. refl) counted,
    )
