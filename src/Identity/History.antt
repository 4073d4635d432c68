-- ===== src/Identity/History.antt =====
-- The operations of the service in sequence, in any order and with any arguments, and the
-- administrator that they keep.
use expediente.Base.{
  String, ◌≡◌, refl, [], ◌∷◌, ◌==◌, ℕ_eq, true, false, ℕ, List, Option, Bool, Bool-cases, inl,
  Option-cases, inr,
}
use expediente.Domain.{
  Principal, Instant, Result, RequestMetadata, Result-cases, err, ok, bind-eq-ok, require,
  session_revoked, admin_not_found,
}
use expediente.Identity.{Service, Store, write-keeps, Outcome}
use expediente.Identity.Users.{
  create_user, update_user, set_global_roles, revoke_sessions, check_new_user, user_by_id,
}
use expediente.Identity.Passwords.{
  change_transaction, wrong_transaction, verified_change, continue_change, change_password,
  reset_password, recover_administrator, reset_transaction, check_reset, recover_transaction,
  recover_hashed, is_administrator, enabled,
}
use expediente.Identity.Login.{Fresh, login}
use expediente.Identity.Users.Administrators.{
  HasAdmin, HasAdmin-same, create_transaction-HasAdmin, update_transaction-HasAdmin,
  roles_transaction-HasAdmin, ok-HasAdmin, revoke_transaction-HasAdmin, set_password-HasAdmin,
  HasAdmin-with_users,
}
use expediente.Domain.Text.{valid_password, normalize_username}
use expediente.Identity.Sessions.{
  logout, user_by, has_id, authorized_write, authorized, or_fail, authorized-eq-ok, actor_of,
  no_actor,
}
use expediente.Identity.Throttle.{reserve_login_attempt, penalize_login, release_successful_attempt}
use expediente.Identity.Accounts.{
  SameAccounts-reserve, SameAccounts-attempt, SameAccounts-login, SameAccounts-logout, SameAccounts,
  SameAccounts-penalize,
}

-- A call of the service. Where a password is checked in between, it carries the time of its
-- reservation, and stands in the history with the time of its transaction.
pub data Command : Type 0 where
  update : Principal → String → ℕ → Option String → Option Bool → RequestMetadata → Command
  set_roles : Principal → String → ℕ → List String → RequestMetadata → Command
  create : Principal → String → String → String → String → RequestMetadata → Command
  revoke : Principal → String → String → RequestMetadata → Command
  change : Instant → Principal → String → String → RequestMetadata → Command
  reset : Principal → String → String → RequestMetadata → Command
  recover : String → String → String → Command
  log_in : Instant → Fresh → String → String → RequestMetadata → Command
  log_out : Principal → RequestMetadata → Command

-- What a call makes of the database.
unfoldable pub step : Service → Instant → Command → Store → Store
step service now (update principal user_id expected display_name disabled metadata) store =
    (update_user service now principal user_id expected display_name disabled metadata store).1
step service now (set_roles principal user_id expected role_ids metadata) store =
    (set_global_roles service now principal user_id expected role_ids metadata store).1
step service now (create principal user_id username display_name password metadata) store =
    (create_user service now principal user_id username display_name password metadata store).1
step service now (revoke principal user_id reason metadata) store =
    (revoke_sessions service now principal user_id reason metadata store).1
step service now (change started principal password new_password metadata) store =
    (change_password service started now principal password new_password metadata store).1
step service now (reset principal user_id new_password metadata) store =
    (reset_password service now principal user_id new_password metadata store).1
step service now (recover request_id username new_password) store =
    (recover_administrator service now request_id username new_password store).1
step service now (log_in started fresh username password metadata) store =
    (login service started now fresh username password metadata store).1
step service now (log_out principal metadata) store =
    (logout service now principal metadata store).1

unfoldable pub history : Service → List (Instant × Command) → Store → Store
history service [] store = store
history service ((now, command) ∷ commands) store =
    history service commands (step service now command store)

module _ (service : Service) (now : Instant) where
  -- An authorized transaction that keeps an administrator does so behind `Write`.
  authorized-HasAdmin {ℓ} :
      {A : Type ℓ} (principal : Principal) (permission : String)
      (operation : Principal → Store → Result (A × Store)) (store : Store)
      → ((current : Principal) (r : A × Store) → operation current store ≡ ok r → HasAdmin r.1)
      → HasAdmin store
      → HasAdmin (authorized_write service now principal permission operation store).1
  authorized-HasAdmin principal permission operation store keeps =
      write-keeps (authorized service now principal permission operation) store HasAdmin
        λ a store' h.
          let (current, _, _, k) =
            authorized-eq-ok service now principal permission operation store h in
          keeps current (a, store') k

  create_user-HasAdmin :
      (principal : Principal) (user_id username display_name password : String)
      (metadata : RequestMetadata) (store : Store)
      → HasAdmin store
      → HasAdmin
          (create_user service now principal user_id username display_name password metadata
            store).1
  unfolding create_user
  create_user-HasAdmin principal user_id username display_name password metadata store admin =
      elim (Result-cases (check_new_user service principal username display_name password)) [
        | inl (password_hash, e) ↦
            rw (e, create_user)
              (authorized-HasAdmin principal "users.manage" _ store
                (λ current r h.
                  create_transaction-HasAdmin service now metadata current _ store h admin)
                admin)
        | inr (f, e) ↦ rw (e, create_user) admin
      ]

  change_transaction-HasAdmin :
      (password_hash : String) (version : ℕ) (principal : Principal) (metadata : RequestMetadata)
      (current : Principal) (store : Store) {r : Unit {0} × Store}
      → change_transaction service now password_hash version principal metadata current store ≡ ok r
      → HasAdmin store
      → HasAdmin r.1
  unfolding change_transaction
  change_transaction-HasAdmin password_hash version principal metadata current store h admin =
      let (_, _, k) =
        bind-eq-ok (require (current.credential_version == version) session_revoked) _ h in
      ok-HasAdmin _ k (
        set_password-HasAdmin now current.user.id password_hash (actor_of current) metadata
          "password.changed"
          (release_successful_attempt service principal.user.username metadata store)
          (HasAdmin-same store
            (release_successful_attempt service principal.user.username metadata store)
            (unfold SameAccounts release_successful_attempt in (refl, refl)) admin))

  wrong_transaction-HasAdmin :
      (principal : Principal) (metadata : RequestMetadata) (store : Store) {r : Unit {0} × Store}
      → wrong_transaction service now principal metadata store ≡ ok r
      → HasAdmin store
      → HasAdmin r.1
  unfolding wrong_transaction
  wrong_transaction-HasAdmin principal metadata store h admin =
      let (penalized, p, k) =
        bind-eq-ok (penalize_login service now principal.user.username store) _ h in
      ok-HasAdmin _ k (
        HasAdmin-same penalized _
          (SameAccounts-attempt now principal.user.username principal.user.id Outcome.failed
            metadata penalized)
          (HasAdmin-same store penalized
            (SameAccounts-penalize service now principal.user.username store p) admin))

  verified_change-HasAdmin :
      (principal : Principal) (new_password : String) (version : ℕ) (metadata : RequestMetadata)
      (store : Store) (r : Result Bool)
      → HasAdmin store
      → HasAdmin (verified_change service now principal new_password version metadata store r).1
  unfolding verified_change
  verified_change-HasAdmin principal new_password version metadata store (err e) admin = admin
  verified_change-HasAdmin principal new_password version metadata store (ok false) admin =
      write-keeps (wrong_transaction service now principal metadata) store HasAdmin
        (λ a store' h. wrong_transaction-HasAdmin principal metadata store h admin) admin
  verified_change-HasAdmin principal new_password version metadata store (ok true) admin =
      elim (Result-cases (service.hash new_password)) [
        | inl (password_hash, e) ↦
            rw (e, verified_change)
              (authorized-HasAdmin principal "" _ store
                (λ current r h.
                  change_transaction-HasAdmin password_hash version principal metadata current store
                    h admin)
                admin)
        | inr (f, e) ↦ rw (e, verified_change) admin
      ]

  continue_change-HasAdmin :
      (principal : Principal) (password new_password : String) (metadata : RequestMetadata)
      (r : Result (Unit {0}) × Store)
      → HasAdmin r.1
      → HasAdmin (continue_change service now principal password new_password metadata r).1
  unfolding continue_change
  continue_change-HasAdmin principal password new_password metadata (err e, store) admin = admin
  continue_change-HasAdmin principal password new_password metadata (ok _, store) admin =
      elim (Option-cases (user_by (has_id principal.user.id) store)) [
        | inl e ↦ rw (e, continue_change) admin
        | inr (user, e) ↦
            rw (e, continue_change)
              (verified_change-HasAdmin principal new_password user.credential_version metadata
                store (service.verify password user.password_hash) admin)
      ]

  change_password-HasAdmin :
      (started : Instant) (principal : Principal) (password new_password : String)
      (metadata : RequestMetadata) (store : Store)
      → HasAdmin store
      → HasAdmin
          (change_password service started now principal password new_password metadata store).1
  unfolding change_password
  change_password-HasAdmin started principal password new_password metadata store admin =
      elim (Bool-cases (valid_password new_password)) [
        | inl e ↦
            rw (e, change_password)
              (continue_change-HasAdmin principal password new_password metadata
                (reserve_login_attempt service started principal.user.username metadata store)
                (HasAdmin-same store _
                  (SameAccounts-reserve service started principal.user.username metadata store)
                  admin))
        | inr e ↦ rw (e, change_password) admin
      ]

  reset_transaction-HasAdmin :
      (user_id password_hash : String) (metadata : RequestMetadata) (current : Principal)
      (store : Store) {r : Unit {0} × Store}
      → reset_transaction now user_id password_hash metadata current store ≡ ok r
      → HasAdmin store
      → HasAdmin r.1
  unfolding reset_transaction
  reset_transaction-HasAdmin user_id password_hash metadata current store h admin =
      let (_, _, k) = bind-eq-ok (user_by_id user_id store) _ h in
      ok-HasAdmin _ k (
        set_password-HasAdmin now user_id password_hash (actor_of current) metadata "password.reset"
          store admin)

  reset_password-HasAdmin :
      (principal : Principal) (user_id new_password : String) (metadata : RequestMetadata)
      (store : Store)
      → HasAdmin store
      → HasAdmin (reset_password service now principal user_id new_password metadata store).1
  unfolding reset_password
  reset_password-HasAdmin principal user_id new_password metadata store admin =
      elim (Result-cases (check_reset service principal new_password)) [
        | inl (password_hash, e) ↦
            rw (e, reset_password)
              (authorized-HasAdmin principal "users.reset_password" _ store
                (λ current r h.
                  reset_transaction-HasAdmin user_id password_hash metadata current store h admin)
                admin)
        | inr (f, e) ↦ rw (e, reset_password) admin
      ]

  recover_transaction-HasAdmin :
      (name password_hash request_id : String) (store : Store) {r : Unit {0} × Store}
      → recover_transaction now name password_hash request_id store ≡ ok r
      → HasAdmin store
      → HasAdmin r.1
  unfolding recover_transaction
  recover_transaction-HasAdmin name password_hash request_id store h admin =
      let (user, _, k) =
        bind-eq-ok (or_fail (user_by (is_administrator store name) store) admin_not_found) _ h in
      ok-HasAdmin _ k (
        set_password-HasAdmin now user.id password_hash no_actor _ "password.local_recovery" _
          (HasAdmin-with_users (has_id user.id) enabled store (λ x. refl) (λ x d. refl) admin))

  recover_administrator-HasAdmin :
      (request_id username new_password : String) (store : Store)
      → HasAdmin store
      → HasAdmin (recover_administrator service now request_id username new_password store).1
  unfolding recover_administrator recover_hashed
  recover_administrator-HasAdmin request_id username new_password store admin =
      elim (Bool-cases (valid_password new_password)) [
        | inr e ↦ rw (e, recover_administrator) admin
        | inl e ↦ rw (e, recover_administrator) (hashed (service.hash new_password))
      ]
    where
      hashed :
          (r : Result String)
          → HasAdmin
              (recover_hashed now (normalize_username service.lower username) request_id store r).1
      hashed (err f) = admin
      hashed (ok password_hash) =
          write-keeps
            (recover_transaction now (normalize_username service.lower username) password_hash
              request_id)
            store HasAdmin
            (λ a store' h. recover_transaction-HasAdmin _ password_hash request_id store h admin)
            admin

  step-HasAdmin :
      (command : Command) (store : Store)
      → HasAdmin store
      → HasAdmin (step service now command store)
  unfolding step update_user set_global_roles revoke_sessions
  step-HasAdmin (update principal user_id expected display_name disabled metadata) store admin =
      authorized-HasAdmin principal "users.manage" _ store
        (λ current r h.
          update_transaction-HasAdmin service now metadata current user_id expected display_name
            disabled store h)
        admin
  step-HasAdmin (set_roles principal user_id expected role_ids metadata) store admin =
      authorized-HasAdmin principal "permissions.manage_global" _ store
        (λ current r h.
          roles_transaction-HasAdmin service now metadata current user_id expected role_ids store h)
        admin
  step-HasAdmin (create principal user_id username display_name password metadata) store admin =
      create_user-HasAdmin principal user_id username display_name password metadata store admin
  step-HasAdmin (revoke principal user_id reason metadata) store admin =
      authorized-HasAdmin principal "sessions.revoke" _ store
        (λ current r h.
          revoke_transaction-HasAdmin service now metadata current user_id reason store h admin)
        admin
  step-HasAdmin (change started principal password new_password metadata) store admin =
      change_password-HasAdmin started principal password new_password metadata store admin
  step-HasAdmin (reset principal user_id new_password metadata) store admin =
      reset_password-HasAdmin principal user_id new_password metadata store admin
  step-HasAdmin (recover request_id username new_password) store admin =
      recover_administrator-HasAdmin request_id username new_password store admin
  step-HasAdmin (log_in started fresh username password metadata) store admin =
      HasAdmin-same store _
        (SameAccounts-login service started now fresh username password metadata store) admin
  step-HasAdmin (log_out principal metadata) store admin =
      HasAdmin-same store _ (SameAccounts-logout service now principal metadata store) admin

-- Once the installation has an enabled administrator, it has one after any sequence of calls that
-- update users, set roles, create users, revoke sessions, change, reset and recover passwords, log
-- in and log out, at any times, whoever makes them and whether they succeed.
pub history-HasAdmin :
    (service : Service) (commands : List (Instant × Command)) (store : Store)
    → HasAdmin store
    → HasAdmin (history service commands store)
unfolding history
history-HasAdmin service [] store admin = admin
history-HasAdmin service ((now, command) ∷ commands) store admin =
    history-HasAdmin service commands (step service now command store)
      (step-HasAdmin service now command store admin)
