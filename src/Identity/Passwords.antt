-- ===== src/Identity/Passwords.antt =====
-- internal/identity/password_change.go: the change, the reset and the local recovery of a password,
-- with the setPassword that they share.
pub mod LockOut
use expediente.Base.{
  ℕ, ◌+◌, Bool, true, false, ◌&&◌, String, String_eq, ℕ_eq, List, [], ◌∷◌, Option, none, some, ◌==◌,
  if◌then◌else◌,
}
use expediente.Domain.{
  Instant, Failure, Result, ok, err, ◌>>=◌, ◌>>◌, require, RequestMetadata, Principal, can,
  password_policy, no_rows, forbidden, session_revoked, current_password_incorrect, admin_not_found,
}
use expediente.Domain.Text.{normalize_username, valid_password}
use expediente.Identity.{
  no_subject, Service, Store, UserRow, CloseReason, Outcome, append_audit, write, text,
}
use expediente.Identity.Throttle.{
  reserve_login_attempt, penalize_login, record_attempt, release_successful_attempt,
}
use expediente.Identity.Sessions.{
  or_fail, user_by, has_id, assigned, actor_of, Actor, no_actor, close_user_sessions,
  authorized_write,
}
use expediente.Identity.Users.{user_by_id, with_users}

-- UPDATE users SET password_hash=?,credential_version=credential_version+1,revision=revision+1, …
abbrev pub rekeyed : Instant → String → UserRow → UserRow
rekeyed now password_hash user = record user {
  password_hash = password_hash;
  credential_version = user.credential_version + 1;
  revision = user.revision + 1;
  updated_at = now;
}

-- `setPassword`
unfoldable pub set_password :
    Instant → String → String → Actor → RequestMetadata → String → Store → Store
set_password now user_id password_hash actor metadata event_type store =
    append_audit now
      (record {
        event_type = event_type;
        subject = no_subject;
        actor_user_id = actor.user_id;
        system_actor = false;
        session_id = actor.session_id;
        metadata = metadata;
        details = ("user_id", text user_id) ∷ [];
      })
      (close_user_sessions now user_id CloseReason.password_changed metadata actor
        (with_users (has_id user_id) (rekeyed now password_hash) store))

-- The transaction of `ChangePassword`: `version` is the credential version whose hash was checked.
unfoldable pub change_transaction :
    Service
    → Instant
    → String
    → ℕ
    → Principal
    → RequestMetadata
    → Principal
    → Store
    → Result (Unit {0} × Store)
change_transaction service now password_hash version principal metadata current store = do
  require (current.credential_version == version) session_revoked
  ok (
    tt,
    set_password now current.user.id password_hash (actor_of current) metadata "password.changed"
        (release_successful_attempt service principal.user.username metadata store),
  )

-- The transaction behind a wrong current password.
unfoldable pub wrong_transaction :
    Service → Instant → Principal → RequestMetadata → Store → Result (Unit {0} × Store)
wrong_transaction service now principal metadata store = do
  penalized ← penalize_login service now principal.user.username store
  ok (
    tt,
    record_attempt now principal.user.username principal.user.id Outcome.failed metadata penalized,
  )

abbrev pub then_fail : Failure → Result (Unit {0}) × Store → Result (Unit {0}) × Store
then_fail failure (outcome, store) = ((outcome >>= λ _. err failure), store)

-- Behind the check of the current password.
unfoldable pub verified_change :
    Service
    → Instant
    → Principal
    → String
    → ℕ
    → RequestMetadata
    → Store
    → Result Bool
    → Result (Unit {0}) × Store
verified_change service now principal new_password version metadata store (err e) = (err e, store)
verified_change service now principal new_password version metadata store (ok false) =
    then_fail current_password_incorrect
      (write (wrong_transaction service now principal metadata) store)
verified_change service now principal new_password version metadata store (ok true) =
    elim (service.hash new_password) [
      | err e ↦ (err e, store)
      | ok password_hash ↦
          authorized_write service now principal ""
            (change_transaction service now password_hash version principal metadata) store
    ]

-- Behind the reservation of the attempt: the query of the hash and its check.
unfoldable pub continue_change :
    Service
    → Instant
    → Principal
    → String
    → String
    → RequestMetadata
    → Result (Unit {0}) × Store
    → Result (Unit {0}) × Store
continue_change service now principal password new_password metadata (err e, store) = (err e, store)
continue_change service now principal password new_password metadata (ok _, store) =
    elim (user_by (has_id principal.user.id) store) [
      | none ↦ (err no_rows, store)
      | some user ↦
          verified_change service now principal new_password user.credential_version metadata store
            (service.verify password user.password_hash)
    ]

-- `ChangePassword`; `started` is the time of the reservation, `now` that of the transaction, behind
-- the hash.
unfoldable pub change_password :
    Service
    → Instant
    → Instant
    → Principal
    → String
    → String
    → RequestMetadata
    → Store
    → Result (Unit {0}) × Store
change_password service started now principal password new_password metadata store =
    if valid_password new_password
    then continue_change service now principal password new_password metadata
        (reserve_login_attempt service started principal.user.username metadata store)
    else (err password_policy, store)

unfoldable pub reset_transaction :
    Instant → String → String → RequestMetadata → Principal → Store → Result (Unit {0} × Store)
reset_transaction now user_id password_hash metadata current store = do
  _ ← user_by_id user_id store
  ok (tt, set_password now user_id password_hash (actor_of current) metadata "password.reset" store)

-- The checks of `ResetPassword` before the transaction; the result is the hash.
unfoldable pub check_reset : Service → Principal → String → Result String
check_reset service principal new_password = do
  require (can principal "users.reset_password") forbidden
  require (valid_password new_password) password_policy
  service.hash new_password

-- `ResetPassword`
unfoldable pub reset_password :
    Service
    → Instant
    → Principal
    → String
    → String
    → RequestMetadata
    → Store
    → Result (Unit {0}) × Store
reset_password service now principal user_id new_password metadata store =
    elim (check_reset service principal new_password) [
      | err e ↦ (err e, store)
      | ok password_hash ↦
          authorized_write service now principal "users.reset_password"
            (reset_transaction now user_id password_hash metadata) store
    ]

abbrev pub is_administrator : Store → String → UserRow → Bool
is_administrator store name user =
    user.username_key == name && assigned user.id store.roles "installation_admin"

abbrev pub enabled : UserRow → UserRow
enabled user = record user { disabled_at = none }

-- The transaction of `RecoverAdministrator`, of the normalized name and the request's fresh id.
unfoldable pub recover_transaction :
    Instant → String → String → String → Store → Result (Unit {0} × Store)
recover_transaction now name password_hash request_id store = do
  user ← or_fail (user_by (is_administrator store name) store) admin_not_found
  ok (
    tt,
    set_password now user.id password_hash no_actor
        (record { request_id = request_id; observed_ip = "local"; user_agent = "" })
        "password.local_recovery" (with_users (has_id user.id) enabled store),
  )

-- Behind the hash of the new password.
unfoldable pub recover_hashed :
    Instant → String → String → Store → Result String → Result (Unit {0}) × Store
recover_hashed now name request_id store (err e) = (err e, store)
recover_hashed now name request_id store (ok password_hash) =
    write (recover_transaction now name password_hash request_id) store

-- `RecoverAdministrator`
unfoldable pub recover_administrator :
    Service → Instant → String → String → String → Store → Result (Unit {0}) × Store
recover_administrator service now request_id username new_password store =
    if valid_password new_password
    then recover_hashed now (normalize_username service.lower username) request_id store
        (service.hash new_password)
    else (err password_policy, store)
