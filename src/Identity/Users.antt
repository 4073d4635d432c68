-- ===== src/Identity/Users.antt =====
-- internal/identity/users.go: users, their global roles and the last administrator.
-- An expected revision below 1 is the number 0 here.
pub mod Updating
pub mod Administrators
pub mod Revisions
use expediente.Base.{
  ℕ, ◌+◌, Bool, true, false, not, ◌&&◌, ◌||◌, String, String_eq, ℕ_eq, List, [], ◌∷◌, ◌++◌, Option,
  none, some, ◌==◌, leb, ltb, if◌then◌else◌, is_none, find_row, count_rows, update_rows,
  delete_rows, length, map,
}
use expediente.Domain.{
  Instant, Failure, Result, ok, err, ◌>>=◌, ◌>>◌, require, RequestMetadata, User, Principal, can,
  contains, invalid_username, password_policy, invalid_request, username_exists,
  precondition_required, version_conflict, last_admin_required, not_found, forbidden, constraint,
}
use expediente.Domain.Text.{
  sanitize_text, trim_space, normalize_username, valid_username, valid_password,
}
use expediente.Identity.{
  no_subject, Service, Store, UserRow, RoleAssignment, CloseReason, Event, Detail, append_audit,
  write, text, flag, texts,
}
use expediente.Identity.Sessions.{
  or_fail, user_by, has_id, assigned, to_user, actor_of, Actor, close_user_sessions,
  authorized_write,
}

-- `UserByID`
unfoldable pub user_by_id : String → Store → Result UserRow
user_by_id user_id store = or_fail (user_by (has_id user_id) store) not_found

abbrev pub read_user : String → Store → Result User
read_user user_id store = user_by_id user_id store >>= λ row. ok (to_user row store)

abbrev pub user_event : String → Principal → RequestMetadata → List (String × Detail) → Event
user_event event_type current metadata details = record {
  event_type = event_type;
  subject = no_subject;
  actor_user_id = current.user.id;
  system_actor = false;
  session_id = current.session_id;
  metadata = metadata;
  details = details;
}

-- `checkRevision(…)`
unfoldable pub check_revision : UserRow → ℕ → Result (Unit {0})
check_revision user expected =
    if leb 1 expected
    then require (user.revision == expected) version_conflict
    else err precondition_required

abbrev pub is_enabled_admin : Store → UserRow → Bool
is_enabled_admin store user =
    is_none user.disabled_at && assigned user.id store.roles "installation_admin"

-- The count of `ensureAdministrator`: the join has a row for each such user, by its keys.
unfoldable pub administrators : Store → ℕ
administrators store = count_rows (is_enabled_admin store) store.users

unfoldable pub ensure_administrator : Store → Result (Unit {0})
ensure_administrator store = require (ltb 0 (administrators store)) last_admin_required

-- `strings.TrimSpace(sanitizeText(…, 120))`
unfoldable pub clean_name : String → String
clean_name name = trim_space (sanitize_text name 120)

unfoldable pub new_name : UserRow → Option String → Result String
new_name user none = ok user.display_name
new_name user (some name) =
    if clean_name name == "" then err invalid_request else ok (clean_name name)

unfoldable pub new_disabled : UserRow → Option Bool → Bool
new_disabled user none = not (is_none user.disabled_at)
new_disabled user (some disabled) = disabled

-- UPDATE users SET display_name=?,disabled_at=?,revision=revision+1,updated_at=? WHERE id=?
abbrev pub updated_user : Instant → String → Bool → UserRow → UserRow
updated_user now name disabled user = record user {
  display_name = name;
  disabled_at = if disabled then some now else none;
  revision = user.revision + 1;
  updated_at = now;
}

abbrev pub with_users : (UserRow → Bool) → (UserRow → UserRow) → Store → Store
with_users p f store = record store { users = update_rows p f store.users }

-- `if user.Disabled { closeUserSessions(…) }`
unfoldable pub close_if_disabled :
    Instant → Bool → String → RequestMetadata → Principal → Store → Store
close_if_disabled now true user_id metadata current store =
    close_user_sessions now user_id CloseReason.admin_revoked metadata (actor_of current) store
close_if_disabled now false user_id metadata current store = store

abbrev pub updated_event : String → Bool → Principal → RequestMetadata → Event
updated_event user_id disabled current metadata =
    user_event "user.updated" current metadata
      (("user_id", text user_id) ∷ ("disabled", flag disabled) ∷ [])

unfoldable pub update_transaction :
    Service
    → Instant
    → String
    → ℕ
    → Option String
    → Option Bool
    → RequestMetadata
    → Principal
    → Store
    → Result (User × Store)
update_transaction service now user_id expected display_name disabled metadata current store = do
  user ← user_by_id user_id store
  check_revision user expected
  name ← new_name user display_name
  let disable = new_disabled user disabled
  let written = with_users (has_id user_id) (updated_user now name disable) store
  ensure_administrator written
  let audited =
      append_audit now (updated_event user_id disable current metadata)
        (close_if_disabled now disable user_id metadata current written)
  updated ← read_user user_id audited
  ok (updated, audited)

-- `UpdateUser`
unfoldable pub update_user :
    Service
    → Instant
    → Principal
    → String
    → ℕ
    → Option String
    → Option Bool
    → RequestMetadata
    → Store
    → Result User × Store
update_user service now principal user_id expected display_name disabled metadata =
    authorized_write service now principal "users.manage"
      (update_transaction service now user_id expected display_name disabled metadata)

-- The loop over the requested roles, with those seen so far.
unfoldable pub valid_roles : List String → List String → Bool
valid_roles seen [] = true
valid_roles seen (role ∷ roles) =
    (role == "installation_admin" || role == "access_auditor")
    && not (contains seen role)
    && valid_roles (role ∷ seen) roles

abbrev pub assignments : String → List String → List RoleAssignment
assignments user_id = map λ role_id. record { user_id = user_id; role_id = role_id }

-- DELETE FROM global_role_assignments WHERE user_id=?, and an INSERT for each role.
abbrev pub with_roles : String → List String → Store → Store
with_roles user_id role_ids store = record store {
  roles = delete_rows (λ r. r.user_id == user_id) store.roles ++ assignments user_id role_ids;
}

abbrev pub bump_revision : Instant → UserRow → UserRow
bump_revision now user = record user { revision = user.revision + 1; updated_at = now }

unfoldable pub roles_transaction :
    Service
    → Instant
    → String
    → ℕ
    → List String
    → RequestMetadata
    → Principal
    → Store
    → Result (User × Store)
roles_transaction service now user_id expected role_ids metadata current store = do
  user ← user_by_id user_id store
  check_revision user expected
  require (leb (length role_ids) 2) invalid_request
  require (valid_roles [] role_ids) invalid_request
  let assigned_store = with_roles user_id role_ids store
  ensure_administrator assigned_store
  let written = with_users (has_id user_id) (bump_revision now) assigned_store
  let audited =
      append_audit now
        (user_event "permissions.global_changed" current metadata
          (("user_id", text user_id) ∷ ("role_ids", texts role_ids) ∷ []))
        written
  updated ← read_user user_id audited
  ok (updated, audited)

-- `SetGlobalRoles`
unfoldable pub set_global_roles :
    Service
    → Instant
    → Principal
    → String
    → ℕ
    → List String
    → RequestMetadata
    → Store
    → Result User × Store
set_global_roles service now principal user_id expected role_ids metadata =
    authorized_write service now principal "permissions.manage_global"
      (roles_transaction service now user_id expected role_ids metadata)

-- INSERT INTO users, with the key and the unique index of the table.
unfoldable pub insert_user : UserRow → Store → Result Store
insert_user row store =
    elim (user_by (λ u. u.id == row.id || u.username_key == row.username_key) store) [
      | none ↦ ok (record store { users = store.users ++ (row ∷ []) })
      | some _ ↦ err constraint
    ]

abbrev pub new_user : Service → Instant → String → String → String → String → UserRow
new_user service now user_id username display_name password_hash = record {
  id = user_id;
  username = normalize_username service.lower username;
  username_key = normalize_username service.lower username;
  display_name = display_name;
  password_hash = password_hash;
  credential_version = 1;
  revision = 1;
  disabled_at = none;
  created_at = now;
  updated_at = now;
}

unfoldable pub create_transaction :
    Service → Instant → UserRow → RequestMetadata → Principal → Store → Result (User × Store)
create_transaction service now row metadata current store = do
  require (is_none (user_by (λ u. u.username_key == row.username_key) store)) username_exists
  inserted ← insert_user row store
  let audited =
      append_audit now (user_event "user.created" current metadata (("user_id", text row.id) ∷ []))
        inserted
  created ← read_user row.id audited
  ok (created, audited)

-- The checks of `CreateUser` before the transaction; the result is the hash.
unfoldable pub check_new_user : Service → Principal → String → String → String → Result String
check_new_user service principal username display_name password = do
  require (can principal "users.manage") forbidden
  require (valid_username service.lower username) invalid_username
  require (valid_password password) password_policy
  require (not (clean_name display_name == "")) invalid_request
  service.hash password

unfoldable pub create_user :
    Service
    → Instant
    → Principal
    → String
    → String
    → String
    → String
    → RequestMetadata
    → Store
    → Result User × Store
create_user service now principal user_id username display_name password metadata store =
    elim (check_new_user service principal username display_name password) [
      | err e ↦ (err e, store)
      | ok password_hash ↦
          authorized_write service now principal "users.manage"
            (create_transaction service now
              (new_user service now user_id username (clean_name display_name) password_hash)
              metadata)
            store
    ]

unfoldable pub revoke_transaction :
    Instant → String → String → RequestMetadata → Principal → Store → Result (Unit {0} × Store)
revoke_transaction now user_id reason metadata current store = do
  _ ← user_by_id user_id store
  let closed =
      close_user_sessions now user_id CloseReason.admin_revoked metadata (actor_of current) store
  ok (
    tt,
    append_audit now
        (user_event "user.sessions_revoked" current metadata
          (("user_id", text user_id) ∷ ("reason", text (sanitize_text reason 500)) ∷ []))
        closed,
  )

-- `RevokeSessions`
unfoldable pub revoke_sessions :
    Service
    → Instant
    → Principal
    → String
    → String
    → RequestMetadata
    → Store
    → Result (Unit {0}) × Store
revoke_sessions service now principal user_id reason metadata =
    authorized_write service now principal "sessions.revoke"
      (revoke_transaction now user_id reason metadata)
