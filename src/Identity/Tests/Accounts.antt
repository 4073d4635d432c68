-- ===== src/Identity/Tests/Accounts.antt =====
-- Sessions, users and passwords of that installation.
use expediente.Base.{
  refl, true, false, none, some, [], ◌∷◌, ◌≡◌, String_eq, arith, List, ◌+◌, count_rows, find_row,
  ne_of_beq, ◌↔◌, update_rows,
}
use expediente.Identity.Sessions.{
  to_principal, load_principal, select_session, join_user, judge_session, assigned, to_user,
  load_roles, is_open_of, close_user_sessions, serves, user_by, has_id, authorized, closed_as,
  open_sessions, close_all, close_session,
}
use expediente.Identity.{
  UserRow, SessionRow, Store, CloseReason, write, append_audit, nullable, actor_kind,
}
use expediente.Domain.{Instant, ok, hour, err, Result, User, can, contains, version_conflict}
use expediente.Identity.Users.Administrators.{HasAdmin}
use expediente.Identity.Sessions.Closing.{close_user_sessions-sessions}
use expediente.Identity.Users.{
  administrators, update_user, update_transaction, user_by_id, check_revision, new_name, clean_name,
  new_disabled, ensure_administrator, close_if_disabled, insert_user,
}
use expediente.Identity.History.{Command, history, update, history-HasAdmin, log_in, recover}
use expediente.Domain.Text.{
  trim_space, trim_left, trim_right, sanitize_text, is_control, is_space, valid_username,
  valid_password, normalize_username, map_runes, rune_count,
}
use expediente.Identity.Sessions.Revoking.{close_user_sessions_keeps, close_user_sessions_revokes}
use expediente.Identity.Passwords.{set_password}
use expediente.Identity.Passwords.LockOut.{
  Rekeyed, set_password_keeps_others, set_password_locks_out,
}
use expediente.Identity.Sessions.Principals.{IsLive, load_principal_iff}
use expediente.Identity.Users.Revisions.{update_user_disables, update_user_conflict}
use expediente.Identity.Tests.Office.{
  service, noon, ana, luis, session_of_luis, office, request, fresh, actor, as_ana, Distinct-office,
  selects_luis,
}
use expediente.Identity.Bootstrap.{bootstrap, check_bootstrap, bootstrap_transaction, no_users}
use expediente.Identity.Bootstrap.First.{bootstrap_once}

-- Ana's token gives her principal.
ana_loads : load_principal service noon "t1" office ≡ ok as_ana
unfolding load_principal select_session join_user judge_session to_principal to_user load_roles
    assigned find_row
ana_loads = refl

office-HasAdmin : HasAdmin office
unfolding HasAdmin administrators count_rows assigned
office-HasAdmin = omega arith

abbrev commands : List (Instant × Command)
commands =
    (noon, update as_ana "u1" 1 none (some true) request)
    ∷ (noon + 2, log_in noon fresh "luis" "secreto2" request)
    ∷ (noon + hour, recover "r9" "ana" "secreto9")
    ∷ []

history-HasAdmin_example : HasAdmin (history service commands office)
history-HasAdmin_example = history-HasAdmin service commands office office-HasAdmin

load_principal_iff_example : (load_principal service noon "t1" office ≡ ok as_ana) ↔ (
    (session : SessionRow) × (user : UserRow) × (select_session "t1" office ≡ some (session, user))
    × IsLive service noon session user
    × (as_ana ≡ to_principal session user office))
load_principal_iff_example = load_principal_iff service noon "t1" office as_ana

close_user_sessions-sessions_example :
    (close_user_sessions noon "u1" CloseReason.admin_revoked request actor office).sessions
    ≡ update_rows (is_open_of "u1") (closed_as noon CloseReason.admin_revoked) office.sessions
close_user_sessions-sessions_example =
    close_user_sessions-sessions noon CloseReason.admin_revoked request actor "u1" office
      Distinct-office

abbrev revoked_office : Store
revoked_office = close_user_sessions noon "u1" CloseReason.admin_revoked request actor office

close_user_sessions_revokes_example :
    serves (load_principal service (noon + 1) "t1" revoked_office) "u1" ≡ false
close_user_sessions_revokes_example =
    close_user_sessions_revokes service noon (noon + 1) CloseReason.admin_revoked request actor "u1"
      "t1" office Distinct-office

close_user_sessions_keeps_example :
    load_principal service (noon + 1) "t2" revoked_office
    ≡ load_principal service (noon + 1) "t2" office
close_user_sessions_keeps_example =
    close_user_sessions_keeps service noon (noon + 1) CloseReason.admin_revoked request actor "u1"
      "t2" office session_of_luis luis Distinct-office selects_luis (ne_of_beq "u2" "u1" refl)

abbrev rekeyed_office : Store
rekeyed_office = set_password noon "u1" "secreto9" actor request "password.changed" office

found_ana : user_by (has_id "u1") office ≡ some ana
unfolding user_by find_row
found_ana = refl

set_password_locks_out_example :
    Rekeyed noon "secreto9" ana (user_by (has_id "u1") rekeyed_office)
    × (serves (load_principal service (noon + 1) "t1" rekeyed_office) "u1" ≡ false)
set_password_locks_out_example =
    set_password_locks_out service noon "u1" "secreto9" actor request "password.changed" office
      (noon + 1) "t1" ana found_ana Distinct-office

set_password_keeps_others_example :
    load_principal service (noon + 1) "t2" rekeyed_office
    ≡ load_principal service (noon + 1) "t2" office
set_password_keeps_others_example =
    set_password_keeps_others service noon "u1" "secreto9" actor request "password.changed" office
      (noon + 1) "t2" session_of_luis luis Distinct-office selects_luis (ne_of_beq "u2" "u1" refl)

-- Ana gives Luis another name.
abbrev renames : Result User × Store
renames = update_user service noon as_ana "u2" 1 (some "Luis P.") none request office

abbrev renamed : User
renamed = record {
  id = "u2";
  username = "luis";
  display_name = "Luis P.";
  disabled = false;
  revision = 2;
  created_at = 0;
  role_ids = "access_auditor" ∷ [];
  permissions = "audit.read_global" ∷ "authentication_attempts.read" ∷ "sessions.read_all" ∷ [];
}

renames_luis : renames ≡ (ok renamed, renames.1)
unfolding update_user authorized write load_principal select_session join_user judge_session
    to_principal to_user load_roles assigned find_row can contains update_transaction user_by_id
    user_by check_revision new_name clean_name new_disabled ensure_administrator administrators
    count_rows update_rows close_if_disabled append_audit nullable actor_kind trim_space trim_left
    trim_right sanitize_text is_control is_space
renames_luis = refl

-- Later she may still manage users.
loads_later : load_principal service (noon + 1) "t1" renames.1 ≡ ok as_ana
unfolding update_user authorized write load_principal select_session join_user judge_session
    to_principal to_user load_roles assigned find_row can contains update_transaction user_by_id
    user_by check_revision new_name clean_name new_disabled ensure_administrator administrators
    count_rows update_rows close_if_disabled append_audit nullable actor_kind trim_space trim_left
    trim_right sanitize_text is_control is_space
loads_later = refl

may_manage : can as_ana "users.manage" ≡ true
unfolding can contains
may_manage = refl

update_user_conflict_example :
    update_user service (noon + 1) as_ana "u2" 1 none (some true) request renames.1
    ≡ (err version_conflict, renames.1)
update_user_conflict_example =
    update_user_conflict service noon (noon + 1) as_ana as_ana "u2" 1 (some "Luis P.") none none
      (some true) request request office renames.1 renamed as_ana renames_luis loads_later
      may_manage

-- Ana disables Luis.
abbrev disables : Result User × Store
disables = update_user service noon as_ana "u2" 1 none (some true) request office

abbrev disabled_luis : User
disabled_luis = record {
  id = "u2";
  username = "luis";
  display_name = "luis";
  disabled = true;
  revision = 2;
  created_at = 0;
  role_ids = "access_auditor" ∷ [];
  permissions = "audit.read_global" ∷ "authentication_attempts.read" ∷ "sessions.read_all" ∷ [];
}

disables_luis : disables ≡ (ok disabled_luis, disables.1)
unfolding update_user authorized write load_principal select_session join_user judge_session
    to_principal to_user load_roles assigned find_row can contains update_transaction user_by_id
    user_by check_revision new_name clean_name new_disabled ensure_administrator administrators
    count_rows update_rows close_if_disabled append_audit nullable actor_kind close_user_sessions
    open_sessions close_all close_session
disables_luis = refl

update_user_disables_example :
    (disabled_luis.disabled ≡ true)
    × (disabled_luis.revision ≡ 2)
    × (serves (load_principal service (noon + 1) "t2" disables.1) "u2" ≡ false)
update_user_disables_example =
    update_user_disables service noon (noon + 1) as_ana "u2" 1 none request office disables.1
      disabled_luis "t2" disables_luis

-- Before the installation has users, Ana is its first administrator.
abbrev new_store : Store
new_store = record {
  users = [];
  sessions = [];
  throttles = [];
  roles = [];
  attempts = [];
  audit = [];
  bootstrap = none;
}

abbrev bootstrapped : Result (Unit {0}) × Store
bootstrapped = bootstrap service noon "u1" "r1" "ana" "Ana" "secreto1" new_store

bootstrap_succeeds : bootstrapped ≡ (ok tt, bootstrapped.1)
unfolding bootstrap check_bootstrap bootstrap_transaction no_users write insert_user user_by
    find_row append_audit valid_username valid_password normalize_username map_runes rune_count
    trim_space trim_left trim_right is_space
bootstrap_succeeds = refl

bootstrap_once_example :
    HasAdmin bootstrapped.1
    × ((bootstrap service (noon + hour) "u5" "r5" "eva" "Eva" "secreto5" bootstrapped.1).1
        ≡ bootstrapped.1)
bootstrap_once_example =
    bootstrap_once service noon (noon + hour) "u1" "r1" "ana" "Ana" "secreto1" "u5" "r5" "eva" "Eva"
      "secreto5" new_store bootstrapped.1 bootstrap_succeeds
