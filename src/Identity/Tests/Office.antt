-- ===== src/Identity/Tests/Office.antt =====
-- An installation with an administrator, Ana, and an auditor, Luis, each with a session.
use expediente.Base.{
  refl, false, none, some, [], ◌∷◌, ◌≡◌, ◌==◌, String_eq, String, ◌*◌, ◌+◌, find_row, ne_of_beq,
}
use expediente.Identity.Sessions.{Actor, select_session, join_user}
use expediente.Identity.{Service, UserRow, SessionRow, ThrottleRow, Store, identifier}
use expediente.Domain.{Instant, RequestMetadata, Principal, ok, hour}
use expediente.Identity.Login.{Fresh, Candidate}
use expediente.Identity.Sessions.Closing.{Distinct}

abbrev pub service : Service
service = record {
  config = record {
    session_idle_minutes = 30;
    session_absolute_hours = 12;
    login_window_minutes = 15;
    login_identifier_limit = 5;
    login_ip_limit = 20;
  };
  lower = λ c. c;
  digest = λ text. text;
  hmac = λ key text. key;
  verify = λ password hash. ok (password == hash);
  hash = λ password. ok password;
}

abbrev pub noon : Instant
noon = 100 * hour

abbrev pub user_row : String → String → String → UserRow
user_row id name password = record {
  id = id;
  username = name;
  username_key = name;
  display_name = name;
  password_hash = password;
  credential_version = 1;
  revision = 1;
  disabled_at = none;
  created_at = 0;
  updated_at = 0;
}

abbrev pub session_row : String → String → String → SessionRow
session_row id user_id token = record {
  id = id;
  user_id = user_id;
  token_digest = token;
  csrf_token_digest = token;
  credential_version = 1;
  started_at = noon;
  last_activity_at = noon;
  expires_at = noon + 12 * hour;
  closed = none;
  observed_ip = "10.0.0.1";
  user_agent = "";
}

abbrev pub ana : UserRow
ana = user_row "u1" "ana" "secreto1"

abbrev pub luis : UserRow
luis = user_row "u2" "luis" "secreto2"

abbrev pub session_of_ana : SessionRow
session_of_ana = session_row "s1" "u1" "t1"

abbrev pub session_of_luis : SessionRow
session_of_luis = session_row "s2" "u2" "t2"

abbrev pub row_of_ana : ThrottleRow
row_of_ana = record {
  scope = identifier;
  key_digest = "ana";
  attempt_count = 3;
  window_started_at = noon;
  next_allowed_at = noon;
}

abbrev pub office : Store
office = record {
  users = ana ∷ luis ∷ [];
  sessions = session_of_ana ∷ session_of_luis ∷ [];
  throttles = row_of_ana ∷ [];
  roles =
      record { user_id = "u1"; role_id = "installation_admin" }
      ∷ record { user_id = "u2"; role_id = "access_auditor" }
      ∷ [];
  attempts = [];
  audit = [];
  bootstrap = some ("u1", 0);
}

abbrev pub request : RequestMetadata
request = record { request_id = "r1"; observed_ip = "10.0.0.2"; user_agent = "" }

abbrev pub fresh : Fresh
fresh = record { session_id = "s3"; token = "t3" }

abbrev pub candidate : Candidate
candidate = record {
  user_id = "u1";
  password_hash = "secreto1";
  credential_version = 1;
  disabled = false;
}

abbrev pub actor : Actor
actor = record { user_id = "u1"; session_id = "s1" }

abbrev pub as_ana : Principal
as_ana = record {
  user = record {
    id = "u1";
    username = "ana";
    display_name = "ana";
    disabled = false;
    revision = 1;
    created_at = 0;
    role_ids = "installation_admin" ∷ [];
    permissions =
        "backup.manage" ∷ "libraries.create" ∷ "license.manage" ∷ "permissions.manage_global"
        ∷ "restore.manage" ∷ "sessions.revoke" ∷ "system.configure" ∷ "users.manage"
        ∷ "users.reset_password" ∷ [];
  };
  session_id = "s1";
  token_digest = "t1";
  credential_version = 1;
  csrf_token_digest = "t1";
  expires_at = noon + 12 * hour;
}

pub Distinct-office : Distinct office.sessions
Distinct-office = ((ne_of_beq "s2" "s1" refl, tt), (tt, tt))

pub selects_ana : select_session "t1" office ≡ some (session_of_ana, ana)
unfolding select_session join_user find_row
selects_ana = refl

pub selects_luis : select_session "t2" office ≡ some (session_of_luis, luis)
unfolding select_session join_user find_row
selects_luis = refl
