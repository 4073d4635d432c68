-- ===== src/Identity/Login.antt =====
-- internal/identity/login.go: Login.
pub mod Replacing
pub mod Opening
pub mod Outcomes
pub mod Padding
use expediente.Base.{
  ℕ, ◌+◌, ◌*◌, Bool, true, false, not, ◌&&◌, ◌||◌, String, String_eq, ℕ_eq, List, [], ◌∷◌, ◌++◌,
  Option, none, some, ◌==◌, if◌then◌else◌, is_none, find_row,
}
use expediente.Domain.{
  Instant, hour, Failure, Result, ok, err, ◌>>=◌, ◌>>◌, require, RequestMetadata, User,
  authentication_failed, no_rows, constraint,
}
use expediente.Domain.Text.{sanitize_text, normalize_username}
use expediente.Identity.{
  no_subject, Service, Store, UserRow, SessionRow, CloseReason, Outcome, append_audit, write,
}
use expediente.Identity.Throttle.{
  reserve_login_attempt, penalize_login, record_attempt, release_successful_attempt,
}
use expediente.Identity.Sessions.{
  or_fail, user_by, has_id, has_run_out, load_principal, is_open_of, close_session,
}

-- The name by which attempts are counted, and the key by which the user is found.
unfoldable pub login_identifier : Service → String → String
login_identifier service username = normalize_username service.lower (sanitize_text username 80)

unfoldable pub login_key : Service → String → String
login_key service username = normalize_username service.lower username

-- The random values of a new session: its identifier and its token.
pub record Fresh : Type 0 where
  pub session_id : String
  pub token : String

pub record LoginResult : Type 0 where
  pub user : User
  pub expires_at : Instant
  pub csrf_token : String
  pub session_token : String

-- `CSRFToken`
unfoldable pub csrf_token : Service → String → String
csrf_token service token = service.hmac token "gestor-documental:csrf:v1"

-- What the first query of `Login` reads; the empty fields if there is no such user.
pub record Candidate : Type 0 where
  pub user_id : String
  pub password_hash : String
  pub credential_version : ℕ
  pub disabled : Bool

unfoldable pub find_candidate : Service → String → Store → Candidate
find_candidate service username store =
    elim (user_by (λ user. user.username_key == login_key service username) store) [
      | none ↦ record { user_id = ""; password_hash = ""; credential_version = 0; disabled = false }
      | some user ↦ record {
        user_id = user.id;
        password_hash = user.password_hash;
        credential_version = user.credential_version;
        disabled = not (is_none user.disabled_at);
      }
    ]

-- INSERT INTO sessions, with the key and the two unique indices of the table.
abbrev pub clashes : SessionRow → SessionRow → Bool
clashes row session =
    session.id == row.id
    || session.token_digest == row.token_digest
    || is_open_of row.user_id session

unfoldable pub insert_session : SessionRow → Store → Result Store
insert_session row store = elim (find_row (clashes row) store.sessions) [
  | none ↦ ok (record store { sessions = store.sessions ++ (row ∷ []) })
  | some _ ↦ err constraint
]

abbrev pub replacing_reason : Service → Instant → SessionRow → CloseReason
replacing_reason service now previous =
    if has_run_out service now previous then CloseReason.expired else CloseReason.new_login

-- The session that a login replaces.
unfoldable pub replace_session : Service → Instant → String → RequestMetadata → Store → Store
replace_session service now user_id metadata store =
    elim (find_row (is_open_of user_id) store.sessions) [
      | none ↦ store
      | some previous ↦
          close_session now previous.id (replacing_reason service now previous) metadata
            (record { user_id = user_id; session_id = "" }) store
    ]

abbrev pub new_session : Service → Instant → Fresh → Candidate → RequestMetadata → SessionRow
new_session service now fresh candidate metadata = record {
  id = fresh.session_id;
  user_id = candidate.user_id;
  token_digest = service.digest fresh.token;
  csrf_token_digest = service.digest (csrf_token service fresh.token);
  credential_version = candidate.credential_version;
  started_at = now;
  last_activity_at = now;
  expires_at = now + service.session_absolute_hours * hour;
  closed = none;
  observed_ip = metadata.observed_ip;
  user_agent = sanitize_text metadata.user_agent 512;
}

-- The transaction reads the user again: a password may have changed while the hash was computed.
unfoldable pub still_valid : Candidate → Bool → Store → Result Bool
still_valid candidate true store = do
  user ← or_fail (user_by (has_id candidate.user_id) store) no_rows
  ok (user.credential_version == candidate.credential_version && is_none user.disabled_at)
still_valid candidate false store = ok false

-- The value of the transaction is the outcome of the login: a refused login is committed too, with
-- its penalty and its record.
unfoldable pub refuse_login :
    Service
    → Instant
    → String
    → Candidate
    → RequestMetadata
    → Store
    → Result (Result LoginResult × Store)
refuse_login service now name candidate metadata store = do
  penalized ← penalize_login service now name store
  ok (
    err authentication_failed,
    record_attempt now name candidate.user_id Outcome.failed metadata penalized,
  )

-- What a successful login writes behind the session.
unfoldable pub record_login :
    Service → Instant → Fresh → String → Candidate → RequestMetadata → Store → Store
record_login service now fresh name candidate metadata store =
    let released = release_successful_attempt service name metadata store in
    let recorded = record_attempt now name candidate.user_id Outcome.success metadata released in
    append_audit now
      (record {
        event_type = "session.started";
        subject = no_subject;
        actor_user_id = candidate.user_id;
        system_actor = false;
        session_id = fresh.session_id;
        metadata = metadata;
        details = [];
      })
      recorded

abbrev pub login_result : Service → Instant → Fresh → User → LoginResult
login_result service now fresh user = record {
  user = user;
  expires_at = now + service.session_absolute_hours * hour;
  csrf_token = csrf_token service fresh.token;
  session_token = fresh.token;
}

unfoldable pub open_session :
    Service
    → Instant
    → Fresh
    → String
    → Candidate
    → RequestMetadata
    → Store
    → Result (Result LoginResult × Store)
open_session service now fresh name candidate metadata store = do
  inserted ←
      insert_session (new_session service now fresh candidate metadata)
        (replace_session service now candidate.user_id metadata store)
  let audited = record_login service now fresh name candidate metadata inserted
  principal ← load_principal service now (service.digest fresh.token) audited
  ok (ok (login_result service now fresh principal.user), audited)

unfoldable pub login_transaction :
    Service
    → Instant
    → Fresh
    → String
    → Candidate
    → Bool
    → RequestMetadata
    → Store
    → Result (Result LoginResult × Store)
login_transaction service now fresh name candidate verified metadata store = do
  valid ← still_valid candidate verified store
  if valid
      then open_session service now fresh name candidate metadata store
      else refuse_login service now name candidate metadata store

abbrev pub settle_login : Result (Result LoginResult) × Store → Result LoginResult × Store
settle_login (outcome, store) = ((outcome >>= λ o. o), store)

-- Behind the hash.
unfoldable pub verified_login :
    Service
    → Instant
    → Fresh
    → String
    → Candidate
    → RequestMetadata
    → Store
    → Result Bool
    → Result LoginResult × Store
verified_login service now fresh username candidate metadata store (err e) = (err e, store)
verified_login service now fresh username candidate metadata store (ok matches) = settle_login (
    write
      (login_transaction service now fresh (login_identifier service username) candidate
        (matches && (not (candidate.user_id == "") && not candidate.disabled)) metadata)
      store)

-- Behind the reservation: the query, the hash and the transaction, on one state of the database.
unfoldable pub attempt_login :
    Service
    → Instant
    → Fresh
    → String
    → String
    → RequestMetadata
    → Store
    → Result LoginResult × Store
attempt_login service now fresh username password metadata store =
    let candidate = find_candidate service username store in
    verified_login service now fresh username candidate metadata store
      (service.verify password candidate.password_hash)

unfoldable pub continue_login :
    Service
    → Instant
    → Fresh
    → String
    → String
    → RequestMetadata
    → Result (Unit {0}) × Store
    → Result LoginResult × Store
continue_login service now fresh username password metadata (err e, store) = (err e, store)
continue_login service now fresh username password metadata (ok _, store) =
    attempt_login service now fresh username password metadata store

-- `started` is the time of the reservation, `now` that of the transaction, behind the hash.
unfoldable pub login :
    Service
    → Instant
    → Instant
    → Fresh
    → String
    → String
    → RequestMetadata
    → Store
    → Result LoginResult × Store
login service started now fresh username password metadata store =
    continue_login service now fresh username password metadata
      (reserve_login_attempt service started (login_identifier service username) metadata store)
