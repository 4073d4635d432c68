-- ===== src/Libraries/Access.antt =====
-- internal/libraries: settingsFor and modeCapabilities of settings.go; require, Read, write and
-- record of service.go; license.go; failureCode and scanFailure of scanner.go. The texts of a
-- failure are its code.
use text.Mathlib.Text.{starts_with}
use expediente.Base.{
  Bool, not, ◌&&◌, String, String_eq, List, [], ◌∷◌, ◌++◌, Option, ◌==◌, if◌then◌else◌, is_none,
  find_row, ◌≡◌,
}
use expediente.Domain.{
  Failure, Result, ok, err, ◌>>=◌, ◌>>◌, require, RequestMetadata, Principal, coded, bind-eq-ok,
}
use expediente.Identity.{Detail, append_audit, write, write-keeps}
use expediente.Identity.Sessions.{or_fail, load_principal}
use expediente.Licensing.Policy.{
  Answer, Refusal, check_operation, check_features, read_documents, write_documents,
  verify_integrity,
}
use expediente.Libraries.{
  Database, LibraryRow, MemberRow, GrantRow, MaterializationRow, DocumentRow, JobRow, Settings,
  Call,
}

-- `scanFailure`
abbrev pub scan_failure : String → Failure
scan_failure code = coded code

-- `failureCode`
unfoldable pub failure_code : Failure → String
failure_code Failure.invalid_username = "INVALID_USERNAME"
failure_code Failure.password_policy = "PASSWORD_POLICY"
failure_code Failure.invalid_request = "INVALID_REQUEST"
failure_code Failure.rate_limited = "RATE_LIMITED"
failure_code Failure.authentication_failed = "AUTHENTICATION_FAILED"
failure_code Failure.session_required = "SESSION_REQUIRED"
failure_code Failure.session_replaced = "SESSION_REPLACED"
failure_code Failure.session_expired = "SESSION_EXPIRED"
failure_code Failure.session_revoked = "SESSION_REVOKED"
failure_code Failure.forbidden = "FORBIDDEN"
failure_code Failure.not_found = "NOT_FOUND"
failure_code Failure.username_exists = "USERNAME_EXISTS"
failure_code Failure.precondition_required = "PRECONDITION_REQUIRED"
failure_code Failure.version_conflict = "VERSION_CONFLICT"
failure_code Failure.last_admin_required = "LAST_ADMIN_REQUIRED"
failure_code Failure.current_password_incorrect = "CURRENT_PASSWORD_INCORRECT"
failure_code Failure.admin_not_found = "ADMIN_NOT_FOUND"
failure_code Failure.bootstrap_complete = "BOOTSTRAP_COMPLETE"
failure_code Failure.bootstrap_conflict = "BOOTSTRAP_CONFLICT"
failure_code (Failure.coded code) = code
failure_code Failure.path_denied = "PATH_ACCESS_DENIED"
failure_code Failure.path_missing = "PATH_NOT_FOUND"
failure_code Failure.interrupted = "INTERRUPTED"
failure_code Failure.deadline_exceeded = "PROCESS_TIMEOUT"
failure_code Failure.no_rows = "SOURCE_UNAVAILABLE"
failure_code Failure.constraint = "SOURCE_UNAVAILABLE"
failure_code Failure.hasher_error = "SOURCE_UNAVAILABLE"
failure_code Failure.source_error = "SOURCE_UNAVAILABLE"

-- `licenseBlocked`
unfoldable pub license_blocked : Failure → Bool
unfolding failure_code
license_blocked failure = starts_with (failure_code failure) "LICENSE_"

refusal_failure : Refusal → Failure
refusal_failure Refusal.license_read_only = coded "LICENSE_READ_ONLY"
refusal_failure Refusal.license_recovery_required = coded "LICENSE_RECOVERY_REQUIRED"
refusal_failure Refusal.license_feature = coded "LICENSE_FEATURE"

unfoldable pub licensed : Answer → Result (Unit {0})
unfolding refusal_failure
licensed Answer.allowed = ok tt
licensed (Answer.refused refusal) = err (refusal_failure refusal)

-- `settingsFor`
unfoldable pub settings_for : Call → String → Database → Result (Settings × String)
settings_for call library_id database = do
  row ←
      or_fail
        (find_row (λ (l : LibraryRow). l.id == library_id && is_none l.disabled_at)
          database.libraries)
        Failure.not_found
  settings ← call.decode_settings row.settings_json
  ok (settings, row.mode)

-- `modeCapabilities`
unfoldable pub mode_capabilities : String → List String
mode_capabilities mode =
    if mode == "linked"
    then "linked_libraries" ∷ []
    else if mode == "managed"
    then "managed_libraries" ∷ []
    else if mode == "hybrid"
    then "linked_libraries" ∷ "managed_libraries" ∷ []
    else []

unfoldable pub any_row {ℓ} : {A : Type ℓ} → (A → Bool) → List A → Bool
any_row p rows = not (is_none (find_row p rows))

-- `require`: the user holds the permission in the library, which is not disabled.
unfoldable pub permits : String → String → String → Database → Bool
unfolding any_row
permits user_id library_id permission database =
    any_row
      (λ (m : MemberRow).
        (m.user_id == user_id && m.library_id == library_id)
        && any_row (λ (g : GrantRow). g.role_id == m.role_id && g.permission_key == permission)
            database.grants)
      database.members
    && any_row (λ (l : LibraryRow). l.id == library_id && is_none l.disabled_at) database.libraries

unfoldable pub require_permission : String → String → String → Database → Result (Unit {0})
unfolding permits
require_permission user_id library_id permission database =
    require (permits user_id library_id permission database) Failure.not_found

-- `Read`
unfoldable pub library_read : Call → Principal → String → String → Database → Result (Unit {0})
unfolding licensed require_permission
library_read call principal library_id permission database = do
  current ← load_principal call.service call.now principal.token_digest database.identity
  licensed (check_operation call.license read_documents)
  require_permission current.user.id library_id permission database

-- The checks of `write` in front of its operation.
unfoldable pub admit : Call → Principal → String → String → Database → Result (Unit {0})
unfolding licensed settings_for mode_capabilities require_permission
admit call current library_id permission database = do
  licensed (check_operation call.license write_documents)
  if library_id == ""
      then ok tt
      else settings_for call library_id database >>= λ found.
          licensed (check_features call.license (mode_capabilities found.1))
          >> require_permission current.user.id library_id permission database

-- `AuthorizedWrite` without a global permission.
unfoldable pub authorized_library {ℓ} :
    {A : Type ℓ}
    → Call
    → Principal
    → (Principal → Database → Result (A × Database))
    → Database
    → Result A × Database
authorized_library call principal operation = write λ (database : Database).
    load_principal call.service call.now principal.token_digest database.identity >>= λ current.
    operation current database

-- `write`
unfoldable pub library_write {ℓ} :
    {A : Type ℓ}
    → Call
    → Principal
    → String
    → String
    → (Principal → Database → Result (A × Database))
    → Database
    → Result A × Database
unfolding authorized_library admit
library_write call principal library_id permission operation =
    authorized_library call principal λ current database.
      admit call current library_id permission database >> operation current database

module _ {ℓ κ} {A : Type ℓ} (P : Database → Type κ) (call : Call) (principal : Principal) where
  -- What holds of the database, and of what the operation makes of it, holds behind the call.
  pub authorized_library-keeps :
      (operation : Principal → Database → Result (A × Database)) (database : Database)
      → ((current : Principal) (a : A) (d : Database)
          → operation current database ≡ ok (a, d)
          → P d)
      → P database
      → P (authorized_library call principal operation database).1
  unfolding authorized_library
  authorized_library-keeps operation database h p =
      write-keeps
        (λ (d : Database).
          load_principal call.service call.now principal.token_digest d.identity >>= λ current.
          operation current d)
        database P
        (λ a d e.
          let (current, l, k) =
            bind-eq-ok
              (load_principal call.service call.now principal.token_digest database.identity) _ e in
          h current a d k)
        p

  pub library_write-keeps :
      (library_id permission : String) (operation : Principal → Database → Result (A × Database))
      (database : Database)
      → ((current : Principal) (a : A) (d : Database)
          → operation current database ≡ ok (a, d)
          → P d)
      → P database
      → P (library_write call principal library_id permission operation database).1
  unfolding library_write
  library_write-keeps library_id permission operation database h =
      authorized_library-keeps
        (λ current d. admit call current library_id permission d >> operation current d) database
        (λ current a d e.
          let (u, r, k) = bind-eq-ok (admit call current library_id permission database) _ e in
          h current a d k)

abbrev pub event_actor : Principal → String × String
event_actor principal = (principal.user.id, principal.session_id)

-- `record`: an event of a library; the principal of the system has no user.
unfoldable pub record_event :
    Call
    → String × String
    → RequestMetadata
    → String
    → String
    → String
    → List (String × Detail)
    → Database
    → Database
record_event call actor metadata kind library_id document_id details database = record database {
  identity =
      append_audit call.now
        (record {
          subject = record { library_id = library_id; document_id = document_id; case_id = "" };
          event_type = kind;
          actor_user_id = actor.0;
          system_actor = actor.0 == "";
          session_id = actor.1;
          metadata = metadata;
          details = details;
        })
        database.identity;
}

unfoldable pub document_by : String → Database → Option DocumentRow
document_by id database = find_row (λ (d : DocumentRow). d.id == id) database.documents

when_needed : Bool → String → List String
when_needed needed feature = if needed then feature ∷ [] else []

-- The features of a materialization: those of its decision and of its document's case.
materialize_features : String → Database → Result (List String)
unfolding document_by when_needed
materialize_features id database = do
  m ←
      or_fail (find_row (λ (m : MaterializationRow). m.id == id) database.materializations)
        Failure.no_rows
  d ← or_fail (document_by m.document_id database) Failure.no_rows
  ok (
      "managed_libraries" ∷ when_needed (m.decision_kind == "review") "review_workflow"
      ++ when_needed (not (d.case_id == "")) "expedientes")

job_features : JobRow → Database → Result (List String)
unfolding when_needed materialize_features
job_features job database =
    if job.job_type == "materialize"
    then materialize_features job.target_version database
    else ok (when_needed (job.job_type == "extract") "ocr")

-- `jobLicense`
unfoldable pub job_license : Call → JobRow → Database → Result (Unit {0})
unfolding licensed settings_for mode_capabilities job_features
job_license call job database =
    if job.job_type == "verify_managed"
    then licensed (check_operation call.license verify_integrity)
    else settings_for call job.library_id database >>= λ found.
        job_features job database >>= λ features.
        licensed (check_features call.license (mode_capabilities found.1 ++ features))
