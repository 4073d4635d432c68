-- ===== src/Libraries/Jobs/Retrying.antt =====
-- internal/libraries: `Materialization` and RetryMaterialization of workflow_queries.go, and Retry of
-- documents.go. What an operation reads outside of its transaction comes from an earlier state of the
-- database, its argument `seen`.
pub mod Keeping
use Prim.Native.String.{len}
use expediente.Base.{
  Bool, true, false, not, ◌&&◌, String, String_eq, ℕ_eq, [], ◌∷◌, Option, none, some, ◌==◌, leb,
  if◌then◌else◌, find_row, update_rows, delete_rows, select, order_by,
}
use expediente.Domain.{
  Result, ok, err, ◌>>=◌, ◌>>◌, require, RequestMetadata, Principal, invalid_request, not_found,
  no_rows,
}
use expediente.Domain.Text.{trim_space}
use expediente.Identity.{text}
use expediente.Identity.Sessions.{or_fail}
use expediente.Libraries.{
  Database, JobRow, ControlRow, RootRow, MaterializationRow, Call, JobStatus, cancelled, failed,
}
use expediente.Libraries.Access.{
  authorized_library, licensed, mode_capabilities, permits, record_event, require_permission,
  scan_failure, settings_for, event_actor,
}
use expediente.Libraries.Documents.{read_document, read_job, root_by, workflow_document}
use expediente.Libraries.Jobs.{has_job_id, insert_job, is_active, is_root_kind, comes_first}
use expediente.Libraries.Jobs.Control.{new_job}
use expediente.Licensing.Policy.{check_features, check_operation, write_documents}

unfoldable pub materialization_by : String → Database → Option MaterializationRow
materialization_by id database =
    find_row (λ (m : MaterializationRow). m.id == id) database.materializations

-- `Materialization`
unfoldable pub read_materialization :
    Call → Principal → String → Database → Result MaterializationRow
unfolding materialization_by read_document
read_materialization call principal id database = do
  m ← or_fail (materialization_by id database) not_found
  _ ← read_document call principal m.document_id database
  ok m

-- A reason that is not blank and has at most 1000 bytes.
unfoldable pub valid_reason : String → Bool
valid_reason reason = not (trim_space reason == "") && leb (len reason) 1000

-- The permission to retry, or the one to approve for who approved the document.
unfoldable pub may_retry : String → MaterializationRow → Database → Result (Unit {0})
unfolding permits
may_retry user_id m database =
    if permits user_id m.library_id "indexing.retry" database
    then ok tt
    else if not (m.approved_by == user_id)
    then err not_found
    else require (permits user_id m.library_id "documents.approve" database) not_found

review_license : Call → MaterializationRow → Result (Unit {0})
unfolding licensed
review_license call m =
    if m.decision_kind == "review"
    then licensed (check_features call.license ("review_workflow" ∷ []))
    else ok tt

abbrev writes_version : String → JobRow → Bool
writes_version id job = job.job_type == "materialize" && job.target_version == id

abbrev still_writes : String → JobRow → Bool
still_writes id job = writes_version id job && is_active job.status

-- ORDER BY created_at DESC, and by the identifier as well in the second query.
abbrev created_last : JobRow → JobRow → Bool
created_last a b = leb b.created_at a.created_at

abbrev comes_last : JobRow → JobRow → Bool
comes_last a b = comes_first b a

unfoldable pub first_job : (JobRow → JobRow → Bool) → (JobRow → Bool) → Database → Option JobRow
unfolding select order_by
first_job before p database = find_row (λ job. true) (order_by before (select p database.jobs))

abbrev planned_again : Call → RootRow → MaterializationRow → MaterializationRow
planned_again call root m = record m {
  root_revision = root.revision;
  state = if m.state == "failed" then "planned" else m.state;
  error_code = "";
  updated_at = call.now;
}

abbrev requeued : Call → String → JobRow → MaterializationRow → JobRow
requeued call job_id prior m =
    record (new_job call job_id m.library_id (some m.file_id) "materialize" m.id "{}") {
      retry_of_job_id = some prior.id;
    }

abbrev prepared_again : Call → RootRow → MaterializationRow → Database → Database
prepared_again call root m database = record database {
  materializations =
      update_rows (λ (row : MaterializationRow). row.id == m.id) (planned_again call root)
        database.materializations;
}

-- The job of another attempt, inserted behind the preparation of the materialization.
requeue_materialization :
    Call → String → RootRow → JobRow → MaterializationRow → Database → Result Database
unfolding insert_job
requeue_materialization call job_id root prior m database =
    insert_job (requeued call job_id prior m) (prepared_again call root m database)

-- The checks of `RetryMaterialization` in front of its search of an active job.
admit_retry : Call → Principal → MaterializationRow → Database → Result (Unit {0})
unfolding licensed settings_for mode_capabilities review_license may_retry workflow_document
    materialization_by
admit_retry call current m database = do
  licensed (check_operation call.license write_documents)
  found ← settings_for call m.library_id database
  licensed (check_features call.license (mode_capabilities found.1))
  review_license call m
  may_retry current.user.id m database
  _ ← workflow_document current.user.id m.document_id database
  row ← or_fail (materialization_by m.id database) no_rows
  require (not (row.state == "cleaned")) invalid_request

retry_anew :
    Call
    → String
    → String
    → RequestMetadata
    → MaterializationRow
    → Principal
    → Database
    → Result (String × Database)
unfolding first_job root_by requeue_materialization record_event
retry_anew call job_id reason metadata m current database = do
  prior ← or_fail (first_job comes_last (writes_version m.id) database) no_rows
  root ← or_fail (root_by m.target_root_id database) no_rows
  require (root.status == "active") (scan_failure "ROOT_UNAVAILABLE")
  inserted ← requeue_materialization call job_id root prior m database
  ok (
    job_id,
    record_event call (event_actor current) metadata "materialization.retry_requested" m.library_id
        m.document_id (("operation_id", text m.id) ∷ ("reason", text reason) ∷ []) inserted,
  )

retry_unless_active :
    Call
    → String
    → String
    → RequestMetadata
    → MaterializationRow
    → Principal
    → Database
    → Result (String × Database)
unfolding first_job retry_anew
retry_unless_active call job_id reason metadata m current database =
    elim (first_job created_last (still_writes m.id) database) [
      | some job ↦ ok (job.id, database)
      | none ↦ retry_anew call job_id reason metadata m current database
    ]

-- `RetryMaterialization`
unfoldable pub retry_materialization :
    Call
    → String
    → Principal
    → String
    → String
    → RequestMetadata
    → Database
    → Database
    → Result String × Database
unfolding read_materialization valid_reason authorized_library admit_retry retry_unless_active
retry_materialization call job_id principal id reason metadata seen database =
    elim (read_materialization call principal id seen) [
      | err e ↦ (err e, database)
      | ok m ↦
          if not (valid_reason reason)
          then (err invalid_request, database)
          else authorized_library call principal
              (λ current database.
                admit_retry call current m database
                >> retry_unless_active call job_id reason metadata m current database)
              database
    ]

-- status<>'failed' AND status<>'cancelled'
abbrev is_retryable : JobStatus → Bool
is_retryable failed = true
is_retryable cancelled = true
is_retryable _ = false

abbrev retries : String → JobRow → Bool
retries id job = elim job.retry_of_job_id [ none ↦ false | some prior ↦ prior == id ]

abbrev created_first : JobRow → JobRow → Bool
created_first a b = leb a.created_at b.created_at

abbrev walks : String → JobRow → Bool
walks root job = (is_root_kind job.job_type && job.target_version == root) && is_active job.status

-- The job that already takes the retry's place.
unfoldable pub existing_retry : JobRow → Database → Option JobRow
unfolding first_job
existing_retry job database = elim (first_job created_first (retries job.id) database) [
  | some retry ↦ some retry
  | none ↦
      if is_root_kind job.job_type then find_row (walks job.target_version) database.jobs else none
]

-- The row that INSERT … SELECT makes of the job.
abbrev retry_of : Call → String → JobRow → JobRow
retry_of call identifier job =
    record (new_job call identifier job.library_id job.file_id job.job_type job.target_version
      job.payload_json) { retry_of_job_id = some job.id }

resume_root : JobRow → Database → Database
resume_root job database =
    if job.job_type == "scan"
    then record database {
      root_scan_controls =
          delete_rows (λ (c : ControlRow). c.key == job.target_version) database.root_scan_controls;
    }
    else database

insert_retry :
    Call
    → String
    → String
    → RequestMetadata
    → JobRow
    → Principal
    → Database
    → Result (String × Database)
unfolding insert_job resume_root record_event
insert_retry call identifier reason metadata job current database = do
  inserted ← insert_job (retry_of call identifier job) (resume_root job database)
  ok (
    identifier,
    record_event call (event_actor current) metadata "indexing.retry_requested" job.library_id ""
        (("job_id", text identifier) ∷ ("retry_of", text job.id) ∷ ("reason", text reason) ∷ [])
        inserted,
  )

retry_row :
    Call
    → String
    → String
    → RequestMetadata
    → JobRow
    → Principal
    → Database
    → Result (String × Database)
unfolding existing_retry insert_retry
retry_row call identifier reason metadata job current database =
    elim (existing_retry job database) [
      | some existing ↦ ok (existing.id, database)
      | none ↦ insert_retry call identifier reason metadata job current database
    ]

unfoldable pub retry_transaction :
    Call
    → String
    → String
    → RequestMetadata
    → String
    → Principal
    → Database
    → Result (String × Database)
unfolding require_permission licensed retry_row
retry_transaction call identifier reason metadata job_id current database = do
  job ← or_fail (find_row (has_job_id job_id) database.jobs) not_found
  require_permission current.user.id job.library_id "indexing.retry" database
  licensed (check_operation call.license write_documents)
  require (is_retryable job.status) invalid_request
  retry_row call identifier reason metadata job current database

-- `Retry`
unfoldable pub retry :
    Call
    → String
    → Principal
    → String
    → String
    → RequestMetadata
    → Database
    → Database
    → Result String × Database
unfolding read_job retry_materialization valid_reason authorized_library retry_transaction
retry call identifier principal job_id reason metadata seen database =
    elim (read_job call principal job_id seen) [
      | err e ↦ (err e, database)
      | ok job ↦
          if job.job_type == "materialize"
          then retry_materialization call identifier principal job.target_version reason metadata
              seen database
          else if not (valid_reason reason)
          then (err invalid_request, database)
          else authorized_library call principal
              (retry_transaction call identifier reason metadata job_id) database
    ]
