-- ===== src/Libraries/Jobs/Control.antt =====
-- internal/libraries: CancelJob and RetryScanErrors of job_control.go, enqueueScan of roots.go,
-- enqueueVerification and verifiableRoot of managed_integrity.go, Verify and Retry of documents.go,
-- RetryMaterialization of workflow_queries.go. What an operation reads outside of its transaction
-- comes from an earlier state of the database, its argument `seen`.
pub mod Keeping
pub mod Queueing
use expediente.Base.{
  Bool, true, false, not, ◌&&◌, ◌||◌, String, String_eq, ℕ_eq, List, [], ◌∷◌, map, length, Option,
  none, ◌==◌, leb, if◌then◌else◌, find_row, count_rows, update_rows, delete_rows, select, take,
  order_by,
}
use expediente.Domain.{
  Result, ok, err, ◌>>=◌, ◌>>◌, require, RequestMetadata, Principal, invalid_request, not_found,
  no_rows,
}
use expediente.Identity.{text, number}
use expediente.Identity.Sessions.{or_fail}
use expediente.Libraries.{
  Database, JobRow, ControlRow, RootRow, ScanRow, ScanErrorRow, Call, queued, cancelled,
}
use expediente.Libraries.Access.{library_write, record_event, event_actor}
use expediente.Libraries.Documents.{read_job, read_root}
use expediente.Libraries.Jobs.{
  has_job_id, holds_root, insert_job, is_active, is_running, is_waiting, with_jobs,
}
use Prim.Native.String.{compare}
use Prim.Native.Nat.{Ordering}

-- INSERT … ON CONFLICT DO UPDATE SET … = 1
unfoldable pub raise_control : String → List ControlRow → List ControlRow
raise_control key [] = record { key = key; requested = true } ∷ []
raise_control key (control ∷ controls) =
    let rest = raise_control key controls in
    if control.key == key then record control { requested = true } ∷ controls else control ∷ rest

abbrev user_cancelled : JobRow → JobRow
user_cancelled job = record job { status = cancelled; last_error_code = "USER_CANCELLED" }

abbrev waits_to_scan : String → JobRow → Bool
waits_to_scan root job =
    (job.job_type == "scan" && job.target_version == root) && is_waiting job.status

-- The part of `CancelJob` for scans: the root is paused, and its waiting scans are cancelled.
cancel_scans : String → Database → Database
unfolding raise_control
cancel_scans root database = record database {
  root_scan_controls = raise_control root database.root_scan_controls;
  jobs = update_rows (waits_to_scan root) user_cancelled database.jobs;
}

abbrev stops : String → JobRow → Bool
stops id job = job.id == id && not (is_running job.status)

cancel_waiting : String → Database → Database
cancel_waiting id database =
    with_jobs (update_rows (stops id) user_cancelled database.jobs) database

request_cancel : String → Database → Database
unfolding raise_control
request_cancel id database = record database {
  job_controls = raise_control id database.job_controls;
}

unfoldable pub cancel_transaction :
    Call → RequestMetadata → JobRow → Principal → Database → Result (Unit {0} × Database)
unfolding cancel_scans cancel_waiting request_cancel record_event
cancel_transaction call metadata job current database = do
  row ← or_fail (find_row (has_job_id job.id) database.jobs) no_rows
  require (is_active row.status) invalid_request
  let requested = request_cancel job.id database in
      let stopped =
        if job.job_type == "scan" then cancel_scans row.target_version requested else requested in
      ok (
        tt,
        record_event call (event_actor current) metadata "indexing.cancel_requested" job.library_id
            "" (("job_id", text job.id) ∷ []) (cancel_waiting job.id stopped),
      )

-- `CancelJob`
unfoldable pub cancel_job :
    Call → Principal → String → RequestMetadata → Database → Database → Result (Unit {0}) × Database
unfolding read_job library_write cancel_transaction
cancel_job call principal job_id metadata seen database =
    elim (read_job call principal job_id seen) [
      | err e ↦ (err e, database)
      | ok job ↦
          if not (job.job_type == "scan") && not (job.job_type == "extract")
          then (err invalid_request, database)
          else library_write call principal job.library_id "indexing.run"
              (cancel_transaction call metadata job) database
    ]

-- A new job, with the defaults of the table.
abbrev pub new_job : Call → String → String → Option String → String → String → String → JobRow
new_job call id library_id file_id kind version payload = record {
  id = id;
  library_id = library_id;
  file_id = file_id;
  job_type = kind;
  target_version = version;
  payload_json = payload;
  status = queued;
  attempt_count = 0;
  max_attempts = 5;
  available_at = call.now;
  lease_expires_at = none;
  fencing_token = 0;
  last_error_code = "";
  retry_of_job_id = none;
  created_at = call.now;
}

-- `enqueueScan`
unfoldable pub enqueue_scan : Call → String → String → String → Database → Result Database
unfolding insert_job
enqueue_scan call identifier library_id root_id database =
    if leb 1 (count_rows (holds_root root_id) database.jobs)
    then ok database
    else insert_job
        (new_job call identifier library_id none "scan" root_id
          (call.encode_text "root_id" root_id))
        database

-- `enqueueVerification`
unfoldable pub enqueue_verification : Call → String → RootRow → Database → Result Database
unfolding insert_job enqueue_scan
enqueue_verification call identifier root database =
    if not (root.source == "managed")
    then enqueue_scan call identifier root.library_id root.id database
    else if leb 1 (count_rows (holds_root root.id) database.jobs)
    then ok database
    else insert_job (new_job call identifier root.library_id none "verify_managed" root.id "{}")
        database

abbrev pub verifiable_root : RootRow → Bool
verifiable_root root = root.status == "active" || root.status == "inaccessible"

-- `rootsQuery`
abbrev root_before : RootRow → RootRow → Bool
root_before a b = elim (compare a.id b.id) [ Ordering.gt ↦ false | _ ↦ true ]

abbrev in_library : String → RootRow → Bool
in_library library_id root = library_id == "" || root.library_id == library_id

unfoldable pub roots_query : String → Database → List RootRow
unfolding select order_by
roots_query library_id database =
    order_by root_before (select (in_library library_id) database.roots)

abbrev resumed : String → Database → Database
resumed root_id database = record database {
  root_scan_controls =
      delete_rows (λ (c : ControlRow). c.key == root_id) database.root_scan_controls;
}

-- The loop of `Verify`; `fresh` gives the identifier drawn for the job of a root.
unfoldable pub verify_roots :
    Call → (String → String) → String → List RootRow → Bool → Database → Result (Bool × Database)
unfolding enqueue_verification
verify_roots call fresh root_id [] found database = ok (found, database)
verify_roots call fresh root_id (root ∷ roots) found database =
    elim (verifiable_root root && (root_id == "" || root_id == root.id)) [
      | false ↦ verify_roots call fresh root_id roots found database
      | true ↦
          enqueue_verification call (fresh root.id) root (resumed root.id database) >>= λ queued_up.
          verify_roots call fresh root_id roots true queued_up
    ]

verify_transaction :
    Call
    → (String → String)
    → String
    → String
    → RequestMetadata
    → Principal
    → Database
    → Result (Unit {0} × Database)
unfolding verify_roots roots_query record_event
verify_transaction call fresh library_id root_id metadata current database =
    verify_roots call fresh root_id (roots_query library_id database) false database >>= λ answer.
    require answer.0 not_found
    >> ok (
      tt,
      record_event call (event_actor current) metadata "indexing.requested" library_id ""
          (("root_id", text root_id) ∷ []) answer.1,
    )

-- `Verify`
unfoldable pub verify_library :
    Call
    → (String → String)
    → Principal
    → String
    → String
    → RequestMetadata
    → Database
    → Result (Unit {0}) × Database
unfolding library_write verify_transaction
verify_library call fresh principal library_id root_id metadata =
    library_write call principal library_id "indexing.run"
      (verify_transaction call fresh library_id root_id metadata)

abbrev scans_root : String → JobRow → Bool
scans_root root job = (job.job_type == "scan" && job.target_version == root) && is_active job.status

abbrev path_before : ScanErrorRow → ScanErrorRow → Bool
path_before a b = elim (compare a.relative_path b.relative_path) [ Ordering.gt ↦ false | _ ↦ true ]

-- The paths to scan again: at most 1000 of the 1001 that the query asks for.
unfoldable pub error_paths : String → Database → List String
unfolding select order_by take
error_paths root_id database = take 1000 (
    map (λ (e : ScanErrorRow). e.relative_path)
      (take 1001 (
        order_by path_before
          (select (λ (e : ScanErrorRow). e.root_id == root_id) database.scan_errors))))

abbrev supersede_scans : String → Database → Database
supersede_scans root_id database = record database {
  scans =
      update_rows (λ (s : ScanRow). s.root_id == root_id && s.status == "running")
        (λ s. record s { status = "superseded" }) database.scans;
}

unfoldable pub retry_errors_transaction :
    Call → String → RequestMetadata → RootRow → Principal → Database → Result (Unit {0} × Database)
unfolding error_paths insert_job record_event
retry_errors_transaction call identifier metadata root current database =
    let paths = error_paths root.id database in
    do
      require (not (leb 1 (count_rows (scans_root root.id) database.jobs))) invalid_request
      require (not (length paths == 0)) invalid_request
      inserted ←
          insert_job
            (new_job call identifier root.library_id none "scan" root.id
              (call.encode_texts "paths" paths))
            (supersede_scans root.id database)
      ok (
        tt,
        record_event call (event_actor current) metadata "indexing.errors_retry_requested"
            root.library_id ""
            (("root_id", text root.id) ∷ ("paths_count", number (length paths)) ∷ []) inserted,
      )

-- `RetryScanErrors`
unfoldable pub retry_scan_errors :
    Call
    → String
    → Principal
    → String
    → RequestMetadata
    → Database
    → Database
    → Result (Unit {0}) × Database
unfolding read_root library_write retry_errors_transaction
retry_scan_errors call identifier principal root_id metadata seen database =
    elim (read_root root_id seen) [
      | err e ↦ (err e, database)
      | ok root ↦
          library_write call principal root.library_id "indexing.retry"
            (retry_errors_transaction call identifier metadata root) database
    ]
