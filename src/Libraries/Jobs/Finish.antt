-- ===== src/Libraries/Jobs/Finish.antt =====
-- internal/libraries/runtime.go: finish and recoverJobs. A worker finishes the job that it ran under
-- the fencing token of its claim; a restart puts off or ends the jobs that ran.
use expediente.Base.{
  ℕ, ◌+◌, ◌-◌, ◌*◌, ◌^◌, Bool, true, false, not, ◌&&◌, ◌||◌, String, String_eq, ℕ_eq, List, [], ◌∷◌,
  Option, none, some, ◌==◌, leb, ltb, if◌then◌else◌, is_none, find_row, update_rows,
}
use expediente.Domain.{
  Instant, second, Failure, Result, ok, ◌>>=◌, ◌>>◌, RequestMetadata, deadline_exceeded, constraint,
  require,
}
use expediente.Identity.{write, text, number}
use expediente.Libraries.{
  Database, JobRow, JobStatus, JobAttemptRow, MaterializationRow, ControlRow, Call, retry_wait,
  succeeded, failed, paused, cancelled,
}
use expediente.Libraries.Access.{license_blocked, failure_code, scan_failure, any_row, record_event}
use expediente.Libraries.Jobs.{Job, has_job_id, insert_job, is_running, with_jobs}

abbrev pub is_attempt : String → ℕ → JobAttemptRow → Bool
is_attempt job_id fence attempt = attempt.job_id == job_id && attempt.fencing_token == fence

unfoldable pub finish_attempt : Instant → String → Job → Database → Database
finish_attempt now code job database = record database {
  job_attempts =
      update_rows (is_attempt job.id job.fence)
        (λ a. record a { finished_at = some now; error_code = code }) database.job_attempts;
}

-- WHERE id=? AND status='running' AND fencing_token=?
abbrev pub holds_lease : Job → JobRow → Bool
holds_lease job row = row.id == job.id && (is_running row.status && row.fencing_token == job.fence)

abbrev pub license_stopped : String → JobRow → JobRow
license_stopped code row = record row {
  status = cancelled;
  last_error_code = code;
  lease_expires_at = none;
}

-- The job that resumes one stopped for the license, as the INSERT … SELECT makes it.
abbrev pub successor_of : Instant → String → String → JobRow → JobRow
successor_of now code successor row = record row {
  id = successor;
  status = paused;
  attempt_count = row.attempt_count - 1;
  available_at = now;
  lease_expires_at = none;
  fencing_token = 0;
  last_error_code = code;
  retry_of_job_id = some row.id;
  created_at = now;
}

-- The CHECK of `attempt_count` refuses a negative number.
unfoldable pub insert_successor :
    Instant → String → String → Option JobRow → Database → Result Database
unfolding insert_job
insert_successor now code successor none database = ok database
insert_successor now code successor (some row) database =
    require (not (row.attempt_count == 0)) constraint
    >> insert_job (successor_of now code successor row) database

-- `finish` behind `licenseBlocked(cause)`.
unfoldable pub finish_blocked :
    Call → String → RequestMetadata → Job → String → Database → Result (Unit {0} × Database)
unfolding finish_attempt insert_successor record_event any_row
finish_blocked call successor metadata job code database =
    let attempted = finish_attempt call.now code job database in
    let jobs = update_rows (holds_lease job) (license_stopped code) database.jobs in
    if not (any_row (holds_lease job) database.jobs)
    then ok (tt, attempted)
    else insert_successor call.now code successor (find_row (has_job_id job.id) jobs)
        (with_jobs jobs attempted)
      >>= λ inserted. ok (
        tt,
        record_event call ("", "") metadata "indexing.license_paused" job.library_id ""
            (("job_id", text job.id)
              ∷ ("resumes_as", text successor)
              ∷ ("error_code", text code)
              ∷ [])
            inserted,
      )

unfoldable pub is_transient : String → Bool
is_transient code =
    code == "FILE_UNSTABLE"
    || code == "ROOT_UNAVAILABLE"
    || code == "SOURCE_UNAVAILABLE"
    || code == "PROCESS_TIMEOUT"
    || code == "DOCUMENT_UNAVAILABLE"
    || code == "DIRECTORY_CHANGED"
    || code == "STORAGE_UNAVAILABLE"
    || code == "STORAGE_SPACE"
    || code == "STORAGE_PUBLICATION_FAILED"

unfoldable pub cancels : String → Bool
cancels code =
    code == "USER_CANCELLED"
    || code == "ROOT_DISABLED"
    || code == "VERSION_SUPERSEDED"
    || code == "ROOT_PLAN_STALE"

-- The status and the instant from which the job is available again.
unfoldable pub verdict : Instant → Job → Option Failure → JobStatus × Instant
unfolding is_transient cancels failure_code
verdict now job none = (succeeded, now)
verdict now job (some cause) =
    let code = failure_code cause in
    let retries = is_transient code && ltb job.attempts 5 in
    (
      if cancels code then cancelled else if retries then retry_wait else failed,
      if retries then now + 2 ^ job.attempts * second else now,
    )

abbrev pub code_of : Option Failure → String
code_of none = ""
code_of (some cause) = failure_code cause

abbrev pub settled : JobStatus × Instant → String → JobRow → JobRow
settled (status, available_at) code row = record row {
  status = status;
  last_error_code = code;
  available_at = available_at;
  lease_expires_at = none;
}

abbrev pub failed_unless_done : Instant → String → MaterializationRow → MaterializationRow
failed_unless_done now code m = record m {
  state = if m.state == "committed" || m.state == "cleaned" then m.state else "failed";
  error_code = code;
  updated_at = now;
}

unfoldable pub fail_materialization : Instant → Job → Option Failure → Database → Database
fail_materialization now job cause database =
    if job.kind == "materialize" && not (is_none cause)
    then record database {
      materializations =
          update_rows (λ (m : MaterializationRow). m.id == job.version)
            (failed_unless_done now (code_of cause)) database.materializations;
    }
    else database

abbrev pub is_attempt_failure : JobStatus → Bool
is_attempt_failure failed = true
is_attempt_failure retry_wait = true
is_attempt_failure _ = false

unfoldable pub record_failure :
    Call → RequestMetadata → Job → JobStatus → String → Database → Database
unfolding record_event
record_failure call metadata job status code database =
    if is_attempt_failure status
    then record_event call ("", "") metadata "indexing.attempt_failed" job.library_id ""
        (("job_id", text job.id)
          ∷ ("error_code", text code)
          ∷ ("attempt", number job.attempts)
          ∷ [])
        database
    else database

-- `finish` of any other outcome.
unfoldable pub finish_settled : Call → RequestMetadata → Job → Option Failure → Database → Database
unfolding finish_attempt verdict fail_materialization record_failure any_row
finish_settled call metadata job cause database =
    let outcome = verdict call.now job cause in
    let attempted = finish_attempt call.now (code_of cause) job database in
    if not (any_row (holds_lease job) database.jobs)
    then attempted
    else record_failure call metadata job outcome.0 (code_of cause) (
        fail_materialization call.now job cause (
          with_jobs (update_rows (holds_lease job) (settled outcome (code_of cause)) database.jobs)
            attempted))

unfoldable pub finish_transaction :
    Call → String → RequestMetadata → Job → Option Failure → Database → Result (Unit {0} × Database)
unfolding finish_blocked finish_settled license_blocked
finish_transaction call successor metadata job none database =
    ok (tt, finish_settled call metadata job none database)
finish_transaction call successor metadata job (some cause) database =
    if license_blocked cause
    then finish_blocked call successor metadata job (failure_code cause) database
    else ok (tt, finish_settled call metadata job (some cause) database)

unfoldable pub is_deadline : Failure → Bool
is_deadline deadline_exceeded = true
is_deadline _ = false

unfoldable pub timed_out : Option Failure → Option Failure
unfolding is_deadline
timed_out none = none
timed_out (some cause) =
    if is_deadline cause then some (scan_failure "PROCESS_TIMEOUT") else some cause

-- `finish`; the metadata of its events hold a random request identifier alone.
unfoldable pub finish :
    Call → String → RequestMetadata → Job → Option Failure → Database → Result (Unit {0}) × Database
unfolding finish_transaction timed_out
finish call successor metadata job cause =
    write (finish_transaction call successor metadata job (timed_out cause))

abbrev pub is_requested : String → ControlRow → Bool
is_requested key control = control.key == key && control.requested

-- The CASE of `recoverJobs`.
unfoldable pub recovered : Instant → List ControlRow → JobRow → JobRow
unfolding any_row
recovered now controls job = record job {
  status =
      if any_row (is_requested job.id) controls
      then cancelled
      else if leb job.max_attempts job.attempt_count
      then failed
      else retry_wait;
  available_at = now;
  lease_expires_at = none;
  last_error_code = "PROCESS_RESTARTED";
  fencing_token = job.fencing_token + 1;
}

abbrev pub is_running_job : JobRow → Bool
is_running_job job = is_running job.status

abbrev pub materializes : String → JobRow → Bool
materializes id job =
    (job.job_type == "materialize" && is_running job.status) && job.target_version == id

-- `recoverJobs`
unfoldable pub recover_jobs : Call → Database → Database
unfolding recovered any_row
recover_jobs call database = record database {
  job_attempts =
      update_rows (λ (a : JobAttemptRow). is_none a.finished_at)
        (λ a. record a { finished_at = some call.now; error_code = "PROCESS_RESTARTED" })
        database.job_attempts;
  materializations =
      update_rows (λ (m : MaterializationRow). any_row (materializes m.id) database.jobs)
        (failed_unless_done call.now "PROCESS_RESTARTED") database.materializations;
  jobs = update_rows is_running_job (recovered call.now database.job_controls) database.jobs;
}
