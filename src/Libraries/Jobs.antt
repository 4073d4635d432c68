-- ===== src/Libraries/Jobs.antt =====
-- internal/libraries/runtime.go: claimLane, with the constraints of the table of jobs. A claim takes the first job that its lane may run, sets it running under a new
-- fencing token, and the worker that ran it finishes it under that token.
-- Of the constraints of the table, an INSERT tests the primary key and the index
-- `jobs_one_root_verification`. The progress of a job is left out.
pub mod Finish
pub mod Invariant
pub mod Updates
pub mod Claiming
pub mod Starting
pub mod Finishing
pub mod Control
pub mod Retrying
pub mod History
pub mod Outcomes
use Prim.Native.Nat.{Ordering}
use Prim.Native.String.{compare}
use expediente.Base.{
  ℕ, ◌+◌, ◌-◌, ◌*◌, ◌^◌, Bool, true, false, not, ◌&&◌, ◌||◌, String, String_eq, ℕ_eq, List, [], ◌∷◌,
  ◌++◌, Option, none, some, ◌==◌, leb, ltb, if◌then◌else◌, is_none, find_row, update_rows, select,
  order_by, take,
}
use expediente.Domain.{
  Instant, second, hour, Failure, Result, ok, err, ◌>>=◌, ◌>>◌, RequestMetadata, deadline_exceeded,
  no_rows, constraint, require,
}
use expediente.Identity.{write, text, number}
use expediente.Libraries.{
  Database, JobRow, JobStatus, JobAttemptRow, MaterializationRow, ControlRow, Call, queued, running,
  retry_wait, succeeded, failed, paused, cancelled,
}
use expediente.Libraries.Access.{
  job_license, license_blocked, failure_code, scan_failure, any_row, record_event,
}

-- `Job`, the fields that a claim fills.
pub record Job : Type 0 where
  pub id : String
  pub library_id : String
  pub file_id : String
  pub kind : String
  pub version : String
  pub attempts : ℕ
  pub fence : ℕ

abbrev pub or_empty : Option String → String
or_empty none = ""
or_empty (some value) = value

unfoldable pub to_job : JobRow → Job
to_job row = record {
  id = row.id;
  library_id = row.library_id;
  file_id = or_empty row.file_id;
  kind = row.job_type;
  version = row.target_version;
  attempts = row.attempt_count;
  fence = row.fencing_token;
}

abbrev pub is_running : JobStatus → Bool
is_running running = true
is_running _ = false

-- status IN ('queued','retry_wait','paused')
abbrev pub is_waiting : JobStatus → Bool
is_waiting queued = true
is_waiting retry_wait = true
is_waiting paused = true
is_waiting _ = false

abbrev pub is_active : JobStatus → Bool
is_active status = is_waiting status || is_running status

-- job_type IN ('scan','verify_managed')
abbrev pub is_root_kind : String → Bool
is_root_kind kind = kind == "scan" || kind == "verify_managed"

unfoldable pub in_lane : String → String → Bool
in_lane lane kind =
    lane == "all"
    || (lane == "scan" && is_root_kind kind)
    || (lane == "content" && not (is_root_kind kind))

abbrev pub reads_file : String → JobRow → Bool
reads_file file job = elim job.file_id [ none ↦ false | some id ↦ id == file ]

-- The first NOT EXISTS of the query: a running job reads the file.
abbrev pub runs_on_file : String → JobRow → Bool
runs_on_file file job = is_running job.status && reads_file file job

unfoldable pub file_is_busy : JobRow → List JobRow → Bool
unfolding any_row
file_is_busy job jobs = elim job.file_id [
  | none ↦ false
  | some file ↦ any_row (runs_on_file file) jobs
]

-- The second one: a job of the same kind walks the root.
abbrev pub walks_root : String → String → JobRow → Bool
walks_root kind root job =
    is_running job.status
    && is_root_kind job.job_type
    && (job.job_type == kind && job.target_version == root)

unfoldable pub eligible : String → Instant → List JobRow → JobRow → Bool
unfolding in_lane file_is_busy any_row
eligible lane now jobs job =
    (in_lane lane job.job_type && is_waiting job.status)
    && (leb job.available_at now && ltb job.attempt_count job.max_attempts)
    && (not (file_is_busy job jobs)
        && not (any_row (walks_root job.job_type job.target_version) jobs))

-- ORDER BY created_at,id
unfoldable pub comes_first : JobRow → JobRow → Bool
comes_first a b =
    ltb a.created_at b.created_at
    || (a.created_at == b.created_at && elim (compare a.id b.id) [ Ordering.gt ↦ false | _ ↦ true ])

abbrev pub has_job_id : String → JobRow → Bool
has_job_id id job = job.id == id

abbrev pub with_jobs : List JobRow → Database → Database
with_jobs jobs database = record database { jobs = jobs }

abbrev pub paused_for : Instant → Failure → JobRow → JobRow
paused_for now cause job = record job {
  status = paused;
  last_error_code = failure_code cause;
  available_at = now + 5 * second;
}

-- The loop over the candidates.
unfoldable pub choose : Call → List JobRow → Database → Option JobRow × Database
choose call [] database = (none, database)
choose call (candidate ∷ candidates) database = elim (job_license call candidate database) [
  | ok _ ↦ (some candidate, database)
  | err cause ↦ elim (license_blocked cause) [
    | false ↦ (some candidate, database)
    | true ↦ choose call candidates (
        with_jobs (update_rows (has_job_id candidate.id) (paused_for call.now cause) database.jobs)
          database)
  ]
]

unfoldable pub candidates : String → Instant → List JobRow → List JobRow
unfolding select order_by take eligible comes_first
candidates lane now jobs = take 64 (order_by comes_first (select (eligible lane now jobs) jobs))

abbrev pub started : Instant → JobRow → JobRow → JobRow
started now candidate job = record job {
  status = running;
  attempt_count = candidate.attempt_count + 1;
  fencing_token = candidate.fencing_token + 1;
  lease_expires_at = some (now + hour);
}

unfoldable pub start_job : Call → String → JobRow → Database → Database
start_job call attempt_id candidate database = record database {
  jobs = update_rows (has_job_id candidate.id) (started call.now candidate) database.jobs;
  job_attempts = database.job_attempts ++ (row ∷ []);
}
  where
    row : JobAttemptRow
    row = record {
      id = attempt_id;
      job_id = candidate.id;
      attempt_number = candidate.attempt_count + 1;
      fencing_token = candidate.fencing_token + 1;
      started_at = call.now;
      finished_at = none;
      error_code = "";
    }

abbrev pub claimed_job : JobRow → Job
claimed_job candidate = to_job (record candidate {
  attempt_count = candidate.attempt_count + 1;
  fencing_token = candidate.fencing_token + 1;
})

unfoldable pub claim_chosen : Call → String → Option JobRow × Database → Result Job × Database
unfolding start_job to_job
claim_chosen call attempt_id (none, database) = (err no_rows, database)
claim_chosen call attempt_id (some candidate, database) =
    (ok (claimed_job candidate), start_job call attempt_id candidate database)

-- `claimLane`. No statement of it fails, so that its transaction always commits.
unfoldable pub claim_lane : Call → String → String → Database → Result Job × Database
unfolding choose candidates claim_chosen
claim_lane call lane attempt_id database =
    claim_chosen call attempt_id (choose call (candidates lane call.now database.jobs) database)

-- An active job of a root, under the index `jobs_one_root_verification`.
abbrev pub holds_root : String → JobRow → Bool
holds_root root job =
    (is_root_kind job.job_type && is_active job.status) && job.target_version == root

-- The identifier is new, and no other job is active for the root of an active one.
unfoldable pub may_insert : JobRow → List JobRow → Bool
unfolding any_row
may_insert job jobs =
    not (any_row (has_job_id job.id) jobs)
    && not (holds_root job.target_version job && any_row (holds_root job.target_version) jobs)

-- INSERT INTO jobs
unfoldable pub insert_job : JobRow → Database → Result Database
unfolding may_insert
insert_job job database =
    require (may_insert job database.jobs) constraint
    >> ok (with_jobs (database.jobs ++ (job ∷ [])) database)
