-- ===== src/Libraries/Jobs/History.antt =====
-- internal/libraries: sequences of the operations of the workers and of the users on jobs.
use expediente.Base.{String, String_eq, ℕ_eq, Option}
use expediente.Domain.{Failure, Principal, RequestMetadata}
use expediente.Libraries.{Call, Database}
use expediente.Libraries.Jobs.{Job, claim_lane}
use expediente.Libraries.Jobs.Finish.{finish, recover_jobs}
use expediente.Libraries.Jobs.Control.{cancel_job, retry_scan_errors, verify_library}
use expediente.Libraries.Jobs.Control.Keeping.{
  cancel_job-Carries, retry_scan_errors-Carries, verify_library-Carries,
}
use expediente.Libraries.Jobs.Finishing.{finish-Carries, recover_jobs-Carries}
use expediente.Libraries.Jobs.Invariant.{Carries, Carries-refl, Carries-trans, Evolves, IsValid}
use expediente.Libraries.Jobs.Retrying.{retry}
use expediente.Libraries.Jobs.Retrying.Keeping.{retry-Carries}
use expediente.Libraries.Jobs.Starting.{claim_lane-Carries}

-- One operation. What it reads outside of its transaction may come from any state of the database.
pub data Step : Database → Database → Type 0 where
  claims :
      (call : Call) (lane attempt_id : String) (database : Database)
      → Step database (claim_lane call lane attempt_id database).1
  finishes :
      (call : Call) (successor : String) (metadata : RequestMetadata) (job : Job)
      (cause : Option Failure) (database : Database)
      → Step database (finish call successor metadata job cause database).1
  recovers : (call : Call) (database : Database) → Step database (recover_jobs call database)
  cancels_job :
      (call : Call) (principal : Principal) (id : String) (metadata : RequestMetadata)
      (seen database : Database)
      → Step database (cancel_job call principal id metadata seen database).1
  verifies :
      (call : Call) (fresh : String → String) (principal : Principal) (library_id root_id : String)
      (metadata : RequestMetadata) (database : Database)
      → Step database (verify_library call fresh principal library_id root_id metadata database).1
  retries_errors :
      (call : Call) (id : String) (principal : Principal) (root_id : String)
      (metadata : RequestMetadata) (seen database : Database)
      → Step database (retry_scan_errors call id principal root_id metadata seen database).1
  retries_job :
      (call : Call) (id : String) (principal : Principal) (job_id reason : String)
      (metadata : RequestMetadata) (seen database : Database)
      → Step database (retry call id principal job_id reason metadata seen database).1

pub data Runs : Database → Database → Type 0 where
  stays : {database : Database} → Runs database database
  goes : {first next last : Database} → Step first next → Runs next last → Runs first last

Step-Carries :
    {before after : Database}
    → Step before after
    → IsValid before.jobs
    → Carries before.jobs after.jobs
Step-Carries (claims call lane attempt_id database) v =
    claim_lane-Carries call lane attempt_id database v
Step-Carries (finishes call successor metadata job cause database) v =
    finish-Carries call successor metadata job cause database v
Step-Carries (recovers call database) v = recover_jobs-Carries call database v
Step-Carries (cancels_job call principal id metadata seen database) v =
    cancel_job-Carries call principal id metadata seen database v
Step-Carries (verifies call fresh principal library_id root_id metadata database) v =
    verify_library-Carries call fresh principal library_id root_id metadata database v
Step-Carries (retries_errors call id principal root_id metadata seen database) v =
    retry_scan_errors-Carries call id principal root_id metadata seen database v
Step-Carries (retries_job call id principal job_id reason metadata seen database) v =
    retry-Carries call id principal job_id reason metadata seen database v

Runs-Carries :
    {before after : Database}
    → Runs before after
    → IsValid before.jobs
    → Carries before.jobs after.jobs
Runs-Carries {before} stays v = Carries-refl before.jobs v
Runs-Carries (goes step runs) v =
    let first = Step-Carries step v in Carries-trans first (Runs-Carries runs first.valid)

-- Where the table of jobs is valid, it is valid after any sequence of claims, completions, restarts,
-- cancellations, verifications and retries: the identifiers are different, at most one job runs on
-- each file, at most one job of a kind runs on each root, and no job has more attempts than its
-- maximum.
pub Runs-IsValid :
    (before after : Database) → Runs before after → IsValid before.jobs → IsValid after.jobs
Runs-IsValid before after runs v = (Runs-Carries runs v).valid

-- Where the table of jobs is valid, any sequence of claims, completions, restarts, cancellations,
-- verifications and retries keeps every job at its place under its identifier, never lowers its
-- fencing token, and leaves a job that succeeded, failed or was cancelled exactly as it was.
pub Runs-Evolves :
    (before after : Database)
    → Runs before after
    → IsValid before.jobs
    → Evolves before.jobs after.jobs
Runs-Evolves before after runs v = (Runs-Carries runs v).evolves
