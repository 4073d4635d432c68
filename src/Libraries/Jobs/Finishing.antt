-- ===== src/Libraries/Jobs/Finishing.antt =====
-- internal/libraries/runtime.go: what finish and recoverJobs do to the table of jobs.
use expediente.Base.{
  ◌≤◌, true, false, not, ◌&&◌, String, String_eq, ℕ_eq, List, [], ◌∷◌, ◌++◌, Option, none, some,
  ◌==◌, ltb, find_row, All, All-of, All-find_row, update_rows, Bool-cases, Option-cases, ◌≡◌, ◌≢◌,
  inl, inr, refl, subst, arith,
}
use expediente.Domain.{
  Failure, Instant, ok, bind-eq-ok, ok-injective, require, require-eq-ok, RequestMetadata,
  constraint,
}
use expediente.Identity.{write-keeps}
use expediente.Libraries.{Call, Database, JobRow, JobStatus, ControlRow}
use expediente.Libraries.Access.{any_row, license_blocked, failure_code, record_event}
use expediente.Libraries.Jobs.{Job, has_job_id, insert_job, may_insert, is_running, with_jobs}
use expediente.Libraries.Jobs.Finish.{
  fail_materialization, finish, finish_attempt, finish_blocked, finish_settled, finish_transaction,
  holds_lease, insert_successor, is_running_job, license_stopped, record_failure, recover_jobs,
  recovered, settled, successor_of, timed_out, verdict, code_of, cancels, is_transient,
}
use expediente.Libraries.Jobs.Invariant.{
  Calms, Carries, Carries-refl, Carries-trans, IsValid, job_id,
}
use expediente.Libraries.Jobs.Updates.{Carries-append, Carries-update_rows}

absent_ids :
    (id : String) (jobs : List JobRow)
    → find_row (has_job_id id) jobs ≡ none
    → All (λ x. job_id x ≢ id) jobs
unfolding find_row
absent_ids id [] h = tt
absent_ids id (x ∷ xs) h = elim (Bool-cases (x.id == id)) [
  | inl e ↦ absurd (let k = rw e at h in cc)
  | inr e ↦ ((λ k. cc ((String_eq.beq_iff x.id id).1 k)), absent_ids id xs (let k = rw e at h in k))
]

pub insert_job-Carries :
    (job : JobRow) (database : Database) {inserted : Database}
    → insert_job job database ≡ ok inserted
    → is_running job.status ≡ false
    → job.attempt_count ≤ job.max_attempts
    → IsValid database.jobs
    → Carries database.jobs inserted.jobs
unfolding insert_job may_insert any_row
insert_job-Carries job database {inserted} h rests within v =
    let (u, r, k) = bind-eq-ok (require (may_insert job database.jobs) constraint) _ h in
    let tested = require-eq-ok (may_insert job database.jobs) constraint r in
    elim (Option-cases (find_row (has_job_id job.id) database.jobs)) [
      | inr (x, e) ↦ absurd (let t = rw e at tested in cc)
      | inl e ↦
          subst (λ (d : Database). Carries database.jobs d.jobs)
            (ok-injective {a = with_jobs (database.jobs ++ (job ∷ [])) database} k)
            (Carries-append database.jobs job (absent_ids job.id database.jobs e) rests within v)
    ]

lease-runs : (job : Job) (x : JobRow) → holds_lease job x ≡ true → is_running x.status ≡ true
lease-runs job x h = ground arith

-- An UPDATE of the job whose lease is held, which ends or puts off the job.
lease-Carries :
    (job : Job) (f : JobRow → JobRow) (jobs : List JobRow)
    → ((x : JobRow) → is_running x.status ≡ true → Calms x (f x))
    → IsValid jobs
    → Carries jobs (update_rows (holds_lease job) f jobs)
lease-Carries job f jobs h v =
    Carries-update_rows (holds_lease job) f jobs (All-of _ jobs (λ x e. h x (lease-runs job x e))) v

-- A running job that is put into another state.
stops-Calms :
    (x y : JobRow)
    → is_running x.status ≡ true
    → is_running y.status ≡ false
    → (y.id ≡ x.id) × (x.fencing_token ≤ y.fencing_token)
    → (y.file_id ≡ x.file_id) × (y.job_type ≡ x.job_type) × (y.target_version ≡ x.target_version)
    → (y.attempt_count ≡ x.attempt_count) × (y.max_attempts ≡ x.max_attempts)
    → Calms x y
stops-Calms x y runs rests (id, fence) (file, kind, version) (attempts, maximum) = record {
  follows = record { same_id = id; fence_le = fence; ended = λ h. absurd (ground arith) };
  same_file = file;
  same_type = kind;
  same_version = version;
  same_attempts = attempts;
  same_maximum = maximum;
  still_running = λ h. runs;
}

pub verdict-rests :
    (now : Instant) (job : Job) (cause : Option Failure)
    → is_running (verdict now job cause).0 ≡ false
unfolding verdict
verdict-rests now job none = refl
verdict-rests now job (some cause) = elim (Bool-cases (cancels (failure_code cause))) [
  | inl e ↦ rw e refl
  | inr e ↦ elim (Bool-cases (is_transient (failure_code cause) && ltb job.attempts 5)) [
    | inl f ↦ rw (e, f) refl
    | inr f ↦ rw (e, f) refl
  ]
]

settled-Carries :
    (now : Instant) (job : Job) (cause : Option Failure) (jobs : List JobRow)
    → IsValid jobs
    → Carries jobs
        (update_rows (holds_lease job) (settled (verdict now job cause) (code_of cause)) jobs)
settled-Carries now job cause jobs v =
    lease-Carries job _ jobs
      (λ x runs.
        stops-Calms x (settled (verdict now job cause) (code_of cause) x) runs
          (verdict-rests now job cause) (refl, omega arith) (refl, refl, refl) (refl, refl))
      v

fail_materialization-jobs :
    (now : Instant) (job : Job) (cause : Option Failure) (database : Database)
    → (fail_materialization now job cause database).jobs ≡ database.jobs
unfolding fail_materialization
fail_materialization-jobs now job cause database = ground arith

record_failure-jobs :
    (call : Call) (metadata : RequestMetadata) (job : Job) (status : JobStatus) (code : String)
    (database : Database)
    → (record_failure call metadata job status code database).jobs ≡ database.jobs
unfolding record_failure record_event
record_failure-jobs call metadata job status code database = ground arith

finish_settled-Carries :
    (call : Call) (metadata : RequestMetadata) (job : Job) (cause : Option Failure)
    (database : Database)
    → IsValid database.jobs
    → Carries database.jobs (finish_settled call metadata job cause database).jobs
unfolding finish_settled finish_attempt
finish_settled-Carries call metadata job cause database v =
    elim (Bool-cases (any_row (holds_lease job) database.jobs)) [
      | inr e ↦ rw e (Carries-refl database.jobs v)
      | inl e ↦
          rw
            (
              e,
              record_failure-jobs call metadata job _ _ _,
              fail_materialization-jobs call.now job cause _,
            )
            (settled-Carries call.now job cause database.jobs v)
    ]

successor-Carries :
    (now : Instant) (code successor : String) (row : Option JobRow) (database : Database)
    {inserted : Database}
    → insert_successor now code successor row database ≡ ok inserted
    → ((job : JobRow) → row ≡ some job → job.attempt_count ≤ job.max_attempts)
    → IsValid database.jobs
    → Carries database.jobs inserted.jobs
unfolding insert_successor
successor-Carries now code successor none database h within v =
    subst (λ (d : Database). Carries database.jobs d.jobs) (ok-injective h)
      (Carries-refl database.jobs v)
successor-Carries now code successor (some row) database h within v =
    let (u, r, k) = bind-eq-ok (require (not (row.attempt_count == 0)) constraint) _ h in
    insert_job-Carries (successor_of now code successor row) database k refl
      (omega (arith, within row refl)) v

stopped-Carries :
    (code : String) (job : Job) (jobs : List JobRow)
    → IsValid jobs
    → Carries jobs (update_rows (holds_lease job) (license_stopped code) jobs)
stopped-Carries code job jobs v =
    lease-Carries job (license_stopped code) jobs
      (λ x runs.
        stops-Calms x (license_stopped code x) runs refl (refl, omega arith) (refl, refl, refl)
          (refl, refl))
      v

finish_blocked-Carries :
    (call : Call) (successor : String) (metadata : RequestMetadata) (job : Job) (code : String)
    (database : Database) {result : Unit {0} × Database}
    → finish_blocked call successor metadata job code database ≡ ok result
    → IsValid database.jobs
    → Carries database.jobs result.1.jobs
unfolding finish_blocked finish_attempt record_event
finish_blocked-Carries call successor metadata job code database h v =
    elim (Bool-cases (any_row (holds_lease job) database.jobs)) [
      | inr e ↦
          subst (λ (r : Unit {0} × Database). Carries database.jobs r.1.jobs)
            (ok-injective (let k = rw e at h in k)) (Carries-refl database.jobs v)
      | inl e ↦
          let stopped = stopped-Carries code job database.jobs v in
          let k = rw e at h in
          let (inserted, i, r) = bind-eq-ok _ _ k in
          let more =
            successor-Carries call.now code successor _ _ i
              (λ row f. All-find_row _ (has_job_id job.id) _ stopped.valid.attempts_le f)
              stopped.valid in
          subst (λ (r : Unit {0} × Database). Carries database.jobs r.1.jobs) (ok-injective r)
            (Carries-trans stopped more)
    ]

finish_transaction-Carries :
    (call : Call) (successor : String) (metadata : RequestMetadata) (job : Job)
    (cause : Option Failure) (database : Database) {result : Unit {0} × Database}
    → finish_transaction call successor metadata job cause database ≡ ok result
    → IsValid database.jobs
    → Carries database.jobs result.1.jobs
unfolding finish_transaction
finish_transaction-Carries call successor metadata job none database h v =
    subst (λ (r : Unit {0} × Database). Carries database.jobs r.1.jobs) (ok-injective h)
      (finish_settled-Carries call metadata job none database v)
finish_transaction-Carries call successor metadata job (some cause) database h v =
    elim (Bool-cases (license_blocked cause)) [
      | inr e ↦
          subst (λ (r : Unit {0} × Database). Carries database.jobs r.1.jobs)
            (ok-injective (let k = rw e at h in k))
            (finish_settled-Carries call metadata job (some cause) database v)
      | inl e ↦
          finish_blocked-Carries call successor metadata job (failure_code cause) database
            (let k = rw e at h in k) v
    ]

pub finish-Carries :
    (call : Call) (successor : String) (metadata : RequestMetadata) (job : Job)
    (cause : Option Failure) (database : Database)
    → IsValid database.jobs
    → Carries database.jobs (finish call successor metadata job cause database).1.jobs
unfolding finish
finish-Carries call successor metadata job cause database v =
    write-keeps (finish_transaction call successor metadata job (timed_out cause)) database
      (λ (d : Database). Carries database.jobs d.jobs)
      (λ u d e.
        finish_transaction-Carries call successor metadata job (timed_out cause) database e v)
      (Carries-refl database.jobs v)

recovered-rests :
    (now : Instant) (controls : List ControlRow) (x : JobRow)
    → is_running (recovered now controls x).status ≡ false
unfolding recovered
recovered-rests now controls x = ground arith

pub recover_jobs-Carries :
    (call : Call) (database : Database)
    → IsValid database.jobs
    → Carries database.jobs (recover_jobs call database).jobs
unfolding recover_jobs recovered
recover_jobs-Carries call database v =
    Carries-update_rows is_running_job (recovered call.now database.job_controls) database.jobs
      (All-of _ database.jobs (λ x runs.
        stops-Calms x (recovered call.now database.job_controls x) runs
          (recovered-rests call.now database.job_controls x) (refl, omega arith) (refl, refl, refl)
          (refl, refl)))
      v
