-- ===== src/Libraries/Jobs/Outcomes.antt =====
-- internal/libraries: what a claim answers, what a late completion does, and what a restart leaves.
use expediente.Base.{
  Bool, false, String, String_eq, ℕ_eq, List, [], ◌∷◌, Option, none, some, find_row, count_rows,
  All, All-of, count_rows-none, All-updated, Bool-cases, ◌≡◌, inl, inr, refl, arith, insert_sorted,
  order_by, select, take,
}
use expediente.Domain.{Failure, ok, err, Result-cases, RequestMetadata}
use expediente.Identity.{write}
use expediente.Libraries.{Call, Database, JobRow}
use expediente.Libraries.Access.{any_row, job_license, license_blocked}
use expediente.Libraries.Jobs.{
  Job, candidates, choose, claim_chosen, claim_lane, claimed_job, comes_first, eligible,
}
use expediente.Libraries.Jobs.Finish.{
  finish, finish_attempt, finish_blocked, finish_settled, finish_transaction, holds_lease,
  is_running_job, recover_jobs, recovered, timed_out,
}

-- After recoverJobs no job runs, whatever the table held.
pub recover_jobs-stops :
    (call : Call) (database : Database)
    → count_rows is_running_job (recover_jobs call database).jobs ≡ 0
unfolding recover_jobs recovered
recover_jobs-stops call database = count_rows-none is_running_job _ (
    All-updated (λ x. Unit {0}) _ is_running_job (recovered call.now database.job_controls)
      database.jobs (λ x u. ground arith) (All-of _ database.jobs (λ x. tt)))

late_transaction :
    (call : Call) (successor : String) (metadata : RequestMetadata) (job : Job)
    (cause : Option Failure) (database : Database)
    → find_row (holds_lease job) database.jobs ≡ none
    → (write (finish_transaction call successor metadata job cause) database).1.jobs ≡ database.jobs
unfolding finish_transaction write finish_blocked finish_settled finish_attempt any_row
late_transaction call successor metadata job none database e = rw e refl
late_transaction call successor metadata job (some cause) database e =
    elim (Bool-cases (license_blocked cause)) [
      | inl b ↦ rw (write, b, e) refl
      | inr b ↦ rw (write, b, e) refl
    ]

-- A completion whose lease is no longer held (the job does not run, or runs under another fencing
-- token) changes no job, whatever its cause, a refusal of the license included.
pub finish-late :
    (call : Call) (successor : String) (metadata : RequestMetadata) (job : Job)
    (cause : Option Failure) (database : Database)
    → find_row (holds_lease job) database.jobs ≡ none
    → (finish call successor metadata job cause database).1.jobs ≡ database.jobs
unfolding finish
finish-late call successor metadata job cause database e =
    late_transaction call successor metadata job (timed_out cause) database e

-- The license refuses to run the job.
unfoldable pub stopped_by_license : Call → Database → JobRow → Bool
stopped_by_license call database job = elim (job_license call job database) [
  | ok _ ↦ false
  | err cause ↦ license_blocked cause
]

insert_sorted-cons :
    (before : JobRow → JobRow → Bool) (x : JobRow) (xs : List JobRow)
    → (y : JobRow) × (ys : List JobRow) × (insert_sorted before x xs ≡ y ∷ ys)
unfolding insert_sorted
insert_sorted-cons before x [] = (x, [], refl)
insert_sorted-cons before x (y ∷ ys) = elim (Bool-cases (before x y)) [
  | inl e ↦ (x, y ∷ ys, rw e refl)
  | inr e ↦ (y, insert_sorted before x ys, rw e refl)
]

select-cons :
    (p : JobRow → Bool) (xs : List JobRow) {x : JobRow}
    → find_row p xs ≡ some x
    → (y : JobRow) × (ys : List JobRow) × (select p xs ≡ y ∷ ys)
unfolding find_row select
select-cons p [] h = absurd (cc)
select-cons p (x ∷ xs) h = elim (Bool-cases (p x)) [
  | inl e ↦ (x, select p xs, rw e refl)
  | inr e ↦ let (y, ys, k) = select-cons p xs (let k = rw e at h in k) in (y, ys, rw e k)
]

candidates-cons :
    (call : Call) (lane : String) (jobs : List JobRow) {job : JobRow}
    → find_row (eligible lane call.now jobs) jobs ≡ some job
    → (first : JobRow) × (rest : List JobRow) × (candidates lane call.now jobs ≡ first ∷ rest)
unfolding candidates order_by take
candidates-cons call lane jobs h =
    let (x, xs, e) = select-cons (eligible lane call.now jobs) jobs h in
    let (y, ys, k) = insert_sorted-cons comes_first x (order_by comes_first xs) in
    (y, take 63 ys, rw (e, k) refl)

choose-first :
    (call : Call) (first : JobRow) (rest : List JobRow) (database : Database)
    → stopped_by_license call database first ≡ false
    → choose call (first ∷ rest) database ≡ (some first, database)
unfolding choose stopped_by_license
choose-first call first rest database h = elim (Result-cases (job_license call first database)) [
  | inl (u, e) ↦ rw (e, choose) refl
  | inr (cause, e) ↦
      let b : license_blocked cause ≡ false = let k = rw (e, stopped_by_license) at h in k in
      rw (e, choose, b) refl
]

-- Where a job of the lane is eligible and the license stops none of the candidates, a claim answers
-- a job, and that job was the first candidate.
pub claim_lane-answers :
    (call : Call) (lane attempt_id : String) (database : Database) (job : JobRow)
    → find_row (eligible lane call.now database.jobs) database.jobs ≡ some job
    → All (λ c. stopped_by_license call database c ≡ false) (candidates lane call.now database.jobs)
    → (first : JobRow) × (rest : List JobRow) × (candidates lane call.now database.jobs
        ≡ first ∷ rest)
      × ((claim_lane call lane attempt_id database).0 ≡ ok (claimed_job first))
unfolding claim_lane claim_chosen
claim_lane-answers call lane attempt_id database job h a =
    let (first, rest, e) = candidates-cons call lane database.jobs h in
    let b = rw e at a in
    let c = choose-first call first rest database b.0 in (first, rest, e, rw (e, c) refl)
