-- ===== src/Libraries/Jobs/Retrying/Keeping.antt =====
-- internal/libraries: what Retry and RetryMaterialization do to the table of jobs.
use expediente.Base.{
  String, String_eq, ◌==◌, find_row, Bool-cases, Option-cases, ◌≡◌, inl, inr, refl, subst, arith,
}
use expediente.Domain.{
  ok, bind-eq-ok, ok-injective, require, Principal, RequestMetadata, Result-cases, invalid_request,
  no_rows, not_found,
}
use expediente.Identity.Sessions.{or_fail}
use expediente.Libraries.{Call, Database, JobRow, MaterializationRow}
use expediente.Libraries.Access.{
  authorized_library-keeps, licensed, record_event, require_permission, scan_failure,
}
use expediente.Libraries.Documents.{read_job, root_by}
use expediente.Libraries.Jobs.{has_job_id, insert_job}
use expediente.Libraries.Jobs.Finishing.{insert_job-Carries}
use expediente.Libraries.Jobs.Invariant.{Carries, Carries-refl, IsValid}
use expediente.Libraries.Jobs.Retrying.{
  admit_retry, comes_last, created_last, existing_retry, first_job, prepared_again, requeued,
  insert_retry, is_retryable, read_materialization, requeue_materialization, resume_root, retry,
  retry_anew, retry_materialization, retry_of, retry_row, retry_transaction, retry_unless_active,
  still_writes, valid_reason, writes_version,
}
use expediente.Licensing.Policy.{check_operation, write_documents}

resume_root-jobs :
    (job : JobRow) (database : Database) → (resume_root job database).jobs ≡ database.jobs
unfolding resume_root
resume_root-jobs job database = ground arith

insert_retry-Carries :
    (call : Call) (id reason : String) (metadata : RequestMetadata) (job : JobRow)
    (current : Principal) (database : Database) {result : String × Database}
    → insert_retry call id reason metadata job current database ≡ ok result
    → IsValid database.jobs
    → Carries database.jobs result.1.jobs
unfolding insert_retry record_event
insert_retry-Carries call id reason metadata job current database h v =
    let (d, i, k) = bind-eq-ok (insert_job (retry_of call id job) (resume_root job database)) _ h in
    let same = resume_root-jobs job database in
    let c =
      insert_job-Carries (retry_of call id job) (resume_root job database) i refl (omega arith)
        (rw same v) in
    subst (λ (r : String × Database). Carries database.jobs r.1.jobs) (ok-injective k)
      (subst (λ jobs. Carries jobs d.jobs) same c)

retry_row-Carries :
    (call : Call) (id reason : String) (metadata : RequestMetadata) (job : JobRow)
    (current : Principal) (database : Database) {result : String × Database}
    → retry_row call id reason metadata job current database ≡ ok result
    → IsValid database.jobs
    → Carries database.jobs result.1.jobs
unfolding retry_row
retry_row-Carries call id reason metadata job current database h v =
    elim (Option-cases (existing_retry job database)) [
      | inl e ↦
          insert_retry-Carries call id reason metadata job current database
            (let k = rw (e, retry_row) at h in k) v
      | inr (x, e) ↦
          subst (λ (r : String × Database). Carries database.jobs r.1.jobs)
            (ok-injective (let k = rw (e, retry_row) at h in k)) (Carries-refl database.jobs v)
    ]

retry_transaction-Carries :
    (call : Call) (id reason : String) (metadata : RequestMetadata) (job_id : String)
    (current : Principal) (database : Database) {result : String × Database}
    → retry_transaction call id reason metadata job_id current database ≡ ok result
    → IsValid database.jobs
    → Carries database.jobs result.1.jobs
unfolding retry_transaction
retry_transaction-Carries call id reason metadata job_id current database h v =
    let (job, a, k) =
      bind-eq-ok (or_fail (find_row (has_job_id job_id) database.jobs) not_found) _ h in
    let (u, b, l) =
      bind-eq-ok (require_permission current.user.id job.library_id "indexing.retry" database) _
        k in
    let (w, c, m) = bind-eq-ok (licensed (check_operation call.license write_documents)) _ l in
    let (z, d, n) = bind-eq-ok (require (is_retryable job.status) invalid_request) _ m in
    retry_row-Carries call id reason metadata job current database n v

retry_anew-Carries :
    (call : Call) (id reason : String) (metadata : RequestMetadata) (m : MaterializationRow)
    (current : Principal) (database : Database) {result : String × Database}
    → retry_anew call id reason metadata m current database ≡ ok result
    → IsValid database.jobs
    → Carries database.jobs result.1.jobs
unfolding retry_anew requeue_materialization record_event
retry_anew-Carries call id reason metadata m current database h v =
    let (prior, a, k) =
      bind-eq-ok (or_fail (first_job comes_last (writes_version m.id) database) no_rows) _ h in
    let (root, b, l) = bind-eq-ok (or_fail (root_by m.target_root_id database) no_rows) _ k in
    let (u, c, n) =
      bind-eq-ok (require (root.status == "active") (scan_failure "ROOT_UNAVAILABLE")) _ l in
    let (d, i, o) = bind-eq-ok (requeue_materialization call id root prior m database) _ n in
    subst (λ (r : String × Database). Carries database.jobs r.1.jobs) (ok-injective o)
      (insert_job-Carries (requeued call id prior m) (prepared_again call root m database) i refl
        (omega arith) v)

retry_unless_active-Carries :
    (call : Call) (id reason : String) (metadata : RequestMetadata) (m : MaterializationRow)
    (current : Principal) (database : Database) {result : String × Database}
    → retry_unless_active call id reason metadata m current database ≡ ok result
    → IsValid database.jobs
    → Carries database.jobs result.1.jobs
unfolding retry_unless_active
retry_unless_active-Carries call id reason metadata m current database h v =
    elim (Option-cases (first_job created_last (still_writes m.id) database)) [
      | inl e ↦
          retry_anew-Carries call id reason metadata m current database
            (let k = rw (e, retry_unless_active) at h in k) v
      | inr (x, e) ↦
          subst (λ (r : String × Database). Carries database.jobs r.1.jobs)
            (ok-injective (let k = rw (e, retry_unless_active) at h in k))
            (Carries-refl database.jobs v)
    ]

pub retry_materialization-Carries :
    (call : Call) (job_id : String) (principal : Principal) (id reason : String)
    (metadata : RequestMetadata) (seen database : Database)
    → IsValid database.jobs
    → Carries database.jobs
        (retry_materialization call job_id principal id reason metadata seen database).1.jobs
unfolding retry_materialization
retry_materialization-Carries call job_id principal id reason metadata seen database v =
    elim (Result-cases (read_materialization call principal id seen)) [
      | inr (e, h) ↦ rw (h, retry_materialization) (Carries-refl database.jobs v)
      | inl (m, h) ↦ elim (Bool-cases (valid_reason reason)) [
        | inr b ↦ rw (h, retry_materialization, b) (Carries-refl database.jobs v)
        | inl b ↦
            rw (h, retry_materialization, b)
              (authorized_library-keeps (λ (d : Database). Carries database.jobs d.jobs) call
                principal _ database
                (λ current u d e.
                  let (w, a, k) = bind-eq-ok (admit_retry call current m database) _ e in
                  retry_unless_active-Carries call job_id reason metadata m current database k v)
                (Carries-refl database.jobs v))
      ]
    ]

pub retry-Carries :
    (call : Call) (id : String) (principal : Principal) (job_id reason : String)
    (metadata : RequestMetadata) (seen database : Database)
    → IsValid database.jobs
    → Carries database.jobs (retry call id principal job_id reason metadata seen database).1.jobs
unfolding retry
retry-Carries call id principal job_id reason metadata seen database v =
    elim (Result-cases (read_job call principal job_id seen)) [
      | inr (e, h) ↦ rw (h, retry) (Carries-refl database.jobs v)
      | inl (job, h) ↦ elim (Bool-cases (job.job_type == "materialize")) [
        | inl b ↦
            rw (h, retry, b)
              (retry_materialization-Carries call id principal job.target_version reason metadata
                seen database v)
        | inr b ↦ elim (Bool-cases (valid_reason reason)) [
          | inr c ↦ rw (h, retry, b, c) (Carries-refl database.jobs v)
          | inl c ↦
              rw (h, retry, b, c)
                (authorized_library-keeps (λ (d : Database). Carries database.jobs d.jobs) call
                  principal (retry_transaction call id reason metadata job_id) database
                  (λ current u d e.
                    retry_transaction-Carries call id reason metadata job_id current database e v)
                  (Carries-refl database.jobs v))
        ]
      ]
    ]
