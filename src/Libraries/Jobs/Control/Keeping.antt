-- ===== src/Libraries/Jobs/Control/Keeping.antt =====
-- internal/libraries: what CancelJob, Verify and RetryScanErrors do to the table of jobs.
use expediente.Base.{
  Bool, true, false, not, ◌&&◌, ◌||◌, String, String_eq, ℕ_eq, List, [], ◌∷◌, Option, none, some,
  ◌==◌, leb, if◌then◌else◌, find_row, All, All-find_row, All-map, All-of, All-updated, Unique-same,
  updated, count_rows, Bool-cases, ◌≡◌, ◌⊎◌, inl, inr, refl, sym, subst, arith, find_row_sound, ◌∙◌,
  length,
}
use expediente.Domain.{
  ok, bind-eq-ok, ok-injective, require, require-eq-ok, Principal, RequestMetadata, Result-cases,
  invalid_request, no_rows, not_found,
}
use expediente.Identity.Sessions.{or_fail, or_fail-eq-ok}
use expediente.Libraries.{Call, Database, JobRow, RootRow}
use expediente.Libraries.Access.{library_write-keeps, record_event}
use expediente.Libraries.Documents.{read_job, read_root}
use expediente.Libraries.Jobs.{has_job_id, insert_job, is_active, holds_root}
use expediente.Libraries.Jobs.Control.{
  cancel_job, cancel_scans, cancel_transaction, cancel_waiting, enqueue_scan, enqueue_verification,
  new_job, request_cancel, retry_errors_transaction, retry_scan_errors, stops, supersede_scans,
  user_cancelled, verify_library, verify_roots, waits_to_scan, error_paths, scans_root,
  verifiable_root, verify_transaction, resumed, roots_query,
}
use expediente.Libraries.Jobs.Finishing.{insert_job-Carries}
use expediente.Libraries.Jobs.Invariant.{
  Calms, Carries, Carries-refl, Carries-trans, IsValid, job_id,
}
use expediente.Libraries.Jobs.Updates.{CalmAt, Carries-update_rows}

cancel-Calms :
    (x : JobRow) → (is_active x.status ≡ false → user_cancelled x ≡ x) → Calms x (user_cancelled x)
cancel-Calms x h = record {
  follows = record { same_id = refl; fence_le = omega arith; ended = h };
  same_file = refl;
  same_type = refl;
  same_version = refl;
  same_attempts = refl;
  same_maximum = refl;
  still_running = λ k. absurd (cc);
}

-- A job that is active, or was cancelled by its user already.
abbrev LiveAt : String → JobRow → Type 0
LiveAt id x = x.id ≡ id → (is_active x.status ≡ true) ⊎ (user_cancelled x ≡ x)

live-Calm : (id : String) (x : JobRow) → LiveAt id x → CalmAt (stops id) user_cancelled x
live-Calm id x live e = cancel-Calms x λ h.
    elim (live ((String_eq.beq_iff x.id id).0 (ground arith))) [
      | inl a ↦ absurd (let k = rw a at h in cc)
      | inr s ↦ s
    ]

scan-Live :
    (id root : String) (x : JobRow)
    → LiveAt id x
    → LiveAt id (updated (waits_to_scan root) user_cancelled x)
scan-Live id root x live = elim (Bool-cases (waits_to_scan root x)) [
  | inr e ↦ rw e live
  | inl e ↦ rw e λ k. inr refl
]

scan-Calm : (root : String) (x : JobRow) → CalmAt (waits_to_scan root) user_cancelled x
scan-Calm root x e = cancel-Calms x λ h. absurd (ground arith)

cancel_scans-Carries :
    (root : String) (database : Database)
    → IsValid database.jobs
    → Carries database.jobs (cancel_scans root database).jobs
unfolding cancel_scans
cancel_scans-Carries root database v =
    Carries-update_rows (waits_to_scan root) user_cancelled database.jobs
      (All-of _ database.jobs (scan-Calm root)) v

cancel_waiting-Carries :
    (id : String) (database : Database)
    → All (LiveAt id) database.jobs
    → IsValid database.jobs
    → Carries database.jobs (cancel_waiting id database).jobs
unfolding cancel_waiting
cancel_waiting-Carries id database live v =
    Carries-update_rows (stops id) user_cancelled database.jobs
      (All-map (LiveAt id) _ database.jobs (live-Calm id) live) v

-- The updates of a cancellation one after the other.
cancel-Carries :
    (scans : Bool) (root id : String) (database : Database)
    → All (LiveAt id) database.jobs
    → IsValid database.jobs
    → Carries database.jobs
        (cancel_waiting id (
          if scans
          then cancel_scans root (request_cancel id database)
          else request_cancel id database)).jobs
unfolding request_cancel cancel_scans
cancel-Carries false root id database live v =
    cancel_waiting-Carries id (request_cancel id database) live v
cancel-Carries true root id database live v =
    let first = cancel_scans-Carries root (request_cancel id database) v in
    Carries-trans first (
      cancel_waiting-Carries id (cancel_scans root (request_cancel id database))
        (All-updated (LiveAt id) (LiveAt id) _ _ database.jobs (scan-Live id root) live)
        first.valid)

-- The job that a query found by its identifier is active: so is every job of that identifier.
found-Live :
    (id : String) (row : JobRow) (jobs : List JobRow)
    → find_row (has_job_id id) jobs ≡ some row
    → is_active row.status ≡ true
    → IsValid jobs
    → All (LiveAt id) jobs
found-Live id row jobs found active v =
    let row_id = (String_eq.beq_iff row.id id).0 (find_row_sound (has_job_id id) jobs found) in
    All-map (λ x. job_id x ≡ job_id row → x ≡ row) _ jobs
      (λ x same k.
        inl
          (subst (λ (j : JobRow). is_active j.status ≡ true) (sym (same (k ∙ sym row_id))) active))
      (All-find_row _ (has_job_id id) jobs (Unique-same job_id jobs v.unique_ids) found)

cancel_transaction-Carries :
    (call : Call) (metadata : RequestMetadata) (job : JobRow) (current : Principal)
    (database : Database) {result : Unit {0} × Database}
    → cancel_transaction call metadata job current database ≡ ok result
    → IsValid database.jobs
    → Carries database.jobs result.1.jobs
unfolding cancel_transaction record_event
cancel_transaction-Carries call metadata job current database h v =
    let (row, f, k) =
      bind-eq-ok (or_fail (find_row (has_job_id job.id) database.jobs) no_rows) _ h in
    let (u, r, l) = bind-eq-ok (require (is_active row.status) invalid_request) _ k in
    let found = or_fail-eq-ok (find_row (has_job_id job.id) database.jobs) no_rows f in
    let active = require-eq-ok (is_active row.status) invalid_request r in
    subst (λ (r : Unit {0} × Database). Carries database.jobs r.1.jobs) (ok-injective l)
      (cancel-Carries (job.job_type == "scan") row.target_version job.id database
        (found-Live job.id row database.jobs found active v) v)

pub cancel_job-Carries :
    (call : Call) (principal : Principal) (id : String) (metadata : RequestMetadata)
    (seen database : Database)
    → IsValid database.jobs
    → Carries database.jobs (cancel_job call principal id metadata seen database).1.jobs
unfolding cancel_job
cancel_job-Carries call principal id metadata seen database v =
    elim (Result-cases (read_job call principal id seen)) [
      | inr (e, h) ↦ rw (h, cancel_job) (Carries-refl database.jobs v)
      | inl (job, h) ↦
          elim (Bool-cases (not (job.job_type == "scan") && not (job.job_type == "extract"))) [
            | inl b ↦ rw (h, cancel_job, b) (Carries-refl database.jobs v)
            | inr b ↦
                rw (h, cancel_job, b)
                  (library_write-keeps (λ (d : Database). Carries database.jobs d.jobs) call
                    principal job.library_id "indexing.run" (cancel_transaction call metadata job)
                    database
                    (λ current u d e.
                      cancel_transaction-Carries call metadata job current database e v)
                    (Carries-refl database.jobs v))
          ]
    ]

pub new-Carries :
    (call : Call) (id library_id : String) (file_id : Option String) (kind version payload : String)
    (database : Database) {inserted : Database}
    → insert_job (new_job call id library_id file_id kind version payload) database ≡ ok inserted
    → IsValid database.jobs
    → Carries database.jobs inserted.jobs
new-Carries call id library_id file_id kind version payload database h v =
    insert_job-Carries (new_job call id library_id file_id kind version payload) database h refl
      (omega arith) v

pub enqueue_scan-Carries :
    (call : Call) (id library_id root_id : String) (database : Database) {d : Database}
    → enqueue_scan call id library_id root_id database ≡ ok d
    → IsValid database.jobs
    → Carries database.jobs d.jobs
unfolding enqueue_scan
enqueue_scan-Carries call id library_id root_id database h v =
    elim (Bool-cases (leb 1 (count_rows (holds_root root_id) database.jobs))) [
      | inl e ↦
          subst (λ (d : Database). Carries database.jobs d.jobs)
            (ok-injective (let k = rw e at h in k)) (Carries-refl database.jobs v)
      | inr e ↦
          new-Carries call id library_id none "scan" root_id (call.encode_text "root_id" root_id)
            database (let k = rw e at h in k) v
    ]

enqueue_verification-Carries :
    (call : Call) (id : String) (root : RootRow) (database : Database) {d : Database}
    → enqueue_verification call id root database ≡ ok d
    → IsValid database.jobs
    → Carries database.jobs d.jobs
unfolding enqueue_verification
enqueue_verification-Carries call id root database h v =
    elim (Bool-cases (root.source == "managed")) [
      | inr m ↦
          enqueue_scan-Carries call id root.library_id root.id database (let k = rw m at h in k) v
      | inl m ↦ elim (Bool-cases (leb 1 (count_rows (holds_root root.id) database.jobs))) [
        | inl e ↦
            subst (λ (d : Database). Carries database.jobs d.jobs)
              (ok-injective (let k = rw (m, e) at h in k)) (Carries-refl database.jobs v)
        | inr e ↦
            new-Carries call id root.library_id none "verify_managed" root.id "{}" database
              (let k = rw (m, e) at h in k) v
      ]
    ]

retry_errors-Carries :
    (call : Call) (id : String) (metadata : RequestMetadata) (root : RootRow) (current : Principal)
    (database : Database) {result : Unit {0} × Database}
    → retry_errors_transaction call id metadata root current database ≡ ok result
    → IsValid database.jobs
    → Carries database.jobs result.1.jobs
unfolding retry_errors_transaction record_event
retry_errors-Carries call id metadata root current database h v =
    let paths = error_paths root.id database in
    let (u, r, k) =
      bind-eq-ok
        (require (not (leb 1 (count_rows (scans_root root.id) database.jobs))) invalid_request) _
        h in
    let (w, s, l) = bind-eq-ok (require (not (length paths == 0)) invalid_request) _ k in
    let (inserted, i, m) =
      bind-eq-ok
        (insert_job
          (new_job call id root.library_id none "scan" root.id (call.encode_texts "paths" paths))
          (supersede_scans root.id database))
        _ l in
    subst (λ (r : Unit {0} × Database). Carries database.jobs r.1.jobs) (ok-injective m)
      (new-Carries call id root.library_id none "scan" root.id (call.encode_texts "paths" paths)
        (supersede_scans root.id database) i v)

pub retry_scan_errors-Carries :
    (call : Call) (id : String) (principal : Principal) (root_id : String)
    (metadata : RequestMetadata) (seen database : Database)
    → IsValid database.jobs
    → Carries database.jobs
        (retry_scan_errors call id principal root_id metadata seen database).1.jobs
unfolding retry_scan_errors
retry_scan_errors-Carries call id principal root_id metadata seen database v =
    elim (Result-cases (read_root root_id seen)) [
      | inr (e, h) ↦ rw (h, retry_scan_errors) (Carries-refl database.jobs v)
      | inl (root, h) ↦
          rw (h, retry_scan_errors)
            (library_write-keeps (λ (d : Database). Carries database.jobs d.jobs) call principal
              root.library_id "indexing.retry" (retry_errors_transaction call id metadata root)
              database
              (λ current u d e. retry_errors-Carries call id metadata root current database e v)
              (Carries-refl database.jobs v))
    ]

verify_roots-Carries :
    (call : Call) (fresh : String → String) (root_id : String) (roots : List RootRow) (found : Bool)
    (database : Database) {result : Bool × Database}
    → verify_roots call fresh root_id roots found database ≡ ok result
    → IsValid database.jobs
    → Carries database.jobs result.1.jobs
unfolding verify_roots
verify_roots-Carries call fresh root_id [] found database h v =
    subst (λ (r : Bool × Database). Carries database.jobs r.1.jobs) (ok-injective h)
      (Carries-refl database.jobs v)
verify_roots-Carries call fresh root_id (root ∷ roots) found database h v =
    elim (Bool-cases (verifiable_root root && (root_id == "" || root_id == root.id))) [
      | inr e ↦
          verify_roots-Carries call fresh root_id roots found database
            (let k = rw (e, verify_roots) at h in k) v
      | inl e ↦
          let k = rw (e, verify_roots) at h in
          let (d, q, r) =
            bind-eq-ok (enqueue_verification call (fresh root.id) root (resumed root.id database)) _
              k in
          let first = enqueue_verification-Carries call (fresh root.id) root _ q v in
          Carries-trans first (verify_roots-Carries call fresh root_id roots true d r first.valid)
    ]

verify_transaction-Carries :
    (call : Call) (fresh : String → String) (library_id root_id : String)
    (metadata : RequestMetadata) (current : Principal) (database : Database)
    {result : Unit {0} × Database}
    → verify_transaction call fresh library_id root_id metadata current database ≡ ok result
    → IsValid database.jobs
    → Carries database.jobs result.1.jobs
unfolding verify_transaction record_event
verify_transaction-Carries call fresh library_id root_id metadata current database h v =
    let (answer, a, k) =
      bind-eq-ok (verify_roots call fresh root_id (roots_query library_id database) false database)
        _ h in
    let (u, r, l) = bind-eq-ok (require answer.0 not_found) _ k in
    subst (λ (r : Unit {0} × Database). Carries database.jobs r.1.jobs) (ok-injective l)
      (verify_roots-Carries call fresh root_id (roots_query library_id database) false database a v)

pub verify_library-Carries :
    (call : Call) (fresh : String → String) (principal : Principal) (library_id root_id : String)
    (metadata : RequestMetadata) (database : Database)
    → IsValid database.jobs
    → Carries database.jobs
        (verify_library call fresh principal library_id root_id metadata database).1.jobs
unfolding verify_library
verify_library-Carries call fresh principal library_id root_id metadata database v =
    library_write-keeps (λ (d : Database). Carries database.jobs d.jobs) call principal library_id
      "indexing.run" (verify_transaction call fresh library_id root_id metadata) database
      (λ current u d e.
        verify_transaction-Carries call fresh library_id root_id metadata current database e v)
      (Carries-refl database.jobs v)
