-- ===== src/Libraries/Jobs/Control/Queueing.antt =====
-- internal/libraries/roots.go: what enqueueScan leaves.
use expediente.Base.{
  ◌≤◌, true, String, String_eq, List, [], ◌∷◌, ◌++◌, none, leb, find_row, count_rows,
  count_rows-append, count_rows-found, beq_refl, Bool-cases, Option-cases, ◌≡◌, inl, inr, refl,
  arith,
}
use expediente.Domain.{ok}
use expediente.Libraries.{Call, Database, JobRow}
use expediente.Libraries.Access.{any_row}
use expediente.Libraries.Jobs.{has_job_id, holds_root, insert_job, may_insert, with_jobs}
use expediente.Libraries.Jobs.Control.{enqueue_scan, new_job}

abbrev scan_job : Call → String → String → String → JobRow
scan_job call id library_id root_id =
    new_job call id library_id none "scan" root_id (call.encode_text "root_id" root_id)

may_insert_scan :
    (call : Call) (id library_id root_id : String) (jobs : List JobRow)
    → find_row (has_job_id id) jobs ≡ none
    → count_rows (holds_root root_id) jobs ≡ 0
    → may_insert (scan_job call id library_id root_id) jobs ≡ true
unfolding may_insert any_row
may_insert_scan call id library_id root_id jobs fresh free =
    elim (Option-cases (find_row (holds_root root_id) jobs)) [
      | inl e ↦ rw (fresh, e) (ground arith)
      | inr (x, e) ↦ absurd (omega (arith, free, count_rows-found (holds_root root_id) jobs e))
    ]

-- Where the identifier drawn is new and at most one job is active for the root, enqueueScan succeeds
-- and exactly one job is active for the root: it adds a job only where none was active, and never
-- meets the index of the table.
pub enqueue_scan-one :
    (call : Call) (id library_id root_id : String) (database : Database)
    → find_row (has_job_id id) database.jobs ≡ none
    → count_rows (holds_root root_id) database.jobs ≤ 1
    → (after : Database) × (enqueue_scan call id library_id root_id database ≡ ok after)
      × (count_rows (holds_root root_id) after.jobs ≡ 1)
unfolding enqueue_scan insert_job count_rows
enqueue_scan-one call id library_id root_id database fresh le =
    elim (Bool-cases (leb 1 (count_rows (holds_root root_id) database.jobs))) [
      | inl e ↦ (database, rw e refl, ground arith)
      | inr e ↦
          let free : count_rows (holds_root root_id) database.jobs ≡ 0 = ground arith in
          let may = may_insert_scan call id library_id root_id database.jobs fresh free in
          let job = scan_job call id library_id root_id in
          (
            with_jobs (database.jobs ++ (job ∷ [])) database,
            rw (e, may) refl,
            rw
                (
                  count_rows-append (holds_root root_id) database.jobs (job ∷ []),
                  free,
                  beq_refl root_id,
                )
                refl,
          )
    ]
