-- ===== src/Libraries/Workflow/Finalizing.antt =====
-- internal/libraries: FinalizeDocument of workflow.go and CancelUpload of classification.go. What they
-- read outside of their transaction comes from an earlier state of the database, their argument `seen`.
use mathlib.Core.Option
use expediente.Base.{
  ℕ, ◌+◌, Bool, true, false, not, ◌&&◌, String, String_eq, ℕ_eq, [], ◌∷◌, Option, none, some, ◌==◌,
  if◌then◌else◌, find_row, update_rows,
}
use expediente.Domain.{
  Result, ok, err, ◌>>=◌, ◌>>◌, require, RequestMetadata, Principal, invalid_request,
  version_conflict, not_found, no_rows, coded,
}
use expediente.Identity.{text, number}
use expediente.Identity.Sessions.{or_fail}
use expediente.Libraries.{
  Approval, Call, Database, DocumentRow, FileRow, JobRow, JobStatus, MaterializationRow, ReviewRow,
  ReviewStatus, UploadRow,
}
use expediente.Libraries.Access.{any_row, library_write, settings_for, document_by}
use expediente.Libraries.Documents.{Document, file_by, read_document, workflow_document}
use expediente.Libraries.Jobs.{with_jobs, reads_file}
use expediente.Libraries.Jobs.Retrying.{valid_reason}
use expediente.Libraries.Workflow.{
  is_approved, is_materializing, is_open, is_pending_of, move_document, requires_review,
  set_upload_retention, validate_classification, workflow_event,
}
use expediente.Libraries.Workflow.Deciding.{moved_on}
use expediente.Libraries.Workflow.Approving.{begin_approval}
use expediente.Libraries.Workflow.Verifying.{verify_decision_content, Files}

unfoldable pub directly : String → String → ℕ → MaterializationRow → Bool
directly document_id user_id revision m =
    (m.document_id == document_id && m.decision_kind == "direct")
    && (m.approved_by == user_id && m.document_revision == revision)

unfoldable pub approved_by_user : String → String → Database → Bool
unfolding any_row
approved_by_user document_id user_id database =
    any_row (λ (d : DocumentRow). d.id == document_id && d.approved_by == user_id)
      database.documents

-- The replay of a confirmation that was made before.
unfoldable pub replayed_finalization : String → ℕ → Document → Database → Option String
unfolding directly approved_by_user
replayed_finalization user_id revision document database =
    elim (if moved_on revision document
      then find_row (directly document.id user_id revision) database.materializations
      else none) [
        | some m ↦ some m.id
        | none ↦
            if (is_approved document.approval && document.revision == revision + 1)
              && approved_by_user document.id user_id database
            then some ""
            else none
      ]

unfoldable pub finalize_anew :
    Call
    → String × String
    → ℕ
    → ℕ
    → RequestMetadata
    → Document
    → Principal
    → Database
    → Result (String × Database)
unfolding settings_for requires_review validate_classification begin_approval
finalize_anew call fresh verified revision metadata document current database = do
  require (document.revision == revision && document.revision == verified) version_conflict
  require (is_open document.approval) invalid_request
  found ← settings_for call document.library_id database
  require (not (requires_review found.0 document.source)) (coded "REVIEW_REQUIRED")
  validate_classification call document found.0 database
  begin_approval call fresh current document found.0 "direct" "" metadata database

unfoldable pub finalize_transaction :
    Call
    → String × String
    → ℕ
    → String
    → ℕ
    → RequestMetadata
    → Principal
    → Database
    → Result (String × Database)
unfolding workflow_document replayed_finalization finalize_anew
finalize_transaction call fresh verified document_id revision metadata current database = do
  document ← workflow_document current.user.id document_id database
  elim (replayed_finalization current.user.id revision document database) [
    | some operation ↦ ok (operation, database)
    | none ↦ finalize_anew call fresh verified revision metadata document current database
  ]

unfoldable pub prepare_finalization : Call → Files → Principal → String → Database → Result Document
unfolding read_document verify_decision_content
prepare_finalization call files principal document_id seen = do
  document ← read_document call principal document_id seen
  if not (is_materializing document.approval) && not (is_approved document.approval)
      then verify_decision_content files document seen
      else ok tt
  ok document

-- `FinalizeDocument`
unfoldable pub finalize_document :
    Call
    → Files
    → String × String
    → Principal
    → String
    → ℕ
    → RequestMetadata
    → Database
    → Database
    → Result String × Database
unfolding prepare_finalization library_write finalize_transaction
finalize_document call files fresh principal document_id revision metadata seen database =
    elim (prepare_finalization call files principal document_id seen) [
      | err e ↦ (err e, database)
      | ok document ↦
          library_write call principal document.library_id "documents.finalize"
            (finalize_transaction call fresh document.revision document_id revision metadata)
            database
    ]

-- UPDATE jobs SET status='cancelled',fencing_token=fencing_token+1
abbrev is_cancellable : JobStatus → Bool
is_cancellable JobStatus.queued = true
is_cancellable JobStatus.running = true
is_cancellable JobStatus.retry_wait = true
is_cancellable _ = false

abbrev pub reads_upload : String → JobRow → Bool
reads_upload file_id job = reads_file file_id job && is_cancellable job.status

cancel_file_jobs : String → Database → Database
cancel_file_jobs file_id database =
    with_jobs
      (update_rows (reads_upload file_id)
        (λ (j : JobRow). record j {
          status = JobStatus.cancelled;
          fencing_token = j.fencing_token + 1;
        })
        database.jobs)
      database

retain_upload : String → Database → Database
retain_upload document_id database = record database {
  uploads =
      update_rows (λ (u : UploadRow). u.document_id == document_id)
        (λ u. record u { status = "retained" }) database.uploads;
}

cancel_reviews : Call → String → String → Database → Database
cancel_reviews call reason document_id database = record database {
  reviews =
      update_rows (is_pending_of document_id)
        (λ (r : ReviewRow). record r {
          status = ReviewStatus.cancelled;
          decided_at = some call.now;
          reason = reason;
        })
        database.reviews;
}

abbrev is_cancellable_document : Approval → Bool
is_cancellable_document Approval.draft = true
is_cancellable_document Approval.rejected = true
is_cancellable_document Approval.pending_review = true
is_cancellable_document _ = false

-- The query of the transaction joins the document with its file.
document_file : String → Database → Option (DocumentRow × FileRow)
unfolding document_by file_by
document_file id database = elim (document_by id database) [
  | none ↦ none
  | some d ↦ Option.map (λ (f : FileRow). (d, f)) (file_by d.file_id database)
]

unfoldable pub cancel_upload_transaction :
    Call
    → Document
    → String
    → ℕ
    → RequestMetadata
    → Principal
    → Database
    → Result (Unit {0} × Database)
unfolding document_file move_document retain_upload cancel_file_jobs cancel_reviews settings_for
    set_upload_retention workflow_event
cancel_upload_transaction call document reason revision metadata current database = do
  (d, f) ← or_fail (document_file document.id database) no_rows
  require (d.created_by == current.user.id && f.availability == "staged") not_found
  require (d.revision == revision) version_conflict
  require (is_cancellable_document d.approval) invalid_request
  let withdrawn = cancel_reviews call reason document.id (
        cancel_file_jobs document.file_id
          (retain_upload document.id (move_document Approval.cancelled document.id database))) in
      do
        found ← settings_for call document.library_id withdrawn
        ok (
          tt,
          workflow_event call current document metadata "document.cancelled"
              (("reason", text reason) ∷ ("retention_days", number found.0.retention_days) ∷ [])
              (set_upload_retention call.now document.id found.0.retention_days withdrawn),
        )

-- `CancelUpload`
unfoldable pub cancel_upload :
    Call
    → Principal
    → String
    → String
    → ℕ
    → RequestMetadata
    → Database
    → Database
    → Result (Unit {0}) × Database
unfolding valid_reason read_document library_write cancel_upload_transaction
cancel_upload call principal document_id reason revision metadata seen database =
    if not (valid_reason reason)
    then (err invalid_request, database)
    else elim (read_document call principal document_id seen) [
      | err e ↦ (err e, database)
      | ok document ↦
          library_write call principal document.library_id "documents.cancel_own"
            (cancel_upload_transaction call document reason revision metadata) database
    ]
