-- ===== src/Libraries/Workflow.antt =====
-- internal/libraries/workflow.go: requiresReview, workflowEvent, validateWorkflowClassification,
-- setUploadRetention and SubmitReview. What an operation reads outside of its transaction comes from
-- an earlier state of the database, its argument `seen`.
pub mod Verifying
pub mod Approving
pub mod Deciding
pub mod Finalizing
pub mod Replays
pub mod Accepted
pub mod Pending
use Prim.Native.Char.{code}
use expediente.Base.{
  ℕ, ◌+◌, ◌*◌, Bool, true, false, not, ◌&&◌, ◌||◌, String, String_eq, ℕ_eq, List, [], ◌∷◌, ◌++◌,
  Option, none, some, ◌==◌, leb, ltb, if◌then◌else◌, is_none, find_row, update_rows,
}
use expediente.Domain.{
  hour, Instant, Failure, Result, ok, err, ◌>>=◌, ◌>>◌, require, RequestMetadata, Principal,
  invalid_request, version_conflict, no_rows, constraint, coded,
}
use expediente.Identity.{Detail, UserRow, append_audit, text}
use expediente.Identity.Sessions.{or_fail}
use expediente.Libraries.{
  Approval, CategoryRow, Call, Database, DocumentRow, FileRow, HistoryRow, ReviewRow, ReviewStatus,
  Settings, TypeRow, UploadRow,
}
use expediente.Libraries.Access.{
  any_row, library_write, licensed, permits, record_event, scan_failure, settings_for, document_by,
}
use expediente.Libraries.Documents.{Document, file_by, read_document, workflow_document}
use expediente.Licensing.Policy.{check_features}

abbrev pub is_pending : ReviewStatus → Bool
is_pending ReviewStatus.pending = true
is_pending _ = false

abbrev pub is_pending_review : Approval → Bool
is_pending_review Approval.pending_review = true
is_pending_review _ = false

abbrev pub is_materializing : Approval → Bool
is_materializing Approval.materializing = true
is_materializing _ = false

abbrev pub is_approved : Approval → Bool
is_approved Approval.approved = true
is_approved _ = false

abbrev pub is_rejected : Approval → Bool
is_rejected Approval.rejected = true
is_rejected _ = false

-- The states from which a document may be confirmed directly.
abbrev pub is_open : Approval → Bool
is_open Approval.draft = true
is_open Approval.rejected = true
is_open Approval.needs_review = true
is_open _ = false

-- `requiresReview`
unfoldable pub requires_review : Settings → String → Bool
requires_review settings source =
    if source == "managed" then settings.review_managed else settings.review_linked

add_history : String → String → Database → Database
unfolding document_by
add_history kind document_id database = elim (document_by document_id database) [
  | none ↦ database
  | some d ↦ record database {
    history =
        database.history
        ++ (record { document_id = d.id; revision = d.revision; event_type = kind } ∷ []);
  }
]

-- `workflowEvent`
unfoldable pub workflow_event :
    Call
    → Principal
    → Document
    → RequestMetadata
    → String
    → List (String × Detail)
    → Database
    → Database
unfolding add_history
workflow_event call principal document metadata kind details database =
    add_history kind document.id (record database {
      identity =
          append_audit call.now
            (record {
              subject = record {
                library_id = document.library_id;
                document_id = document.id;
                case_id = document.case_id;
              };
              event_type = kind;
              actor_user_id = principal.user.id;
              system_actor = principal.user.id == "";
              session_id = principal.session_id;
              metadata = metadata;
              details = details;
            })
            database.identity;
    })

-- length(trim(title))>0: SQLite trims spaces alone.
unfoldable pub has_text : String → Bool
has_text String.[] = false
has_text (String.◌∷◌ c s) = not (code c == 32) || has_text s

live_category : String → CategoryRow → Bool
live_category id category = category.id == id && is_none category.archived_at

-- The row of the query of `validateWorkflowClassification`; the identifiers are primary keys.
fits_type : Document → Database → TypeRow → Bool
unfolding live_category any_row has_text
fits_type document database kind =
    ((kind.id == document.type_id && kind.category_id == document.category_id)
      && (kind.library_id == document.library_id && is_none kind.archived_at))
    && (any_row (live_category document.category_id) database.categories
        && (not kind.requires_title || has_text document.title))

-- `validateWorkflowClassification`
unfoldable pub validate_classification : Call → Document → Settings → Database → Result (Unit {0})
unfolding licensed fits_type any_row
validate_classification call document settings database = do
  if document.case_id == ""
      then ok tt
      else licensed (check_features call.license ("expedientes" ∷ []))
  require
      (not (document.category_id == "")
        && not (document.type_id == "")
        && not (settings.cases_enabled && document.case_id == ""))
      (coded "CLASSIFICATION_REQUIRED")
  require (any_row (fits_type document database) database.types) invalid_request
  require (document.availability == "staged" || document.availability == "available")
      (coded "DOCUMENT_UNAVAILABLE")

-- `setUploadRetention`
unfoldable pub set_upload_retention : Instant → String → ℕ → Database → Database
set_upload_retention now document_id days database = record database {
  uploads =
      update_rows
        (λ (u : UploadRow).
          u.document_id == document_id && (u.status == "staged" || u.status == "retained"))
        (λ u. record u {
          retain_until = if ltb 0 days then some (now + days * 24 * hour) else none;
        })
        database.uploads;
}

abbrev pub is_pending_of : String → ReviewRow → Bool
is_pending_of document_id review = review.document_id == document_id && is_pending review.status

abbrev pub has_review_id : String → ReviewRow → Bool
has_review_id id review = review.id == id

abbrev pub has_document_id : String → DocumentRow → Bool
has_document_id id document = document.id == id

-- INSERT INTO review_requests, under the primary key and the index `review_one_pending`.
unfoldable pub insert_review : ReviewRow → Database → Result Database
unfolding any_row
insert_review review database =
    require
      (not (any_row (has_review_id review.id) database.reviews)
        && not (
            is_pending review.status
            && any_row (is_pending_of review.document_id) database.reviews))
      constraint
    >> ok (record database { reviews = database.reviews ++ (review ∷ []) })

abbrev pub moved_to : Approval → DocumentRow → DocumentRow
moved_to state d = record d { approval = state; revision = d.revision + 1 }

-- UPDATE documents SET approval_status=?,revision=revision+1 WHERE id=?
unfoldable pub move_document : Approval → String → Database → Database
move_document state id database = record database {
  documents = update_rows (has_document_id id) (moved_to state) database.documents;
}

unfoldable pub clear_retention : String → Database → Database
clear_retention document_id database = record database {
  uploads =
      update_rows (λ (u : UploadRow). u.document_id == document_id)
        (λ u. record u { retain_until = none }) database.uploads;
}

unfoldable pub supersede_reviews : Instant → String → Database → Database
supersede_reviews now document_id database = record database {
  reviews =
      update_rows (is_pending_of document_id)
        (λ (r : ReviewRow). record r { status = ReviewStatus.superseded; decided_at = some now })
        database.reviews;
}

-- The replay of a submission that was accepted before.
unfoldable pub is_submitted : String → String → ℕ → Document → ReviewRow → Bool
is_submitted user_id assigned_to revision document review =
    (review.requested_by == user_id && review.assigned_to == assigned_to)
    && (review.document_revision == document.revision
        && (revision == review.document_revision || revision + 1 == review.document_revision))

-- The checks of the reviewer that the submission names.
unfoldable pub check_reviewer : String → String → Document → Database → Result (Unit {0})
unfolding permits
check_reviewer user_id assigned_to document database =
    if assigned_to == ""
    then ok tt
    else require
        (not (assigned_to == user_id || assigned_to == document.created_by)
          || permits assigned_to document.library_id "documents.approve_own" database)
        (coded "SELF_APPROVAL_FORBIDDEN")
      >> require (permits assigned_to document.library_id "documents.approve" database)
          invalid_request
      >> or_fail (find_row (λ (u : UserRow). u.id == assigned_to) database.identity.users) no_rows
      >>= λ user. require (is_none user.disabled_at) invalid_request

-- The checks of a submission that is no replay.
unfoldable pub check_submission :
    Call → String → String → ℕ → Document → Database → Result (Unit {0})
unfolding settings_for requires_review licensed validate_classification check_reviewer
check_submission call user_id assigned_to revision document database = do
  require (document.revision == revision) version_conflict
  require (is_open document.approval || is_pending_review document.approval) invalid_request
  found ← settings_for call document.library_id database
  require (requires_review found.0 document.source) (coded "REVIEW_NOT_REQUIRED")
  licensed (check_features call.license ("review_workflow" ∷ []))
  validate_classification call document found.0 database
  check_reviewer user_id assigned_to document database

abbrev pub submitted_review : Call → String → String → String → DocumentRow → FileRow → ReviewRow
submitted_review call review_id user_id assigned_to d f = record {
  id = review_id;
  document_id = d.id;
  library_id = d.library_id;
  document_revision = d.revision;
  version_id = f.current_version_id;
  requested_by = user_id;
  assigned_to = assigned_to;
  status = ReviewStatus.pending;
  requested_at = call.now;
  decided_by = "";
  decided_at = none;
  reason = "";
}

-- The INSERT … SELECT of the review, which has no row where the document has none.
insert_submitted : Call → String → String → String → String → Database → Result Database
unfolding document_by file_by insert_review
insert_submitted call review_id user_id assigned_to document_id database =
    elim (document_by document_id database) [
      | none ↦ ok database
      | some d ↦ elim (file_by d.file_id database) [
        | none ↦ ok database
        | some f ↦ insert_review (submitted_review call review_id user_id assigned_to d f) database
      ]
    ]

unfoldable pub submit_anew :
    Call
    → String
    → String
    → RequestMetadata
    → Document
    → Principal
    → Database
    → Result (String × Database)
unfolding supersede_reviews move_document clear_retention insert_submitted workflow_event
submit_anew call review_id assigned_to metadata document current database = do
  inserted ← insert_submitted call review_id current.user.id assigned_to document.id (
      clear_retention document.id (
        move_document Approval.pending_review document.id
          (supersede_reviews call.now document.id database)))
  ok (
    review_id,
    workflow_event call current document metadata "document.review_submitted"
        (("review_id", text review_id) ∷ ("assigned_reviewer_id", text assigned_to) ∷ []) inserted,
  )

unfoldable pub replayed_submission :
    String → String → ℕ → Document → Option ReviewRow → Option String
unfolding is_submitted
replayed_submission user_id assigned_to revision document none = none
replayed_submission user_id assigned_to revision document (some review) =
    if is_submitted user_id assigned_to revision document review then some review.id else none

unfoldable pub submit_transaction :
    Call
    → String
    → String
    → String
    → ℕ
    → RequestMetadata
    → Principal
    → Database
    → Result (String × Database)
unfolding workflow_document replayed_submission check_submission submit_anew
submit_transaction call review_id document_id assigned_to revision metadata current database = do
  document ← workflow_document current.user.id document_id database
  elim (replayed_submission current.user.id assigned_to revision document
      (find_row (is_pending_of document_id) database.reviews)) [
        | some existing ↦ ok (existing, database)
        | none ↦
            check_submission call current.user.id assigned_to revision document database
            >> submit_anew call review_id assigned_to metadata document current database
      ]

-- `SubmitReview`
unfoldable pub submit_review :
    Call
    → String
    → Principal
    → String
    → String
    → ℕ
    → RequestMetadata
    → Database
    → Database
    → Result String × Database
unfolding read_document library_write submit_transaction
submit_review call review_id principal document_id assigned_to revision metadata seen database =
    elim (read_document call principal document_id seen) [
      | err e ↦ (err e, database)
      | ok document ↦
          library_write call principal document.library_id "documents.submit"
            (submit_transaction call review_id document_id assigned_to revision metadata) database
    ]
