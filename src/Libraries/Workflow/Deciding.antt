-- ===== src/Libraries/Workflow/Deciding.antt =====
-- internal/libraries/workflow.go: DecideReview. What it reads outside of its transaction comes from an
-- earlier state of the database, its argument `seen`.
use mathlib.Core.Option
use expediente.Base.{
  ℕ, ◌+◌, Bool, true, false, not, ◌&&◌, ◌||◌, String, String_eq, ℕ_eq, [], ◌∷◌, Option, none, some,
  ◌==◌, if◌then◌else◌, find_row, update_rows,
}
use expediente.Domain.{
  Result, ok, err, ◌>>=◌, ◌>>◌, require, RequestMetadata, Principal, invalid_request,
  version_conflict, not_found, no_rows, coded,
}
use expediente.Domain.Text.{trim_space}
use expediente.Identity.{text, flag}
use expediente.Identity.Sessions.{or_fail}
use expediente.Libraries.{
  Approval, Call, Database, MaterializationRow, ReviewRow, ReviewStatus, Settings,
}
use expediente.Libraries.Access.{
  event_actor, library_write, licensed, permits, record_event, settings_for,
}
use expediente.Libraries.Documents.{Document, file_by, read_document, workflow_document}
use expediente.Libraries.Jobs.Retrying.{valid_reason}
use expediente.Libraries.Workflow.{
  has_review_id, is_approved, is_materializing, is_pending, is_pending_review, is_rejected,
  move_document, requires_review, set_upload_retention, validate_classification, workflow_event,
}
use expediente.Licensing.Policy.{check_features}
use expediente.Libraries.Workflow.Approving.{begin_approval}
use expediente.Libraries.Workflow.Verifying.{verify_decision_content, Files}

unfoldable pub review_by : String → Database → Option ReviewRow
review_by id database = find_row (has_review_id id) database.reviews

-- The document and the review are the user's own.
abbrev pub is_own : String → Document → ReviewRow → Bool
is_own user_id document review = user_id == document.created_by || user_id == review.requested_by

abbrev pub moved_on : ℕ → Document → Bool
moved_on revision document =
    (is_materializing document.approval && document.revision == revision + 1)
    || (is_approved document.approval && document.revision == revision + 2)

unfoldable pub by_review : String → String → ℕ → MaterializationRow → Bool
by_review review_id user_id revision m =
    (m.review_id == review_id && not (review_id == ""))
    && (m.approved_by == user_id && m.document_revision == revision)

unfoldable pub replayed_approval : String → ℕ → Document → ReviewRow → Database → Option String
unfolding by_review
replayed_approval user_id revision document review database =
    if moved_on revision document
    then Option.map (λ (m : MaterializationRow). m.id)
        (find_row (by_review review.id user_id revision) database.materializations)
    else none

abbrev pub is_approved_review : ReviewStatus → Bool
is_approved_review ReviewStatus.approved = true
is_approved_review _ = false

abbrev pub is_rejected_review : ReviewStatus → Bool
is_rejected_review ReviewStatus.rejected = true
is_rejected_review _ = false

unfoldable pub is_decided : String → ℕ → Bool → String → Document → ReviewRow → Bool
is_decided user_id revision approve reason document review =
    (review.decided_by == user_id && document.revision == revision + 1)
    && (if approve
        then is_approved_review review.status && is_approved document.approval
        else (is_rejected_review review.status && is_rejected document.approval)
          && review.reason == trim_space reason)

-- The replay of a decision that was made before, with the operation that it began.
unfoldable pub replayed_decision :
    String → ℕ → Bool → String → Document → ReviewRow → Database → Option String
unfolding replayed_approval is_decided
replayed_decision user_id revision approve reason document review database =
    if not (review.document_revision == revision)
    then none
    else elim (if approve
        then replayed_approval user_id revision document review database
        else none) [
          | some operation ↦ some operation
          | none ↦
              if is_decided user_id revision approve reason document review then some "" else none
        ]

-- The checks of a decision that is no replay.
unfoldable pub check_decision :
    Call → ℕ → ℕ → Bool → Document → ReviewRow → Database → Result Settings
unfolding file_by settings_for requires_review licensed
check_decision call verified revision approve document review database = do
  require (is_pending review.status && is_pending_review document.approval)
      (coded "REVIEW_ALREADY_DECIDED")
  require
      ((review.document_revision == revision && document.revision == revision)
        && (not approve || document.revision == verified))
      version_conflict
  f ← or_fail (file_by document.file_id database) no_rows
  require (f.current_version_id == review.version_id) version_conflict
  found ← settings_for call review.library_id database
  require (requires_review found.0 document.source) (coded "REVIEW_POLICY_CHANGED")
  licensed (check_features call.license ("review_workflow" ∷ []))
  ok found.0

record_exception :
    Call → Principal → RequestMetadata → Bool → Document → ReviewRow → Database → Database
unfolding record_event
record_exception call current metadata approve document review database =
    if is_own current.user.id document review
    then record_event call (event_actor current) metadata "document.self_review_exception"
        document.library_id document.id
        (("review_id", text review.id) ∷ ("approve", flag approve) ∷ []) database
    else database

unfoldable pub reject_review : Call → String → String → String → Database → Database
reject_review call user_id reason review_id database = record database {
  reviews =
      update_rows (has_review_id review_id)
        (λ (r : ReviewRow). record r {
          status = ReviewStatus.rejected;
          decided_by = user_id;
          decided_at = some call.now;
          reason = trim_space reason;
        })
        database.reviews;
}

reject :
    Call
    → Principal
    → RequestMetadata
    → String
    → Settings
    → Document
    → ReviewRow
    → Database
    → Database
unfolding move_document reject_review set_upload_retention workflow_event
reject call current metadata reason settings document review database =
    workflow_event call current document metadata "document.rejected"
      (("review_id", text review.id) ∷ ("reason", text (trim_space reason)) ∷ [])
      (set_upload_retention call.now document.id settings.retention_days (
        reject_review call current.user.id reason review.id
          (move_document Approval.rejected document.id database)))

-- What a decision does behind its checks.
unfoldable pub carry_out :
    Call
    → String × String
    → RequestMetadata
    → Bool
    → String
    → Settings
    → Document
    → ReviewRow
    → Principal
    → Database
    → Result (String × Database)
unfolding record_exception reject validate_classification begin_approval
carry_out call fresh metadata approve reason settings document review current database =
    let noted = record_exception call current metadata approve document review database in
    if not approve
    then ok ("", reject call current metadata reason settings document review noted)
    else validate_classification call document settings noted
      >> begin_approval call fresh current document settings "review" review.id metadata noted

unfoldable pub decide_transaction :
    Call
    → String × String
    → ℕ
    → String
    → ℕ
    → Bool
    → String
    → RequestMetadata
    → Principal
    → Database
    → Result (String × Database)
unfolding review_by workflow_document permits replayed_decision check_decision carry_out
decide_transaction call fresh verified review_id revision approve reason metadata current database =
    do
      review ← or_fail (review_by review_id database) no_rows
      require (review.assigned_to == "" || review.assigned_to == current.user.id) not_found
      document ← workflow_document current.user.id review.document_id database
      require
          (not (is_own current.user.id document review)
            || permits current.user.id review.library_id "documents.approve_own" database)
          (coded "SELF_APPROVAL_FORBIDDEN")
      elim (replayed_decision current.user.id revision approve reason document review database) [
        | some operation ↦ ok (operation, database)
        | none ↦
            check_decision call verified revision approve document review database >>= λ settings.
            carry_out call fresh metadata approve reason settings document review current database
      ]

decision_permission : Bool → String
decision_permission approve = if approve then "documents.approve" else "documents.reject"

-- The reading part of `DecideReview`: the review's library and the document as it was verified.
unfoldable pub prepare_decision :
    Call → Files → Principal → String → Bool → String → Database → Result (ReviewRow × Document)
unfolding review_by read_document valid_reason verify_decision_content
prepare_decision call files principal review_id approve reason seen = do
  review ← or_fail (review_by review_id seen) not_found
  document ← read_document call principal review.document_id seen
  require (approve || valid_reason reason) invalid_request
  if approve && is_pending_review document.approval
      then verify_decision_content files document seen
      else ok tt
  ok (review, document)

-- `DecideReview`
unfoldable pub decide_review :
    Call
    → Files
    → String × String
    → Principal
    → String
    → ℕ
    → Bool
    → String
    → RequestMetadata
    → Database
    → Database
    → Result String × Database
unfolding prepare_decision library_write decision_permission decide_transaction
decide_review call files fresh principal review_id revision approve reason metadata seen database =
    elim (prepare_decision call files principal review_id approve reason seen) [
      | err e ↦ (err e, database)
      | ok (review, document) ↦
          library_write call principal review.library_id (decision_permission approve)
            (decide_transaction call fresh document.revision review_id revision approve reason
              metadata)
            database
    ]
