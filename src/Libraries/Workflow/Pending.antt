-- ===== src/Libraries/Workflow/Pending.antt =====
-- internal/libraries/workflow.go: the pending review that SubmitReview leaves.
use expediente.Base.{
  ℕ, ◌+◌, ◌≤◌, not, ◌&&◌, String, String_eq, ℕ_eq, [], ◌∷◌, ◌++◌, Option, none, some, is_none, ◌==◌,
  ◌⊎◌, List, Among, last-Among, eq_of_beq, find_row, find_row_sound, find_row-update_rows, updated,
  count_rows, count_rows-append, count_rows-none, count_rows-found, All-of, All-updated, beq_refl,
  Bool-cases, Option-cases, ◌≡◌, inl, inr, refl, sym, ap, subst, ◌∙◌, arith,
}
use expediente.Domain.{
  ok, bind-eq-ok, ok-injective, require, require-eq-ok, Principal, RequestMetadata, not_found,
  constraint, version_conflict,
}
use expediente.Identity.Sessions.{or_fail-eq-ok}
use expediente.Libraries.{Approval, Call, Database, DocumentRow, FileRow, ReviewRow}
use expediente.Libraries.Access.{any_row, document_by}
use expediente.Libraries.Documents.{
  Document, file_by, is_visible, join_document, select_document, shown, with_file,
  workflow_document,
}
use expediente.Libraries.Workflow.Replays.Submissions.{Submitted, replayed_submission-Submitted}
use expediente.Libraries.Workflow.{
  add_history, check_submission, clear_retention, has_document_id, insert_review, insert_submitted,
  is_pending, is_pending_of, move_document, replayed_submission, submit_anew, submit_transaction,
  submitted_review, moved_to, supersede_reviews, workflow_event, has_review_id,
}

-- The rows behind a document that a user sees.
pub record Joined (id : String) (document : Document) (database : Database) : Type 0 where
  pub row : DocumentRow
  pub file : FileRow
  pub row_found : document_by id database ≡ some row
  pub file_found : file_by row.file_id database ≡ some file
  pub same_id : document.id ≡ id
  pub same_revision : document.revision ≡ row.revision

shown-Keeps :
    (user_id : String) (database : Database) (d : DocumentRow) (f : FileRow) {document : Document}
    → shown user_id database d f ≡ some document
    → (document.id ≡ d.id) × (document.revision ≡ d.revision)
unfolding shown join_document
shown-Keeps user_id database d f h =
    elim (Bool-cases (is_none d.deleted_at && is_visible user_id d f database)) [
      | inl e ↦
          let k = rw e at h in
          (
            sym (ap (λ (o : Option Document). of (λ x. x.id) d.id o) k),
            sym (ap (λ (o : Option Document). of (λ x. x.revision) d.revision o) k),
          )
      | inr e ↦ absurd (let k = rw e at h in cc)
    ]
  where
    of : {A : Type 0} → (Document → A) → A → Option Document → A
    of field other none = other
    of field other (some document) = field document

select_document-Joined :
    (user_id id : String) (database : Database) {document : Document}
    → select_document user_id id database ≡ some document
    → Joined id document database
unfolding select_document with_file document_by
select_document-Joined user_id id database h = elim (Option-cases (document_by id database)) [
  | inl e ↦ absurd (let k = rw (e, select_document) at h in cc)
  | inr (d, e) ↦ elim (Option-cases (file_by d.file_id database)) [
    | inl f ↦ absurd (let k = rw (e, select_document, with_file, f) at h in cc)
    | inr (file, f) ↦
        let k = rw (e, select_document, with_file, f) at h in
        record {
          row = d;
          file = file;
          row_found = e;
          file_found = f;
          same_id =
              (shown-Keeps user_id database d file k).0
              ∙ (String_eq.beq_iff d.id id).0
                  (find_row_sound (has_document_id id) database.documents e);
          same_revision = (shown-Keeps user_id database d file k).1;
        }
  ]
]

pub workflow_document-Joined :
    (user_id id : String) (database : Database) {document : Document}
    → workflow_document user_id id database ≡ ok document
    → Joined id document database
unfolding workflow_document
workflow_document-Joined user_id id database h =
    select_document-Joined user_id id database
      (or_fail-eq-ok (select_document user_id id database) not_found h)

superseded_none :
    (call : Call) (id : String) (database : Database)
    → count_rows (is_pending_of id) (supersede_reviews call.now id database).reviews ≡ 0
unfolding supersede_reviews
superseded_none call id database = count_rows-none (is_pending_of id) _ (
    All-updated (λ x. Unit {0}) _ (is_pending_of id) _ database.reviews (λ x u. ground arith)
      (All-of _ database.reviews (λ x. tt)))

-- The rows of a review that is inserted under the index of pending reviews.
insert_review-reviews :
    (review : ReviewRow) (database : Database) {inserted : Database}
    → insert_review review database ≡ ok inserted
    → inserted.reviews ≡ database.reviews ++ (review ∷ [])
unfolding insert_review
insert_review-reviews review database h =
    let (u, r, k) =
      bind-eq-ok
        (require
          (not (any_row (has_review_id review.id) database.reviews)
            && not (
                is_pending review.status
                && any_row (is_pending_of review.document_id) database.reviews))
          constraint)
        _ h in
    sym (ap (λ (d : Database). d.reviews) (ok-injective k))

insert_submitted-reviews :
    (call : Call) (review_id user_id assigned_to id : String) (database : Database)
    (row : DocumentRow) (file : FileRow) {inserted : Database}
    → insert_submitted call review_id user_id assigned_to id database ≡ ok inserted
    → document_by id database ≡ some row
    → file_by row.file_id database ≡ some file
    → inserted.reviews
      ≡ database.reviews ++ (submitted_review call review_id user_id assigned_to row file ∷ [])
unfolding insert_submitted
insert_submitted-reviews call review_id user_id assigned_to id database row file h d f =
    let k = rw (d, insert_submitted, f) at h in
    insert_review-reviews (submitted_review call review_id user_id assigned_to row file) database k

submitted_review-count :
    (call : Call) (review_id user_id assigned_to id : String) (reviews : List ReviewRow)
    (row : DocumentRow) (file : FileRow)
    → row.id ≡ id
    → count_rows
        (is_pending_of id)
        (reviews ++ (submitted_review call review_id user_id assigned_to row file ∷ []))
      ≡ count_rows (is_pending_of id) reviews + 1
unfolding count_rows
submitted_review-count call review_id user_id assigned_to id reviews row file i =
    rw (count_rows-append (is_pending_of id) reviews, i, beq_refl id) refl

moved_found :
    (state : Approval) (id : String) (database : Database) (row : DocumentRow)
    → document_by id database ≡ some row
    → document_by id (move_document state id database)
      ≡ some (updated (has_document_id id) (moved_to state) row)
unfolding document_by move_document
moved_found state id database row h =
    rw
      (
        find_row-update_rows (has_document_id id) (has_document_id id) (moved_to state)
            database.documents (λ x. ground arith),
        h,
      )
      refl

moved_row :
    (state : Approval) (id : String) (row : DocumentRow)
    → ((updated (has_document_id id) (moved_to state) row).id ≡ row.id)
      × ((updated (has_document_id id) (moved_to state) row).file_id ≡ row.file_id)
moved_row state id row = (ground arith, ground arith)

moved_revision :
    (state : Approval) (id : String) (row : DocumentRow)
    → row.id ≡ id
    → (updated (has_document_id id) (moved_to state) row).revision ≡ row.revision + 1
moved_revision state id row e = rw ((String_eq.beq_iff row.id id).1 e) refl

add_history-reviews :
    (kind id : String) (database : Database)
    → (add_history kind id database).reviews ≡ database.reviews
unfolding add_history
add_history-reviews kind id database = ground arith

-- What a new submission leaves.
record Anew (user_id assigned_to review_id : String) (document : Document)
    (result : String × Database) : Type 0 where
  one : count_rows (is_pending_of document.id) result.1.reviews ≡ 1
  new : result.0 ≡ review_id
  submitted : Submitted user_id assigned_to document.id result.0 document.revision result.1

submit_anew-Anew :
    (call : Call) (review_id assigned_to : String) (metadata : RequestMetadata)
    (document : Document) (current : Principal) (database : Database) (result : String × Database)
    → submit_anew call review_id assigned_to metadata document current database ≡ ok result
    → Joined document.id document database
    → Anew current.user.id assigned_to review_id document result
unfolding submit_anew workflow_event
submit_anew-Anew call review_id assigned_to metadata document current database result h j =
    let id = document.id in
    let superseded = supersede_reviews call.now id database in
    let ready = clear_retention id (move_document Approval.pending_review id superseded) in
    let (inserted, i, k) =
      bind-eq-ok (insert_submitted call review_id current.user.id assigned_to id ready) _ h in
    let row = updated (has_document_id id) (moved_to Approval.pending_review) j.row in
    let review = submitted_review call review_id current.user.id assigned_to row j.file in
    let (same, file) = moved_row Approval.pending_review id j.row in
    let row_id =
      (String_eq.beq_iff j.row.id id).0
        (find_row_sound (has_document_id id) database.documents j.row_found) in
    let reviews =
      insert_submitted-reviews call review_id current.user.id assigned_to id ready row j.file i
        (moved_found Approval.pending_review id superseded j.row j.row_found)
        (ap (λ file_id. file_by file_id database) file ∙ j.file_found) in
    let written =
      ap (λ (r : String × Database). r.1.reviews) (sym (ok-injective k))
      ∙ add_history-reviews "document.review_submitted" id _
      ∙ reviews in
    let answer = ap (λ (r : String × Database). r.0) (sym (ok-injective k)) in
    record {
      one =
          ap (count_rows (is_pending_of id)) written
          ∙ submitted_review-count call review_id current.user.id assigned_to id ready.reviews row
              j.file (same ∙ row_id)
          ∙ ap (λ n. n + 1) (superseded_none call id database);
      new = answer;
      submitted = record {
        review = review;
        stored = subst (Among review) (sym written) (last-Among ready.reviews review);
        answered = sym answer;
        of_document = same ∙ row_id;
        waits = refl;
        requested = refl;
        assigned = refl;
        of_revision = inr (
            moved_revision Approval.pending_review id j.row row_id
            ∙ ap (λ n. n + 1) (sym j.same_revision));
      };
    }

replayed_one :
    (user_id assigned_to : String) (revision : ℕ) (id : String) (document : Document)
    (database : Database) {answer : String}
    → replayed_submission user_id assigned_to revision document
        (find_row (is_pending_of id) database.reviews)
      ≡ some answer
    → 1 ≤ count_rows (is_pending_of id) database.reviews
unfolding replayed_submission
replayed_one user_id assigned_to revision id document database q =
    elim (Option-cases (find_row (is_pending_of id) database.reviews)) [
      | inl e ↦ absurd (let k = rw (e, replayed_submission) at q in cc)
      | inr (r, e) ↦ count_rows-found (is_pending_of id) database.reviews e
    ]

-- After a submission was accepted, exactly one review of the document is pending, where at most one
-- was pending before. It is the one that is answered, asked by the user of the reviewer named, on the
-- revision given or the next; either it has the new identifier, or nothing was changed, since it was
-- pending before.
pub submit_transaction-count :
    (call : Call) (review_id document_id assigned_to : String) (revision : ℕ)
    (metadata : RequestMetadata) (current : Principal) (before after : Database) (answer : String)
    → submit_transaction call review_id document_id assigned_to revision metadata current before
      ≡ ok (answer, after)
    → count_rows (is_pending_of document_id) before.reviews ≤ 1
    → (count_rows (is_pending_of document_id) after.reviews ≡ 1)
      × Submitted current.user.id assigned_to document_id answer revision after
      × ((answer ≡ review_id) ⊎ (after ≡ before))
unfolding submit_transaction replayed_submission check_submission
submit_transaction-count call review_id document_id assigned_to revision metadata current before
      after answer h le =
    let (document, f, k) = bind-eq-ok (workflow_document current.user.id document_id before) _ h in
    let j = workflow_document-Joined current.user.id document_id before f in
    elim (Option-cases (
      replayed_submission current.user.id assigned_to revision document
        (find_row (is_pending_of document_id) before.reviews))) [
          | inr (x, q) ↦
              let made = ok-injective (let l = rw q at k in l) in
              let same = ap (λ (r : String × Database). r.1) made in
              (
                subst (λ (d : Database). count_rows (is_pending_of document_id) d.reviews ≡ 1) same
                    (omega (
                      arith,
                      le,
                      replayed_one current.user.id assigned_to revision document_id document before
                          q,
                    )),
                subst
                    (λ (r : String × Database).
                      Submitted current.user.id assigned_to document_id r.0 revision r.1)
                    made
                    (replayed_submission-Submitted current.user.id assigned_to document_id revision
                      document before q),
                inr (sym same),
              )
          | inl q ↦
              let l = rw q at k in
              let (u, c, n) =
                bind-eq-ok
                  (check_submission call current.user.id assigned_to revision document before) _
                  l in
              let (_, v, _) =
                bind-eq-ok (require (document.revision == revision) version_conflict) _ c in
              let given =
                eq_of_beq document.revision revision (require-eq-ok _ version_conflict v) in
              let made =
                submit_anew-Anew call review_id assigned_to metadata document current before
                  (answer, after) n (subst (λ id. Joined id document before) (sym j.same_id) j) in
              (
                subst (λ id. count_rows (is_pending_of id) after.reviews ≡ 1) j.same_id made.one,
                subst (λ id. Submitted current.user.id assigned_to id answer revision after)
                    j.same_id
                    (subst (λ n. Submitted current.user.id assigned_to document.id answer n after)
                      given made.submitted),
                inl made.new,
              )
        ]
