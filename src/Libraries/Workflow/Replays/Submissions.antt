-- ===== src/Libraries/Workflow/Replays/Submissions.antt =====
-- internal/libraries/workflow.go: what SubmitReview takes for a submission that was accepted before.
use expediente.Base.{
  ℕ, ◌+◌, true, ◌&&◌, ◌||◌, String, String_eq, ℕ_eq, some, ◌==◌, find_row, find_row_sound,
  find_row-Among, Among, Bool-cases, Option-cases, eq_of_beq, and-eq-true, or-eq-true, ◌≡◌, ◌⊎◌,
  inl, inr, refl, sym, subst,
}
use expediente.Libraries.{Database, ReviewRow, ReviewStatus}
use expediente.Libraries.Documents.{Document}
use expediente.Libraries.Workflow.{is_pending, is_pending_of, is_submitted, replayed_submission}
use expediente.Libraries.Workflow.Replays.{pending_of}

-- The review that answers a submission: it waits for a decision on the document, asked by the user of
-- the reviewer named, on the revision given or on the one that its submission made.
pub record Submitted (user_id assigned_to document_id answer : String) (revision : ℕ)
    (database : Database) : Type 0 where
  pub review : ReviewRow
  pub stored : Among review database.reviews
  pub answered : review.id ≡ answer
  pub of_document : review.document_id ≡ document_id
  pub waits : review.status ≡ ReviewStatus.pending
  pub requested : review.requested_by ≡ user_id
  pub assigned : review.assigned_to ≡ assigned_to
  pub of_revision :
      (review.document_revision ≡ revision) ⊎ (review.document_revision ≡ revision + 1)

is_submitted-Submitted :
    (user_id assigned_to document_id : String) (revision : ℕ) (document : Document)
    (review : ReviewRow) (database : Database)
    → is_submitted user_id assigned_to revision document review ≡ true
    → find_row (is_pending_of document_id) database.reviews ≡ some review
    → Submitted user_id assigned_to document_id review.id revision database
unfolding is_submitted
is_submitted-Submitted user_id assigned_to document_id revision document review database h e =
    let (k, l) =
      and-eq-true (review.requested_by == user_id && review.assigned_to == assigned_to)
        (review.document_revision == document.revision
          && (revision == review.document_revision || revision + 1 == review.document_revision))
        h in
    let (u, a) =
      and-eq-true (review.requested_by == user_id) (review.assigned_to == assigned_to) k in
    let (_, n) =
      and-eq-true (review.document_revision == document.revision)
        (revision == review.document_revision || revision + 1 == review.document_revision) l in
    let (d, w) =
      and-eq-true (review.document_id == document_id) (is_pending review.status)
        (find_row_sound (is_pending_of document_id) database.reviews e) in
    record {
      review = review;
      stored = find_row-Among _ database.reviews e;
      answered = refl;
      of_document = eq_of_beq _ _ d;
      waits = pending_of review.status w;
      requested = eq_of_beq _ _ u;
      assigned = eq_of_beq _ _ a;
      of_revision =
          elim (or-eq-true (revision == review.document_revision)
            (revision + 1 == review.document_revision) n) [
              | inl r ↦ inl (sym (eq_of_beq _ _ r))
              | inr r ↦ inr (sym (eq_of_beq _ _ r))
            ];
    }

pub replayed_submission-Submitted :
    (user_id assigned_to document_id : String) (revision : ℕ) (document : Document)
    (database : Database) {answer : String}
    → replayed_submission user_id assigned_to revision document
        (find_row (is_pending_of document_id) database.reviews)
      ≡ some answer
    → Submitted user_id assigned_to document_id answer revision database
unfolding replayed_submission
replayed_submission-Submitted user_id assigned_to document_id revision document database {answer}
      q =
    elim (Option-cases (find_row (is_pending_of document_id) database.reviews)) [
      | inl e ↦ absurd (let k = rw (e, replayed_submission) at q in cc)
      | inr (r, e) ↦
          let k = rw (e, replayed_submission) at q in
          elim (Bool-cases (is_submitted user_id assigned_to revision document r)) [
            | inr t ↦ absurd (let l = rw t at k in cc)
            | inl t ↦
                let same : r.id ≡ answer = (let l = rw t at k in cc) in
                subst (λ id. Submitted user_id assigned_to document_id id revision database) same
                  (is_submitted-Submitted user_id assigned_to document_id revision document r
                    database t e)
          ]
    ]
