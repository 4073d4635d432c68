-- ===== src/Libraries/Workflow/Replays/Decisions.antt =====
-- internal/libraries/workflow.go: what DecideReview takes for a decision that was made before.
use expediente.Base.{
  ℕ, ◌+◌, Bool, true, false, not, ◌&&◌, String, String_eq, ℕ_eq, none, some, ◌==◌, if◌then◌else◌,
  find_row, find_row_sound, find_row-Among, Among, Bool-cases, Option-cases, eq_of_beq, and-eq-true,
  ◌≡◌, inl, inr, refl, subst, ◌∙◌,
}
use expediente.Domain.Text.{trim_space}
use expediente.Libraries.{Approval, Database, MaterializationRow, ReviewRow, ReviewStatus}
use expediente.Libraries.Documents.{Document}
use expediente.Libraries.Workflow.{is_approved, is_rejected}
use expediente.Libraries.Workflow.Deciding.{
  by_review, is_approved_review, is_decided, is_rejected_review, moved_on, replayed_approval,
  replayed_decision,
}
use expediente.Libraries.Workflow.Replays.{
  Moved, moved_on-Moved, approved_of, rejected_of, approved_review_of, rejected_review_of,
}

-- A decision that the review's own row, or the operation that the decision began, shows as made
-- before, by the same user, on the same revision and with the same outcome.
pub data RepeatedDecision (user_id : String) (revision : ℕ) (reason : String) (document : Document)
    (review : ReviewRow) (database : Database) (operation : String) : Bool → Type 0 where
  begun :
      (m : MaterializationRow)
      → Among m database.materializations
      → m.review_id ≡ review.id
      → m.approved_by ≡ user_id
      → m.document_revision ≡ revision
      → operation ≡ m.id
      → Moved revision document
      → RepeatedDecision user_id revision reason document review database operation true
  approved :
      review.decided_by ≡ user_id
      → review.status ≡ ReviewStatus.approved
      → document.approval ≡ Approval.approved
      → document.revision ≡ revision + 1
      → operation ≡ ""
      → RepeatedDecision user_id revision reason document review database operation true
  rejected :
      review.decided_by ≡ user_id
      → review.status ≡ ReviewStatus.rejected
      → document.approval ≡ Approval.rejected
      → document.revision ≡ revision + 1
      → review.reason ≡ trim_space reason
      → operation ≡ ""
      → RepeatedDecision user_id revision reason document review database operation false

by_review-Begun :
    (user_id : String) (revision : ℕ) (reason : String) (document : Document) (review : ReviewRow)
    (database : Database) (m : MaterializationRow) (operation : String)
    → find_row (by_review review.id user_id revision) database.materializations ≡ some m
    → Moved revision document
    → operation ≡ m.id
    → RepeatedDecision user_id revision reason document review database operation true
unfolding by_review
by_review-Begun user_id revision reason document review database m operation e moved o =
    let h = find_row_sound (by_review review.id user_id revision) database.materializations e in
    let (k, l) =
      and-eq-true (m.review_id == review.id && not (review.id == ""))
        (m.approved_by == user_id && m.document_revision == revision) h in
    let (r, _) = and-eq-true (m.review_id == review.id) (not (review.id == "")) k in
    let (u, n) = and-eq-true (m.approved_by == user_id) (m.document_revision == revision) l in
    begun m (find_row-Among _ database.materializations e) (eq_of_beq _ _ r) (eq_of_beq _ _ u)
      (eq_of_beq _ _ n) o moved

replayed_approval-Repeated :
    (user_id : String) (revision : ℕ) (reason : String) (document : Document) (review : ReviewRow)
    (database : Database) {operation : String}
    → replayed_approval user_id revision document review database ≡ some operation
    → RepeatedDecision user_id revision reason document review database operation true
unfolding replayed_approval
replayed_approval-Repeated user_id revision reason document review database {operation} h =
    elim (Bool-cases (moved_on revision document)) [
      | inr e ↦ absurd (let k = rw e at h in cc)
      | inl e ↦
          let k = rw e at h in
          elim (Option-cases
            (find_row (by_review review.id user_id revision) database.materializations)) [
              | inl f ↦ absurd (let l = rw f at k in cc)
              | inr (m, f) ↦
                  by_review-Begun user_id revision reason document review database m operation f
                    (moved_on-Moved revision document e) (let l = rw f at k in cc)
            ]
    ]

is_decided-Repeated :
    (user_id : String) (revision : ℕ) (approve : Bool) (reason : String) (document : Document)
    (review : ReviewRow) (database : Database)
    → is_decided user_id revision approve reason document review ≡ true
    → RepeatedDecision user_id revision reason document review database "" approve
unfolding is_decided
is_decided-Repeated user_id revision true reason document review database h =
    let (k, l) =
      and-eq-true (review.decided_by == user_id && document.revision == revision + 1)
        (is_approved_review review.status && is_approved document.approval) h in
    let (u, n) = and-eq-true (review.decided_by == user_id) (document.revision == revision + 1) k in
    let (s, a) = and-eq-true (is_approved_review review.status) (is_approved document.approval) l in
    approved (eq_of_beq _ _ u) (approved_review_of review.status s)
      (approved_of document.approval a) (eq_of_beq _ _ n) refl
is_decided-Repeated user_id revision false reason document review database h =
    let (k, l) =
      and-eq-true (review.decided_by == user_id && document.revision == revision + 1)
        ((is_rejected_review review.status && is_rejected document.approval)
          && review.reason == trim_space reason)
        h in
    let (u, n) = and-eq-true (review.decided_by == user_id) (document.revision == revision + 1) k in
    let (m, r) =
      and-eq-true (is_rejected_review review.status && is_rejected document.approval)
        (review.reason == trim_space reason) l in
    let (s, a) = and-eq-true (is_rejected_review review.status) (is_rejected document.approval) m in
    rejected (eq_of_beq _ _ u) (rejected_review_of review.status s)
      (rejected_of document.approval a) (eq_of_beq _ _ n) (eq_of_beq _ _ r) refl

decided-Repeated :
    (user_id : String) (revision : ℕ) (approve : Bool) (reason : String) (document : Document)
    (review : ReviewRow) (database : Database) {operation : String}
    → (if is_decided user_id revision approve reason document review then some "" else none)
      ≡ some operation
    → RepeatedDecision user_id revision reason document review database operation approve
decided-Repeated user_id revision approve reason document review database {operation} h =
    elim (Bool-cases (is_decided user_id revision approve reason document review)) [
      | inr e ↦ absurd (let k = rw e at h in cc)
      | inl e ↦
          let same : ◌≡◌ {A = String} "" operation = (let k = rw e at h in cc) in
          subst (λ o. RepeatedDecision user_id revision reason document review database o approve)
            same (is_decided-Repeated user_id revision approve reason document review database e)
    ]

pub replayed_decision-Repeated :
    (user_id : String) (revision : ℕ) (approve : Bool) (reason : String) (document : Document)
    (review : ReviewRow) (database : Database) {operation : String}
    → replayed_decision user_id revision approve reason document review database ≡ some operation
    → (review.document_revision ≡ revision)
      × RepeatedDecision user_id revision reason document review database operation approve
unfolding replayed_decision
replayed_decision-Repeated user_id revision false reason document review database h =
    elim (Bool-cases (review.document_revision == revision)) [
      | inr e ↦ absurd (let k = rw e at h in cc)
      | inl e ↦ (
        eq_of_beq _ _ e,
        decided-Repeated user_id revision false reason document review database
            (let k = rw e at h in k),
      )
    ]
replayed_decision-Repeated user_id revision true reason document review database h =
    elim (Bool-cases (review.document_revision == revision)) [
      | inr e ↦ absurd (let k = rw e at h in cc)
      | inl e ↦ elim (Option-cases (replayed_approval user_id revision document review database)) [
        | inr (operation, f) ↦ (
          eq_of_beq _ _ e,
          replayed_approval-Repeated user_id revision reason document review database
              (let k = rw (e, replayed_decision, f) at h in f ∙ k),
        )
        | inl f ↦ (
          eq_of_beq _ _ e,
          decided-Repeated user_id revision true reason document review database
              (let k = rw (e, replayed_decision, f) at h in k),
        )
      ]
    ]
