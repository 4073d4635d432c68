-- ===== src/Libraries/Workflow/Replays.antt =====
-- internal/libraries/workflow.go: what SubmitReview, DecideReview and FinalizeDocument take for the
-- repetition of a call that was accepted before.
pub mod Decisions
pub mod Confirmations
pub mod Submissions
use expediente.Base.{
  ℕ, ◌+◌, Bool, true, false, not, ◌&&◌, ◌||◌, String, String_eq, ℕ_eq, none, some, ◌==◌,
  if◌then◌else◌, find_row, find_row_sound, find_row-Among, Among, Bool-cases, Option-cases,
  eq_of_beq, and-eq-true, or-eq-true, ◌≡◌, ◌⊎◌, inl, inr, refl, sym, subst, ◌∙◌, arith,
}
use expediente.Domain.Text.{trim_space}
use expediente.Libraries.{
  Approval, Database, DocumentRow, MaterializationRow, ReviewRow, ReviewStatus,
}
use expediente.Libraries.Access.{any_row}
use expediente.Libraries.Documents.{Document}
use expediente.Libraries.Workflow.{
  is_approved, is_materializing, is_rejected, is_pending, is_pending_of, is_submitted,
  replayed_submission,
}
use expediente.Libraries.Workflow.Deciding.{
  by_review, is_approved_review, is_decided, is_rejected_review, moved_on, replayed_approval,
  replayed_decision,
}
use expediente.Libraries.Workflow.Finalizing.{approved_by_user, directly, replayed_finalization}

-- The document has been approved since the revision: its file is being written, or was.
pub data Moved (revision : ℕ) (document : Document) : Type 0 where
  writing :
      document.approval ≡ Approval.materializing
      → document.revision ≡ revision + 1
      → Moved revision document
  written :
      document.approval ≡ Approval.approved
      → document.revision ≡ revision + 2
      → Moved revision document

materializing_of : (a : Approval) → is_materializing a ≡ true → a ≡ Approval.materializing
materializing_of a h = ground arith

pub approved_of : (a : Approval) → is_approved a ≡ true → a ≡ Approval.approved
approved_of a h = ground arith

pub rejected_of : (a : Approval) → is_rejected a ≡ true → a ≡ Approval.rejected
rejected_of a h = ground arith

pub approved_review_of :
    (s : ReviewStatus) → is_approved_review s ≡ true → s ≡ ReviewStatus.approved
approved_review_of s h = ground arith

pub rejected_review_of :
    (s : ReviewStatus) → is_rejected_review s ≡ true → s ≡ ReviewStatus.rejected
rejected_review_of s h = ground arith

pub pending_of : (s : ReviewStatus) → is_pending s ≡ true → s ≡ ReviewStatus.pending
pending_of s h = ground arith

pub moved_on-Moved :
    (revision : ℕ) (document : Document)
    → moved_on revision document ≡ true
    → Moved revision document
moved_on-Moved revision document h =
    elim (or-eq-true (is_materializing document.approval && document.revision == revision + 1)
      (is_approved document.approval && document.revision == revision + 2) h) [
        | inl k ↦
            let (a, r) =
              and-eq-true (is_materializing document.approval) (document.revision == revision + 1)
                k in
            writing (materializing_of document.approval a) (eq_of_beq _ _ r)
        | inr k ↦
            let (a, r) =
              and-eq-true (is_approved document.approval) (document.revision == revision + 2) k in
            written (approved_of document.approval a) (eq_of_beq _ _ r)
      ]
