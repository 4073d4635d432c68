-- ===== src/Libraries/Workflow/Replays/Confirmations.antt =====
-- internal/libraries/workflow.go: what FinalizeDocument takes for a confirmation that was made before.
use expediente.Base.{
  ℕ, ◌+◌, true, ◌&&◌, String, String_eq, ℕ_eq, none, some, ◌==◌, if◌then◌else◌, find_row,
  find_row_sound, find_row-Among, Among, Bool-cases, Option-cases, eq_of_beq, and-eq-true, ◌≡◌, inl,
  inr, refl, subst,
}
use expediente.Libraries.{Approval, Database, DocumentRow, MaterializationRow}
use expediente.Libraries.Access.{any_row}
use expediente.Libraries.Documents.{Document}
use expediente.Libraries.Workflow.{is_approved}
use expediente.Libraries.Workflow.Deciding.{moved_on}
use expediente.Libraries.Workflow.Finalizing.{approved_by_user, directly, replayed_finalization}
use expediente.Libraries.Workflow.Replays.{Moved, moved_on-Moved, approved_of}

-- A confirmation that the operation that it began, or the document's own row, shows as made before, by
-- the same user and on the same revision.
pub data RepeatedFinalization (user_id : String) (revision : ℕ) (document : Document)
    (database : Database) (operation : String) : Type 0 where
  started :
      (m : MaterializationRow)
      → Among m database.materializations
      → m.document_id ≡ document.id
      → m.decision_kind ≡ "direct"
      → m.approved_by ≡ user_id
      → m.document_revision ≡ revision
      → operation ≡ m.id
      → Moved revision document
      → RepeatedFinalization user_id revision document database operation
  finalized :
      (row : DocumentRow)
      → Among row database.documents
      → row.id ≡ document.id
      → row.approved_by ≡ user_id
      → document.approval ≡ Approval.approved
      → document.revision ≡ revision + 1
      → operation ≡ ""
      → RepeatedFinalization user_id revision document database operation

directly-Started :
    (user_id : String) (revision : ℕ) (document : Document) (database : Database)
    (m : MaterializationRow) (operation : String)
    → find_row (directly document.id user_id revision) database.materializations ≡ some m
    → Moved revision document
    → operation ≡ m.id
    → RepeatedFinalization user_id revision document database operation
unfolding directly
directly-Started user_id revision document database m operation e moved o =
    let h = find_row_sound (directly document.id user_id revision) database.materializations e in
    let (k, l) =
      and-eq-true (m.document_id == document.id && m.decision_kind == "direct")
        (m.approved_by == user_id && m.document_revision == revision) h in
    let (d, c) = and-eq-true (m.document_id == document.id) (m.decision_kind == "direct") k in
    let (u, n) = and-eq-true (m.approved_by == user_id) (m.document_revision == revision) l in
    started m (find_row-Among _ database.materializations e) (eq_of_beq _ _ d) (eq_of_beq _ _ c)
      (eq_of_beq _ _ u) (eq_of_beq _ _ n) o moved

approved_by_user-Finalized :
    (user_id : String) (revision : ℕ) (document : Document) (database : Database)
    → ((is_approved document.approval && document.revision == revision + 1)
        && approved_by_user document.id user_id database)
      ≡ true
    → RepeatedFinalization user_id revision document database ""
unfolding approved_by_user any_row
approved_by_user-Finalized user_id revision document database h =
    let by_user = λ (d : DocumentRow). d.id == document.id && d.approved_by == user_id in
    let (k, l) =
      and-eq-true (is_approved document.approval && document.revision == revision + 1)
        (approved_by_user document.id user_id database) h in
    let (a, n) =
      and-eq-true (is_approved document.approval) (document.revision == revision + 1) k in
    elim (Option-cases (find_row by_user database.documents)) [
      | inl e ↦ absurd (let m = rw e at l in cc)
      | inr (row, e) ↦
          let (i, u) =
            and-eq-true (row.id == document.id) (row.approved_by == user_id)
              (find_row_sound by_user database.documents e) in
          finalized row (find_row-Among _ database.documents e) (eq_of_beq _ _ i) (eq_of_beq _ _ u)
            (approved_of document.approval a) (eq_of_beq _ _ n) refl
    ]

finalized_before :
    (user_id : String) (revision : ℕ) (document : Document) (database : Database)
    {operation : String}
    → (if (is_approved document.approval && document.revision == revision + 1)
          && approved_by_user document.id user_id database
        then some ""
        else none)
      ≡ some operation
    → RepeatedFinalization user_id revision document database operation
finalized_before user_id revision document database {operation} h =
    elim (Bool-cases (
      (is_approved document.approval && document.revision == revision + 1)
      && approved_by_user document.id user_id database)) [
        | inr e ↦ absurd (let k = rw e at h in cc)
        | inl e ↦
            let same : ◌≡◌ {A = String} "" operation = (let k = rw e at h in cc) in
            subst (RepeatedFinalization user_id revision document database) same
              (approved_by_user-Finalized user_id revision document database e)
      ]

pub replayed_finalization-Repeated :
    (user_id : String) (revision : ℕ) (document : Document) (database : Database)
    {operation : String}
    → replayed_finalization user_id revision document database ≡ some operation
    → RepeatedFinalization user_id revision document database operation
unfolding replayed_finalization
replayed_finalization-Repeated user_id revision document database {operation} h =
    elim (Bool-cases (moved_on revision document)) [
      | inr e ↦
          finalized_before user_id revision document database
            (let k = rw (e, replayed_finalization) at h in k)
      | inl e ↦
          elim (Option-cases
            (find_row (directly document.id user_id revision) database.materializations)) [
              | inl f ↦
                  finalized_before user_id revision document database
                    (let k = rw (e, replayed_finalization, f) at h in k)
              | inr (m, f) ↦
                  directly-Started user_id revision document database m operation f
                    (moved_on-Moved revision document e)
                    (let k = rw (e, replayed_finalization, f) at h in cc)
            ]
    ]
