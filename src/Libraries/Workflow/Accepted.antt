-- ===== src/Libraries/Workflow/Accepted.antt =====
-- internal/libraries/workflow.go: what a decision or a confirmation that was accepted had to satisfy.
use expediente.Base.{
  ℕ, Bool, true, false, not, ◌&&◌, ◌||◌, String, String_eq, ℕ_eq, some, ◌==◌, find_row,
  Option-cases, ◌≡◌, ◌⊎◌, inl, inr, sym, ap, subst, arith,
}
use expediente.Domain.{
  ok, bind-eq-ok, ok-injective, require, require-eq-ok, Principal, RequestMetadata, invalid_request,
  no_rows, not_found, version_conflict, coded,
}
use expediente.Identity.Sessions.{or_fail, or_fail-eq-ok}
use expediente.Libraries.{Call, Database, FileRow, ReviewRow, Settings}
use expediente.Libraries.Access.{permits, settings_for}
use expediente.Libraries.Documents.{Document, file_by, workflow_document}
use expediente.Libraries.Workflow.{
  has_review_id, is_open, is_pending, is_pending_review, requires_review,
}
use expediente.Libraries.Workflow.Deciding.{
  check_decision, decide_transaction, is_own, replayed_decision, review_by,
}
use expediente.Libraries.Workflow.Replays.Decisions.{RepeatedDecision, replayed_decision-Repeated}
use expediente.Libraries.Workflow.Replays.Confirmations.{
  RepeatedFinalization, replayed_finalization-Repeated,
}
use expediente.Libraries.Workflow.Finalizing.{
  finalize_anew, finalize_transaction, replayed_finalization,
}

-- The checks of a decision that is not a replay: the review still waits, for the revision of the
-- document that was decided on, whose file has the content that the review names; an approval also
-- needs the revision that was verified.
pub record Current (call : Call) (verified revision : ℕ) (approve : Bool) (document : Document)
    (review : ReviewRow) (database : Database) : Type 0 where
  pub waits : (is_pending review.status && is_pending_review document.approval) ≡ true
  pub same_revision : (review.document_revision == revision && document.revision == revision) ≡ true
  pub verified_revision : (not approve || document.revision == verified) ≡ true
  pub file : FileRow
  pub file_found : file_by document.file_id database ≡ some file
  pub same_version : (file.current_version_id == review.version_id) ≡ true
  pub settings : Settings × String
  pub settings_found : settings_for call review.library_id database ≡ ok settings
  pub review_required : requires_review settings.0 document.source ≡ true

-- Who decided: the reviewer that the review names, where it names one, and someone else than the
-- author and the applicant, or a user who may decide on documents of their own.
pub record Authorized (current : Principal) (document : Document) (review : ReviewRow)
    (database : Database) : Type 0 where
  pub assigned : (review.assigned_to == "" || review.assigned_to == current.user.id) ≡ true
  pub visible : workflow_document current.user.id review.document_id database ≡ ok document
  pub separate :
      (not (is_own current.user.id document review)
        || permits current.user.id review.library_id "documents.approve_own" database)
      ≡ true

check_decision-Current :
    (call : Call) (verified revision : ℕ) (approve : Bool) (document : Document)
    (review : ReviewRow) (database : Database) {settings : Settings}
    → check_decision call verified revision approve document review database ≡ ok settings
    → Current call verified revision approve document review database
unfolding check_decision
check_decision-Current call verified revision approve document review database h =
    let waits = is_pending review.status && is_pending_review document.approval in
    let same = review.document_revision == revision && document.revision == revision in
    let seen = not approve || document.revision == verified in
    let (a, b, c) = bind-eq-ok (require waits (coded "REVIEW_ALREADY_DECIDED")) _ h in
    let (d, e, f) = bind-eq-ok (require (same && seen) version_conflict) _ c in
    let (file, g, i) = bind-eq-ok (or_fail (file_by document.file_id database) no_rows) _ f in
    let (j, k, l) =
      bind-eq-ok (require (file.current_version_id == review.version_id) version_conflict) _ i in
    let (found, m, n) = bind-eq-ok (settings_for call review.library_id database) _ l in
    let (o, p, q) =
      bind-eq-ok (require (requires_review found.0 document.source) (coded "REVIEW_POLICY_CHANGED"))
        _ n in
    let both = require-eq-ok (same && seen) version_conflict e in
    record {
      waits = require-eq-ok waits (coded "REVIEW_ALREADY_DECIDED") b;
      same_revision = ground (arith, both);
      verified_revision = ground (arith, both);
      file = file;
      file_found = or_fail-eq-ok (file_by document.file_id database) no_rows g;
      same_version =
          require-eq-ok (file.current_version_id == review.version_id) version_conflict k;
      settings = found;
      settings_found = m;
      review_required =
          require-eq-ok (requires_review found.0 document.source) (coded "REVIEW_POLICY_CHANGED") p;
    }

-- A decision that was accepted was made by an authorized user. Either it changes nothing and repeats
-- one that the same user made before, on the same revision and with the same outcome, as the operation
-- that was begun then or the review and the document show; or it is current.
pub decide_transaction-accepted :
    (call : Call) (fresh : String × String) (verified : ℕ) (review_id : String) (revision : ℕ)
    (approve : Bool) (reason : String) (metadata : RequestMetadata) (current : Principal)
    (before after : Database) (operation : String)
    → decide_transaction call fresh verified review_id revision approve reason metadata current
        before
      ≡ ok (operation, after)
    → (review : ReviewRow) × (document : Document) × (find_row
          (has_review_id review_id)
          before.reviews
        ≡ some review)
      × Authorized current document review before
      × (((after ≡ before)
            × (review.document_revision ≡ revision)
            × RepeatedDecision current.user.id revision reason document review before operation
                approve)
          ⊎ Current call verified revision approve document review before)
unfolding decide_transaction review_by
decide_transaction-accepted call fresh verified review_id revision approve reason metadata current
      before after operation h =
    let (review, a, b) =
      bind-eq-ok (or_fail (find_row (has_review_id review_id) before.reviews) no_rows) _ h in
    let named = review.assigned_to == "" || review.assigned_to == current.user.id in
    let (c, d, e) = bind-eq-ok (require named not_found) _ b in
    let (document, f, g) =
      bind-eq-ok (workflow_document current.user.id review.document_id before) _ e in
    let separate =
      not (is_own current.user.id document review)
      || permits current.user.id review.library_id "documents.approve_own" before in
    let (i, j, k) = bind-eq-ok (require separate (coded "SELF_APPROVAL_FORBIDDEN")) _ g in
    (
      review,
      document,
      or_fail-eq-ok (find_row (has_review_id review_id) before.reviews) no_rows a,
      record {
        assigned = require-eq-ok named not_found d;
        visible = f;
        separate = require-eq-ok separate (coded "SELF_APPROVAL_FORBIDDEN") j;
      },
      elim (Option-cases
          (replayed_decision current.user.id revision approve reason document review before)) [
            | inr (x, q) ↦
                let made = ok-injective (let l = rw q at k in l) in
                let (same, repeated) =
                  replayed_decision-Repeated current.user.id revision approve reason document review
                    before q in
                inl (
                  sym (ap (λ (r : String × Database). r.1) made),
                  same,
                  subst
                      (λ o.
                        RepeatedDecision current.user.id revision reason document review before o
                          approve)
                      (ap (λ (r : String × Database). r.0) made) repeated,
                )
            | inl q ↦
                let l = rw q at k in
                let (settings, m, n) =
                  bind-eq-ok (check_decision call verified revision approve document review before)
                    _ l in
                inr (check_decision-Current call verified revision approve document review before m)
          ],
    )

-- A direct confirmation that is no replay: the revision is the one that was verified, the document is
-- open, and its library asks no review for its source.
pub record Direct (call : Call) (verified revision : ℕ) (document : Document) (database : Database)
    : Type 0 where
  pub same_revision : (document.revision == revision && document.revision == verified) ≡ true
  pub opened : is_open document.approval ≡ true
  pub settings : Settings × String
  pub settings_found : settings_for call document.library_id database ≡ ok settings
  pub review_not_required : requires_review settings.0 document.source ≡ false

finalize_anew-Direct :
    (call : Call) (fresh : String × String) (verified revision : ℕ) (metadata : RequestMetadata)
    (document : Document) (current : Principal) (database : Database) {result : String × Database}
    → finalize_anew call fresh verified revision metadata document current database ≡ ok result
    → Direct call verified revision document database
unfolding finalize_anew
finalize_anew-Direct call fresh verified revision metadata document current database h =
    let same = document.revision == revision && document.revision == verified in
    let (a, b, c) = bind-eq-ok (require same version_conflict) _ h in
    let (d, e, f) = bind-eq-ok (require (is_open document.approval) invalid_request) _ c in
    let (found, m, n) = bind-eq-ok (settings_for call document.library_id database) _ f in
    let (o, p, q) =
      bind-eq-ok (require (not (requires_review found.0 document.source)) (coded "REVIEW_REQUIRED"))
        _ n in
    let free =
      require-eq-ok (not (requires_review found.0 document.source)) (coded "REVIEW_REQUIRED") p in
    record {
      same_revision = require-eq-ok same version_conflict b;
      opened = require-eq-ok (is_open document.approval) invalid_request e;
      settings = found;
      settings_found = m;
      review_not_required = ground (arith, free);
    }

-- A confirmation that was accepted is of a document that its user sees. Either it changes nothing and
-- repeats one that the same user made before on the same revision, as the operation that was begun then
-- or the document's row shows; or it confirms the revision that was verified, of an open document
-- whose library asks no review for its source.
pub finalize_transaction-accepted :
    (call : Call) (fresh : String × String) (verified : ℕ) (document_id : String) (revision : ℕ)
    (metadata : RequestMetadata) (current : Principal) (before after : Database)
    (operation : String)
    → finalize_transaction call fresh verified document_id revision metadata current before
      ≡ ok (operation, after)
    → (document : Document) × (workflow_document current.user.id document_id before ≡ ok document)
      × (((after ≡ before)
            × RepeatedFinalization current.user.id revision document before operation)
          ⊎ Direct call verified revision document before)
unfolding finalize_transaction
finalize_transaction-accepted call fresh verified document_id revision metadata current before after
      operation h =
    let (document, f, k) = bind-eq-ok (workflow_document current.user.id document_id before) _ h in
    (
      document,
      f,
      elim (Option-cases (replayed_finalization current.user.id revision document before)) [
        | inr (x, q) ↦
            let made = ok-injective (let l = rw q at k in l) in
            inl (
              sym (ap (λ (r : String × Database). r.1) made),
              subst (RepeatedFinalization current.user.id revision document before)
                  (ap (λ (r : String × Database). r.0) made)
                  (replayed_finalization-Repeated current.user.id revision document before q),
            )
        | inl q ↦ inr (
            finalize_anew-Direct call fresh verified revision metadata document current before
              (let l = rw q at k in l))
      ],
    )
