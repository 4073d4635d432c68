-- ===== src/Libraries/Tests/Reviews.antt =====
-- Runs of the reviews and confirmations of a library.
use Prim.Native.Char.{Char}
use expediente.Base.{
  ◌||◌, String, ◌≤◌, true, false, some, count_rows, find_row, update_rows, ◌≡◌, ◌⊎◌, refl, arith,
}
use expediente.Domain.{ok, contains}
use expediente.Licensing.Policy.{check_all, check_features, check_status}
use expediente.Identity.Tests.Office.{request, as_ana}
use expediente.Libraries.{Database, ReviewRow}
use expediente.Libraries.Documents.{Document, workflow_document}
use expediente.Libraries.Tests.Archive.{archive, behind, call}
use expediente.Libraries.Workflow.{has_review_id, is_pending_of, submit_transaction}
use expediente.Libraries.Workflow.Accepted.{
  Authorized, Current, Direct, decide_transaction-accepted, finalize_transaction-accepted,
}
use expediente.Libraries.Workflow.Replays.Decisions.{RepeatedDecision}
use expediente.Libraries.Workflow.Replays.Confirmations.{RepeatedFinalization}
use expediente.Libraries.Workflow.Replays.Submissions.{Submitted}
use expediente.Libraries.Workflow.Deciding.{decide_transaction}
use expediente.Libraries.Workflow.Finalizing.{finalize_transaction}
use expediente.Libraries.Workflow.Pending.{submit_transaction-count}
use expediente.Libraries.Naming.Safe.{has_separator, safe_component-safe, is_separator}
use expediente.Libraries.Naming.{safe_component}
use expediente.Domain.Text.{rune_count}

-- Ana rejects the review of Luis.
abbrev rejected : Database
rejected =
    behind archive
      (decide_transaction call ("op", "j5") 3 "r1" 3 false "Falta la firma" request as_ana archive)

rejects :
    decide_transaction call ("op", "j5") 3 "r1" 3 false "Falta la firma" request as_ana archive
    ≡ ok ("", rejected)
unfolding decide_transaction find_row check_features check_status check_all contains
rejects = refl

decide_transaction-accepted_example :
    (review : ReviewRow) × (document : Document) × (find_row (has_review_id "r1") archive.reviews
      ≡ some review)
    × Authorized as_ana document review archive
    × (((rejected ≡ archive)
          × (review.document_revision ≡ 3)
          × RepeatedDecision "u1" 3 "Falta la firma" document review archive "" false)
        ⊎ Current call 3 3 false document review archive)
decide_transaction-accepted_example =
    decide_transaction-accepted call ("op", "j5") 3 "r1" 3 false "Falta la firma" request as_ana
      archive rejected "" rejects

-- Ana confirms her linked document.
abbrev confirmed : Database
confirmed = behind archive (finalize_transaction call ("op", "j5") 1 "d2" 1 request as_ana archive)

confirms :
    finalize_transaction call ("op", "j5") 1 "d2" 1 request as_ana archive ≡ ok ("", confirmed)
unfolding finalize_transaction find_row
confirms = refl

finalize_transaction-accepted_example :
    (document : Document) × (workflow_document "u1" "d2" archive ≡ ok document)
    × (((confirmed ≡ archive) × RepeatedFinalization "u1" 1 document archive "")
        ⊎ Direct call 1 1 document archive)
finalize_transaction-accepted_example =
    finalize_transaction-accepted call ("op", "j5") 1 "d2" 1 request as_ana archive confirmed ""
      confirms

-- Ana submits her upload.
abbrev submitted : Database
submitted = behind archive (submit_transaction call "r2" "d3" "" 1 request as_ana archive)

submits : submit_transaction call "r2" "d3" "" 1 request as_ana archive ≡ ok ("r2", submitted)
unfolding submit_transaction find_row check_features check_status check_all contains update_rows
submits = refl

none_pending : count_rows (is_pending_of "d3") archive.reviews ≤ 1
unfolding count_rows
none_pending = omega arith

submit_transaction-count_example :
    (count_rows (is_pending_of "d3") submitted.reviews ≡ 1)
    × Submitted "u1" "" "d3" "r2" 1 submitted
    × ((◌≡◌ {A = String} "r2" "r2") ⊎ (submitted ≡ archive))
submit_transaction-count_example =
    submit_transaction-count call "r2" "d3" "" 1 request as_ana archive submitted "r2" submits
      none_pending

no_letter : (c : Char) → is_separator c ≡ true → (call.is_letter c || call.is_digit c) ≡ false
unfolding is_separator
no_letter c h = ground arith

-- A name with separators.
safe_component-safe_example :
    (has_separator (safe_component call "../Actas/2024") ≡ false)
    × (1 ≤ rune_count (safe_component call "../Actas/2024"))
    × (rune_count (safe_component call "../Actas/2024") ≤ 61)
safe_component-safe_example = safe_component-safe call "../Actas/2024" (λ c h. no_letter c h)
