-- ===== src/Libraries/Workflow/Verifying.antt =====
-- internal/libraries/materialization.go: verifyDecisionContent. The file system enters as what it
-- answers for an open file.
use expediente.Base.{◌&&◌, String, String_eq, ℕ_eq, ◌==◌, if◌then◌else◌}
use expediente.Domain.{Result, ok, err, ◌>>=◌, ◌>>◌, require, coded}
use expediente.Libraries.{Database, RootRow}
use expediente.Libraries.Access.{scan_failure}
use expediente.Libraries.Documents.{Document, read_root}

-- What the file system answers for an open file: its digest, its physical identity, the digest of
-- its private copy, and the validation of that copy as a PDF.
pub record Content : Type 0 where
  pub digest : Result String
  pub identity : Result String
  pub copied : Result String
  pub valid : Result (Unit {0})

-- `openUpload` and `openLinked`
pub record Files : Type 0 where
  pub open_upload : String → Result Content
  pub open_linked : RootRow → String → Result Content

unfoldable pub open_content : Files → Document → Database → Result Content
unfolding read_root
open_content files document database =
    if document.availability == "staged"
    then files.open_upload document.file_id
    else if document.availability == "available"
    then (read_root document.root_id database >>= λ root.
        files.open_linked root document.relative_path)
    else err (scan_failure "DOCUMENT_UNAVAILABLE")

unfoldable pub unavailable : Result Content → Result Content
unavailable (ok content) = ok content
unavailable (err _) = err (scan_failure "DOCUMENT_UNAVAILABLE")

-- The copy of a managed file that was marked as changed is validated again.
unfoldable pub revalidate : Document → Content → Result (Unit {0})
revalidate document content =
    if document.source == "managed" && document.integrity == "changed"
    then (content.copied >>= λ hash.
        require (hash == document.hash) (scan_failure "FILE_UNSTABLE") >> content.valid)
    else ok tt

-- `verifyDecisionContent`
unfoldable pub verify_decision_content : Files → Document → Database → Result (Unit {0})
unfolding open_content unavailable revalidate
verify_decision_content files document database = do
  content ← unavailable (open_content files document database)
  digest ← content.digest
  identity ← content.identity
  require (digest == document.hash && identity == document.identity) (coded "CONTENT_CHANGED")
  revalidate document content
