-- ===== src/Libraries/Tests/Archive.antt =====
-- A hybrid library with three documents, the jobs of its workers, and its manager, Ana.
use Prim.Native.Char.{code}
use expediente.Base.{leb, ◌&&◌, true, false, none, some, String, Option, List, [], ◌∷◌, ℕ, ℕ_eq}
use expediente.Domain.{Result, ok, err}
use expediente.Identity.Tests.Office.{service, noon, office}
use expediente.Libraries.{
  Approval, Call, Database, DocumentRow, FileRow, GrantRow, JobRow, JobStatus, ReviewRow,
  ReviewStatus, Settings, queued, running, succeeded,
}
use expediente.Licensing.Policy.{active}

abbrev pub library_settings : Settings
library_settings = record {
  review_managed = true;
  review_linked = false;
  retention_days = 30;
  identifier_label = "Expediente";
  exercise_enabled = false;
  cases_enabled = false;
  structure_pattern = "{categoria}";
  filename_pattern = "original";
  filename_prefix = "";
  managed_root_id = "root2";
}

abbrev pub call : Call
call = record {
  service = service;
  decode_settings = λ text. ok library_settings;
  encode_text = λ key value. value;
  encode_texts = λ key values. key;
  is_letter = λ c. leb 97 (code c) && leb (code c) 122;
  is_digit = λ c. false;
  upper = λ c. c;
  join_root = λ root path. path;
  beside = λ path name. name;
  now = noon;
  license = record {
    state = active;
    read_allowed = true;
    write_allowed = true;
    features =
        "linked_libraries" ∷ "managed_libraries" ∷ "ocr" ∷ "expedientes" ∷ "review_workflow" ∷ [];
    diagnostic = "";
  };
}

abbrev pub document_row : String → String → Approval → ℕ → String → DocumentRow
document_row id file_id state revision author = record {
  id = id;
  library_id = "lib";
  file_id = file_id;
  title = "Acta";
  original_filename = "acta.pdf";
  approval = state;
  revision = revision;
  case_id = "";
  category_id = "cat";
  type_id = "type";
  created_by = author;
  deleted_at = none;
  approved_version_id = "";
  approved_by = "";
  approved_at = none;
}

abbrev pub file_row : String → String → String → Option (String × String) → FileRow
file_row id source availability location = record {
  id = id;
  source = source;
  availability = availability;
  integrity = "verified";
  identity = "";
  current_version_id = "v1";
  location = location;
}

abbrev pub job_row : String → Option String → String → String → JobStatus → ℕ → JobRow
job_row id file_id kind version status fence = record {
  id = id;
  library_id = "lib";
  file_id = file_id;
  job_type = kind;
  target_version = version;
  payload_json = "{}";
  status = status;
  attempt_count = 1;
  max_attempts = 5;
  available_at = 0;
  lease_expires_at = none;
  fencing_token = fence;
  last_error_code = "";
  retry_of_job_id = none;
  created_at = 0;
}

abbrev pub review : ReviewRow
review = record {
  id = "r1";
  document_id = "d1";
  library_id = "lib";
  document_revision = 3;
  version_id = "v1";
  requested_by = "u2";
  assigned_to = "";
  status = ReviewStatus.pending;
  requested_at = 0;
  decided_by = "";
  decided_at = none;
  reason = "";
}

abbrev grant : String → GrantRow
grant permission = record { role_id = "library_manager"; permission_key = permission }

abbrev pub jobs : List JobRow
jobs =
    job_row "j1" (some "f1") "extract" "v1" running 4
    ∷ job_row "j2" (some "f2") "extract" "v1" queued 2
    ∷ job_row "j3" none "scan" "root1" succeeded 1
    ∷ []

abbrev pub archive : Database
archive = record {
  identity = office;
  libraries =
      record {
        id = "lib";
        mode = "hybrid";
        settings_json = "{}";
        current_configuration_revision = 1;
        disabled_at = none;
      }
      ∷ [];
  members = record { user_id = "u1"; library_id = "lib"; role_id = "library_manager" } ∷ [];
  grants =
      grant "documents.review"
      ∷ grant "documents.read"
      ∷ grant "documents.approve"
      ∷ grant "documents.reject"
      ∷ grant "documents.finalize"
      ∷ grant "documents.submit"
      ∷ grant "indexing.run"
      ∷ grant "indexing.retry"
      ∷ [];
  jobs = jobs;
  job_attempts = [];
  job_controls = [];
  root_scan_controls = [];
  roots =
      record {
        id = "root1";
        library_id = "lib";
        path = "/srv/linked";
        source = "linked";
        status = "active";
        revision = 1;
        case_sensitive = true;
      }
      ∷ [];
  scans = [];
  scan_errors = [];
  materializations = [];
  documents =
      document_row "d1" "f1" Approval.pending_review 3 "u2"
      ∷ document_row "d2" "f2" Approval.draft 1 "u1"
      ∷ document_row "d3" "f3" Approval.draft 1 "u1"
      ∷ [];
  files =
      file_row "f1" "managed" "staged" none
      ∷ file_row "f2" "linked" "available" (some ("root1", "acta.pdf"))
      ∷ file_row "f3" "managed" "staged" none
      ∷ [];
  versions = record { id = "v1"; sha256 = "00"; size = 10 } ∷ [];
  uploads = record { document_id = "d1"; status = "staged"; retain_until = none } ∷ [];
  reviews = review ∷ [];
  types =
      record {
        id = "type";
        library_id = "lib";
        category_id = "cat";
        name = "Acta";
        requires_title = true;
        archived_at = none;
      }
      ∷ [];
  categories = record { id = "cat"; name = "Actas"; archived_at = none } ∷ [];
  cases = [];
  sequences = [];
  configurations = [];
  history = [];
}

-- The database behind a transaction that succeeds.
abbrev pub behind {ℓ} : {A : Type ℓ} → Database → Result (A × Database) → Database
behind database (err _) = database
behind database (ok (a, after)) = after
