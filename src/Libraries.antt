-- ===== src/Libraries.antt =====
-- internal/libraries: the tables of db/migrations that the use cases of libraries, jobs and reviews
-- keep, with the columns that those use cases read, and the parameters of the service. An empty
-- text stands for NULL where the queries read the column through `coalesce(…,'')`. Identifiers that
-- the code draws at random are arguments of the operations.
pub mod ContentSlots
pub mod Access
pub mod Documents
pub mod Jobs
pub mod Naming
pub mod Workflow
pub mod Tests
use Prim.Native.Char.{Char}
use expediente.Base.{ℕ, Bool, String, List, Option}
use expediente.Domain.{Instant, Result}
use expediente.Identity
use expediente.Licensing.Policy.{Status}

pub record LibraryRow : Type 0 where
  pub id : String
  pub mode : String
  pub settings_json : String
  pub current_configuration_revision : ℕ
  pub disabled_at : Option Instant

-- `library_role_assignments` and `role_permissions`
pub record MemberRow : Type 0 where
  pub user_id : String
  pub library_id : String
  pub role_id : String

pub record GrantRow : Type 0 where
  pub role_id : String
  pub permission_key : String

pub data JobStatus : Type 0 where
  queued running retry_wait succeeded failed paused cancelled : JobStatus

-- `jobs`: the owner of the lease is 'local' wherever there is a lease, and the idempotency key is
-- the identifier of the job or made of its version.
pub record JobRow : Type 0 where
  pub id : String
  pub library_id : String
  pub file_id : Option String
  pub job_type : String
  pub target_version : String
  pub payload_json : String
  pub status : JobStatus
  pub attempt_count : ℕ
  pub max_attempts : ℕ
  pub available_at : Instant
  pub lease_expires_at : Option Instant
  pub fencing_token : ℕ
  pub last_error_code : String
  pub retry_of_job_id : Option String
  pub created_at : Instant

pub record JobAttemptRow : Type 0 where
  pub id : String
  pub job_id : String
  pub attempt_number : ℕ
  pub fencing_token : ℕ
  pub started_at : Instant
  pub finished_at : Option Instant
  pub error_code : String

-- `job_controls` and `root_scan_controls`
pub record ControlRow : Type 0 where
  pub key : String
  pub requested : Bool

pub record RootRow : Type 0 where
  pub id : String
  pub library_id : String
  pub path : String
  pub source : String
  pub status : String
  pub revision : ℕ
  pub case_sensitive : Bool

pub record ScanRow : Type 0 where
  pub root_id : String
  pub status : String

pub record ScanErrorRow : Type 0 where
  pub root_id : String
  pub relative_path : String

pub record MaterializationRow : Type 0 where
  pub id : String
  pub document_id : String
  pub library_id : String
  pub file_id : String
  pub content_version_id : String
  pub document_revision : ℕ
  pub target_root_id : String
  pub root_revision : ℕ
  pub configuration_revision : ℕ
  pub target_relative_path : String
  pub target_comparison_key : String
  pub partial_relative_path : String
  pub expected_sha256 : String
  pub expected_size : ℕ
  pub state : String
  pub approved_by : String
  pub decision_kind : String
  pub review_id : String
  pub error_code : String
  pub created_at : Instant
  pub updated_at : Instant

pub data Approval : Type 0 where
  draft pending_review materializing approved rejected cancelled needs_review : Approval

pub record DocumentRow : Type 0 where
  pub id : String
  pub library_id : String
  pub file_id : String
  pub title : String
  pub original_filename : String
  pub approval : Approval
  pub revision : ℕ
  pub case_id : String
  pub category_id : String
  pub type_id : String
  pub created_by : String
  pub deleted_at : Option Instant
  pub approved_version_id : String
  pub approved_by : String
  pub approved_at : Option Instant

-- `physical_files` with its primary location, `physical_file_locations`
pub record FileRow : Type 0 where
  pub id : String
  pub source : String
  pub availability : String
  pub integrity : String
  pub identity : String
  pub current_version_id : String
  pub location : Option (String × String)

pub record VersionRow : Type 0 where
  pub id : String
  pub sha256 : String
  pub size : ℕ

pub record UploadRow : Type 0 where
  pub document_id : String
  pub status : String
  pub retain_until : Option Instant

pub data ReviewStatus : Type 0 where
  pending approved rejected cancelled superseded : ReviewStatus

pub record ReviewRow : Type 0 where
  pub id : String
  pub document_id : String
  pub library_id : String
  pub document_revision : ℕ
  pub version_id : String
  pub requested_by : String
  pub assigned_to : String
  pub status : ReviewStatus
  pub requested_at : Instant
  pub decided_by : String
  pub decided_at : Option Instant
  pub reason : String

-- `document_types` and `categories`
pub record TypeRow : Type 0 where
  pub id : String
  pub library_id : String
  pub category_id : String
  pub name : String
  pub requires_title : Bool
  pub archived_at : Option Instant

pub record CategoryRow : Type 0 where
  pub id : String
  pub name : String
  pub archived_at : Option Instant

pub record CaseRow : Type 0 where
  pub id : String
  pub library_id : String
  pub identifier : String
  pub exercise : String

pub record SequenceRow : Type 0 where
  pub library_id : String
  pub next_number : ℕ

pub record ConfigurationRow : Type 0 where
  pub library_id : String
  pub revision : ℕ
  pub mode : String
  pub settings_json : String
  pub created_by : String
  pub created_at : Instant

-- `document_history`, without the snapshot and the random keys
pub record HistoryRow : Type 0 where
  pub document_id : String
  pub revision : ℕ
  pub event_type : String

pub record Database : Type 0 where
  pub identity : Identity.Store
  pub libraries : List LibraryRow
  pub members : List MemberRow
  pub grants : List GrantRow
  pub jobs : List JobRow
  pub job_attempts : List JobAttemptRow
  pub job_controls : List ControlRow
  pub root_scan_controls : List ControlRow
  pub roots : List RootRow
  pub scans : List ScanRow
  pub scan_errors : List ScanErrorRow
  pub materializations : List MaterializationRow
  pub documents : List DocumentRow
  pub files : List FileRow
  pub versions : List VersionRow
  pub uploads : List UploadRow
  pub reviews : List ReviewRow
  pub types : List TypeRow
  pub categories : List CategoryRow
  pub cases : List CaseRow
  pub sequences : List SequenceRow
  pub configurations : List ConfigurationRow
  pub history : List HistoryRow

pub record Settings : Type 0 where
  pub review_managed : Bool
  pub review_linked : Bool
  pub retention_days : ℕ
  pub identifier_label : String
  pub exercise_enabled : Bool
  pub cases_enabled : Bool
  pub structure_pattern : String
  pub filename_pattern : String
  pub filename_prefix : String
  pub managed_root_id : String

-- What one call of a use case finds outside of the database: the services with their parameters
-- (`json.Unmarshal` of the settings, `json.Marshal` of an object of one text or list, the tables of
-- the package unicode, and the paths of the operating system: `filepath.Join` of a root's path, and
-- of a path's directory with a file name), the clock, read once, and the status of the license.
pub record Call : Type 0 where
  pub service : Identity.Service
  pub decode_settings : String → Result Settings
  pub encode_text : String → String → String
  pub encode_texts : String → List String → String
  pub is_letter : Char → Bool
  pub is_digit : Char → Bool
  pub upper : Char → Char
  pub join_root : String → String → String
  pub beside : String → String → String
  pub now : Instant
  pub license : Status
