-- ===== src/Libraries/Documents.antt =====
-- internal/libraries: `visibleDocumentSQL` of cases.go, the query of a document with its joins
-- (search.go, `workflowDocument` of workflow.go), `Document` and `Job` of documents.go and `root` of
-- scanner.go. The columns that only the answers show are left out.
use expediente.Base.{
  Bool, not, ◌&&◌, ◌||◌, String, String_eq, ℕ, Option, none, some, ◌==◌, if◌then◌else◌, is_none,
  find_row,
}
use expediente.Domain.{Result, ok, ◌>>=◌, ◌>>◌, Principal, not_found}
use expediente.Identity.Sessions.{or_fail}
use expediente.Libraries.{
  Database, DocumentRow, FileRow, VersionRow, UploadRow, RootRow, CaseRow, CategoryRow, TypeRow,
  JobRow, Approval, Call,
}
use expediente.Libraries.Access.{any_row, permits, library_read, document_by}

pub record Document : Type 0 where
  pub id : String
  pub library_id : String
  pub title : String
  pub filename : String
  pub availability : String
  pub approval : Approval
  pub revision : ℕ
  pub root_id : String
  pub relative_path : String
  pub file_id : String
  pub identity : String
  pub hash : String
  pub source : String
  pub case_id : String
  pub case_identifier : String
  pub category_id : String
  pub type_id : String
  pub category_name : String
  pub type_name : String
  pub created_by : String
  pub integrity : String

unfoldable pub file_by : String → Database → Option FileRow
file_by id database = find_row (λ (f : FileRow). f.id == id) database.files

unfoldable pub root_by : String → Database → Option RootRow
root_by id database = find_row (λ (r : RootRow). r.id == id) database.roots

unfoldable pub version_by : String → Database → Option VersionRow
version_by id database = find_row (λ (v : VersionRow). v.id == id) database.versions

-- A column of a row of a LEFT JOIN, through `coalesce(…,'')`.
abbrev column {ℓ} : {Row : Type ℓ} → (Row → String) → Option Row → String
column f none = ""
column f (some row) = f row

is_private_upload : DocumentRow → UploadRow → Bool
is_private_upload document upload =
    upload.document_id == document.id && (upload.status == "staged" || upload.status == "retained")

-- `visibleDocumentSQL`; a NULL author, here the empty text, equals no user.
unfoldable pub is_visible : String → DocumentRow → FileRow → Database → Bool
unfolding any_row permits is_private_upload
is_visible user_id document file database =
    ((not (file.availability == "staged")
        && not (file.source == "managed" && is_none file.location))
      && not (any_row (is_private_upload document) database.uploads))
    || (document.created_by == user_id && not (user_id == ""))
    || any_row
        (λ m.
          (m.user_id == user_id && m.library_id == document.library_id)
          && any_row (λ g. g.role_id == m.role_id && g.permission_key == "documents.review")
              database.grants)
        database.members

location_root : Option (String × String) → Database → Option RootRow
unfolding root_by
location_root none database = none
location_root (some (root_id, _)) database = root_by root_id database

unfoldable pub join_document : DocumentRow → FileRow → Database → Document
unfolding location_root version_by
join_document d f database =
    let root = location_root f.location database in
    let category = find_row (λ (c : CategoryRow). c.id == d.category_id) database.categories in
    let kind = find_row (λ (t : TypeRow). t.id == d.type_id) database.types in
    record {
      id = d.id;
      library_id = d.library_id;
      title = d.title;
      filename = d.original_filename;
      availability =
          if column (λ (r : RootRow). r.status) root == "inaccessible"
          then "unknown"
          else f.availability;
      approval = d.approval;
      revision = d.revision;
      root_id = column (λ (l : String × String). l.0) f.location;
      relative_path = column (λ (l : String × String). l.1) f.location;
      file_id = f.id;
      identity = f.identity;
      hash = column (λ (v : VersionRow). v.sha256) (version_by f.current_version_id database);
      source = f.source;
      case_id = d.case_id;
      case_identifier =
          column (λ (c : CaseRow). c.identifier)
            (find_row (λ (c : CaseRow). c.id == d.case_id) database.cases);
      category_id = d.category_id;
      type_id = d.type_id;
      category_name = column (λ (c : CategoryRow). c.name) category;
      type_name = column (λ (t : TypeRow). t.name) kind;
      created_by = d.created_by;
      integrity = f.integrity;
    }

unfoldable pub shown : String → Database → DocumentRow → FileRow → Option Document
unfolding is_visible join_document
shown user_id database d f =
    if is_none d.deleted_at && is_visible user_id d f database
    then some (join_document d f database)
    else none

unfoldable pub with_file : String → Database → DocumentRow → Option Document
unfolding file_by shown
with_file user_id database d = elim (file_by d.file_id database) [
  | none ↦ none
  | some f ↦ shown user_id database d f
]

unfoldable pub select_document : String → String → Database → Option Document
unfolding document_by with_file
select_document user_id id database = elim (document_by id database) [
  | none ↦ none
  | some d ↦ with_file user_id database d
]

-- `workflowDocument`
unfoldable pub workflow_document : String → String → Database → Result Document
unfolding select_document
workflow_document user_id id database = or_fail (select_document user_id id database) not_found

-- `Document`, without the marks of what the user may do with it.
unfoldable pub read_document : Call → Principal → String → Database → Result Document
unfolding workflow_document library_read
read_document call principal id database = do
  document ← workflow_document principal.user.id id database
  library_read call principal document.library_id "documents.read" database
  ok document

read_job_file : Call → Principal → Option String → Database → Result (Unit {0})
unfolding read_document
read_job_file call principal none database = ok tt
read_job_file call principal (some file) database = do
  d ← or_fail (find_row (λ (d : DocumentRow). d.file_id == file) database.documents) not_found
  _ ← read_document call principal d.id database
  ok tt

-- `Job`, without `enrichJob`, which fills what is shown of the progress.
unfoldable pub read_job : Call → Principal → String → Database → Result JobRow
unfolding read_job_file library_read
read_job call principal id database = do
  job ← or_fail (find_row (λ (j : JobRow). j.id == id) database.jobs) not_found
  read_job_file call principal job.file_id database
  library_read call principal job.library_id "indexing.run" database
  ok job

-- `root`
unfoldable pub read_root : String → Database → Result RootRow
unfolding root_by
read_root id database = or_fail (root_by id database) not_found
