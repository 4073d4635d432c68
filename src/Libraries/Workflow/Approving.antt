-- ===== src/Libraries/Workflow/Approving.antt =====
-- internal/libraries/materialization.go: beginApproval, with `comparison` of filesystem.go.
use mathlib.Core.Option
use expediente.Base.{
  ℕ, ◌+◌, Bool, not, ◌&&◌, ◌||◌, String, String_eq, ℕ_eq, List, [], ◌∷◌, ◌++◌, Option, none, some,
  ◌==◌, if◌then◌else◌, find_row, update_rows,
}
use expediente.Domain.{
  Result, ok, ◌>>=◌, ◌>>◌, require, RequestMetadata, Principal, invalid_request, no_rows,
  constraint, coded,
}
use expediente.Domain.Text.{map_runes}
use expediente.Identity.{text, number}
use expediente.Identity.Sessions.{or_fail}
use expediente.Libraries.{
  Approval, CaseRow, Call, ConfigurationRow, Database, DocumentRow, FileRow, LibraryRow,
  MaterializationRow, ReviewRow, ReviewStatus, RootRow, SequenceRow, Settings, VersionRow,
}
use expediente.Libraries.Access.{any_row}
use expediente.Libraries.Documents.{Document, file_by, version_by}
use expediente.Libraries.Jobs.{insert_job}
use expediente.Libraries.Jobs.Control.{new_job}
use expediente.Libraries.Naming.{NamingInput, render_naming_sequence}
use expediente.Libraries.Workflow.{
  clear_retention, has_document_id, has_review_id, move_document, workflow_event,
}

-- The first part of `beginApproval`: a document that is not a staged upload is approved in place.
verify_file : String → Database → Database
verify_file id database = record database {
  files =
      update_rows (λ (f : FileRow). f.id == id) (λ f. record f { integrity = "verified" })
        database.files;
}

version_of : String → Database → String
unfolding file_by
version_of file_id database = elim (file_by file_id database) [
  | none ↦ ""
  | some f ↦ f.current_version_id
]

approve_document : Call → String → Document → Database → Database
unfolding version_of
approve_document call user_id document database = record database {
  documents =
      update_rows (has_document_id document.id)
        (λ (d : DocumentRow). record d {
          approval = Approval.approved;
          approved_version_id = version_of document.file_id database;
          approved_by = user_id;
          approved_at = some call.now;
          revision = d.revision + 1;
        })
        database.documents;
}

approve_review : Call → String → String → Database → Database
approve_review call user_id review_id database =
    if review_id == "" then database else record database {
      reviews =
          update_rows (has_review_id review_id)
            (λ (r : ReviewRow). record r {
              status = ReviewStatus.approved;
              decided_by = user_id;
              decided_at = some call.now;
            })
            database.reviews;
    }

unfoldable pub approve_in_place :
    Call → Principal → Document → String → String → RequestMetadata → Database → Database
unfolding verify_file approve_document approve_review workflow_event
approve_in_place call principal document kind review_id metadata database =
    workflow_event call principal document metadata "document.approved"
      (("decision_kind", text kind) ∷ ("review_id", text review_id) ∷ [])
      (approve_review call principal.user.id review_id
        (approve_document call principal.user.id document (verify_file document.file_id database)))

is_target : String → Document → RootRow → Bool
is_target root_id document root =
    (root.id == root_id && root.library_id == document.library_id)
    && (root.source == "managed" && root.status == "active")

is_configuration : LibraryRow → ConfigurationRow → Bool
is_configuration library row =
    row.library_id == library.id && row.revision == library.current_configuration_revision

-- INSERT OR IGNORE INTO library_configuration_versions
unfoldable pub snapshot_configuration : Call → String → LibraryRow → Database → Database
unfolding any_row is_configuration
snapshot_configuration call user_id library database =
    if any_row (is_configuration library) database.configurations
    then database
    else record database {
      configurations =
          database.configurations
          ++ (record {
            library_id = library.id;
            revision = library.current_configuration_revision;
            mode = library.mode;
            settings_json = library.settings_json;
            created_by = user_id;
            created_at = call.now;
          }
              ∷ []);
    }

-- The number of the library's sequence, which starts at 1, and the sequence with the next one.
unfoldable pub next_number : String → List SequenceRow → ℕ × List SequenceRow
next_number library_id [] = (1, record { library_id = library_id; next_number = 2 } ∷ [])
next_number library_id (row ∷ rows) =
    let (assigned, rest) = next_number library_id rows in
    if row.library_id == library_id
    then (row.next_number, record row { next_number = row.next_number + 1 } ∷ rows)
    else (assigned, row ∷ rest)

-- `comparison`
unfoldable pub comparison : Call → String → Bool → String
comparison call path sensitive = if sensitive then path else map_runes call.service.lower path

exercise_of : Document → Database → Result String
exercise_of document database =
    if document.case_id == ""
    then ok ""
    else or_fail (find_row (λ (c : CaseRow). c.id == document.case_id) database.cases) no_rows
      >>= λ found. ok found.exercise

clashes_with : MaterializationRow → MaterializationRow → Bool
clashes_with new row =
    row.id == new.id
    || row.document_id == new.document_id
    || row.target_comparison_key == new.target_comparison_key

-- INSERT INTO materializations, under its primary key and its two UNIQUE columns.
insert_materialization : MaterializationRow → Database → Result Database
unfolding any_row clashes_with
insert_materialization row database =
    require (not (any_row (clashes_with row) database.materializations)) constraint
    >> ok (record database { materializations = database.materializations ++ (row ∷ []) })

-- The file of a document with its current version, as the INSERT … SELECT joins them.
current_version : Document → Database → Option (FileRow × VersionRow)
unfolding file_by version_by
current_version document database = elim (file_by document.file_id database) [
  | none ↦ none
  | some f ↦ Option.map (λ version. (f, version)) (version_by f.current_version_id database)
]

-- The row of the materialization.
plan_materialization :
    Call
    → String
    → Principal
    → Document
    → String
    → String
    → RootRow
    → LibraryRow
    → String
    → FileRow × VersionRow
    → MaterializationRow
unfolding comparison
plan_materialization call operation_id principal document kind review_id root library relative
      (f, v) =
    record {
      id = operation_id;
      document_id = document.id;
      library_id = document.library_id;
      file_id = f.id;
      content_version_id = v.id;
      document_revision = document.revision;
      target_root_id = root.id;
      root_revision = root.revision;
      configuration_revision = library.current_configuration_revision;
      target_relative_path = relative;
      target_comparison_key =
          comparison call (call.join_root root.path relative) root.case_sensitive;
      partial_relative_path = call.beside relative operation_id;
      expected_sha256 = v.sha256;
      expected_size = v.size;
      state = "planned";
      approved_by = principal.user.id;
      decision_kind = kind;
      review_id = review_id;
      error_code = "";
      created_at = call.now;
      updated_at = call.now;
    }

insert_planned : Option MaterializationRow → Database → Result Database
unfolding insert_materialization
insert_planned none database = ok database
insert_planned (some row) database = insert_materialization row database

naming_input : Document → String → NamingInput
naming_input document exercise = record {
  identifier = document.case_identifier;
  exercise = exercise;
  category = document.category_name;
  document_type = document.type_name;
  original_filename = document.filename;
}

-- The second part of `beginApproval`: the upload is to be written below the managed root.
unfoldable pub begin_materialization :
    Call
    → String × String
    → Principal
    → Document
    → Settings
    → String
    → String
    → RequestMetadata
    → Database
    → Result (String × Database)
unfolding is_target snapshot_configuration next_number exercise_of plan_materialization
    current_version insert_planned naming_input render_naming_sequence move_document clear_retention
    insert_job workflow_event
begin_materialization call (operation_id, job_id) principal document settings kind review_id
      metadata database =
    do
      require (not (settings.managed_root_id == "")) (coded "MANAGED_ROOT_REQUIRED")
      root ←
          or_fail (find_row (is_target settings.managed_root_id document) database.roots)
            invalid_request
      library ←
          or_fail (find_row (λ (l : LibraryRow). l.id == document.library_id) database.libraries)
            no_rows
      let numbered = next_number document.library_id database.sequences in
          do
            exercise ← exercise_of document database
            inserted ←
                insert_planned
                  (Option.map
                    (plan_materialization call operation_id principal document kind review_id root
                      library
                      (render_naming_sequence call settings (naming_input document exercise)
                        document.id numbered.0))
                    (current_version document database))
                  (record (snapshot_configuration call principal.user.id library database) {
                    sequences = numbered.1;
                  })
            enqueued ←
                insert_job
                  (new_job call job_id document.library_id (some document.file_id) "materialize"
                    operation_id "{}")
                  (clear_retention document.id
                    (move_document Approval.materializing document.id inserted))
            ok (
              operation_id,
              workflow_event call principal document metadata "document.materialization_requested"
                  (("operation_id", text operation_id)
                    ∷ ("decision_kind", text kind)
                    ∷ ("configuration_revision", number library.current_configuration_revision)
                    ∷ [])
                  enqueued,
            )

-- `beginApproval`
unfoldable pub begin_approval :
    Call
    → String × String
    → Principal
    → Document
    → Settings
    → String
    → String
    → RequestMetadata
    → Database
    → Result (String × Database)
unfolding approve_in_place begin_materialization
begin_approval call fresh principal document settings kind review_id metadata database =
    if not (document.source == "managed") || not (document.availability == "staged")
    then ok ("", approve_in_place call principal document kind review_id metadata database)
    else begin_materialization call fresh principal document settings kind review_id metadata
        database
