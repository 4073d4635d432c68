-- ===== src/Lib.antt =====
-- Expediente keeps the documents of an organisation: a Go server with a SQLite database, used from
-- a browser. Every request passes through its identity service, modelled whole. The libraries hold
-- the documents: users classify them, submit them to review, decide on them and confirm them, while
-- workers claim jobs from a table, run them and finish them under a fencing token. The license client
-- decides what may be written, and which jobs may run. The network service owns the listener.
--
-- Parts, and the files that model them:
-- Base: Boolean tests and tables. Base/Rows has a table as the list of its rows, with SELECT,
--   count(*), UPDATE and DELETE as functions.
-- Domain: internal/domain/domain.go, the values that all parts share and the failures by their
--   codes. Domain/Text: normalizeUsername, validateUsername and sanitizeText of
--   internal/identity/service.go and ValidatePassword of internal/identity/password.go.
-- Identity: the tables of db/migrations/0001_identity.up.sql that identity keeps (the record
--   Store), internal/audit/audit.go and Database.Write of internal/storage/database.go. A use case
--   is a function from the store to a result and the store behind it.
-- Identity/Throttle: reserveLoginAttempt, penalizeLogin, releaseSuccessfulAttempt and
--   recordAttempt of internal/identity/login.go; Identity/Login: Login of that file, in the steps
--   of its transaction.
-- Identity/Sessions: LoadPrincipal, loadRoles, Authenticate, closeSession, AuthorizedWrite and
--   VerifyCSRF of internal/identity/service.go, closeUserSessions of internal/identity/users.go and
--   Logout of internal/identity/login.go; Identity/Bootstrap: Bootstrap of service.go.
-- Identity/Users: the use cases of internal/identity/users.go; Identity/Passwords: those of
--   internal/identity/password_change.go.
-- Identity/History: sequences of calls of these use cases; Identity/Tests: runs of them.
-- Licensing/Clock: effectiveTime of internal/licensing/client.go; Licensing/Policy: what Status of
--   that file makes of a verified license, and internal/licensing/policy.go.
-- Libraries: the tables of the libraries (the record Database, which holds the store of identity) and
--   what a call finds outside of it (the record Call). Libraries/Access: the permissions of
--   internal/libraries/service.go, settingsFor, internal/libraries/license.go and failureCode of
--   scanner.go. Libraries/Documents: the documents that a user sees, Document and Job of documents.go.
-- Libraries/Jobs: claimLane and recoverJobs of internal/libraries/runtime.go and the constraints of the
--   table; Jobs/Finish: finish of that file; Jobs/Control: CancelJob and RetryScanErrors of
--   job_control.go, Verify of documents.go, enqueueScan and enqueueVerification; Jobs/Retrying: Retry
--   and RetryMaterialization. Jobs/Invariant, Updates, Claiming, Starting and Finishing, and the
--   modules called Keeping, prove what each operation carries from a table to the next; Jobs/History
--   has sequences of the operations, Jobs/Outcomes the answers of single ones.
-- Libraries/Workflow: SubmitReview of internal/libraries/workflow.go; Workflow/Verifying and
--   Workflow/Approving: verifyDecisionContent and beginApproval of materialization.go;
--   Workflow/Deciding: DecideReview; Workflow/Finalizing: FinalizeDocument, and CancelUpload of
--   classification.go; Workflow/Replays: what these calls take for repetitions. Libraries/Naming: the
--   names of settings.go. Libraries/ContentSlots: acquireContent and releaseContent of ocr_workers.go.
-- Configuration: Config.Validate of internal/config/config.go; Configuration/Options: the options of the
--   license client and of the extraction; Configuration/Listening: what an accepted one listens on.
-- Network: New, Start, Apply and Close of internal/network/service.go; Network/Atomic: what Apply keeps.
--
-- How the model reads the source: an instant is a number of microseconds, since timestamps are
-- printed with a fixed number of digits and compared as texts. A use case reads the clock once,
-- where the code may read it again some microseconds later; Login and ChangePassword read it at the
-- reservation of the attempt and, behind the hash of the password, for the transaction. In
-- identity, a read before a transaction and the transaction see one state of the database, save where
-- a theorem takes the state in between as an argument; in libraries, what an operation reads before its
-- transaction comes from any other state, its argument `seen`. Random identifiers and tokens are
-- arguments. The texts of the failures and their HTTP status are left out, as are the errors of the
-- database engine, a cancelled context, and the primary keys of the append-only tables.
-- `unicode.ToLower`, SHA-256, HMAC-SHA256 and the argon2
-- hasher are parameters, fields of the record Service; nothing is assumed of them.
-- The file system, the paths of the operating system, the JSON of the settings and the answers of
-- the network are parameters too, fields of the records Call, Files, Outside and
-- Parsers. In Network, Config.Validate enters as its answer, since Configuration has its checks.
-- All functions are by structural recursion on lists of rows, of identifiers or of characters; the
-- decimal digits of a number have one more unit of fuel than the number, and it has fewer digits.
--
-- Not modelled: the verification and the acceptance of licenses; of libraries, the walk of the
-- directories, uploads, the writing of materialized files, the cases, the catalogs and the search; the
-- goroutines of the workers and of the network service; extraction, the HTTP interface and the
-- programs under cmd.
pub mod Base
pub mod Configuration
pub mod Domain
pub mod Identity
pub mod Libraries
pub mod Licensing
pub mod Network
