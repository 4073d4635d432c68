-- ===== src/Identity.antt =====
-- internal/identity: the tables of db/migrations/0001_identity.up.sql that the service keeps, the
-- service's parameters, internal/audit/audit.go and `Database.Write`.
-- A row's random primary key is left out where nothing refers to it (attempts and audit events).
-- A use case reads the clock once, as its argument `now`; Login and ChangePassword, which hash a
-- password in between, read it twice.
pub mod Throttle
pub mod Sessions
pub mod Login
pub mod Users
pub mod Passwords
pub mod Accounts
pub mod Bootstrap
pub mod Tests
pub mod History
use Prim.Native.Char.{Char}
use expediente.Base.{
  ℕ, Bool, true, false, ◌||◌, String, List, [], ◌∷◌, ◌++◌, Option, none, some, ◌==◌, String_eq,
  if◌then◌else◌, Eq, ◌↔◌, ◌≡◌, inl, inr, arith,
}
use expediente.Domain.{Instant, Failure, Result, ok, err, Result-cases, RequestMetadata}

pub record UserRow : Type 0 where
  pub id : String
  pub username : String
  pub username_key : String
  pub display_name : String
  pub password_hash : String
  pub credential_version : ℕ
  pub revision : ℕ
  pub disabled_at : Option Instant
  pub created_at : Instant
  pub updated_at : Instant

pub data CloseReason : Type 0 where
  logout expired new_login password_changed admin_revoked : CloseReason

-- A CHECK makes `closed_at` and `close_reason` NULL together: one optional pair.
pub record SessionRow : Type 0 where
  pub id : String
  pub user_id : String
  pub token_digest : String
  pub csrf_token_digest : String
  pub credential_version : ℕ
  pub started_at : Instant
  pub last_activity_at : Instant
  pub expires_at : Instant
  pub closed : Option (Instant × CloseReason)
  pub observed_ip : String
  pub user_agent : String

pub data Scope : Type 0 where
  ip identifier : Scope

pub record ThrottleRow : Type 0 where
  pub scope : Scope
  pub key_digest : String
  pub attempt_count : ℕ
  pub window_started_at : Instant
  pub next_allowed_at : Instant

pub data Outcome : Type 0 where
  success failed rate_limited : Outcome

pub record AttemptRow : Type 0 where
  pub attempted_identifier : String
  pub user_id : Option String
  pub occurred_at : Instant
  pub observed_ip : String
  pub user_agent : String
  pub outcome : Outcome
  pub request_id : String

pub data ActorKind : Type 0 where
  by_user by_system by_anonymous : ActorKind

-- A value of the details of an event.
pub data Detail : Type 0 where
  text : String → Detail
  flag : Bool → Detail
  texts : List String → Detail
  number : ℕ → Detail

-- The library, the document and the case of an event, empty where it has none.
pub record Subject : Type 0 where
  pub library_id : String
  pub document_id : String
  pub case_id : String

abbrev pub no_subject : Subject
no_subject = record { library_id = ""; document_id = ""; case_id = "" }

pub record AuditRow : Type 0 where
  pub subject : Subject
  pub occurred_at : Instant
  pub actor_kind : ActorKind
  pub actor_user_id : Option String
  pub session_id : Option String
  pub observed_ip : Option String
  pub request_id : String
  pub event_type : String
  pub details : List (String × Detail)

pub record RoleAssignment : Type 0 where
  pub user_id : String
  pub role_id : String

pub record Store : Type 0 where
  pub users : List UserRow
  pub sessions : List SessionRow
  pub throttles : List ThrottleRow
  pub roles : List RoleAssignment
  pub attempts : List AttemptRow
  pub audit : List AuditRow
  pub bootstrap : Option (String × Instant)

pub record Config : Type 0 where
  pub session_idle_minutes : ℕ
  pub session_absolute_hours : ℕ
  pub login_window_minutes : ℕ
  pub login_identifier_limit : ℕ
  pub login_ip_limit : ℕ

-- The service, with what it takes from elsewhere: `unicode.ToLower`, SHA-256 in hexadecimal
-- (`domain.Digest`), HMAC-SHA256 in base64 under a key, and the password hasher.
pub record Service : Type 0 where
  pub config : Config
  pub open config use *
  pub lower : Char → Char
  pub digest : String → String
  pub hmac : String → String → String
  pub verify : String → String → Result Bool
  pub hash : String → Result String

-- `nullable` and `nullableUserID`: an empty text is stored as NULL.
unfoldable pub nullable : String → Option String
nullable value = if value == "" then none else some value

pub record Event : Type 0 where
  pub subject : Subject
  pub event_type : String
  pub actor_user_id : String
  pub system_actor : Bool
  pub session_id : String
  pub metadata : RequestMetadata
  pub details : List (String × Detail)

unfoldable pub actor_kind : Event → ActorKind
actor_kind event =
    if event.system_actor || event.metadata.observed_ip == "local"
    then by_system
    else if event.actor_user_id == ""
    then by_anonymous
    else by_user

-- `audit.Append`: the table is append-only, by its triggers.
unfoldable pub append_audit : Instant → Event → Store → Store
unfolding nullable actor_kind
append_audit now event store = record store { audit = store.audit ++ (row ∷ []) }
  where
    row : AuditRow
    row = record {
      occurred_at = now;
      actor_kind = actor_kind event;
      actor_user_id = elim (actor_kind event) [
        | by_user ↦ some event.actor_user_id
        | by_system ↦ none
        | by_anonymous ↦ none
      ];
      session_id = nullable event.session_id;
      observed_ip = nullable event.metadata.observed_ip;
      request_id = event.metadata.request_id;
      event_type = event.event_type;
      subject = event.subject;
      details = event.details;
    }

-- `Database.Write`: a transaction that fails leaves the database as it was.
unfoldable pub write {ℓ} :
    {State : Type 0} {A : Type ℓ} → (State → Result (A × State)) → State → Result A × State
write operation store = elim (operation store) [
  | ok (a, store') ↦ (ok a, store')
  | err e ↦ (err e, store)
]

module _ {ℓ} {State : Type 0} {A : Type ℓ} (operation : State → Result (A × State))
    (store : State) where
  pub write-ok :
      {a : A} {store' : State}
      → operation store ≡ ok (a, store')
      → write operation store ≡ (ok a, store')
  unfolding write
  write-ok e = rw (e, write)

  pub write-err : {e : Failure} → operation store ≡ err e → write operation store ≡ (err e, store)
  unfolding write
  write-err e = rw (e, write)

  pub write-eq-ok :
      {a : A} {store' : State}
      → write operation store ≡ (ok a, store')
      → operation store ≡ ok (a, store')
  unfolding write
  write-eq-ok h = elim (Result-cases (operation store)) [
    | inl (_, e) ↦ let k = rw (e, write) at h in cc
    | inr (_, e) ↦ absurd (let k = rw (e, write) at h in cc)
  ]

  -- What holds of the store, and of what the transaction makes of it, holds behind `Write`.
  pub write-keeps {κ} :
      (P : State → Type κ)
      → ((a : A) (store' : State) → operation store ≡ ok (a, store') → P store')
      → P store
      → P (write operation store).1
  unfolding write
  write-keeps P h p = elim (Result-cases (operation store)) [
    | inl ((a, store'), e) ↦ rw (e, write) (h a store' e)
    | inr (f, e) ↦ rw (e, write) p
  ]

unfoldable pub scope_beq : Scope → Scope → Bool
scope_beq ip ip = true
scope_beq identifier identifier = true
scope_beq _ _ = false

pub scope_beq_iff : (a b : Scope) → (scope_beq a b ≡ true) ↔ (a ≡ b)
unfolding scope_beq
scope_beq_iff ip b = ground arith
scope_beq_iff identifier b = ground arith

instance abbrev pub Scope_eq : Eq Scope
Scope_eq = record { beq = scope_beq; beq_iff = scope_beq_iff }
