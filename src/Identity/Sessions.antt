-- ===== src/Identity/Sessions.antt =====
-- internal/identity/service.go: sessions and principals (loadRoles, LoadPrincipal, Authenticate,
-- closeSession, AuthorizedWrite, VerifyCSRF), closeUserSessions of users.go, and Logout of login.go.
pub mod Closing
pub mod Principals
pub mod Revoking
use Prim.Native.String.{len}
use mathlib.Core.Option
use expediente.Base.{
  ℕ, ◌-◌, ◌*◌, Bool, true, false, not, ◌&&◌, ◌||◌, String, String_eq, ℕ_eq, List, [], ◌∷◌, ◌++◌,
  Option, none, some, ◌==◌, leb, ltb, if◌then◌else◌, is_none, find_row, update_rows, ◌≡◌, refl, ◌≢◌,
  arith,
}
use expediente.Domain.{
  Instant, minute, Failure, Result, ok, err, ◌>>=◌, ◌>>◌, bind-eq-ok, require, require-eq-ok,
  RequestMetadata, Principal, User, can, contains, session_required, session_replaced,
  session_expired, session_revoked, forbidden, constraint,
}
use expediente.Identity.{
  no_subject, Service, Store, UserRow, SessionRow, RoleAssignment, CloseReason, Event, append_audit,
  write, text,
}

abbrev pub or_fail {ℓ} : {A : Type ℓ} → Option A → Failure → Result A
or_fail none e = err e
or_fail (some a) e = ok a

pub or_fail-eq-ok {ℓ} :
    {A : Type ℓ} (o : Option A) (e : Failure) {a : A} → or_fail o e ≡ ok a → o ≡ some a
or_fail-eq-ok none e h = cc
or_fail-eq-ok (some a) e h = cc

unfoldable pub user_by : (UserRow → Bool) → Store → Option UserRow
user_by p store = find_row p store.users

abbrev pub has_id : String → UserRow → Bool
has_id id user = user.id == id

-- The seeded global roles, and each permission with its role, both in alphabetical order as the
-- queries of `loadRoles` sort them (db/migrations/0001_identity.up.sql).
abbrev pub global_roles : List String
global_roles = "access_auditor" ∷ "installation_admin" ∷ []

abbrev pub role_permissions : List (String × String)
role_permissions =
    ("audit.read_global", "access_auditor")
    ∷ ("authentication_attempts.read", "access_auditor")
    ∷ ("backup.manage", "installation_admin")
    ∷ ("libraries.create", "installation_admin")
    ∷ ("license.manage", "installation_admin")
    ∷ ("permissions.manage_global", "installation_admin")
    ∷ ("restore.manage", "installation_admin")
    ∷ ("sessions.read_all", "access_auditor")
    ∷ ("sessions.revoke", "installation_admin")
    ∷ ("system.configure", "installation_admin")
    ∷ ("users.manage", "installation_admin")
    ∷ ("users.reset_password", "installation_admin")
    ∷ []

unfoldable pub assigned : String → List RoleAssignment → String → Bool
assigned user_id [] role_id = false
assigned user_id (r ∷ rs) role_id =
    if r.user_id == user_id && r.role_id == role_id then true else assigned user_id rs role_id

select_roles : (String → Bool) → List String → List String
select_roles held [] = []
select_roles held (role ∷ roles) =
    let rest = select_roles held roles in if held role then role ∷ rest else rest

select_permissions : (String → Bool) → List (String × String) → List String
select_permissions held [] = []
select_permissions held ((permission, role) ∷ rows) =
    let rest = select_permissions held rows in if held role then permission ∷ rest else rest

-- `loadRoles`
unfoldable pub load_roles : String → Store → List String × List String
unfolding assigned select_roles select_permissions
load_roles user_id store = (
  select_roles (assigned user_id store.roles) global_roles,
  select_permissions (assigned user_id store.roles) role_permissions,
)

-- A row of `users` as a `domain.User`, as LoadPrincipal and UserByID fill it.
unfoldable pub to_user : UserRow → Store → User
to_user row store = record {
  id = row.id;
  username = row.username;
  display_name = row.display_name;
  disabled = not (is_none row.disabled_at);
  revision = row.revision;
  created_at = row.created_at;
  role_ids = (load_roles row.id store).0;
  permissions = (load_roles row.id store).1;
}

-- SELECT … FROM sessions JOIN users … WHERE sessions.token_digest=?
abbrev pub has_token : String → SessionRow → Bool
has_token token_digest session = session.token_digest == token_digest

unfoldable pub join_user : List UserRow → Option SessionRow → Option (SessionRow × UserRow)
join_user users none = none
join_user users (some session) =
    Option.map (λ user. (session, user)) (find_row (has_id session.user_id) users)

unfoldable pub select_session : String → Store → Option (SessionRow × UserRow)
unfolding join_user
select_session token_digest store =
    join_user store.users (find_row (has_token token_digest) store.sessions)

abbrev pub idle_cutoff : Service → Instant → Instant
idle_cutoff service now = now - service.session_idle_minutes * minute

abbrev pub has_run_out : Service → Instant → SessionRow → Bool
has_run_out service now session =
    leb session.expires_at now || leb session.last_activity_at (idle_cutoff service now)

-- The checks of `LoadPrincipal` behind the query.
unfoldable pub closed_failure : CloseReason → Failure
closed_failure CloseReason.new_login = session_replaced
closed_failure CloseReason.expired = session_expired
closed_failure CloseReason.logout = session_revoked
closed_failure CloseReason.password_changed = session_revoked
closed_failure CloseReason.admin_revoked = session_revoked

unfoldable pub judge_session : Service → Instant → SessionRow → UserRow → Result (Unit {0})
unfolding closed_failure
judge_session service now session user = elim session.closed [
  | some (at, reason) ↦ err (closed_failure reason)
  | none ↦
      if not (is_none user.disabled_at)
        || not (user.credential_version == session.credential_version)
      then err session_revoked
      else if has_run_out service now session
      then err session_expired
      else ok tt
]

-- LoadPrincipal does not fill `Disabled`, which stays false.
unfoldable pub to_principal : SessionRow → UserRow → Store → Principal
to_principal session user store = record {
  user = record (to_user user store) { disabled = false };
  session_id = session.id;
  token_digest = session.token_digest;
  credential_version = session.credential_version;
  csrf_token_digest = session.csrf_token_digest;
  expires_at = session.expires_at;
}

unfoldable pub load_principal : Service → Instant → String → Store → Result Principal
load_principal service now token_digest store = do
  (session, user) ← or_fail (select_session token_digest store) session_required
  judge_session service now session user
  ok (to_principal session user store)

-- The token is accepted, and as one of the user.
unfoldable pub serves : Result Principal → String → Bool
serves (ok principal) user_id = principal.user.id == user_id
serves (err _) user_id = false

pub serves-false :
    (r : Result Principal) (user_id : String)
    → ((principal : Principal) → r ≡ ok principal → principal.user.id ≢ user_id)
    → serves r user_id ≡ false
unfolding serves
serves-false (ok principal) user_id h =
    ground (arith, String_eq.beq_iff principal.user.id user_id, h principal refl)
serves-false (err e) user_id h = refl

-- `VerifyCSRF`
unfoldable pub verify_csrf : Service → Principal → String → Bool
verify_csrf service principal value =
    not (value == "") && service.digest value == principal.csrf_token_digest

-- Who closes a session: the principal's user and session, both empty for the system.
pub record Actor : Type 0 where
  pub user_id : String
  pub session_id : String

abbrev pub no_actor : Actor
no_actor = record { user_id = ""; session_id = "" }

abbrev pub actor_of : Principal → Actor
actor_of principal = record { user_id = principal.user.id; session_id = principal.session_id }

abbrev pub is_open_session : String → SessionRow → Bool
is_open_session id session = session.id == id && is_none session.closed

abbrev pub reason_text : CloseReason → String
reason_text CloseReason.logout = "logout"
reason_text CloseReason.expired = "expired"
reason_text CloseReason.new_login = "new_login"
reason_text CloseReason.password_changed = "password_changed"
reason_text CloseReason.admin_revoked = "admin_revoked"

abbrev pub closed_as : Instant → CloseReason → SessionRow → SessionRow
closed_as now reason session = record session { closed = some (now, reason) }

abbrev pub closed_event : Actor → String → String → CloseReason → RequestMetadata → Event
closed_event actor user_id id reason metadata = record {
  event_type = "session.closed";
  subject = no_subject;
  actor_user_id = actor.user_id;
  system_actor = actor.user_id == "";
  session_id = actor.session_id;
  metadata = metadata;
  details =
      ("reason", text (reason_text reason))
      ∷ ("user_id", text user_id)
      ∷ ("closed_session_id", text id)
      ∷ [];
}

-- `closeSession`
unfoldable pub close_session :
    Instant → String → CloseReason → RequestMetadata → Actor → Store → Store
close_session now id reason metadata actor store =
    elim (find_row (is_open_session id) store.sessions) [
      | none ↦ store
      | some session ↦
          append_audit now (closed_event actor session.user_id id reason metadata) (record store {
            sessions = update_rows (is_open_session id) (closed_as now reason) store.sessions;
          })
    ]

abbrev pub is_open_of : String → SessionRow → Bool
is_open_of user_id session = session.user_id == user_id && is_none session.closed

-- SELECT id FROM sessions WHERE user_id=? AND closed_at IS NULL
unfoldable pub open_sessions : String → List SessionRow → List String
open_sessions user_id [] = []
open_sessions user_id (session ∷ sessions) =
    let rest = open_sessions user_id sessions in
    if is_open_of user_id session then session.id ∷ rest else rest

unfoldable pub close_all :
    Instant → List String → CloseReason → RequestMetadata → Actor → Store → Store
close_all now [] reason metadata actor store = store
close_all now (id ∷ ids) reason metadata actor store =
    close_all now ids reason metadata actor (close_session now id reason metadata actor store)

-- `closeUserSessions`
unfoldable pub close_user_sessions :
    Instant → String → CloseReason → RequestMetadata → Actor → Store → Store
close_user_sessions now user_id reason metadata actor store =
    close_all now (open_sessions user_id store.sessions) reason metadata actor store

-- `AuthorizedWrite`: the principal is read again inside the transaction.
unfoldable pub authorized {ℓ} :
    {A : Type ℓ}
    → Service
    → Instant
    → Principal
    → String
    → (Principal → Store → Result (A × Store))
    → Store
    → Result (A × Store)
authorized service now principal permission operation store = do
  current ← load_principal service now principal.token_digest store
  require (permission == "" || can current permission) forbidden
  operation current store

pub authorized-eq-ok {ℓ} :
    {A : Type ℓ} (service : Service) (now : Instant) (principal : Principal) (permission : String)
    (operation : Principal → Store → Result (A × Store)) (store : Store) {r : A × Store}
    → authorized service now principal permission operation store ≡ ok r
    → (current : Principal) × (load_principal service now principal.token_digest store ≡ ok current)
      × ((permission == "" || can current permission) ≡ true)
      × (operation current store ≡ ok r)
unfolding authorized
authorized-eq-ok service now principal permission operation store h =
    let (current, e, k) =
      bind-eq-ok (load_principal service now principal.token_digest store) _ h in
    let (_, a, o) =
      bind-eq-ok (require (permission == "" || can current permission) forbidden) _ k in
    (current, e, require-eq-ok (permission == "" || can current permission) forbidden a, o)

abbrev pub authorized_write {ℓ} :
    {A : Type ℓ}
    → Service
    → Instant
    → Principal
    → String
    → (Principal → Store → Result (A × Store))
    → Store
    → Result A × Store
authorized_write service now principal permission operation =
    write (authorized service now principal permission operation)

pub authorized-eq {ℓ} :
    {A : Type ℓ} (service : Service) (now : Instant) (principal : Principal) (permission : String)
    (operation : Principal → Store → Result (A × Store)) (store : Store) (current : Principal)
    → load_principal service now principal.token_digest store ≡ ok current
    → (permission == "" || can current permission) ≡ true
    → authorized service now principal permission operation store ≡ operation current store
unfolding authorized
authorized-eq service now principal permission operation store current e granted = rw (e, granted)

-- `Logout`
unfoldable pub logout :
    Service → Instant → Principal → RequestMetadata → Store → Result (Unit {0}) × Store
logout service now principal metadata = authorized_write service now principal "" λ current store.
    ok (
      tt,
      close_session now current.session_id CloseReason.logout metadata (actor_of current) store,
    )

-- The activity is written at most once a minute.
unfoldable pub touch_session : Instant → String → Store → Store
touch_session now id store = record store {
  sessions =
      update_rows (λ session. session.id == id && ltb session.last_activity_at (now - minute))
        (λ session. record session { last_activity_at = now }) store.sessions;
}

touch_transaction : Service → Instant → Principal → Store → Result (Unit {0} × Store)
touch_transaction service now principal store = do
  _ ← load_principal service now principal.token_digest store
  ok (tt, touch_session now principal.session_id store)

after_touch : Principal → Result (Unit {0}) × Store → Result Principal × Store
after_touch principal (outcome, store) = ((outcome >>= λ _. ok principal), store)

is_expired_failure : Failure → Bool
is_expired_failure session_expired = true
is_expired_failure _ = false

-- On SESSION_EXPIRED `Authenticate` closes the session that the query found.
close_expired : Instant → String → RequestMetadata → Store → Store
close_expired now token_digest metadata store = elim (select_session token_digest store) [
  | none ↦ store
  | some (session, user) ↦ close_session now session.id CloseReason.expired metadata no_actor store
]

unfoldable pub authenticate :
    Service → Instant → String → Bool → RequestMetadata → Store → Result Principal × Store
unfolding is_expired_failure close_expired touch_transaction after_touch write
authenticate service now token touch metadata store =
    if not (len token == 43)
    then (err session_required, store)
    else elim (load_principal service now (service.digest token) store) [
      | err e ↦ (
        err e,
        if is_expired_failure e
            then close_expired now (service.digest token) metadata store
            else store,
      )
      | ok principal ↦
          if touch
          then after_touch principal (write (touch_transaction service now principal) store)
          else (ok principal, store)
    ]
