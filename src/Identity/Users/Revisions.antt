-- ===== src/Identity/Users/Revisions.antt =====
-- The revisions of a user: what UpdateUser does, and a second change under the same revision.
use mathlib.Core.Option
use expediente.Base.{
  if◌then◌else◌, refl, none, some, true, false, inl, inr, ap, sym, subst, ◌∙◌, ◌≡◌, String, ℕ, leb,
  Option, Bool-cases, ◌≢◌, Bool, ℕ_eq, arith, ◌+◌, is_none, not, update_rows, find_row,
}
use expediente.Identity.{Service, UserRow, Store, append_audit, CloseReason, write-eq-ok, write-err}
use expediente.Identity.Users.{
  check_revision, update_transaction, user_by_id, with_users, updated_user, new_name, read_user,
  new_disabled, ensure_administrator, close_if_disabled, updated_event, update_user,
}
use expediente.Domain.{
  require-eq-ok, bind-eq-ok, ok-injective, not_found, Instant, RequestMetadata, ok, err, User,
  Principal, version_conflict, can,
}
use expediente.Identity.Sessions.{
  or_fail-eq-ok, actor_of, authorized-eq-ok, user_by, has_id, load_principal, authorized-eq,
  to_user, serves, serves-false,
}
use expediente.Identity.Sessions.Closing.{close_user_sessions-rest}
use expediente.Identity.Users.Updating.{user_by-with_users, disabled_user_refused}

-- What a successful transaction of UpdateUser read and made.
check_revision-eq-ok :
    (row : UserRow) (expected : ℕ) {u : Unit {0}}
    → check_revision row expected ≡ ok u
    → (leb 1 expected ≡ true) × (row.revision ≡ expected)
unfolding check_revision
check_revision-eq-ok row expected h = elim (Bool-cases (leb 1 expected)) [
  | inl e ↦
      let k = rw e at h in
      (e, (ℕ_eq.beq_iff row.revision expected).0 (require-eq-ok _ version_conflict k))
  | inr e ↦ absurd (let k = rw e at h in cc)
]

-- A revision that is not the row's is refused, whatever else is asked.
check_revision-conflict :
    (row : UserRow) (expected : ℕ)
    → leb 1 expected ≡ true
    → row.revision ≢ expected
    → check_revision row expected ≡ err version_conflict
unfolding check_revision
check_revision-conflict row expected e other =
    rw (e) (ground (arith, ℕ_eq.beq_iff row.revision expected))

module _ (service : Service) (now : Instant) (user_id : String) (expected : ℕ)
    (display_name : Option String) (disabled : Option Bool) (metadata : RequestMetadata)
    (current : Principal) (store : Store) where
  abbrev written : String → Bool → Store
  written name disable = with_users (has_id user_id) (updated_user now name disable) store

  -- What a successful transaction of UpdateUser read and made.
  record Made (user : User) (store' : Store) : Type 0 where
    row : UserRow
    name : String
    disable : Bool
    is_set : disable ≡ new_disabled row disabled
    found : user_by (has_id user_id) store ≡ some row
    at_revision : row.revision ≡ expected
    checked : leb 1 expected ≡ true
    made :
        store'
        ≡ append_audit now
            (updated_event user_id disable current metadata)
            (close_if_disabled now disable user_id metadata current (written name disable))
    read : read_user user_id store' ≡ ok user

  update_transaction-Made :
      {user : User} {store' : Store}
      → update_transaction service now user_id expected display_name disabled metadata current store
        ≡ ok (user, store')
      → Made user store'
  unfolding update_transaction user_by_id
  update_transaction-Made {user} {store'} h =
      let (row, f, h₁) = bind-eq-ok (user_by_id user_id store) _ h in
      let (_, c, h₂) = bind-eq-ok (check_revision row expected) _ h₁ in
      let (name, _, h₃) = bind-eq-ok (new_name row display_name) _ h₂ in
      let disable = new_disabled row disabled in
      let written = with_users (has_id user_id) (updated_user now name disable) store in
      let (_, e, h₄) = bind-eq-ok (ensure_administrator written) _ h₃ in
      let closed = close_if_disabled now disable user_id metadata current written in
      let audited = append_audit now (updated_event user_id disable current metadata) closed in
      let (u, r, h₅) = bind-eq-ok (read_user user_id audited) _ h₄ in
      let checked = check_revision-eq-ok row expected c in
      let same : (u, audited) ≡ (user, store') = ok-injective h₅ in
      record {
        row = row;
        name = name;
        disable = disable;
        is_set = refl;
        found = or_fail-eq-ok (user_by (has_id user_id) store) not_found f;
        at_revision = checked.1;
        checked = checked.0;
        made = sym (ap (λ (p : User × Store). p.1) same);
        read = subst (λ (p : User × Store). read_user user_id p.1 ≡ ok p.0) same r;
      }

close_if_disabled-users :
    (now : Instant) (disable : Bool) (user_id : String) (metadata : RequestMetadata)
    (current : Principal) (store : Store)
    → (close_if_disabled now disable user_id metadata current store).users ≡ store.users
unfolding close_if_disabled
close_if_disabled-users now true user_id metadata current store =
    (close_user_sessions-rest now CloseReason.admin_revoked metadata (actor_of current) user_id
      store).users
close_if_disabled-users now false user_id metadata current store = refl

module _ (service : Service) (now : Instant) (principal : Principal) (user_id : String)
    (expected : ℕ) (display_name : Option String) (disabled : Option Bool)
    (metadata : RequestMetadata) (store : Store) {user : User} {store' : Store}
    (updates : update_user service now principal user_id expected display_name disabled metadata
        store
      ≡ (ok user, store')) where
  made :
      (current : Principal) × Made service now user_id expected display_name disabled metadata
        current store user store'
  unfolding update_user
  made =
      let h = write-eq-ok _ store updates in
      let (current, _, _, k) = authorized-eq-ok service now principal "users.manage" _ store h in
      (
        current,
        update_transaction-Made service now user_id expected display_name disabled metadata current
            store k,
      )

  -- The row of the user in the store that the update made.
  row_after :
      (row : UserRow) × (user_by (has_id user_id) store' ≡ some row)
      × (row.revision ≡ expected + 1)
      × (is_none row.disabled_at ≡ not made.1.disable)
  unfolding append_audit user_by
  row_after =
      let m = made.1 in
      let users : store'.users
          ≡ update_rows (has_id user_id) (updated_user now m.name m.disable) store.users =
        ap (λ (s : Store). s.users) m.made
        ∙ close_if_disabled-users now m.disable user_id metadata made.0 _ in
      (
        updated_user now m.name m.disable m.row,
        ap (find_row (has_id user_id)) users
            ∙ user_by-with_users user_id (updated_user now m.name m.disable) store (λ x. refl)
            ∙ ap (Option.map (updated_user now m.name m.disable)) m.found,
        ap (λ n. n + 1) m.at_revision,
        is_none_disabled m.disable,
      )
    where
      is_none_disabled : (b : Bool) → is_none {A = Instant} (if b then some now else none) ≡ not b
      is_none_disabled true = refl
      is_none_disabled false = refl

-- Two changes under one revision: behind a successful UpdateUser, another UpdateUser of the same
-- user with the same expected revision, by anyone whose token is accepted and who may manage
-- users, at any time and whatever it asks, is refused with VERSION_CONFLICT and changes nothing.
pub update_user_conflict :
    (service : Service) (now later : Instant) (principal second : Principal) (user_id : String)
    (expected : ℕ) (display_name display_name' : Option String) (disabled disabled' : Option Bool)
    (metadata metadata' : RequestMetadata) (store store' : Store) (user : User)
    (current : Principal)
    → update_user service now principal user_id expected display_name disabled metadata store
      ≡ (ok user, store')
    → load_principal service later second.token_digest store' ≡ ok current
    → can current "users.manage" ≡ true
    → update_user service later second user_id expected display_name' disabled' metadata' store'
      ≡ (err version_conflict, store')
unfolding update_user update_transaction user_by_id
update_user_conflict service now later principal second user_id expected display_name display_name'
      disabled disabled' metadata metadata' store store' user current updates loads granted =
    let (row, found, revision, _) =
      row_after service now principal user_id expected display_name disabled metadata store
        updates in
    let checked =
      (made service now principal user_id expected display_name disabled metadata store
        updates).1.checked in
    let differs : row.revision ≢ expected = λ e. omega (arith, e, revision) in
    write-err _ store' (
      authorized-eq service later second "users.manage"
        (update_transaction service later user_id expected display_name' disabled' metadata') store'
        current loads (granted)
      ∙ rw (found, check_revision-conflict row expected checked differs))

read_user-row :
    (user_id : String) (store : Store) {row : UserRow} {user : User}
    → user_by (has_id user_id) store ≡ some row
    → read_user user_id store ≡ ok user
    → to_user row store ≡ user
unfolding user_by_id
read_user-row user_id store found h = ok-injective (rw found at h)

-- Disabling a user that succeeds returns the user as disabled, at the next revision, and from then
-- on, at any time, no token is accepted as one of that user.
pub update_user_disables :
    (service : Service) (now later : Instant) (principal : Principal) (user_id : String)
    (expected : ℕ) (display_name : Option String) (metadata : RequestMetadata)
    (store store' : Store) (user : User) (digest : String)
    → update_user service now principal user_id expected display_name (some true) metadata store
      ≡ (ok user, store')
    → (user.disabled ≡ true)
      × (user.revision ≡ expected + 1)
      × (serves (load_principal service later digest store') user_id ≡ false)
unfolding to_user new_disabled
update_user_disables service now later principal user_id expected display_name metadata store store'
      user digest updates =
    let (row, found, revision, off) =
      row_after service now principal user_id expected display_name (some true) metadata store
        updates in
    let m =
      (made service now principal user_id expected display_name (some true) metadata store
        updates).1 in
    let on : is_none row.disabled_at ≡ false = off ∙ ap not m.is_set in
    let shown : to_user row store' ≡ user = read_user-row user_id store' found m.read in
    (
      sym (ap (λ (u : User). u.disabled) shown) ∙ ap not on,
      sym (ap (λ (u : User). u.revision) shown) ∙ revision,
      serves-false _ user_id
          (λ gives. disabled_user_refused service later digest store' row gives user_id found on),
    )
