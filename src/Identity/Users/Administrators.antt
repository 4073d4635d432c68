-- ===== src/Identity/Users/Administrators.antt =====
-- The installation keeps an administrator that is enabled.
use expediente.Base.{
  ℕ, ◌<◌, Bool, true, false, ◌||◌, String, List, [], ◌∷◌, ◌++◌, Option, none, some, ◌==◌, String_eq,
  ℕ_eq, ltb, is_none, count_rows-update_rows_ge, count_rows-append, updated, ◌≡◌, refl, subst, inl,
  inr, arith, Bool-cases, leb, length, Option-cases,
}
use expediente.Domain.{
  Instant, ok, ◌>>=◌, bind-eq-ok, require, require-eq-ok, RequestMetadata, Principal, User,
  last_admin_required, username_exists, invalid_request,
}
use expediente.Identity.{Service, Store, UserRow, CloseReason, append_audit, Event}
use expediente.Identity.Sessions.{has_id, Actor, actor_of, user_by}
use expediente.Identity.Passwords.{set_password, rekeyed}
use expediente.Identity.Users.{
  administrators, is_enabled_admin, ensure_administrator, with_users, user_by_id, check_revision,
  new_name, new_disabled, updated_user, update_transaction, with_roles, bump_revision,
  roles_transaction, valid_roles, insert_user, create_transaction, read_user, revoke_transaction,
  close_if_disabled,
}
use expediente.Identity.Accounts.{SameAccounts, SameAccounts-audit, SameAccounts-close}

unfoldable pub HasAdmin : Store → Type 0
HasAdmin store = 0 < administrators store

pub HasAdmin-same :
    (store store' : Store) → SameAccounts store store' → HasAdmin store → HasAdmin store'
unfolding HasAdmin SameAccounts administrators
HasAdmin-same store store' (u, r) h = rw (u, r) h

pub HasAdmin-with_users :
    (q : UserRow → Bool) (f : UserRow → UserRow) (store : Store)
    → ((x : UserRow) → (f x).id ≡ x.id)
    → ((x : UserRow) → x.disabled_at ≡ none → (f x).disabled_at ≡ none)
    → HasAdmin store
    → HasAdmin (with_users q f store)
unfolding HasAdmin administrators
HasAdmin-with_users q f store same_id same_enabled h =
    omega (arith, h, count_rows-update_rows_ge (is_enabled_admin store) q f store.users keeps)
  where
    keeps :
        (x : UserRow)
        → is_enabled_admin store x ≡ true
        → is_enabled_admin store (updated q f x) ≡ true
    keeps x e = elim (Bool-cases (q x)) [
      | inl m ↦ rw (m, same_id x) (ground (arith, same_enabled x))
      | inr m ↦ rw m e
    ]

pub ensure-HasAdmin :
    (store : Store) {u : Unit {0}} → ensure_administrator store ≡ ok u → HasAdmin store
unfolding HasAdmin ensure_administrator
ensure-HasAdmin store h =
    ground (arith, require-eq-ok (ltb 0 (administrators store)) last_admin_required h)

HasAdmin-audit :
    (now : Instant) (event : Event) (store : Store)
    → HasAdmin store
    → HasAdmin (append_audit now event store)
HasAdmin-audit now event store = HasAdmin-same store _ (SameAccounts-audit now event store)

insert_user-HasAdmin :
    (row : UserRow) (store : Store) {inserted : Store}
    → insert_user row store ≡ ok inserted
    → HasAdmin store
    → HasAdmin inserted
unfolding HasAdmin administrators insert_user
insert_user-HasAdmin row store {inserted} h admin =
    elim (Option-cases
      (user_by (λ u. u.id == row.id || u.username_key == row.username_key) store)) [
        | inl e ↦
            subst (λ (s : Store). 0 < administrators s) (added e h)
              (omega
                (arith, admin, count_rows-append (is_enabled_admin store) store.users (row ∷ [])))
        | inr (u, e) ↦ absurd (taken u e h)
      ]
  where
    added :
        user_by (λ u. u.id == row.id || u.username_key == row.username_key) store ≡ none
        → insert_user row store ≡ ok inserted
        → record store { users = store.users ++ (row ∷ []) } ≡ inserted
    added e h = let k = rw (e, insert_user) at h in cc

    taken :
        (u : UserRow)
        → user_by (λ u. u.id == row.id || u.username_key == row.username_key) store ≡ some u
        → insert_user row store ≡ ok inserted
        → ⊥
    taken u e h = let k = rw (e, insert_user) at h in cc

-- The store behind a transaction that returns it as it stands.
pub ok-HasAdmin :
    {a : Unit {0}} (store : Store) {r : Unit {0} × Store}
    → ok (a, store) ≡ ok r
    → HasAdmin store
    → HasAdmin r.1
ok-HasAdmin store h admin = subst HasAdmin (cc) admin

module _ (service : Service) (now : Instant) (metadata : RequestMetadata)
    (current : Principal) where
  close_if_disabled-HasAdmin :
      (disable : Bool) (user_id : String) (store : Store)
      → HasAdmin store
      → HasAdmin (close_if_disabled now disable user_id metadata current store)
  unfolding close_if_disabled
  close_if_disabled-HasAdmin true user_id store h =
      HasAdmin-same store _
        (SameAccounts-close now CloseReason.admin_revoked metadata (actor_of current) user_id store)
        h
  close_if_disabled-HasAdmin false user_id store h = h

  -- The last step of a transaction: the user is read again.
  reread :
      (user_id : String) (store : Store) {r : User × Store}
      → (read_user user_id store >>= λ u. ok (u, store)) ≡ ok r
      → store ≡ r.1
  reread user_id store h = let (u, _, e) = bind-eq-ok (read_user user_id store) _ h in cc

  pub update_transaction-HasAdmin :
      (user_id : String) (expected : ℕ) (display_name : Option String) (disabled : Option Bool)
      (store : Store) {r : User × Store}
      → update_transaction service now user_id expected display_name disabled metadata current store
        ≡ ok r
      → HasAdmin r.1
  unfolding update_transaction
  update_transaction-HasAdmin user_id expected display_name disabled store h =
      let (user, _, h₁) = bind-eq-ok (user_by_id user_id store) _ h in
      let (_, _, h₂) = bind-eq-ok (check_revision user expected) _ h₁ in
      let (name, _, h₃) = bind-eq-ok (new_name user display_name) _ h₂ in
      let disable = new_disabled user disabled in
      let written = with_users (has_id user_id) (updated_user now name disable) store in
      let (_, e, h₄) = bind-eq-ok (ensure_administrator written) _ h₃ in
      subst HasAdmin (reread user_id _ h₄) (
        HasAdmin-audit now _ _
          (close_if_disabled-HasAdmin disable user_id written (ensure-HasAdmin written e)))

  pub roles_transaction-HasAdmin :
      (user_id : String) (expected : ℕ) (role_ids : List String) (store : Store) {r : User × Store}
      → roles_transaction service now user_id expected role_ids metadata current store ≡ ok r
      → HasAdmin r.1
  unfolding roles_transaction
  roles_transaction-HasAdmin user_id expected role_ids store h =
      let (user, _, h₁) = bind-eq-ok (user_by_id user_id store) _ h in
      let (_, _, h₂) = bind-eq-ok (check_revision user expected) _ h₁ in
      let (_, _, h₃) = bind-eq-ok (require (leb (length role_ids) 2) invalid_request) _ h₂ in
      let (_, _, h₄) = bind-eq-ok (require (valid_roles [] role_ids) invalid_request) _ h₃ in
      let (_, e, h₅) = bind-eq-ok (ensure_administrator (with_roles user_id role_ids store)) _ h₄ in
      subst HasAdmin (reread user_id _ h₅) (
        HasAdmin-audit now _ _ (
          HasAdmin-with_users (has_id user_id) (bump_revision now)
            (with_roles user_id role_ids store) (λ x. refl) (λ x d. d) (ensure-HasAdmin _ e)))

  pub create_transaction-HasAdmin :
      (row : UserRow) (store : Store) {r : User × Store}
      → create_transaction service now row metadata current store ≡ ok r
      → HasAdmin store
      → HasAdmin r.1
  unfolding create_transaction
  create_transaction-HasAdmin row store h admin =
      let (_, _, h₁) =
        bind-eq-ok
          (require (is_none (user_by (λ u. u.username_key == row.username_key) store))
            username_exists)
          _ h in
      let (inserted, e, h₂) = bind-eq-ok (insert_user row store) _ h₁ in
      subst HasAdmin (reread row.id _ h₂)
        (HasAdmin-audit now _ _ (insert_user-HasAdmin row store e admin))

  pub revoke_transaction-HasAdmin :
      (user_id reason : String) (store : Store) {r : Unit {0} × Store}
      → revoke_transaction now user_id reason metadata current store ≡ ok r
      → HasAdmin store
      → HasAdmin r.1
  unfolding revoke_transaction
  revoke_transaction-HasAdmin user_id reason store h admin =
      let (_, _, h₁) = bind-eq-ok (user_by_id user_id store) _ h in
      ok-HasAdmin _ h₁ (
        HasAdmin-audit now _ _ (
          HasAdmin-same store _
            (SameAccounts-close now CloseReason.admin_revoked metadata (actor_of current) user_id
              store)
            admin))

pub set_password-HasAdmin :
    (now : Instant) (user_id password_hash : String) (actor : Actor) (metadata : RequestMetadata)
    (event_type : String) (store : Store)
    → HasAdmin store
    → HasAdmin (set_password now user_id password_hash actor metadata event_type store)
unfolding set_password
set_password-HasAdmin now user_id password_hash actor metadata event_type store admin =
    HasAdmin-audit now _ _ (
      HasAdmin-same (with_users (has_id user_id) (rekeyed now password_hash) store) _
        (SameAccounts-close now CloseReason.password_changed metadata actor user_id _)
        (HasAdmin-with_users (has_id user_id) (rekeyed now password_hash) store (λ x. refl)
          (λ x d. d) admin))
