-- ===== src/Identity/Bootstrap/First.antt =====
-- The first administrator, and a second bootstrap.
use expediente.Base.{
  refl, true, false, none, inl, inr, ap, subst, ◌≡◌, String_eq, [], ◌∷◌, ◌++◌, arith, String, List,
  count_rows, beq_refl, is_none, find_row,
}
use expediente.Identity.Sessions.{assigned, user_by}
use expediente.Identity.Users.Administrators.{HasAdmin}
use expediente.Identity.Bootstrap.{bootstrap, bootstrap_transaction, no_users, check_bootstrap}
use expediente.Domain.{
  err, Instant, ok, bind-eq-ok, require, Result-cases, bootstrap_complete, bootstrap_conflict,
  Result, require-eq-ok, ok-injective,
}
use expediente.Identity.Users.{administrators, assignments, insert_user}
use expediente.Identity.{
  UserRow, RoleAssignment, Store, append_audit, Service, write-err, write-eq-ok,
}

assigned-append :
    (user_id role_id : String) (rows : List RoleAssignment)
    → assigned user_id (rows ++ assignments user_id (role_id ∷ [])) role_id ≡ true
unfolding assigned
assigned-append user_id role_id [] = ground (arith, beq_refl user_id, beq_refl role_id)
assigned-append user_id role_id (r ∷ rows) = ground (arith, assigned-append user_id role_id rows)

no_users-eq-true : (users : List UserRow) → no_users users ≡ true → users ≡ []
unfolding no_users
no_users-eq-true [] h = refl
no_users-eq-true (_ ∷ _) h = cc

insert_user-first :
    (row : UserRow) (store : Store) {inserted : Store}
    → store.users ≡ []
    → insert_user row store ≡ ok inserted
    → (inserted.users ≡ row ∷ []) × (inserted.roles ≡ store.roles)
unfolding insert_user user_by find_row
insert_user-first row store first h =
    let k = rw (first, insert_user, user_by, find_row) at h in (cc, cc)

administrators-first :
    (row : UserRow) (store : Store) (roles : List RoleAssignment)
    → row.disabled_at ≡ none
    → store.users ≡ row ∷ []
    → store.roles ≡ roles ++ assignments row.id ("installation_admin" ∷ [])
    → HasAdmin store
unfolding HasAdmin administrators count_rows
administrators-first row store roles on users held =
    rw (users, held, on, assigned-append row.id "installation_admin" roles) (omega arith)

bootstrap_transaction-first :
    (now : Instant) (row : UserRow) (request_id : String) (store : Store) {r : Unit {0} × Store}
    → row.disabled_at ≡ none
    → bootstrap_transaction now row request_id store ≡ ok r
    → HasAdmin r.1 × (is_none r.1.bootstrap ≡ false)
unfolding bootstrap_transaction append_audit
bootstrap_transaction-first now row request_id store on h =
    let (_, _, h₁) = bind-eq-ok (require (is_none store.bootstrap) bootstrap_complete) _ h in
    let (_, b, h₂) = bind-eq-ok (require (no_users store.users) bootstrap_conflict) _ h₁ in
    let (inserted, i, h₃) = bind-eq-ok (insert_user row store) _ h₂ in
    let empty = no_users-eq-true store.users (require-eq-ok _ bootstrap_conflict b) in
    let (users, roles) = insert_user-first row store empty i in
    let made = ok-injective h₃ in
    subst (λ (p : Unit {0} × Store). HasAdmin p.1 × (is_none p.1.bootstrap ≡ false)) made
      (
        administrators-first row _ store.roles on users (
            ap (λ (rs : List RoleAssignment). rs ++ assignments row.id ("installation_admin" ∷ []))
              roles),
        refl,
      )

bootstrap_transaction-marked :
    (now : Instant) (row : UserRow) (request_id : String) (store : Store)
    → is_none store.bootstrap ≡ false
    → bootstrap_transaction now row request_id store ≡ err bootstrap_complete
unfolding bootstrap_transaction
bootstrap_transaction-marked now row request_id store marked = rw marked

-- A bootstrap that succeeds leaves an enabled administrator, and any later one, whatever it asks,
-- changes nothing.
pub bootstrap_once :
    (service : Service) (now later : Instant)
    (user_id request_id username display_name password : String)
    (user_id' request_id' username' display_name' password' : String) (store store' : Store)
    → bootstrap service now user_id request_id username display_name password store
      ≡ (ok tt, store')
    → HasAdmin store'
      × ((bootstrap service later user_id' request_id' username' display_name' password' store').1
          ≡ store')
unfolding bootstrap
bootstrap_once service now later user_id request_id username display_name password user_id'
      request_id' username' display_name' password' store store' h =
    elim (Result-cases (check_bootstrap service username display_name password)) [
      | inr (f, e) ↦ absurd (let k = rw (e, bootstrap) at h in cc)
      | inl (password_hash, e) ↦
          let k = rw (e, bootstrap) at h in
          let (admin, marked) =
            bootstrap_transaction-first now _ request_id store refl (write-eq-ok _ store k) in
          (admin, refused marked)
    ]
  where
    refused :
        is_none store'.bootstrap ≡ false
        → (bootstrap service later user_id' request_id' username' display_name' password' store').1
          ≡ store'
    refused marked =
        elim (Result-cases (check_bootstrap service username' display_name' password')) [
          | inr (f, e) ↦ rw (e, bootstrap) refl
          | inl (password_hash, e) ↦
              rw (e, bootstrap)
                (ap (λ (p : Result (Unit {0}) × Store). p.1)
                  (write-err _ store'
                    (bootstrap_transaction-marked later _ request_id' store' marked)))
        ]
