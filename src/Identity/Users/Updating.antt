-- ===== src/Identity/Users/Updating.antt =====
-- What an UPDATE of one user does to the queries by identifier and by token.
use mathlib.Core.Option
use expediente.Base.{
  refl, none, some, true, false, inl, inr, ap, sym, subst, ◌∙◌, String, ◌≡◌, updated, Bool-cases,
  ◌≢◌, Option, arith, find_row, String_eq, find_row_sound, find_row-update_rows, is_none,
}
use expediente.Identity.Sessions.{
  user_by, select_session, join_user, load_principal, has_id, has_token, to_principal, to_user,
}
use expediente.Identity.{Service, UserRow, Store, SessionRow}
use expediente.Identity.Users.{with_users}
use expediente.Domain.{Instant, ok, Principal}
use expediente.Identity.Sessions.Principals.{load_principal_iff}

-- The row that has the identifier after an update of the rows that have it.
pub user_by-with_users :
    (id : String) (f : UserRow → UserRow) (store : Store)
    → ((x : UserRow) → (f x).id ≡ x.id)
    → user_by (has_id id) (with_users (has_id id) f store)
      ≡ Option.map f (user_by (has_id id) store)
unfolding user_by
user_by-with_users id f store same =
    find_row-update_rows (has_id id) (has_id id) f store.users kept
    ∙ found (find_row (has_id id) store.users) refl
  where
    kept : (x : UserRow) → has_id id (updated (has_id id) f x) ≡ has_id id x
    kept x = elim (Bool-cases (has_id id x)) [ inl e ↦ rw (e, same x) e | inr e ↦ rw (e) e ]

    found :
        (o : Option UserRow)
        → find_row (has_id id) store.users ≡ o
        → Option.map (updated (has_id id) f) o ≡ Option.map f o
    found none e = refl
    found (some x) e = rw (find_row_sound (has_id id) store.users e)

-- An update of one user leaves the sessions of the others with their users.
pub select_session-with_users :
    (id digest : String) (f : UserRow → UserRow) (store : Store) (session : SessionRow)
    (user : UserRow)
    → ((x : UserRow) → (f x).id ≡ x.id)
    → select_session digest store ≡ some (session, user)
    → session.user_id ≢ id
    → select_session digest (with_users (has_id id) f store) ≡ some (session, user)
unfolding select_session join_user
select_session-with_users id digest f store session user same e other =
    joined (find_row (has_token digest) store.sessions) e
  where
    apart : (x : UserRow) → has_id session.user_id x ≡ true → has_id id x ≡ false
    apart x h =
        ground (arith, other, String_eq.beq_iff x.id id, String_eq.beq_iff x.id session.user_id)

    kept :
        (x : UserRow) → has_id session.user_id (updated (has_id id) f x) ≡ has_id session.user_id x
    kept x = elim (Bool-cases (has_id id x)) [ inl h ↦ rw (h, same x) | inr h ↦ rw h ]

    unchanged :
        (o : Option UserRow)
        → find_row (has_id session.user_id) store.users ≡ o
        → Option.map (updated (has_id id) f) o ≡ o
    unchanged none h = refl
    unchanged (some x) h = rw (apart x (find_row_sound (has_id session.user_id) store.users h))

    looked_up :
        find_row (has_id session.user_id) (with_users (has_id id) f store).users
        ≡ find_row (has_id session.user_id) store.users
    looked_up =
        find_row-update_rows (has_id session.user_id) (has_id id) f store.users kept
        ∙ unchanged (find_row (has_id session.user_id) store.users) refl

    first :
        (s : SessionRow) (o : Option UserRow)
        → Option.map {B = SessionRow × UserRow} (λ u. (s, u)) o ≡ some (session, user)
        → s ≡ session
    first s none h = cc
    first s (some u) h = cc

    joined :
        (o : Option SessionRow)
        → join_user store.users o ≡ some (session, user)
        → join_user (with_users (has_id id) f store).users o ≡ some (session, user)
    joined none h = h
    joined (some s) h =
        let own : s ≡ session = first s (find_row (has_id s.user_id) store.users) h in
        ap (Option.map {B = SessionRow × UserRow} (λ u. (s, u))) (
          subst
            (λ (t : SessionRow).
              find_row (has_id t.user_id) (with_users (has_id id) f store).users
              ≡ find_row (has_id t.user_id) store.users)
            (sym own) looked_up)
        ∙ h

-- The user that the query by token returns is the one of the query by identifier.
pub select_session-row :
    (digest : String) (store : Store) (session : SessionRow) (user : UserRow)
    → select_session digest store ≡ some (session, user)
    → user_by (has_id user.id) store ≡ some user
unfolding select_session join_user user_by
select_session-row digest store session user e =
    joined (find_row (has_token digest) store.sessions) e
  where
    matched :
        (s : SessionRow) (o : Option UserRow)
        → find_row (has_id s.user_id) store.users ≡ o
        → Option.map {B = SessionRow × UserRow} (λ u. (s, u)) o ≡ some (session, user)
        → find_row (has_id user.id) store.users ≡ some user
    matched s none f h = absurd (cc)
    matched s (some u) f h =
        let same : u ≡ user = cc in
        let own : s.user_id ≡ u.id = sym (
          (String_eq.beq_iff u.id s.user_id).0 (find_row_sound (has_id s.user_id) store.users f)) in
        subst (λ (v : UserRow). find_row (has_id v.id) store.users ≡ some v) same
          (subst (λ (i : String). find_row (has_id i) store.users ≡ some u) own f)

    joined :
        (o : Option SessionRow)
        → join_user store.users o ≡ some (session, user)
        → find_row (has_id user.id) store.users ≡ some user
    joined none h = absurd (cc)
    joined (some s) h = matched s (find_row (has_id s.user_id) store.users) refl h

-- No token gives a principal of a user whose row is disabled.
pub disabled_user_refused :
    (service : Service) (now : Instant) (digest : String) (store : Store) (row : UserRow)
    (principal : Principal) (user_id : String)
    → user_by (has_id user_id) store ≡ some row
    → is_none row.disabled_at ≡ false
    → load_principal service now digest store ≡ ok principal
    → principal.user.id ≢ user_id
unfolding to_principal to_user
disabled_user_refused service now digest store row principal user_id found off h mine =
    let (session, user, e, live, p) = (load_principal_iff service now digest store principal).0 h in
    let own : user.id ≡ user_id = sym (ap (λ (q : Principal). q.user.id) p) ∙ mine in
    let same : some user ≡ some row =
      sym (select_session-row digest store session user e)
      ∙ ap (λ i. user_by (has_id i) store) own
      ∙ found in
    let row_same : user ≡ row = cc in
    ground (arith, off, ap (λ (r : UserRow). is_none r.disabled_at) row_same, live.enabled)
