-- ===== src/Identity/Sessions/Principals.antt =====
-- Which tokens give a principal, and what revoking the sessions of a user does to them.
use mathlib.Core.Option
use expediente.Base.{
  ◌<◌, Bool, String, String_eq, ℕ_eq, List, Option, none, some, find_row, find_row-update_rows,
  find_row-append_left, ◌++◌, update_rows, updated, ◌≡◌, ◌↔◌, refl, sym, ap, ap₂, ◌∙◌, arith,
}
use expediente.Domain.{Instant, ok, ◌>>=◌, Principal, session_required, bind-eq-ok}
use expediente.Identity.{Service, Store, UserRow, SessionRow}
use expediente.Identity.Sessions.{
  or_fail, or_fail-eq-ok, has_id, has_token, join_user, select_session, judge_session,
  load_principal, to_principal, idle_cutoff,
}

-- A session that may be used, by its row and its user's.
pub record IsLive (service : Service) (now : Instant) (session : SessionRow) (user : UserRow)
    : Type 0 where
  pub is_open : session.closed ≡ none
  pub enabled : user.disabled_at ≡ none
  pub same_version : user.credential_version ≡ session.credential_version
  pub unexpired : now < session.expires_at
  pub active : idle_cutoff service now < session.last_activity_at

judge_session-IsLive :
    (service : Service) (now : Instant) (session : SessionRow) (user : UserRow)
    → judge_session service now session user ≡ ok tt
    → IsLive service now session user
unfolding judge_session
judge_session-IsLive service now session user h = ground arith

IsLive-judge_session :
    (service : Service) (now : Instant) (session : SessionRow) (user : UserRow)
    → IsLive service now session user
    → judge_session service now session user ≡ ok tt
unfolding judge_session
IsLive-judge_session service now session user h = ground arith

-- A token gives a principal exactly when its session exists with its user and is live.
pub load_principal_iff :
    (service : Service) (now : Instant) (digest : String) (store : Store) (principal : Principal)
    → (load_principal service now digest store ≡ ok principal) ↔ (
        (session : SessionRow) × (user : UserRow) × (select_session digest store
          ≡ some (session, user))
        × IsLive service now session user
        × (principal ≡ to_principal session user store))
unfolding load_principal
load_principal_iff service now digest store principal = (forth, back)
  where
    forth :
        load_principal service now digest store ≡ ok principal
        → (session : SessionRow) × (user : UserRow) × (select_session digest store
            ≡ some (session, user))
          × IsLive service now session user
          × (principal ≡ to_principal session user store)
    forth h =
        let (found, e, checked) =
          bind-eq-ok (or_fail (select_session digest store) session_required)
            (λ (r : SessionRow × UserRow).
              judge_session service now r.0 r.1 >>= λ _. ok (to_principal r.0 r.1 store))
            h in
        let (_, live, last) =
          bind-eq-ok (judge_session service now found.0 found.1)
            (λ _. ok (to_principal found.0 found.1 store)) checked in
        (
          found.0,
          found.1,
          or_fail-eq-ok _ _ e,
          judge_session-IsLive service now found.0 found.1 live,
          cc last,
        )

    back :
        ((session : SessionRow) × (user : UserRow) × (select_session digest store
            ≡ some (session, user))
          × IsLive service now session user
          × (principal ≡ to_principal session user store))
        → load_principal service now digest store ≡ ok principal
    back (session, user, e, live, p) =
        rw (e, load_principal)
          (rw (IsLive-judge_session service now session user live, ◌>>=◌, load_principal)
            (ap ok (sym p)))

-- The rows that a query by token reads after an UPDATE of sessions that keeps tokens and users.
module _ (q : SessionRow → Bool) (f : SessionRow → SessionRow)
    (same : (row : SessionRow)
      → ((f row).token_digest ≡ row.token_digest) × ((f row).user_id ≡ row.user_id)) where
  abbrev both : SessionRow × UserRow → SessionRow × UserRow
  both (session, user) = (updated q f session, user)

  join_user-update :
      (users : List UserRow) (o : Option SessionRow)
      → join_user users (Option.map (updated q f) o) ≡ Option.map both (join_user users o)
  unfolding join_user
  join_user-update users none = refl
  join_user-update users (some session) =
      let kept : (updated q f session).user_id ≡ session.user_id = ground (arith, same session) in
      rw kept (paired (find_row (has_id session.user_id) users))
    where
      paired :
          (o : Option UserRow)
          → Option.map (λ user. (updated q f session, user)) o
            ≡ Option.map both (Option.map (λ user. (session, user)) o)
      paired none = refl
      paired (some user) = refl

  pub select_session-update :
      (digest : String) (store store' : Store)
      → store'.users ≡ store.users
      → store'.sessions ≡ update_rows q f store.sessions
      → select_session digest store' ≡ Option.map both (select_session digest store)
  unfolding select_session
  select_session-update digest store store' u e =
      ap₂ join_user u (
        ap (find_row (has_token digest)) e
        ∙ find_row-update_rows (has_token digest) q f store.sessions keeps)
      ∙ join_user-update store.users _
    where
      keeps : (row : SessionRow) → has_token digest (updated q f row) ≡ has_token digest row
      keeps row = ground (arith, same row)

-- New sessions at the end of the table do not hide the old ones.
join_user-some :
    (users : List UserRow) (o : Option SessionRow) {p : SessionRow × UserRow}
    → join_user users o ≡ some p
    → (session : SessionRow) × (o ≡ some session)
unfolding join_user
join_user-some users none h = cc
join_user-some users (some session) h = (session, refl)

pub select_session-append :
    (digest : String) (store store' : Store) (rows : List SessionRow) {p : SessionRow × UserRow}
    → store'.users ≡ store.users
    → store'.sessions ≡ store.sessions ++ rows
    → select_session digest store ≡ some p
    → select_session digest store' ≡ some p
unfolding select_session
select_session-append digest store store' rows u s e =
    let (session, found) = join_user-some store.users _ e in
    ap₂ join_user u (
      ap (find_row (has_token digest)) s
      ∙ find_row-append_left (has_token digest) store.sessions rows found
      ∙ sym found)
    ∙ e
