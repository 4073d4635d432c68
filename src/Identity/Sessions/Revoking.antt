-- ===== src/Identity/Sessions/Revoking.antt =====
-- What revoking the sessions of a user does to the tokens.
use mathlib.Core.Option
use expediente.Base.{
  false, String, String_eq, Option, none, some, find_row, find_row_sound, updated, ◌≡◌, ◌≢◌, refl,
  sym, ap, ◌∙◌, arith,
}
use expediente.Domain.{Instant, ok, ◌>>=◌, RequestMetadata, Principal, session_required}
use expediente.Identity.{Service, Store, UserRow, SessionRow, CloseReason}
use expediente.Identity.Sessions.{
  or_fail, has_id, has_token, join_user, select_session, judge_session, load_principal,
  to_principal, to_user, load_roles, is_open_of, closed_as, Actor, close_user_sessions, serves,
  serves-false,
}
use expediente.Identity.Sessions.Closing.{
  Distinct, close_user_sessions-sessions, close_user_sessions-rest,
}
use expediente.Identity.Sessions.Principals.{load_principal_iff, select_session-update}

-- What a principal is made of, besides the two rows, is the table of roles.
to_principal-roles :
    (session : SessionRow) (user : UserRow) (store store' : Store)
    → store'.roles ≡ store.roles
    → to_principal session user store' ≡ to_principal session user store
unfolding to_principal to_user load_roles
to_principal-roles session user store store' h = rw h

pub load_principal-same :
    (service : Service) (now : Instant) (digest : String) (store store' : Store)
    → store'.roles ≡ store.roles
    → select_session digest store' ≡ select_session digest store
    → load_principal service now digest store' ≡ load_principal service now digest store
unfolding load_principal
load_principal-same service now digest store store' r e =
    rw (e, load_principal) (judged (select_session digest store))
  where
    judged :
        (o : Option (SessionRow × UserRow))
        → (or_fail o session_required >>= λ p.
            judge_session service now p.0 p.1 >>= λ _. ok (to_principal p.0 p.1 store'))
          ≡ (or_fail o session_required >>= λ p.
              judge_session service now p.0 p.1 >>= λ _. ok (to_principal p.0 p.1 store))
    judged none = refl
    judged (some (session, user)) = rw (to_principal-roles session user store store' r)

-- The user of a principal is the user of its session.
pub select_session-user :
    (digest : String) (store : Store) (session : SessionRow) (user : UserRow)
    → select_session digest store ≡ some (session, user)
    → user.id ≡ session.user_id
unfolding select_session
select_session-user digest store session user e =
    joined (find_row (has_token digest) store.sessions) e
  where
    matched :
        (s : SessionRow) (o : Option UserRow)
        → find_row (has_id s.user_id) store.users ≡ o
        → Option.map {B = SessionRow × UserRow} (λ u. (s, u)) o ≡ some (session, user)
        → user.id ≡ session.user_id
    matched s none f h = cc
    matched s (some u) f h =
        ground
          (arith, find_row_sound (has_id s.user_id) store.users f, String_eq.beq_iff u.id s.user_id)

    joined :
        (o : Option SessionRow)
        → join_user store.users o ≡ some (session, user)
        → user.id ≡ session.user_id
    joined none h = unfold join_user in cc
    joined (some s) h =
        matched s (find_row (has_id s.user_id) store.users) refl (unfold join_user in h)

module _ (now : Instant) (reason : CloseReason) (metadata : RequestMetadata) (actor : Actor)
    (user_id : String) (store : Store) (distinct : Distinct store.sessions) where
  revoked : Store
  revoked = close_user_sessions now user_id reason metadata actor store

  closed_pair : SessionRow × UserRow → SessionRow × UserRow
  closed_pair (session, user) = (updated (is_open_of user_id) (closed_as now reason) session, user)

  select_session-revoked :
      (digest : String)
      → select_session digest revoked ≡ Option.map closed_pair (select_session digest store)
  unfolding revoked closed_pair
  select_session-revoked digest =
      select_session-update (is_open_of user_id) (closed_as now reason) (λ row. (refl, refl)) digest
        store revoked (close_user_sessions-rest now reason metadata actor user_id store).users
        (close_user_sessions-sessions now reason metadata actor user_id store distinct)

  -- A row of the user is not open any more.
  closed_pair-closed :
      (session : SessionRow) (user : UserRow)
      → session.user_id ≡ user_id
      → (closed_pair (session, user)).0.closed ≢ none
  unfolding closed_pair
  closed_pair-closed session user mine h = ground (arith, String_eq.beq_iff session.user_id user_id)

  closed_pair-user :
      (session : SessionRow) (user : UserRow)
      → (closed_pair (session, user)).0.user_id ≡ session.user_id
  unfolding closed_pair
  closed_pair-user session user = ground arith

  closed_pair-apart :
      (session : SessionRow) (user : UserRow)
      → session.user_id ≢ user_id
      → closed_pair (session, user) ≡ (session, user)
  unfolding closed_pair
  closed_pair-apart session user other = ground (arith, String_eq.beq_iff session.user_id user_id)

  revoked-refuses :
      (service : Service) (later : Instant) (digest : String) (principal : Principal)
      → load_principal service later digest revoked ≡ ok principal
      → principal.user.id ≢ user_id
  unfolding to_principal to_user
  revoked-refuses service later digest principal h mine =
      let (session, user, e, live, p) =
        (load_principal_iff service later digest revoked principal).0 h in
      was (select_session digest store) refl session user (sym (select_session-revoked digest) ∙ e)
        live.is_open
        (sym (select_session-user digest revoked session user e)
          ∙ sym (ap (λ (q : Principal). q.user.id) p)
          ∙ mine)
    where
      was :
          (o : Option (SessionRow × UserRow))
          → select_session digest store ≡ o
          → (session : SessionRow) (user : UserRow)
          → Option.map closed_pair o ≡ some (session, user)
          → session.closed ≡ none
          → session.user_id ≡ user_id
          → ⊥
      was none f session user h open_still own = cc
      was (some (s, u)) f session user h open_still own =
          let same : (closed_pair (s, u)).0 ≡ session = cc h in
          closed_pair-closed s u
            (sym (closed_pair-user s u) ∙ ap (λ (r : SessionRow). r.user_id) same ∙ own)
            (ap (λ (r : SessionRow). r.closed) same ∙ open_still)

  revoked-keeps :
      (service : Service) (later : Instant) (digest : String) (session : SessionRow)
      (user : UserRow)
      → select_session digest store ≡ some (session, user)
      → session.user_id ≢ user_id
      → load_principal service later digest revoked ≡ load_principal service later digest store
  unfolding revoked
  revoked-keeps service later digest session user e other =
      load_principal-same service later digest store revoked
        (close_user_sessions-rest now reason metadata actor user_id store).roles
        (select_session-revoked digest
          ∙ ap (Option.map closed_pair) e
          ∙ ap some (closed_pair-apart session user other)
          ∙ sym e)

-- If no two sessions have one identifier, no token is accepted as one of the user, at any time,
-- after closeUserSessions of that user.
pub close_user_sessions_revokes :
    (service : Service) (now later : Instant) (reason : CloseReason) (metadata : RequestMetadata)
    (actor : Actor) (user_id digest : String) (store : Store)
    → Distinct store.sessions
    → serves
        (load_principal service later digest
          (close_user_sessions now user_id reason metadata actor store))
        user_id
      ≡ false
unfolding revoked
close_user_sessions_revokes service now later reason metadata actor user_id digest store distinct =
    serves-false _ user_id
      (revoked-refuses now reason metadata actor user_id store distinct service later digest)

-- If no two sessions have one identifier, a token of another user's session is answered, after
-- closeUserSessions and at any time, as it would have been.
pub close_user_sessions_keeps :
    (service : Service) (now later : Instant) (reason : CloseReason) (metadata : RequestMetadata)
    (actor : Actor) (user_id digest : String) (store : Store) (session : SessionRow)
    (user : UserRow)
    → Distinct store.sessions
    → select_session digest store ≡ some (session, user)
    → session.user_id ≢ user_id
    → load_principal service later digest
        (close_user_sessions now user_id reason metadata actor store)
      ≡ load_principal service later digest store
unfolding revoked
close_user_sessions_keeps service now later reason metadata actor user_id digest store session user
      distinct =
    revoked-keeps now reason metadata actor user_id store distinct service later digest session user
