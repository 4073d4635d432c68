-- ===== src/Identity/Passwords/LockOut.antt =====
-- What a new password does to the user's row and to the sessions.
use mathlib.Core.Option
use expediente.Base.{
  ◌+◌, Option, refl, some, false, ap, sym, ◌∙◌, String, ◌≡◌, ◌≢◌, List, find_row, String_eq,
}
use expediente.Identity.Sessions.{
  user_by, select_session, Actor, load_principal, has_id, close_user_sessions, serves,
}
use expediente.Identity.{append_audit, Service, UserRow, Store, SessionRow, CloseReason}
use expediente.Identity.Users.{with_users}
use expediente.Identity.Passwords.{set_password, rekeyed}
use expediente.Identity.Sessions.Closing.{Distinct, close_user_sessions-rest}
use expediente.Identity.Sessions.Revoking.{
  load_principal-same, close_user_sessions_revokes, close_user_sessions_keeps,
}
use expediente.Identity.Users.Updating.{user_by-with_users, select_session-with_users}
use expediente.Domain.{Instant, RequestMetadata, Principal, Result}

-- The row of a user whose password was set: the new hash and the next credential version and revision,
-- and no other change but the time of the update.
pub record Rekeyed (now : Instant) (password_hash : String) (user : UserRow)
    (found : Option UserRow) : Type 0 where
  pub row : UserRow
  pub row_found : found ≡ some row
  pub new_hash : row.password_hash ≡ password_hash
  pub next_version : row.credential_version ≡ user.credential_version + 1
  pub next_revision : row.revision ≡ user.revision + 1
  pub updated : row.updated_at ≡ now
  pub same_id : row.id ≡ user.id
  pub same_username : row.username ≡ user.username
  pub same_key : row.username_key ≡ user.username_key
  pub same_name : row.display_name ≡ user.display_name
  pub same_state : row.disabled_at ≡ user.disabled_at

module _ (service : Service) (now : Instant) (user_id password_hash : String) (actor : Actor)
    (metadata : RequestMetadata) (event_type : String) (store : Store) where
  abbrev keyed : Store
  keyed = with_users (has_id user_id) (rekeyed now password_hash) store

  closed : Store
  closed = close_user_sessions now user_id CloseReason.password_changed metadata actor keyed

  audited :
      (later : Instant) (digest : String)
      → load_principal service later digest
          (set_password now user_id password_hash actor metadata event_type store)
        ≡ load_principal service later digest closed
  unfolding set_password append_audit closed
  audited later digest =
      load_principal-same service later digest closed
        (set_password now user_id password_hash actor metadata event_type store) refl
        (unfold select_session in refl)

  rekeyed_row :
      (user_by
        (has_id user_id)
        (set_password now user_id password_hash actor metadata event_type store))
      ≡ Option.map (rekeyed now password_hash) (user_by (has_id user_id) store)
  unfolding set_password append_audit user_by closed
  rekeyed_row =
      ap (λ (users : List UserRow). find_row (has_id user_id) users)
        (close_user_sessions-rest now CloseReason.password_changed metadata actor user_id
          keyed).users
      ∙ user_by-with_users user_id (rekeyed now password_hash) store λ x. refl

  -- If there is a user with the identifier, and no two sessions have one identifier, the row of the
  -- user has behind `setPassword` the new hash, the next credential version and the next revision,
  -- with the same identifier, names and disabling as before, and no token is accepted as one of that
  -- user, at any time.
  pub set_password_locks_out :
      (later : Instant) (digest : String) (user : UserRow)
      → user_by (has_id user_id) store ≡ some user
      → Distinct store.sessions
      → let store' = set_password now user_id password_hash actor metadata event_type store in
        Rekeyed now password_hash user (user_by (has_id user_id) store')
        × (serves (load_principal service later digest store') user_id ≡ false)
  unfolding closed
  set_password_locks_out later digest user found distinct = (
    record {
      row = rekeyed now password_hash user;
      row_found = rekeyed_row ∙ ap (Option.map (rekeyed now password_hash)) found;
      new_hash = refl;
      next_version = refl;
      next_revision = refl;
      updated = refl;
      same_id = refl;
      same_username = refl;
      same_key = refl;
      same_name = refl;
      same_state = refl;
    },
    ap (λ (r : Result Principal). serves r user_id) (audited later digest)
        ∙ close_user_sessions_revokes service now later CloseReason.password_changed metadata actor
            user_id digest keyed distinct,
  )

  -- If no two sessions have one identifier, `setPassword` leaves the other users in: a token of
  -- another user's session is answered, at any time, as it would have been.
  pub set_password_keeps_others :
      (later : Instant) (digest : String) (session : SessionRow) (user : UserRow)
      → Distinct store.sessions
      → select_session digest store ≡ some (session, user)
      → session.user_id ≢ user_id
      → load_principal service later digest
          (set_password now user_id password_hash actor metadata event_type store)
        ≡ load_principal service later digest store
  unfolding closed
  set_password_keeps_others later digest session user distinct e other =
      let same =
        select_session-with_users user_id digest (rekeyed now password_hash) store session user
          (λ x. refl) e other in
      audited later digest
      ∙ close_user_sessions_keeps service now later CloseReason.password_changed metadata actor
          user_id digest keyed session user distinct same other
      ∙ load_principal-same service later digest store keyed refl (same ∙ sym e)
