-- ===== src/Identity/Login/Opening.antt =====
-- A login with the right password.
use mathlib.Core.Option
use expediente.Base.{
  ◌<◌, true, false, String, String_eq, ℕ_eq, List, [], ◌∷◌, ◌++◌, none, some, find_row,
  find_row-none, find_row-append, find_row_sound, All, All-map, ◌≡◌, ◌≢◌, refl, ap, ◌∙◌, arith,
  beq_refl,
}
use expediente.Domain.{Instant, ok, err, ◌>>=◌, RequestMetadata, Principal}
use expediente.Identity.{Service, Store, UserRow, SessionRow, CloseReason, append_audit}
use expediente.Identity.Throttle.{release_successful_attempt, record_attempt}
use expediente.Identity.Sessions.{
  has_id, has_token, join_user, select_session, judge_session, closed_failure, load_principal,
  to_principal, is_open_of, is_open_session, closed_as,
}
use expediente.Identity.Sessions.Principals.{
  IsLive, load_principal_iff, select_session-update, select_session-append,
}
use expediente.Identity.Login.Replacing.{
  OneOpen, replace_session-none_open, replace_session-All, replace_session-rest,
  replace_session-sessions,
}
use expediente.Identity.Login.{
  Fresh, Candidate, new_session, clashes, insert_session, replace_session, record_login,
  login_result, open_session, replacing_reason,
}

-- The user of the candidate is as it was when the password was checked, the random values are new,
-- and the configured durations are positive.
pub record CanOpen (service : Service) (now : Instant) (fresh : Fresh) (candidate : Candidate)
    (store : Store) (user : UserRow) : Type 0 where
  pub found : find_row (has_id candidate.user_id) store.users ≡ some user
  pub same_version : user.credential_version ≡ candidate.credential_version
  pub enabled : user.disabled_at ≡ none
  pub one_open : OneOpen store.sessions
  pub fresh_id : All (λ y. y.id ≢ fresh.session_id) store.sessions
  pub fresh_token : All (λ y. y.token_digest ≢ service.digest fresh.token) store.sessions
  pub some_hours : 0 < service.session_absolute_hours
  pub some_minutes : 0 < service.session_idle_minutes
  pub started : 0 < now

module _ (service : Service) (now : Instant) (fresh : Fresh) (name : String) (candidate : Candidate)
    (metadata : RequestMetadata) (store : Store) (user : UserRow)
    (can : CanOpen service now fresh candidate store user) where
  abbrev pub row : SessionRow
  row = new_session service now fresh candidate metadata

  abbrev pub replaced : Store
  replaced = replace_session service now candidate.user_id metadata store

  abbrev pub inserted : Store
  inserted = record replaced { sessions = replaced.sessions ++ (row ∷ []) }

  abbrev pub opened : Store
  opened = record_login service now fresh name candidate metadata inserted

  fresh_after :
      All (λ y. (y.id ≢ fresh.session_id)) replaced.sessions
      × All (λ y. y.token_digest ≢ service.digest fresh.token) replaced.sessions
  fresh_after = (
    replace_session-All service now candidate.user_id metadata store _ (λ y reason h. h)
        can.fresh_id,
    replace_session-All service now candidate.user_id metadata store _ (λ y reason h. h)
        can.fresh_token,
  )

  All-zip₃ :
      (xs : List SessionRow)
      → All (λ y. (y.id ≢ fresh.session_id)) xs
      → All (λ y. y.token_digest ≢ service.digest fresh.token) xs
      → All (λ y. is_open_of candidate.user_id y ≡ false) xs
      → All (λ y. clashes row y ≡ false) xs
  All-zip₃ [] a b c = tt
  All-zip₃ (x ∷ xs) a b c = (
    ground (
      arith,
      a.0,
      b.0,
      c.0,
      String_eq.beq_iff x.id fresh.session_id,
      String_eq.beq_iff x.token_digest (service.digest fresh.token),
    ),
    All-zip₃ xs a.1 b.1 c.1,
  )

  insert_session-inserted : insert_session row replaced ≡ ok inserted
  unfolding insert_session
  insert_session-inserted = rw (
    find_row-none (clashes row) replaced.sessions (
        All-zip₃ replaced.sessions fresh_after.0 fresh_after.1
          (replace_session-none_open service now candidate.user_id metadata store can.one_open)),
    insert_session,
  )

  find_token-opened :
      find_row (has_token (service.digest fresh.token)) (replaced.sessions ++ (row ∷ [])) ≡ some row
  unfolding find_row
  find_token-opened =
      find_row-append (has_token (service.digest fresh.token)) replaced.sessions (row ∷ []) (
        find_row-none _ replaced.sessions (
          All-map (λ y. y.token_digest ≢ service.digest fresh.token)
            (λ y. has_token (service.digest fresh.token) y ≡ false) replaced.sessions
            (λ y h.
              ground (arith, String_eq.beq_iff y.token_digest (service.digest fresh.token), h))
            fresh_after.1))
      ∙ rw (beq_refl (service.digest fresh.token))

  find_user-opened : find_row (has_id candidate.user_id) replaced.users ≡ some user
  find_user-opened =
      ap (find_row (has_id candidate.user_id))
        (replace_session-rest service now candidate.user_id metadata store).users
      ∙ can.found

  select_session-opened : select_session (service.digest fresh.token) opened ≡ some (row, user)
  unfolding select_session join_user record_login release_successful_attempt record_attempt
      append_audit
  select_session-opened =
      ap (join_user replaced.users) find_token-opened
      ∙ ap (Option.map (λ u. (row, u))) find_user-opened

  row-IsLive : IsLive service now row user
  row-IsLive = record {
    is_open = refl;
    enabled = can.enabled;
    same_version = can.same_version;
    unexpired = ground (arith, can.some_hours);
    active = ground (arith, can.some_minutes, can.started);
  }

  abbrev pub principal : Principal
  principal = to_principal row user opened

  pub load_principal-opened :
      load_principal service now (service.digest fresh.token) opened ≡ ok principal
  load_principal-opened =
      (load_principal_iff service now (service.digest fresh.token) opened principal).1
        (row, user, select_session-opened, row-IsLive, refl)

  pub open_session-opened :
      open_session service now fresh name candidate metadata store
      ≡ ok (ok (login_result service now fresh principal.user), opened)
  unfolding open_session
  open_session-opened =
      rw (insert_session-inserted, open_session) (rw (load_principal-opened, ◌>>=◌))

  -- The session that was open reads as replaced, or as expired if it had run out.
  judge_session-closed :
      (later : Instant) (previous : SessionRow) (owner : UserRow) (reason : CloseReason)
      → judge_session service later (closed_as now reason previous) owner
        ≡ err (closed_failure reason)
  unfolding judge_session
  judge_session-closed later previous owner reason = refl

  select_session-previous :
      (digest : String) (previous : SessionRow) (owner : UserRow)
      → find_row (is_open_of candidate.user_id) store.sessions ≡ some previous
      → select_session digest store ≡ some (previous, owner)
      → select_session digest opened
        ≡ some (closed_as now (replacing_reason service now previous) previous, owner)
  unfolding record_login release_successful_attempt record_attempt append_audit
  select_session-previous digest previous owner open_row e =
      select_session-append digest replaced opened (row ∷ []) refl refl (
        select_session-update (is_open_session previous.id)
          (closed_as now (replacing_reason service now previous)) (λ r. (refl, refl)) digest store
          replaced (replace_session-rest service now candidate.user_id metadata store).users
          (replace_session-sessions service now candidate.user_id metadata store previous open_row)
        ∙ ap (Option.map _) e
        ∙ rw own)
    where
      own : is_open_session previous.id previous ≡ true
      own = ground (
        arith,
        find_row_sound (is_open_of candidate.user_id) store.sessions open_row,
        beq_refl previous.id,
      )

  pub load_principal-previous :
      (later : Instant) (digest : String) (previous : SessionRow) (owner : UserRow)
      → find_row (is_open_of candidate.user_id) store.sessions ≡ some previous
      → select_session digest store ≡ some (previous, owner)
      → load_principal service later digest opened
        ≡ err (closed_failure (replacing_reason service now previous))
  unfolding load_principal
  load_principal-previous later digest previous owner open_row e =
      rw (select_session-previous digest previous owner open_row e, load_principal)
        (rw (
          judge_session-closed later previous owner (replacing_reason service now previous),
          ◌>>=◌,
        ))
