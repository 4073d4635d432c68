-- ===== src/Identity/Accounts.antt =====
-- The operations that leave the users and their roles alone: logins, logouts, requests and throttles.
use expediente.Base.{
  Bool, true, false, ◌≡◌, refl, ◌∙◌, inl, inr, String, Option-cases, List, find_row, ◌-◌, ◌*◌,
  subst, ap, if◌then◌else◌, ◌&&◌, not, ◌==◌, ◌&&◌, String_eq,
}
use expediente.Domain.{
  Instant, ok, err, RequestMetadata, bind-eq-ok, minute, Result, ok-injective, Principal,
}
use expediente.Identity.{
  Store, CloseReason, append_audit, Event, Service, Outcome, write-keeps, ThrottleRow, identifier,
  SessionRow,
}
use expediente.Identity.Sessions.{
  Actor, close_user_sessions, close_session, load_principal, logout, authorized, authorized-eq-ok,
  actor_of,
}
use expediente.Identity.Sessions.Closing.{close_user_sessions-rest, close_session-rest}
use expediente.Identity.Throttle.{
  penalize_login, record_attempt, settle, reserve_login_attempt, reserve_transaction, is_bucket,
  check_buckets, buckets, release_successful_attempt,
}
use expediente.Identity.Login.{
  Fresh, Candidate, refuse_login, insert_session, record_login, open_session, login_transaction,
  LoginResult, replace_session, new_session, clashes, still_valid, login, verified_login,
  continue_login, attempt_login, login_identifier, find_candidate,
}
use expediente.Identity.Login.Replacing.{replace_session-rest}

-- The tables that decide who is an administrator.
unfoldable pub SameAccounts : Store → Store → Type 0
SameAccounts store store' = (store'.users ≡ store.users) × (store'.roles ≡ store.roles)

SameAccounts-trans : (a b c : Store) → SameAccounts a b → SameAccounts b c → SameAccounts a c
unfolding SameAccounts
SameAccounts-trans a b c (u, r) (u', r') = (u' ∙ u, r' ∙ r)

-- Closing the sessions of a user and an audit event leave the accounts alone.
pub SameAccounts-close :
    (now : Instant) (reason : CloseReason) (metadata : RequestMetadata) (actor : Actor)
    (user_id : String) (store : Store)
    → SameAccounts store (close_user_sessions now user_id reason metadata actor store)
unfolding SameAccounts
SameAccounts-close now reason metadata actor user_id store =
    let rest = close_user_sessions-rest now reason metadata actor user_id store in
    (rest.users, rest.roles)

pub SameAccounts-audit :
    (now : Instant) (event : Event) (store : Store)
    → SameAccounts store (append_audit now event store)
unfolding SameAccounts append_audit
SameAccounts-audit now event store = (refl, refl)

pub SameAccounts-penalize :
    (service : Service) (now : Instant) (name : String) (store : Store) {store' : Store}
    → penalize_login service now name store ≡ ok store'
    → SameAccounts store store'
unfolding penalize_login
SameAccounts-penalize service now name store h =
    elim (Option-cases (find_row (is_bucket identifier (service.digest name)) store.throttles)) [
      | inl e ↦ absurd (let k = rw (e, penalize_login) at h in cc)
      | inr (row, e) ↦ let k = rw (e, penalize_login) at h in unfold SameAccounts in (cc, cc)
    ]

pub SameAccounts-attempt :
    (now : Instant) (name user_id : String) (outcome : Outcome) (metadata : RequestMetadata)
    (store : Store)
    → SameAccounts store (record_attempt now name user_id outcome metadata store)
unfolding SameAccounts record_attempt append_audit
SameAccounts-attempt now name user_id outcome metadata store = (refl, refl)

SameAccounts-settle :
    (service : Service) (now : Instant) (name : String) (metadata : RequestMetadata) (store : Store)
    (checked : List ThrottleRow × Bool)
    → SameAccounts store (settle service now name metadata store checked).1
unfolding SameAccounts settle record_attempt append_audit
SameAccounts-settle service now name metadata store (rows, true) = (refl, refl)
SameAccounts-settle service now name metadata store (rows, false) = (refl, refl)

pub SameAccounts-reserve :
    (service : Service) (now : Instant) (name : String) (metadata : RequestMetadata) (store : Store)
    → SameAccounts store (reserve_login_attempt service now name metadata store).1
unfolding reserve_login_attempt reserve_transaction
SameAccounts-reserve service now name metadata store =
    write-keeps (reserve_transaction service now name metadata) store (SameAccounts store)
      (λ denied store' h.
        let (checked, _, k) =
          bind-eq-ok
            (check_buckets now (now - service.login_window_minutes * minute)
              (buckets service name metadata) store.throttles false)
            _ h in
        let e : (settle service now name metadata store checked).1 ≡ store' = cc in
        subst (SameAccounts store) e (SameAccounts-settle service now name metadata store checked))
      (unfold SameAccounts in (refl, refl))

SameAccounts-close_session :
    (now : Instant) (id : String) (reason : CloseReason) (metadata : RequestMetadata)
    (actor : Actor) (store : Store)
    → SameAccounts store (close_session now id reason metadata actor store)
unfolding SameAccounts
SameAccounts-close_session now id reason metadata actor store =
    let rest = close_session-rest now reason metadata actor id store in (rest.users, rest.roles)

module _ (service : Service) (now : Instant) (fresh : Fresh) (name : String) (candidate : Candidate)
    (metadata : RequestMetadata) (store : Store) where
  SameAccounts-refuse :
      {r : Result LoginResult × Store}
      → refuse_login service now name candidate metadata store ≡ ok r
      → SameAccounts store r.1
  unfolding refuse_login
  SameAccounts-refuse h =
      let (penalized, p, k) = bind-eq-ok (penalize_login service now name store) _ h in
      subst (SameAccounts store) (ap (λ (x : Result LoginResult × Store). x.1) (ok-injective k)) (
        SameAccounts-trans store penalized _ (SameAccounts-penalize service now name store p)
          (SameAccounts-attempt now name candidate.user_id Outcome.failed metadata penalized))

  SameAccounts-insert :
      (session : SessionRow) (before : Store) {after : Store}
      → insert_session session before ≡ ok after
      → SameAccounts before after
  unfolding insert_session
  SameAccounts-insert session before h =
      elim (Option-cases (find_row (clashes session) before.sessions)) [
        | inl e ↦ let k = rw (e, insert_session) at h in unfold SameAccounts in (cc, cc)
        | inr (s, e) ↦ absurd (let k = rw (e, insert_session) at h in cc)
      ]

  SameAccounts-record :
      (before : Store)
      → SameAccounts before (record_login service now fresh name candidate metadata before)
  unfolding SameAccounts record_login record_attempt append_audit release_successful_attempt
  SameAccounts-record before = (refl, refl)

  SameAccounts-open :
      {r : Result LoginResult × Store}
      → open_session service now fresh name candidate metadata store ≡ ok r
      → SameAccounts store r.1
  unfolding open_session
  SameAccounts-open h =
      let replaced = replace_session service now candidate.user_id metadata store in
      let (inserted, i, k) =
        bind-eq-ok (insert_session (new_session service now fresh candidate metadata) replaced) _
          h in
      let (principal, _, l) =
        bind-eq-ok
          (load_principal service now (service.digest fresh.token)
            (record_login service now fresh name candidate metadata inserted))
          _ k in
      subst (SameAccounts store) (ap (λ (x : Result LoginResult × Store). x.1) (ok-injective l)) (
        SameAccounts-trans store replaced _
          (let rest = replace_session-rest service now candidate.user_id metadata store in
            unfold SameAccounts in (rest.users, rest.roles))
          (SameAccounts-trans replaced inserted _
            (SameAccounts-insert (new_session service now fresh candidate metadata) replaced i)
            (SameAccounts-record inserted)))

  SameAccounts-transaction :
      (verified : Bool) {r : Result LoginResult × Store}
      → login_transaction service now fresh name candidate verified metadata store ≡ ok r
      → SameAccounts store r.1
  unfolding login_transaction
  SameAccounts-transaction verified {r} h =
      let (valid, _, k) = bind-eq-ok (still_valid candidate verified store) _ h in decided valid k
    where
      decided :
          (valid : Bool)
          → (if valid
              then open_session service now fresh name candidate metadata store
              else refuse_login service now name candidate metadata store)
            ≡ ok r
          → SameAccounts store r.1
      decided true k = SameAccounts-open k
      decided false k = SameAccounts-refuse k

pub SameAccounts-login :
    (service : Service) (started now : Instant) (fresh : Fresh) (username password : String)
    (metadata : RequestMetadata) (store : Store)
    → SameAccounts store (login service started now fresh username password metadata store).1
unfolding login verified_login continue_login attempt_login
SameAccounts-login service started now fresh username password metadata store =
    continued
      (reserve_login_attempt service started (login_identifier service username) metadata store)
      (SameAccounts-reserve service started (login_identifier service username) metadata store)
  where
    checked :
        (candidate : Candidate) (before : Store) (r : Result Bool)
        → SameAccounts before
            (verified_login service now fresh username candidate metadata before r).1
    checked candidate before (err e) = unfold SameAccounts in (refl, refl)
    checked candidate before (ok matches) =
        let verified = matches && (not (candidate.user_id == "") && not candidate.disabled) in
        write-keeps
          (login_transaction service now fresh (login_identifier service username) candidate
            verified metadata)
          before (SameAccounts before)
          (λ a store' h.
            SameAccounts-transaction service now fresh (login_identifier service username) candidate
              metadata before verified h)
          (unfold SameAccounts in (refl, refl))

    continued :
        (r : Result (Unit {0}) × Store)
        → SameAccounts store r.1
        → SameAccounts store (continue_login service now fresh username password metadata r).1
    continued (err e, reserved) h = h
    continued (ok _, reserved) h = SameAccounts-trans store reserved _ h (
        checked (find_candidate service username reserved) reserved
          (service.verify password (find_candidate service username reserved).password_hash))

pub SameAccounts-logout :
    (service : Service) (now : Instant) (principal : Principal) (metadata : RequestMetadata)
    (store : Store)
    → SameAccounts store (logout service now principal metadata store).1
unfolding logout
SameAccounts-logout service now principal metadata store =
    write-keeps (authorized service now principal "" _) store (SameAccounts store)
      (λ a store' h.
        let (current, _, _, k) = authorized-eq-ok service now principal "" _ store h in
        subst (SameAccounts store) (ap (λ (x : Unit {0} × Store). x.1) (ok-injective k)) (
          SameAccounts-close_session now current.session_id CloseReason.logout metadata
            (actor_of current) store))
      (unfold SameAccounts in (refl, refl))
