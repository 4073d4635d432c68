-- ===== src/Identity/Login/Outcomes.antt =====
-- The outcomes of the transaction of a login, and of a login as a whole.
use expediente.Base.{
  ◌+◌, ◌-◌, ◌*◌, ◌<◌, ◌≤◌, ◌++◌, List, [], ◌∷◌, Bool-cases, inl, inr, Bool, true, false, not, ◌&&◌,
  String, String_eq, ℕ_eq, some, ◌==◌, if◌then◌else◌, is_none, find_row, ◌≡◌, ◌≢◌, refl, sym, ap,
  ◌∙◌, ◌⊎◌, arith, subst,
}
use expediente.Domain.{
  Instant, minute, second, Failure, Result, ok, err, RequestMetadata, Principal, rate_limited,
  authentication_failed, session_expired, session_replaced, ok-injective,
}
use expediente.Domain.Text.{sanitize_text}
use expediente.Identity.{
  AttemptRow, Service, Store, UserRow, SessionRow, Outcome, ThrottleRow, append_audit, nullable,
  write-ok,
}
use expediente.Identity.Throttle.Limits.{
  is_denied, name_row, charged, charges, opened, reserve-granted, reserve-Decides,
}
use expediente.Identity.Throttle.Penalties.{
  row_of, penalized, penalize_login-row, is_denied-penalized, penalty_bounds,
}
use expediente.Identity.Throttle.{reserve_login_attempt, penalize_login, record_attempt}
use expediente.Identity.Sessions.{
  user_by, has_id, select_session, load_principal, closed_failure, has_run_out, is_open_of,
}
use expediente.Identity.Login.Opening
use expediente.Identity.Login.Opening.{
  CanOpen, open_session-opened, load_principal-opened, load_principal-previous,
}
use expediente.Identity.Login.{
  Fresh, Candidate, LoginResult, login_result, find_candidate, login_identifier, attempt_login,
  verified_login, continue_login, login, settle_login, refuse_login, still_valid, login_transaction,
  replacing_reason,
}

-- The answer to the token of the session that a login replaced.
abbrev pub replaced_failure : Service → Instant → SessionRow → Failure
replaced_failure service now previous =
    if has_run_out service now previous then session_expired else session_replaced

closed_failure-replacing :
    (service : Service) (now : Instant) (previous : SessionRow)
    → closed_failure (replacing_reason service now previous) ≡ replaced_failure service now previous
unfolding closed_failure
closed_failure-replacing service now previous = ground arith

-- What a login with the right password leaves behind.
pub record Opens (service : Service) (now : Instant) (fresh : Fresh) (candidate : Candidate)
    (store : Store) (outcome : Result (Result LoginResult × Store)) : Type 0 where
  pub result : LoginResult
  pub store' : Store
  pub succeeds : outcome ≡ ok (ok result, store')
  pub gives_token : result.session_token ≡ fresh.token
  pub principal : Principal
  pub token_works : load_principal service now (service.digest fresh.token) store' ≡ ok principal
  pub same_user : result.user ≡ principal.user

still_valid-CanOpen :
    (service : Service) (now : Instant) (fresh : Fresh) (candidate : Candidate) (store : Store)
    (user : UserRow)
    → CanOpen service now fresh candidate store user
    → still_valid candidate true store ≡ ok true
unfolding still_valid user_by
still_valid-CanOpen service now fresh candidate store user can =
    rw (can.found, still_valid) (rw (can.enabled) (ground (arith, can.same_version)))

login_transaction-opened :
    (service : Service) (now : Instant) (fresh : Fresh) (name : String) (candidate : Candidate)
    (metadata : RequestMetadata) (store : Store) (user : UserRow)
    (can : CanOpen service now fresh candidate store user)
    → login_transaction service now fresh name candidate true metadata store
      ≡ ok (
        ok (
            login_result service now fresh
              (Opening.principal service now fresh name candidate metadata store user can).user),
        Opening.opened service now fresh name candidate metadata store user can,
      )
unfolding login_transaction
login_transaction-opened service now fresh name candidate metadata store user can =
    rw (still_valid-CanOpen service now fresh candidate store user can, login_transaction)
      (open_session-opened service now fresh name candidate metadata store user can)

-- With the right password the transaction succeeds, if the user is enabled and has the credential
-- version that was checked, no user has two open sessions, the random values are new, and the
-- clock and the configured durations are positive: the token that it returns is accepted at once,
-- as one of the user that it returns.
pub login_transaction_opens :
    (service : Service) (now : Instant) (fresh : Fresh) (name : String) (candidate : Candidate)
    (metadata : RequestMetadata) (store : Store) (user : UserRow)
    → CanOpen service now fresh candidate store user
    → Opens service now fresh candidate store
        (login_transaction service now fresh name candidate true metadata store)
login_transaction_opens service now fresh name candidate metadata store user can = record {
  result =
      login_result service now fresh
        (Opening.principal service now fresh name candidate metadata store user can).user;
  store' = Opening.opened service now fresh name candidate metadata store user can;
  succeeds = login_transaction-opened service now fresh name candidate metadata store user can;
  gives_token = refl;
  principal = Opening.principal service now fresh name candidate metadata store user can;
  token_works = load_principal-opened service now fresh name candidate metadata store user can;
  same_user = refl;
}

-- Behind a login with the right password that succeeds, under the conditions for which it does,
-- the token of the session of the user that was open is answered as replaced, or as expired if it
-- had run out by then, at any time.
pub login_transaction_replaces :
    (service : Service) (now later : Instant) (fresh : Fresh) (name digest : String)
    (candidate : Candidate) (metadata : RequestMetadata) (store store' : Store)
    (user owner : UserRow) (previous : SessionRow) (result : LoginResult)
    → CanOpen service now fresh candidate store user
    → find_row (is_open_of candidate.user_id) store.sessions ≡ some previous
    → select_session digest store ≡ some (previous, owner)
    → login_transaction service now fresh name candidate true metadata store
      ≡ ok (ok result, store')
    → load_principal service later digest store' ≡ err (replaced_failure service now previous)
login_transaction_replaces service now later fresh name digest candidate metadata store store' user
      owner previous result can open_row e h =
    let made = login_transaction-opened service now fresh name candidate metadata store user can in
    subst
      (λ (p : Result LoginResult × Store).
        load_principal service later digest p.1 ≡ err (replaced_failure service now previous))
      (ok-injective (sym made ∙ h))
      (load_principal-previous service now fresh name candidate metadata store user can later digest
          previous owner open_row e
        ∙ ap err (closed_failure-replacing service now previous))

-- A candidate whose user was disabled, or got a new password, since the hash was computed.
abbrev pub HasChanged : Candidate → UserRow → Type 0
HasChanged candidate user =
    (user.credential_version ≢ candidate.credential_version) ⊎ (is_none user.disabled_at ≡ false)

refuse_login-unchanged :
    (service : Service) (now : Instant) (name : String) (candidate : Candidate)
    (metadata : RequestMetadata) (store penalized : Store)
    → penalize_login service now name store ≡ ok penalized
    → refuse_login service now name candidate metadata store
      ≡ ok (
        err authentication_failed,
        record_attempt now name candidate.user_id Outcome.failed metadata penalized,
      )
unfolding refuse_login
refuse_login-unchanged service now name candidate metadata store penalized e = rw (e, refuse_login)

-- A refused login that is committed: the attempt is recorded as failed, behind those before it, and the
-- bucket of the name is closed for between one and 64 seconds.
pub record RefusedLogin (service : Service) (now : Instant) (name : String) (user_id : String)
    (metadata : RequestMetadata) (store : Store) (outcome : Result (Result LoginResult × Store))
    : Type 0 where
  pub store' : Store
  pub refused : outcome ≡ ok (err authentication_failed, store')
  pub attempt : AttemptRow
  pub recorded : store'.attempts ≡ store.attempts ++ (attempt ∷ [])
  pub names : attempt.attempted_identifier ≡ name
  pub of_user : attempt.user_id ≡ some user_id
  pub at : attempt.occurred_at ≡ now
  pub from : attempt.observed_ip ≡ metadata.observed_ip
  pub failed : attempt.outcome ≡ Outcome.failed
  pub bucket : ThrottleRow
  pub bucket_found : row_of service name store' ≡ some bucket
  pub at_least : now + second ≤ bucket.next_allowed_at
  pub at_most : bucket.next_allowed_at ≤ now + 64 * second
  pub same_sessions : store'.sessions ≡ store.sessions
  pub same_users : store'.users ≡ store.users

nullable-some : (value : String) → value ≢ "" → nullable value ≡ some value
unfolding nullable
nullable-some value named = elim (Bool-cases (value == "")) [
  | inl e ↦ absurd (named ((String_eq.beq_iff value "").0 e))
  | inr e ↦ rw e refl
]

refuse_login-Refused :
    (service : Service) (now : Instant) (name : String) (candidate : Candidate)
    (metadata : RequestMetadata) (store : Store) (row : ThrottleRow)
    → row_of service name store ≡ some row
    → candidate.user_id ≢ ""
    → RefusedLogin service now name candidate.user_id metadata store
        (refuse_login service now name candidate metadata store)
unfolding record_attempt append_audit
refuse_login-Refused service now name candidate metadata store row e named =
    let (penalized_store, p, found, sessions, users, attempts) =
      penalize_login-row service name now store row e in
    let bounds = penalty_bounds row.attempt_count in
    let attempt : AttemptRow = record {
      attempted_identifier = name;
      user_id = nullable candidate.user_id;
      occurred_at = now;
      observed_ip = metadata.observed_ip;
      user_agent = sanitize_text metadata.user_agent 512;
      outcome = Outcome.failed;
      request_id = metadata.request_id;
    } in
    record {
      store' = record_attempt now name candidate.user_id Outcome.failed metadata penalized_store;
      refused = refuse_login-unchanged service now name candidate metadata store penalized_store p;
      attempt = attempt;
      recorded = ap (λ (before : List AttemptRow). before ++ (attempt ∷ [])) attempts;
      names = refl;
      of_user = nullable-some candidate.user_id named;
      at = refl;
      from = refl;
      failed = refl;
      bucket = penalized service name now row;
      bucket_found = found;
      at_least = omega (arith, bounds);
      at_most = omega (arith, bounds);
      same_sessions = sessions;
      same_users = users;
    }

-- A login with the right password, of a user who was disabled or got a new password between the check
-- of the password and the transaction, where the name has a bucket and the identifier of the user is
-- not empty, is committed as refused with
-- AUTHENTICATION_FAILED: one attempt is recorded, as failed, with the name, the user, the time and the
-- address; the bucket of the name is closed for between one and 64 seconds; sessions and users do not
-- change.
pub login_transaction_stale :
    (service : Service) (now : Instant) (fresh : Fresh) (name : String) (candidate : Candidate)
    (metadata : RequestMetadata) (store : Store) (user : UserRow) (row : ThrottleRow)
    → find_row (has_id candidate.user_id) store.users ≡ some user
    → HasChanged candidate user
    → row_of service name store ≡ some row
    → candidate.user_id ≢ ""
    → RefusedLogin service now name candidate.user_id metadata store
        (login_transaction service now fresh name candidate true metadata store)
unfolding login_transaction
login_transaction_stale service now fresh name candidate metadata store user row e changed b named =
    rw (stale, login_transaction)
      (refuse_login-Refused service now name candidate metadata store row b named)
  where
    stale : still_valid candidate true store ≡ ok false
    stale = unfold still_valid user_by in rw (e, still_valid) (ground (arith))

module _ (service : Service) (started now : Instant) (fresh : Fresh) (username password : String)
    (metadata : RequestMetadata) (store : Store)
    (free : is_denied service started (login_identifier service username) metadata store.throttles
      ≡ false)
    (wrong : service.verify password (find_candidate service username store).password_hash
      ≡ ok false) where
  abbrev name : String
  name = login_identifier service username

  abbrev candidate : Candidate
  candidate = find_candidate service username store

  abbrev reserved : Store
  reserved = (reserve_login_attempt service started name metadata store).1

  abbrev attempt_row : ThrottleRow
  attempt_row = charged (name_row service started name metadata store.throttles)

  reserved-granted : reserve_login_attempt service started name metadata store ≡ (
    ok tt,
    record store {
      throttles =
          charges service started name metadata
            (opened service started name metadata store.throttles);
    },
  )
  reserved-granted = reserve-granted service started name metadata store free

  row-reserved : row_of service name reserved ≡ some attempt_row
  row-reserved = rw free at (reserve-Decides service started name metadata store).name_charge

  penalized-reserved :
      (store' : Store) × (penalize_login service now name reserved ≡ ok store')
      × (row_of service name store' ≡ some (penalized service name now attempt_row))
      × (store'.sessions ≡ reserved.sessions)
      × (store'.users ≡ reserved.users)
      × (store'.attempts ≡ reserved.attempts)
  penalized-reserved = penalize_login-row service name now reserved attempt_row row-reserved

  abbrev recorded : Store → Store
  recorded = record_attempt now name candidate.user_id Outcome.failed metadata

  refused-transaction :
      (store₂ : Store) (rest : Bool)
      → penalize_login service now name reserved ≡ ok store₂
      → login_transaction service now fresh name candidate (false && rest) metadata reserved
        ≡ ok (err authentication_failed, recorded store₂)
  unfolding login_transaction still_valid
  refused-transaction store₂ rest p =
      refuse_login-unchanged service now name candidate metadata reserved store₂ p

  candidate-reserved : find_candidate service username reserved ≡ candidate
  unfolding find_candidate user_by
  candidate-reserved =
      ap (λ (r : Result (Unit {0}) × Store). find_candidate service username r.1) reserved-granted

  attempt_login-wrong :
      (store₂ : Store)
      → penalize_login service now name reserved ≡ ok store₂
      → attempt_login service now fresh username password metadata reserved
        ≡ (err authentication_failed, recorded store₂)
  unfolding attempt_login verified_login
  attempt_login-wrong store₂ p =
      ap
        (λ c.
          verified_login service now fresh username c metadata reserved
            (service.verify password c.password_hash))
        candidate-reserved
      ∙ ap (verified_login service now fresh username candidate metadata reserved) wrong
      ∙ ap settle_login (
          write-ok _ reserved (
            refused-transaction store₂ (not (candidate.user_id == "") && not candidate.disabled) p))

  login-wrong :
      (store₂ : Store)
      → penalize_login service now name reserved ≡ ok store₂
      → login service started now fresh username password metadata store
        ≡ (err authentication_failed, recorded store₂)
  unfolding login continue_login
  login-wrong store₂ p =
      ap (continue_login service now fresh username password metadata)
        (ap (λ a. (a, reserved)) (ap (λ (r : Result (Unit {0}) × Store). r.0) reserved-granted))
      ∙ attempt_login-wrong store₂ p

  refused_soon :
      (store₂ : Store) (later : Instant) (from : RequestMetadata)
      → row_of service name store₂ ≡ some (penalized service name now attempt_row)
      → later < now + second
      → later - service.login_window_minutes * minute < attempt_row.window_started_at
      → (reserve_login_attempt service later name from (recorded store₂)).0 ≡ err rate_limited
  unfolding record_attempt append_audit
  refused_soon store₂ later from found soon open_still =
      (reserve-Decides service later name from (recorded store₂)).answer
      ∙ ap (λ denied. if denied then err rate_limited else ok tt)
          (is_denied-penalized service name now later from (recorded store₂) attempt_row found
            (omega (arith, soon, penalty_bounds attempt_row.attempt_count)) open_still)

-- A wrong password, at an attempt that no limit refuses, is answered with AUTHENTICATION_FAILED
-- and changes neither users nor sessions. An attempt on the name is then refused, from every
-- address, at any time before one second has passed since the penalty, if the window of the name is still open.
pub login_wrong_password :
    (service : Service) (started now later : Instant) (fresh : Fresh) (username password : String)
    (metadata from : RequestMetadata) (store : Store)
    → is_denied service started (login_identifier service username) metadata store.throttles ≡ false
    → service.verify password (find_candidate service username store).password_hash ≡ ok false
    → later < now + second
    → later - service.login_window_minutes * minute
      < (name_row service started
          (login_identifier service username)
          metadata
          store.throttles).window_started_at
    → let attempted = login service started now fresh username password metadata store in
      (attempted.0 ≡ err authentication_failed)
      × (attempted.1.sessions ≡ store.sessions)
      × (attempted.1.users ≡ store.users)
      × ((reserve_login_attempt service later
            (login_identifier service username)
            from
            attempted.1).0
          ≡ err rate_limited)
unfolding record_attempt append_audit
login_wrong_password service started now later fresh username password metadata from store free
      wrong soon open_still =
    let (store₂, p, found, sessions, users, _) =
      penalized-reserved service started now fresh username password metadata store free wrong in
    let granted =
      reserved-granted service started now fresh username password metadata store free wrong in
    let made =
      login-wrong service started now fresh username password metadata store free wrong store₂ p in
    (
      ap (λ (r : Result LoginResult × Store). r.0) made,
      ap (λ (r : Result LoginResult × Store). r.1.sessions) made
          ∙ sessions
          ∙ ap (λ (r : Result (Unit {0}) × Store). r.1.sessions) granted,
      ap (λ (r : Result LoginResult × Store). r.1.users) made
          ∙ users
          ∙ ap (λ (r : Result (Unit {0}) × Store). r.1.users) granted,
      ap
            (λ (r : Result LoginResult × Store).
              (reserve_login_attempt service later (login_identifier service username) from r.1).0)
            made
          ∙ refused_soon service started now fresh username password metadata store free wrong
              store₂ later from found soon open_still,
    )
