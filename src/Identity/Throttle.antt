-- ===== src/Identity/Throttle.antt =====
-- internal/identity/login.go: the throttle of login attempts (reserveLoginAttempt, penalizeLogin,
-- releaseSuccessfulAttempt) and recordAttempt.
pub mod Windows
pub mod Limits
pub mod Traffic
pub mod Penalties
use expediente.Base.{
  ℕ, ◌+◌, ◌-◌, ◌*◌, ◌^◌, min, max, Bool, true, false, ◌&&◌, ◌||◌, String, String_eq, List, [], ◌∷◌,
  ◌++◌, none, some, ◌==◌, leb, ltb, if◌then◌else◌, find_row, update_rows,
}
use expediente.Domain.{
  Instant, second, minute, Result, ok, err, ◌>>=◌, rate_limited, no_rows, RequestMetadata,
}
use expediente.Domain.Text.{sanitize_text}
use expediente.Identity.{
  no_subject, Service, Store, Scope, ip, identifier, Scope_eq, scope_beq, ThrottleRow, AttemptRow,
  Outcome, append_audit, nullable, write, text,
}
use expediente.Identity

pub record Bucket : Type 0 where
  pub scope : Scope
  pub key : String
  pub limit : ℕ

unfoldable pub is_bucket : Scope → String → ThrottleRow → Bool
unfolding scope_beq
is_bucket scope key row = row.scope == scope && row.key_digest == key

abbrev pub fresh_window : Scope → String → Instant → ThrottleRow
fresh_window scope key now = record {
  scope = scope;
  key_digest = key;
  attempt_count = 0;
  window_started_at = now;
  next_allowed_at = now;
}

-- INSERT … ON CONFLICT DO UPDATE SET attempt_count=0, … WHERE window_started_at<=cutoff
unfoldable pub open_window :
    Scope → String → Instant → Instant → List ThrottleRow → List ThrottleRow
unfolding is_bucket
open_window scope key now cutoff [] = fresh_window scope key now ∷ []
open_window scope key now cutoff (row ∷ rows) =
    if is_bucket scope key row
    then (if leb row.window_started_at cutoff
        then record row { attempt_count = 0; window_started_at = now; next_allowed_at = now }
        else row)
      ∷ rows
    else row ∷ open_window scope key now cutoff rows

-- The first loop of `reserveLoginAttempt`: opens each bucket's window and tests it.
unfoldable pub check_buckets :
    Instant → Instant → List Bucket → List ThrottleRow → Bool → Result (List ThrottleRow × Bool)
unfolding open_window is_bucket
check_buckets now cutoff [] rows denied = ok (rows, denied)
check_buckets now cutoff (bucket ∷ buckets) rows denied =
    let opened = open_window bucket.scope bucket.key now cutoff rows in
    elim (find_row (is_bucket bucket.scope bucket.key) opened) [
      | none ↦ err no_rows
      | some row ↦
          check_buckets now cutoff buckets opened
            (denied || leb bucket.limit row.attempt_count || ltb now row.next_allowed_at)
    ]

-- UPDATE authentication_throttles SET attempt_count=attempt_count+1 WHERE scope=? AND key_digest=?
unfoldable pub charge : Bucket → List ThrottleRow → List ThrottleRow
unfolding is_bucket
charge bucket =
    update_rows (is_bucket bucket.scope bucket.key)
      (λ row. record row { attempt_count = row.attempt_count + 1 })

-- The second loop.
unfoldable pub charge_all : List Bucket → List ThrottleRow → List ThrottleRow
unfolding charge
charge_all [] rows = rows
charge_all (bucket ∷ buckets) rows = charge_all buckets (charge bucket rows)

abbrev pub ip_bucket : Service → RequestMetadata → Bucket
ip_bucket service metadata = record {
  scope = ip;
  key = service.digest metadata.observed_ip;
  limit = service.login_ip_limit;
}

abbrev pub identifier_bucket : Service → String → Bucket
identifier_bucket service name = record {
  scope = identifier;
  key = service.digest name;
  limit = service.login_identifier_limit;
}

-- `recordAttempt`: the row of the attempt and its audit event.
unfoldable pub record_attempt :
    Instant → String → String → Outcome → RequestMetadata → Store → Store
record_attempt now name user_id outcome metadata store =
    append_audit now event (record store { attempts = store.attempts ++ (row ∷ []) })
  where
    row : AttemptRow
    row = record {
      attempted_identifier = name;
      user_id = nullable user_id;
      occurred_at = now;
      observed_ip = metadata.observed_ip;
      user_agent = sanitize_text metadata.user_agent 512;
      outcome = outcome;
      request_id = metadata.request_id;
    }

    event : Identity.Event
    event = record {
      subject = no_subject;
      event_type = elim outcome [
        | Outcome.success ↦ "authentication.success"
        | Outcome.failed ↦ "authentication.failed"
        | Outcome.rate_limited ↦ "authentication.rate_limited"
      ];
      actor_user_id = elim outcome [
        | Outcome.success ↦ user_id
        | Outcome.failed ↦ ""
        | Outcome.rate_limited ↦ ""
      ];
      system_actor = false;
      session_id = "";
      metadata = metadata;
      details =
          ("attempted_identifier", text name)
          ∷ (
            "outcome",
            text (elim outcome [
              | Outcome.success ↦ "success"
              | Outcome.failed ↦ "failed"
              | Outcome.rate_limited ↦ "rate_limited"
            ]),
          )
          ∷ [];
    }

abbrev pub buckets : Service → String → RequestMetadata → List Bucket
buckets service name metadata = ip_bucket service metadata ∷ identifier_bucket service name ∷ []

-- Behind the first loop: a refused attempt is recorded, a granted one is charged to each bucket.
unfoldable pub settle :
    Service → Instant → String → RequestMetadata → Store → List ThrottleRow × Bool → Bool × Store
settle service now name metadata store (rows, denied) =
    let opened = record store { throttles = rows } in
    if denied
    then (true, record_attempt now name "" Outcome.rate_limited metadata opened)
    else (false, record store { throttles = charge_all (buckets service name metadata) rows })

-- The transaction of `reserveLoginAttempt`; its value is `denied`.
unfoldable pub reserve_transaction :
    Service → Instant → String → RequestMetadata → Store → Result (Bool × Store)
reserve_transaction service now name metadata store =
    let cutoff = now - service.login_window_minutes * minute in
    check_buckets now cutoff (buckets service name metadata) store.throttles false >>= λ checked.
    ok (settle service now name metadata store checked)

abbrev pub refuse_denied : Result Bool × Store → Result (Unit {0}) × Store
refuse_denied (denied, store) = (denied >>= λ d. if d then err rate_limited else ok tt, store)

unfoldable pub reserve_login_attempt :
    Service → Instant → String → RequestMetadata → Store → Result (Unit {0}) × Store
reserve_login_attempt service now name metadata store =
    refuse_denied (write (reserve_transaction service now name metadata) store)

-- `time.Second * time.Duration(1<<min(max(count-1, 0), 6))`
unfoldable pub penalty : ℕ → ℕ
penalty count = second * 2 ^ min (max (count - 1) 0) 6

-- `penalizeLogin`
unfoldable pub penalize_login : Service → Instant → String → Store → Result Store
unfolding is_bucket penalty
penalize_login service now name store =
    elim (find_row (is_bucket identifier (service.digest name)) store.throttles) [
      | none ↦ err no_rows
      | some row ↦ ok (record store {
        throttles =
            update_rows (is_bucket identifier (service.digest name))
              (λ r. record r { next_allowed_at = now + penalty row.attempt_count }) store.throttles;
      })
    ]

-- UPDATE authentication_throttles SET attempt_count=max(0,attempt_count-1)
unfoldable pub release : Scope → String → List ThrottleRow → List ThrottleRow
unfolding is_bucket
release scope key =
    update_rows (is_bucket scope key) (λ row. record row { attempt_count = row.attempt_count - 1 })

-- `releaseSuccessfulAttempt`. Go ranges over the two scopes in any order; the updates commute.
unfoldable pub release_successful_attempt : Service → String → RequestMetadata → Store → Store
unfolding release
release_successful_attempt service name metadata store = record store {
  throttles =
      release ip (service.digest metadata.observed_ip)
        (release identifier (service.digest name) store.throttles);
}
