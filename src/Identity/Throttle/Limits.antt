-- ===== src/Identity/Throttle/Limits.antt =====
-- What the throttle of login attempts guarantees.
use mathlib.Core.Option
use expediente.Base.{
  ℕ, ◌+◌, ◌-◌, ◌*◌, ◌≤◌, ◌<◌, Bool, true, false, ◌||◌, String, List, some, leb, ltb, if◌then◌else◌,
  find_row, ◌≡◌, refl, ◌∙◌, ap, inl, inr, arith, Bool-cases,
}
use expediente.Domain.{Instant, minute, Result, ok, err, RequestMetadata, rate_limited, ◌>>=◌}
use expediente.Identity.{
  Service, Store, Scope, ip, identifier, ThrottleRow, Outcome, append_audit, write-ok,
}
use expediente.Identity.Throttle.{
  is_bucket, open_window, check_buckets, charge, charge_all, ip_bucket, identifier_bucket,
  record_attempt, buckets, settle, refuse_denied, reserve_transaction, reserve_login_attempt,
}
use expediente.Identity.Throttle.Windows.{
  window, find_row-open_window, find_row-open_window-Apart, Apart, find_row-update_bucket,
  find_row-update-Apart,
}

-- The count of the window is used up, or a penalty still runs.
abbrev pub blocked : ℕ → Instant → ThrottleRow → Bool
blocked limit now row = leb limit row.attempt_count || ltb now row.next_allowed_at

pub not-blocked :
    (limit : ℕ) (now : Instant) (row : ThrottleRow)
    → blocked limit now row ≡ false
    → (row.attempt_count < limit) × (row.next_allowed_at ≤ now)
not-blocked limit now row h = ground arith

abbrev pub charged : ThrottleRow → ThrottleRow
charged row = record row { attempt_count = row.attempt_count + 1 }

module _ (service : Service) (now : Instant) (name : String) (metadata : RequestMetadata) where
  abbrev pub window_start : Instant
  window_start = now - service.login_window_minutes * minute

  abbrev pub address_key : String
  address_key = service.digest metadata.observed_ip

  abbrev pub name_key : String
  name_key = service.digest name

  abbrev pub address_row : List ThrottleRow → ThrottleRow
  address_row rows =
      window ip address_key now window_start (find_row (is_bucket ip address_key) rows)

  abbrev pub name_row : List ThrottleRow → ThrottleRow
  name_row rows =
      window identifier name_key now window_start (find_row (is_bucket identifier name_key) rows)

  abbrev pub is_denied : List ThrottleRow → Bool
  is_denied rows =
      blocked service.login_ip_limit now (address_row rows)
      || blocked service.login_identifier_limit now (name_row rows)

  abbrev pub opened : List ThrottleRow → List ThrottleRow
  opened rows =
      open_window identifier name_key now window_start
        (open_window ip address_key now window_start rows)

  find_name-opened :
      (rows : List ThrottleRow)
      → find_row (is_bucket identifier name_key) (opened rows) ≡ some (name_row rows)
  find_name-opened rows =
      find_row-open_window identifier name_key now window_start _
      ∙ ap (λ o. some (window identifier name_key now window_start o))
          (find_row-open_window-Apart ip identifier address_key name_key now window_start rows
            (inl (λ e. cc)))

  find_address-opened :
      (rows : List ThrottleRow)
      → find_row (is_bucket ip address_key) (opened rows) ≡ some (address_row rows)
  find_address-opened rows =
      find_row-open_window-Apart identifier ip name_key address_key now window_start _
        (inl (λ e. cc))
      ∙ find_row-open_window ip address_key now window_start rows

  check_buckets-opened :
      (rows : List ThrottleRow)
      → check_buckets now window_start (buckets service name metadata) rows false
        ≡ ok (opened rows, is_denied rows)
  unfolding check_buckets
  check_buckets-opened rows =
      rw (find_row-open_window ip address_key now window_start rows, check_buckets)
        (rw (find_name-opened rows, check_buckets) (ap (λ b. ok (opened rows, b)) (ground arith)))

  abbrev when_granted : Bool → ThrottleRow → ThrottleRow
  when_granted denied row = if denied then row else charged row

  -- The answer, and what becomes of the two buckets.
  pub record Decides (store : Store) (result : Result (Unit {0}) × Store) : Type 0 where
    pub answer : result.0 ≡ (if is_denied store.throttles then err rate_limited else ok tt)
    pub address_charge :
        find_row (is_bucket ip address_key) result.1.throttles
        ≡ some (when_granted (is_denied store.throttles) (address_row store.throttles))
    pub name_charge :
        find_row (is_bucket identifier name_key) result.1.throttles
        ≡ some (when_granted (is_denied store.throttles) (name_row store.throttles))

  abbrev pub charges : List ThrottleRow → List ThrottleRow
  charges rows = charge (identifier_bucket service name) (charge (ip_bucket service metadata) rows)

  find_name-charges :
      (rows : List ThrottleRow)
      → find_row (is_bucket identifier name_key) (charges (opened rows))
        ≡ some (charged (name_row rows))
  unfolding charge
  find_name-charges rows =
      find_row-update_bucket identifier name_key charged (λ r. (refl, refl)) _
      ∙ ap (Option.map charged) (
          find_row-update-Apart ip address_key charged (λ r. (refl, refl)) identifier name_key _
            (inl (λ e. cc))
          ∙ find_name-opened rows)

  find_address-charges :
      (rows : List ThrottleRow)
      → find_row (is_bucket ip address_key) (charges (opened rows))
        ≡ some (charged (address_row rows))
  unfolding charge
  find_address-charges rows =
      find_row-update-Apart identifier name_key charged (λ r. (refl, refl)) ip address_key _
        (inl (λ e. cc))
      ∙ find_row-update_bucket ip address_key charged (λ r. (refl, refl)) _
      ∙ ap (Option.map charged) (find_address-opened rows)

  find-opened-Apart :
      (scope : Scope) (key : String) (rows : List ThrottleRow)
      → Apart ip address_key scope key
      → Apart identifier name_key scope key
      → find_row (is_bucket scope key) (opened rows) ≡ find_row (is_bucket scope key) rows
  find-opened-Apart scope key rows a n =
      find_row-open_window-Apart identifier scope name_key key now window_start _ n
      ∙ find_row-open_window-Apart ip scope address_key key now window_start rows a

  find-charges-Apart :
      (scope : Scope) (key : String) (rows : List ThrottleRow)
      → Apart ip address_key scope key
      → Apart identifier name_key scope key
      → find_row (is_bucket scope key) (charges (opened rows)) ≡ find_row (is_bucket scope key) rows
  unfolding charge
  find-charges-Apart scope key rows a n =
      find_row-update-Apart identifier name_key charged (λ r. (refl, refl)) scope key _ n
      ∙ find_row-update-Apart ip address_key charged (λ r. (refl, refl)) scope key _ a
      ∙ find-opened-Apart scope key rows a n

  reserve-settled :
      (store : Store) (denied : Bool) (store' : Store)
      → settle service now name metadata store (opened store.throttles, is_denied store.throttles)
        ≡ (denied, store')
      → reserve_login_attempt service now name metadata store
        ≡ (if denied then err rate_limited else ok tt, store')
  unfolding reserve_login_attempt reserve_transaction
  reserve-settled store denied store' e = ap refuse_denied (
      write-ok _ store (
        ap
          (λ (r : Result (List ThrottleRow × Bool)).
            r >>= λ checked. ok (settle service now name metadata store checked))
          (check_buckets-opened store.throttles)
        ∙ ap ok e))

  reserve-denied :
      (store : Store)
      → is_denied store.throttles ≡ true
      → reserve_login_attempt service now name metadata store ≡ (
        err rate_limited,
        record_attempt now name "" Outcome.rate_limited metadata
            (record store { throttles = opened store.throttles }),
      )
  reserve-denied store denied = reserve-settled store true _ (unfold settle in rw denied)

  pub reserve-granted :
      (store : Store)
      → is_denied store.throttles ≡ false
      → reserve_login_attempt service now name metadata store
        ≡ (ok tt, record store { throttles = charges (opened store.throttles) })
  reserve-granted store free = reserve-settled store false _ (unfold settle charge_all in rw free)

  -- An attempt is refused exactly when the count of a bucket's window has reached its limit or a
  -- penalty of a bucket still runs. A granted attempt is charged to both buckets, a refused one to
  -- none.
  pub reserve-Decides :
      (store : Store) → Decides store (reserve_login_attempt service now name metadata store)
  unfolding record_attempt append_audit
  reserve-Decides store = elim (Bool-cases (is_denied store.throttles)) [
    | inl denied ↦ rw (reserve-denied store denied) (record {
      answer = rw denied;
      address_charge = rw denied (find_address-opened store.throttles);
      name_charge = rw denied (find_name-opened store.throttles);
    })
    | inr free ↦ rw (reserve-granted store free) (record {
      answer = rw free;
      address_charge = rw free (find_address-charges store.throttles);
      name_charge = rw free (find_name-charges store.throttles);
    })
  ]

  -- An attempt changes no bucket but that of its address and that of its name.
  pub reserve_leaves_others :
      (store : Store) (scope : Scope) (key : String)
      → Apart ip address_key scope key
      → Apart identifier name_key scope key
      → find_row
          (is_bucket scope key)
          (reserve_login_attempt service now name metadata store).1.throttles
        ≡ find_row (is_bucket scope key) store.throttles
  unfolding record_attempt append_audit
  reserve_leaves_others store scope key address other =
      elim (Bool-cases (is_denied store.throttles)) [
        | inl denied ↦
            rw (reserve-denied store denied)
              (find-opened-Apart scope key store.throttles address other)
        | inr free ↦
            rw (reserve-granted store free)
              (find-charges-Apart scope key store.throttles address other)
      ]
