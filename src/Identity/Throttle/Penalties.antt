-- ===== src/Identity/Throttle/Penalties.antt =====
-- The penalty after a failed attempt, and the release after a successful one.
use mathlib.Core.Option
use expediente.Base.{
  ℕ, zero, suc, ◌+◌, ◌-◌, ◌*◌, ◌^◌, ◌≤◌, ◌<◌, min, max, true, false, String, Option, some,
  if◌then◌else◌, find_row, ◌≡◌, refl, ◌∙◌, ap, sym, inl, arith,
}
use expediente.Domain.{Instant, second, minute, ok, err, RequestMetadata, rate_limited}
use expediente.Identity.{Service, Store, ip, identifier, ThrottleRow}
use expediente.Identity.Throttle.{
  is_bucket, reserve_login_attempt, penalty, penalize_login, release_successful_attempt,
}
use expediente.Identity.Throttle.Windows.{find_row-update_bucket, find_row-update-Apart}
use expediente.Identity.Throttle.Limits.{charged, is_denied, name_row, address_row, reserve-Decides}

-- `r` takes few values.
pow_bounds : (r : ℕ) → r ≤ 6 → (1 ≤ 2 ^ r) × (2 ^ r ≤ 64)
pow_bounds zero _ = omega arith
pow_bounds (suc zero) _ = omega arith
pow_bounds (suc (suc zero)) _ = omega arith
pow_bounds (suc (suc (suc zero))) _ = omega arith
pow_bounds (suc (suc (suc (suc zero)))) _ = omega arith
pow_bounds (suc (suc (suc (suc (suc zero))))) _ = omega arith
pow_bounds (suc (suc (suc (suc (suc (suc zero)))))) _ = omega arith
pow_bounds (suc (suc (suc (suc (suc (suc (suc r))))))) h = omega arith

exponent : ℕ → ℕ
exponent count = min (max (count - 1) 0) 6

-- The delay is between one second and 64 seconds, whatever the count.
pub penalty_bounds : (count : ℕ) → (second ≤ penalty count) × (penalty count ≤ 64 * second)
unfolding penalty
penalty_bounds count = omega (arith, pow_bounds (min (max (count - 1) 0) 6) (omega arith))

module _ (service : Service) (name : String) where
  abbrev pub row_of : Store → Option ThrottleRow
  row_of store = find_row (is_bucket identifier (service.digest name)) store.throttles

  -- What `penalizeLogin` makes of the row of the name.
  abbrev pub penalized : Instant → ThrottleRow → ThrottleRow
  penalized now row = record row { next_allowed_at = now + penalty row.attempt_count }

  pub penalize_login-row :
      (now : Instant) (store : Store) (row : ThrottleRow)
      → row_of store ≡ some row
      → (store' : Store) × (penalize_login service now name store ≡ ok store')
        × (row_of store' ≡ some (penalized now row))
        × (store'.sessions ≡ store.sessions)
        × (store'.users ≡ store.users)
        × (store'.attempts ≡ store.attempts)
  unfolding penalize_login
  penalize_login-row now store row e =
      rw (e, penalize_login)
        (
          record store { throttles = _ },
          refl,
          find_row-update_bucket identifier (service.digest name)
                (λ r. record r { next_allowed_at = now + penalty row.attempt_count })
                (λ r. (refl, refl)) store.throttles
              ∙ ap (Option.map _) e,
          refl,
          refl,
          refl,
        )

  pub is_denied-penalized :
      (now later : Instant) (metadata : RequestMetadata) (store : Store) (row : ThrottleRow)
      → row_of store ≡ some (penalized now row)
      → later < now + penalty row.attempt_count
      → later - service.login_window_minutes * minute < row.window_started_at
      → is_denied service later name metadata store.throttles ≡ true
  is_denied-penalized now later metadata store row e soon open_still = rw e (ground arith)

  -- After a penalty of a name that has a bucket, the name is refused from every address until the
  -- penalty is over, as long as its window is open.
  pub penalized_refused :
      (now later : Instant) (metadata : RequestMetadata) (store store' : Store) (row : ThrottleRow)
      → row_of store ≡ some row
      → penalize_login service now name store ≡ ok store'
      → later < now + penalty row.attempt_count
      → later - service.login_window_minutes * minute < row.window_started_at
      → (reserve_login_attempt service later name metadata store').0 ≡ err rate_limited
  penalized_refused now later metadata store store' row e p soon open_still =
      let (s, q, found, _, _, _) = penalize_login-row now store row e in
      let same : s ≡ store' = cc (p, q) in
      (reserve-Decides service later name metadata store').answer
      ∙ ap (λ denied. if denied then err rate_limited else ok tt)
          (is_denied-penalized now later metadata store' row (ap row_of (sym same) ∙ found) soon
            open_still)

  released : ThrottleRow → ThrottleRow
  released r = record r { attempt_count = r.attempt_count - 1 }

  released-charged : (row : ThrottleRow) → released (charged row) ≡ row
  unfolding released
  released-charged row = ground arith

  -- A granted attempt that succeeds uses up none of the limits: with the release, both buckets are
  -- as the attempt found them.
  pub release-reserve :
      (now : Instant) (metadata : RequestMetadata) (store : Store)
      → is_denied service now name metadata store.throttles ≡ false
      → let store' =
          release_successful_attempt service name metadata
            (reserve_login_attempt service now name metadata store).1 in
        (row_of store' ≡ some (name_row service now name metadata store.throttles))
        × (find_row (is_bucket ip (service.digest metadata.observed_ip)) store'.throttles
            ≡ some (address_row service now name metadata store.throttles))
  unfolding release_successful_attempt released
  release-reserve now metadata store free =
      let d = reserve-Decides service now name metadata store in
      let after : Store = (reserve_login_attempt service now name metadata store).1 in
      let address : String = service.digest metadata.observed_ip in
      let name_after : row_of after
          ≡ some (charged (name_row service now name metadata store.throttles)) =
        rw free at d.name_charge in
      let address_after : find_row (is_bucket ip address) after.throttles
          ≡ some (charged (address_row service now name metadata store.throttles)) =
        rw free at d.address_charge in
      (
        find_row-update-Apart ip address released (λ r. (refl, refl)) identifier
              (service.digest name) _ (inl (λ h. cc))
            ∙ find_row-update_bucket identifier (service.digest name) released (λ r. (refl, refl))
                after.throttles
            ∙ ap (Option.map released) name_after
            ∙ ap some (released-charged _),
        find_row-update_bucket ip address released (λ r. (refl, refl)) _
            ∙ ap (Option.map released) (
                find_row-update-Apart identifier (service.digest name) released (λ r. (refl, refl))
                  ip address after.throttles (inl (λ h. cc))
                ∙ address_after)
            ∙ ap some (released-charged _),
      )
