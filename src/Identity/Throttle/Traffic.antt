-- ===== src/Identity/Throttle/Traffic.antt =====
-- The throttle under any traffic: the calls that logins and password changes make of it, in any
-- order and from any addresses.
use mathlib.Core.Option
use expediente.Base.{
  ℕ, ◌+◌, ◌-◌, ◌*◌, ◌≤◌, ◌<◌, max, Bool, true, false, ◌&&◌, String, String_eq, List, [], ◌∷◌,
  Option, some, ◌==◌, if◌then◌else◌, find_row, All, ◌≡◌, refl, ◌∙◌, ap, ◌≢◌, inl, inr, arith, sym,
  or-eq-false, ne_of_beq, Bool-cases, Option-cases,
}
use expediente.Domain.{Instant, minute, Result, ok, err, RequestMetadata}
use expediente.Identity.{Service, Store, ip, identifier, ThrottleRow}
use expediente.Identity.Throttle.{
  is_bucket, reserve_login_attempt, penalty, penalize_login, release_successful_attempt,
}
use expediente.Identity.Throttle.Windows.{find_row-update_bucket, find_row-update-Apart}
use expediente.Identity.Throttle.Limits.{
  blocked, not-blocked, charged, is_denied, name_row, reserve-Decides, reserve_leaves_others,
}

-- A login or a password change first makes an attempt. If it is granted, a failure or a success
-- follows, at any later time.
pub data Traffic : Type 0 where
  attempt : Instant → String → RequestMetadata → Traffic
  failure : Instant → String → Traffic
  success : String → RequestMetadata → Traffic

abbrev pub is_granted : Result (Unit {0}) → Bool
is_granted (ok _) = true
is_granted (err _) = false

abbrev or_keep : Store → Result Store → Store
or_keep store (ok store') = store'
or_keep store (err _) = store

module _ (service : Service) where
  unfoldable pub after : Traffic → Store → Store
  after (attempt now name metadata) store =
      (reserve_login_attempt service now name metadata store).1
  after (failure now name) store = or_keep store (penalize_login service now name store)
  after (success name metadata) store = release_successful_attempt service name metadata store

  -- An attempt on the name `target` that was granted, so that a password is verified for it.
  unfoldable pub grants : String → Traffic → Store → Bool
  grants target (attempt now name metadata) store =
      service.digest name == service.digest target
      && is_granted (reserve_login_attempt service now name metadata store).0
  grants target (failure now name) store = false
  grants target (success name metadata) store = false

  unfoldable pub count_grants : String → List Traffic → Store → ℕ
  count_grants target [] store = 0
  count_grants target (t ∷ ts) store =
      (if grants target t store then 1 else 0) + count_grants target ts (after t store)

  -- The window that began at `start` is still open, and no success of `target` is among the calls.
  abbrev pub InWindow : String → Instant → Traffic → Type 0
  InWindow target start (attempt now name metadata) =
      now - service.login_window_minutes * minute < start
  InWindow target start (failure now name) = Unit
  InWindow target start (success name metadata) = service.digest name ≢ service.digest target

  abbrev row_of : String → Store → Option ThrottleRow
  row_of target store = find_row (is_bucket identifier (service.digest target)) store.throttles

  record Counts (target : String) (row : ThrottleRow) (granted : Bool) (store : Store)
      : Type 0 where
    row' : ThrottleRow
    found : row_of target store ≡ some row'
    same_window : row'.window_started_at ≡ row.window_started_at
    counted : row'.attempt_count ≡ row.attempt_count + (if granted then 1 else 0)
    below : granted ≡ true → row.attempt_count < service.login_identifier_limit

  name_row-open :
      (now : Instant) (name : String) (metadata : RequestMetadata) (store : Store)
      (row : ThrottleRow)
      → row_of name store ≡ some row
      → now - service.login_window_minutes * minute < row.window_started_at
      → name_row service now name metadata store.throttles ≡ row
  name_row-open now name metadata store row e w = rw e (ground arith)

  denied-Counts :
      (now : Instant) (name : String) (metadata : RequestMetadata) (store : Store)
      (row : ThrottleRow)
      → name_row service now name metadata store.throttles ≡ row
      → is_denied service now name metadata store.throttles ≡ true
      → Counts name row
          (is_granted (reserve_login_attempt service now name metadata store).0)
          (reserve_login_attempt service now name metadata store).1
  denied-Counts now name metadata store row same denied =
      let d = reserve-Decides service now name metadata store in
      let refused : is_granted (reserve_login_attempt service now name metadata store).0 ≡ false =
        rw (d.answer, denied) in
      rw refused (record {
        row' = row;
        found = d.name_charge ∙ rw denied (ap some same);
        same_window = refl;
        counted = omega arith;
        below = λ e. cc;
      })

  granted-Counts :
      (now : Instant) (name : String) (metadata : RequestMetadata) (store : Store)
      (row : ThrottleRow)
      → name_row service now name metadata store.throttles ≡ row
      → is_denied service now name metadata store.throttles ≡ false
      → Counts name row
          (is_granted (reserve_login_attempt service now name metadata store).0)
          (reserve_login_attempt service now name metadata store).1
  granted-Counts now name metadata store row same free =
      let d = reserve-Decides service now name metadata store in
      let accepted : is_granted (reserve_login_attempt service now name metadata store).0 ≡ true =
        rw (d.answer, free) in
      let below : row.attempt_count < service.login_identifier_limit =
        (not-blocked service.login_identifier_limit now row (
          ap (blocked service.login_identifier_limit now) (sym same)
          ∙ (or-eq-false _ _ free).1)).0 in
      rw accepted (record {
        row' = charged row;
        found = d.name_charge ∙ rw free (ap (λ r. some (charged r)) same);
        same_window = refl;
        counted = omega arith;
        below = λ e. below;
      })

  own-Counts :
      (now : Instant) (name : String) (metadata : RequestMetadata) (store : Store)
      (row : ThrottleRow)
      → row_of name store ≡ some row
      → now - service.login_window_minutes * minute < row.window_started_at
      → Counts name row
          (is_granted (reserve_login_attempt service now name metadata store).0)
          (reserve_login_attempt service now name metadata store).1
  own-Counts now name metadata store row e w =
      let same = name_row-open now name metadata store row e w in
      elim (Bool-cases (is_denied service now name metadata store.throttles)) [
        | inl denied ↦ denied-Counts now name metadata store row same denied
        | inr free ↦ granted-Counts now name metadata store row same free
      ]

  -- A statement that leaves the row of `target` in place.
  kept-Counts :
      (target : String) (row : ThrottleRow) (store store' : Store)
      → row_of target store ≡ some row
      → row_of target store' ≡ row_of target store
      → Counts target row false store'
  kept-Counts target row store store' e same = record {
    row' = row;
    found = same ∙ e;
    same_window = refl;
    counted = omega arith;
    below = λ h. cc;
  }

  attempt-Counts :
      (target : String) (now : Instant) (name : String) (metadata : RequestMetadata) (store : Store)
      (row : ThrottleRow)
      → row_of target store ≡ some row
      → InWindow target row.window_started_at (attempt now name metadata)
      → Counts target row
          (grants target (attempt now name metadata) store)
          (after (attempt now name metadata) store)
  unfolding after grants
  attempt-Counts target now name metadata store row e w =
      elim (Bool-cases (service.digest name == service.digest target)) [
        | inl same ↦
            let k : service.digest name ≡ service.digest target = (String_eq.beq_iff _ _).0 same in
            let own =
              own-Counts now name metadata store row
                (ap (λ key. find_row (is_bucket identifier key) store.throttles) k ∙ e) w in
            rw same (record {
              row' = own.row';
              found =
                  ap
                    (λ key.
                      find_row (is_bucket identifier key)
                        (reserve_login_attempt service now name metadata store).1.throttles)
                    (sym k)
                  ∙ own.found;
              same_window = own.same_window;
              counted = own.counted;
              below = own.below;
            })
        | inr other ↦ rw other (
            kept-Counts target row store _ e (
              reserve_leaves_others service now name metadata store identifier
                (service.digest target) (inl (λ h. cc)) (inr (ne_of_beq _ _ other))))
      ]

  penalized-Counts :
      (target : String) (now : Instant) (name : String) (store : Store) (row other : ThrottleRow)
      → row_of target store ≡ some row
      → row_of name store ≡ some other
      → Counts target row false (or_keep store (penalize_login service now name store))
  unfolding penalize_login
  penalized-Counts target now name store row other e o =
      let f : ThrottleRow → ThrottleRow =
        λ r. record r { next_allowed_at = now + penalty other.attempt_count } in
      rw (o, penalize_login)
        (elim (Bool-cases (service.digest name == service.digest target)) [
          | inl same ↦
              let k : service.digest name ≡ service.digest target =
                (String_eq.beq_iff _ _).0 same in
              rw k (record {
                row' = f row;
                found =
                    find_row-update_bucket identifier (service.digest target) f (λ r. (refl, refl))
                      store.throttles
                    ∙ ap (Option.map f) e;
                same_window = refl;
                counted = omega arith;
                below = λ h. cc;
              })
          | inr apart ↦ kept-Counts target row store _ e (
              find_row-update-Apart identifier (service.digest name) f (λ r. (refl, refl))
                identifier (service.digest target) store.throttles (inr (ne_of_beq _ _ apart)))
        ])

  failure-Counts :
      (target : String) (now : Instant) (name : String) (store : Store) (row : ThrottleRow)
      → row_of target store ≡ some row
      → Counts target row false (after (failure now name) store)
  unfolding after
  failure-Counts target now name store row e = elim (Option-cases (row_of name store)) [
    | inl missing ↦
        unfold penalize_login in
        rw (missing, penalize_login) (kept-Counts target row store store e refl)
    | inr (other, o) ↦ penalized-Counts target now name store row other e o
  ]

  success-Counts :
      (target name : String) (metadata : RequestMetadata) (store : Store) (row : ThrottleRow)
      → row_of target store ≡ some row
      → service.digest name ≢ service.digest target
      → Counts target row false (after (success name metadata) store)
  unfolding after release_successful_attempt
  success-Counts target name metadata store row e apart = kept-Counts target row store _ e (
      find_row-update-Apart ip (service.digest metadata.observed_ip) released (λ r. (refl, refl))
        identifier (service.digest target) _ (inl (λ h. cc))
      ∙ find_row-update-Apart identifier (service.digest name) released (λ r. (refl, refl))
          identifier (service.digest target) store.throttles (inr apart))
    where
      released : ThrottleRow → ThrottleRow
      released r = record r { attempt_count = r.attempt_count - 1 }

  step-Counts :
      (target : String) (t : Traffic) (store : Store) (row : ThrottleRow)
      → row_of target store ≡ some row
      → InWindow target row.window_started_at t
      → Counts target row (grants target t store) (after t store)
  step-Counts target (attempt now name metadata) store row e w =
      attempt-Counts target now name metadata store row e w
  step-Counts target (failure now name) store row e w =
      unfold grants in failure-Counts target now name store row e
  step-Counts target (success name metadata) store row e w =
      unfold grants in success-Counts target name metadata store row e w

  -- While the window of a name that has a bucket is open and nobody logs in under it, at most the
  -- limit less the attempts already charged are granted, and none if those are more, whatever the
  -- other calls, their order and addresses.
  pub count_grants-le-limit :
      (target : String) (row : ThrottleRow) (ts : List Traffic) (store : Store)
      → row_of target store ≡ some row
      → All (InWindow target row.window_started_at) ts
      → count_grants target ts store + row.attempt_count
        ≤ max service.login_identifier_limit row.attempt_count
  unfolding count_grants
  count_grants-le-limit target row [] store e w = omega arith
  count_grants-le-limit target row (t ∷ ts) store e w =
      let c = step-Counts target t store row e w.0 in
      let rest =
        count_grants-le-limit target c.row' ts (after t store) c.found (rw c.same_window w.1) in
      ground (arith, c.counted, c.below, rest)
