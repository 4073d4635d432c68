-- ===== src/Identity/Throttle/Windows.antt =====
-- What each statement of the throttle makes of the row of a bucket.
use mathlib.Core.Option
use expediente.Base.{
  true, false, String, String_eq, List, [], ◌∷◌, Option, none, some, leb, if◌then◌else◌, find_row,
  find_row_sound, find_row-update_rows, updated, update_rows, ◌≡◌, refl, ◌∙◌, ◌↔◌, ◌⊎◌, ◌≢◌, inl,
  inr, arith, Bool-cases,
}
use expediente.Domain.{Instant}
use expediente.Identity.{Scope, Scope_eq, ThrottleRow}
use expediente.Identity.Throttle.{is_bucket, fresh_window, open_window}

-- The row by which an attempt is judged: that of a new window, where the last one is over.
abbrev pub window : Scope → String → Instant → Instant → Option ThrottleRow → ThrottleRow
window scope key now cutoff none = fresh_window scope key now
window scope key now cutoff (some row) =
    if leb row.window_started_at cutoff then fresh_window scope key now else row

pub is_bucket_iff :
    (scope : Scope) (key : String) (row : ThrottleRow)
    → (is_bucket scope key row ≡ true) ↔ ((row.scope ≡ scope) × (row.key_digest ≡ key))
unfolding is_bucket
is_bucket_iff scope key row =
    ground (arith, Scope_eq.beq_iff row.scope scope, String_eq.beq_iff row.key_digest key)

pub find_row-open_window :
    (scope : Scope) (key : String) (now cutoff : Instant) (rows : List ThrottleRow)
    → find_row (is_bucket scope key) (open_window scope key now cutoff rows)
      ≡ some (window scope key now cutoff (find_row (is_bucket scope key) rows))
unfolding find_row open_window
find_row-open_window scope key now cutoff [] =
    ground (arith, is_bucket_iff scope key (fresh_window scope key now))
find_row-open_window scope key now cutoff (row ∷ rows) =
    elim (Bool-cases (is_bucket scope key row)) [
      | inl e ↦ ground (
        arith,
        is_bucket_iff scope key row,
        is_bucket_iff scope key (fresh_window scope key now),
        is_bucket_iff scope key
            (record row { attempt_count = 0; window_started_at = now; next_allowed_at = now }),
      )
      | inr e ↦
          rw (e, open_window) (rw (e, find_row) (find_row-open_window scope key now cutoff rows))
    ]

-- A statement on one bucket leaves the others' rows.
abbrev pub Apart : Scope → String → Scope → String → Type 0
Apart scope key scope' key' = (scope ≢ scope') ⊎ (key ≢ key')

not-is_bucket :
    (scope scope' : Scope) (key key' : String) (row : ThrottleRow)
    → Apart scope key scope' key'
    → is_bucket scope key row ≡ true
    → is_bucket scope' key' row ≡ false
not-is_bucket scope scope' key key' row apart e =
    ground (arith, is_bucket_iff scope key row, is_bucket_iff scope' key' row)

pub find_row-open_window-Apart :
    (scope scope' : Scope) (key key' : String) (now cutoff : Instant) (rows : List ThrottleRow)
    → Apart scope key scope' key'
    → find_row (is_bucket scope' key') (open_window scope key now cutoff rows)
      ≡ find_row (is_bucket scope' key') rows
unfolding find_row open_window
find_row-open_window-Apart scope scope' key key' now cutoff [] apart = ground (
  arith,
  is_bucket_iff scope key (fresh_window scope key now),
  is_bucket_iff scope' key' (fresh_window scope key now),
)
find_row-open_window-Apart scope scope' key key' now cutoff (row ∷ rows) apart =
    elim (Bool-cases (is_bucket scope key row)) [
      | inl e ↦ ground (
        arith,
        is_bucket_iff scope key row,
        is_bucket_iff scope' key' row,
        is_bucket_iff scope' key'
            (record row { attempt_count = 0; window_started_at = now; next_allowed_at = now }),
      )
      | inr e ↦
          ground (arith, find_row-open_window-Apart scope scope' key key' now cutoff rows apart)
    ]

-- An UPDATE of one bucket that keeps its keys, as the throttle's all do.
module _ (scope : Scope) (key : String) (f : ThrottleRow → ThrottleRow)
    (same : (row : ThrottleRow)
      → ((f row).scope ≡ row.scope) × ((f row).key_digest ≡ row.key_digest)) where
  is_bucket-updated :
      (scope' : Scope) (key' : String) (row : ThrottleRow)
      → is_bucket scope' key' (updated (is_bucket scope key) f row) ≡ is_bucket scope' key' row
  is_bucket-updated scope' key' row =
      ground (arith, same row, is_bucket_iff scope' key' row, is_bucket_iff scope' key' (f row))

  pub find_row-update_bucket :
      (rows : List ThrottleRow)
      → find_row (is_bucket scope key) (update_rows (is_bucket scope key) f rows)
        ≡ Option.map f (find_row (is_bucket scope key) rows)
  find_row-update_bucket rows =
      find_row-update_rows _ _ f rows (is_bucket-updated scope key)
      ∙ found (find_row (is_bucket scope key) rows) refl
    where
      found :
          (o : Option ThrottleRow)
          → find_row (is_bucket scope key) rows ≡ o
          → Option.map (updated (is_bucket scope key) f) o ≡ Option.map f o
      found none e = refl
      found (some row) e = ground (arith, find_row_sound (is_bucket scope key) rows e)

  pub find_row-update-Apart :
      (scope' : Scope) (key' : String) (rows : List ThrottleRow)
      → Apart scope key scope' key'
      → find_row (is_bucket scope' key') (update_rows (is_bucket scope key) f rows)
        ≡ find_row (is_bucket scope' key') rows
  find_row-update-Apart scope' key' rows apart =
      find_row-update_rows _ _ f rows (is_bucket-updated scope' key')
      ∙ found (find_row (is_bucket scope' key') rows) refl
    where
      found :
          (o : Option ThrottleRow)
          → find_row (is_bucket scope' key') rows ≡ o
          → Option.map (updated (is_bucket scope key) f) o ≡ o
      found none e = refl
      found (some row) e = ground (
        arith,
        find_row_sound (is_bucket scope' key') rows e,
        is_bucket_iff scope key row,
        is_bucket_iff scope' key' row,
      )
