-- ===== src/Licensing/Clock.antt =====
-- internal/licensing/client.go, effectiveTime. A sample of Go's clock has a wall time, which anyone
-- may set, and a monotonic reading, which `Sub` uses; `UTC` strips the latter. A stored instant that
-- utcInstant does not parse is `none`.
pub mod Advance
use expediente.Base.{ℕ, ◌+◌, ◌-◌, ◌*◌, Bool, true, false, Option, none, some, ltb, if◌then◌else◌}
use expediente.Domain.{Instant, minute}

pub record Sample : Type 0 where
  pub wall : Instant
  pub monotonic : ℕ

-- The fields of `localState` that the clock reads.
pub record Stored : Type 0 where
  pub trusted : Option Instant
  pub observed : Option Instant

-- `lastEffective` with the monotonic reading of `lastSample`, once there is one.
pub record Memory : Type 0 where
  pub effective : Instant
  pub reading : ℕ

-- The body of the loop over the stored instants.
unfoldable pub raised : Instant → Option Instant → Instant
raised effective none = effective
raised effective (some instant) = if ltb effective instant then instant else effective

-- What the client makes of its memory, with the time elapsed since, at least 0.
unfoldable pub advanced : Sample → Option Memory → Instant → Instant
advanced sample none effective = effective
advanced sample (some last) effective =
    if ltb effective (last.effective + (sample.monotonic - last.reading))
    then last.effective + (sample.monotonic - last.reading)
    else effective

-- `effectiveTime`: the time, the warning on the clock, and the client's memory behind the call.
pub record Reading : Type 0 where
  pub effective : Instant
  pub warning : Bool
  pub memory : Memory

unfoldable pub effective_instant : Stored → Sample → Option Memory → Instant
effective_instant stored sample memory =
    advanced sample memory (raised (raised sample.wall stored.trusted) stored.observed)

unfoldable pub effective_time : Stored → Sample → Option Memory → Reading
effective_time stored sample memory = record {
  effective = effective_instant stored sample memory;
  warning = ltb (sample.wall + 5 * minute) (effective_instant stored sample memory);
  memory = record {
    effective = effective_instant stored sample memory;
    reading = sample.monotonic;
  };
}
