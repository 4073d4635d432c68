-- ===== src/Licensing/Clock/Advance.antt =====
-- The clock of the license client does not go back.
use expediente.Base.{◌+◌, ◌-◌, ◌≤◌, List, [], ◌∷◌, Option, none, some, arith}
use expediente.Licensing.Clock.{
  Stored, effective_time, Sample, effective_instant, advanced, Memory, raised,
}
use expediente.Domain.{Instant}

-- A stored instant, where there is one, is not after the time.
pub NotAfter : Option Instant → Instant → Type 0
NotAfter none effective = Unit
NotAfter (some instant) effective = instant ≤ effective

raised-NotAfter :
    (effective : Instant) (stored : Option Instant) (last : Instant)
    → raised effective stored ≤ last
    → (effective ≤ last) × NotAfter stored last
unfolding raised NotAfter
raised-NotAfter effective none last h = (h, tt)
raised-NotAfter effective (some instant) last h = ground arith

advanced_le :
    (sample : Sample) (memory : Option Memory) (effective : Instant)
    → effective ≤ advanced sample memory effective
unfolding advanced
advanced_le sample none effective = omega arith
advanced_le sample (some last) effective = ground arith

-- The time is at least the wall time and each stored instant.
pub record Covers (stored : Stored) (sample : Sample) (effective : Instant) : Type 0 where
  pub wall_le : sample.wall ≤ effective
  pub trusted_le : NotAfter stored.trusted effective
  pub observed_le : NotAfter stored.observed effective

-- The time is never before the wall time or an instant that was stored.
pub effective_time-Covers :
    (stored : Stored) (sample : Sample) (memory : Option Memory)
    → Covers stored sample (effective_time stored sample memory).effective
unfolding effective_time effective_instant
effective_time-Covers stored sample memory =
    let first = raised sample.wall stored.trusted in
    let (behind_trusted, observed_le) =
      raised-NotAfter first stored.observed _ (advanced_le sample memory _) in
    let (wall_le, trusted_le) = raised-NotAfter sample.wall stored.trusted _ behind_trusted in
    record { wall_le = wall_le; trusted_le = trusted_le; observed_le = observed_le }

pub effective_time_advances :
    (stored : Stored) (sample : Sample) (last : Memory)
    → last.effective + (sample.monotonic - last.reading)
      ≤ (effective_time stored sample (some last)).effective
unfolding effective_time effective_instant advanced
effective_time_advances stored sample last = ground arith

-- The memory behind a sequence of calls.
unfoldable pub after_calls : List (Stored × Sample) → Memory → Memory
after_calls [] last = last
after_calls ((stored, sample) ∷ calls) last =
    after_calls calls (effective_time stored sample (some last)).memory

-- Over any sequence of calls the time does not go back.
pub after_calls_le :
    (calls : List (Stored × Sample)) (last : Memory)
    → last.effective ≤ (after_calls calls last).effective
unfolding after_calls effective_time
after_calls_le [] last = omega arith
after_calls_le ((stored, sample) ∷ calls) last = omega (
  arith,
  effective_time_advances stored sample last,
  after_calls_le calls (effective_time stored sample (some last)).memory,
)
