-- ===== src/Rate.antt =====
-- ros/rate.go, with the clock readings as arguments: `Sleep` reads the clock before and after it
-- pauses. `NewRate` is left out, since it divides floats.
pub mod Sleep
use rosgo.Prelude.{ℕ, ◌≡◌, Bool, true, false, if◌then◌else◌, Result, ok, panic, ◌>>=◌}
use rosgo.Temporal.{Temporal, Outcome, Cmp, less, equal, greater, cmp, sub, new, is_zero, to_nsec}

pub record Rate : Type 0 where
  pub actual_cycle_time : Temporal
  pub expected_cycle_time : Temporal
  pub start : Temporal

abbrev pub zero_duration : Temporal
zero_duration = record { sec = 0; nsec = 0 }

unfoldable pub of_cycle_time : Temporal → Temporal → Rate
of_cycle_time d now = record {
  actual_cycle_time = zero_duration;
  expected_cycle_time = d;
  start = now;
}

unfoldable pub reset : Rate → Temporal → Outcome Rate
reset r now = do zeroed ← new 0 0; ok (record r { actual_cycle_time = zeroed; start = now })

abbrev pub at_least : Cmp → Bool
at_least less = false
at_least _ = true

-- What `Sleep` has left of the cycle at the reading `end`.
unfoldable pub remaining : Rate → Temporal → Outcome Temporal
remaining r end = do
  diff ← sub end r.start
  if at_least (cmp r.expected_cycle_time diff)
      then sub r.expected_cycle_time diff
      else ok zero_duration

-- `Duration.Sleep`: the nanoseconds for which the goroutine pauses.
unfoldable pub pause : Temporal → ℕ
pause d = if is_zero d then 0 else to_nsec d

-- The pause, and the rate that is left at the reading `now` after it.
unfoldable pub sleep : Rate → Temporal → Temporal → Outcome (ℕ × Rate)
sleep r end now = do
  left ← remaining r end
  actual ← sub now r.start
  ok (pause left, record r { actual_cycle_time = actual; start = now })
