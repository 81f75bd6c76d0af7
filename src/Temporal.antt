-- ===== src/Temporal.antt =====
-- ros/temporal.go, ros/time.go, ros/duration.go: seconds and nanoseconds as two uint32 fields.
-- The float conversions are left out. A clock reading (`Now`) is an argument.
pub mod Normal
pub mod Arith
pub mod Order
use rosgo.Prelude.{
  ℕ, ◌+◌, ◌-◌, ◌*◌, ◌%◌, ◌^◌, Bool, ◌&&◌, ◌||◌, ltb, ◌==◌, if◌then◌else◌, Result, ok, panic, ◌>>=◌,
}
use rosgo.Prelude.Int.{ℤ, pos, ◌+ℤ◌, ◌-ℤ◌, ltb_ℤ, quot, rem, wrap64, to_u32}

abbrev pub second_in_nanosecond : ℕ
second_in_nanosecond = 1_000_000_000

abbrev pub max_uint32 : ℕ
max_uint32 = 2 ^ 32 - 1

pub record Temporal : Type 0 where
  pub sec : ℕ
  pub nsec : ℕ

-- No call here returns an error value.
abbrev pub Outcome : Type 0 → Type 0
Outcome = Result (Unit {0})

-- The two branches that move whole seconds from `nsec` to `sec`.
pub carry : ℤ → ℤ → ℤ × ℤ
carry sec nsec =
    if ltb_ℤ (pos second_in_nanosecond) nsec
    then (wrap64 (sec +ℤ quot nsec second_in_nanosecond), rem nsec second_in_nanosecond)
    else if ltb_ℤ nsec (pos 0)
    then (
      wrap64 (sec +ℤ (quot nsec second_in_nanosecond -ℤ pos 1)),
      rem nsec second_in_nanosecond +ℤ pos second_in_nanosecond,
    )
    else (sec, nsec)

pub in_range : ℤ → ℤ → Outcome Temporal
in_range sec nsec =
    if ltb_ℤ sec (pos 0) || ltb_ℤ (pos max_uint32) sec
    then panic
    else ok (record { sec = to_u32 sec; nsec = to_u32 nsec })

unfoldable pub normalize_temporal : ℤ → ℤ → Outcome Temporal
unfolding carry in_range
normalize_temporal sec nsec = let (s, n) = carry sec nsec in in_range s n

-- The result of `cmpUint64`: -1, 0 or 1.
pub data Cmp : Type 0 where
  less equal greater : Cmp

unfoldable pub cmp_uint64 : ℕ → ℕ → Cmp
cmp_uint64 lhs rhs = if ltb rhs lhs then greater else if ltb lhs rhs then less else equal

unfoldable pub is_zero : Temporal → Bool
is_zero t = t.sec == 0 && t.nsec == 0

-- uint64 arithmetic.
unfoldable pub to_nsec : Temporal → ℕ
to_nsec t = (t.sec * 1_000_000_000 % 2 ^ 64 + t.nsec) % 2 ^ 64

-- `int64(nsec)` reads the uint64 as a signed number.
unfoldable pub from_nsec : ℕ → Outcome Temporal
unfolding normalize_temporal
from_nsec nsec = normalize_temporal (pos 0) (wrap64 (pos nsec))

unfoldable pub normalize : Temporal → Outcome Temporal
unfolding normalize_temporal
normalize t = normalize_temporal (pos t.sec) (pos t.nsec)

-- `NewTime`, `NewDuration`.
unfoldable pub new : ℕ → ℕ → Outcome Temporal
unfolding normalize_temporal
new sec nsec = normalize_temporal (pos sec) (pos nsec)

-- `Time.Add`, `Duration.Add`. A sum or difference of two uint32 does not leave int64.
unfoldable pub add : Temporal → Temporal → Outcome Temporal
unfolding normalize_temporal
add t d = normalize_temporal (pos t.sec +ℤ pos d.sec) (pos t.nsec +ℤ pos d.nsec)

-- `Time.Diff`, `Time.Sub`, `Duration.Sub`.
unfoldable pub sub : Temporal → Temporal → Outcome Temporal
unfolding normalize_temporal
sub t d = normalize_temporal (pos t.sec -ℤ pos d.sec) (pos t.nsec -ℤ pos d.nsec)

-- `Time.Cmp`, `Duration.Cmp`.
unfoldable pub cmp : Temporal → Temporal → Cmp
unfolding cmp_uint64 to_nsec
cmp t d = cmp_uint64 (to_nsec t) (to_nsec d)
