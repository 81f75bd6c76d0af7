-- ===== src/Tests/Times.antt =====
-- Times, durations and rates (ros/temporal.go, ros/time.go, ros/duration.go, ros/rate.go).
use rosgo.Prelude.{◌+◌, ◌≡◌, refl, ok, arith}
use rosgo.Prelude.Int.{pos, negsuc, ◌+ℤ◌, wrap64, quot, to_u32, rem}
use rosgo.Temporal.{Temporal, normalize_temporal, add, sub, to_nsec, from_nsec}
use rosgo.Temporal.Normal.{Fits, Normalizes, normalize_temporal-Normalizes}
use rosgo.Temporal.Arith.{
  IsTemporal, IsNormal, AddEnds, SubEnds, add-AddEnds, sub-SubEnds, sub-add, from_nsec-to_nsec,
}
use rosgo.Rate.{Rate}

-- 5.7 and 2.6 seconds, and their sum.
abbrev early : Temporal
early = record { sec = 5; nsec = 700_000_000 }

abbrev two_six : Temporal
two_six = record { sec = 2; nsec = 600_000_000 }

abbrev late : Temporal
late = record { sec = 8; nsec = 300_000_000 }

early-IsNormal : IsNormal early
early-IsNormal = record { sec_u32 = omega arith; nsec_lt = omega arith }

two_six-IsNormal : IsNormal two_six
two_six-IsNormal = record { sec_u32 = omega arith; nsec_lt = omega arith }

late-IsNormal : IsNormal late
late-IsNormal = record { sec_u32 = omega arith; nsec_lt = omega arith }

early-IsTemporal : IsTemporal early
early-IsTemporal = record { sec_u32 = omega arith; nsec_u32 = omega arith }

two_six-IsTemporal : IsTemporal two_six
two_six-IsTemporal = record { sec_u32 = omega arith; nsec_u32 = omega arith }

sample-Fits : Fits (pos 3) (negsuc 1_499_999_999)
sample-Fits = record {
  sec_lo = omega arith;
  sec_hi = omega arith;
  nsec_lo = omega arith;
  nsec_hi = omega arith;
}

normalize_temporal-Normalizes_example :
    Normalizes (pos 3) (negsuc 1_499_999_999) (normalize_temporal (pos 3) (negsuc 1_499_999_999))
normalize_temporal-Normalizes_example =
    normalize_temporal-Normalizes (pos 3) (negsuc 1_499_999_999) sample-Fits

add-AddEnds_example : AddEnds (to_nsec early + to_nsec two_six) (add early two_six)
add-AddEnds_example = add-AddEnds early two_six early-IsTemporal two_six-IsTemporal

sub-SubEnds_example : SubEnds (to_nsec late) (to_nsec two_six) (sub late two_six)
sub-SubEnds_example = sub-SubEnds late two_six late-IsNormal two_six-IsNormal

added : add early two_six ≡ ok late
unfolding add normalize_temporal ◌+ℤ◌ wrap64 quot to_u32 rem
added = refl

sub-add_example : sub late two_six ≡ ok early
sub-add_example = sub-add early two_six early-IsNormal two_six-IsNormal added

from_nsec-to_nsec_example : from_nsec (to_nsec early) ≡ ok early
from_nsec-to_nsec_example = from_nsec-to_nsec early early-IsNormal (unfold to_nsec in omega arith)

abbrev waiting : Rate
waiting = record { actual_cycle_time = two_six; expected_cycle_time = early; start = two_six }
