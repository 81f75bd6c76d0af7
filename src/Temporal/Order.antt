-- ===== src/Temporal/Order.antt =====
-- `Cmp` of ros/temporal.go, through nanoseconds and on the fields.
use rosgo.Prelude.{ℕ, ◌*◌, ◌+◌, ◌<◌, ◌≡◌, ◌==◌, if◌then◌else◌, arith}
use rosgo.Temporal.{Temporal, Cmp, cmp_uint64, cmp}
use rosgo.Temporal.Normal.{billion}
use rosgo.Temporal.Arith.{IsNormal, to_nsec_normal}

-- Seconds first, then nanoseconds.
abbrev pub cmp_fields : Temporal → Temporal → Cmp
cmp_fields t d = if t.sec == d.sec then cmp_uint64 t.nsec d.nsec else cmp_uint64 t.sec d.sec

cmp_weighted :
    (a b c d : ℕ)
    → b < billion
    → d < billion
    → cmp_uint64 (a * billion + b) (c * billion + d)
      ≡ (if a == c then cmp_uint64 b d else cmp_uint64 a c)
unfolding cmp_uint64
cmp_weighted a b c d hb hd = ground arith

-- `Cmp` on normal temporals compares the seconds, and then the nanoseconds.
pub cmp-cmp_fields : (t d : Temporal) → IsNormal t → IsNormal d → cmp t d ≡ cmp_fields t d
unfolding cmp
cmp-cmp_fields t d v w =
    rw (to_nsec_normal t v, to_nsec_normal d w)
      (cmp_weighted t.sec t.nsec d.sec d.nsec v.nsec_lt w.nsec_lt)
