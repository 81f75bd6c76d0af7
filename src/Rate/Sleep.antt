-- ===== src/Rate/Sleep.antt =====
-- `Rate.Sleep` of ros/rate.go, in nanoseconds.
use rosgo.Prelude.{
  ℕ, ◌+◌, ◌-◌, ◌≤◌, ◌<◌, ◌≡◌, refl, ◌∙◌, true, false, ok, err, panic, stuck, arith, inl, inr, ◌⊎◌,
}
use rosgo.Temporal.{Temporal, Outcome, cmp, cmp_uint64, sub, to_nsec, is_zero}
use rosgo.Temporal.Arith.{IsNormal, SubEnds, sub-SubEnds}
use native.Mathlib.Decide.{dec_lt}
use rosgo.Rate.{Rate, at_least, zero_duration, remaining, pause, sleep}

cmp_uint64-cases :
    (a b : ℕ)
    → (at_least (cmp_uint64 a b) ≡ true) × (b ≤ a) ⊎ (at_least (cmp_uint64 a b) ≡ false) × (a < b)
unfolding cmp_uint64
cmp_uint64-cases a b = elim (dec_lt a b) [
  | yes lt ↦ inr (ground arith, lt)
  | no ge ↦ inl (ground arith, omega arith)
]

to_nsec-zero : to_nsec zero_duration ≡ 0
unfolding to_nsec
to_nsec-zero = refl

Cmp-cases :
    (t d : Temporal)
    → (at_least (cmp t d) ≡ true) × (to_nsec d ≤ to_nsec t)
      ⊎ (at_least (cmp t d) ≡ false) × (to_nsec t < to_nsec d)
unfolding cmp
Cmp-cases t d = cmp_uint64-cases (to_nsec t) (to_nsec d)

pause-to_nsec : (d : Temporal) → pause d ≡ to_nsec d
unfolding pause is_zero to_nsec
pause-to_nsec d = ground arith

-- A subtraction of a smaller normal temporal returns.
sub-ok :
    (t d : Temporal)
    → IsNormal t
    → IsNormal d
    → to_nsec d ≤ to_nsec t
    → (r : Temporal) × (sub t d ≡ ok r) × IsNormal r × (to_nsec r + to_nsec d ≡ to_nsec t)
sub-ok t d v w h = ends (sub t d) refl (sub-SubEnds t d v w)
  where
    ends :
        (o : Outcome Temporal)
        → sub t d ≡ o
        → SubEnds (to_nsec t) (to_nsec d) o
        → (r : Temporal) × (sub t d ≡ ok r) × IsNormal r × (to_nsec r + to_nsec d ≡ to_nsec t)
    ends (ok r) e s = (r, e, s.0, s.1)
    ends panic e s = absurd (omega arith)
    ends (err _) e s = absurd s
    ends stuck e s = absurd s

remaining-ok :
    (r : Rate) (end : Temporal)
    → IsNormal r.expected_cycle_time
    → IsNormal r.start
    → IsNormal end
    → to_nsec r.start ≤ to_nsec end
    → (d : Temporal) × (remaining r end ≡ ok d)
      × (to_nsec d ≡ to_nsec r.expected_cycle_time - (to_nsec end - to_nsec r.start))
unfolding remaining
remaining-ok r end v w x h =
    let (diff, e, vd, total) = sub-ok end r.start x w h in
    elim (Cmp-cases r.expected_cycle_time diff) [
      | inl (enough, le) ↦
          let (left, e', _, total') = sub-ok r.expected_cycle_time diff v vd le in
          (left, rw (e, enough) e', omega arith)
      | inr (over, lt) ↦ (zero_duration, rw (e, over), to_nsec-zero ∙ omega arith)
    ]

-- With normal readings of a clock that does not run backwards, `Sleep` returns. It pauses for what
-- is left of the cycle at the first reading, or not at all if nothing is left; then the cycle
-- time is what passed from the old start to the second reading, and that reading is the new start.
pub sleep-ok :
    (r : Rate) (end now : Temporal)
    → IsNormal r.expected_cycle_time
    → IsNormal r.start
    → IsNormal end
    → IsNormal now
    → to_nsec r.start ≤ to_nsec end
    → to_nsec end ≤ to_nsec now
    → (r' : Rate) × (sleep r end now
        ≡ ok (to_nsec r.expected_cycle_time - (to_nsec end - to_nsec r.start), r'))
      × (to_nsec r'.actual_cycle_time + to_nsec r.start ≡ to_nsec now)
      × (r'.start ≡ now)
      × (r'.expected_cycle_time ≡ r.expected_cycle_time)
unfolding sleep
sleep-ok r end now v w x y h k =
    let (d, e, left) = remaining-ok r end v w x h in
    let (actual, e', _, total) = sub-ok now r.start y w (omega arith) in
    (
      record r { actual_cycle_time = actual; start = now },
      rw (e, e', pause-to_nsec d, left),
      total,
      refl,
      refl,
    )
