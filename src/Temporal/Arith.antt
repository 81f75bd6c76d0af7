-- ===== src/Temporal/Arith.antt =====
-- ros/temporal.go: the methods of Time and Duration, in nanoseconds.
use rosgo.Prelude.{
  ℕ, ◌+◌, ◌*◌, ◌^◌, ◌≤◌, ◌<◌, ◌≡◌, ◌≢◌, sym, ap, ◌∙◌, inl, inr, ok, err, panic, stuck, arith,
}
use rosgo.Prelude.Int.{
  ℤ, pos, pos_part, neg_part, ◌+ℤ◌, ◌-ℤ◌, wrap64_id, part_zero, +ℤ_parts, -ℤ_parts,
}
use rosgo.Temporal.{Outcome, Temporal, to_nsec, from_nsec, add, sub}
use rosgo.Temporal.Normal.{
  Fits, SameInstant, Normalizes, LeavesFull, billion, normalize_temporal-Normalizes,
}

-- Both fields are uint32.
pub record IsTemporal (t : Temporal) : Type 0 where
  pub sec_u32 : t.sec < 2 ^ 32
  pub nsec_u32 : t.nsec < 2 ^ 32

-- Seconds in a uint32, and less than one second of nanoseconds.
pub record IsNormal (t : Temporal) : Type 0 where
  pub sec_u32 : t.sec < 2 ^ 32
  pub nsec_lt : t.nsec < billion

-- `ToNSec` does not overflow.
pub to_nsec_exact : (t : Temporal) → IsTemporal t → to_nsec t ≡ t.sec * billion + t.nsec
unfolding to_nsec
to_nsec_exact t v = omega arith

pub to_nsec_normal : (t : Temporal) → IsNormal t → to_nsec t ≡ t.sec * billion + t.nsec
unfolding to_nsec
to_nsec_normal t v = omega arith

temporal_eq : (t u : Temporal) → t.sec ≡ u.sec → t.nsec ≡ u.nsec → t ≡ u
temporal_eq t u h k = λ i. record { sec = h i; nsec = k i }

-- How `Add` may end, for a sum of `total` nanoseconds.
abbrev pub AddEnds : ℕ → Outcome Temporal → Type 0
AddEnds total (ok r) = IsTemporal r × (to_nsec r ≡ total) × (r.nsec ≤ billion)
AddEnds total panic = 2 ^ 32 * billion ≤ total
AddEnds total _ = ⊥

add_ends :
    (total : ℕ) (sec nsec : ℤ) (o : Outcome Temporal)
    → neg_part sec ≡ 0
    → neg_part nsec ≡ 0
    → pos_part sec * billion + pos_part nsec ≡ total
    → Normalizes sec nsec o
    → AddEnds total o
add_ends total sec nsec (ok r) hs hn e n =
    let v : IsTemporal r = record { sec_u32 = n.1; nsec_u32 = omega arith } in
    (v, to_nsec_exact r v ∙ omega arith, n.2)
add_ends total sec nsec panic hs hn e n = omega arith
add_ends total sec nsec (err _) hs hn e n = n
add_ends total sec nsec stuck hs hn e n = n

sum-Fits :
    (a b c d : ℕ)
    → a < 2 ^ 32
    → b < 2 ^ 32
    → c < 2 ^ 32
    → d < 2 ^ 32
    → Fits (pos a +ℤ pos b) (pos c +ℤ pos d)
unfolding ◌+ℤ◌
sum-Fits a b c d ha hb hc hd = ground arith

-- `Add` on two temporals adds their nanoseconds, or it panics and the sum is 2^32 seconds or more.
pub add-AddEnds :
    (t d : Temporal) → IsTemporal t → IsTemporal d → AddEnds (to_nsec t + to_nsec d) (add t d)
unfolding add
add-AddEnds t d v w =
    rw (to_nsec_exact t v, to_nsec_exact d w)
      (add_ends _ (pos t.sec +ℤ pos d.sec) (pos t.nsec +ℤ pos d.nsec) _
        (unfold ◌+ℤ◌ in ground arith) (unfold ◌+ℤ◌ in ground arith) (unfold ◌+ℤ◌ in ground arith)
        (normalize_temporal-Normalizes _ _
          (sum-Fits t.sec d.sec t.nsec d.nsec v.sec_u32 w.sec_u32 v.nsec_u32 w.nsec_u32)))

-- How `Sub` and `Diff` may end, from `a` nanoseconds less `b`.
abbrev pub SubEnds : ℕ → ℕ → Outcome Temporal → Type 0
SubEnds a b (ok r) = IsNormal r × (to_nsec r + b ≡ a)
SubEnds a b panic = a < b
SubEnds a b _ = ⊥

below_second : {n : ℕ} → n ≢ billion → n ≤ billion → n < billion
below_second h k = omega arith

sub_ends :
    (a b : ℕ) (sec nsec : ℤ) (o : Outcome Temporal)
    → pos_part nsec < billion
    → neg_part nsec < billion
    → pos_part sec < 2 ^ 32
    → pos_part sec * billion + pos_part nsec + b ≡ neg_part sec * billion + neg_part nsec + a
    → Normalizes sec nsec o
    → SubEnds a b o
sub_ends a b sec nsec (ok r) hp hn hs e n =
    let lt =
      below_second (λ h. elim (n.3 h) [ inl p ↦ omega arith | inr (p, q) ↦ omega arith ]) n.2 in
    let v : IsNormal r = record { sec_u32 = n.1; nsec_lt = lt } in
    (v, omega (arith, to_nsec_normal r v))
sub_ends a b sec nsec panic hp hn hs e n = omega (arith, part_zero sec, part_zero nsec)
sub_ends a b sec nsec (err _) hp hn hs e n = n
sub_ends a b sec nsec stuck hp hn hs e n = n

difference-Fits :
    (a b c d : ℕ)
    → a < 2 ^ 32
    → b < 2 ^ 32
    → c ≤ billion
    → d < billion
    → Fits (pos a -ℤ pos b) (pos c -ℤ pos d)
unfolding ◌-ℤ◌
difference-Fits a b c d ha hb hc hd = ground arith

-- On normal temporals (seconds in a uint32, less than 10^9 nanoseconds) `Sub` and `Diff` subtract the
-- nanoseconds, to a normal temporal, or they panic and the result would be negative.
pub sub-SubEnds :
    (t d : Temporal) → IsNormal t → IsNormal d → SubEnds (to_nsec t) (to_nsec d) (sub t d)
unfolding sub
sub-SubEnds t d v w =
    rw (to_nsec_normal t v, to_nsec_normal d w)
      (sub_ends _ _ (pos t.sec -ℤ pos d.sec) (pos t.nsec -ℤ pos d.nsec) _
        (omega (arith, -ℤ_parts (pos t.nsec) (pos d.nsec), part_zero (pos t.nsec -ℤ pos d.nsec)))
        (omega (arith, -ℤ_parts (pos t.nsec) (pos d.nsec), part_zero (pos t.nsec -ℤ pos d.nsec)))
        (omega (arith, -ℤ_parts (pos t.sec) (pos d.sec), part_zero (pos t.sec -ℤ pos d.sec)))
        (omega (arith, -ℤ_parts (pos t.nsec) (pos d.nsec), -ℤ_parts (pos t.sec) (pos d.sec)))
        (normalize_temporal-Normalizes _ _
          (difference-Fits t.sec d.sec t.nsec d.nsec v.sec_u32 w.sec_u32 (omega arith) w.nsec_lt)))

-- The same instant has one normal form.
normal_unique : (t u : Temporal) → IsNormal t → IsNormal u → to_nsec t ≡ to_nsec u → t ≡ u
normal_unique t u v w h =
    let e : t.sec * billion + t.nsec ≡ u.sec * billion + u.nsec =
      sym (to_nsec_normal t v) ∙ h ∙ to_nsec_normal u w in
    temporal_eq t u (omega arith) (omega arith)

-- An instant with a normal form is answered by it, if the input does not leave 10^9.
normal_answer :
    (sec nsec : ℤ) (o : Outcome Temporal) (t : Temporal)
    → Normalizes sec nsec o
    → IsNormal t
    → SameInstant sec nsec (pos t.sec) (pos t.nsec)
    → ¬ LeavesFull nsec
    → o ≡ ok t
normal_answer sec nsec (ok r) t n v e not_full =
    let lt : r.nsec < billion = below_second (λ h. not_full (n.3 h)) n.2 in
    ap ok (temporal_eq r t (omega arith) (omega arith))
normal_answer sec nsec panic t n v e not_full = elim n [
  | inl early ↦ absurd (omega arith)
  | inr (inl late) ↦ absurd (omega arith)
  | inr (inr (full, _)) ↦ absurd (not_full full)
]
normal_answer sec nsec (err _) t n v e not_full = absurd n
normal_answer sec nsec stuck t n v e not_full = absurd n

not_LeavesFull : (nsec : ℤ) → pos_part nsec ≢ billion → neg_part nsec < billion → ¬ LeavesFull nsec
not_LeavesFull nsec hp hn (inl e) = hp e
not_LeavesFull nsec hp hn (inr (lt, e)) = omega arith

-- What `Add` answers, in the terms of the fields.
add_fields :
    (t d r : Temporal)
    → IsNormal t
    → IsNormal d
    → add t d ≡ ok r
    → (r.sec * billion + r.nsec ≡ t.sec * billion + t.nsec + (d.sec * billion + d.nsec))
      × (r.sec < 2 ^ 32)
      × (r.nsec ≤ billion)
      × (r.nsec ≡ billion → t.nsec + d.nsec ≡ billion)
unfolding add
add_fields t d r v w h =
    let n : Normalizes (pos t.sec +ℤ pos d.sec) (pos t.nsec +ℤ pos d.nsec) (ok r) = rw h at (
      normalize_temporal-Normalizes _ _
        (sum-Fits t.sec d.sec t.nsec d.nsec v.sec_u32 w.sec_u32 (omega arith) (omega arith))) in
    (
      omega (arith, +ℤ_parts (pos t.sec) (pos d.sec), +ℤ_parts (pos t.nsec) (pos d.nsec)),
      n.1,
      n.2,
      λ h'. elim (n.3 h') [
        | inl e ↦
            omega (arith, +ℤ_parts (pos t.nsec) (pos d.nsec), part_zero (pos t.nsec +ℤ pos d.nsec))
        | inr (lt, _) ↦
            omega (arith, +ℤ_parts (pos t.nsec) (pos d.nsec), part_zero (pos t.nsec +ℤ pos d.nsec))
      ],
    )

-- For two normal temporals (seconds in a uint32, less than 10^9 nanoseconds) whose `Add` returns:
-- taking away what was added gives the first one back.
pub sub-add :
    (t d : Temporal) {r : Temporal} → IsNormal t → IsNormal d → add t d ≡ ok r → sub r d ≡ ok t
unfolding sub
sub-add t d {r} v w h =
    let (e, sec_u32, nsec_le, full) = add_fields t d r v w h in
    let dn = pos r.nsec -ℤ pos d.nsec in
    normal_answer (pos r.sec -ℤ pos d.sec) dn _ t
      (normalize_temporal-Normalizes _ _
        (difference-Fits r.sec d.sec r.nsec d.nsec sec_u32 w.sec_u32 nsec_le w.nsec_lt))
      v (omega (arith, -ℤ_parts (pos r.nsec) (pos d.nsec), -ℤ_parts (pos r.sec) (pos d.sec)))
      (not_LeavesFull dn
        (λ z.
          let parts = -ℤ_parts (pos r.nsec) (pos d.nsec) in
          omega (arith, parts, part_zero dn, full (omega (arith, parts, part_zero dn))))
        (omega (arith, -ℤ_parts (pos r.nsec) (pos d.nsec), part_zero dn)))

-- `FromNSec` undoes `ToNSec` on normal temporals, but for the one second that it leaves in `NSec`.
pub from_nsec-to_nsec :
    (t : Temporal) → IsNormal t → to_nsec t ≢ billion → from_nsec (to_nsec t) ≡ ok t
unfolding from_nsec
from_nsec-to_nsec t v h =
    let e = to_nsec_normal t v in
    rw (wrap64_id (pos (to_nsec t)) (omega (arith, e)) (omega arith)) (
      normal_answer (pos 0) (pos (to_nsec t)) _ t
        (normalize_temporal-Normalizes (pos 0) (pos (to_nsec t)) (omega (arith, e))) v
        (omega (arith, e)) (not_LeavesFull (pos (to_nsec t)) h (omega arith)))
