-- ===== src/Temporal/Normal.antt =====
-- `normalizeTemporal` of ros/temporal.go.
use rosgo.Prelude.{
  ℕ, Bool-cases, ◌+◌, ◌*◌, ◌%◌, ◌^◌, ◌≤◌, ◌<◌, ◌≡◌, sym, ◌⊎◌, inl, inr, ok, panic, arith,
}
use rosgo.Prelude.Int.{
  ℤ, pos, ltb_ℤ, pos_part, neg_part, ◌+ℤ◌, ◌-ℤ◌, quot, rem, quot_parts, rem_parts, wrap64,
  wrap64_id, to_u32, to_u32_id, part_zero, +ℤ_parts, -ℤ_parts,
}
use native.Mathlib.Decide.{dec_lt}
use rosgo.Temporal.{Outcome, Temporal, max_uint32, carry, in_range, normalize_temporal}

-- The values that the callers pass: a sum or difference of two uint32 as seconds, any int64 as
-- nanoseconds.
pub record Fits (sec nsec : ℤ) : Type 0 where
  pub sec_lo : neg_part sec ≤ 2 ^ 33
  pub sec_hi : pos_part sec ≤ 2 ^ 33
  pub nsec_lo : neg_part nsec ≤ 2 ^ 63
  pub nsec_hi : pos_part nsec < 2 ^ 63

-- sec * 10^9 + nsec = s * 10^9 + n, over the parts of the integers.
abbrev pub SameInstant : ℤ → ℤ → ℤ → ℤ → Type 0
SameInstant sec nsec s n =
    pos_part sec * 1_000_000_000 + pos_part nsec + neg_part s * 1_000_000_000 + neg_part n
    ≡ pos_part s * 1_000_000_000 + pos_part n + neg_part sec * 1_000_000_000 + neg_part nsec

abbrev pub billion : ℕ
billion = 1_000_000_000

-- No sum that `normalizeTemporal` makes leaves int64.
add_quot :
    (sec nsec : ℤ) → Fits sec nsec → wrap64 (sec +ℤ quot nsec billion) ≡ sec +ℤ quot nsec billion
add_quot sec nsec f =
    let q = quot nsec billion in
    wrap64_id _ (omega (arith, +ℤ_parts sec q, part_zero (sec +ℤ q), quot_parts nsec billion))
      (omega (arith, +ℤ_parts sec q, part_zero (sec +ℤ q), quot_parts nsec billion))

add_quot_pred :
    (sec nsec : ℤ)
    → Fits sec nsec
    → wrap64 (sec +ℤ (quot nsec billion -ℤ pos 1)) ≡ sec +ℤ (quot nsec billion -ℤ pos 1)
add_quot_pred sec nsec f =
    let q = quot nsec billion in
    let r = quot nsec billion -ℤ pos 1 in
    wrap64_id _
      (omega (
        arith,
        +ℤ_parts sec r,
        -ℤ_parts q (pos 1),
        part_zero r,
        part_zero (sec +ℤ r),
        quot_parts nsec billion,
      ))
      (omega (
        arith,
        +ℤ_parts sec r,
        -ℤ_parts q (pos 1),
        part_zero r,
        part_zero (sec +ℤ r),
        quot_parts nsec billion,
      ))

-- The inputs that leave 10^9 itself as nanoseconds.
abbrev pub LeavesFull : ℤ → Type 0
LeavesFull nsec = (pos_part nsec ≡ billion) ⊎ (0 < neg_part nsec) × (neg_part nsec % billion ≡ 0)

-- What `carry` is for, on each branch: the instant stays, and `nsec` comes to lie from 0 to 10^9.
pub record Carried (sec nsec s n : ℤ) : Type 0 where
  pub same : SameInstant sec nsec s n
  pub nonneg : neg_part n ≡ 0
  pub bounded : pos_part n ≤ billion
  pub full : pos_part n ≡ billion → LeavesFull nsec

above :
    (sec nsec : ℤ)
    → Fits sec nsec
    → billion < pos_part nsec
    → Carried sec nsec (wrap64 (sec +ℤ quot nsec billion)) (rem nsec billion)
above sec nsec f h = rw (add_quot sec nsec f) (
    omega (
      arith,
      +ℤ_parts sec (quot nsec billion),
      part_zero nsec,
      quot_parts nsec billion,
      rem_parts nsec billion,
    ))

below :
    (sec nsec : ℤ)
    → Fits sec nsec
    → 0 < neg_part nsec
    → Carried sec nsec
        (wrap64 (sec +ℤ (quot nsec billion -ℤ pos 1)))
        (rem nsec billion +ℤ pos billion)
below sec nsec f h = rw (add_quot_pred sec nsec f) (
    omega (
      arith,
      +ℤ_parts sec (quot nsec billion -ℤ pos 1),
      -ℤ_parts (quot nsec billion) (pos 1),
      +ℤ_parts (rem nsec billion) (pos billion),
      part_zero (rem nsec billion +ℤ pos billion),
      part_zero nsec,
      quot_parts nsec billion,
      rem_parts nsec billion,
    ))

pub carry-Carried :
    (sec nsec : ℤ) → Fits sec nsec → Carried sec nsec (carry sec nsec).0 (carry sec nsec).1
unfolding carry
carry-Carried sec nsec f = elim (Bool-cases (ltb_ℤ (pos billion) nsec)) [
  | inl big ↦ rw big (above sec nsec f (ground arith))
  | inr small ↦ rw small (elim (Bool-cases (ltb_ℤ nsec (pos 0))) [
    | inl negative ↦ rw negative (below sec nsec f (ground arith))
    | inr between ↦ rw between (ground (arith, part_zero nsec))
  ])
]

-- What a call of `normalizeTemporal` may answer. With nanoseconds from 0 to 10^9 and seconds in a
-- uint32 it names the same instant. A panic means that the instant is out of range, or that it
-- is 0 and the nanoseconds are such as leave 10^9.
abbrev pub Normalizes : ℤ → ℤ → Outcome Temporal → Type 0
Normalizes sec nsec (ok t) =
    SameInstant sec nsec (pos t.sec) (pos t.nsec)
    × (t.sec < 2 ^ 32)
    × (t.nsec ≤ billion)
    × (t.nsec ≡ billion → LeavesFull nsec)
Normalizes sec nsec panic =
    (pos_part sec * billion + pos_part nsec < neg_part sec * billion + neg_part nsec)
    ⊎ (neg_part sec * billion + neg_part nsec + 2 ^ 32 * billion
        ≤ pos_part sec * billion + pos_part nsec)
    ⊎ LeavesFull nsec
      × (pos_part sec * billion + pos_part nsec ≡ neg_part sec * billion + neg_part nsec)
Normalizes sec nsec _ = ⊥

module _ (sec nsec s n : ℤ) (c : Carried sec nsec s n) where
  too_early : 0 < neg_part s → Normalizes sec nsec panic
  too_early h =
      elim (dec_lt (pos_part sec * billion + pos_part nsec)
        (neg_part sec * billion + neg_part nsec)) [
          | yes p ↦ inl p
          | no p ↦
              let zero_total : pos_part n ≡ billion = omega (arith, part_zero s) in
              inr (inr (c.full zero_total, omega (arith, part_zero s, zero_total)))
        ]

  fitting :
      0 ≡ neg_part s
      → pos_part s < 2 ^ 32
      → Normalizes sec nsec (ok (record { sec = to_u32 s; nsec = to_u32 n }))
  fitting h k =
      rw (to_u32_id s k (sym h), to_u32_id n (omega arith) c.nonneg)
        (omega arith, k, c.bounded, c.full)

  too_late :
      2 ^ 32 ≤ pos_part s
      → neg_part sec * billion + neg_part nsec + 2 ^ 32 * billion
        ≤ pos_part sec * billion + pos_part nsec
  too_late h = omega (arith, part_zero s)

  in_range-Normalizes : Normalizes sec nsec (in_range s n)
  unfolding in_range
  in_range-Normalizes = elim (Bool-cases (ltb_ℤ s (pos 0))) [
    | inl early ↦ rw early (too_early (ground arith))
    | inr started ↦ rw started (elim (Bool-cases (ltb_ℤ (pos max_uint32) s)) [
      | inl late ↦ rw late (inr (inl (too_late (ground (arith, part_zero s)))))
      | inr fits ↦ rw fits (fitting (ground (arith, part_zero s)) (ground arith))
    ])
  ]

-- For at most 2^33 seconds in size and any nanoseconds of int64: `normalizeTemporal` returns the same
-- instant, with seconds in a uint32 and nanoseconds from 0 to 10^9, or it panics, and then the instant
-- is negative or of 2^32 seconds or more, or it is 0 and the nanoseconds are such as leave 10^9.
pub normalize_temporal-Normalizes :
    (sec nsec : ℤ) → Fits sec nsec → Normalizes sec nsec (normalize_temporal sec nsec)
unfolding normalize_temporal
normalize_temporal-Normalizes sec nsec f =
    in_range-Normalizes sec nsec _ _ (carry-Carried sec nsec f)
