-- ===== src/Wire/Ints.antt =====
-- Little-endian integers.
use rosgo.Prelude.{
  ℕ, zero, suc, ◌+◌, ◌*◌, ◌/◌, ◌%◌, ◌^◌, ◌<◌, ◌≡◌, refl, ap, ap, [], ◌∷◌, Bytes, All, length, arith,
}
use native.Mathlib.Nat.{pow-suc}
use rosgo.Wire.{IsByte, put_uint, uint_of}

pub length-put_uint : (k v : ℕ) → length (put_uint k v) ≡ k
unfolding put_uint uint_of
length-put_uint zero v = refl
length-put_uint (suc k) v = ap suc (length-put_uint k (v / 256))

pub uint_of-put_uint : (k v : ℕ) → v < 256 ^ k → uint_of (put_uint k v) ≡ v
unfolding put_uint uint_of
uint_of-put_uint zero v h = omega arith
uint_of-put_uint (suc k) v h = omega (arith, uint_of-put_uint k (v / 256) (omega arith))

pub put_uint-uint_of : (bs : Bytes) → All IsByte bs → put_uint (length bs) (uint_of bs) ≡ bs
unfolding put_uint uint_of
put_uint-uint_of [] h = refl
put_uint-uint_of (b ∷ bs) h =
    let low : (b + 256 * uint_of bs) % 256 ≡ b = omega arith in
    let high : (b + 256 * uint_of bs) / 256 ≡ uint_of bs = omega arith in
    rw (low, high, put_uint-uint_of bs h.1)

pub put_uint-IsByte : (k v : ℕ) → All IsByte (put_uint k v)
unfolding put_uint uint_of
put_uint-IsByte zero v = tt
put_uint-IsByte (suc k) v = (omega arith, put_uint-IsByte k (v / 256))

pub uint_of-lt : (bs : Bytes) → All IsByte bs → uint_of bs < 256 ^ length bs
unfolding put_uint uint_of
uint_of-lt [] h = omega arith
uint_of-lt (b ∷ bs) h = omega (arith, uint_of-lt bs h.1, pow-suc 256 (length bs))
