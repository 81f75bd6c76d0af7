-- ===== src/Message/Truncated.antt =====
-- ros/dynamic_message.go: arrays of primitives, on input that may end too early.
use rosgo.Prelude.{
  ℕ, zero, suc, ◌%◌, ◌^◌, ◌≡◌, ◌≢◌, refl, ap, true, false, Bytes, Result, ok, err, panic, stuck,
  ◌>>=◌, arith, ==_iff,
}
use rosgo.Prelude.Int.{ℤ, pos, to_u32, ltb_ℤ}
use rosgo.Wire.{ReadError, read_full}
use rosgo.Gengo.{Field, MsgSpec}
use rosgo.Message.{
  Prim, Elem, prims, Value, slice, Values, nil, cons, Data, Outcome, Kind, prim_kind, kind, width,
  elem_eq, slice_elem, prim_code, prim_eq,
}
use rosgo.Message.Encode.{count}
use rosgo.Message.Decode.{
  Parsed, or_zero, read_prim_unchecked, read_item, read_items, array_size, elem_of, read_array,
}
use rosgo.Wire.Reads.{read_full-ne-stuck}

read_full-ne-panic : (n : ℕ) (s : Bytes) → read_full n s ≢ panic
unfolding read_full
read_full-ne-panic n s = ground arith

or_zero_total :
    (p : Prim) (r : Result ReadError (Bytes × Bytes))
    → r ≢ panic
    → r ≢ stuck
    → (v : Value) × (rest : Bytes) × (or_zero p r ≡ ok (v, rest))
or_zero_total p (ok (raw, rest)) h g = (_, _, refl)
or_zero_total p (err e) h g = (_, _, refl)
or_zero_total p panic h g = absurd (h refl)
or_zero_total p stuck h g = absurd (g refl)

-- Some value is read, whatever the bytes are.
read_prim_unchecked_total :
    (p : Prim) (s : Bytes) → (v : Value) × (rest : Bytes) × (read_prim_unchecked p s ≡ ok (v, rest))
unfolding read_prim_unchecked
read_prim_unchecked_total p s =
    or_zero_total p (read_full (width p) s) (read_full-ne-panic (width p) s)
      (read_full-ne-stuck (width p) s)

module _ (fresh : Field → Outcome Value) (nested : MsgSpec → Bytes → Parsed Data) (f : Field)
    (p : Prim) where
  read_items_total :
      (n : ℕ) (s : Bytes)
      → (vs : Values) × (rest : Bytes) × (read_items
            (read_item fresh nested true (prim_kind p) f)
            true
            n
            s
          ≡ ok (vs, rest))
        × (count vs ≡ n)
  unfolding read_items read_item
  read_items_total zero s = (nil, s, refl, refl)
  read_items_total (suc n) s =
      let (v, s', e) = read_prim_unchecked_total p s in
      let (vs, rest, r, c) = read_items_total n s' in (cons v vs, rest, rw e (rw r), ap suc c)

prim_eq_refl : (p : Prim) → prim_eq p p ≡ true
prim_eq_refl p = (==_iff (prim_code p) (prim_code p)).1 refl

nonnegative : (m : ℕ) → ltb_ℤ (pos m) (pos 0) ≡ false
nonnegative m = ground arith

array_of_primitives :
    (fresh : Field → Outcome Value) (nested : MsgSpec → Bytes → Parsed Data) (f : Field) (p : Prim)
    (m : ℕ) (s : Bytes) (k : Kind) (e : Elem) (l : ℤ) (vs : Values) (rest : Bytes)
    → k ≡ prim_kind p
    → e ≡ prims p
    → l ≡ pos m
    → read_items (read_item fresh nested true (prim_kind p) f) true (to_u32 (pos m)) s
      ≡ ok (vs, rest)
    → ◌≡◌ {A = Parsed Value}
        (array_size f l s >>= λ (size, s').
          read_items (read_item fresh nested true k f) (elem_eq (elem_of k) e) size s'
          >>= λ (vs, rest). ok (slice e vs, rest))
        (ok (slice (prims p) vs, rest))
unfolding array_size
array_of_primitives fresh nested f p m s k e l vs rest h g i r =
    rw (h, g, i, prim_eq_refl p, nonnegative m) (rw r)

-- A field that is an array of `m` primitives is read without an error from any bytes, be they too
-- few or none: the slice has `m` items (modulo 2^32) even so.
pub read_array-primitives :
    (fresh : Field → Outcome Value) (nested : MsgSpec → Bytes → Parsed Data) (f : Field) (p : Prim)
    (m : ℕ) (s : Bytes)
    → kind f ≡ prim_kind p
    → slice_elem f.go_type ≡ prims p
    → f.array_len ≡ pos m
    → (vs : Values) × (rest : Bytes) × (read_array fresh nested f s ≡ ok (slice (prims p) vs, rest))
      × (count vs ≡ m % 2 ^ 32)
unfolding read_array to_u32
read_array-primitives fresh nested f p m s k e len =
    let (vs, rest, r, c) = read_items_total fresh nested f p (to_u32 (pos m)) s in
    (
      vs,
      rest,
      array_of_primitives fresh nested f p m s (kind f) (slice_elem f.go_type) f.array_len vs rest k
          e len r,
      c,
    )
