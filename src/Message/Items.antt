-- ===== src/Message/Items.antt =====
-- ros/dynamic_message.go: one item of a field, written and read.
use rosgo.Prelude.{
  ℕ, zero, suc, ◌%◌, ◌^◌, ◌≤◌, ◌<◌, ◌≡◌, refl, ap, Bool, true, false, ◌++◌, Bytes, str_eq_iff, ◌==◌,
  ==_iff, if◌then◌else◌, ok, length, append_assoc, arith,
}
use rosgo.Wire.{put_uint, uint_of}
use rosgo.Wire.Ints.{length-put_uint, uint_of-put_uint}
use rosgo.Wire.Reads.{read_full-append}
use rosgo.Gengo.{Field, MsgSpec}
use rosgo.Message.{
  Prim, bool, Value, prim, str, time, duration, msg, Data, Outcome, Kind, string_kind, time_kind,
  duration_kind, prim_kind, message_kind, width, prim_code, prim_eq,
}
use rosgo.Message.Encode.{
  write_string, write_time, write_duration, write_prim, write_message, write_item,
}
use rosgo.Message.Decode.{
  Parsed, read_u32, read_string, read_time, read_duration, read_prim, prim_of, read_prim_unchecked,
  read_message, read_item,
}
use rosgo.Message.Fits.{FitsPrim, FitsNested, FitsItem}

-- The write returns bytes, and the read takes them off the front and returns the value.
abbrev pub RoundTrips {ℓ} : {A : Type ℓ} → Outcome Bytes → (Bytes → Parsed A) → A → Type ℓ
RoundTrips w r a = (b : Bytes) × (w ≡ ok b) × ((rest : Bytes) → r (b ++ rest) ≡ ok (a, rest))

pub read_u32-put_uint :
    (f : Field) (n : ℕ) (rest : Bytes)
    → n < 2 ^ 32
    → read_u32 f (put_uint 4 n ++ rest) ≡ ok (n, rest)
unfolding read_u32
read_u32-put_uint f n rest h =
    rw (read_full-append 4 (put_uint 4 n) rest (length-put_uint 4 n)) (rw (uint_of-put_uint 4 n h))

string_trip :
    (f : Field) (s : Bytes)
    → length s < 2 ^ 32
    → RoundTrips (write_string f (str s)) (read_string f) (str s)
unfolding write_string read_string
string_trip f s h =
    let n : length s % 2 ^ 32 ≡ length s = omega arith in
    (
      put_uint 4 (length s % 2 ^ 32) ++ s,
      refl,
      λ rest. rw (append_assoc (put_uint 4 (length s % 2 ^ 32)) s rest) (
          rw n (
            rw (read_u32-put_uint f (length s) (s ++ rest) h)
              (rw (read_full-append (length s) s rest refl)))),
    )

two_u32 :
    (f : Field) (s n : ℕ) (rest : Bytes)
    → s < 2 ^ 32
    → n < 2 ^ 32
    → (read_u32 f ((put_uint 4 s ++ put_uint 4 n) ++ rest) ≡ ok (s, put_uint 4 n ++ rest))
      × (read_u32 f (put_uint 4 n ++ rest) ≡ ok (n, rest))
two_u32 f s n rest h k = (
  rw (append_assoc (put_uint 4 s) (put_uint 4 n) rest) (read_u32-put_uint f s _ h),
  read_u32-put_uint f n rest k,
)

time_trip :
    (f : Field) (s n : ℕ)
    → s < 2 ^ 32
    → n < 2 ^ 32
    → RoundTrips (write_time f (time s n)) (read_time f) (time s n)
unfolding write_time read_time
time_trip f s n h k =
    (put_uint 4 s ++ put_uint 4 n, refl, λ rest. let (p, q) = two_u32 f s n rest h k in rw p (rw q))

duration_trip :
    (f : Field) (s n : ℕ)
    → s < 2 ^ 32
    → n < 2 ^ 32
    → RoundTrips (write_duration f (duration s n)) (read_duration f) (duration s n)
unfolding write_duration read_duration
duration_trip f s n h k =
    (put_uint 4 s ++ put_uint 4 n, refl, λ rest. let (p, q) = two_u32 f s n rest h k in rw p (rw q))

bit : (n : ℕ) → n ≤ 1 → ◌≡◌ {A = Value} (prim bool (if n == 0 then 0 else 1)) (prim bool n)
bit zero h = refl
bit (suc zero) h = refl
bit (suc (suc n)) h = absurd (omega arith)

-- A bit pattern that fits is what is made of the bytes that hold it.
prim_of-uint_of :
    (p : Prim) (n : ℕ) → FitsPrim p n → prim_of p (uint_of (put_uint (width p) n)) ≡ prim p n
prim_of-uint_of bool n h =
    rw (uint_of-put_uint (width bool) n (unfold width in omega arith)) (bit n h)
prim_of-uint_of p n h = ap (prim p) (uint_of-put_uint (width p) n h)

prim_eq_refl : (p : Prim) → prim_eq p p ≡ true
prim_eq_refl p = (==_iff (prim_code p) (prim_code p)).1 refl

prim_trip :
    (f : Field) (p : Prim) (n : ℕ)
    → FitsPrim p n
    → RoundTrips (write_prim p f (prim p n)) (read_prim p f) (prim p n)
unfolding write_prim read_prim
prim_trip f p n h = (
  put_uint (width p) n,
  rw (prim_eq_refl p),
  λ rest.
      rw (read_full-append (width p) (put_uint (width p) n) rest (length-put_uint (width p) n))
        (ap (λ v. ok (v, rest)) (prim_of-uint_of p n h)),
)

unchecked_trip :
    (f : Field) (p : Prim) (n : ℕ)
    → FitsPrim p n
    → RoundTrips (write_prim p f (prim p n)) (read_prim_unchecked p) (prim p n)
unfolding write_prim read_prim_unchecked
unchecked_trip f p n h = (
  put_uint (width p) n,
  rw (prim_eq_refl p),
  λ rest.
      rw (read_full-append (width p) (put_uint (width p) n) rest (length-put_uint (width p) n))
        (ap (λ v. ok (v, rest)) (prim_of-uint_of p n h)),
)

module _ (P : MsgSpec → Data → Type 0) (fresh : Field → Outcome Value)
    (write : MsgSpec → Data → Outcome Bytes) (read : MsgSpec → Bytes → Parsed Data)
    (trip : (spec : MsgSpec) (d : Data) → P spec d → RoundTrips (write spec d) (read spec) d) where
  message_trip :
      (f : Field) (spec : MsgSpec) (d : Data)
      → FitsNested P fresh f spec d
      → RoundTrips (write_message write f (msg spec d)) (read_message fresh read f) (msg spec d)
  unfolding write_message read_message
  message_trip f spec d h =
      let (b, w, r) = trip spec d h.inner in
      (
        b,
        rw ((str_eq_iff spec.short_name f.field_type).1 h.short) (rw w),
        λ rest. rw h.made (rw (r rest)),
      )

  pub item_trip :
      (in_array : Bool) (k : Kind) (f : Field) (v : Value)
      → FitsItem P fresh k f v
      → RoundTrips (write_item write k f v) (read_item fresh read in_array k f) v
  unfolding write_item read_item
  item_trip a string_kind f (str s) h = string_trip f s h
  item_trip a time_kind f (time s n) h = time_trip f s n h.0 h.1
  item_trip a duration_kind f (duration s n) h = duration_trip f s n h.0 h.1
  item_trip true (prim_kind p) f (prim q n) h = rw h.0 (unchecked_trip f p n h.1)
  item_trip false (prim_kind p) f (prim q n) h = rw h.0 (prim_trip f p n h.1)
  item_trip a message_kind f (msg spec d) h = message_trip f spec d h
  item_trip a k f v h = absurd h
