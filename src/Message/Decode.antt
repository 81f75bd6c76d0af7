-- ===== src/Message/Decode.antt =====
-- `DynamicMessage.Deserialize`, on a reader that is the list of the bytes left.
use rosgo.Prelude.{
  ℕ, zero, suc, Bool, true, false, List, [], ◌∷◌, Bytes, ◌==◌, if◌then◌else◌, Result, ok, err,
  panic, stuck, ◌>>=◌,
}
use rosgo.Prelude.Int.{ℤ, pos, to_u32, ltb_ℤ}
use rosgo.Wire.{ReadError, uint_of, read_full}
use rosgo.Gengo.{Field, MsgSpec}
use rosgo.Message.{
  Prim, bool, Elem, prims, strings, times, durations, messages, Value, prim, str, time, duration,
  slice, msg, Values, nil, cons, Data, empty, not_implemented, field_read, Outcome, Kind,
  string_kind, time_kind, duration_kind, prim_kind, unknown_kind, message_kind, kind, width,
  elem_eq, slice_elem, insert,
}
use rosgo.Message.Types.{Context, nested_type}
use rosgo.Message.Zero.{new_message}
use rosgo.Message.Encode.{wrap}

-- What a read leaves: a value, and the bytes behind it.
abbrev pub Parsed {ℓ} : Type ℓ → Type ℓ
Parsed A = Outcome (A × Bytes)

abbrev pub reading {ℓ} : {A : Type ℓ} → Field → Result ReadError A → Outcome A
reading f (ok a) = ok a
reading f (err e) = err (field_read f.name e)
reading f panic = panic
reading f stuck = stuck

unfoldable pub read_u32 : Field → Bytes → Parsed ℕ
read_u32 f s = reading f (read_full 4 s) >>= λ (raw, rest). ok (uint_of raw, rest)

unfoldable pub read_string : Field → Bytes → Parsed Value
read_string f s =
    read_u32 f s >>= λ (size, s'). reading f (read_full size s') >>= λ (bs, rest). ok (str bs, rest)

unfoldable pub read_time : Field → Bytes → Parsed Value
read_time f s =
    read_u32 f s >>= λ (sec, s'). read_u32 f s' >>= λ (nsec, rest). ok (time sec nsec, rest)

unfoldable pub read_duration : Field → Bytes → Parsed Value
read_duration f s =
    read_u32 f s >>= λ (sec, s'). read_u32 f s' >>= λ (nsec, rest). ok (duration sec nsec, rest)

-- The value of a primitive from its bytes: for a bool only whether they are 0 counts.
abbrev pub prim_of : Prim → ℕ → Value
prim_of bool n = prim bool (if n == 0 then 0 else 1)
prim_of p n = prim p n

unfoldable pub read_prim : Prim → Field → Bytes → Parsed Value
read_prim p f s =
    reading f (read_full (width p) s) >>= λ (raw, rest). ok (prim_of p (uint_of raw), rest)

-- In an array the result of `binary.Read` is dropped: a read that fails leaves the zero value, and
-- no bytes.
abbrev pub or_zero : Prim → Result ReadError (Bytes × Bytes) → Parsed Value
or_zero p (ok (raw, rest)) = ok (prim_of p (uint_of raw), rest)
or_zero p (err _) = ok (prim p 0, [])
or_zero p panic = panic
or_zero p stuck = stuck

unfoldable pub read_prim_unchecked : Prim → Bytes → Parsed Value
read_prim_unchecked p s = or_zero p (read_full (width p) s)

-- A call of a method on the nil message panics.
abbrev pub into_message : (MsgSpec → Bytes → Parsed Data) → Field → Bytes → Value → Parsed Value
into_message nested f s (msg spec _) = wrap f (nested spec s) >>= λ (d, rest). ok (msg spec d, rest)
into_message nested f s _ = panic

unfoldable pub read_message :
    (Field → Outcome Value) → (MsgSpec → Bytes → Parsed Data) → Field → Bytes → Parsed Value
read_message fresh nested f s = fresh f >>= λ v. into_message nested f s v

module _ (fresh : Field → Outcome Value) (nested : MsgSpec → Bytes → Parsed Data) where
  unfoldable pub read_item : Bool → Kind → Field → Bytes → Parsed Value
  read_item in_array string_kind f s = read_string f s
  read_item in_array time_kind f s = read_time f s
  read_item in_array duration_kind f s = read_duration f s
  read_item true (prim_kind p) f s = read_prim_unchecked p s
  read_item false (prim_kind p) f s = read_prim p f s
  read_item in_array unknown_kind f s = err not_implemented
  read_item in_array message_kind f s = read_message fresh nested f s

-- The type of slice that the items of a kind are appended to.
abbrev pub elem_of : Kind → Elem
elem_of string_kind = strings
elem_of time_kind = times
elem_of duration_kind = durations
elem_of (prim_kind p) = prims p
elem_of unknown_kind = messages
elem_of message_kind = messages

-- `tmpData[name].([]T)` panics if the slice was made for another type than the items have.
unfoldable pub read_items : (Bytes → Parsed Value) → Bool → ℕ → Bytes → Parsed Values
read_items read same zero s = ok (nil, s)
read_items read same (suc n) s = read s >>= λ (v, s'). elim same [
  | true ↦ read_items read same n s' >>= λ (vs, rest). ok (cons v vs, rest)
  | false ↦ panic
]

unfoldable pub array_size : Field → ℤ → Bytes → Parsed ℕ
array_size f array_len s =
    if ltb_ℤ array_len (pos 0) then read_u32 f s else ok (to_u32 array_len, s)

module _ (fresh : Field → Outcome Value) (nested : MsgSpec → Bytes → Parsed Data) where
  unfoldable pub read_array : Field → Bytes → Parsed Value
  read_array f s = array_size f f.array_len s >>= λ (size, s').
      read_items (read_item fresh nested true (kind f) f)
        (elem_eq (elem_of (kind f)) (slice_elem f.go_type)) size s'
      >>= λ (vs, rest). ok (slice (slice_elem f.go_type) vs, rest)

  unfoldable pub read_field : Field → Bytes → Parsed Value
  read_field f s = if f.is_array then read_array f s else read_item fresh nested false (kind f) f s

  unfoldable pub read_fields : List Field → Data → Bytes → Parsed Data
  read_fields [] d s = ok (d, s)
  read_fields (f ∷ fs) d s = read_field f s >>= λ (v, s'). read_fields fs (insert f.name v d) s'

-- A new message of a field's type.
unfoldable pub fresh_message : ℕ → Context → Field → Outcome Value
fresh_message n c f = wrap f (nested_type c f.field_type f.package_name) >>= λ t. new_message n c t

-- The fuel bounds how deep messages are nested. On an error the message is left with no data.
unfoldable pub deserialize : ℕ → Context → MsgSpec → Bytes → Parsed Data
deserialize zero c spec s = stuck
deserialize (suc n) c spec s = read_fields (fresh_message n c) (deserialize n c) spec.fields empty s
