-- ===== src/Message/Encode.antt =====
-- `DynamicMessage.Serialize`. An error or a panic drops what the buffer already holds.
use rosgo.Prelude.{
  ℕ, zero, suc, ◌%◌, ◌^◌, List, [], ◌∷◌, ◌++◌, Option, none, some, Bytes, str_eq, if◌then◌else◌, ok,
  err, panic, stuck, ◌>>=◌, length,
}
use rosgo.Prelude.Int.{ℤ, pos, to_u32, ltb_ℤ}
use rosgo.Wire.{put_uint}
use rosgo.Gengo.{Field, MsgSpec}
use rosgo.Message.{
  Prim, uint8, Value, prim, str, time, duration, slice, msg, nil_msg, Values, nil, cons, Data,
  no_data, found_other, other_message, not_implemented, in_field, Outcome, Kind, string_kind,
  time_kind, duration_kind, prim_kind, unknown_kind, message_kind, kind, width, prim_eq, lookup,
}

-- A failed type assertion: the error names the type found, which is a panic for nil.
abbrev pub other_type : Field → Value → Outcome Bytes
other_type f nil_msg = panic
other_type f _ = err (found_other f.name)

-- Each clause asserts the type of the item, and writes it.
unfoldable pub write_string : Field → Value → Outcome Bytes
write_string f (str s) = ok (put_uint 4 (length s % 2 ^ 32) ++ s)
write_string f v = other_type f v

unfoldable pub write_time : Field → Value → Outcome Bytes
write_time f (time s n) = ok (put_uint 4 s ++ put_uint 4 n)
write_time f v = other_type f v

unfoldable pub write_duration : Field → Value → Outcome Bytes
write_duration f (duration s n) = ok (put_uint 4 s ++ put_uint 4 n)
write_duration f v = other_type f v

unfoldable pub write_prim : Prim → Field → Value → Outcome Bytes
write_prim p f (prim q n) =
    if prim_eq p q then ok (put_uint (width p) n) else err (found_other f.name)
write_prim p f v = other_type f v

-- An error inside a nested message names the field.
abbrev pub wrap {ℓ} : {A : Type ℓ} → Field → Outcome A → Outcome A
wrap f (ok a) = ok a
wrap f (err e) = err (in_field f.name e)
wrap f panic = panic
wrap f stuck = stuck

unfoldable pub write_message : (MsgSpec → Data → Outcome Bytes) → Field → Value → Outcome Bytes
write_message nested f (msg spec d) =
    if str_eq spec.short_name f.field_type
    then wrap f (nested spec d)
    else err (other_message f.name)
write_message nested f v = other_type f v

unfoldable pub write_item : (MsgSpec → Data → Outcome Bytes) → Kind → Field → Value → Outcome Bytes
write_item nested string_kind f v = write_string f v
write_item nested time_kind f v = write_time f v
write_item nested duration_kind f v = write_duration f v
write_item nested (prim_kind p) f v = write_prim p f v
write_item nested unknown_kind f v = err not_implemented
write_item nested message_kind f v = write_message nested f v

-- `reflect.ValueOf(array)` as a sequence: a slice, or the bytes of a string.
abbrev pub bytes_of : Bytes → Values
bytes_of [] = nil
bytes_of (b ∷ bs) = cons (prim uint8 b) (bytes_of bs)

abbrev pub sequence : Value → Outcome Values
sequence (slice _ vs) = ok vs
sequence (str s) = ok (bytes_of s)
sequence _ = panic

abbrev pub count : Values → ℕ
count nil = 0
count (cons v vs) = suc (count vs)

-- The items from 0 to `size`; `Index` panics behind the last.
unfoldable pub write_items : (Value → Outcome Bytes) → ℕ → Values → Outcome Bytes
write_items write zero vs = ok []
write_items write (suc n) nil = panic
write_items write (suc n) (cons v vs) =
    write v >>= λ b. write_items write n vs >>= λ bs. ok (b ++ bs)

-- An array of any length begins with the number of its items.
unfoldable pub write_array : (Value → Outcome Bytes) → ℤ → Values → Outcome Bytes
write_array write array_len vs =
    if ltb_ℤ array_len (pos 0)
    then (write_items write (count vs % 2 ^ 32) vs >>= λ bs.
        ok (put_uint 4 (count vs % 2 ^ 32) ++ bs))
    else write_items write (to_u32 array_len) vs

abbrev pub found : Field → Option Value → Outcome Value
found f none = err (no_data f.name)
found f (some v) = ok v

unfoldable pub write_field : (MsgSpec → Data → Outcome Bytes) → Field → Value → Outcome Bytes
write_field nested f v =
    if f.is_array
    then (sequence v >>= λ vs. write_array (write_item nested (kind f) f) f.array_len vs)
    else write_item nested (kind f) f v

unfoldable pub write_fields : (MsgSpec → Data → Outcome Bytes) → List Field → Data → Outcome Bytes
write_fields nested [] d = ok []
write_fields nested (f ∷ fs) d = found f (lookup f.name d) >>= λ v.
    write_field nested f v >>= λ b. write_fields nested fs d >>= λ bs. ok (b ++ bs)

-- The fuel bounds how deep messages are nested.
unfoldable pub serialize : ℕ → MsgSpec → Data → Outcome Bytes
serialize zero spec d = stuck
serialize (suc n) spec d = write_fields (serialize n) spec.fields d
