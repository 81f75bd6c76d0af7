-- ===== src/Message/Zero.antt =====
-- `zeroValueData` and `NewMessage`: the value that a new message has.
use rosgo.Prelude.{
  ℕ, zero, suc, Bool, true, false, ◌||◌, List, [], ◌∷◌, Option, none, some, Bytes, ◌==◌,
  if◌then◌else◌, ok, err, panic, stuck, ◌>>=◌,
}
use rosgo.Prelude.Int.{ℤ, negsuc, to_u32}
use rosgo.Gengo.{Field, MsgSpec}
use rosgo.Message.{
  Prim, Elem, prims, strings, times, durations, messages, Value, prim, str, time, duration, slice,
  msg, nil_msg, Values, nil, cons, Data, empty, Outcome, slice_elem, elem_eq, insert,
}
use rosgo.Message.Types.{Context, nested_type}

-- The zero of a builtin type, by the switch on `GoType`. The default returns `errors.Wrap` of a nil
-- error, which is nil: it ends the loop over the fields without an error.
unfoldable pub zero_builtin : Elem → Option Value
zero_builtin (prims p) = some (prim p 0)
zero_builtin strings = some (str [])
zero_builtin times = some (time 0 0)
zero_builtin durations = some (duration 0 0)
zero_builtin messages = none

abbrev pub is_dynamic : ℤ → Bool
is_dynamic (negsuc zero) = true
is_dynamic _ = false

abbrev pub repeated : ℕ → Value → Values
repeated zero v = nil
repeated (suc n) v = cons v (repeated n v)

-- What the loop sets for a field, and whether it goes on. `fresh` makes a new message of the
-- field's type. An array has its empty slice before the elements are made.
unfoldable pub zero_field : (Field → Outcome Value) → Field → Outcome (Option Value × Bool)
zero_field fresh f =
    let elem = slice_elem f.go_type in
    let size = to_u32 f.array_len in
    let one : Outcome (Option Value) =
      if f.is_builtin then ok (zero_builtin elem) else (fresh f >>= λ v. ok (some v)) in
    -- A message is appended to a slice of messages only.
    let fits = f.is_builtin || elem_eq messages elem in
    if f.is_array
    then (if is_dynamic f.array_len
        then ok (some (slice elem nil), true)
        else if size == 0
        then ok (some (slice elem nil), true)
        else (one >>= λ z. elim z [
          | some v ↦ if fits then ok (some (slice elem (repeated size v)), true) else panic
          | none ↦ ok (some (slice elem nil), false)
        ]))
    else (one >>= λ z. elim z [ some v ↦ ok (some v, true) | none ↦ ok (none, false) ])

abbrev pub set_field : Bytes → Option Value → Data → Data
set_field k (some v) d = insert k v d
set_field k none d = d

unfoldable pub zero_fields : (Field → Outcome Value) → List Field → Data → Outcome Data
zero_fields fresh [] d = ok d
zero_fields fresh (f ∷ fs) d = zero_field fresh f >>= λ (v, more). elim more [
  | true ↦ zero_fields fresh fs (set_field f.name v d)
  | false ↦ ok (set_field f.name v d)
]

-- `NewMessage` on a type: nil if `zeroValueData` fails.
abbrev pub or_nil : MsgSpec → Outcome Data → Outcome Value
or_nil spec (ok d) = ok (msg spec d)
or_nil spec (err _) = ok nil_msg
or_nil spec panic = panic
or_nil spec stuck = stuck

-- The fuel bounds how deep types are nested; a type that contains itself never ends.
unfoldable mutual
  pub zero_value_data : ℕ → Context → Bytes → Outcome Data
  zero_value_data zero c name = stuck
  zero_value_data (suc n) c name = nested_type c name [] >>= λ spec.
      zero_fields (λ f. nested_type c f.field_type f.package_name >>= λ t. new_message n c t)
        spec.fields empty

  pub new_message : ℕ → Context → MsgSpec → Outcome Value
  new_message zero c spec = stuck
  new_message (suc n) c spec = or_nil spec (zero_value_data n c spec.full_name)
