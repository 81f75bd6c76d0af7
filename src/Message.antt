-- ===== src/Message.antt =====
-- ros/dynamic_message.go: messages whose type is known at run time only. This file has the data:
-- the values that a field may hold, and the kinds of field that the switches of the source tell
-- apart.
pub mod Types
pub mod Zero
pub mod Encode
pub mod Decode
pub mod Fits
pub mod Items
pub mod RoundTrip
pub mod Truncated
pub mod Builtin
pub mod Schema
use rosgo.Prelude.{
  ℕ, Bool, true, false, ◌&&◌, List, [], ◌∷◌, Option, none, some, Bytes, codes, str_eq, ◌==◌,
  if◌then◌else◌, Result,
}
use rosgo.Wire.{ReadError}
use rosgo.Gengo.{Field, MsgSpec}

-- The primitive types with a value of a fixed size.
pub data Prim : Type 0 where
  bool int8 int16 int32 int64 uint8 uint16 uint32 uint64 float32 float64 : Prim

-- The element type of a slice.
pub data Elem : Type 0 where
  prims : Prim → Elem
  strings times durations messages : Elem

-- A field's value, by its dynamic Go type. A primitive is its bit pattern, `JsonFloat32` and
-- `JsonFloat64` that of the float; `true` is 1. `nil_msg` is the nil `Message`. A data map lists
-- its entries in the order in which they were first set.
mutual
  pub data Value : Type 0 where
    prim : Prim → ℕ → Value
    str : Bytes → Value
    time : ℕ → ℕ → Value
    duration : ℕ → ℕ → Value
    slice : Elem → Values → Value
    msg : MsgSpec → Data → Value
    nil_msg : Value

  pub data Values : Type 0 where
    nil : Values
    cons : Value → Values → Values

  pub data Data : Type 0 where
    empty : Data
    entry : Bytes → Value → Data → Data

pub data Error : Type 0 where
  no_data found_other other_message : Bytes → Error
  not_implemented : Error
  no_type : Bytes → Error
  field_read : Bytes → ReadError → Error
  in_field : Bytes → Error → Error

abbrev pub Outcome {ℓ} : Type ℓ → Type ℓ
Outcome = Result Error

unfoldable pub width : Prim → ℕ
width bool = 1
width int8 = 1
width uint8 = 1
width int16 = 2
width uint16 = 2
width int32 = 4
width uint32 = 4
width float32 = 4
width int64 = 8
width uint64 = 8
width float64 = 8

unfoldable pub prim_code : Prim → ℕ
prim_code bool = 0
prim_code int8 = 1
prim_code int16 = 2
prim_code int32 = 3
prim_code int64 = 4
prim_code uint8 = 5
prim_code uint16 = 6
prim_code uint32 = 7
prim_code uint64 = 8
prim_code float32 = 9
prim_code float64 = 10

-- A type assertion on a primitive: are the two the same type?
abbrev pub prim_eq : Prim → Prim → Bool
prim_eq p q = prim_code p == prim_code q

abbrev pub elem_eq : Elem → Elem → Bool
elem_eq (prims p) (prims q) = prim_eq p q
elem_eq strings strings = true
elem_eq times times = true
elem_eq durations durations = true
elem_eq messages messages = true
elem_eq _ _ = false

-- `switch field.GoType` over the primitive types.
unfoldable pub prim_named : Bytes → Option Prim
prim_named t =
    if str_eq t (codes "bool")
    then some bool
    else if str_eq t (codes "int8")
    then some int8
    else if str_eq t (codes "int16")
    then some int16
    else if str_eq t (codes "int32")
    then some int32
    else if str_eq t (codes "int64")
    then some int64
    else if str_eq t (codes "uint8")
    then some uint8
    else if str_eq t (codes "uint16")
    then some uint16
    else if str_eq t (codes "uint32")
    then some uint32
    else if str_eq t (codes "uint64")
    then some uint64
    else if str_eq t (codes "float32")
    then some float32
    else if str_eq t (codes "float64")
    then some float64
    else none

-- What the branches on `IsBuiltin`, `Type` and `GoType` make of a field.
pub data Kind : Type 0 where
  string_kind time_kind duration_kind : Kind
  prim_kind : Prim → Kind
  unknown_kind message_kind : Kind

abbrev pub kind_of_prim : Option Prim → Kind
kind_of_prim (some p) = prim_kind p
kind_of_prim none = unknown_kind

unfoldable pub kind : Field → Kind
kind f =
    if f.is_builtin
    then (if str_eq f.field_type (codes "string")
        then string_kind
        else if str_eq f.field_type (codes "time")
        then time_kind
        else if str_eq f.field_type (codes "duration")
        then duration_kind
        else kind_of_prim (prim_named f.go_type))
    else message_kind

-- The switch on `GoType` that makes an empty slice.
unfoldable pub slice_elem : Bytes → Elem
slice_elem t = elim (prim_named t) [
  | some p ↦ prims p
  | none ↦
      if str_eq t (codes "string")
      then strings
      else if str_eq t (codes "ros.Time")
      then times
      else if str_eq t (codes "ros.Duration")
      then durations
      else messages
]

-- Reading and setting a key of a data map.
unfoldable pub lookup : Bytes → Data → Option Value
lookup k empty = none
lookup k (entry j v d) = if str_eq j k then some v else lookup k d

unfoldable pub insert : Bytes → Value → Data → Data
insert k v empty = entry k v empty
insert k v (entry j w d) = if str_eq j k then entry j v d else entry j w (insert k v d)
