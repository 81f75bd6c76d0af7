-- ===== src/Gengo/Fields.antt =====
-- libgengo/msgs.go: what a field and a constant are given from their type and name, and how they
-- are printed.
use rosgo.Prelude.{
  ℕ, ◌-◌, Bool, ◌&&◌, List, [], ◌∷◌, ◌++◌, Bytes, codes, str_eq, ltb, leb, ◌==◌, if◌then◌else◌,
}
use rosgo.Prelude.Int.{ℤ}
use rosgo.Gengo.{Literal, Constant, Field, MsgSpec}
use rosgo.Gengo.Types.{is_builtin_type}

unfoldable pub to_go_type : Bytes → Bytes → Bytes
to_go_type package_name t =
    if str_eq t (codes "int8")
    then codes "int8"
    else if str_eq t (codes "uint8")
    then codes "uint8"
    else if str_eq t (codes "int16")
    then codes "int16"
    else if str_eq t (codes "uint16")
    then codes "uint16"
    else if str_eq t (codes "int32")
    then codes "int32"
    else if str_eq t (codes "uint32")
    then codes "uint32"
    else if str_eq t (codes "int64")
    then codes "int64"
    else if str_eq t (codes "uint64")
    then codes "uint64"
    else if str_eq t (codes "float32")
    then codes "float32"
    else if str_eq t (codes "float64")
    then codes "float64"
    else if str_eq t (codes "string")
    then codes "string"
    else if str_eq t (codes "bool")
    then codes "bool"
    else if str_eq t (codes "char")
    then codes "uint8"
    else if str_eq t (codes "byte")
    then codes "uint8"
    else if str_eq t (codes "time")
    then codes "ros.Time"
    else if str_eq t (codes "duration")
    then codes "ros.Duration"
    else package_name ++ (b'.' ∷ t)

unfoldable pub get_zero_value : Bytes → Bytes → Bytes
get_zero_value package_name t =
    if str_eq t (codes "int8")
    then codes "0"
    else if str_eq t (codes "uint8")
    then codes "0"
    else if str_eq t (codes "int16")
    then codes "0"
    else if str_eq t (codes "uint16")
    then codes "0"
    else if str_eq t (codes "int32")
    then codes "0"
    else if str_eq t (codes "uint32")
    then codes "0"
    else if str_eq t (codes "int64")
    then codes "0"
    else if str_eq t (codes "uint64")
    then codes "0"
    else if str_eq t (codes "float32")
    then codes "0.0"
    else if str_eq t (codes "float64")
    then codes "0.0"
    else if str_eq t (codes "string")
    then b'"' ∷ b'"' ∷ []
    else if str_eq t (codes "bool")
    then codes "false"
    else if str_eq t (codes "char")
    then codes "0"
    else if str_eq t (codes "byte")
    then codes "0"
    else if str_eq t (codes "time")
    then codes "ros.Time{}"
    else if str_eq t (codes "duration")
    then codes "ros.Duration{}"
    else package_name ++ (b'.' ∷ t ++ codes "{}")

-- `strings.ToUpper` of one byte. A byte that is no character of its own becomes the replacement
-- character.
unfoldable pub to_upper1 : ℕ → Bytes
to_upper1 c =
    if ltb c 128
    then (if leb b'a' c && leb c b'z' then (c - 32) ∷ [] else c ∷ [])
    else 239 ∷ 191 ∷ 189 ∷ []

-- `strings.Split(name, "_")`.
unfoldable pub words : Bytes → List Bytes
words [] = [] ∷ []
words (c ∷ s) =
    if c == b'_'
    then [] ∷ words s
    else elim (words s) [ [] ↦ (c ∷ []) ∷ [] | w ∷ ws ↦ (c ∷ w) ∷ ws ]

-- The loop over the words, and the join of its buffer.
unfoldable pub camel : List Bytes → Bytes
camel [] = []
camel ([] ∷ ws) = camel ws
camel ((c ∷ w) ∷ ws) = to_upper1 c ++ (w ++ camel ws)

unfoldable pub to_go_name : Bytes → Bytes
to_go_name name = camel (words name)

unfoldable pub new_constant : Bytes → Bytes → Literal → Bytes → Constant
new_constant t name value value_text = record {
  constant_type = t;
  name = name;
  value = value;
  value_text = value_text;
  go_name = to_go_name name;
}

unfoldable pub new_field : Bytes → Bytes → Bytes → Bool → ℤ → Field
new_field package_name t name is_array array_len = record {
  package_name = package_name;
  field_type = t;
  name = name;
  is_builtin = is_builtin_type t;
  is_array = is_array;
  array_len = array_len;
  go_name = to_go_name name;
  go_type = to_go_type package_name t;
  zero_value = get_zero_value package_name t;
}

unfoldable pub new_msg_spec : List Field → List Constant → Bytes → Bytes → Bytes → Bytes → MsgSpec
new_msg_spec fields constants text full_name package_name short_name = record {
  fields = fields;
  constants = constants;
  text = text;
  md5_sum = [];
  full_name = full_name;
  short_name = short_name;
  package_name = package_name;
}
