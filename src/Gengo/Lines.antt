-- ===== src/Gengo/Lines.antt =====
-- libgengo/parser.go: the lines of a message definition.
pub mod Spelled
pub mod Words
pub mod Valid
pub mod Meant
use rosgo.Prelude.{
  ℕ, ◌^◌, Bool, true, false, ◌&&◌, not, List, [], ◌∷◌, ◌++◌, Option, none, some, Bytes, codes,
  str_eq, length, ltb, ◌==◌, if◌then◌else◌, Result, ok, err, ◌>>=◌, with_error,
}
use rosgo.Prelude.Int.{ℤ, pos, negsuc}
use rosgo.Prelude.Space.{trim_space, trim_left, cut_space, cut_at}
use rosgo.Strconv.{number_of, within, parse_int0, parse_uint0}
use rosgo.Gengo.{Literal, float32, float64, text, signed, unsigned, boolean, Constant, Field}
use rosgo.Gengo.Types
use rosgo.Gengo.Types.{
  Parts, primitive_types, is_one_of, is_builtin_type, base_msg_type, parse_type,
}
use rosgo.Gengo.Fields.{new_constant, new_field}
use rosgo.Gengo.Legal.{is_valid_msg_field_name, is_valid_msg_type}

-- What is used of unicode and strconv, and is a parameter: the width of a digit that is not of ASCII, and
-- the bits of the floats of two widths that a text spells.
pub record Library : Type 0 where
  pub digit_width : Bytes → ℕ
  pub parse_float32 : Bytes → Option ℕ
  pub parse_float64 : Bytes → Option ℕ

pub data Error : Type 0 where
  no_constant_name no_value : Error
  bad_literal invalid_constant_type : Error
  illegal_constant_type : Bytes → Error
  invalid_declaration : Error
  illegal_field_name illegal_field_type : Bytes → Error
  bad_type : Types.Error → Error

abbrev pub Outcome {ℓ} : Type ℓ → Type ℓ
Outcome = Result Error

abbrev pub literal {ℓ} : {A : Type ℓ} → (A → Literal) → Option A → Outcome Literal
literal f none = err bad_literal
literal f (some a) = ok (f a)

abbrev pub nonzero : Option ℕ → Outcome Literal
nonzero none = err bad_literal
nonzero (some n) = ok (boolean (not (n == 0)))

abbrev pub bool_literal : Bytes → Outcome Literal
bool_literal s =
    if str_eq s (codes "None")
    then ok (boolean false)
    else if str_eq s (codes "False")
    then ok (boolean false)
    else if str_eq s (codes "True")
    then ok (boolean true)
    else nonzero (within (2 ^ 64) (number_of s))

-- `convertConstantValue`.
unfoldable pub convert_constant_value : Library → Bytes → Bytes → Outcome Literal
convert_constant_value l t s =
    if str_eq t (codes "float32")
    then literal float32 (l.parse_float32 s)
    else if str_eq t (codes "float64")
    then literal float64 (l.parse_float64 s)
    else if str_eq t (codes "string")
    then ok (text (trim_space s))
    else if str_eq t (codes "byte")
    then literal signed (parse_int0 (2 ^ 7) s)
    else if str_eq t (codes "int8")
    then literal signed (parse_int0 (2 ^ 7) s)
    else if str_eq t (codes "int16")
    then literal signed (parse_int0 (2 ^ 15) s)
    else if str_eq t (codes "int32")
    then literal signed (parse_int0 (2 ^ 31) s)
    else if str_eq t (codes "int64")
    then literal signed (parse_int0 (2 ^ 63) s)
    else if str_eq t (codes "char")
    then literal unsigned (parse_uint0 (2 ^ 8) s)
    else if str_eq t (codes "uint8")
    then literal unsigned (parse_uint0 (2 ^ 8) s)
    else if str_eq t (codes "uint16")
    then literal unsigned (parse_uint0 (2 ^ 16) s)
    else if str_eq t (codes "uint32")
    then literal unsigned (parse_uint0 (2 ^ 32) s)
    else if str_eq t (codes "uint64")
    then literal unsigned (parse_uint0 (2 ^ 64) s)
    else if str_eq t (codes "bool")
    then bool_literal s
    else err invalid_constant_type

-- `strings.Split(line, "#")[0]`.
abbrev pub before_comment : Bytes → Option (Bytes × Bytes) → Bytes
before_comment line none = line
before_comment line (some (before, after)) = before

unfoldable pub strip_comment : Bytes → Bytes
strip_comment line = trim_space (before_comment line (cut_at b'#' line))

abbrev pub found {ℓ} : {A : Type ℓ} → Error → Option A → Outcome A
found e none = err e
found e (some a) = ok a

-- The name and the text of the value of a constant, from what follows its type.
abbrev pub string_value : Bytes × Bytes → Bytes × Bytes
string_value (key, value) = (trim_space key, trim_left value)

abbrev pub plain_value : Bytes × Bytes → Bytes × Bytes
plain_value (key, value) = (trim_space key, trim_space value)

-- A string is all that follows the sign, comments included, and is looked for in the line as it is.
abbrev pub name_and_value : Bytes → Bytes → Bytes → Outcome (Bytes × Bytes)
name_and_value line field_type after =
    if str_eq field_type (codes "string")
    then (found no_constant_name (cut_space line) >>= λ (_, key_value).
        found no_value (cut_at b'=' key_value) >>= λ kv. ok (string_value kv))
    else (found no_value (cut_at b'=' (trim_space after)) >>= λ kv. ok (plain_value kv))

abbrev pub constant_of : Library → Bytes → Bytes → Bytes → Outcome Constant
constant_of l line field_type after = name_and_value line field_type after >>= λ (name, value_text).
    convert_constant_value l field_type value_text >>= λ value.
    ok (new_constant field_type name value value_text)

unfoldable pub load_constant_line : Library → Bytes → Outcome Constant
load_constant_line l line =
    found no_constant_name (cut_space (strip_comment line)) >>= λ (field_type, after).
    if is_one_of primitive_types field_type
    then constant_of l line field_type after
    else err (illegal_constant_type field_type)

unfoldable pub has_byte : ℕ → Bytes → Bool
has_byte b [] = false
has_byte b (c ∷ s) = if c == b then true else has_byte b s

-- The type with its package: that of the message, for a name that has none and is not builtin.
unfoldable pub full_field_type : Bytes → Bytes → Bytes
full_field_type package_name t =
    if ltb 0 (length package_name) && not (has_byte b'/' t)
    then (if str_eq t (codes "Header")
        then codes "std_msgs/Header"
        else if not (is_builtin_type (base_msg_type t))
        then package_name ++ b'/' ∷ t
        else t)
    else if str_eq t (codes "Header")
    then codes "std_msgs/Header"
    else t

abbrev pub field_from : Bytes → Parts → Field
field_from name (package_name, base_type, is_array, array_len) =
    new_field package_name base_type name is_array array_len

abbrev pub declared : Library → Bytes → Bytes → Bytes → Outcome Field
declared l package_name field_type name =
    if not (is_valid_msg_field_name name)
    then err (illegal_field_name name)
    else if not (is_valid_msg_type l.digit_width field_type)
    then err (illegal_field_type field_type)
    else (with_error bad_type (parse_type (full_field_type package_name field_type)) >>= λ parts.
        ok (field_from name parts))

unfoldable pub load_field_line : Library → Bytes → Bytes → Outcome Field
load_field_line l line package_name =
    found invalid_declaration (cut_at b' ' (strip_comment line)) >>= λ (before, after).
    declared l package_name (trim_space before) (trim_space after)
