-- ===== src/Xmlrpc.antt =====
-- xmlrpc/xmlrpc.go: the values of XML-RPC, and the XML tokens that carry them.
pub mod Text
pub mod Emit
pub mod Parse
pub mod RoundTrip
pub mod Ends
pub mod Calls
use rosgo.Prelude.{ℕ, zero, suc, Bool, true, false, List, [], ◌∷◌, Option, Bytes, ◌==◌, Result}
use rosgo.Prelude.Int.{ℤ}

-- A Go value, by its dynamic type: nil, the kinds of bool, of signed and of unsigned integers, and of
-- floats by the bits of a float64, strings, `[]byte`, slices and arrays, maps with string keys, in the
-- order MapKeys gives, maps with other keys, and values of any other kind.
mutual
  pub data Value : Type 0 where
    absent : Value
    boolean : Bool → Value
    int : ℤ → Value
    uint : ℕ → Value
    double : ℕ → Value
    str : Bytes → Value
    base64 : Bytes → Value
    arr : Values → Value
    struct : Members → Value
    other_map : Value
    other_kind : Value

  pub data Values : Type 0 where
    nil : Values
    cons : Value → Values → Values

  pub data Members : Type 0 where
    no_members : Members
    member : Bytes → Value → Members → Members

-- The local name of an element: those the code looks for, and any other.
pub data Tag : Type 0 where
  boolean_tag i4_tag int_tag double_tag string_tag date_time_tag base64_tag array_tag data_tag
        value_tag :
      Tag
  struct_tag member_tag name_tag method_call_tag method_name_tag params_tag param_tag : Tag
  method_response_tag fault_tag : Tag
  other_tag : Bytes → Tag

abbrev number : Tag → ℕ
number boolean_tag = 0
number i4_tag = 1
number int_tag = 2
number double_tag = 3
number string_tag = 4
number date_time_tag = 5
number base64_tag = 6
number array_tag = 7
number data_tag = 8
number value_tag = 9
number struct_tag = 10
number member_tag = 11
number name_tag = 12
number method_call_tag = 13
number method_name_tag = 14
number params_tag = 15
number param_tag = 16
number method_response_tag = 17
number fault_tag = 18
number (other_tag _) = 19

-- Whether a tag is the first one, which is none of the others.
abbrev pub is : Tag → Tag → Bool
is wanted t = number wanted == number t

-- What `Token` of the XML decoder gives: a comment, a directive or a processing instruction is `other`.
-- The decoder stands for the tokens it gives before its error, which it repeats: the end of the input, or
-- XML that is not well formed.
pub data Token : Type 0 where
  start : Tag → Token
  end : Tag → Token
  chars : Bytes → Token
  other : Token

pub data Error : Type 0 where
  no_token name_mismatch not_chars bad_boolean bad_int bad_double bad_base64 bad_string : Error
  empty_name not_supported invalid_data missing_end : Error
  map_key invalid_kind : Error

abbrev pub Outcome {ℓ} : Type ℓ → Type ℓ
Outcome = Result Error

-- FormatFloat(f, 'g', -1, 64) and ParseFloat(s, 64), on the bits of a float64.
pub record Floats : Type 0 where
  pub format_float : ℕ → Bytes
  pub parse_float : Bytes → Option ℕ
