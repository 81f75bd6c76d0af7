-- ===== src/Gengo/Types.antt =====
-- libgengo/msgs.go and parser.go: the names of types, and how `parseType` takes them apart.
use rosgo.Prelude.{
  ℕ, zero, suc, ◌+◌, ◌*◌, ◌-◌, ◌^◌, Bool, true, false, ◌&&◌, List, [], ◌∷◌, Option, none, some,
  Bytes, codes, str_eq, length, take, drop, ltb, leb, ◌==◌, if◌then◌else◌, Result, ok, err, ◌>>=◌,
}
use rosgo.Prelude.Int.{ℤ, pos, negsuc}
use rosgo.Name.{split}

abbrev pub primitive_types : List Bytes
primitive_types =
    codes "int8"
    ∷ codes "uint8"
    ∷ codes "int16"
    ∷ codes "uint16"
    ∷ codes "int32"
    ∷ codes "uint32"
    ∷ codes "int64"
    ∷ codes "uint64"
    ∷ codes "float32"
    ∷ codes "float64"
    ∷ codes "string"
    ∷ codes "bool"
    ∷ codes "char"
    ∷ codes "byte"
    ∷ []

abbrev pub builtin_types : List Bytes
builtin_types = codes "time" ∷ codes "duration" ∷ primitive_types

-- The loop that looks for a name in a list.
unfoldable pub is_one_of : List Bytes → Bytes → Bool
is_one_of [] name = false
is_one_of (t ∷ ts) name = if str_eq t name then true else is_one_of ts name

unfoldable pub is_primitive_type : Bytes → Bool
is_primitive_type name = is_one_of primitive_types name

unfoldable pub is_builtin_type : Bytes → Bool
is_builtin_type name = is_one_of builtin_types name

unfoldable pub is_header_type : Bytes → Bool
is_header_type name =
    is_one_of (codes "Header" ∷ codes "std_msgs/Header" ∷ codes "roslib/Header" ∷ []) name

-- What stands before the first `[`, and what begins there, if there is one: `strings.Index` and the
-- two slices at it.
unfoldable pub cut_bracket : Bytes → Option (Bytes × Bytes)
cut_bracket [] = none
cut_bracket (c ∷ s) =
    if c == b'['
    then some ([], c ∷ s)
    else elim (cut_bracket s) [ none ↦ none | some (base, rest) ↦ some (c ∷ base, rest) ]

unfoldable pub base_msg_type : Bytes → Bytes
base_msg_type t = elim (cut_bracket t) [ none ↦ t | some (base, rest) ↦ base ]

-- The first two components, whatever follows them.
abbrev pub first_two : Bytes → List Bytes → Bytes × Bytes
first_two t (p ∷ n ∷ _) = (p, n)
first_two t _ = ([], t)

unfoldable pub split_type : Bytes → Bytes × Bytes
split_type t = first_two t (split t)

-- The errors: no `]` at the end, and those of `strconv.ParseInt`.
pub data Error : Type 0 where
  missing_bracket bad_number : Error

abbrev pub Outcome : Type 0 → Type 0
Outcome = Result Error

abbrev pub is_digit : ℕ → Bool
is_digit c = leb b'0' c && leb c b'9'

-- The digits of a number behind those read before: none if there is another byte.
unfoldable pub digits : ℕ → Bytes → Option ℕ
digits n [] = some n
digits n (c ∷ s) = let rest = digits (n * 10 + (c - b'0')) s in if is_digit c then rest else none

-- `ParseUint(s, 10, 32)` as `ParseInt` uses it: one digit at least.
abbrev pub number : Bytes → Option ℕ
number [] = none
number (c ∷ s) = digits 0 (c ∷ s)

abbrev pub as_positive : Option ℕ → Outcome ℤ
as_positive none = err bad_number
as_positive (some n) = if ltb n (2 ^ 31) then ok (pos n) else err bad_number

abbrev pub as_negative : Option ℕ → Outcome ℤ
as_negative none = err bad_number
as_negative (some zero) = ok (pos 0)
as_negative (some (suc n)) = if ltb n (2 ^ 31) then ok (negsuc n) else err bad_number

-- `strconv.ParseInt(s, 10, 32)`.
unfoldable pub parse_int : Bytes → Outcome ℤ
parse_int [] = err bad_number
parse_int (c ∷ s) =
    if c == b'+'
    then as_positive (number s)
    else if c == b'-'
    then as_negative (number s)
    else as_positive (number (c ∷ s))

-- The package, the base type, whether it is an array, and the length: -1 for any.
abbrev pub Parts : Type 0
Parts = Bytes × Bytes × Bool × ℤ

abbrev pub last_is_close : Bytes → Bool
last_is_close [] = false
last_is_close (c ∷ []) = c == b']'
last_is_close (c ∷ d ∷ s) = last_is_close (d ∷ s)

-- `rest[1:len(rest)-1]`, for a rest that begins with `[` and ends with `]`.
abbrev pub inside : Bytes → Bytes
inside rest = drop 1 (take (length rest - 1) rest)

abbrev pub array_parts : Bytes × Bytes → Bytes → Outcome Parts
array_parts (package_name, name) rest =
    if str_eq rest (codes "[]")
    then ok (package_name, name, true, negsuc 0)
    else (parse_int (inside rest) >>= λ value. ok (package_name, name, true, value))

abbrev pub scalar_parts : Bytes × Bytes → Outcome Parts
scalar_parts (package_name, name) = ok (package_name, name, false, pos 0)

-- The rest of `parseType`, on the two sides of the bracket if there is one.
abbrev pub parts_of : Bytes → Option (Bytes × Bytes) → Outcome Parts
parts_of msg_type none = scalar_parts (split_type msg_type)
parts_of msg_type (some (base, rest)) =
    if last_is_close msg_type then array_parts (split_type base) rest else err missing_bracket

unfoldable pub parse_type : Bytes → Outcome Parts
parse_type msg_type = parts_of msg_type (cut_bracket msg_type)

abbrev pub two_parts : List Bytes → Option (Bytes × Bytes)
two_parts (p ∷ n ∷ []) = some (p, n)
two_parts _ = none

-- `packageResourceName`: an error is `none`. A name with no separator has one component.
unfoldable pub package_resource_name : Bytes → Option (Bytes × Bytes)
package_resource_name name = elim (split name) [
  | [] ↦ some ([], name)
  | p ∷ ps ↦ elim ps [ [] ↦ some ([], name) | q ∷ qs ↦ two_parts (p ∷ q ∷ qs) ]
]
