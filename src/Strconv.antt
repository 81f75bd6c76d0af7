-- ===== src/Strconv.antt =====
-- What xmlrpc/xmlrpc.go uses of strconv and encoding/base64: numbers and bytes as text.
pub mod Decimal
pub mod Base64
use rosgo.Prelude.{
  ℕ, zero, suc, ◌+◌, ◌-◌, ◌*◌, ◌/◌, ◌%◌, ◌^◌, Bool, true, false, ◌&&◌, ◌||◌, not, List, [], ◌∷◌,
  ◌++◌, Option, none, some, Bytes, ltb, leb, ◌==◌, if◌then◌else◌,
}
use rosgo.Prelude.Int.{ℤ, pos, negsuc}

-- The decimal digits, with fuel for each.
unfoldable pub digits_of : ℕ → ℕ → Bytes
digits_of zero n = []
digits_of (suc f) n =
    let front = digits_of f (n / 10) in
    if ltb n 10 then (b'0' + n) ∷ [] else front ++ (b'0' + n % 10) ∷ []

unfoldable pub decimal : ℕ → Bytes
decimal n = digits_of (suc n) n

-- `FormatInt(i, 10)`.
unfoldable pub format_int : ℤ → Bytes
format_int (pos n) = decimal n
format_int (negsuc n) = b'-' ∷ decimal (suc n)

abbrev pub lower : ℕ → ℕ
lower c = if leb b'A' c && leb c b'Z' then c + 32 else c

-- The value of a digit; 36 for a byte that is none.
abbrev pub digit_value : ℕ → ℕ
digit_value c =
    if leb b'0' c && leb c b'9'
    then c - b'0'
    else if leb b'a' (lower c) && leb (lower c) b'z'
    then lower c - b'a' + 10
    else 36

-- The digits in a base, behind those read before; an underscore is passed over.
unfoldable pub digits_in : ℕ → ℕ → Bytes → Option ℕ
digits_in base n [] = some n
digits_in base n (c ∷ s) =
    let next = digits_in base (if c == b'_' then n else n * base + digit_value c) s in
    if c == b'_' || ltb (digit_value c) base then next else none

-- `underscoreOK` behind the prefix: an underscore stands between digits only, and the prefix counts as
-- one. The first argument is what stood before.
pub data Before : Type 0 where
  nothing digit underscore : Before

abbrev pub is_digit_or : Bool → ℕ → Bool
is_digit_or hex c =
    (leb b'0' c && leb c b'9') || (hex && (leb b'a' (lower c) && leb (lower c) b'f'))

unfoldable pub underscores_ok : Bool → Before → Bytes → Bool
underscores_ok hex underscore [] = false
underscores_ok hex _ [] = true
underscores_ok hex digit (c ∷ s) =
    underscores_ok hex
      (if is_digit_or hex c then digit else if c == b'_' then underscore else nothing) s
underscores_ok hex nothing (c ∷ s) =
    not (c == b'_') && underscores_ok hex (if is_digit_or hex c then digit else nothing) s
underscores_ok hex underscore (c ∷ s) = is_digit_or hex c && underscores_ok hex digit s

abbrev pub checked_digits : Bool → Before → ℕ → Bytes → Option ℕ
checked_digits hex before base s = if underscores_ok hex before s then digits_in base 0 s else none

-- A number that begins with 0: the base is told by the next byte if there are digits behind it.
abbrev pub prefixed : Bytes → Option ℕ
prefixed (c ∷ d ∷ s) =
    if lower c == b'b'
    then checked_digits false digit 2 (d ∷ s)
    else if lower c == b'o'
    then checked_digits false digit 8 (d ∷ s)
    else if lower c == b'x'
    then checked_digits true digit 16 (d ∷ s)
    else checked_digits false digit 8 (c ∷ d ∷ s)
prefixed s = checked_digits false digit 8 s

-- `ParseUint(s, 0, 64)`, with no bound.
unfoldable pub parse_uint : Bytes → Option ℕ
parse_uint [] = none
parse_uint (c ∷ s) = if c == b'0' then prefixed s else checked_digits false nothing 10 (c ∷ s)

abbrev pub within : ℕ → Option ℕ → Option ℕ
within bound none = none
within bound (some n) = if ltb n bound then some n else none

abbrev pub minus : Option ℕ → Option ℤ
minus none = none
minus (some zero) = some (pos 0)
minus (some (suc n)) = some (negsuc n)

abbrev pub plus : Option ℕ → Option ℤ
plus none = none
plus (some n) = some (pos n)

-- `ParseInt(s, 0, _)`, for the integers from -`bound` to `bound` - 1, with `none` for its errors.
unfoldable pub parse_int0 : ℕ → Bytes → Option ℤ
parse_int0 bound [] = none
parse_int0 bound (c ∷ s) =
    if c == b'+'
    then plus (within bound (parse_uint s))
    else if c == b'-'
    then minus (within (suc bound) (parse_uint s))
    else plus (within bound (parse_uint (c ∷ s)))

-- `ParseUint(s, 0, _)`, for the integers below `bound`.
abbrev pub parse_uint0 : ℕ → Bytes → Option ℕ
parse_uint0 bound s = within bound (parse_uint s)

-- Decimal digits alone, behind those read before.
unfoldable pub decimal_digits : ℕ → Bytes → Option ℕ
decimal_digits n [] = some n
decimal_digits n (c ∷ s) =
    let next = decimal_digits (n * 10 + (c - b'0')) s in
    if leb b'0' c && leb c b'9' then next else none

abbrev pub number_of : Bytes → Option ℕ
number_of [] = none
number_of (c ∷ s) = decimal_digits 0 (c ∷ s)

-- `ParseInt(s, 10, _)`, for the integers from -`bound` to `bound` - 1.
unfoldable pub parse_int10 : ℕ → Bytes → Option ℤ
parse_int10 bound [] = none
parse_int10 bound (c ∷ s) =
    if c == b'+'
    then plus (within bound (number_of s))
    else if c == b'-'
    then minus (within (suc bound) (number_of s))
    else plus (within bound (number_of (c ∷ s)))
