-- ===== src/Gengo/Print.antt =====
-- libgengo/msgs.go: how fields, constants and specifications are printed.
use rosgo.Prelude.{ℕ, List, [], ◌∷◌, ◌++◌, map, Bytes, codes, if◌then◌else◌}
use rosgo.Prelude.Int.{ℤ, pos, negsuc}
use rosgo.Strconv.{format_int}
use rosgo.Gengo.{Literal, Constant, Field, MsgSpec}

abbrev pub newline : ℕ
newline = 10

-- The array part of a field that is an array.
abbrev pub length_text : ℤ → Bytes
length_text (pos n) = b'[' ∷ (format_int (pos n) ++ codes "]")
length_text (negsuc n) = codes "[]"

-- `Field.String`.
unfoldable pub field_string : Field → Bytes
field_string f =
    if f.is_array
    then f.field_type ++ (length_text f.array_len ++ b' ' ∷ f.name)
    else f.field_type ++ b' ' ∷ f.name

-- `Constant.String`, with what fmt's `%v` writes for a value as a parameter.
unfoldable pub constant_string : (Literal → Bytes) → Constant → Bytes
constant_string format c = c.constant_type ++ b' ' ∷ (c.name ++ (codes " = " ++ format c.value))

-- `strings.Join(lines, "\n")`.
unfoldable pub join_lines : List Bytes → Bytes
join_lines [] = []
join_lines (l ∷ []) = l
join_lines (l ∷ k ∷ ls) = l ++ newline ∷ join_lines (k ∷ ls)

abbrev pub indented : Bytes → Bytes
indented s = 9 ∷ s

-- `MsgSpec.String`.
unfoldable pub spec_string : (Literal → Bytes) → MsgSpec → Bytes
spec_string format s = join_lines (
    (codes "msg " ++ (s.full_name ++ codes " {"))
    ∷ (map (λ c. indented (constant_string format c)) s.constants
        ++ ([] ∷ (map (λ f. indented (field_string f)) s.fields ++ (codes "}" ∷ [])))))
