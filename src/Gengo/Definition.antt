-- ===== src/Gengo/Definition.antt =====
-- libgengo/context.go: the fields and the constants that the text of a message definition gives.
pub mod Printed
pub mod RoundTrip
use rosgo.Prelude.{
  ℕ, zero, suc, Bool, true, false, List, [], ◌∷◌, Bytes, codes, length, ◌==◌, if◌then◌else◌, Result,
  ok, err, ◌>>=◌, with_error,
}
use rosgo.Gengo.{Constant, Field}
use rosgo.Gengo.Lines
use rosgo.Gengo.Lines.{Library, strip_comment, has_byte, load_constant_line, load_field_line}
use rosgo.Gengo.Print.{newline}

-- `strings.Split(text, "\n")`.
unfoldable pub split_lines : Bytes → List Bytes
split_lines [] = [] ∷ []
split_lines (c ∷ s) =
    if c == newline
    then [] ∷ split_lines s
    else elim (split_lines s) [ [] ↦ (c ∷ []) ∷ [] | l ∷ ls ↦ (c ∷ l) ∷ ls ]

-- A line of a definition, by its content.
pub data Item : Type 0 where
  nothing : Item
  constant : Constant → Item
  field : Field → Item

unfoldable pub load_line : Library → Bytes → Bytes → Result Lines.Error Item
load_line l package_name line =
    if length (strip_comment line) == 0
    then ok nothing
    else if has_byte b'=' (strip_comment line)
    then (load_constant_line l line >>= λ c. ok (constant c))
    else (load_field_line l line package_name >>= λ f. ok (field f))

-- The number of a line, and what is wrong with it.
pub record SyntaxError : Type 0 where
  pub line : ℕ
  pub message : Lines.Error

abbrev pub Items : Type 0
Items = List Field × List Constant

abbrev pub with_item : Item → Items → Items
with_item nothing items = items
with_item (constant c) (fields, constants) = (fields, c ∷ constants)
with_item (field f) (fields, constants) = (f ∷ fields, constants)

-- The loop over the lines, each with its number.
unfoldable pub load_lines : Library → Bytes → ℕ → List Bytes → Result SyntaxError Items
load_lines l package_name n [] = ok ([], [])
load_lines l package_name n (line ∷ lines) =
    with_error (λ e. record { line = n; message = e }) (load_line l package_name line) >>= λ item.
    load_lines l package_name (suc n) lines >>= λ items. ok (with_item item items)
