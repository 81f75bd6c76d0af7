-- ===== src/Gengo/Legal.antt =====
-- libgengo/msgs.go: which names of fields, types and resources are legal.
use rosgo.Prelude.{
  ℕ, zero, suc, ◌-◌, Bool, true, false, ◌&&◌, ◌||◌, not, [], ◌∷◌, Bytes, str_eq, length, drop, ◌==◌,
  if◌then◌else◌,
}
use rosgo.Prelude.Space.{between, trim_space}
use rosgo.Gengo.Types.{base_msg_type}

abbrev pub is_letter : ℕ → Bool
is_letter c = between b'A' b'Z' c || between b'a' b'z' c

-- `\w` and the separator.
abbrev pub is_name_char : ℕ → Bool
is_name_char c = is_letter c || between b'0' b'9' c || c == b'_' || c == b'/'

unfoldable pub all_name_chars : Bytes → Bool
all_name_chars [] = true
all_name_chars (c ∷ s) = is_name_char c && all_name_chars s

-- `ResourceNameLegalCharsPattern`: a letter, then letters, digits, underscores and separators.
unfoldable pub matches_legal : Bytes → Bool
matches_legal [] = false
matches_legal (c ∷ s) = is_letter c && all_name_chars s

-- `strings.Contains(name, "//")`, for a name behind a byte.
unfoldable pub doubled_behind : ℕ → Bytes → Bool
doubled_behind b [] = false
doubled_behind b (c ∷ s) = (b == b'/' && c == b'/') || doubled_behind c s

unfoldable pub is_legal_resource_base_name : Bytes → Bool
is_legal_resource_base_name name = if doubled_behind 0 name then false else matches_legal name

unfoldable pub is_valid_msg_field_name : Bytes → Bool
is_valid_msg_field_name name = is_legal_resource_base_name name

-- `BaseResourceNameLegalCharsPattern`: a quote, a letter, then letters, digits and underscores, at the end
-- of the text: the pattern has a quote where it means the start.
unfoldable pub word_chars : Bytes → Bool
word_chars [] = true
word_chars (c ∷ s) = is_name_char c && not (c == b'/') && word_chars s

abbrev pub letter_then_word : Bytes → Bool
letter_then_word [] = false
letter_then_word (c ∷ s) = is_letter c && word_chars s

unfoldable pub is_legal_resource_name : Bytes → Bool
is_legal_resource_name [] = false
is_legal_resource_name (c ∷ s) = (c == b'"' && letter_then_word s) || is_legal_resource_name s

-- The brackets behind the base of a type: whether one is open, and the bytes of a digit that are still
-- to be passed over. The parameter tells the bytes of a digit of Unicode other than those of ASCII that a
-- text begins with; 0 if it begins with none.
abbrev pub allowed : (Bytes → ℕ) → Bool → ℕ → Bytes → Bool
allowed width false c s = c == b'['
allowed width true c s = c == b']' || between b'0' b'9' c || not (width (c ∷ s) == 0)

abbrev pub open_behind : Bool → ℕ → Bool
open_behind false c = true
open_behind true c = not (c == b']')

abbrev pub passed_over : (Bytes → ℕ) → Bool → ℕ → Bytes → ℕ
passed_over width false c s = 0
passed_over width true c s = if c == b']' || between b'0' b'9' c then 0 else width (c ∷ s) - 1

unfoldable pub brackets : (Bytes → ℕ) → Bool → ℕ → Bytes → Bool
brackets width inside k [] = not inside
brackets width inside (suc k) (c ∷ s) = brackets width inside k s
brackets width inside zero (c ∷ s) =
    allowed width inside c s
    && brackets width (open_behind inside c) (passed_over width inside c s) s

unfoldable pub is_valid_msg_type : (Bytes → ℕ) → Bytes → Bool
is_valid_msg_type width t =
    if not (str_eq t (trim_space t))
    then false
    else if not (is_legal_resource_base_name (base_msg_type t))
    then false
    else brackets width false 0 (drop (length (base_msg_type t)) t)
