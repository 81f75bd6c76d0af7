-- ===== src/Gengo/Lines/Valid.antt =====
-- libgengo/msgs.go: the legal types and names, on those that are written out.
use rosgo.Prelude.{
  ℕ, ◌≤◌, ◌<◌, ◌≡◌, ◌≢◌, refl, ap, ◌∙◌, Bool, true, false, [], ◌∷◌, ◌++◌, none, some, Bytes, codes,
  str_eq_iff, ◌==◌, if◌then◌else◌, All, All-append, All-implies, append-nil, drop-append, arith,
}
use rosgo.Prelude.Space.{between, trim_space}
use rosgo.Prelude.Space.Trim.{IsPrintable}
use rosgo.Name.{sep}
use rosgo.Gengo.Types.{base_msg_type}
use rosgo.Gengo.Spelled.{
  Suffix, scalar, any, fixed, suffix_text, IsSuffix, IsDigits, NoBracket, cut_none, cut_some,
}
use rosgo.Gengo.Legal.{
  is_letter, is_name_char, all_name_chars, matches_legal, doubled_behind,
  is_legal_resource_base_name, is_valid_msg_field_name, brackets, is_valid_msg_type,
}
use rosgo.Gengo.Lines.Spelled.{IsVisible, IsWritten, trim_space-printable}
use rosgo.Gengo.Lines.Words.{
  IsBase, base_word, word-NoBracket, both, and_true, letter_name, IsVisible-name, base_names,
  all_names, doubled_word, doubled_pair,
}

-- What is legal before the brackets.
abbrev pub IsLegal : Bytes → Type 0
IsLegal base =
    (c : ℕ) × (s : Bytes) × (base ≡ c ∷ s)
    × All IsVisible (c ∷ s)
    × NoBracket (c ∷ s)
    × (is_legal_resource_base_name (c ∷ s) ≡ true)

IsVisible-all : (s : Bytes) → All (λ c. is_name_char c ≡ true) s → All IsVisible s
IsVisible-all s h =
    All-implies (λ c. is_name_char c ≡ true) IsVisible s (λ c e. (IsVisible-name c e).0) h

pub base-IsLegal : (n : Bytes) → IsBase n → IsLegal n
unfolding is_legal_resource_base_name matches_legal
base-IsLegal n b = (
  b.head,
  b.tail,
  b.split,
  IsVisible-all (b.head ∷ b.tail) b.names,
  word-NoBracket (b.head ∷ b.tail) b.word,
  rw (doubled_word 0 (b.head ∷ b.tail) b.word)
      (and_true (is_letter b.head) (all_name_chars b.tail) b.letter (all_names b.tail b.names.1)),
)

pub pair-IsLegal : (q n : Bytes) → IsBase q → IsBase n → IsLegal (q ++ (sep ∷ n))
unfolding is_legal_resource_base_name matches_legal
pair-IsLegal q n a b =
    let names : All (λ c. is_name_char c ≡ true) (a.tail ++ (sep ∷ n)) =
      All-append _ a.tail (sep ∷ n) a.names.1 (refl, base_names n b) in
    (
      a.head,
      a.tail ++ (sep ∷ n),
      ap (λ s. s ++ (sep ∷ n)) a.split,
      IsVisible-all (a.head ∷ (a.tail ++ (sep ∷ n))) (a.names.0, names),
      All-append _ (a.head ∷ a.tail) (sep ∷ n) (word-NoBracket (a.head ∷ a.tail) a.word)
          ((λ e. absurd (omega arith)), word-NoBracket n (base_word n b)),
      rw
          (ap (λ s. doubled_behind 0 (a.head ∷ (a.tail ++ sep ∷ s))) b.split
            ∙ doubled_pair 0 (a.head ∷ a.tail) b.head b.tail (λ e. absurd (omega arith)) a.word
                b.word)
          (and_true (is_letter a.head) (all_name_chars (a.tail ++ (sep ∷ n))) a.letter
            (all_names _ names)),
    )

-- The brackets.
digit_no_close : (d : ℕ) → b'0' ≤ d → d ≤ b'9' → (d == b']') ≡ false
digit_no_close d h g = ground arith

digit_between : (d : ℕ) → b'0' ≤ d → d ≤ b'9' → between b'0' b'9' d ≡ true
digit_between d h g = ground arith

brackets_digits :
    (width : Bytes → ℕ) (ds : Bytes) → IsDigits ds → brackets width true 0 (ds ++ codes "]") ≡ true
unfolding brackets
brackets_digits width [] h = refl
brackets_digits width (d ∷ ds) h =
    let e : (d == b']') ≡ false = digit_no_close d h.0.0 h.0.1 in
    let g : between b'0' b'9' d ≡ true = digit_between d h.0.0 h.0.1 in
    rw e (rw g (brackets_digits width ds h.1))

brackets_suffix :
    (width : Bytes → ℕ) (x : Suffix) → IsSuffix x → brackets width false 0 (suffix_text x) ≡ true
unfolding brackets
brackets_suffix width scalar h = refl
brackets_suffix width any h = refl
brackets_suffix width (fixed d ds) h = brackets_digits width (d ∷ ds) h

pub base_msg_type-suffix :
    (base : Bytes) (x : Suffix) → NoBracket base → base_msg_type (base ++ suffix_text x) ≡ base
unfolding base_msg_type
base_msg_type-suffix base scalar h =
    rw (append-nil base) (ap (λ o. elim o [ none ↦ base | some (b, r) ↦ b ]) (cut_none base h))
base_msg_type-suffix base any h =
    ap (λ o. elim o [ none ↦ base ++ codes "[]" | some (b, r) ↦ b ]) (cut_some base (codes "]") h)
base_msg_type-suffix base (fixed d ds) h =
    ap (λ o. elim o [ none ↦ base ++ suffix_text (fixed d ds) | some (b, r) ↦ b ])
      (cut_some base ((d ∷ ds) ++ codes "]") h)

IsVisible-char : (c : ℕ) → 33 ≤ c → c < 128 → c ≢ b'#' → IsVisible c
IsVisible-char c h g k = ((h, g), k)

IsVisible-digit : (c : ℕ) → b'0' ≤ c → c ≤ b'9' → IsVisible c
IsVisible-digit c h g = ((omega arith, omega arith), λ e. absurd (omega arith))

IsVisible-open : IsVisible b'['
IsVisible-open = ((omega arith, omega arith), λ e. absurd (omega arith))

IsVisible-close : All IsVisible (codes "]")
IsVisible-close = (((omega arith, omega arith), λ e. absurd (omega arith)), tt)

IsVisible-suffix : (x : Suffix) → IsSuffix x → All IsVisible (suffix_text x)
IsVisible-suffix scalar h = tt
IsVisible-suffix any h = (IsVisible-open, IsVisible-close)
IsVisible-suffix (fixed d ds) h = (
  IsVisible-open,
  All-append IsVisible (d ∷ ds) (codes "]")
      (All-implies (λ c. (b'0' ≤ c) × (c ≤ b'9')) IsVisible (d ∷ ds)
        (λ c e. IsVisible-digit c e.0 e.1) h)
      IsVisible-close,
)

-- A legal base, with an array part or without, makes a type that can be seen and is valid.
pub type-IsWritten :
    (base : Bytes) (x : Suffix) → IsLegal base → IsSuffix x → IsWritten (base ++ suffix_text x)
type-IsWritten base x (c, s, e, v, b, l) h =
    rw e ((λ q. absurd (cc)), All-append IsVisible (c ∷ s) (suffix_text x) v (IsVisible-suffix x h))

pub is_valid_msg_type-legal :
    (width : Bytes → ℕ) (base : Bytes) (x : Suffix)
    → IsLegal base
    → IsSuffix x
    → is_valid_msg_type width (base ++ suffix_text x) ≡ true
unfolding is_valid_msg_type
is_valid_msg_type-legal width base x (c, s, e, v, b, l) h =
    let t = (c ∷ s) ++ suffix_text x in
    let same : trim_space t ≡ t = trim_space-printable c (s ++ suffix_text x) (
      All-implies IsVisible IsPrintable t (λ c w. w.0)
        (All-append IsVisible (c ∷ s) (suffix_text x) v (IsVisible-suffix x h))) in
    rw e (
      rw same (
        rw ((str_eq_iff t t).1 refl) (
          rw (base_msg_type-suffix (c ∷ s) x b)
            (rw l (rw (drop-append (c ∷ s) (suffix_text x)) (brackets_suffix width x h))))))

unless : (a b : Bool) → (if a then false else b) ≡ true → b ≡ true
unless true b h = absurd (cc)
unless false b h = h

names_all : (s : Bytes) → all_name_chars s ≡ true → All (λ c. is_name_char c ≡ true) s
unfolding all_name_chars
names_all [] h = tt
names_all (c ∷ s) h = let g = both (is_name_char c) (all_name_chars s) h in (g.0, names_all s g.1)

pub name-IsWritten : (name : Bytes) → is_valid_msg_field_name name ≡ true → IsWritten name
unfolding is_valid_msg_field_name is_legal_resource_base_name matches_legal
name-IsWritten [] h = let g : false ≡ true = unless (doubled_behind 0 []) false h in absurd (cc)
name-IsWritten (c ∷ s) h =
    let g =
      both (is_letter c) (all_name_chars s)
        (unless (doubled_behind 0 (c ∷ s)) (matches_legal (c ∷ s)) h) in
    ((λ q. absurd (cc)), IsVisible-all (c ∷ s) (letter_name c g.0, names_all s g.1))

-- A name can be seen, and has no `=`.
pub name_bytes :
    (name : Bytes) → is_valid_msg_field_name name ≡ true → All (λ c. IsVisible c × (c ≢ b'=')) name
unfolding is_valid_msg_field_name is_legal_resource_base_name matches_legal
name_bytes [] h = tt
name_bytes (c ∷ s) h =
    let g =
      both (is_letter c) (all_name_chars s)
        (unless (doubled_behind 0 (c ∷ s)) (matches_legal (c ∷ s)) h) in
    All-implies (λ c. is_name_char c ≡ true) (λ c. IsVisible c × (c ≢ b'=')) (c ∷ s) IsVisible-name
      (letter_name c g.0, names_all s g.1)
