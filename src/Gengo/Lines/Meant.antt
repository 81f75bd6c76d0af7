-- ===== src/Gengo/Lines/Meant.antt =====
-- libgengo/parser.go: loadFieldLine, on a line whose type and name are written out.
use rosgo.Prelude.{
  ℕ, suc, ◌≤◌, ◌≡◌, ◌≢◌, refl, sym, ap, ◌∙◌, true, false, [], ◌∷◌, ◌++◌, Option, Bytes, codes,
  str_eq, str_eq_iff, length, ltb, if◌then◌else◌, ok, ◌>>=◌, with_error, All, All-append,
  All-implies, append_assoc, append-nil, Bool-cases, inl, inr, arith,
}
use rosgo.Name.{sep}
use rosgo.Gengo.{Field}
use rosgo.Gengo.Types.{is_builtin_type, parse_type}
use rosgo.Gengo.Spelled.{Suffix, scalar, any, fixed, suffix_text, IsSuffix, meant, parse_type-meant}
use rosgo.Gengo.Legal.{letter_then_word, word_chars, is_valid_msg_field_name}
use rosgo.Gengo.Lines.{
  Library, Outcome, bad_type, has_byte, full_field_type, field_from, load_field_line,
}
use rosgo.Gengo.Lines.Spelled.{line_text, load_field_line-line}
use rosgo.Gengo.Lines.Words.{
  IsBase, letter_then_word-IsBase, base_word, word-NoBracket, word_no_sep,
}
use rosgo.Gengo.Lines.Valid.{
  IsLegal, base-IsLegal, pair-IsLegal, base_msg_type-suffix, type-IsWritten,
  is_valid_msg_type-legal, name-IsWritten,
}

-- The package of a type that has none: std_msgs for just `Header`, none for a builtin type, and otherwise that
-- of the message.
abbrev pub package_of : Bytes → Bytes → Suffix → Bytes
package_of package_name n x =
    if str_eq (n ++ suffix_text x) (codes "Header")
    then codes "std_msgs"
    else if is_builtin_type n
    then []
    else package_name

-- The field of a type and a name.
abbrev pub field_meant : Bytes → Bytes → Suffix → Bytes → Outcome Field
field_meant p n x name = with_error bad_type (meant p n x) >>= λ parts. ok (field_from name parts)

pub has_byte_none : (b : ℕ) (s : Bytes) → All (λ c. c ≢ b) s → has_byte b s ≡ false
unfolding has_byte
has_byte_none b [] h = refl
has_byte_none b (c ∷ s) h = rw (has_byte_none b s h.1) (ground (arith, h.0))

has_byte_some : (b : ℕ) (s rest : Bytes) → has_byte b (s ++ b ∷ rest) ≡ true
unfolding has_byte
has_byte_some b [] rest = ground arith
has_byte_some b (c ∷ s) rest = rw (has_byte_some b s rest) (ground arith)

-- A text with a byte that another has not is not the other.
other_text : (b : ℕ) (s t : Bytes) → has_byte b s ≡ true → has_byte b t ≡ false → str_eq s t ≡ false
other_text b s t h g = elim (Bool-cases (str_eq s t)) [
  | inl e ↦
      let q = (str_eq_iff s t).0 e in
      let k : true ≡ false = sym h ∙ ap (has_byte b) q ∙ g in absurd (cc)
  | inr e ↦ e
]

suffix_no_sep : (x : Suffix) → IsSuffix x → All (λ c. c ≢ sep) (suffix_text x)
suffix_no_sep scalar h = tt
suffix_no_sep any h = ((λ e. absurd (omega arith)), ((λ e. absurd (omega arith)), tt))
suffix_no_sep (fixed d ds) h = (
  (λ e. absurd (omega arith)),
  All-append (λ c. c ≢ sep) (d ∷ ds) (codes "]")
      (All-implies (λ c. (b'0' ≤ c) × (c ≤ b'9')) (λ c. c ≢ sep) (d ∷ ds)
        (λ c l e. absurd (omega (arith, l.0, e))) h)
      ((λ e. absurd (omega arith)), tt),
)

-- Only the bare name `Header` spells it.
header_scalar :
    (n : Bytes) (x : Suffix)
    → str_eq (n ++ suffix_text x) (codes "Header") ≡ true
    → (n ≡ codes "Header") × (x ≡ scalar)
header_scalar n scalar h = (sym (append-nil n) ∙ (str_eq_iff (n ++ []) (codes "Header")).0 h, refl)
header_scalar n any h =
    let g =
      other_text b'[' (n ++ suffix_text any) (codes "Header") (has_byte_some b'[' n (codes "]"))
        (unfold has_byte in refl) in
    absurd (cc)
header_scalar n (fixed d ds) h =
    let g =
      other_text b'[' (n ++ suffix_text (fixed d ds)) (codes "Header")
        (has_byte_some b'[' n ((d ∷ ds) ++ codes "]")) (unfold has_byte in refl) in
    absurd (cc)

-- Behind brackets the package is that of the message or none.
pub package_of-array :
    (p n : Bytes) (x : Suffix)
    → x ≢ scalar
    → package_of p n x ≡ (if is_builtin_type n then [] else p)
package_of-array p n x h = elim (Bool-cases (str_eq (n ++ suffix_text x) (codes "Header"))) [
  | inl e ↦ absurd (h (header_scalar n x e).1)
  | inr e ↦ rw e refl
]

pair_first :
    (p n : Bytes) (x : Suffix)
    → IsBase p
    → IsBase n
    → IsSuffix x
    → parse_type (p ++ sep ∷ (n ++ suffix_text x)) ≡ meant p n x
pair_first p n x a b h =
    ap parse_type (sym (append_assoc p (sep ∷ n) (suffix_text x)))
    ∙ (parse_type-meant p n x (word_no_sep p (base_word p a)) (word_no_sep n (base_word n b))
        (word-NoBracket p (base_word p a)) (word-NoBracket n (base_word n b)) h).0

bare :
    (n : Bytes) (x : Suffix)
    → IsBase n
    → IsSuffix x
    → parse_type (n ++ suffix_text x) ≡ meant [] n x
bare n x b h =
    (parse_type-meant n n x (word_no_sep n (base_word n b)) (word_no_sep n (base_word n b))
      (word-NoBracket n (base_word n b)) (word-NoBracket n (base_word n b)) h).1

-- The full type of a bare name is parsed with its package.
full_bare :
    (p n : Bytes) (x : Suffix)
    → IsBase p
    → IsBase n
    → IsSuffix x
    → parse_type (full_field_type p (n ++ suffix_text x)) ≡ meant (package_of p n x) n x
unfolding full_field_type word_chars
full_bare p n x a b h =
    rw
      (
        ap (λ q. ltb 0 (length q)) a.split ∙ positive a.tail,
        has_byte_none sep (n ++ suffix_text x) (
            All-append (λ c. c ≢ sep) n (suffix_text x) (word_no_sep n (base_word n b))
              (suffix_no_sep x h)),
        base_msg_type-suffix n x (word-NoBracket n (base_word n b)),
      )
      (elim (Bool-cases (str_eq (n ++ suffix_text x) (codes "Header"))) [
        | inl e ↦ rw e (std_header n x e)
        | inr e ↦ rw e (elim (Bool-cases (is_builtin_type n)) [
          | inl g ↦ rw g (bare n x b h)
          | inr g ↦ rw g (pair_first p n x a b h)
        ])
      ])
  where
    positive : (s : Bytes) → ltb 0 (suc (length s)) ≡ true
    positive s = ground arith

    std_header :
        (n : Bytes) (x : Suffix)
        → str_eq (n ++ suffix_text x) (codes "Header") ≡ true
        → parse_type (codes "std_msgs/Header") ≡ meant (codes "std_msgs") n x
    std_header n x e =
        let (q, r) = header_scalar n x e in
        pair_first (codes "std_msgs") (codes "Header") scalar
          (letter_then_word-IsBase (codes "std_msgs") refl)
          (letter_then_word-IsBase (codes "Header") refl) tt
        ∙ ap (λ m. meant (codes "std_msgs") m scalar) (sym q)
        ∙ ap (meant (codes "std_msgs") n) (sym r)

-- A type with a package keeps it.
full_pair :
    (p q n : Bytes) (x : Suffix)
    → IsBase q
    → IsBase n
    → IsSuffix x
    → parse_type (full_field_type p (q ++ sep ∷ (n ++ suffix_text x))) ≡ meant q n x
unfolding full_field_type
full_pair p q n x a b h =
    let t = q ++ sep ∷ (n ++ suffix_text x) in
    let has : has_byte sep t ≡ true = has_byte_some sep q (n ++ suffix_text x) in
    let other : str_eq t (codes "Header") ≡ false =
      other_text sep t (codes "Header") has (unfold has_byte in refl) in
    rw has (
      rw other (elim (Bool-cases (ltb 0 (length p))) [
        | inl e ↦ rw e (pair_first q n x a b h)
        | inr e ↦ rw e (pair_first q n x a b h)
      ]))

declared_legal :
    (l : Library) (p base : Bytes) (x : Suffix) (name : Bytes) (k j : ℕ) (comment : Option Bytes)
    (o : _)
    → IsLegal base
    → IsSuffix x
    → is_valid_msg_field_name name ≡ true
    → parse_type (full_field_type p (base ++ suffix_text x)) ≡ o
    → load_field_line l (line_text (base ++ suffix_text x) k name j comment) p
      ≡ (with_error bad_type o >>= λ parts. ok (field_from name parts))
declared_legal l p base x name k j comment o b h v e =
    load_field_line-line l p (base ++ suffix_text x) k name j comment (type-IsWritten base x b h)
      (name-IsWritten name v)
    ∙ rw (v, is_valid_msg_type-legal l.digit_width base x b h)
        (ap (λ q. with_error bad_type q >>= λ parts. ok (field_from name parts)) e)

-- A line with a type, blanks, a name and perhaps blanks and a comment, in a package: where the type is a name
-- and perhaps brackets, the field has the package that is meant for it, and where the type names its package
-- itself, that one. It fails just for a length of 2^31 or more.
pub load_field_line-meant :
    (l : Library) (p q n : Bytes) (x : Suffix) (name : Bytes) (k j : ℕ) (comment : Option Bytes)
    → letter_then_word p ≡ true
    → letter_then_word q ≡ true
    → letter_then_word n ≡ true
    → IsSuffix x
    → is_valid_msg_field_name name ≡ true
    → (load_field_line l (line_text (n ++ suffix_text x) k name j comment) p
        ≡ field_meant (package_of p n x) n x name)
      × (load_field_line l (line_text ((q ++ (sep ∷ n)) ++ suffix_text x) k name j comment) p
          ≡ field_meant q n x name)
load_field_line-meant l p q n x name k j comment hp hq hn h v =
    let bp = letter_then_word-IsBase p hp in
    let bq = letter_then_word-IsBase q hq in
    let bn = letter_then_word-IsBase n hn in
    (
      declared_legal l p n x name k j comment _ (base-IsLegal n bn) h v (full_bare p n x bp bn h),
      declared_legal l p (q ++ (sep ∷ n)) x name k j comment _ (pair-IsLegal q n bq bn) h v (
          ap (λ t. parse_type (full_field_type p t)) (append_assoc q (sep ∷ n) (suffix_text x))
          ∙ full_pair p q n x bq bn h),
    )
