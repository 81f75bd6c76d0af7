-- ===== src/Gengo/Definition/Printed.antt =====
-- Field.String of libgengo/msgs.go and loadFieldLine of libgengo/parser.go, on one field.
use mathlib.Core.Path.{subst}
use mathlib.Core.Option.{some-injective}
use rosgo.Prelude.{
  ℕ, suc, ◌+◌, ◌-◌, ◌*◌, ◌^◌, ◌≤◌, ◌<◌, ◌≡◌, ◌≢◌, refl, sym, ap, ◌∙◌, Bool, true, false, [], ◌∷◌,
  ◌++◌, none, some, Bytes, codes, length, ltb, ◌==◌, if◌then◌else◌, ok, ◌>>=◌, with_error, All,
  All-append, All-implies, append_assoc, append-nil, arith,
}
use rosgo.Prelude.Int.{ℤ, pos, negsuc}
use rosgo.Strconv.{format_int, digits_in}
use rosgo.Strconv.Decimal.{IsDigit, decimal-Digits, digit_step}
use rosgo.Gengo.{Field}
use rosgo.Gengo.Types.{is_builtin_type}
use rosgo.Gengo.Fields.{new_field}
use rosgo.Gengo.Spelled.{Suffix, scalar, any, fixed, suffix_text, IsSuffix, value_of, meant}
use rosgo.Gengo.Legal.{letter_then_word, is_valid_msg_field_name}
use rosgo.Gengo.Lines.{Library, bad_type, strip_comment, has_byte, field_from, load_field_line}
use rosgo.Gengo.Lines.Spelled.{line_text, IsVisible, IsWritten, strip_comment-line}
use rosgo.Gengo.Lines.Words.{IsWordChar, letter_then_word-IsBase, base_word}
use rosgo.Gengo.Lines.Valid.{base-IsLegal, type-IsWritten, name-IsWritten, name_bytes}
use rosgo.Gengo.Lines.Meant.{
  package_of, package_of-array, field_meant, has_byte_none, load_field_line-meant,
}
use rosgo.Gengo.Print.{newline, field_string}
use rosgo.Gengo.Definition.{field, load_line}

-- How many values a field holds.
pub data Extent : Type 0 where
  one many : Extent
  exactly : ℕ → Extent

abbrev pub is_array_of : Extent → Bool
is_array_of one = false
is_array_of many = true
is_array_of (exactly k) = true

abbrev pub length_of : Extent → ℤ
length_of one = pos 0
length_of many = negsuc 0
length_of (exactly k) = pos k

abbrev suffix_of : Extent → Suffix
suffix_of one = scalar
suffix_of many = any
suffix_of (exactly k) = fixed (decimal-Digits k).head (decimal-Digits k).tail

-- The package of a field of a message of package `p`, for a type with no package of its own.
abbrev pub own_package : Bytes → Bytes → Extent → Bytes
own_package p n one = package_of p n scalar
own_package p n _ = if is_builtin_type n then [] else p

abbrev pub own_field : Bytes → Bytes → Bytes → Extent → Field
own_field p n name e = new_field (own_package p n e) n name (is_array_of e) (length_of e)

abbrev pub IsExtent : Extent → Type 0
IsExtent (exactly k) = k < 2 ^ 31
IsExtent _ = Unit

suffix_of-IsSuffix : (e : Extent) → IsSuffix (suffix_of e)
suffix_of-IsSuffix one = tt
suffix_of-IsSuffix many = tt
suffix_of-IsSuffix (exactly k) =
    subst (All IsDigit) (decimal-Digits k).split (decimal-Digits k).digits

digits_value : (n : ℕ) (s : Bytes) → All IsDigit s → digits_in 10 n s ≡ some (value_of n s)
digits_value n [] h = unfold digits_in in refl
digits_value n (c ∷ s) h = digit_step 10 n c s h.0 refl ∙ digits_value (n * 10 + (c - b'0')) s h.1

value_of_decimal : (k : ℕ) → value_of 0 ((decimal-Digits k).head ∷ (decimal-Digits k).tail) ≡ k
value_of_decimal k =
    let v = decimal-Digits k in
    some-injective _ _ (
      sym (digits_value 0 (v.head ∷ v.tail) (suffix_of-IsSuffix (exactly k)))
      ∙ ap (digits_in 10 0) (sym v.split)
      ∙ v.value)

meant_extent :
    (q n : Bytes) (e : Extent)
    → IsExtent e
    → meant q n (suffix_of e) ≡ ok (q, n, is_array_of e, length_of e)
meant_extent q n one h = refl
meant_extent q n many h = refl
meant_extent q n (exactly k) h = rw (value_of_decimal k) (rw (below k h) refl)
  where
    below : (k : ℕ) → k < 2 ^ 31 → ltb k (2 ^ 31) ≡ true
    below k h = ground arith

package_same : (p n : Bytes) (e : Extent) → package_of p n (suffix_of e) ≡ own_package p n e
package_same p n one = refl
package_same p n many = package_of-array p n any (λ q. cc)
package_same p n (exactly k) = package_of-array p n (suffix_of (exactly k)) (λ q. cc)

line_own :
    (p n name : Bytes) (e : Extent)
    → field_string (own_field p n name e) ≡ line_text (n ++ suffix_text (suffix_of e)) 0 name 0 none
unfolding field_string new_field
line_own p n name one = rw (append-nil n) (rw (append-nil name) refl)
line_own p n name many =
    rw (append_assoc n (codes "[]") (b' ' ∷ (name ++ []))) (rw (append-nil name) refl)
line_own p n name (exactly k) =
    let v = decimal-Digits k in
    let same : format_int (pos k) ≡ v.head ∷ v.tail = unfold format_int in v.split in
    ap (λ d. n ++ (b'[' ∷ ((d ++ codes "]") ++ b' ' ∷ name))) same
    ∙ sym (append_assoc n (suffix_text (suffix_of (exactly k))) (b' ' ∷ name))
    ∙ ap (λ m. (n ++ suffix_text (suffix_of (exactly k))) ++ b' ' ∷ m) (sym (append-nil name))

load_own :
    (l : Library) (p n name : Bytes) (e : Extent)
    → letter_then_word p ≡ true
    → letter_then_word n ≡ true
    → is_valid_msg_field_name name ≡ true
    → IsExtent e
    → load_field_line l (field_string (own_field p n name e)) p ≡ ok (own_field p n name e)
load_own l p n name e hp hn v h =
    ap (λ t. load_field_line l t p) (line_own p n name e)
    ∙ (load_field_line-meant l p p n (suffix_of e) name 0 0 none hp hp hn (suffix_of-IsSuffix e)
        v).0
    ∙ ap (λ q. field_meant q n (suffix_of e) name) (package_same p n e)
    ∙ ap (λ o. with_error bad_type o >>= λ parts. ok (field_from name parts))
        (meant_extent (own_package p n e) n e h)

-- A byte of a field: it is no `=`, and ends no line.
abbrev pub IsInner : ℕ → Type 0
IsInner c = (c ≢ b'=') × (c ≢ newline)

IsInner-digit : (c : ℕ) → b'0' ≤ c → c ≤ b'9' → IsInner c
IsInner-digit c h g = ((λ e. absurd (omega arith)), λ e. absurd (omega arith))

suffix_bytes : (x : Suffix) → IsSuffix x → All IsInner (suffix_text x)
suffix_bytes scalar h = tt
suffix_bytes any h = (
  ((λ e. absurd (omega arith)), λ e. absurd (omega arith)),
  (((λ e. absurd (omega arith)), λ e. absurd (omega arith)), tt),
)
suffix_bytes (fixed d ds) h = (
  ((λ e. absurd (omega arith)), λ e. absurd (omega arith)),
  All-append IsInner (d ∷ ds) (codes "]")
      (All-implies IsDigit IsInner (d ∷ ds) (λ c e. IsInner-digit c e.0 e.1) h)
      (((λ e. absurd (omega arith)), λ e. absurd (omega arith)), tt),
)

line_bytes :
    (n name : Bytes) (e : Extent)
    → letter_then_word n ≡ true
    → is_valid_msg_field_name name ≡ true
    → All IsInner (line_text (n ++ suffix_text (suffix_of e)) 0 name 0 none)
line_bytes n name e hn v =
    All-append IsInner (n ++ suffix_text (suffix_of e)) (b' ' ∷ (name ++ []))
      (All-append IsInner n (suffix_text (suffix_of e))
        (All-implies IsWordChar IsInner n (λ c w. (w.3, λ e. absurd (omega (arith, w.0, e))))
          (base_word n (letter_then_word-IsBase n hn)))
        (suffix_bytes (suffix_of e) (suffix_of-IsSuffix e)))
      (
        ((λ e. absurd (omega arith)), λ e. absurd (omega arith)),
        All-append IsInner name []
            (All-implies (λ c. IsVisible c × (c ≢ b'=')) IsInner name
              (λ c w. (w.1, λ e. absurd (omega (arith, w.0.0.0, e)))) (name_bytes name v))
            tt,
      )

strip_own :
    (t name : Bytes)
    → IsWritten t
    → IsWritten name
    → strip_comment (line_text t 0 name 0 none) ≡ t ++ b' ' ∷ name
strip_own [] name h g = absurd (h.0 refl)
strip_own (c ∷ t) [] h g = absurd (g.0 refl)
strip_own (c ∷ t) (d ∷ name) h g = strip_comment-line c t 0 d name 0 none h.1 g.1

load_line-field :
    (l : Library) (p line : Bytes) (c : ℕ) (s : Bytes) (f : Field)
    → strip_comment line ≡ c ∷ s
    → has_byte b'=' (c ∷ s) ≡ false
    → load_field_line l line p ≡ ok f
    → load_line l p line ≡ ok (field f)
unfolding load_line
load_line-field l p line c s f h g e = rw (h) (rw (positive s) (rw g (rw e refl)))
  where
    positive : (s : Bytes) → (suc (length s) == 0) ≡ false
    positive s = ground arith

-- A field of a message of package `p`, of a type with no package of its own.
pub record IsOwn (p : Bytes) (f : Field) : Type 0 where
  pub base : Bytes
  pub name : Bytes
  pub extent : Extent
  pub is_base : letter_then_word base ≡ true
  pub is_name : is_valid_msg_field_name name ≡ true
  pub is_extent : IsExtent extent
  pub field_is : f ≡ own_field p base name extent

abbrev field_text : Bytes → Bytes → Extent → Bytes
field_text n name e = line_text (n ++ suffix_text (suffix_of e)) 0 name 0 none

load_line_text :
    (l : Library) (p n name : Bytes) (e : Extent)
    → letter_then_word p ≡ true
    → letter_then_word n ≡ true
    → is_valid_msg_field_name name ≡ true
    → IsExtent e
    → load_line l p (field_text n name e) ≡ ok (field (own_field p n name e))
load_line_text l p n name e hp hn v h =
    let b = letter_then_word-IsBase n hn in
    let t = n ++ suffix_text (suffix_of e) in
    let split : t ++ b' ' ∷ name ≡ b.head ∷ ((b.tail ++ suffix_text (suffix_of e)) ++ b' ' ∷ name) =
      ap (λ m. (m ++ suffix_text (suffix_of e)) ++ b' ' ∷ name) b.split in
    let inner : All IsInner (t ++ b' ' ∷ name) =
      subst (λ m. All IsInner (t ++ b' ' ∷ m)) (append-nil name) (line_bytes n name e hn v) in
    load_line-field l p (field_text n name e) b.head
      ((b.tail ++ suffix_text (suffix_of e)) ++ b' ' ∷ name) (own_field p n name e)
      (strip_own t name (type-IsWritten n (suffix_of e) (base-IsLegal n b) (suffix_of-IsSuffix e))
          (name-IsWritten name v)
        ∙ split)
      (sym (ap (has_byte b'=') split)
        ∙ has_byte_none b'=' (t ++ b' ' ∷ name)
            (All-implies IsInner (λ c. c ≢ b'=') (t ++ b' ' ∷ name) (λ c w. w.0) inner))
      (ap (λ m. load_field_line l m p) (sym (line_own p n name e))
        ∙ load_own l p n name e hp hn v h)

-- A field that is printed is the field that its line gives.
pub load_line_own :
    (l : Library) (p : Bytes) (f : Field)
    → letter_then_word p ≡ true
    → IsOwn p f
    → load_line l p (field_string f) ≡ ok (field f)
load_line_own l p f hp o =
    ap (λ g. load_line l p (field_string g)) o.field_is
    ∙ ap (load_line l p) (line_own p o.base o.name o.extent)
    ∙ load_line_text l p o.base o.name o.extent hp o.is_base o.is_name o.is_extent
    ∙ ap (λ g. ok (field g)) (sym o.field_is)

pub string_bytes : (p : Bytes) (f : Field) → IsOwn p f → All IsInner (field_string f)
string_bytes p f o =
    subst (All IsInner) (sym (ap field_string o.field_is ∙ line_own p o.base o.name o.extent))
      (line_bytes o.base o.name o.extent o.is_base o.is_name)
