-- ===== src/Gengo/Spelled.antt =====
-- `parseType` on a type that is written out.
use rosgo.Prelude.{
  ℕ, suc, ◌+◌, ◌*◌, ◌-◌, ◌^◌, ◌≤◌, ◌≡◌, ◌≢◌, refl, ap, ◌∙◌, Bool, true, false, [], ◌∷◌, ◌++◌, none,
  some, Bytes, codes, str_eq, length, ltb, ◌==◌, if◌then◌else◌, ok, err, ◌>>=◌, All, All-append,
  append_assoc, append-nil, length-append, take-append, arith,
}
use rosgo.Prelude.Int.{pos, negsuc}
use rosgo.Name.{sep}
use rosgo.Name.Split.{IsPiece, split_one, split_piece}
use rosgo.Gengo.Types.{
  cut_bracket, split_type, Outcome, bad_number, is_digit, digits, as_positive, parse_int, Parts,
  last_is_close, inside, array_parts, scalar_parts, parts_of, parse_type,
}

-- The array part of a type: none, `[]`, or a decimal number in brackets.
pub data Suffix : Type 0 where
  scalar any : Suffix
  fixed : ℕ → Bytes → Suffix

abbrev pub suffix_text : Suffix → Bytes
suffix_text scalar = []
suffix_text any = codes "[]"
suffix_text (fixed d ds) = b'[' ∷ (d ∷ ds) ++ codes "]"

abbrev pub IsDigits : Bytes → Type 0
IsDigits = All (λ c. (b'0' ≤ c) × (c ≤ b'9'))

-- The number that digits spell, behind a number spelled before.
abbrev pub value_of : ℕ → Bytes → ℕ
value_of n [] = n
value_of n (c ∷ s) = value_of (n * 10 + (c - b'0')) s

abbrev pub IsSuffix : Suffix → Type 0
IsSuffix scalar = Unit
IsSuffix any = Unit
IsSuffix (fixed d ds) = IsDigits (d ∷ ds)

abbrev pub NoBracket : Bytes → Type 0
NoBracket = All (λ c. c ≢ b'[')

-- What `parseType` is to make of the parts.
abbrev pub meant : Bytes → Bytes → Suffix → Outcome Parts
meant p n scalar = ok (p, n, false, pos 0)
meant p n any = ok (p, n, true, negsuc 0)
meant p n (fixed d ds) =
    if ltb (value_of 0 (d ∷ ds)) (2 ^ 31)
    then ok (p, n, true, pos (value_of 0 (d ∷ ds)))
    else err bad_number

no_byte : (b c : ℕ) → c ≢ b → (c == b) ≡ false
no_byte b c h = ground arith

is_digit-true : (c : ℕ) → b'0' ≤ c → c ≤ b'9' → is_digit c ≡ true
is_digit-true c h g = ground arith

pub cut_none : (s : Bytes) → NoBracket s → cut_bracket s ≡ none
unfolding cut_bracket
cut_none [] h = refl
cut_none (c ∷ s) h = rw (no_byte b'[' c h.0, cut_none s h.1)

pub cut_some :
    (s rest : Bytes) → NoBracket s → cut_bracket (s ++ (b'[' ∷ rest)) ≡ some (s, b'[' ∷ rest)
unfolding cut_bracket
cut_some [] rest h = refl
cut_some (c ∷ s) rest h = rw (no_byte b'[' c h.0, cut_some s rest h.1)

last_close : (s : Bytes) → last_is_close (s ++ codes "]") ≡ true
last_close [] = refl
last_close (c ∷ []) = refl
last_close (c ∷ d ∷ s) = last_close (d ∷ s)

inside_brackets : (s : Bytes) → inside (b'[' ∷ s ++ codes "]") ≡ s
inside_brackets s =
    let n : length (b'[' ∷ s ++ codes "]") - 1 ≡ suc (length s) =
      rw (length-append s (codes "]")) (omega arith) in
    rw n (take-append s (codes "]"))

digits-value_of : (n : ℕ) (s : Bytes) → IsDigits s → digits n s ≡ some (value_of n s)
unfolding digits
digits-value_of n [] h = refl
digits-value_of n (c ∷ s) h =
    rw (is_digit-true c h.0.0 h.0.1, digits-value_of (n * 10 + (c - b'0')) s h.1)

parse_int-digits :
    (d : ℕ) (ds : Bytes)
    → IsDigits (d ∷ ds)
    → parse_int (d ∷ ds) ≡ as_positive (some (value_of 0 (d ∷ ds)))
unfolding parse_int
parse_int-digits d ds h =
    rw (no_byte b'+' d (omega arith), no_byte b'-' d (omega arith), digits-value_of 0 (d ∷ ds) h)

split_type_bare : (n : Bytes) → IsPiece n → split_type n ≡ ([], n)
unfolding split_type
split_type_bare n h = rw (split_one n h)

split_type_pair : (p n : Bytes) → IsPiece p → IsPiece n → split_type (p ++ (sep ∷ n)) ≡ (p, n)
unfolding split_type
split_type_pair p n h g = rw (split_piece p n h, split_one n g)

parse_none :
    (t p n : Bytes)
    → cut_bracket t ≡ none
    → split_type t ≡ (p, n)
    → parse_type t ≡ ok (p, n, false, pos 0)
unfolding parse_type
parse_none t p n h e = ap (parts_of t) h ∙ ap scalar_parts e

closed :
    (t base rest : Bytes)
    → last_is_close t ≡ true
    → parts_of t (some (base, rest)) ≡ array_parts (split_type base) rest
closed t base rest l = rw l

parse_some :
    (t base rest p n : Bytes)
    → cut_bracket t ≡ some (base, rest)
    → last_is_close t ≡ true
    → split_type base ≡ (p, n)
    → parse_type t ≡ array_parts (p, n) rest
unfolding parse_type
parse_some t base rest p n h l e =
    ap (parts_of t) h ∙ closed t base rest l ∙ ap (λ q. array_parts q rest) e

close : (base s : Bytes) → last_is_close (base ++ (b'[' ∷ s ++ codes "]")) ≡ true
close base s = rw (← append_assoc base (b'[' ∷ s) (codes "]")) (last_close (base ++ (b'[' ∷ s)))

-- Digits are no `]`.
not_any : (d : ℕ) (s : Bytes) → d ≤ b'9' → str_eq (b'[' ∷ d ∷ s) (codes "[]") ≡ false
not_any d s h = rw (no_byte b']' d (omega arith))

bounded :
    (p n : Bytes) (v : ℕ) (b : Bool)
    → ◌≡◌ {A = Outcome Parts}
        ((if b then ok (pos v) else err bad_number) >>= λ value. ok (p, n, true, value))
        (if b then ok (p, n, true, pos v) else err bad_number)
bounded p n v true = refl
bounded p n v false = refl

fixed_parts :
    (p n : Bytes) (d : ℕ) (ds : Bytes)
    → IsDigits (d ∷ ds)
    → array_parts (p, n) (b'[' ∷ (d ∷ ds) ++ codes "]") ≡ meant p n (fixed d ds)
fixed_parts p n d ds h = rw (not_any d (ds ++ codes "]") h.0.1) (
    rw (inside_brackets (d ∷ ds)) (
      rw (parse_int-digits d ds h)
        (bounded p n (value_of 0 (d ∷ ds)) (ltb (value_of 0 (d ∷ ds)) (2 ^ 31)))))

-- What follows the base is read as it is meant.
base_suffix :
    (base p n : Bytes) (x : Suffix)
    → NoBracket base
    → split_type base ≡ (p, n)
    → IsSuffix x
    → parse_type (base ++ suffix_text x) ≡ meant p n x
base_suffix base p n scalar h e s = rw (append-nil base) (parse_none base p n (cut_none base h) e)
base_suffix base p n any h e s =
    parse_some _ base (codes "[]") p n (cut_some base (codes "]") h) (close base []) e
base_suffix base p n (fixed d ds) h e s =
    parse_some _ base (b'[' ∷ (d ∷ ds) ++ codes "]") p n (cut_some base ((d ∷ ds) ++ codes "]") h)
      (close base (d ∷ ds)) e
    ∙ fixed_parts p n d ds s

-- The name of a type is a package and a base type, or only a base type, then perhaps brackets.
-- `parseType` gives these parts, the package empty in the second case, and -1 as the length for
-- `[]`. It fails for digits that spell a number of 2^31 or more.
pub parse_type-meant :
    (p n : Bytes) (x : Suffix)
    → IsPiece p
    → IsPiece n
    → NoBracket p
    → NoBracket n
    → IsSuffix x
    → (parse_type ((p ++ (sep ∷ n)) ++ suffix_text x) ≡ meant p n x)
      × (parse_type (n ++ suffix_text x) ≡ meant [] n x)
parse_type-meant p n x hp hn bp bn s = (
  base_suffix (p ++ (sep ∷ n)) p n x
      (All-append (λ c. c ≢ b'[') p (sep ∷ n) bp ((λ e. absurd (omega arith)), bn))
      (split_type_pair p n hp hn) s,
  base_suffix n [] n x bn (split_type_bare n hn) s,
)
