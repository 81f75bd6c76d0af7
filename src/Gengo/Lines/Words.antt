-- ===== src/Gengo/Lines/Words.antt =====
-- libgengo/msgs.go: the bytes of names that are words.
use mathlib.Core.Path.{subst}
use rosgo.Prelude.{
  ℕ, ◌≤◌, ◌<◌, ◌≡◌, ◌≢◌, refl, sym, Bool, true, false, ◌&&◌, not, [], ◌∷◌, ◌++◌, Bytes, ◌==◌, All,
  All-implies, arith,
}
use rosgo.Name.{sep}
use rosgo.Gengo.Spelled.{NoBracket}
use rosgo.Gengo.Legal.{
  is_letter, is_name_char, all_name_chars, doubled_behind, word_chars, letter_then_word,
}
use rosgo.Gengo.Lines.Spelled.{IsVisible}

-- The bytes of a name with no separator.
abbrev pub IsWordChar : ℕ → Type 0
IsWordChar c = (48 ≤ c) × (c < 123) × (c ≢ b'[') × (c ≢ b'=')

pub both : (a b : Bool) → (a && b) ≡ true → (a ≡ true) × (b ≡ true)
both true b h = (refl, h)
both false b h = absurd (cc)

pub and_true : (a b : Bool) → a ≡ true → b ≡ true → (a && b) ≡ true
and_true a b h g = rw h g

word_char : (c : ℕ) → (is_name_char c && not (c == b'/')) ≡ true → IsWordChar c
word_char c h = (ground arith, ground arith, ground arith, ground arith)

letter_char : (c : ℕ) → is_letter c ≡ true → IsWordChar c
letter_char c h = (ground arith, ground arith, ground arith, ground arith)

pub letter_name : (c : ℕ) → is_letter c ≡ true → is_name_char c ≡ true
letter_name c h = ground arith

pub IsVisible-name : (c : ℕ) → is_name_char c ≡ true → IsVisible c × (c ≢ b'=')
IsVisible-name c h = (((ground arith, ground arith), ground arith), ground arith)

word_chars-All :
    (s : Bytes) → word_chars s ≡ true → All (λ c. is_name_char c ≡ true) s × All IsWordChar s
unfolding word_chars
word_chars-All [] h = (tt, tt)
word_chars-All (c ∷ s) h =
    let (k, m) = both (is_name_char c && not (c == b'/')) (word_chars s) h in
    let (g, l) = both (is_name_char c) (not (c == b'/')) k in
    let (a, b) = word_chars-All s m in ((g, a), (word_char c k, b))

-- The bytes of a name with no separator, the first of them a letter.
pub record IsBase (s : Bytes) : Type 0 where
  pub head : ℕ
  pub tail : Bytes
  pub split : s ≡ head ∷ tail
  pub letter : is_letter head ≡ true
  pub names : All (λ c. is_name_char c ≡ true) (head ∷ tail)
  pub word : All IsWordChar (head ∷ tail)

pub letter_then_word-IsBase : (s : Bytes) → letter_then_word s ≡ true → IsBase s
letter_then_word-IsBase [] h = absurd (cc)
letter_then_word-IsBase (c ∷ s) h =
    let (g, k) = both (is_letter c) (word_chars s) h in
    let (a, b) = word_chars-All s k in
    record {
      head = c;
      tail = s;
      split = refl;
      letter = g;
      names = (letter_name c g, a);
      word = (letter_char c g, b);
    }

pub base_word : (s : Bytes) → IsBase s → All IsWordChar s
base_word s b = subst (All IsWordChar) (sym b.split) b.word

pub base_names : (s : Bytes) → IsBase s → All (λ c. is_name_char c ≡ true) s
base_names s b = subst (All (λ c. is_name_char c ≡ true)) (sym b.split) b.names

pub word-NoBracket : (s : Bytes) → All IsWordChar s → NoBracket s
word-NoBracket s h = All-implies IsWordChar (λ c. c ≢ b'[') s (λ c w. w.2) h

pub word_no_sep : (s : Bytes) → All IsWordChar s → All (λ c. c ≢ sep) s
word_no_sep s h =
    All-implies IsWordChar (λ c. c ≢ sep) s (λ c w e. absurd (omega (arith, w.0, e))) h

pub all_names : (s : Bytes) → All (λ c. is_name_char c ≡ true) s → all_name_chars s ≡ true
unfolding all_name_chars
all_names [] h = refl
all_names (c ∷ s) h = and_true (is_name_char c) (all_name_chars s) h.0 (all_names s h.1)

pub doubled_word : (b : ℕ) (s : Bytes) → All IsWordChar s → doubled_behind b s ≡ false
unfolding doubled_behind
doubled_word b [] h = refl
doubled_word b (c ∷ s) h = rw (doubled_word c s h.1) (ground (arith, h.0.0))

pub doubled_pair :
    (b : ℕ) (q : Bytes) (d : ℕ) (n : Bytes)
    → b ≢ sep
    → All IsWordChar q
    → All IsWordChar (d ∷ n)
    → doubled_behind b (q ++ sep ∷ d ∷ n) ≡ false
unfolding doubled_behind
doubled_pair b [] d n h g k = rw (doubled_word d n k.1) (ground (arith, h, k.0.0))
doubled_pair b (c ∷ q) d n h g k =
    rw (doubled_pair c q d n (λ e. absurd (omega (arith, g.0.0, e))) g.1 k) (ground (arith, h))
