-- ===== src/Gengo/Context/Trimmed.antt =====
-- libgengo/context.go: the lines of the text that ComputeMD5Text sums, and strings.Trim on them.
use rosgo.Prelude.{
  ℕ, false, List, [], ◌∷◌, ◌++◌, map, Bytes, ◌==◌, ◌≡◌, ◌≢◌, refl, sym, ap, ◌∙◌, All, append_assoc,
  append-nil, Bool-cases, inl, inr, arith,
}
use mathlib.Core.Path.{subst}
use rosgo.Gengo.{Constant, Field}
use rosgo.Gengo.Print.{newline, length_text, field_string, join_lines}
use rosgo.Gengo.Context.{constant_line, constant_lines, trim_newlines, trim_back, trim_front}

-- A constant in the text, without a line break: `type name=value`.
abbrev pub constant_text : Constant → Bytes
constant_text c = c.constant_type ++ b' ' ∷ (c.name ++ b'=' ∷ c.value_text)

abbrev pub IsLine : Bytes → Type 0
IsLine = All (λ c. c ≢ newline)

abbrev pub IsFull : Bytes → Type 0
IsFull s = (c : ℕ) × (t : Bytes) × (s ≡ c ∷ t)

-- Lines with a break behind each.
abbrev pub unlines : List Bytes → Bytes
unlines [] = []
unlines (l ∷ ls) = l ++ newline ∷ unlines ls

pub unlines-append : (ls ks : List Bytes) → unlines (ls ++ ks) ≡ unlines ls ++ unlines ks
unlines-append [] ks = refl
unlines-append (l ∷ ls) ks =
    ap (λ t. l ++ newline ∷ t) (unlines-append ls ks)
    ∙ sym (append_assoc l (newline ∷ unlines ls) (unlines ks))

constant_line_text : (c : Constant) → constant_line c ≡ constant_text c ++ newline ∷ []
constant_line_text c = simp append_assoc

pub constant_lines-unlines :
    (cs : List Constant) → constant_lines cs ≡ unlines (map constant_text cs)
unfolding constant_lines
constant_lines-unlines [] = refl
constant_lines-unlines (c ∷ cs) =
    ap (λ l. l ++ constant_lines cs) (constant_line_text c)
    ∙ append_assoc (constant_text c) (newline ∷ []) (constant_lines cs)
    ∙ ap (λ t. constant_text c ++ newline ∷ t) (constant_lines-unlines cs)

pub append-IsFull : (s t : Bytes) (c : ℕ) → IsFull (s ++ c ∷ t)
append-IsFull [] t c = (c, t, refl)
append-IsFull (d ∷ s) t c = (d, s ++ c ∷ t, refl)

field_string-IsFull : (f : Field) → IsFull (field_string f)
unfolding field_string
field_string-IsFull f = elim (Bool-cases f.is_array) [
  | inl array ↦ rw array (
      subst IsFull (append_assoc f.field_type (length_text f.array_len) (b' ' ∷ f.name))
        (append-IsFull (f.field_type ++ length_text f.array_len) f.name b' '))
  | inr single ↦ rw single (append-IsFull f.field_type f.name b' ')
]

pub constants-IsFull : (cs : List Constant) → All IsFull (map constant_text cs)
constants-IsFull [] = tt
constants-IsFull (c ∷ cs) = (append-IsFull c.constant_type _ _, constants-IsFull cs)

pub fields-IsFull : (fs : List Field) → All IsFull (map field_string fs)
fields-IsFull [] = tt
fields-IsFull (f ∷ fs) = (field_string-IsFull f, fields-IsFull fs)

not_break : {c : ℕ} → c ≢ newline → (c == newline) ≡ false
not_break h = ground (arith, h)

-- The break behind a last line is trimmed.
trim_back_last : (l : Bytes) → IsLine l → trim_back (l ++ newline ∷ []) ≡ l
unfolding trim_back
trim_back_last [] h = refl
trim_back_last (c ∷ l) h = rw (trim_back_last l h.1) (rw (not_break h.0) refl)

-- What stands before a text that is not trimmed away stays.
trim_back_cons : (c d : ℕ) (s t : Bytes) → trim_back s ≡ d ∷ t → trim_back (c ∷ s) ≡ c ∷ d ∷ t
unfolding trim_back
trim_back_cons c d s t e =
    rw e (elim (Bool-cases (c == newline)) [ inl h ↦ rw h refl | inr h ↦ rw h refl ])

trim_back_append :
    (w s : Bytes) (d : ℕ) (t : Bytes) → trim_back s ≡ d ∷ t → trim_back (w ++ s) ≡ w ++ d ∷ t
trim_back_append [] s d t e = e
trim_back_append (c ∷ []) s d t e = trim_back_cons c d s t e
trim_back_append (c ∷ b ∷ w) s d t e =
    trim_back_cons c b _ (w ++ d ∷ t) (trim_back_append (b ∷ w) s d t e)

join_lines-IsFull : (l : Bytes) (ls : List Bytes) → IsFull l → IsFull (join_lines (l ∷ ls))
unfolding join_lines
join_lines-IsFull l [] h = h
join_lines-IsFull l (k ∷ ls) h = append-IsFull l (join_lines (k ∷ ls)) newline

trim_back-unlines :
    (l : Bytes) (ls : List Bytes)
    → All IsLine (l ∷ ls)
    → All IsFull (l ∷ ls)
    → trim_back (unlines (l ∷ ls)) ≡ join_lines (l ∷ ls)
unfolding join_lines
trim_back-unlines l [] h full = trim_back_last l h.0
trim_back-unlines l (k ∷ ls) h full =
    let (c, t, e) = join_lines-IsFull k ls full.1.0 in
    trim_back_append l _ newline (join_lines (k ∷ ls)) (
      trim_back_cons newline c _ t (trim_back-unlines k ls h.1 full.1 ∙ e)
      ∙ ap (λ s. newline ∷ s) (sym e))

trim_front_line : (l t : Bytes) → IsLine l → IsFull l → trim_front (l ++ t) ≡ l ++ t
unfolding trim_front
trim_front_line [] t h (c, s, e) = absurd cc
trim_front_line (c ∷ l) t h full = rw (not_break h.0) refl

trim_front-join_lines :
    (l : Bytes) (ls : List Bytes)
    → IsLine l
    → IsFull l
    → trim_front (join_lines (l ∷ ls)) ≡ join_lines (l ∷ ls)
unfolding join_lines
trim_front-join_lines l [] h full =
    subst (λ s. trim_front s ≡ s) (append-nil l) (trim_front_line l [] h full)
trim_front-join_lines l (k ∷ ls) h full = trim_front_line l (newline ∷ join_lines (k ∷ ls)) h full

-- The breaks at the ends of lines that hold none are trimmed to those between them.
pub trim_newlines-unlines :
    (ls : List Bytes) → All IsLine ls → All IsFull ls → trim_newlines (unlines ls) ≡ join_lines ls
trim_newlines-unlines [] h full = unfold trim_back trim_front join_lines in refl
trim_newlines-unlines (l ∷ ls) h full =
    ap trim_front (trim_back-unlines l ls h full) ∙ trim_front-join_lines l ls h.0 full.0
