-- ===== src/Gengo/Lines/Spelled.antt =====
-- libgengo/parser.go: stripComment and loadFieldLine, on a line that is written out.
use rosgo.Prelude.{
  ℕ, zero, suc, ◌≡◌, ◌≢◌, refl, sym, ap, ◌∙◌, [], ◌∷◌, ◌++◌, Option, none, some, Bytes, All,
  All-append, All-implies, append_assoc, append-nil, arith,
}
use rosgo.Prelude.Space.{trim_space, cut_at}
use rosgo.Prelude.Space.Trim.{
  IsPrintable, blanks, trim_right-append, trim_right-blanks_then, trim_left-printable,
  trim_space-blanks, cut_at-some, cut_at-none,
}
use rosgo.Gengo.Lines.{Library, before_comment, strip_comment, declared, load_field_line}

-- A comment behind a number of blanks, if any.
abbrev pub tail_text : ℕ → Option Bytes → Bytes
tail_text j none = blanks j
tail_text j (some comment) = blanks j ++ b'#' ∷ comment

-- A line: a type, a blank and more of them, a name, and a tail.
abbrev pub line_text : Bytes → ℕ → Bytes → ℕ → Option Bytes → Bytes
line_text t k name j comment = t ++ b' ' ∷ (blanks k ++ (name ++ tail_text j comment))

-- The bytes of a type or a name: they can be seen, and begin no comment.
abbrev pub IsVisible : ℕ → Type 0
IsVisible c = IsPrintable c × (c ≢ b'#')

abbrev pub IsWritten : Bytes → Type 0
IsWritten s = (s ≢ []) × All IsVisible s

printable : (s : Bytes) → All IsVisible s → All IsPrintable s
printable s h = All-implies IsVisible IsPrintable s (λ c v. v.0) h

uncommented : (s : Bytes) → All IsVisible s → All (λ c. c ≢ b'#') s
uncommented s h = All-implies IsVisible (λ c. c ≢ b'#') s (λ c v. v.1) h

no_blank : (s : Bytes) → All IsVisible s → All (λ c. c ≢ b' ') s
no_blank s h = All-implies IsVisible (λ c. c ≢ b' ') s (λ c v e. absurd (omega (arith, v.0, e))) h

blanks_uncommented : (k : ℕ) → All (λ c. c ≢ b'#') (blanks k)
blanks_uncommented zero = tt
blanks_uncommented (suc k) = ((λ e. absurd (omega arith)), blanks_uncommented k)

-- What stands before the comment.
abbrev body : Bytes → ℕ → Bytes → ℕ → Bytes
body t k name j = t ++ b' ' ∷ (blanks k ++ (name ++ blanks j))

body_uncommented :
    (t : Bytes) (k : ℕ) (name : Bytes) (j : ℕ)
    → All IsVisible t
    → All IsVisible name
    → All (λ c. c ≢ b'#') (body t k name j)
body_uncommented t k name j h g = All-append _ t _ (uncommented t h) (
  (λ e. absurd (omega arith)),
  All-append _ (blanks k) _ (blanks_uncommented k)
      (All-append _ name (blanks j) (uncommented name g) (blanks_uncommented j)),
)

line-body :
    (t : Bytes) (k : ℕ) (name : Bytes) (j : ℕ) (comment : Bytes)
    → line_text t k name j (some comment) ≡ body t k name j ++ b'#' ∷ comment
line-body t k name j comment = sym (
    append_assoc t (b' ' ∷ (blanks k ++ (name ++ blanks j))) (b'#' ∷ comment)
    ∙ ap (λ s. t ++ b' ' ∷ s)
        (append_assoc (blanks k) (name ++ blanks j) (b'#' ∷ comment)
          ∙ ap (λ s. blanks k ++ s) (append_assoc name (blanks j) (b'#' ∷ comment))))

before-line :
    (t : Bytes) (k : ℕ) (name : Bytes) (j : ℕ) (comment : Option Bytes)
    → All IsVisible t
    → All IsVisible name
    → before_comment (line_text t k name j comment) (cut_at b'#' (line_text t k name j comment))
      ≡ body t k name j
before-line t k name j none h g =
    rw (cut_at-none b'#' (body t k name j) (body_uncommented t k name j h g)) refl
before-line t k name j (some comment) h g =
    rw (line-body t k name j comment)
      (rw (cut_at-some b'#' (body t k name j) comment (body_uncommented t k name j h g)) refl)

pub strip_comment-line :
    (c : ℕ) (t : Bytes) (k d : ℕ) (name : Bytes) (j : ℕ) (comment : Option Bytes)
    → All IsVisible (c ∷ t)
    → All IsVisible (d ∷ name)
    → strip_comment (line_text (c ∷ t) k (d ∷ name) j comment)
      ≡ (c ∷ t) ++ b' ' ∷ (blanks k ++ d ∷ name)
unfolding strip_comment trim_space
strip_comment-line c t k d name j comment h g =
    rw (before-line (c ∷ t) k (d ∷ name) j comment h g) (
      rw
        (trim_right-append (c ∷ t) (blanks (suc k) ++ ((d ∷ name) ++ blanks j))
          (printable (c ∷ t) h))
        (rw (trim_right-blanks_then (suc k) d name j (printable (d ∷ name) g))
          (trim_left-printable c (t ++ b' ' ∷ (blanks k ++ d ∷ name)) h.0.0)))

pub trim_space-printable :
    (c : ℕ) (s : Bytes) → All IsPrintable (c ∷ s) → trim_space (c ∷ s) ≡ c ∷ s
trim_space-printable c s h = ap trim_space (sym (append-nil (c ∷ s))) ∙ trim_space-blanks 0 c s 0 h

trim_space-blanks_before :
    (k c : ℕ) (s : Bytes) → All IsPrintable (c ∷ s) → trim_space (blanks k ++ c ∷ s) ≡ c ∷ s
trim_space-blanks_before k c s h =
    ap (λ t. trim_space (blanks k ++ t)) (sym (append-nil (c ∷ s))) ∙ trim_space-blanks k c s 0 h

-- The line of a type and a name declares them, however many blanks stand between them and whatever comment
-- follows.
pub load_field_line-line :
    (l : Library) (package_name t : Bytes) (k : ℕ) (name : Bytes) (j : ℕ) (comment : Option Bytes)
    → IsWritten t
    → IsWritten name
    → load_field_line l (line_text t k name j comment) package_name ≡ declared l package_name t name
load_field_line-line l package_name [] k name j comment h g = absurd (h.0 refl)
load_field_line-line l package_name (c ∷ t) k [] j comment h g = absurd (g.0 refl)
load_field_line-line l package_name (c ∷ t) k (d ∷ name) j comment h g =
    unfold load_field_line in
    rw (strip_comment-line c t k d name j comment h.1 g.1) (
      rw (cut_at-some b' ' (c ∷ t) (blanks k ++ d ∷ name) (no_blank (c ∷ t) h.1)) (
        rw
          (
            trim_space-printable c t (printable (c ∷ t) h.1),
            trim_space-blanks_before k d name (printable (d ∷ name) g.1),
          )
          refl))
