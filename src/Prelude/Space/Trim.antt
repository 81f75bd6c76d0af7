-- ===== src/Prelude/Space/Trim.antt =====
-- What is trimmed of texts of printable bytes and blanks.
use Prim.Native.Nat.{ℕ, zero, suc, ◌≤◌, ◌<◌}
use mathlib.Core.Path.{◌≡◌, refl, ap, ◌∙◌}
use mathlib.Core.Logic.{◌≢◌}
use mathlib.Core.Bool.{true, false}
use mathlib.Core.List.{[], ◌∷◌, ◌++◌}
use mathlib.Core.Option.{none, some}
use native.Mathlib.Omega.{arith}
use rosgo.Prelude.Lists.{All}
use rosgo.Prelude.Text.{Bytes}
use rosgo.Prelude.Space.{
  space_width, spaces, is_blank, drop_spaces, trim_right, trim_left, trim_space, cut_at,
}

abbrev pub IsPrintable : ℕ → Type 0
IsPrintable c = (33 ≤ c) × (c < 128)

abbrev pub blanks : ℕ → Bytes
blanks zero = []
blanks (suc k) = b' ' ∷ blanks k

pub space_width_printable : (c : ℕ) (s : Bytes) → IsPrintable c → space_width (c ∷ s) ≡ 0
unfolding space_width
space_width_printable c [] h = ground arith
space_width_printable c (b ∷ []) h = ground arith
space_width_printable c (b ∷ d ∷ s) h = ground arith

pub space_width_blank : (s : Bytes) → space_width (b' ' ∷ s) ≡ 1
unfolding space_width
space_width_blank [] = refl
space_width_blank (b ∷ []) = refl
space_width_blank (b ∷ d ∷ s) = refl

is_blank_printable : (c : ℕ) (s : Bytes) → IsPrintable c → is_blank (c ∷ s) ≡ false
unfolding is_blank spaces
is_blank_printable c s h = rw (space_width_printable c s h) refl

is_blank_blank : (s : Bytes) → is_blank (b' ' ∷ s) ≡ is_blank s
unfolding is_blank spaces
is_blank_blank s = rw (space_width_blank s) refl

is_blank-blanks : (k : ℕ) → is_blank (blanks k) ≡ true
is_blank-blanks zero = unfold is_blank spaces in refl
is_blank-blanks (suc k) = is_blank_blank (blanks k) ∙ is_blank-blanks k

is_blank-blanks_then : (k c : ℕ) (s : Bytes) → IsPrintable c → is_blank (blanks k ++ c ∷ s) ≡ false
is_blank-blanks_then zero c s h = is_blank_printable c s h
is_blank-blanks_then (suc k) c s h =
    is_blank_blank (blanks k ++ c ∷ s) ∙ is_blank-blanks_then k c s h

trim_right_step :
    (c : ℕ) (s : Bytes) → is_blank (c ∷ s) ≡ false → trim_right (c ∷ s) ≡ c ∷ trim_right s
unfolding trim_right
trim_right_step c s h = rw h refl

trim_right-blanks : (k : ℕ) → trim_right (blanks k) ≡ []
unfolding trim_right
trim_right-blanks zero = refl
trim_right-blanks (suc k) = rw (is_blank-blanks (suc k)) refl

-- A printable text in front stays.
pub trim_right-append :
    (s rest : Bytes) → All IsPrintable s → trim_right (s ++ rest) ≡ s ++ trim_right rest
unfolding trim_right
trim_right-append [] rest h = refl
trim_right-append (c ∷ s) rest h =
    rw (is_blank_printable c (s ++ rest) h.0) (ap (◌∷◌ c) (trim_right-append s rest h.1))

-- Blanks before a printable text stay on the left, and those behind it go.
pub trim_right-blanks_then :
    (k c : ℕ) (s : Bytes) (j : ℕ)
    → All IsPrintable (c ∷ s)
    → trim_right (blanks k ++ ((c ∷ s) ++ blanks j)) ≡ blanks k ++ c ∷ s
trim_right-blanks_then zero c s j h =
    trim_right-append (c ∷ s) (blanks j) h ∙ rw (trim_right-blanks j) (append_nil (c ∷ s))
  where
    append_nil : (t : Bytes) → t ++ [] ≡ t
    append_nil [] = refl
    append_nil (b ∷ t) = ap (◌∷◌ b) (append_nil t)
trim_right-blanks_then (suc k) c s j h =
    trim_right_step b' ' (blanks k ++ ((c ∷ s) ++ blanks j))
      (is_blank-blanks_then (suc k) c (s ++ blanks j) h.0)
    ∙ ap (◌∷◌ b' ') (trim_right-blanks_then k c s j h)

pub trim_left-printable : (c : ℕ) (s : Bytes) → IsPrintable c → trim_left (c ∷ s) ≡ c ∷ s
unfolding trim_left drop_spaces
trim_left-printable c s h = rw (space_width_printable c s h) refl

pub trim_left-blanks : (k c : ℕ) (s : Bytes) → IsPrintable c → trim_left (blanks k ++ c ∷ s) ≡ c ∷ s
trim_left-blanks zero c s h = trim_left-printable c s h
trim_left-blanks (suc k) c s h = blank_off (blanks k ++ c ∷ s) ∙ trim_left-blanks k c s h
  where
    blank_off : (t : Bytes) → trim_left (b' ' ∷ t) ≡ trim_left t
    blank_off t = unfold trim_left drop_spaces in rw (space_width_blank t) refl

-- A printable text between blanks is what is left.
pub trim_space-blanks :
    (k c : ℕ) (s : Bytes) (j : ℕ)
    → All IsPrintable (c ∷ s)
    → trim_space (blanks k ++ ((c ∷ s) ++ blanks j)) ≡ c ∷ s
unfolding trim_space
trim_space-blanks k c s j h =
    ap trim_left (trim_right-blanks_then k c s j h) ∙ trim_left-blanks k c s h.0

-- The first `b` behind a text without one.
pub cut_at-some :
    (b : ℕ) (s rest : Bytes) → All (λ c. c ≢ b) s → cut_at b (s ++ b ∷ rest) ≡ some (s, rest)
unfolding cut_at
cut_at-some b [] rest h = ground arith
cut_at-some b (c ∷ s) rest h = let e = cut_at-some b s rest h.1 in rw e (ground (arith, h.0))

pub cut_at-none : (b : ℕ) (s : Bytes) → All (λ c. c ≢ b) s → cut_at b s ≡ none
unfolding cut_at
cut_at-none b [] h = refl
cut_at-none b (c ∷ s) h = rw (cut_at-none b s h.1) (ground (arith, h.0))
