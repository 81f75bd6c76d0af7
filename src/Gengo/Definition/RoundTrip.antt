-- ===== src/Gengo/Definition/RoundTrip.antt =====
-- Field.String of libgengo/msgs.go and LoadMsgFromString of libgengo/context.go, on the fields of a message.

use rosgo.Prelude.{
  ℕ, suc, ◌≡◌, ◌≢◌, refl, ap, ◌∙◌, true, false, List, [], ◌∷◌, ◌++◌, map, some, Bytes, ◌==◌, ok,
  All, All-implies, arith,
}
use rosgo.Gengo.{Field}
use rosgo.Gengo.Types.{package_resource_name}
use rosgo.Gengo.Fields.{new_msg_spec}
use rosgo.Gengo.Legal.{letter_then_word}
use rosgo.Gengo.Lines.{Library, strip_comment}
use rosgo.Gengo.Print.{newline, field_string, join_lines}
use rosgo.Prelude.Space.{trim_space, trim_left, drop_spaces, trim_right, cut_at}
use rosgo.Gengo.Definition.Printed.{IsOwn, IsInner, load_line_own, string_bytes}
use rosgo.Gengo.Definition.{split_lines, load_line, load_lines}
use rosgo.Gengo.Context.{parse_msg}

load_lines-strings :
    (l : Library) (p : Bytes) (k : ℕ) (fs : List Field)
    → letter_then_word p ≡ true
    → All (IsOwn p) fs
    → load_lines l p k (map field_string fs) ≡ ok (fs, [])
unfolding load_lines
load_lines-strings l p k [] hp h = refl
load_lines-strings l p k (f ∷ fs) hp h =
    rw (load_line_own l p f hp h.0) (rw (load_lines-strings l p (suc k) fs hp h.1) refl)

split_line : (s : Bytes) → All (λ c. c ≢ newline) s → split_lines s ≡ s ∷ []
unfolding split_lines
split_line [] h = refl
split_line (c ∷ s) h = rw (no_break c h.0) (rw (split_line s h.1) refl)
  where
    no_break : (c : ℕ) → c ≢ newline → (c == newline) ≡ false
    no_break c h = ground arith

split_line_then :
    (s rest : Bytes)
    → All (λ c. c ≢ newline) s
    → split_lines (s ++ newline ∷ rest) ≡ s ∷ split_lines rest
unfolding split_lines
split_line_then [] rest h = refl
split_line_then (c ∷ s) rest h = rw (no_break c h.0) (rw (split_line_then s rest h.1) refl)
  where
    no_break : (c : ℕ) → c ≢ newline → (c == newline) ≡ false
    no_break c h = ground arith

-- The lines of a text of lines.
split_lines-join_lines :
    (l : Bytes) (ls : List Bytes)
    → All (All (λ c. c ≢ newline)) (l ∷ ls)
    → split_lines (join_lines (l ∷ ls)) ≡ l ∷ ls
unfolding join_lines
split_lines-join_lines l [] h = split_line l h.0
split_lines-join_lines l (k ∷ ls) h =
    split_line_then l (join_lines (k ∷ ls)) h.0 ∙ ap (◌∷◌ l) (split_lines-join_lines k ls h.1)

strings_bytes :
    (p : Bytes) (fs : List Field)
    → All (IsOwn p) fs
    → All (All (λ c. c ≢ newline)) (map field_string fs)
strings_bytes p [] h = tt
strings_bytes p (f ∷ fs) h = (
  All-implies IsInner (λ c. c ≢ newline) (field_string f) (λ c w. w.1) (string_bytes p f h.0),
  strings_bytes p fs h.1,
)

lines_read :
    (l : Library) (p : Bytes) (fs : List Field)
    → letter_then_word p ≡ true
    → All (IsOwn p) fs
    → load_lines l p 0 (split_lines (join_lines (map field_string fs))) ≡ ok (fs, [])
lines_read l p [] hp h =
    unfold join_lines split_lines load_lines load_line strip_comment trim_space trim_left
      drop_spaces trim_right cut_at in
    refl
lines_read l p (f ∷ fs) hp h =
    ap (load_lines l p 0)
      (split_lines-join_lines (field_string f) (map field_string fs) (strings_bytes p (f ∷ fs) h))
    ∙ load_lines-strings l p 0 (f ∷ fs) hp h

-- For the fields of a message, each of a type with no package of its own, and with a length below 2^31 where
-- it is an array of one: the text of their lines, as `Field.String` prints them, gives the specification
-- with these fields in this order, with no constant and with no sum yet.
pub parse_msg-field_string :
    (l : Library) (full_name p short_name : Bytes) (fs : List Field)
    → package_resource_name full_name ≡ some (p, short_name)
    → letter_then_word p ≡ true
    → All (IsOwn p) fs
    → parse_msg l (join_lines (map field_string fs)) full_name
      ≡ ok (new_msg_spec fs [] (join_lines (map field_string fs)) full_name p short_name)
unfolding parse_msg
parse_msg-field_string l full_name p short_name fs e hp h = rw e (rw (lines_read l p fs hp h) refl)
