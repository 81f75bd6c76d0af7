-- ===== src/Tests/Definitions.antt =====
-- Message definitions that are parsed and loaded.
use mathlib.Core.Option.{none-ne-some}
use mathlib.Core.Path.{subst}
use rosgo.Prelude.{
  ℕ, Bool, ◌==◌, sym, ap, ◌∙◌, ok-injective, str_eq_iff, true, false, List, [], ◌∷◌, ◌++◌, Option,
  none, some, Bytes, codes, str_eq, if◌then◌else◌, Result, ok, err, stuck, ◌≡◌, refl, arith,
  Bool-cases, inl, inr, All, map,
}
use rosgo.Prelude.Int.{pos, negsuc}
use rosgo.Gengo.{Field, MsgSpec, unsigned}
use rosgo.Gengo.Fields.{
  new_field, new_msg_spec, camel, get_zero_value, new_constant, to_go_name, to_go_type, to_upper1,
  words,
}
use rosgo.Gengo.Lines.{
  Library, load_field_line, strip_comment, has_byte, convert_constant_value, full_field_type,
  load_constant_line,
}
use rosgo.Gengo.Types.{
  package_resource_name, base_msg_type, cut_bracket, digits, is_builtin_type, is_one_of, parse_int,
  parse_type, split_type,
}
use rosgo.Name.{split}
use rosgo.Gengo.Definition.{load_lines, split_lines, load_line}
use rosgo.Prelude.Space.{
  trim_space, trim_left, drop_spaces, trim_right, cut_at, is_blank, spaces, space_width, cut_space,
}
use rosgo.Gengo.Legal.{
  all_name_chars, brackets, doubled_behind, is_legal_resource_base_name, is_valid_msg_field_name,
  is_valid_msg_type, matches_legal,
}
use rosgo.Gengo.Print.{field_string}
use rosgo.Strconv.{
  decimal, decimal_digits, digits_in, digits_of, format_int, parse_int0, parse_uint, underscores_ok,
}
use rosgo.Name.{sep}
use rosgo.Gengo.Spelled.{any, suffix_text}
use rosgo.Gengo.Legal.{word_chars, letter_then_word}
use rosgo.Gengo.Print.{join_lines}
use rosgo.Gengo.Lines.Spelled.{line_text}
use rosgo.Gengo.Lines.Meant.{package_of, field_meant, load_field_line-meant}
use rosgo.Gengo.Definition.Printed.{Extent, one, many, exactly, own_field, IsExtent, IsOwn}
use rosgo.Gengo.Definition.RoundTrip.{parse_msg-field_string}
use rosgo.Gengo.Context.Trimmed.{IsLine}
use rosgo.Gengo.Context.Missing.{
  IsPlain, md5_lines, compute_msg_md5-missing, compute_md5_text-plain,
}
use rosgo.Gengo.Context.{
  Env, message_not_found, compute_md5_text, fields_text_with, register, Registry, Error, load_msg,
  compute_msg_md5, parse_msg, constant_lines, trim_back, trim_front,
}
use rosgo.Gengo.Context.Direct.{definition, direct_load, direct_fields, direct_text}
use rosgo.Gengo.Context.Cache.{IsCoherent}
use rosgo.Gengo.Context.Loads.{load_msg-direct_load, load_msg-load_msg}
use rosgo.Gengo.Context.Ends.{IsRanked, IsLower, load_msg-Ends}

abbrev library : Library
library = record { digit_width = λ s. 0; parse_float32 = λ s. none; parse_float64 = λ s. none }

abbrev path_of : Bytes → Option Bytes
path_of name =
    if str_eq name (codes "p/A")
    then some (codes "a")
    else if str_eq name (codes "p/B")
    then some (codes "b")
    else none

abbrev text_of : Bytes → Option Bytes
text_of path =
    if str_eq path (codes "a")
    then some (codes "B b" ++ 10 ∷ codes "int8 x # x")
    else some (codes "uint8 N=3" ++ 10 ∷ codes "int8[2] y")

-- The MD5 sum is taken to be the text itself.
abbrev env : Env
env = record {
  library = library;
  read_file = text_of;
  md5 = λ s. s;
  msg_path_map = path_of;
  srv_path_map = λ name. none;
}

abbrev nothing_loaded : Registry
nothing_loaded name = none

abbrev a : Bytes
a = codes "p/A"

abbrev b : Bytes
b = codes "p/B"

abbrev answer : Result Error MsgSpec
answer = elim (direct_load env 3 a) [ none ↦ stuck | some o ↦ o ]

nothing_loaded-IsCoherent : IsCoherent env nothing_loaded
unfolding IsCoherent
nothing_loaded-IsCoherent name s e = absurd (none-ne-some s e)

answers : direct_load env 3 a ≡ some answer
unfolding definition direct_load direct_fields direct_text parse_msg constant_lines trim_back
    trim_front package_resource_name base_msg_type cut_bracket digits is_builtin_type is_one_of
    parse_int parse_type split_type split load_lines split_lines load_line strip_comment has_byte
    convert_constant_value full_field_type load_constant_line load_field_line trim_space trim_left
    drop_spaces trim_right cut_at is_blank spaces space_width cut_space camel get_zero_value
    new_constant new_field new_msg_spec to_go_name to_go_type to_upper1 words all_name_chars
    brackets doubled_behind is_legal_resource_base_name is_valid_msg_field_name is_valid_msg_type
    matches_legal field_string decimal decimal_digits digits_in digits_of format_int parse_int0
    parse_uint underscores_ok
answers = refl

load_msg-direct_load_example :
    (r2 : Registry) × (load_msg env 3 a nothing_loaded ≡ some (answer, r2)) × IsCoherent env r2
load_msg-direct_load_example =
    load_msg-direct_load env 3 a nothing_loaded answer nothing_loaded-IsCoherent answers

abbrev rank : Bytes → ℕ
rank name = if str_eq name a then 1 else 0

abbrev spec_a : MsgSpec
spec_a = elim (definition env a) [ ok d ↦ d | _ ↦ new_msg_spec [] [] [] [] [] [] ]

abbrev spec_b : MsgSpec
spec_b = elim (definition env b) [ ok d ↦ d | _ ↦ new_msg_spec [] [] [] [] [] [] ]

defined_a : definition env a ≡ ok spec_a
unfolding definition parse_msg package_resource_name base_msg_type cut_bracket digits
    is_builtin_type is_one_of parse_int parse_type split_type split load_lines split_lines load_line
    strip_comment has_byte convert_constant_value full_field_type load_constant_line load_field_line
    trim_space trim_left drop_spaces trim_right cut_at is_blank spaces space_width cut_space camel
    get_zero_value new_constant new_field new_msg_spec to_go_name to_go_type to_upper1 words
    all_name_chars brackets doubled_behind is_legal_resource_base_name is_valid_msg_field_name
    is_valid_msg_type matches_legal decimal_digits digits_in parse_int0 parse_uint underscores_ok
defined_a = refl

defined_b : definition env b ≡ ok spec_b
unfolding definition parse_msg package_resource_name base_msg_type cut_bracket digits
    is_builtin_type is_one_of parse_int parse_type split_type split load_lines split_lines load_line
    strip_comment has_byte convert_constant_value full_field_type load_constant_line load_field_line
    trim_space trim_left drop_spaces trim_right cut_at is_blank spaces space_width cut_space camel
    get_zero_value new_constant new_field new_msg_spec to_go_name to_go_type to_upper1 words
    all_name_chars brackets doubled_behind is_legal_resource_base_name is_valid_msg_field_name
    is_valid_msg_type matches_legal decimal_digits digits_in parse_int0 parse_uint underscores_ok
defined_b = refl

spec_a-IsLower : All (IsLower rank 1) spec_a.fields
unfolding definition parse_msg package_resource_name base_msg_type cut_bracket digits
    is_builtin_type is_one_of parse_int parse_type split_type split load_lines split_lines load_line
    strip_comment has_byte convert_constant_value full_field_type load_constant_line load_field_line
    trim_space trim_left drop_spaces trim_right cut_at is_blank spaces space_width cut_space camel
    get_zero_value new_constant new_field new_msg_spec to_go_name to_go_type to_upper1 words
    all_name_chars brackets doubled_behind is_legal_resource_base_name is_valid_msg_field_name
    is_valid_msg_type matches_legal decimal_digits digits_in parse_int0 parse_uint underscores_ok
spec_a-IsLower = ((λ h. omega arith), ((λ h. absurd (cc)), tt))

spec_b-IsLower : All (IsLower rank 0) spec_b.fields
unfolding definition parse_msg package_resource_name base_msg_type cut_bracket digits
    is_builtin_type is_one_of parse_int parse_type split_type split load_lines split_lines load_line
    strip_comment has_byte convert_constant_value full_field_type load_constant_line load_field_line
    trim_space trim_left drop_spaces trim_right cut_at is_blank spaces space_width cut_space camel
    get_zero_value new_constant new_field new_msg_spec to_go_name to_go_type to_upper1 words
    all_name_chars brackets doubled_behind is_legal_resource_base_name is_valid_msg_field_name
    is_valid_msg_type matches_legal decimal_digits digits_in parse_int0 parse_uint underscores_ok
spec_b-IsLower = ((λ h. absurd (cc)), tt)

by_name :
    (name x : Bytes) (d s : MsgSpec)
    → name ≡ x
    → definition env name ≡ ok d
    → definition env x ≡ ok s
    → All (IsLower rank (rank x)) s.fields
    → All (IsLower rank (rank name)) d.fields
by_name name x d s n e f h =
    subst (λ y. All (IsLower rank (rank y)) d.fields) (sym n)
      (subst (λ t. All (IsLower rank (rank x)) t.fields)
        (ok-injective s d (sym f ∙ ap (definition env) (sym n) ∙ e)) h)

not_found :
    (name : Bytes)
    → str_eq name a ≡ false
    → str_eq name b ≡ false
    → definition env name ≡ err (message_not_found name)
unfolding definition
not_found name h g = rw h (rw g refl)

files-IsRanked : IsRanked env rank
files-IsRanked name d e = elim (Bool-cases (str_eq name a)) [
  | inl q ↦ by_name name a d spec_a ((str_eq_iff name a).0 q) e defined_a spec_a-IsLower
  | inr q ↦ elim (Bool-cases (str_eq name b)) [
    | inl r ↦ by_name name b d spec_b ((str_eq_iff name b).0 r) e defined_b spec_b-IsLower
    | inr r ↦
        let f : err (message_not_found name) ≡ ok d = sym (not_found name q r) ∙ e in absurd (cc)
  ]
]

load_msg-Ends_example :
    (o : Result Error MsgSpec) × (r2 : Registry) × (load_msg env 2 a nothing_loaded ≡ some (o, r2))
    × (direct_load env 2 a ≡ some o)
    × IsCoherent env r2
load_msg-Ends_example =
    load_msg-Ends env rank 2 a nothing_loaded files-IsRanked nothing_loaded-IsCoherent (omega arith)

abbrev after : Registry
after = elim (load_msg env 3 a nothing_loaded) [ none ↦ nothing_loaded | some (o, r) ↦ r ]

abbrev spec : MsgSpec
spec = elim (after a) [ none ↦ new_msg_spec [] [] [] [] [] [] | some s ↦ s ]

loads : load_msg env 3 a nothing_loaded ≡ some (ok spec, after)
unfolding load_msg compute_md5_text fields_text_with register parse_msg constant_lines trim_back
    trim_front package_resource_name base_msg_type cut_bracket digits is_builtin_type is_one_of
    parse_int parse_type split_type split load_lines split_lines load_line strip_comment has_byte
    convert_constant_value full_field_type load_constant_line load_field_line trim_space trim_left
    drop_spaces trim_right cut_at is_blank spaces space_width cut_space camel get_zero_value
    new_constant new_field new_msg_spec to_go_name to_go_type to_upper1 words all_name_chars
    brackets doubled_behind is_legal_resource_base_name is_valid_msg_field_name is_valid_msg_type
    matches_legal field_string decimal decimal_digits digits_in digits_of format_int parse_int0
    parse_uint underscores_ok
loads = refl

load_msg-load_msg_example : (after a ≡ some spec) × (load_msg env 0 a after ≡ some (ok spec, after))
load_msg-load_msg_example = load_msg-load_msg env 3 0 a nothing_loaded after spec loads

-- A message with a field whose package is not among the files.
abbrev known_field : Field
known_field = new_field [] (codes "uint8") (codes "x") false (pos 0)

abbrev lost_field : Field
lost_field = new_field (codes "q") (codes "C") (codes "c") false (pos 0)

abbrev lost : MsgSpec
lost = new_msg_spec (known_field ∷ lost_field ∷ []) [] [] (codes "p/D") (codes "p") (codes "D")

plain : All IsPlain (known_field ∷ [])
unfolding new_field
plain = (refl, tt)

compute_msg_md5-missing_example :
    compute_msg_md5 env 1 lost nothing_loaded ≡ some (ok [], nothing_loaded)
unfolding new_field new_msg_spec
compute_msg_md5-missing_example =
    compute_msg_md5-missing env 0 lost (known_field ∷ []) [] lost_field nothing_loaded refl plain
      refl refl refl

abbrev flat : MsgSpec
flat =
    new_msg_spec (known_field ∷ new_field [] (codes "string") (codes "y") true (negsuc 0) ∷ [])
      (new_constant (codes "uint8") (codes "A") (unsigned 1) (codes "1")
        ∷ new_constant (codes "uint8") (codes "B") (unsigned 2) (codes "2")
        ∷ [])
      [] (codes "p/D") (codes "p") (codes "D")

flat-IsPlain : All IsPlain flat.fields
unfolding new_field new_msg_spec
flat-IsPlain = (refl, (refl, tt))

abbrev holds_break : Bytes → Bool
holds_break [] = false
holds_break (c ∷ s) = if c == 10 then true else holds_break s

unbroken : (s : Bytes) → holds_break s ≡ false → IsLine s
unbroken [] h = tt
unbroken (c ∷ s) h = elim (Bool-cases (c == 10)) [
  | inl e ↦ absurd (ground (arith, h, e))
  | inr e ↦ (ground (arith, e), unbroken s (ground (arith, h, e)))
]

flat_lines : All IsLine (md5_lines flat)
unfolding new_field new_msg_spec new_constant field_string
flat_lines = (
  unbroken (codes "uint8 A=1") refl,
  (
    unbroken (codes "uint8 B=2") refl,
    (unbroken (codes "uint8 x") refl, (unbroken (codes "string[] y") refl, tt)),
  ),
)

compute_md5_text-plain_example :
    compute_md5_text env 1 flat nothing_loaded
    ≡ some (
      ok (
          codes "uint8 A=1"
          ++ (10 ∷ codes "uint8 B=2" ++ (10 ∷ codes "uint8 x" ++ (10 ∷ codes "string[] y")))),
      nothing_loaded,
    )
unfolding new_field new_msg_spec new_constant field_string join_lines
compute_md5_text-plain_example =
    compute_md5_text-plain env 0 flat nothing_loaded flat-IsPlain flat_lines

load_field_line-meant_example :
    (load_field_line library
        (line_text (codes "Pose" ++ suffix_text any) 1 (codes "x") 2 (some (codes "c")))
        (codes "p")
      ≡ field_meant (package_of (codes "p") (codes "Pose") any) (codes "Pose") any (codes "x"))
    × (load_field_line library
          (line_text
            ((codes "q" ++ (sep ∷ codes "Pose")) ++ suffix_text any)
            1
            (codes "x")
            2
            (some (codes "c")))
          (codes "p")
        ≡ field_meant (codes "q") (codes "Pose") any (codes "x"))
load_field_line-meant_example =
    load_field_line-meant library (codes "p") (codes "q") (codes "Pose") any (codes "x") 1 2
      (some (codes "c")) (unfold word_chars in refl) (unfold word_chars in refl)
      (unfold word_chars in refl) tt
      (unfold is_valid_msg_field_name is_legal_resource_base_name doubled_behind matches_legal
          all_name_chars in
        refl)

-- A field of a builtin type, one of a message, and an array of two.
abbrev own_fields : List Field
own_fields =
    own_field (codes "p") (codes "uint8") (codes "x") one
    ∷ own_field (codes "p") (codes "Pose") (codes "y") many
    ∷ own_field (codes "p") (codes "Header") (codes "z") (exactly 2)
    ∷ []

own :
    (n name : Bytes) (e : Extent)
    → letter_then_word n ≡ true
    → is_valid_msg_field_name name ≡ true
    → IsExtent e
    → IsOwn (codes "p") (own_field (codes "p") n name e)
own n name e h v k = record {
  base = n;
  name = name;
  extent = e;
  is_base = h;
  is_name = v;
  is_extent = k;
  field_is = refl;
}

own_fields-IsOwn : All (IsOwn (codes "p")) own_fields
unfolding word_chars is_valid_msg_field_name is_legal_resource_base_name doubled_behind
    matches_legal all_name_chars
own_fields-IsOwn = (
  own (codes "uint8") (codes "x") one refl refl tt,
  (
    own (codes "Pose") (codes "y") many refl refl tt,
    (own (codes "Header") (codes "z") (exactly 2) refl refl (omega arith), tt),
  ),
)

parse_msg-field_string_example :
    parse_msg library (join_lines (map field_string own_fields)) (codes "p/D")
    ≡ ok (
        new_msg_spec own_fields []
          (join_lines (map field_string own_fields))
          (codes "p/D")
          (codes "p")
          (codes "D"))
parse_msg-field_string_example =
    parse_msg-field_string library (codes "p/D") (codes "p") (codes "D") own_fields
      (unfold package_resource_name split in refl) (unfold word_chars in refl) own_fields-IsOwn
