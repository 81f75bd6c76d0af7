-- ===== src/Xmlrpc/RoundTrip/Measures.antt =====
-- The texts, the members and the lengths that parseValue meets in the tokens of a value.
use rosgo.Prelude.{
  ◌≡◌, ◌≢◌, ◌≤◌, refl, sym, ap, false, List, [], ◌∷◌, ◌++◌, length, Bytes, str_eq, str_eq_iff, ok,
  arith, inl, inr, Bool-cases,
}
use rosgo.Strconv.{format_int}
use rosgo.Strconv.Base64.{encode}
use rosgo.Xmlrpc.{
  Value, absent, boolean, int, uint, double, str, base64, arr, struct, other_map, other_kind,
  Values, nil, cons, Members, no_members, member, Tag, int_tag, double_tag, string_tag, base64_tag,
  value_tag, member_tag, name_tag, array_tag, data_tag, struct_tag, Token, start, end, chars,
  Floats, Outcome,
}
use rosgo.Xmlrpc.Text.{xml_escape}
use rosgo.Xmlrpc.Emit.{text}
use rosgo.Xmlrpc.Parse.{skip, set, scalar, string_element}
use rosgo.Xmlrpc.RoundTrip.{xml, items_xml, members_xml, has}

pub text_lem : (s : Bytes) → s ≢ [] → text s ≡ chars s ∷ []
text_lem [] h = absurd (h refl)
text_lem (c ∷ s) h = refl

-- The text of a scalar is read, and its value is left behind.
pub scalar_lem :
    (read : Bytes → Outcome Value) (t : Tag) (s : Bytes) (v : Value) (rest : List Token)
    → s ≢ []
    → read s ≡ ok v
    → scalar read (text s ++ end t ∷ end value_tag ∷ rest) ≡ ok (v, rest)
unfolding skip
scalar_lem read t s v rest h e = rw (text_lem s h, e) refl

pub string_lem :
    (s : Bytes) (rest : List Token)
    → string_element (text s ++ end string_tag ∷ end value_tag ∷ rest) ≡ ok (str s, rest)
unfolding skip
string_lem [] rest = refl
string_lem (c ∷ s) rest = refl

-- Members behind others.
abbrev pub join : Members → Members → Members
join no_members ms = ms
join (member k v m) ms = member k v (join m ms)

pub join-no_members : (m : Members) → join m no_members ≡ m
join-no_members no_members = refl
join-no_members (member k v m) = ap (member k v) (join-no_members m)

pub join_assoc : (a b c : Members) → join (join a b) c ≡ join a (join b c)
join_assoc no_members b c = refl
join_assoc (member k v a) b c = ap (member k v) (join_assoc a b c)

pub set-join :
    (k : Bytes) (v : Value) (m : Members)
    → has k m ≡ false
    → set k v m ≡ join m (member k v no_members)
unfolding set
set-join k v no_members h = refl
set-join k v (member j w m) h = ground (arith, h, set-join k v m)

-- No key of the second is one of the first.
abbrev pub Separate : Members → Members → Type 0
Separate m no_members = Unit
Separate m (member k v ms) = (has k m ≡ false) × Separate m ms

pub Separate-no_members : (ms : Members) → Separate no_members ms
Separate-no_members no_members = tt
Separate-no_members (member k v ms) = (refl, Separate-no_members ms)

str_eq_comm : (j k : Bytes) → str_eq j k ≡ false → str_eq k j ≡ false
str_eq_comm j k h = elim (Bool-cases (str_eq k j)) [
  | inl same ↦ absurd (let e = sym ((str_eq_iff k j).0 same) in let t = (str_eq_iff j k).1 e in cc)
  | inr other ↦ other
]

has-join :
    (j k : Bytes) (v : Value) (m : Members)
    → has j m ≡ false
    → str_eq k j ≡ false
    → has j (join m (member k v no_members)) ≡ false
has-join j k v no_members h g = ground (arith, h, g)
has-join j k v (member i w m) h g = ground (arith, h, has-join j k v m, g)

pub Separate-join :
    (k : Bytes) (v : Value) (m ms : Members)
    → Separate m ms
    → has k ms ≡ false
    → Separate (join m (member k v no_members)) ms
Separate-join k v m no_members h g = tt
Separate-join k v m (member j w ms) h g =
    let apart : str_eq k j ≡ false = str_eq_comm j k (ground (arith, g)) in
    (has-join j k v m h.0 apart, Separate-join k v m ms h.1 (ground (arith, g)))

pub length-text : (s : Bytes) (ts : List Token) → length ts ≤ length (text s ++ ts)
length-text [] ts = omega arith
length-text (c ∷ s) ts = omega arith

mutual
  pub length-xml : (f : Floats) (v : Value) (ts : List Token) → length ts ≤ length (xml f v ts)
  length-xml f absent ts = omega arith
  length-xml f (boolean b) ts = omega arith
  length-xml f (int i) ts = omega (arith, length-text (format_int i) (end int_tag ∷ ts))
  length-xml f (uint u) ts = omega (arith, length-text _ (end int_tag ∷ ts))
  length-xml f (double b) ts = omega (arith, length-text (f.format_float b) (end double_tag ∷ ts))
  length-xml f (str s) ts = omega (arith, length-text (xml_escape s) (end string_tag ∷ ts))
  length-xml f (base64 s) ts = omega (arith, length-text (encode s) (end base64_tag ∷ ts))
  length-xml f (arr vs) ts =
      omega (arith, length-items_xml f vs (end data_tag ∷ end array_tag ∷ ts))
  length-xml f (struct ms) ts = omega (arith, length-members_xml f ms (end struct_tag ∷ ts))
  length-xml f other_map ts = omega arith
  length-xml f other_kind ts = omega arith

  pub length-items_xml :
      (f : Floats) (vs : Values) (ts : List Token) → length ts ≤ length (items_xml f vs ts)
  length-items_xml f nil ts = omega arith
  length-items_xml f (cons v vs) ts =
      omega (arith, length-items_xml f vs ts, length-xml f v (end value_tag ∷ items_xml f vs ts))

  pub length-members_xml :
      (f : Floats) (ms : Members) (ts : List Token) → length ts ≤ length (members_xml f ms ts)
  length-members_xml f no_members ts = omega arith
  length-members_xml f (member k v ms) ts = omega (
    arith,
    length-members_xml f ms ts,
    length-xml f v (end value_tag ∷ end member_tag ∷ members_xml f ms ts),
    length-text (xml_escape k) (
        end name_tag
        ∷ start value_tag
        ∷ xml f v (end value_tag ∷ end member_tag ∷ members_xml f ms ts)),
  )
