-- ===== src/Xmlrpc/RoundTrip/Read.antt =====
-- What parseValue makes of the tokens of a value.
use rosgo.Prelude.{
  ℕ, zero, suc, ◌^◌, ◌≡◌, ◌≢◌, ◌<◌, refl, sym, ap, ◌∙◌, Bool, true, false, List, [], ◌∷◌, ◌++◌,
  length, Bytes, ok, ◌>>=◌, arith,
}
use mathlib.Core.Path.{subst}
use rosgo.Prelude.Int.{ℤ, pos}
use rosgo.Strconv.{format_int, parse_int0, parse_int10, decimal_digits}
use rosgo.Strconv.Decimal.{parse_int0-format_int, format_int-ne-nil}
use rosgo.Strconv.Base64.{encode, decode, decode-encode, encode-ne-nil}
use rosgo.Xmlrpc.{
  Value, absent, boolean, int, uint, double, str, base64, arr, struct, other_map, other_kind,
  Values, nil, cons, Members, no_members, member, int_tag, double_tag, base64_tag, value_tag,
  member_tag, name_tag, array_tag, data_tag, struct_tag, Token, start, end, chars, Floats,
}
use rosgo.Xmlrpc.Text.{xml_escape}
use rosgo.Xmlrpc.Emit.{text, int64_of}
use rosgo.Xmlrpc.Parse.{
  skip, next_tag, expect_next_tag, set, int_from, double_from, base64_from, parse_value,
  parse_items, parse_members,
}
use rosgo.Xmlrpc.RoundTrip.{
  xml, items_xml, members_xml, received, received_items, received_members, Sendable, AllSendable,
  MembersSendable,
}
use rosgo.Xmlrpc.RoundTrip.Measures.{
  text_lem, scalar_lem, string_lem, join, join-no_members, join_assoc, set-join, Separate,
  Separate-no_members, Separate-join, length-text, length-xml,
}

Reads : Floats → Value → Type 0
Reads f v =
    (n : ℕ) (rest : List Token)
    → length (xml f v (end value_tag ∷ rest)) < n
    → parse_value f n (xml f v (end value_tag ∷ rest)) ≡ ok (received v, rest)

ItemsRead : Floats → Values → Type 0
ItemsRead f vs =
    (n : ℕ) (rest : List Token)
    → length (items_xml f vs (end data_tag ∷ end array_tag ∷ rest)) < n
    → parse_items f n (items_xml f vs (end data_tag ∷ end array_tag ∷ rest))
      ≡ ok (received_items vs, rest)

MembersRead : Floats → Members → Type 0
MembersRead f ms =
    (n : ℕ) (k : Bytes) (v : Value) (m : Members) (rest : List Token)
    → length (members_xml f ms (end struct_tag ∷ rest)) < n
    → Separate m ms
    → parse_members f n k v m (members_xml f ms (end struct_tag ∷ rest))
      ≡ ok (join m (received_members ms), rest)

absent-Reads : (f : Floats) → Reads f absent
unfolding Reads parse_value
absent-Reads f zero rest l = absurd (omega arith)
absent-Reads f (suc n) rest l = refl

boolean-Reads : (f : Floats) (b : Bool) → Reads f (boolean b)
unfolding Reads parse_value
boolean-Reads f b zero rest l = absurd (omega arith)
boolean-Reads f true (suc n) rest l = unfold skip parse_int10 decimal_digits in refl
boolean-Reads f false (suc n) rest l = unfold skip parse_int10 decimal_digits in refl

int-Reads : (f : Floats) (i : ℤ) → Sendable f (int i) → Reads f (int i)
unfolding Reads parse_value
int-Reads f i h zero rest l = absurd (omega arith)
int-Reads f i h (suc n) rest l =
    scalar_lem (λ s. int_from (parse_int0 (2 ^ 31) s)) int_tag (format_int i) (int i) rest
      (format_int-ne-nil i) (ap int_from (parse_int0-format_int (2 ^ 31) i h.0 h.1))

int64_of_lem : (u : ℕ) → u < 2 ^ 31 → int64_of u ≡ pos u
int64_of_lem u h = ground arith

uint-Reads : (f : Floats) (u : ℕ) → Sendable f (uint u) → Reads f (uint u)
unfolding Reads
uint-Reads f u h n rest l =
    let e = int64_of_lem u h in
    let bound : length (xml f (int (pos u)) (end value_tag ∷ rest)) < n =
      subst (λ i. length (xml f (int i) (end value_tag ∷ rest)) < n) e l in
    ap (λ i. parse_value f n (xml f (int i) (end value_tag ∷ rest))) e
    ∙ int-Reads f (pos u) (h, omega arith) n rest bound

double-Reads : (f : Floats) (b : ℕ) → Sendable f (double b) → Reads f (double b)
unfolding Reads parse_value
double-Reads f b h zero rest l = absurd (omega arith)
double-Reads f b h (suc n) rest l =
    scalar_lem (λ s. double_from (f.parse_float s)) double_tag (f.format_float b) (double b) rest
      h.0 (ap double_from h.1)

str-Reads : (f : Floats) (s : Bytes) → Sendable f (str s) → Reads f (str s)
unfolding Reads parse_value
str-Reads f s h zero rest l = absurd (omega arith)
str-Reads f s h (suc n) rest l = string_lem (xml_escape s) rest ∙ ap (λ t. ok (str t, rest)) h

base64-Reads : (f : Floats) (s : Bytes) → Sendable f (base64 s) → Reads f (base64 s)
unfolding Reads parse_value
base64-Reads f s h zero rest l = absurd (omega arith)
base64-Reads f s h (suc n) rest l =
    scalar_lem (λ s. base64_from (decode s)) base64_tag (encode s) (base64 s) rest
      (encode-ne-nil s h.0) (ap base64_from (decode-encode s h.1))

nil-ItemsRead : (f : Floats) → ItemsRead f nil
unfolding ItemsRead parse_items
nil-ItemsRead f zero rest l = absurd (omega arith)
nil-ItemsRead f (suc zero) rest l = absurd (omega arith)
nil-ItemsRead f (suc (suc n)) rest l = refl

cons-ItemsRead :
    (f : Floats) (v : Value) (vs : Values) → Reads f v → ItemsRead f vs → ItemsRead f (cons v vs)
unfolding ItemsRead Reads
cons-ItemsRead f v vs r rs zero rest l = absurd (omega arith)
cons-ItemsRead f v vs r rs (suc n) rest l =
    let inner = items_xml f vs (end data_tag ∷ end array_tag ∷ rest) in
    let bound = length-xml f v (end value_tag ∷ inner) in
    unfold parse_items in
    rw (r n inner (omega (arith, l)), rs n rest (omega (arith, l, bound))) refl

arr-Reads : (f : Floats) (vs : Values) → ItemsRead f vs → Reads f (arr vs)
unfolding Reads ItemsRead
arr-Reads f vs rs zero rest l = absurd (omega arith)
arr-Reads f vs rs (suc n) rest l =
    unfold parse_value expect_next_tag next_tag in
    rw (rs n (end value_tag ∷ rest) (omega (arith, l))) (unfold skip in refl)

struct-Reads : (f : Floats) (ms : Members) → MembersRead f ms → Reads f (struct ms)
unfolding Reads MembersRead
struct-Reads f ms rs zero rest l = absurd (omega arith)
struct-Reads f ms rs (suc n) rest l =
    unfold parse_value in
    rw
      (rs n [] absent no_members (end value_tag ∷ rest) (omega (arith, l)) (Separate-no_members ms))
      (unfold skip in refl)

no_members-MembersRead : (f : Floats) → MembersRead f no_members
unfolding MembersRead parse_members
no_members-MembersRead f zero k v m rest l h = absurd (omega arith)
no_members-MembersRead f (suc n) k v m rest l h = ap (λ ms. ok (ms, rest)) (sym (join-no_members m))

name_text : (k : Bytes) → k ≢ [] → xml_escape k ≡ k → text (xml_escape k) ≡ chars k ∷ []
name_text k h e = ap text e ∙ text_lem k h

-- The six rounds that read a member.
member_rounds :
    (f : Floats) (n : ℕ) (k0 k : Bytes) (v0 v : Value) (m : Members) (ts us : List Token)
    → parse_value f (suc n) ts ≡ ok (v, end member_tag ∷ us)
    → parse_members f
        (suc (suc (suc (suc (suc n)))))
        k0
        v0
        m
        (start member_tag ∷ start name_tag ∷ chars k ∷ end name_tag ∷ start value_tag ∷ ts)
      ≡ parse_members f n k v (set k v m) us
member_rounds f n k0 k v0 v m ts us e =
    unfold parse_members in ap (λ p. p >>= λ (w, rest). parse_members f (suc n) k w m rest) e

member-MembersRead :
    (f : Floats) (k : Bytes) (v : Value) (ms : Members)
    → MembersSendable f (member k v ms)
    → Reads f v
    → MembersRead f ms
    → MembersRead f (member k v ms)
unfolding MembersRead Reads
member-MembersRead f k v ms h r rs (suc (suc (suc (suc (suc n))))) k0 v0 m rest l apart =
    let us = members_xml f ms (end struct_tag ∷ rest) in
    let name = name_text k h.0 h.1 in
    let shown =
      ap
        (λ t.
          start member_tag ∷ start name_tag ∷ t
          ++ end name_tag ∷ start value_tag ∷ xml f v (end value_tag ∷ end member_tag ∷ us))
        name in
    let l' = subst (λ t. length t < suc (suc (suc (suc (suc n))))) shown l in
    let bound = length-xml f v (end value_tag ∷ end member_tag ∷ us) in
    ap (parse_members f (suc (suc (suc (suc (suc n))))) k0 v0 m) shown
    ∙ member_rounds f n k0 k v0 (received v) m (xml f v (end value_tag ∷ end member_tag ∷ us)) us
        (r (suc n) (end member_tag ∷ us) (omega (arith, l')))
    ∙ ap (λ x. parse_members f n k (received v) x us) (set-join k (received v) m apart.0)
    ∙ rs n k (received v) (join m (member k (received v) no_members)) rest
        (omega (arith, l', bound)) (Separate-join k (received v) m ms apart.1 h.2)
    ∙ ap (λ x. ok (x, rest)) (join_assoc m (member k (received v) no_members) (received_members ms))
member-MembersRead f k v ms h r rs n k0 v0 m rest l apart =
    let us = end value_tag ∷ end member_tag ∷ members_xml f ms (end struct_tag ∷ rest) in
    absurd (
      omega (
        arith,
        l,
        length-text (xml_escape k) (end name_tag ∷ start value_tag ∷ xml f v us),
        length-xml f v us,
      ))

mutual
  unfolding Reads

  Sendable-Reads : (f : Floats) (v : Value) → Sendable f v → Reads f v
  Sendable-Reads f absent h n rest l = absent-Reads f n rest l
  Sendable-Reads f (boolean b) h n rest l = boolean-Reads f b n rest l
  Sendable-Reads f (int i) h n rest l = int-Reads f i h n rest l
  Sendable-Reads f (uint u) h n rest l = uint-Reads f u h n rest l
  Sendable-Reads f (double b) h n rest l = double-Reads f b h n rest l
  Sendable-Reads f (str s) h n rest l = str-Reads f s h n rest l
  Sendable-Reads f (base64 s) h n rest l = base64-Reads f s h n rest l
  Sendable-Reads f (arr vs) h n rest l = arr-Reads f vs (Sendable-ItemsRead f vs h) n rest l
  Sendable-Reads f (struct ms) h n rest l = struct-Reads f ms (Sendable-MembersRead f ms h) n rest l
  Sendable-Reads f other_map h n rest l = absurd h
  Sendable-Reads f other_kind h n rest l = absurd h

  Sendable-ItemsRead : (f : Floats) (vs : Values) → AllSendable f vs → ItemsRead f vs
  Sendable-ItemsRead f nil h = nil-ItemsRead f
  Sendable-ItemsRead f (cons v vs) h =
      cons-ItemsRead f v vs (Sendable-Reads f v h.0) (Sendable-ItemsRead f vs h.1)

  Sendable-MembersRead : (f : Floats) (ms : Members) → MembersSendable f ms → MembersRead f ms
  Sendable-MembersRead f no_members h = no_members-MembersRead f
  Sendable-MembersRead f (member k v ms) h =
      member-MembersRead f k v ms h (Sendable-Reads f v h.3) (Sendable-MembersRead f ms h.4)

-- A value that can be sent is read from its tokens, and what follows the end of the value is left.
pub parse_value-xml :
    (f : Floats) (v : Value) (n : ℕ) (rest : List Token)
    → Sendable f v
    → length (xml f v (end value_tag ∷ rest)) < n
    → parse_value f n (xml f v (end value_tag ∷ rest)) ≡ ok (received v, rest)
parse_value-xml f v n rest h l = unfold Reads in Sendable-Reads f v h n rest l
