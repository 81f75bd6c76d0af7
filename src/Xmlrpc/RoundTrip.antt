-- ===== src/Xmlrpc/RoundTrip.antt =====
-- xmlrpc/xmlrpc.go: what emitValue writes, and what parseValue makes of it.
pub mod Written
pub mod Measures
pub mod Read
use rosgo.Prelude.{
  ℕ, ◌+◌, ◌-◌, ◌^◌, ◌≡◌, ◌≢◌, ◌≤◌, ◌<◌, Bool, true, false, ◌||◌, List, [], ◌∷◌, ◌++◌, some, Bytes,
  All, codes, str_eq, if◌then◌else◌,
}
use rosgo.Prelude.Int.{ℤ, pos, pos_part, neg_part}
use rosgo.Strconv.{format_int}
use rosgo.Strconv.Base64.{encode}
use rosgo.Xmlrpc.{
  Value, absent, boolean, int, uint, double, str, base64, arr, struct, other_map, other_kind,
  Values, nil, cons, Members, no_members, member, boolean_tag, int_tag, double_tag, string_tag,
  base64_tag, array_tag, data_tag, value_tag, struct_tag, member_tag, name_tag, Token, start, end,
  chars, Floats,
}
use rosgo.Xmlrpc.Emit.{text, int64_of}
use rosgo.Xmlrpc.Text.{xml_escape}

-- The tokens of a value, before others.
abbrev mutual
  pub xml : Floats → Value → List Token → List Token
  xml f absent rest = rest
  xml f (boolean b) rest =
      start boolean_tag ∷ chars (if b then codes "1" else codes "0") ∷ end boolean_tag ∷ rest
  xml f (int i) rest = start int_tag ∷ text (format_int i) ++ end int_tag ∷ rest
  xml f (uint u) rest = start int_tag ∷ text (format_int (int64_of u)) ++ end int_tag ∷ rest
  xml f (double b) rest = start double_tag ∷ text (f.format_float b) ++ end double_tag ∷ rest
  xml f (str s) rest = start string_tag ∷ text (xml_escape s) ++ end string_tag ∷ rest
  xml f (base64 s) rest = start base64_tag ∷ text (encode s) ++ end base64_tag ∷ rest
  xml f (arr vs) rest =
      start array_tag ∷ start data_tag ∷ items_xml f vs (end data_tag ∷ end array_tag ∷ rest)
  xml f (struct ms) rest = start struct_tag ∷ members_xml f ms (end struct_tag ∷ rest)
  xml f other_map rest = rest
  xml f other_kind rest = rest

  pub items_xml : Floats → Values → List Token → List Token
  items_xml f nil rest = rest
  items_xml f (cons v vs) rest = start value_tag ∷ xml f v (end value_tag ∷ items_xml f vs rest)

  pub members_xml : Floats → Members → List Token → List Token
  members_xml f no_members rest = rest
  members_xml f (member k v ms) rest =
      start member_tag ∷ start name_tag ∷ text (xml_escape k)
      ++ end name_tag
        ∷ start value_tag
        ∷ xml f v (end value_tag ∷ end member_tag ∷ members_xml f ms rest)

-- What the other side makes of a value: an unsigned integer is an `int32`, and nil the empty string.
abbrev mutual
  pub received : Value → Value
  received absent = str []
  received (uint u) = int (pos u)
  received (arr vs) = arr (received_items vs)
  received (struct ms) = struct (received_members ms)
  received (boolean b) = boolean b
  received (int i) = int i
  received (double b) = double b
  received (str s) = str s
  received (base64 s) = base64 s
  received other_map = other_map
  received other_kind = other_kind

  pub received_items : Values → Values
  received_items nil = nil
  received_items (cons v vs) = cons (received v) (received_items vs)

  pub received_members : Members → Members
  received_members no_members = no_members
  received_members (member k v ms) = member k (received v) (received_members ms)

abbrev pub has : Bytes → Members → Bool
has k no_members = false
has k (member j v ms) = str_eq j k || has k ms

-- The values that can be sent: integers of 32 bits, floats that are read back from their text, strings of
-- characters of XML, bytes that are not empty, and maps with keys that are such strings, not empty, and
-- distinct.
abbrev mutual
  pub Sendable : Floats → Value → Type 0
  Sendable f absent = Unit
  Sendable f (boolean b) = Unit
  Sendable f (int i) = (pos_part i < 2 ^ 31) × (neg_part i ≤ 2 ^ 31)
  Sendable f (uint u) = u < 2 ^ 31
  Sendable f (double b) = (f.format_float b ≢ []) × (f.parse_float (f.format_float b) ≡ some b)
  Sendable f (str s) = xml_escape s ≡ s
  Sendable f (base64 s) = (s ≢ []) × All (λ b. b < 256) s
  Sendable f (arr vs) = AllSendable f vs
  Sendable f (struct ms) = MembersSendable f ms
  Sendable f other_map = ⊥
  Sendable f other_kind = ⊥

  pub AllSendable : Floats → Values → Type 0
  AllSendable f nil = Unit
  AllSendable f (cons v vs) = Sendable f v × AllSendable f vs

  pub MembersSendable : Floats → Members → Type 0
  MembersSendable f no_members = Unit
  MembersSendable f (member k v ms) =
      (k ≢ []) × (xml_escape k ≡ k) × (has k ms ≡ false) × Sendable f v × MembersSendable f ms
