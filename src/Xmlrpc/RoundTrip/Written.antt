-- ===== src/Xmlrpc/RoundTrip/Written.antt =====
-- What emitValue, emitResponse and emitRequest write for values that can be sent.
use rosgo.Prelude.{
  ◌≡◌, refl, ap, ◌∙◌, true, false, List, [], ◌∷◌, ◌++◌, append_assoc, Bytes, if◌then◌else◌,
}
use rosgo.Xmlrpc.{
  Value, absent, boolean, int, uint, double, str, base64, arr, struct, other_map, other_kind,
  Values, nil, cons, Members, no_members, member, Tag, value_tag, member_tag, name_tag, array_tag,
  data_tag, struct_tag, method_response_tag, params_tag, param_tag, Token, start, end, chars,
  Floats,
}
use rosgo.Xmlrpc.Text.{xml_escape}
use rosgo.Xmlrpc.Emit.{
  Emitted, write, ◌then◌, text, element, emit_value, emit_values, emit_members, xml_header,
  emit_response,
}
use rosgo.Xmlrpc.RoundTrip.{xml, items_xml, members_xml, Sendable, AllSendable, MembersSendable}

-- All is written without an error, as the tokens that `g` puts before others.
abbrev pub Writes : Emitted → (List Token → List Token) → Type 0
Writes w g = (xs : List Token) × (w ≡ write xs) × ((rest : List Token) → xs ++ rest ≡ g rest)

pub written : (xs : List Token) → Writes (write xs) (λ rest. xs ++ rest)
written xs = (xs, refl, λ rest. refl)

pub then-Writes :
    (w u : Emitted) (g h : List Token → List Token)
    → Writes w g
    → Writes u h
    → Writes (w then u) (λ rest. g (h rest))
then-Writes w u g h (xs, e, a) (ys, d, b) =
    (xs ++ ys, rw (e, d) refl, λ rest. append_assoc xs ys rest ∙ ap (◌++◌ xs) (b rest) ∙ a (h rest))

element-Writes :
    (t : Tag) (s : Bytes) → Writes (element t s) (λ rest. start t ∷ text s ++ end t ∷ rest)
element-Writes t [] = written (start t ∷ end t ∷ [])
element-Writes t (c ∷ s) = written (start t ∷ chars (c ∷ s) ∷ end t ∷ [])

named-Writes :
    (s : Bytes)
    → Writes
        (write (start member_tag ∷ start name_tag ∷ text s ++ end name_tag ∷ start value_tag ∷ []))
        (λ rest.
          start member_tag ∷ start name_tag ∷ text s ++ end name_tag ∷ start value_tag ∷ rest)
named-Writes [] = written _
named-Writes (c ∷ s) = written _

mutual
  unfolding emit_value

  pub emit_value-Writes :
      (f : Floats) (v : Value) → Sendable f v → Writes (emit_value f v) (xml f v)
  emit_value-Writes f absent h = written []
  emit_value-Writes f (boolean true) h = written _
  emit_value-Writes f (boolean false) h = written _
  emit_value-Writes f (int i) h = element-Writes _ _
  emit_value-Writes f (uint u) h = element-Writes _ _
  emit_value-Writes f (double b) h = element-Writes _ _
  emit_value-Writes f (str s) h = element-Writes _ _
  emit_value-Writes f (base64 s) h = element-Writes _ _
  emit_value-Writes f (arr vs) h =
      then-Writes _ _ _ _ (written (start array_tag ∷ start data_tag ∷ [])) (
        then-Writes _ _ _ _ (emit_values-Writes f vs h)
          (written (end data_tag ∷ end array_tag ∷ [])))
  emit_value-Writes f (struct ms) h =
      then-Writes _ _ _ _ (written (start struct_tag ∷ []))
        (then-Writes _ _ _ _ (emit_members-Writes f ms h) (written (end struct_tag ∷ [])))
  emit_value-Writes f other_map h = absurd h
  emit_value-Writes f other_kind h = absurd h

  emit_values-Writes :
      (f : Floats) (vs : Values) → AllSendable f vs → Writes (emit_values f vs) (items_xml f vs)
  emit_values-Writes f nil h = written []
  emit_values-Writes f (cons v vs) h = then-Writes _ _ _ _ (written (start value_tag ∷ [])) (
      then-Writes _ _ _ _ (emit_value-Writes f v h.0)
        (then-Writes _ _ _ _ (written (end value_tag ∷ [])) (emit_values-Writes f vs h.1)))

  emit_members-Writes :
      (f : Floats) (ms : Members)
      → MembersSendable f ms
      → Writes (emit_members f ms) (members_xml f ms)
  emit_members-Writes f no_members h = written []
  emit_members-Writes f (member k v ms) h = then-Writes _ _ _ _ (named-Writes (xml_escape k)) (
      then-Writes _ _ _ _ (emit_value-Writes f v h.3) (
        then-Writes _ _ _ _ (written (end value_tag ∷ end member_tag ∷ []))
          (emit_members-Writes f ms h.4)))

-- A response with such a value.
pub emit_response-Writes :
    (f : Floats) (v : Value)
    → Sendable f v
    → Writes (emit_response f v) (λ rest.
      xml_header
      ++ start method_response_tag
        ∷ start params_tag
        ∷ start param_tag
        ∷ start value_tag
        ∷ xml f v (end value_tag ∷ end param_tag ∷ end params_tag ∷ end method_response_tag ∷ rest))
unfolding emit_response
emit_response-Writes f v h =
    then-Writes _ _ _ _
      (written (
        xml_header
        ++ start method_response_tag ∷ start params_tag ∷ start param_tag ∷ start value_tag ∷ []))
      (then-Writes _ _ _ _ (emit_value-Writes f v h)
        (written (end value_tag ∷ end param_tag ∷ end params_tag ∷ end method_response_tag ∷ [])))
