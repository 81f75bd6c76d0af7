-- ===== src/Xmlrpc/Emit.antt =====
-- emitValue, emitRequest, emitResponse and emitFault.
use rosgo.Prelude.{
  ℕ, ◌^◌, List, [], ◌∷◌, ◌++◌, Option, none, some, Bytes, codes, ltb, if◌then◌else◌,
}
use rosgo.Prelude.Int.{ℤ, pos, sub_ℕ}
use rosgo.Strconv.{format_int}
use rosgo.Strconv.Base64.{encode}
use rosgo.Xmlrpc.{
  Value, absent, boolean, int, uint, double, str, base64, arr, struct, other_map, other_kind,
  Values, nil, cons, Members, no_members, member, Tag, boolean_tag, int_tag, double_tag, string_tag,
  base64_tag, array_tag, data_tag, value_tag, struct_tag, member_tag, name_tag, method_call_tag,
  method_name_tag, params_tag, param_tag, method_response_tag, fault_tag, Token, start, end, chars,
  other, Error, map_key, invalid_kind, Floats,
}
use rosgo.Xmlrpc.Text.{xml_escape}

-- What a function has written to its buffer, and the error it returned.
abbrev pub Emitted : Type 0
Emitted = List Token × Option Error

abbrev pub write : List Token → Emitted
write ts = (ts, none)

-- Writes, and what follows if they met no error.
infixr 4 ◌then◌
abbrev pub ◌then◌ : Emitted → Emitted → Emitted
(ts, some e) then w = (ts, some e)
(ts, none) then (us, r) = (ts ++ us, r)

-- Text between tags; no token stands for the empty text.
abbrev pub text : Bytes → List Token
text [] = []
text (c ∷ s) = chars (c ∷ s) ∷ []

abbrev pub element : Tag → Bytes → Emitted
element t s = write (start t ∷ text s ++ end t ∷ [])

-- `int64(u)`.
abbrev pub int64_of : ℕ → ℤ
int64_of u = if ltb u (2 ^ 63) then pos u else sub_ℕ u (2 ^ 64)

unfoldable mutual
  pub emit_value : Floats → Value → Emitted
  emit_value f absent = write []
  emit_value f (boolean b) = element boolean_tag (if b then codes "1" else codes "0")
  emit_value f (int i) = element int_tag (format_int i)
  emit_value f (uint u) = element int_tag (format_int (int64_of u))
  emit_value f (double b) = element double_tag (f.format_float b)
  emit_value f (str s) = element string_tag (xml_escape s)
  emit_value f (base64 s) = element base64_tag (encode s)
  emit_value f (arr vs) =
      write (start array_tag ∷ start data_tag ∷ [])
      then emit_values f vs
      then write (end data_tag ∷ end array_tag ∷ [])
  emit_value f (struct ms) =
      write (start struct_tag ∷ []) then emit_members f ms then write (end struct_tag ∷ [])
  emit_value f other_map = ([], some map_key)
  emit_value f other_kind = ([], some invalid_kind)

  pub emit_values : Floats → Values → Emitted
  emit_values f nil = write []
  emit_values f (cons v vs) =
      write (start value_tag ∷ [])
      then emit_value f v
      then write (end value_tag ∷ [])
      then emit_values f vs

  pub emit_members : Floats → Members → Emitted
  emit_members f no_members = write []
  emit_members f (member k v ms) =
      write (
        start member_tag ∷ start name_tag ∷ text (xml_escape k)
        ++ end name_tag ∷ start value_tag ∷ [])
      then emit_value f v
      then write (end value_tag ∷ end member_tag ∷ [])
      then emit_members f ms

-- `xml.Header`, a processing instruction and the end of its line.
abbrev pub xml_header : List Token
xml_header = other ∷ chars (codes "\n") ∷ []

unfoldable pub emit_args : Floats → List Value → Emitted
emit_args f [] = write []
emit_args f (v ∷ vs) =
    write (start param_tag ∷ start value_tag ∷ [])
    then emit_value f v
    then write (end value_tag ∷ end param_tag ∷ [])
    then emit_args f vs

unfoldable pub emit_request : Floats → Bytes → List Value → Emitted
emit_request f name args =
    write (
      xml_header
      ++ start method_call_tag ∷ start method_name_tag ∷ text (xml_escape name)
      ++ end method_name_tag ∷ start params_tag ∷ [])
    then emit_args f args
    then write (end params_tag ∷ end method_call_tag ∷ [])

unfoldable pub emit_response : Floats → Value → Emitted
emit_response f v =
    write (
      xml_header
      ++ start method_response_tag ∷ start params_tag ∷ start param_tag ∷ start value_tag ∷ [])
    then emit_value f v
    then write (end value_tag ∷ end param_tag ∷ end params_tag ∷ end method_response_tag ∷ [])

-- The map of a fault, in the order its keys were set.
unfoldable pub fault : ℤ → Bytes → Value
fault code message =
    struct (
      member (codes "faultCode") (int code) (member (codes "faultString") (str message) no_members))

unfoldable pub emit_fault : Floats → ℤ → Bytes → Emitted
emit_fault f code message =
    write (xml_header ++ start method_response_tag ∷ start fault_tag ∷ start value_tag ∷ [])
    then emit_value f (fault code message)
    then write (end value_tag ∷ end fault_tag ∷ end method_response_tag ∷ [])
