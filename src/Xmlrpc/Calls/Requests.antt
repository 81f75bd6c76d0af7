-- ===== src/Xmlrpc/Calls/Requests.antt =====
-- What emitRequest writes for arguments that can be sent, and what parseRequest makes of it.
use rosgo.Prelude.{
  ℕ, zero, suc, ◌≡◌, ◌<◌, refl, sym, ap, ◌∙◌, true, List, [], ◌∷◌, ◌++◌, append-nil, length, Bytes,
  map, All, ok, ◌>>=◌, arith,
}
use mathlib.Core.Path.{subst}
use rosgo.Xmlrpc.{
  Value, value_tag, param_tag, params_tag, method_call_tag, method_name_tag, method_response_tag,
  Token, start, end, Floats, Outcome,
}
use rosgo.Xmlrpc.Text.{xml_escape}
use rosgo.Xmlrpc.Emit.{Emitted, write, text, emit_args, emit_request, emit_response, xml_header}
use rosgo.Xmlrpc.Parse.{
  method_name, next_tag, expect_next_tag, parse_args, parse_request, parse_response,
}
use rosgo.Xmlrpc.RoundTrip.{xml, received, Sendable}
use rosgo.Xmlrpc.RoundTrip.Written.{
  Writes, written, then-Writes, emit_value-Writes, emit_response-Writes,
}
use rosgo.Xmlrpc.RoundTrip.Measures.{length-xml, length-text}
use rosgo.Xmlrpc.RoundTrip.Read.{parse_value-xml}

abbrev pub args_xml : Floats → List Value → List Token → List Token
args_xml f [] rest = rest
args_xml f (v ∷ vs) rest =
    start param_tag ∷ start value_tag ∷ xml f v (end value_tag ∷ end param_tag ∷ args_xml f vs rest)

emit_args-Writes :
    (f : Floats) (vs : List Value) → All (Sendable f) vs → Writes (emit_args f vs) (args_xml f vs)
unfolding emit_args
emit_args-Writes f [] h = written []
emit_args-Writes f (v ∷ vs) h =
    then-Writes _ _ _ _ (written (start param_tag ∷ start value_tag ∷ [])) (
      then-Writes _ _ _ _ (emit_value-Writes f v h.0) (
        then-Writes _ _ _ _ (written (end value_tag ∷ end param_tag ∷ []))
          (emit_args-Writes f vs h.1)))

abbrev request_xml : Floats → Bytes → List Value → List Token → List Token
request_xml f name args rest =
    xml_header
    ++ start method_call_tag ∷ start method_name_tag ∷ text (xml_escape name)
    ++ end method_name_tag
      ∷ start params_tag
      ∷ args_xml f args (end params_tag ∷ end method_call_tag ∷ rest)

head-Writes :
    (s : Bytes)
    → Writes
        (write (
          xml_header
          ++ start method_call_tag ∷ start method_name_tag ∷ text s
          ++ end method_name_tag ∷ start params_tag ∷ []))
        (λ rest.
          xml_header
          ++ start method_call_tag ∷ start method_name_tag ∷ text s
          ++ end method_name_tag ∷ start params_tag ∷ rest)
head-Writes [] = written _
head-Writes (c ∷ s) = written _

emit_request-Writes :
    (f : Floats) (name : Bytes) (args : List Value)
    → All (Sendable f) args
    → Writes (emit_request f name args) (request_xml f name args)
unfolding emit_request
emit_request-Writes f name args h = then-Writes _ _ _ _ (head-Writes (xml_escape name)) (
    then-Writes _ _ _ _ (emit_args-Writes f args h)
      (written (end params_tag ∷ end method_call_tag ∷ [])))

parse_args-args_xml :
    (f : Floats) (vs : List Value) (n : ℕ) (rest : List Token)
    → All (Sendable f) vs
    → length (args_xml f vs (end params_tag ∷ rest)) < n
    → parse_args f n (args_xml f vs (end params_tag ∷ rest)) ≡ ok (map received vs)
unfolding parse_args
parse_args-args_xml f [] zero rest h l = absurd (omega arith)
parse_args-args_xml f [] (suc n) rest h l = refl
parse_args-args_xml f (v ∷ vs) zero rest h l = absurd (omega arith)
parse_args-args_xml f (v ∷ vs) (suc zero) rest h l = absurd (omega arith)
parse_args-args_xml f (v ∷ vs) (suc (suc zero)) rest h l = absurd (omega arith)
parse_args-args_xml f (v ∷ vs) (suc (suc (suc n))) rest h l =
    let more = args_xml f vs (end params_tag ∷ rest) in
    let bound = length-xml f v (end value_tag ∷ end param_tag ∷ more) in
    rw
      (
        parse_value-xml f v (suc n) (end param_tag ∷ more) h.0 (omega (arith, l)),
        parse_args-args_xml f vs n rest h.1 (omega (arith, l, bound)),
      )
      refl

-- What is written, where nothing follows.
Writes-write : (w : Emitted) (g : List Token → List Token) → Writes w g → w ≡ write (g [])
Writes-write w g (xs, e, a) = e ∙ ap write (sym (append-nil xs) ∙ a [])

abbrev with_name : Bytes → Outcome (List Value) → Outcome (Bytes × List Value)
with_name name p = p >>= λ args. ok (name, args)

abbrev parameters : Floats → ℕ → Bytes → List Token → Outcome (Bytes × List Value)
parameters f n name c = expect_next_tag params_tag c >>= λ d. with_name name (parse_args f n d)

method_name_lem :
    (f : Floats) (n : ℕ) (s : Bytes) (ts : List Token)
    → (method_name (text s ++ end method_name_tag ∷ start params_tag ∷ ts) >>= λ (name, c).
        parameters f n name c)
      ≡ with_name s (parse_args f n ts)
unfolding expect_next_tag next_tag
method_name_lem f n [] ts = refl
method_name_lem f n (c ∷ s) ts = refl

parse_request-request_xml :
    (f : Floats) (name : Bytes) (args : List Value) (n : ℕ)
    → xml_escape name ≡ name
    → All (Sendable f) args
    → length (request_xml f name args []) < n
    → parse_request f n (request_xml f name args []) ≡ ok (name, map received args)
unfolding parse_request expect_next_tag next_tag
parse_request-request_xml f name args n e h l =
    let ts = args_xml f args (end params_tag ∷ end method_call_tag ∷ []) in
    let bound = length-text (xml_escape name) (end method_name_tag ∷ start params_tag ∷ ts) in
    method_name_lem f n (xml_escape name) ts
    ∙ rw (e, parse_args-args_xml f args n (end method_call_tag ∷ []) h (omega (arith, l, bound)))
        refl

-- A request with such arguments is written without an error, and read as the method and what the
-- arguments are received as.
pub parse_request-emit_request :
    (f : Floats) (name : Bytes) (args : List Value) (n : ℕ)
    → xml_escape name ≡ name
    → All (Sendable f) args
    → length (emit_request f name args).0 < n
    → (emit_request f name args ≡ write (emit_request f name args).0)
      × (parse_request f n (emit_request f name args).0 ≡ ok (name, map received args))
parse_request-emit_request f name args n e h l =
    let w = Writes-write _ _ (emit_request-Writes f name args h) in
    (
      w ∙ ap (λ p. write p.0) (sym w),
      ap (λ p. parse_request f n p.0) w
          ∙ parse_request-request_xml f name args n e h (subst (λ p. length p.0 < n) w l),
    )

abbrev response_xml : Floats → Value → List Token
response_xml f v =
    xml_header
    ++ start method_response_tag
      ∷ start params_tag
      ∷ start param_tag
      ∷ start value_tag
      ∷ xml f v (end value_tag ∷ end param_tag ∷ end params_tag ∷ end method_response_tag ∷ [])

parse_response-response_xml :
    (f : Floats) (v : Value) (n : ℕ)
    → Sendable f v
    → length (response_xml f v) < n
    → parse_response f n (response_xml f v) ≡ ok (true, received v)
unfolding parse_response expect_next_tag next_tag
parse_response-response_xml f v n h l =
    rw
      (parse_value-xml f v n (end param_tag ∷ end params_tag ∷ end method_response_tag ∷ []) h
        (omega (arith, l)))
      refl

-- A response with such a value is written without an error, and read as what the value is received as.
pub parse_response-emit_response :
    (f : Floats) (v : Value) (n : ℕ)
    → Sendable f v
    → length (emit_response f v).0 < n
    → (emit_response f v ≡ write (emit_response f v).0)
      × (parse_response f n (emit_response f v).0 ≡ ok (true, received v))
parse_response-emit_response f v n h l =
    let w = Writes-write _ _ (emit_response-Writes f v h) in
    (
      w ∙ ap (λ p. write p.0) (sym w),
      ap (λ p. parse_response f n p.0) w
          ∙ parse_response-response_xml f v n h (subst (λ p. length p.0 < n) w l),
    )
