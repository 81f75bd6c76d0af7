-- ===== src/Xmlrpc/Calls/Served.antt =====
-- A client and a server together.
use rosgo.Prelude.{ℕ, ◌≡◌, ◌<◌, ap, ◌∙◌, List, length, some, Bytes, map, All, ok}
use rosgo.Xmlrpc.{Value, Token, Floats}
use rosgo.Xmlrpc.Text.{xml_escape}
use rosgo.Xmlrpc.Emit.{emit_request, emit_response}
use rosgo.Xmlrpc.Parse.{parse_request}
use rosgo.Xmlrpc.RoundTrip.{received, Sendable}
use rosgo.Xmlrpc.Calls.{
  Methods, Ran, returned, body, finished, answered, posted, call, result_body, ran_body, run_method,
  requested, answer_of, serve_http,
}
use rosgo.Xmlrpc.Calls.Requests.{parse_request-emit_request, parse_response-emit_response}

-- A call of a server's method, with arguments that can be sent and a name of characters of XML, gives the
-- client what the method's value is received as, where the method returns a value that can be sent for what
-- the arguments are received as.
pub call-serve_http :
    (f : Floats) (n : ℕ) (methods : Methods) (method : List Value → Ran) (name : Bytes)
    (args : List Value) (v : Value)
    → xml_escape name ≡ name
    → All (Sendable f) args
    → length (emit_request f name args).0 < n
    → methods name ≡ some method
    → method (map received args) ≡ returned v
    → Sendable f v
    → length (emit_response f v).0 < n
    → call f n (λ ts. answer_of (serve_http f n methods ts)) name args ≡ ok (received v)
unfolding call serve_http
call-serve_http f n methods method name args v e h l m r k j =
    let (sent, parsed) = parse_request-emit_request f name args n e h l in
    let (replied, read) = parse_response-emit_response f v n k j in
    let post = λ (ts : List Token). answer_of (requested f methods (parse_request f n ts)) in
    ap (posted f n post) sent
    ∙ ap (λ p. answered f n (answer_of (requested f methods p))) parsed
    ∙ ap (λ o. answered f n (answer_of (run_method f o name (map received args)))) m
    ∙ ap (λ x. answered f n (answer_of (ran_body f name x))) r
    ∙ ap (λ w. answered f n (body (result_body f name w))) replied
    ∙ ap finished read
