-- ===== src/Tests/Calls.antt =====
-- XML-RPC (xmlrpc/xmlrpc.go) and the calls of the ROS API (ros/master.go).
use rosgo.Prelude.{
  ℕ, zero, suc, ◌≡◌, ◌≢◌, ◌<◌, refl, true, List, [], ◌∷◌, none, some, Bytes, codes, length, ok,
  stuck, arith,
}
use rosgo.Prelude.Int.{pos, negsuc}
use rosgo.Strconv.{digits_of, decimal, format_int}
use rosgo.Xmlrpc.{
  Value, int, str, boolean, arr, struct, nil, cons, member, no_members, Token, start, end, chars,
  value_tag, array_tag, param_tag, Floats,
}
use rosgo.Xmlrpc.Text.{xml_escape, escaped, char_width}
use rosgo.Xmlrpc.Emit.{emit_value, emit_args, emit_request, emit_response}
use rosgo.Xmlrpc.Parse.{parse_args, parse_response}
use rosgo.Xmlrpc.RoundTrip.{received, Sendable}
use rosgo.Xmlrpc.Ends.Responses.{parse_response_ends, parse_args_hangs}
use rosgo.Xmlrpc.Calls.{Methods, Ran, returned, call, serve_http, answer_of}
use rosgo.Xmlrpc.Calls.Served.{call-serve_http}
use rosgo.Api.{call_ros_api, build_ros_api_result}
use rosgo.Api.Calls.{Answered, call_ros_api-call}

-- Floats in a notation of their own: one byte for each unit.
abbrev unary : ℕ → Bytes
unary zero = b'.' ∷ []
unary (suc n) = b'1' ∷ unary n

abbrev floats : Floats
floats = record { format_float = unary; parse_float = λ s. none }

abbrev pair : Value
pair = arr (cons (str (codes "ok")) (cons (int (negsuc 6)) nil))

abbrev record_of : Value
record_of = struct (member (codes "a") pair (member (codes "b") (boolean true) no_members))

clean :
    (xml_escape (codes "ok") ≡ codes "ok")
    × (xml_escape (codes "a") ≡ codes "a")
    × (xml_escape (codes "b") ≡ codes "b")
unfolding xml_escape escaped char_width
clean = (refl, refl, refl)

pair-Sendable : Sendable floats pair
pair-Sendable = (clean.0, ((omega arith, omega arith), tt))

record_of-Sendable : Sendable floats record_of
record_of-Sendable = ((λ e. cc), clean.1, refl, pair-Sendable, ((λ e. cc), clean.2, refl, tt, tt))

request_size : length (emit_request floats (codes "ok") (pair ∷ [])).0 < 100
unfolding emit_request emit_args emit_value xml_escape escaped char_width format_int decimal
    digits_of
request_size = omega arith

response_size : length (emit_response floats record_of).0 < 100
unfolding emit_response emit_value xml_escape escaped char_width format_int decimal digits_of
response_size = omega arith

abbrev broken : List Token
broken = start array_tag ∷ start value_tag ∷ chars (codes "x") ∷ []

parse_response_ends_example : parse_response floats (suc (length broken)) broken ≢ stuck
parse_response_ends_example = parse_response_ends floats broken

abbrev cut_off : List Token
cut_off = start param_tag ∷ chars (codes "\n") ∷ end param_tag ∷ []

parse_args_hangs_example : parse_args floats 50 cut_off ≡ stuck
parse_args_hangs_example = parse_args_hangs floats cut_off (refl, (tt, (refl, tt))) 50

-- A server with one method, which gives the record back whatever it is asked.
abbrev one_method : List Value → Ran
one_method vs = returned record_of

abbrev methods : Methods
methods name = some one_method

call-serve_http_example :
    call floats 100 (λ ts. answer_of (serve_http floats 100 methods ts)) (codes "ok") (pair ∷ [])
    ≡ ok (received record_of)
call-serve_http_example =
    call-serve_http floats 100 methods one_method (codes "ok") (pair ∷ []) record_of clean.0
      (pair-Sendable, tt) request_size refl refl record_of-Sendable response_size

abbrev api_method : List Value → Ran
api_method vs = returned (build_ros_api_result (pos 1) (codes "ok") (int (pos 5)))

abbrev api : Methods
api name = some api_method

api_size :
    length (emit_response floats (build_ros_api_result (pos 1) (codes "ok") (int (pos 5)))).0 < 100
unfolding emit_response emit_value build_ros_api_result xml_escape escaped char_width format_int
    decimal digits_of
api_size = omega arith

call_ros_api-call_example : Answered (pos 1) (codes "ok") (int (pos 5)) (
    call_ros_api
      (call floats 100 (λ ts. answer_of (serve_http floats 100 api ts)) (codes "ok") (pair ∷ [])))
call_ros_api-call_example =
    call_ros_api-call floats 100 api api_method (codes "ok") (pair ∷ []) (pos 1) (codes "ok")
      (int (pos 5)) clean.0 (pair-Sendable, tt) request_size refl refl (omega arith, omega arith)
      clean.0 (omega arith, omega arith) api_size
