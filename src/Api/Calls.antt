-- ===== src/Api/Calls.antt =====
-- A call of the ROS API through XML-RPC: ros/master.go on both sides of xmlrpc/xmlrpc.go.
use rosgo.Prelude.{
  ℕ, Bool-cases, ◌==◌, ==_iff, ◌≡◌, ◌≢◌, ◌≤◌, ◌<◌, ◌^◌, refl, sym, ap, ◌⊎◌, inl, inr, List, Bytes,
  some, map, length, All, ok, err, arith,
}
use mathlib.Core.Path.{subst}
use rosgo.Prelude.Int.{ℤ, pos, negsuc, pos_part, neg_part}
use rosgo.Xmlrpc.{Value, Floats}
use rosgo.Xmlrpc.Text.{xml_escape}
use rosgo.Xmlrpc.Emit.{emit_request, emit_response}
use rosgo.Xmlrpc.RoundTrip.{received, Sendable}
use rosgo.Xmlrpc.Calls.{Methods, Ran, returned, call, serve_http, answer_of}
use rosgo.Xmlrpc.Calls.Served.{call-serve_http}
use rosgo.Api.{Outcome, status, value_for, call_ros_api, build_ros_api_result}

-- What a caller gets for a triplet: with the code 1 the value, and with any other code an error that has
-- the code and the message.
abbrev pub Answered : ℤ → Bytes → Value → Outcome Value → Type 0
Answered code message value o =
    (code ≡ pos 1) × (o ≡ ok value) ⊎ (code ≢ pos 1) × (o ≡ err (status code message))

-- With the code 1 there is no error.
pub succeeded :
    (message : Bytes) (value : Value) (o : Outcome Value)
    → Answered (pos 1) message value o
    → o ≡ ok value
succeeded message value o (inl (_, e)) = e
succeeded message value o (inr (ne, _)) = absurd (ne refl)

value_for-Answered :
    (code : ℤ) (message : Bytes) (value : Value)
    → Answered code message value (value_for code message value)
value_for-Answered (pos n) message value = elim (Bool-cases (n == 1)) [
  | inl one ↦ rw one (inl (ap pos ((==_iff n 1).0 one), refl))
  | inr other ↦ rw other (inr (λ e. let same : n ≡ 1 = cc in ground (arith, same, other), refl))
]
value_for-Answered (negsuc n) message value = inr (λ e. cc, refl)

-- Where a method of the API answers a call with a triplet, with a code of 32 bits and a message and a value
-- that can be sent, and is called with arguments that can be sent under a name that XML keeps: callRosAPI
-- returns what the value is received as if the code is 1, and otherwise an error with the code and the
-- message. Both texts are to be shorter than the fuel.
pub call_ros_api-call :
    (f : Floats) (n : ℕ) (methods : Methods) (method : List Value → Ran) (name : Bytes)
    (args : List Value) (code : ℤ) (message : Bytes) (value : Value)
    → xml_escape name ≡ name
    → All (Sendable f) args
    → length (emit_request f name args).0 < n
    → methods name ≡ some method
    → method (map received args) ≡ returned (build_ros_api_result code message value)
    → (pos_part code < 2 ^ 31) × (neg_part code ≤ 2 ^ 31)
    → xml_escape message ≡ message
    → Sendable f value
    → length (emit_response f (build_ros_api_result code message value)).0 < n
    → Answered code message
        (received value)
        (call_ros_api (call f n (λ ts. answer_of (serve_http f n methods ts)) name args))
unfolding call_ros_api build_ros_api_result
call_ros_api-call f n methods method name args code message value e h l m r small clean good j =
    subst (Answered code message (received value))
      (sym (
        ap call_ros_api (
          call-serve_http f n methods method name args (build_ros_api_result code message value) e h
            l m r (small, (clean, (good, tt))) j)))
      (value_for-Answered code message (received value))
