-- ===== src/Xmlrpc/Calls.antt =====
-- Call and Handler.ServeHTTP: the client and the server.
pub mod Requests
pub mod Served
use rosgo.Prelude.{
  ℕ, Bool, true, false, List, [], ◌∷◌, ◌++◌, Option, none, some, Bytes, codes, str_eq,
  if◌then◌else◌, Result, ok, err, panic, stuck,
}
use rosgo.Prelude.Int.{ℤ, pos}
use rosgo.Xmlrpc.{Value, int, str, struct, Members, no_members, member, Token, Error, Floats}
use rosgo.Xmlrpc.Emit.{Emitted, emit_request, emit_response, emit_fault}
use rosgo.Xmlrpc.Parse.{parse_request, parse_response}

-- What http.Post gives: no response, a response with another status than 200, or the XML of its body.
pub data Answer : Type 0 where
  unreachable bad_status : Answer
  body : List Token → Answer

pub data CallError : Type 0 where
  building : Error → CallError
  sending http_failed : CallError
  parsing : Error → CallError
  fault : ℤ → Bytes → CallError
  malformed_fault : CallError

-- `m[key]`
unfoldable pub entry : Bytes → Members → Option Value
entry k no_members = none
entry k (member j v ms) = if str_eq j k then some v else entry k ms

abbrev pub fault_of : Option Value → Option Value → CallError
fault_of (some (int c)) (some (str s)) = fault c s
fault_of _ _ = malformed_fault

abbrev pub fault_from : Value → CallError
fault_from (struct ms) = fault_of (entry (codes "faultCode") ms) (entry (codes "faultString") ms)
fault_from _ = malformed_fault

-- What `parseResponse` returned.
abbrev pub finished : Result Error (Bool × Value) → Result CallError Value
finished (ok (true, v)) = ok v
finished (ok (false, v)) = err (fault_from v)
finished (err e) = err (parsing e)
finished panic = panic
finished stuck = stuck

abbrev pub answered : Floats → ℕ → Answer → Result CallError Value
answered f n unreachable = err sending
answered f n bad_status = err http_failed
answered f n (body ts) = finished (parse_response f n ts)

abbrev pub posted : Floats → ℕ → (List Token → Answer) → Emitted → Result CallError Value
posted f n post (ts, some e) = err (building e)
posted f n post (ts, none) = answered f n (post ts)

-- `Call`; the request is posted by net/http, which is a parameter.
unfoldable pub call :
    Floats → ℕ → (List Token → Answer) → Bytes → List Value → Result CallError Value
call f n post name args = posted f n post (emit_request f name args)

-- How the function behind a method ended, called by reflection: it panicked, for arguments of another type
-- or number too; it has not two results; its second result is a non-nil error, or is no error; or it
-- returned a value and nil.
pub data Ran : Type 0 where
  panicked not_two failed not_error : Ran
  returned : Value → Ran

abbrev pub method_says : Bytes → Bytes → Bytes
method_says name what = codes "Method '" ++ name ++ codes "' " ++ what

abbrev pub no_method : Bytes → Bytes
no_method name = codes "No method named '" ++ name ++ codes "'."

-- What is in the buffer after a fault was put behind what it holds; errors of `emitFault` are not looked at.
abbrev pub with_fault : Floats → List Token → Bytes → List Token
with_fault f buffer message = buffer ++ (emit_fault f (pos 1) message).0

-- The response with a result: where it cannot be written, a fault follows what was written of it.
abbrev pub result_body : Floats → Bytes → Emitted → List Token
result_body f name (ts, none) = ts
result_body f name (ts, some e) =
    with_fault f ts (method_says name (codes "return an invalid result type."))

-- The body of the response after a call. The fault for a function without two results is written to the
-- buffer, and the buffer to nobody.
abbrev pub ran_body : Floats → Bytes → Ran → Result Error (List Token)
ran_body f name panicked = panic
ran_body f name not_two = ok []
ran_body f name not_error =
    ok (with_fault f [] (method_says name (codes "return an invalid error.")))
ran_body f name failed = ok (with_fault f [] (method_says name (codes "call failed.")))
ran_body f name (returned v) = ok (result_body f name (emit_response f v))

-- The handler's mapping.
abbrev pub Methods : Type 0
Methods = Bytes → Option (List Value → Ran)

abbrev pub run_method :
    Floats → Option (List Value → Ran) → Bytes → List Value → Result Error (List Token)
run_method f none name args = ok (with_fault f [] (no_method name))
run_method f (some method) name args = ran_body f name (method args)

abbrev pub requested :
    Floats → Methods → Result Error (Bytes × List Value) → Result Error (List Token)
requested f methods (ok (name, args)) = run_method f (methods name) name args
requested f methods (err e) = ok (with_fault f [] (codes "Invalid request."))
requested f methods panic = panic
requested f methods stuck = stuck

-- `ServeHTTP`: from the XML of the request to the body of the response.
unfoldable pub serve_http : Floats → ℕ → Methods → List Token → Result Error (List Token)
serve_http f n methods ts = requested f methods (parse_request f n ts)

-- What a client gets of a server: where the handler panics, or never returns, the connection is lost.
abbrev pub answer_of : Result Error (List Token) → Answer
answer_of (ok ts) = body ts
answer_of _ = unreachable
