-- ===== src/Api.antt =====
-- ros/master.go: the triplets that the ROS API answers with.
pub mod Triplet
pub mod Calls
use rosgo.Prelude.{
  ℕ, suc, ◌==◌, Bool, true, false, List, [], ◌∷◌, Bytes, if◌then◌else◌, Result, ok, err, panic,
  stuck, ◌>>=◌,
}
use rosgo.Prelude.Int.{ℤ, pos, negsuc}
use rosgo.Xmlrpc.{Value, int, str, arr, Values, nil, cons}
use rosgo.Xmlrpc.Calls.{CallError}

-- The errors, the first of them what the call itself returns.
pub data Error : Type 0 where
  call_failed : CallError → Error
  malformed code_not_int message_not_string : Error
  length_not_3 : ℕ → Error
  status : ℤ → Bytes → Error

abbrev pub Outcome {ℓ} : Type ℓ → Type ℓ
Outcome = Result Error

-- `code == APIStatusSuccess`.
abbrev pub is_success : ℤ → Bool
is_success (pos n) = n == 1
is_success (negsuc _) = false

abbrev pub called : Result CallError Value → Outcome Value
called (ok v) = ok v
called (err e) = err (call_failed e)
called panic = panic
called stuck = stuck

abbrev pub value_for : ℤ → Bytes → Value → Outcome Value
value_for code message value = if is_success code then ok value else err (status code message)

abbrev pub count : Values → ℕ
count nil = 0
count (cons v vs) = suc (count vs)

abbrev pub items : Value → Outcome Values
items (arr vs) = ok vs
items _ = err malformed

-- `xs[0]`, `xs[1]` and `xs[2]` of a list of three.
abbrev pub triplet : Values → Outcome (Value × Value × Value)
triplet (cons a (cons b (cons c nil))) = ok (a, b, c)
triplet vs = err (length_not_3 (count vs))

abbrev pub as_code : Value → Outcome ℤ
as_code (int n) = ok n
as_code _ = err code_not_int

abbrev pub as_message : Value → Outcome Bytes
as_message (str s) = ok s
as_message _ = err message_not_string

-- `callRosAPI`, from what `xmlrpc.Call` returned.
unfoldable pub call_ros_api : Result CallError Value → Outcome Value
call_ros_api result = called result >>= λ v. items v >>= λ xs. triplet xs >>= λ (a, b, value).
    as_code a >>= λ code. as_message b >>= λ message. value_for code message value

-- `buildRosAPIResult`.
unfoldable pub build_ros_api_result : ℤ → Bytes → Value → Value
build_ros_api_result code message value =
    arr (cons (int code) (cons (str message) (cons value nil)))
