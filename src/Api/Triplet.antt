-- ===== src/Api/Triplet.antt =====
-- `callRosAPI` and `buildRosAPIResult` of ros/master.go, one behind the other.
use rosgo.Prelude.{
  ℕ, ◌==◌, ==_iff, ◌≡◌, ◌↔◌, refl, ap, Bool, true, false, Bytes, if◌then◌else◌, Result, ok, err,
  >>=-eq-ok,
}
use rosgo.Prelude.Int.{ℤ, pos, negsuc}
use rosgo.Xmlrpc.{Value, int, str, arr, Values, nil, cons}
use rosgo.Xmlrpc.Calls.{CallError}
use rosgo.Api.{
  status, called, items, triplet, as_code, as_message, value_for, call_ros_api,
  build_ros_api_result,
}

-- The triplet of a list of three values, and no other list, is taken apart.
triplet-ok :
    (xs : Values) (a b c : Value) → triplet xs ≡ ok (a, b, c) → xs ≡ cons a (cons b (cons c nil))
triplet-ok (cons x (cons y (cons z nil))) a b c h = cc
triplet-ok xs a b c h = cc

items-ok : (v : Value) (xs : Values) → items v ≡ ok xs → v ≡ arr xs
items-ok (arr vs) xs h = cc
items-ok v xs h = cc

as_code-ok : (v : Value) (n : ℤ) → as_code v ≡ ok n → v ≡ int n
as_code-ok (int m) n h = cc
as_code-ok v n h = cc

as_message-ok : (v : Value) (s : Bytes) → as_message v ≡ ok s → v ≡ str s
as_message-ok (str m) s h = cc
as_message-ok v s h = cc

chosen :
    (n : ℕ) (m : Bytes) (a v : Value) (b : Bool)
    → (n == 1) ≡ b
    → (if b then ok a else err (status (pos n) m)) ≡ ok v
    → (pos n ≡ pos 1) × (a ≡ v)
chosen n m a v true e h = (ap pos ((==_iff n 1).0 e), cc)
chosen n m a v false e h = cc

value_for-ok :
    (code : ℤ) (m : Bytes) (a v : Value) → value_for code m a ≡ ok v → (code ≡ pos 1) × (a ≡ v)
value_for-ok (pos n) m a v h = chosen n m a v (n == 1) refl h
value_for-ok (negsuc n) m a v h = cc

called-ok : (r : Result CallError Value) (v : Value) → called r ≡ ok v → r ≡ ok v
called-ok (ok a) v h = cc
called-ok r v h = cc

joined :
    (r : Result CallError Value) (v a b c : Value) (xs : Values) (code : ℤ) (message : Bytes)
    (value : Value)
    → r ≡ ok v
    → v ≡ arr xs
    → xs ≡ cons a (cons b (cons c nil))
    → a ≡ int code
    → b ≡ str message
    → (code ≡ pos 1) × (c ≡ value)
    → r ≡ ok (build_ros_api_result (pos 1) message value)
unfolding build_ros_api_result
joined r v a b c xs code message value e1 e2 e3 e4 e5 e6 = rw (e1, e2, e3, e4, e5, e6.0, e6.1)

accepted :
    (r : Result CallError Value) (value : Value)
    → call_ros_api r ≡ ok value
    → (message : Bytes) × (r ≡ ok (build_ros_api_result (pos 1) message value))
unfolding call_ros_api
accepted r value h =
    let (v, rv, h1) = >>=-eq-ok (called r) _ h in
    let (xs, vx, h2) = >>=-eq-ok (items v) _ h1 in
    let (t, xt, h3) = >>=-eq-ok (triplet xs) _ h2 in
    let (code, ac, h4) = >>=-eq-ok (as_code t.0) _ h3 in
    let (message, bm, h5) = >>=-eq-ok (as_message t.1) _ h4 in
    (
      message,
      joined r v t.0 t.1 t.2 xs code message value (called-ok r v rv) (items-ok v xs vx)
          (triplet-ok xs t.0 t.1 t.2 xt) (as_code-ok t.0 code ac) (as_message-ok t.1 message bm)
          (value_for-ok code message t.2 value h5),
    )

-- A call of the API returns a value just if the XML-RPC call returned what `buildRosAPIResult`
-- builds from the success code, some message and that value.
pub call_ros_api-build_ros_api_result :
    (r : Result CallError Value) (value : Value)
    → (call_ros_api r ≡ ok value)
      ↔ ((message : Bytes) × (r ≡ ok (build_ros_api_result (pos 1) message value)))
unfolding call_ros_api build_ros_api_result
call_ros_api-build_ros_api_result r value = (accepted r value, λ (message, e). rw e)
