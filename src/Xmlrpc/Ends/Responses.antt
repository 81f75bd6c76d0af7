-- ===== src/Xmlrpc/Ends/Responses.antt =====
-- xmlrpc/xmlrpc.go: parseResponse, and the loop of parseRequest over the parameters: their rounds.
use rosgo.Prelude.{
  ℕ, zero, suc, ◌≡◌, ◌≢◌, ◌≤◌, ◌<◌, refl, sym, Bool, true, false, List, [], ◌∷◌, length, All, ok,
  err, stuck, ◌>>=◌, >>=-eq-ok, >>=-ne-stuck, if◌then◌else◌, arith,
}
use rosgo.Xmlrpc.{
  Value, Tag, params_tag, param_tag, fault_tag, value_tag, method_response_tag, is, Token, start,
  end, chars, other, Floats, Outcome, name_mismatch,
}
use rosgo.Xmlrpc.Parse.{
  next_tag, expect_next_tag, parse_value, parse_args, response_body, parse_response,
}
use rosgo.Xmlrpc.Ends.{next_tag-Ends}
use rosgo.Xmlrpc.Ends.Loops.{parse_value_ends}

chosen_left :
    (b : Bool) (rest r : List Token)
    → ◌≡◌ {A = Outcome (List Token)} (if b then ok rest else err name_mismatch) (ok r)
    → rest ≡ r
chosen_left true rest r e = cc
chosen_left false rest r e = cc

chosen_ends :
    (b : Bool) (rest : List Token)
    → ◌≢◌ {A = Outcome (List Token)} (if b then ok rest else err name_mismatch) stuck
chosen_ends true rest e = cc
chosen_ends false rest e = cc

expect_ends : (t : Tag) (ts : List Token) → expect_next_tag t ts ≢ stuck
unfolding expect_next_tag
expect_ends t ts =
    >>=-ne-stuck (next_tag ts) _ (next_tag-Ends ts).ends (λ p e. chosen_ends (is t p.0) p.1)

expect_left : (t : Tag) (ts r : List Token) → expect_next_tag t ts ≡ ok r → length r ≤ length ts
unfolding expect_next_tag
expect_left t ts r e =
    let (p, met, h) = >>=-eq-ok (next_tag ts) _ e in
    let same = chosen_left (is t p.0) p.1 r h in rw (sym same) ((next_tag-Ends ts).left p.0 p.1 met)

-- A value that is read last.
last_value :
    (f : Floats) (n : ℕ) (b : Bool) (ts : List Token)
    → length ts < n
    → ◌≢◌ {A = Outcome (Bool × Value)} (parse_value f n ts >>= λ (v, rest). ok (b, v)) stuck
last_value f n b ts l =
    >>=-ne-stuck (parse_value f n ts) _ (parse_value_ends f n ts l).0 (λ p e x. cc)

response_body_ends :
    (f : Floats) (n : ℕ) (t : Tag) (ts : List Token)
    → length ts < n
    → response_body f n t ts ≢ stuck
response_body_ends f n params_tag ts l =
    >>=-ne-stuck (expect_next_tag param_tag ts) _ (expect_ends param_tag ts) (λ a p.
      >>=-ne-stuck (expect_next_tag value_tag a) _ (expect_ends value_tag a) (λ b q.
        last_value f n true b
          (omega (arith, l, expect_left param_tag ts a p, expect_left value_tag a b q))))
response_body_ends f n fault_tag ts l =
    >>=-ne-stuck (expect_next_tag value_tag ts) _ (expect_ends value_tag ts)
      (λ a p. last_value f n false a (omega (arith, l, expect_left value_tag ts a p)))
response_body_ends f n _ ts l = λ e. cc

-- parseResponse ends on every response, well formed or not.
pub parse_response_ends :
    (f : Floats) (ts : List Token) → parse_response f (suc (length ts)) ts ≢ stuck
unfolding parse_response
parse_response_ends f ts =
    >>=-ne-stuck (expect_next_tag method_response_tag ts) _ (expect_ends method_response_tag ts)
      (λ a p. >>=-ne-stuck (next_tag a) _ (next_tag-Ends a).ends (λ q e.
        response_body_ends f (suc (length ts)) q.0 q.1 (
          omega (arith, expect_left method_response_tag ts a p, (next_tag-Ends a).left q.0 q.1 e))))

-- A token that neither begins a value nor ends the parameters.
abbrev pub Between : Token → Type 0
Between (start t) = is value_tag t ≡ false
Between (end t) = is params_tag t ≡ false
Between (chars _) = Unit
Between other = Unit

-- The loop over the parameters of a request turns for ever where the tokens end, or fail, between two
-- values: with no number of rounds does it return.
pub parse_args_hangs :
    (f : Floats) (ts : List Token) → All Between ts → (n : ℕ) → parse_args f n ts ≡ stuck
unfolding parse_args
parse_args_hangs f ts h zero = refl
parse_args_hangs f [] h (suc n) = refl
parse_args_hangs f (start t ∷ ts) h (suc n) = rw h.0 (parse_args_hangs f ts h.1 n)
parse_args_hangs f (end t ∷ ts) h (suc n) = rw h.0 (parse_args_hangs f ts h.1 n)
parse_args_hangs f (chars s ∷ ts) h (suc n) = parse_args_hangs f ts h.1 n
parse_args_hangs f (other ∷ ts) h (suc n) = parse_args_hangs f ts h.1 n
