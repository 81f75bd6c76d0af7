-- ===== src/Xmlrpc/Ends.antt =====
-- xmlrpc/xmlrpc.go: the rounds of parseValue and of the functions around it.
pub mod Loops
pub mod Responses
use rosgo.Prelude.{
  ℕ, zero, suc, ◌+◌, ◌≡◌, ◌≢◌, ◌≤◌, ◌<◌, refl, ap, Bool, true, false, List, [], ◌∷◌, length, Option,
  none, some, Bytes, Result, ok, err, panic, stuck, ◌>>=◌, if◌then◌else◌, arith, inl, inr,
  Bool-cases,
}
use rosgo.Prelude.Int.{ℤ, pos, negsuc}
use rosgo.Strconv.{parse_int0, parse_int10}
use rosgo.Strconv.Base64.{decode}
use rosgo.Xmlrpc.{
  Value, absent, boolean, str, Values, nil, Members, no_members, Tag, boolean_tag, i4_tag, int_tag,
  double_tag, string_tag, base64_tag, array_tag, data_tag, value_tag, struct_tag, member_tag,
  name_tag, params_tag, param_tag, fault_tag, method_response_tag, is, Token, start, end, chars,
  other, Error, Floats, Outcome, arr, struct, name_mismatch, cons,
}
use rosgo.Prelude.Space.{is_blank}
use rosgo.Xmlrpc.Parse.{
  skip, leave, next_tag, expect_next_tag, characters, truth, int_from, double_from, base64_from,
  scalar, string_element, array_element, struct_element, value_element, set, Reader, item_started,
  named, MembersReader, member_started, member_ended, parse_value, parse_items, parse_members,
  response_body, parse_response,
}

-- A call that ends, and leaves no more than `b` tokens.
pub record Ends {ℓ} {A : Type ℓ} (b : ℕ) (p : Outcome (A × List Token)) : Type ℓ where
  pub ends : p ≢ stuck
  pub left : (a : A) (r : List Token) → p ≡ ok (a, r) → length r ≤ b

module _ {ℓ} {A : Type ℓ} where
  pub ok-Ends : (b : ℕ) (a : A) (r : List Token) → length r ≤ b → Ends b (ok (a, r))
  ok-Ends b a r h = record {
    ends = λ e. cc;
    left = λ a' r' e. let same : r ≡ r' = cc in omega (arith, h, ap length same);
  }

  pub err-Ends : (b : ℕ) (e : Error) → Ends {A = A} b (err e)
  err-Ends b e = record { ends = λ x. cc; left = λ a r x. cc }

  pub more-Ends : (b c : ℕ) (p : Outcome (A × List Token)) → Ends b p → b ≤ c → Ends c p
  more-Ends b c p h l = record { ends = h.ends; left = λ a r e. omega (arith, l, h.left a r e) }

pub then-Ends {ℓ κ} :
    {A : Type ℓ} {B : Type κ} (b c : ℕ) (p : Outcome (A × List Token))
    (k : A → List Token → Outcome (B × List Token))
    → Ends b p
    → ((a : A) (r : List Token) → length r ≤ b → Ends c (k a r))
    → Ends c (p >>= λ (a, r). k a r)
then-Ends b c (ok (a, r)) k h g = g a r (h.left a r refl)
then-Ends b c (err e) k h g = err-Ends c e
then-Ends b c panic k h g = record { ends = λ x. cc; left = λ a r x. cc }
then-Ends b c stuck k h g = absurd (h.ends refl)

pub length-skip : (d : ℕ) (ts : List Token) → length (skip d ts) ≤ length ts
unfolding skip
length-skip d [] = omega arith
length-skip d (start t ∷ ts) = omega (arith, length-skip (suc d) ts)
length-skip zero (end t ∷ ts) = omega arith
length-skip (suc d) (end t ∷ ts) = omega (arith, length-skip d ts)
length-skip zero (chars s ∷ ts) = omega (arith, length-skip zero ts)
length-skip (suc d) (chars s ∷ ts) = omega (arith, length-skip (suc d) ts)
length-skip zero (other ∷ ts) = omega (arith, length-skip zero ts)
length-skip (suc d) (other ∷ ts) = omega (arith, length-skip (suc d) ts)

length-leave : (ts : List Token) → length (leave ts) ≤ length ts
length-leave ts = omega (arith, length-skip 0 (skip 0 ts), length-skip 0 ts)

pub next_tag-Ends : (ts : List Token) → Ends (length ts) (next_tag ts)
unfolding next_tag
next_tag-Ends [] = err-Ends _ _
next_tag-Ends (start t ∷ ts) = ok-Ends _ t ts (omega arith)
next_tag-Ends (end t ∷ ts) = more-Ends (length ts) _ _ (next_tag-Ends ts) (omega arith)
next_tag-Ends (chars s ∷ ts) = more-Ends (length ts) _ _ (next_tag-Ends ts) (omega arith)
next_tag-Ends (other ∷ ts) = more-Ends (length ts) _ _ (next_tag-Ends ts) (omega arith)

expected-Ends {ℓ} :
    {A : Type ℓ} (c : ℕ) (t : Tag) (p : Outcome (Tag × List Token)) (ts : List Token)
    (k : List Token → Outcome (A × List Token))
    → Ends (length ts) p
    → ((r : List Token) → length r ≤ length ts → Ends c (k r))
    → Ends c ((p >>= λ (u, rest). if is t u then ok rest else err name_mismatch) >>= k)
expected-Ends c t (ok (u, rest)) ts k e h = elim (Bool-cases (is t u)) [
  | inl same ↦ rw same (h rest (e.left u rest refl))
  | inr off ↦ rw off (err-Ends c name_mismatch)
]
expected-Ends c t (err x) ts k e h = err-Ends c x
expected-Ends c t panic ts k e h = record { ends = λ x. cc; left = λ a r x. cc }
expected-Ends c t stuck ts k e h = absurd (e.ends refl)

pub expect-Ends {ℓ} :
    {A : Type ℓ} (c : ℕ) (t : Tag) (ts : List Token) (k : List Token → Outcome (A × List Token))
    → ((r : List Token) → length r ≤ length ts → Ends c (k r))
    → Ends c (expect_next_tag t ts >>= k)
unfolding expect_next_tag
expect-Ends c t ts k h = expected-Ends c t (next_tag ts) ts k (next_tag-Ends ts) h

characters-Ends : (ts : List Token) → Ends (length ts) (characters ts)
characters-Ends [] = err-Ends _ _
characters-Ends (chars s ∷ ts) = ok-Ends _ s ts (omega arith)
characters-Ends (start t ∷ ts) = err-Ends _ _
characters-Ends (end t ∷ ts) = err-Ends _ _
characters-Ends (other ∷ ts) = err-Ends _ _

read_value-Ends :
    (b : ℕ) (o : Outcome Value) (r : List Token)
    → o ≢ stuck
    → length r ≤ b
    → Ends b (o >>= λ v. ok (v, r))
read_value-Ends b (ok v) r h l = ok-Ends b v r l
read_value-Ends b (err e) r h l = err-Ends b e
read_value-Ends b panic r h l = record { ends = λ x. cc; left = λ a q x. cc }
read_value-Ends b stuck r h l = absurd (h refl)

pub scalar-Ends :
    (read : Bytes → Outcome Value) (ts : List Token)
    → ((s : Bytes) → read s ≢ stuck)
    → Ends (length ts) (scalar read ts)
scalar-Ends read ts h =
    then-Ends (length ts) (length ts) (characters ts) (λ s rest. read s >>= λ v. ok (v, leave rest))
      (characters-Ends ts)
      (λ s rest l.
        read_value-Ends (length ts) (read s) (leave rest) (h s)
          (omega (arith, l, length-leave rest)))

pub truth-ends : (o : Option ℤ) → (truth o >>= λ b. ok (boolean b)) ≢ stuck
truth-ends none e = cc
truth-ends (some (negsuc n)) e = cc
truth-ends (some (pos n)) e = ground (arith, e)

pub int_from-ends : (o : Option ℤ) → int_from o ≢ stuck
int_from-ends none e = cc
int_from-ends (some i) e = cc

pub double_from-ends : (o : Option ℕ) → double_from o ≢ stuck
double_from-ends none e = cc
double_from-ends (some i) e = cc

pub base64_from-ends : (o : Option Bytes) → base64_from o ≢ stuck
base64_from-ends none e = cc
base64_from-ends (some i) e = cc

pub string_element-Ends : (ts : List Token) → Ends (length ts) (string_element ts)
string_element-Ends [] = err-Ends _ _
string_element-Ends (chars s ∷ ts) = ok-Ends _ _ _ (omega (arith, length-leave ts))
string_element-Ends (start t ∷ ts) = err-Ends _ _
string_element-Ends (other ∷ ts) = err-Ends _ _
string_element-Ends (end t ∷ ts) = elim (Bool-cases (is string_tag t)) [
  | inl same ↦ rw same (ok-Ends _ _ _ (omega (arith, length-skip 0 ts)))
  | inr off ↦ rw off (err-Ends _ _)
]
