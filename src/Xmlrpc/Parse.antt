-- ===== src/Xmlrpc/Parse.antt =====
-- nextTag, expectNextTag, parseValue, parseRequest and parseResponse.
use rosgo.Prelude.{
  ℕ, zero, suc, ◌^◌, Bool, true, false, List, [], ◌∷◌, Option, none, some, Bytes, str_eq, ◌==◌,
  if◌then◌else◌, ok, err, stuck, ◌>>=◌,
}
use rosgo.Prelude.Int.{ℤ, pos}
use rosgo.Strconv.{parse_int0, parse_int10}
use rosgo.Strconv.Base64.{decode}
use rosgo.Xmlrpc.{
  Value, absent, boolean, int, double, str, base64, arr, struct, Values, nil, cons, Members,
  no_members, member, Tag, boolean_tag, i4_tag, int_tag, double_tag, string_tag, base64_tag,
  array_tag, data_tag, value_tag, struct_tag, member_tag, name_tag, method_call_tag,
  method_name_tag, params_tag, param_tag, method_response_tag, fault_tag, is, Token, start, end,
  chars, other, Floats, Outcome, no_token, name_mismatch, not_chars, bad_boolean, bad_int,
  bad_double, bad_base64, bad_string, empty_name, not_supported, invalid_data, missing_end,
}
use rosgo.Prelude.Space.{is_blank}

-- `Skip`: up to the end of the element that is open, with those that begin inside it.
unfoldable pub skip : ℕ → List Token → List Token
skip depth [] = []
skip depth (start _ ∷ ts) = skip (suc depth) ts
skip zero (end _ ∷ ts) = ts
skip (suc depth) (end _ ∷ ts) = skip depth ts
skip depth (_ ∷ ts) = skip depth ts

-- The end of a scalar, and that of its value.
abbrev pub leave : List Token → List Token
leave ts = skip 0 (skip 0 ts)

unfoldable pub next_tag : List Token → Outcome (Tag × List Token)
next_tag [] = err no_token
next_tag (start t ∷ ts) = ok (t, ts)
next_tag (_ ∷ ts) = next_tag ts

unfoldable pub expect_next_tag : Tag → List Token → Outcome (List Token)
expect_next_tag wanted ts =
    next_tag ts >>= λ (t, rest). if is wanted t then ok rest else err name_mismatch

abbrev pub characters : List Token → Outcome (Bytes × List Token)
characters [] = err no_token
characters (chars s ∷ ts) = ok (s, ts)
characters (_ ∷ ts) = err not_chars

abbrev pub truth : Option ℤ → Outcome Bool
truth (some (pos n)) = if n == 0 then ok false else if n == 1 then ok true else err bad_boolean
truth _ = err bad_boolean

abbrev pub int_from : Option ℤ → Outcome Value
int_from (some i) = ok (int i)
int_from none = err bad_int

abbrev pub double_from : Option ℕ → Outcome Value
double_from (some b) = ok (double b)
double_from none = err bad_double

abbrev pub base64_from : Option Bytes → Outcome Value
base64_from (some s) = ok (base64 s)
base64_from none = err bad_base64

-- A scalar whose text is read by `read`.
abbrev pub scalar : (Bytes → Outcome Value) → List Token → Outcome (Value × List Token)
scalar read ts = characters ts >>= λ (s, rest). read s >>= λ v. ok (v, leave rest)

abbrev pub string_element : List Token → Outcome (Value × List Token)
string_element [] = err no_token
string_element (chars s ∷ ts) = ok (str s, leave ts)
string_element (end t ∷ ts) = if is string_tag t then ok (str [], skip 0 ts) else err bad_string
string_element (_ ∷ ts) = err bad_string

abbrev pub array_element :
    (List Token → Outcome (Values × List Token)) → List Token → Outcome (Value × List Token)
array_element items ts = expect_next_tag data_tag ts >>= λ inside.
    items inside >>= λ (vs, rest). ok (arr vs, skip 0 rest)

abbrev pub struct_element :
    (List Token → Outcome (Members × List Token)) → List Token → Outcome (Value × List Token)
struct_element members ts = members ts >>= λ (ms, rest). ok (struct ms, skip 0 rest)

-- `m[name] = value`.
unfoldable pub set : Bytes → Value → Members → Members
set k v no_members = member k v no_members
set k v (member j w ms) = if str_eq j k then member j v ms else member j w (set k v ms)

-- The element of a value, with the loops over an array and over a struct.
abbrev pub value_element :
    Floats
    → (List Token → Outcome (Values × List Token))
    → (List Token → Outcome (Members × List Token))
    → Tag
    → List Token
    → Outcome (Value × List Token)
value_element f items members boolean_tag ts =
    scalar (λ s. truth (parse_int10 8 s) >>= λ b. ok (boolean b)) ts
value_element f items members i4_tag ts = scalar (λ s. int_from (parse_int0 (2 ^ 31) s)) ts
value_element f items members int_tag ts = scalar (λ s. int_from (parse_int0 (2 ^ 31) s)) ts
value_element f items members double_tag ts = scalar (λ s. double_from (f.parse_float s)) ts
value_element f items members string_tag ts = string_element ts
value_element f items members base64_tag ts = scalar (λ s. base64_from (decode s)) ts
value_element f items members array_tag ts = array_element items ts
value_element f items members struct_tag ts = struct_element members ts
value_element f items members _ ts = err not_supported

abbrev pub Reader : Type 0
Reader = List Token → Outcome (Value × List Token)

-- An element met in an array: a value, or another that is passed over.
abbrev pub item_started :
    Reader
    → (List Token → Outcome (Values × List Token))
    → Bool
    → List Token
    → Outcome (Values × List Token)
item_started value items true ts =
    value ts >>= λ (v, inside). items inside >>= λ (vs, rest). ok (cons v vs, rest)
item_started value items false ts = items ts

-- The loop over a struct carries the name and the value met last, and the map.
abbrev pub MembersReader : Type 0
MembersReader = Bytes → Value → Members → List Token → Outcome (Members × List Token)

abbrev pub named :
    (Bytes → List Token → Outcome (Members × List Token))
    → List Token
    → Outcome (Members × List Token)
named next [] = err no_token
named next (chars s ∷ ts) = next s ts
named next (_ ∷ ts) = err empty_name

abbrev pub member_started :
    Reader
    → MembersReader
    → Bytes
    → Value
    → Members
    → Tag
    → List Token
    → Outcome (Members × List Token)
member_started value loop k v m name_tag ts = named (λ s. loop s v m) ts
member_started value loop k v m value_tag ts = value ts >>= λ (w, rest). loop k w m rest
member_started value loop k v m _ ts = loop k v m ts

abbrev pub member_ended :
    MembersReader → Bytes → Value → Members → Tag → List Token → Outcome (Members × List Token)
member_ended loop k v m member_tag ts = loop k v (set k v m) ts
member_ended loop k v m struct_tag ts = ok (m, ts)
member_ended loop k v m _ ts = loop k v m ts

-- `parseValue`, and its loops over an array and over a struct. Each round takes a token.
unfoldable mutual
  pub parse_value : Floats → ℕ → List Token → Outcome (Value × List Token)
  parse_value f zero ts = stuck
  parse_value f (suc n) [] = err no_token
  parse_value f (suc n) (start t ∷ ts) =
      value_element f (parse_items f n) (parse_members f n [] absent no_members) t ts
  parse_value f (suc n) (chars s ∷ ts) =
      let again = parse_value f n ts in if is_blank s then again else ok (str s, skip 0 ts)
  parse_value f (suc n) (end _ ∷ ts) = ok (str [], ts)
  parse_value f (suc n) (other ∷ ts) = err invalid_data

  pub parse_items : Floats → ℕ → List Token → Outcome (Values × List Token)
  parse_items f zero ts = stuck
  parse_items f (suc n) [] = err no_token
  parse_items f (suc n) (start t ∷ ts) =
      item_started (parse_value f n) (parse_items f n) (is value_tag t) ts
  parse_items f (suc n) (end t ∷ ts) =
      let onward = parse_items f n ts in if is array_tag t then ok (nil, ts) else onward
  parse_items f (suc n) (chars _ ∷ ts) = parse_items f n ts
  parse_items f (suc n) (other ∷ ts) = parse_items f n ts

  pub parse_members :
      Floats → ℕ → Bytes → Value → Members → List Token → Outcome (Members × List Token)
  parse_members f zero k v m ts = stuck
  parse_members f (suc n) k v m [] = err no_token
  parse_members f (suc n) k v m (start t ∷ ts) =
      member_started (parse_value f n) (parse_members f n) k v m t ts
  parse_members f (suc n) k v m (end t ∷ ts) = member_ended (parse_members f n) k v m t ts
  parse_members f (suc n) k v m (chars _ ∷ ts) = parse_members f n k v m ts
  parse_members f (suc n) k v m (other ∷ ts) = parse_members f n k v m ts

-- The name of a method: text that is missing leaves the empty name, since the error is lost.
abbrev pub method_name : List Token → Outcome (Bytes × List Token)
method_name [] = err no_token
method_name (chars s ∷ ts) = ok (s, ts)
method_name (_ ∷ ts) = ok ([], ts)

abbrev pub argument :
    Reader → (List Token → Outcome (List Value)) → Bool → List Token → Outcome (List Value)
argument value loop true ts = value ts >>= λ (v, inside). loop inside >>= λ vs. ok (v ∷ vs)
argument value loop false ts = loop ts

-- The loop over the parameters. The error of `Token` is not looked at, so where the tokens end before the
-- parameters do, it turns for ever; that is `stuck` too.
unfoldable pub parse_args : Floats → ℕ → List Token → Outcome (List Value)
parse_args f zero ts = stuck
parse_args f (suc n) [] = stuck
parse_args f (suc n) (start t ∷ ts) =
    argument (parse_value f n) (parse_args f n) (is value_tag t) ts
parse_args f (suc n) (end t ∷ ts) =
    let onward = parse_args f n ts in if is params_tag t then ok [] else onward
parse_args f (suc n) (_ ∷ ts) = parse_args f n ts

unfoldable pub parse_request : Floats → ℕ → List Token → Outcome (Bytes × List Value)
parse_request f n ts = expect_next_tag method_call_tag ts >>= λ a.
    expect_next_tag method_name_tag a >>= λ b. method_name b >>= λ (name, c).
    expect_next_tag params_tag c >>= λ d. parse_args f n d >>= λ args. ok (name, args)

-- Whether the response is a value or a fault, and which.
abbrev pub response_body : Floats → ℕ → Tag → List Token → Outcome (Bool × Value)
response_body f n params_tag ts = expect_next_tag param_tag ts >>= λ a.
    expect_next_tag value_tag a >>= λ b. parse_value f n b >>= λ (v, rest). ok (true, v)
response_body f n fault_tag ts =
    expect_next_tag value_tag ts >>= λ a. parse_value f n a >>= λ (v, rest). ok (false, v)
response_body f n _ ts = err missing_end

unfoldable pub parse_response : Floats → ℕ → List Token → Outcome (Bool × Value)
parse_response f n ts = expect_next_tag method_response_tag ts >>= λ a.
    next_tag a >>= λ (t, rest). response_body f n t rest
