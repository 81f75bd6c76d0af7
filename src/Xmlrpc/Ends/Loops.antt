-- ===== src/Xmlrpc/Ends/Loops.antt =====
-- The loops of parseValue, and parseResponse.
use rosgo.Prelude.{
  ℕ, zero, suc, ◌^◌, ◌≡◌, ◌≢◌, ◌≤◌, ◌<◌, Bool, true, false, List, [], ◌∷◌, length, Bytes, ok, stuck,
  ◌>>=◌, arith, inl, inr, Bool-cases,
}
use rosgo.Strconv.{parse_int0, parse_int10}
use rosgo.Strconv.Base64.{decode}
use rosgo.Xmlrpc.{
  Value, absent, Members, no_members, Tag, boolean_tag, i4_tag, int_tag, double_tag, string_tag,
  base64_tag, array_tag, data_tag, value_tag, struct_tag, member_tag, name_tag, is, Token, start,
  end, chars, other, Floats, arr, struct, cons,
}
use rosgo.Prelude.Space.{is_blank}
use rosgo.Xmlrpc.Parse.{
  skip, array_element, struct_element, value_element, set, item_started, named, member_started,
  member_ended, parse_value, parse_items, parse_members,
}
use rosgo.Xmlrpc.Ends.{
  Ends, ok-Ends, err-Ends, more-Ends, then-Ends, expect-Ends, scalar-Ends, truth-ends,
  int_from-ends, double_from-ends, base64_from-ends, string_element-Ends, length-skip,
}

-- The loops of `n` rounds end on fewer than `n` tokens.
record Loops (f : Floats) (n : ℕ) : Type 0 where
  value : (ts : List Token) → length ts < n → Ends (length ts) (parse_value f n ts)
  items : (ts : List Token) → length ts < n → Ends (length ts) (parse_items f n ts)
  members :
      (k : Bytes) (v : Value) (m : Members) (ts : List Token)
      → length ts < n
      → Ends (length ts) (parse_members f n k v m ts)

array-Ends :
    (f : Floats) (n : ℕ)
    → Loops f n
    → (ts : List Token) → length ts < n
    → Ends (length ts) (array_element (parse_items f n) ts)
array-Ends f n h ts l = expect-Ends (length ts) data_tag ts _ (λ r q.
    then-Ends (length r) (length ts) (parse_items f n r) (λ vs rest. ok (arr vs, skip 0 rest))
      (h.items r (omega (arith, q, l)))
      (λ vs rest p. ok-Ends _ _ _ (omega (arith, p, q, length-skip 0 rest))))

struct-Ends :
    (f : Floats) (n : ℕ)
    → Loops f n
    → (ts : List Token) → length ts < n
    → Ends (length ts) (struct_element (parse_members f n [] absent no_members) ts)
struct-Ends f n h ts l =
    then-Ends (length ts) (length ts) (parse_members f n [] absent no_members ts)
      (λ ms rest. ok (struct ms, skip 0 rest)) (h.members [] absent no_members ts l)
      (λ ms rest p. ok-Ends _ _ _ (omega (arith, p, length-skip 0 rest)))

element-Ends :
    (f : Floats) (n : ℕ)
    → Loops f n
    → (t : Tag) (ts : List Token) → length ts < n
    → Ends
        (length ts)
        (value_element f (parse_items f n) (parse_members f n [] absent no_members) t ts)
element-Ends f n h boolean_tag ts l = scalar-Ends _ ts (λ s. truth-ends (parse_int10 8 s))
element-Ends f n h i4_tag ts l = scalar-Ends _ ts (λ s. int_from-ends (parse_int0 (2 ^ 31) s))
element-Ends f n h int_tag ts l = scalar-Ends _ ts (λ s. int_from-ends (parse_int0 (2 ^ 31) s))
element-Ends f n h double_tag ts l = scalar-Ends _ ts (λ s. double_from-ends (f.parse_float s))
element-Ends f n h string_tag ts l = string_element-Ends ts
element-Ends f n h base64_tag ts l = scalar-Ends _ ts (λ s. base64_from-ends (decode s))
element-Ends f n h array_tag ts l = array-Ends f n h ts l
element-Ends f n h struct_tag ts l = struct-Ends f n h ts l
element-Ends f n h _ ts l = err-Ends _ _

parse_value-Ends :
    (f : Floats) (n : ℕ)
    → Loops f n
    → (ts : List Token) → length ts < suc n
    → Ends (length ts) (parse_value f (suc n) ts)
unfolding parse_value
parse_value-Ends f n h [] l = err-Ends _ _
parse_value-Ends f n h (start t ∷ ts) l =
    more-Ends (length ts) _ _ (element-Ends f n h t ts (omega (arith, l))) (omega arith)
parse_value-Ends f n h (chars s ∷ ts) l = elim (Bool-cases (is_blank s)) [
  | inl blank ↦ rw blank (more-Ends (length ts) _ _ (h.value ts (omega (arith, l))) (omega arith))
  | inr full ↦ rw full (ok-Ends _ _ _ (omega (arith, length-skip 0 ts)))
]
parse_value-Ends f n h (end t ∷ ts) l = ok-Ends _ _ _ (omega arith)
parse_value-Ends f n h (other ∷ ts) l = err-Ends _ _

item-Ends :
    (f : Floats) (n : ℕ)
    → Loops f n
    → (b : Bool) (ts : List Token) → length ts < n
    → Ends (length ts) (item_started (parse_value f n) (parse_items f n) b ts)
item-Ends f n h false ts l = h.items ts l
item-Ends f n h true ts l =
    then-Ends (length ts) (length ts) (parse_value f n ts)
      (λ v inside. parse_items f n inside >>= λ (vs, rest). ok (cons v vs, rest)) (h.value ts l)
      (λ v inside p.
        then-Ends (length inside) (length ts) (parse_items f n inside)
          (λ vs rest. ok (cons v vs, rest)) (h.items inside (omega (arith, p, l)))
          (λ vs rest q. ok-Ends _ _ _ (omega (arith, p, q))))

parse_items-Ends :
    (f : Floats) (n : ℕ)
    → Loops f n
    → (ts : List Token) → length ts < suc n
    → Ends (length ts) (parse_items f (suc n) ts)
unfolding parse_items
parse_items-Ends f n h [] l = err-Ends _ _
parse_items-Ends f n h (start t ∷ ts) l =
    more-Ends (length ts) _ _ (item-Ends f n h (is value_tag t) ts (omega (arith, l))) (omega arith)
parse_items-Ends f n h (end t ∷ ts) l = elim (Bool-cases (is array_tag t)) [
  | inl same ↦ rw same (ok-Ends _ _ _ (omega arith))
  | inr off ↦ rw off (more-Ends (length ts) _ _ (h.items ts (omega (arith, l))) (omega arith))
]
parse_items-Ends f n h (chars s ∷ ts) l =
    more-Ends (length ts) _ _ (h.items ts (omega (arith, l))) (omega arith)
parse_items-Ends f n h (other ∷ ts) l =
    more-Ends (length ts) _ _ (h.items ts (omega (arith, l))) (omega arith)

named-Ends :
    (f : Floats) (n : ℕ)
    → Loops f n
    → (v : Value) (m : Members) (ts : List Token) → length ts < n
    → Ends (length ts) (named (λ s. parse_members f n s v m) ts)
named-Ends f n h v m [] l = err-Ends _ _
named-Ends f n h v m (chars s ∷ ts) l =
    more-Ends (length ts) _ _ (h.members s v m ts (omega (arith, l))) (omega arith)
named-Ends f n h v m (start t ∷ ts) l = err-Ends _ _
named-Ends f n h v m (end t ∷ ts) l = err-Ends _ _
named-Ends f n h v m (other ∷ ts) l = err-Ends _ _

started-Ends :
    (f : Floats) (n : ℕ)
    → Loops f n
    → (k : Bytes) (v : Value) (m : Members) (t : Tag) (ts : List Token) → length ts < n
    → Ends (length ts) (member_started (parse_value f n) (parse_members f n) k v m t ts)
started-Ends f n h k v m name_tag ts l = named-Ends f n h v m ts l
started-Ends f n h k v m value_tag ts l =
    then-Ends (length ts) (length ts) (parse_value f n ts) (λ w rest. parse_members f n k w m rest)
      (h.value ts l)
      (λ w rest p. more-Ends (length rest) _ _ (h.members k w m rest (omega (arith, p, l))) p)
started-Ends f n h k v m _ ts l = h.members k v m ts l

ended-Ends :
    (f : Floats) (n : ℕ)
    → Loops f n
    → (k : Bytes) (v : Value) (m : Members) (t : Tag) (ts : List Token) → length ts < n
    → Ends (length ts) (member_ended (parse_members f n) k v m t ts)
ended-Ends f n h k v m member_tag ts l = h.members k v (set k v m) ts l
ended-Ends f n h k v m struct_tag ts l = ok-Ends _ _ _ (omega arith)
ended-Ends f n h k v m _ ts l = h.members k v m ts l

parse_members-Ends :
    (f : Floats) (n : ℕ)
    → Loops f n
    → (k : Bytes) (v : Value) (m : Members) (ts : List Token) → length ts < suc n
    → Ends (length ts) (parse_members f (suc n) k v m ts)
unfolding parse_members
parse_members-Ends f n h k v m [] l = err-Ends _ _
parse_members-Ends f n h k v m (start t ∷ ts) l =
    more-Ends (length ts) _ _ (started-Ends f n h k v m t ts (omega (arith, l))) (omega arith)
parse_members-Ends f n h k v m (end t ∷ ts) l =
    more-Ends (length ts) _ _ (ended-Ends f n h k v m t ts (omega (arith, l))) (omega arith)
parse_members-Ends f n h k v m (chars s ∷ ts) l =
    more-Ends (length ts) _ _ (h.members k v m ts (omega (arith, l))) (omega arith)
parse_members-Ends f n h k v m (other ∷ ts) l =
    more-Ends (length ts) _ _ (h.members k v m ts (omega (arith, l))) (omega arith)

all-Loops : (f : Floats) (n : ℕ) → Loops f n
all-Loops f zero = record {
  value = λ ts l. absurd (omega (arith, l));
  items = λ ts l. absurd (omega (arith, l));
  members = λ k v m ts l. absurd (omega (arith, l));
}
all-Loops f (suc n) = record {
  value = parse_value-Ends f n (all-Loops f n);
  items = parse_items-Ends f n (all-Loops f n);
  members = parse_members-Ends f n (all-Loops f n);
}

-- On every input of fewer than `n` tokens parseValue ends, with a value or an error, and leaves no more
-- tokens than it was given.
pub parse_value_ends :
    (f : Floats) (n : ℕ) (ts : List Token)
    → length ts < n
    → (parse_value f n ts ≢ stuck)
      × ((v : Value) (rest : List Token)
          → parse_value f n ts ≡ ok (v, rest)
          → length rest ≤ length ts)
parse_value_ends f n ts l = let e = (all-Loops f n).value ts l in (e.ends, e.left)
