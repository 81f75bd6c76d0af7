-- ===== src/Node/Arguments/Given.antt =====
-- processArguments of ros/node.go, beside the arguments cut at their first `:=`.
use rosgo.Prelude.{
  ◌≡◌, ◌≢◌, ◌==◌, ==_iff, refl, sym, ap, ◌∙◌, true, false, List, [], ◌∷◌, ◌++◌, append_assoc,
  append-nil, Option, none, some, Bytes, codes, str_eq, str_eq_iff, if◌then◌else◌, arith, inl, inr,
  Bool-cases,
}
use rosgo.Name.{lookup}
use rosgo.Name.Remap.{lookup-insert}
use rosgo.Node.Arguments.Cut.{key_and_value, as_two, as_two-pieces}
use rosgo.Node.Arguments.{
  Arguments, pieces, has_prefix, is_special, is_underscored, behind_first, filed, process_from,
  process_arguments,
}

-- The value that the two parts of an argument give a key.
abbrev value_from : Bytes → Option (Bytes × Bytes) → Option Bytes → Option Bytes
value_from key none found = found
value_from key (some (k, v)) found = if str_eq k key then some v else found

abbrev value_of : Bytes → List Bytes → Option Bytes → Option Bytes
value_of key ps found = value_from key (as_two ps) found

-- The last value that the arguments give a key, or what was found before.
abbrev pub last_given : Bytes → Option Bytes → List Bytes → Option Bytes
last_given key found [] = found
last_given key found (arg ∷ args) = last_given key (value_from key (key_and_value arg) found) args

abbrev left_of : Bytes → Option (Bytes × Bytes) → List Bytes
left_of arg none = arg ∷ []
left_of arg (some _) = []

abbrev unsplit : Bytes → List Bytes → List Bytes
unsplit arg ps = left_of arg (as_two ps)

-- The arguments that have not two parts.
abbrev pub left_over : List Bytes → List Bytes
left_over [] = []
left_over (arg ∷ args) = left_of arg (key_and_value arg) ++ left_over args

equal_prefix : (p k key : Bytes) → str_eq k key ≡ true → has_prefix p k ≡ has_prefix p key
equal_prefix p k key e = ap (has_prefix p) ((str_eq_iff k key).0 e)

special_underscored : (k : Bytes) → is_special k ≡ true → is_underscored k ≡ true
unfolding has_prefix
special_underscored [] h = h
special_underscored (c ∷ []) h = ground (arith, h)
special_underscored (c ∷ d ∷ s) h = ground (arith, h)

mapping-filed :
    (a : Arguments) (arg key : Bytes) (ps : List Bytes)
    → is_underscored key ≡ false
    → lookup key (filed a arg ps).mapping ≡ value_of key ps (lookup key a.mapping)
mapping-filed a arg key (k ∷ v ∷ []) h = elim (Bool-cases (is_special k)) [
  | inl special ↦
      rw special
        (ground (arith, h, special, special_underscored k special, equal_prefix (codes "_") k key))
  | inr plain ↦ rw plain (elim (Bool-cases (is_underscored k)) [
    | inl under ↦ rw under (ground (arith, h, under, equal_prefix (codes "_") k key))
    | inr mapped ↦ rw mapped (lookup-insert k key v a.mapping)
  ])
]
mapping-filed a arg key ps h = refl

specials-filed :
    (a : Arguments) (arg key : Bytes) (ps : List Bytes)
    → is_special key ≡ true
    → lookup key (filed a arg ps).specials ≡ value_of key ps (lookup key a.specials)
specials-filed a arg key (k ∷ v ∷ []) h = elim (Bool-cases (is_special k)) [
  | inl special ↦ rw special (lookup-insert k key v a.specials)
  | inr plain ↦ rw plain (elim (Bool-cases (is_underscored k)) [
    | inl under ↦ rw under (ground (arith, h, plain, equal_prefix (codes "__") k key))
    | inr mapped ↦ rw mapped (ground (arith, h, plain, equal_prefix (codes "__") k key))
  ])
]
specials-filed a arg key ps h = refl

-- A parameter's key behind its underscore.
param_key :
    (k key : Bytes) → is_underscored k ≡ true → str_eq k (b'_' ∷ key) ≡ str_eq (behind_first k) key
unfolding has_prefix
param_key [] key h = absurd cc
param_key (c ∷ t) key h = ground (arith, h)

underscore_prefix : (key : Bytes) → is_special (b'_' ∷ key) ≡ is_underscored key
unfolding has_prefix
underscore_prefix [] = refl
underscore_prefix (c ∷ key) = refl

begins : (key : Bytes) → is_underscored (b'_' ∷ key) ≡ true
unfolding has_prefix
begins key = refl

params-filed :
    (a : Arguments) (arg key : Bytes) (ps : List Bytes)
    → is_underscored key ≡ false
    → lookup key (filed a arg ps).params ≡ value_of (b'_' ∷ key) ps (lookup key a.params)
params-filed a arg key (k ∷ v ∷ []) h = elim (Bool-cases (is_special k)) [
  | inl special ↦
      rw special (
        ground (arith, h, special, underscore_prefix key, equal_prefix (codes "__") k (b'_' ∷ key)))
  | inr plain ↦ rw plain (elim (Bool-cases (is_underscored k)) [
    | inl under ↦
        rw under (lookup-insert (behind_first k) key v a.params ∙ rw (param_key k key under) refl)
    | inr mapped ↦
        rw mapped (ground (arith, mapped, begins key, equal_prefix (codes "_") k (b'_' ∷ key)))
  ])
]
params-filed a arg key ps h = refl

rest-filed :
    (a : Arguments) (arg : Bytes) (ps : List Bytes)
    → (filed a arg ps).rest ≡ a.rest ++ unsplit arg ps
rest-filed a arg (k ∷ v ∷ []) = elim (Bool-cases (is_special k)) [
  | inl special ↦ rw special (sym (append-nil a.rest))
  | inr plain ↦ rw plain (elim (Bool-cases (is_underscored k)) [
    | inl under ↦ rw under (sym (append-nil a.rest))
    | inr mapped ↦ rw mapped (sym (append-nil a.rest))
  ])
]
rest-filed a arg ps = refl

-- A field of the arguments, after all of them.
module _ (field : Arguments → Option Bytes) (key : Bytes)
    (step : (a : Arguments) (arg : Bytes) (ps : List Bytes)
      → field (filed a arg ps) ≡ value_of key ps (field a)) where
  process_from-last :
      (a : Arguments) (args : List Bytes)
      → field (process_from a args) ≡ last_given key (field a) args
  unfolding process_from
  process_from-last a [] = refl
  process_from-last a (arg ∷ args) =
      process_from-last (filed a arg (pieces false arg)) args
      ∙ ap (λ found. last_given key found args)
          (step a arg (pieces false arg)
            ∙ ap (λ parts. value_from key parts (field a)) (as_two-pieces arg))

process_from-rest :
    (a : Arguments) (args : List Bytes) → (process_from a args).rest ≡ a.rest ++ left_over args
unfolding process_from
process_from-rest a [] = sym (append-nil a.rest)
process_from-rest a (arg ∷ args) =
    process_from-rest (filed a arg (pieces false arg)) args
    ∙ ap (λ r. r ++ left_over args) (rest-filed a arg (pieces false arg))
    ∙ append_assoc a.rest (unsplit arg (pieces false arg)) (left_over args)
    ∙ ap (λ parts. a.rest ++ (left_of arg parts ++ left_over args)) (as_two-pieces arg)

special_key : (key : Bytes) → is_special (b'_' ∷ b'_' ∷ key) ≡ true
unfolding has_prefix
special_key key = refl

no_underscore : (key : Bytes) → ((t : Bytes) → key ≢ b'_' ∷ t) → is_underscored key ≡ false
unfolding has_prefix
no_underscore [] h = refl
no_underscore (c ∷ key) h = elim (Bool-cases (c == b'_')) [
  | inl under ↦ absurd (h key (ap (λ d. d ∷ key) ((==_iff c b'_').0 under)))
  | inr other ↦ ground (arith, other)
]

-- For a key that begins with no underscore: of the arguments `key:=value` the last one is the remapping of
-- the key, of `_key:=value` the parameter, and of `__key:=value` the special name. The arguments that do
-- not hold `:=`, or hold it behind the first one as well, are left, in their order.
pub process_arguments-last_given :
    (args : List Bytes) (key : Bytes)
    → ((t : Bytes) → key ≢ b'_' ∷ t)
    → (lookup key (process_arguments args).mapping ≡ last_given key none args)
      × (lookup key (process_arguments args).params ≡ last_given (b'_' ∷ key) none args)
      × (lookup (b'_' ∷ b'_' ∷ key) (process_arguments args).specials
          ≡ last_given (b'_' ∷ b'_' ∷ key) none args)
      × ((process_arguments args).rest ≡ left_over args)
unfolding process_arguments
process_arguments-last_given args key clear =
    let h = no_underscore key clear in
    let a : Arguments = record { mapping = []; params = []; specials = []; rest = [] } in
    let special : Bytes = b'_' ∷ b'_' ∷ key in
    (
      process_from-last (λ a. lookup key a.mapping) key (λ a arg ps. mapping-filed a arg key ps h) a
            args
          ∙ unfold lookup in refl,
      process_from-last (λ a. lookup key a.params) (b'_' ∷ key)
            (λ a arg ps. params-filed a arg key ps h) a args
          ∙ unfold lookup in refl,
      process_from-last (λ a. lookup special a.specials) special
            (λ a arg ps. specials-filed a arg special ps (special_key key)) a args
          ∙ unfold lookup in refl,
      process_from-rest a args,
    )
