-- ===== src/Subscriber/Connections.antt =====
-- ros/subscriber.go: the address at which a publisher is connected, before and after the loops over the
-- publishers that are gone and over the new ones.
use rosgo.Prelude.{
  Bool, true, false, ◌||◌, inl, inr, Bool-cases, ◌≡◌, refl, sym, ap, ◌∙◌, List, [], ◌∷◌, Option,
  none, some, Bytes, str_eq, str_eq_iff, if◌then◌else◌, ok, err, panic, arith, >>=-eq-ok,
}
use rosgo.Name.{lookup}
use rosgo.Subscriber.{
  Outcome, blocked, Request, failed, unsupported, malformed, tcpros, member, keys, delete,
  quit_dead, answered, connect_new,
}

-- The address that an answer gives.
abbrev pub offered : Request → Option Bytes
offered (tcpros uri) = some uri
offered _ = none

abbrev pub or_else : Option Bytes → Option Bytes → Option Bytes
or_else none found = found
or_else (some uri) found = some uri

pub or_else-none : (a : Option Bytes) → or_else a none ≡ a
or_else-none none = refl
or_else-none (some uri) = refl

-- A key that no entry has is not found.
pub lookup_absent :
    (k : Bytes) (m : List (Bytes × Bytes)) → member k (keys m) ≡ false → lookup k m ≡ none
unfolding lookup member
lookup_absent k [] h = refl
lookup_absent k ((j, v) ∷ m) h = elim (Bool-cases (str_eq j k)) [
  | inl here ↦ absurd (ground (arith, h, here))
  | inr there ↦ rw there (lookup_absent k m (ground (arith, h, there)))
]

pub other_than : (j k p : Bytes) → str_eq j p ≡ false → str_eq j k ≡ true → str_eq p k ≡ false
other_than j k p h g = elim (Bool-cases (str_eq p k)) [
  | inl same ↦
      absurd (
        true-ne-false ((str_eq_iff j p).1 ((str_eq_iff j k).0 g ∙ sym ((str_eq_iff p k).0 same))) h)
  | inr other ↦ other
]
  where
    true-ne-false : {b : Bool} → b ≡ true → b ≡ false → ⊥
    true-ne-false h g = cc

same_if :
    (b : Bool) (x y : Option Bytes)
    → (if b then none else y) ≡ (if b then none else (if b then x else y))
same_if true x y = refl
same_if false x y = refl

swap_if :
    (a b : Bool) (x y z : Option Bytes)
    → (a ≡ true → b ≡ false)
    → y ≡ (if b then none else z)
    → (if a then x else y) ≡ (if b then none else (if a then x else z))
swap_if true true x y z h e = let clash : true ≡ false = h refl in absurd (ground (arith, clash))
swap_if true false x y z h e = refl
swap_if false true x y z h e = e
swap_if false false x y z h e = e

either_if :
    (a b : Bool) (x : Option Bytes)
    → (if a then none else (if b then none else x)) ≡ (if b || a then none else x)
either_if true true x = refl
either_if true false x = refl
either_if false true x = refl
either_if false false x = refl

no_choice : (b : Bool) (x : Option Bytes) → x ≡ (if b then x else x)
no_choice true x = refl
no_choice false x = refl

keep_other :
    (b : Bool) (x y : Option Bytes)
    → (if b then x else (if b then none else y)) ≡ (if b then x else y)
keep_other true x y = refl
keep_other false x y = refl

never :
    {p : Bytes} {m : List (Bytes × Bytes)}
    → ◌≡◌ {A = Outcome (List (Bytes × Bytes))} (err (blocked p)) (ok m)
    → ⊥
never e = cc

no_value : {m : List (Bytes × Bytes)} → ◌≡◌ {A = Outcome (List (Bytes × Bytes))} panic (ok m) → ⊥
no_value e = cc

-- What is chosen already is not changed by a second choice of it.
twice :
    (a b : Bool) (o x : Option Bytes)
    → (if a then or_else o (if b then or_else o x else x) else (if b then or_else o x else x))
      ≡ (if b || a then or_else o x else x)
twice true true none x = refl
twice true true (some uri) x = refl
twice true false o x = refl
twice false true o x = refl
twice false false o x = refl

lookup-delete :
    (k p : Bytes) (m : List (Bytes × Bytes))
    → lookup k (delete p m) ≡ (if str_eq p k then none else lookup k m)
unfolding lookup delete
lookup-delete k p [] = elim (Bool-cases (str_eq p k)) [ inl h ↦ rw h refl | inr h ↦ rw h refl ]
lookup-delete k p ((j, v) ∷ m) = elim (Bool-cases (str_eq j p)) [
  | inl gone ↦ rw gone (
      rw ((str_eq_iff j p).0 gone)
        (lookup-delete k p m ∙ same_if (str_eq p k) (some v) (lookup k m)))
  | inr stays ↦ rw stays (
      swap_if (str_eq j k) (str_eq p k) (some v) (lookup k (delete p m)) (lookup k m)
        (other_than j k p stays) (lookup-delete k p m))
]

-- The publishers that are told to quit are not connected, and the others as they were.
pub lookup-quit_dead :
    (k : Bytes) (ps : List Bytes) (m m' : List (Bytes × Bytes))
    → quit_dead ps m ≡ ok m'
    → lookup k m' ≡ (if member k ps then none else lookup k m)
unfolding quit_dead member
lookup-quit_dead k [] m m' e = let same : m ≡ m' = cc in ap (lookup k) (sym same)
lookup-quit_dead k (p ∷ ps) m m' e = elim (Bool-cases (member p (keys m))) [
  | inl connected ↦
      lookup-quit_dead k ps (delete p m) m' (rw connected at e)
      ∙ ap (λ o. if member k ps then none else o) (lookup-delete k p m)
      ∙ either_if (member k ps) (str_eq p k) (lookup k m)
  | inr alone ↦ absurd (never (rw alone at e))
]

answered_at :
    (k : Bytes) (r : Request) (p : Bytes) (m m' : List (Bytes × Bytes))
    → answered r p m ≡ ok m'
    → lookup k m' ≡ (if str_eq p k then or_else (offered r) (lookup k m) else lookup k m)
unfolding answered
answered_at k failed p m m' e =
    let same : m ≡ m' = cc in ap (lookup k) (sym same) ∙ no_choice (str_eq p k) (lookup k m)
answered_at k unsupported p m m' e =
    let same : m ≡ m' = cc in ap (lookup k) (sym same) ∙ no_choice (str_eq p k) (lookup k m)
answered_at k malformed p m m' e = absurd (no_value e)
answered_at k (tcpros uri) p m m' e =
    let same : (p, uri) ∷ delete p m ≡ m' = cc in
    ap (lookup k) (sym same)
    ∙ unfold lookup in
      ap (λ o. if str_eq p k then some uri else o) (lookup-delete k p m)
      ∙ keep_other (str_eq p k) (some uri) (lookup k m)

lookup-answered :
    (k : Bytes) (request : Bytes → Request) (p : Bytes) (m m' : List (Bytes × Bytes))
    → answered (request p) p m ≡ ok m'
    → lookup k m' ≡ (if str_eq p k then or_else (offered (request k)) (lookup k m) else lookup k m)
lookup-answered k request p m m' e =
    answered_at k (request p) p m m' e ∙ elim (Bool-cases (str_eq p k)) [
      | inl here ↦
          rw here (ap (λ j. or_else (offered (request j)) (lookup k m)) ((str_eq_iff p k).0 here))
      | inr there ↦ rw there refl
    ]

-- A new publisher is connected at the address of its answer, and otherwise as it was.
pub lookup-connect_new :
    (k : Bytes) (request : Bytes → Request) (ps : List Bytes) (m m' : List (Bytes × Bytes))
    → connect_new request ps m ≡ ok m'
    → lookup k m' ≡ (if member k ps then or_else (offered (request k)) (lookup k m) else lookup k m)
unfolding connect_new member
lookup-connect_new k request [] m m' e = let same : m ≡ m' = cc in ap (lookup k) (sym same)
lookup-connect_new k request (p ∷ ps) m m' e =
    let (m1, e1, e2) = >>=-eq-ok (answered (request p) p m) _ e in
    lookup-connect_new k request ps m1 m' e2
    ∙ ap (λ o. if member k ps then or_else (offered (request k)) o else o)
        (lookup-answered k request p m m1 e1)
    ∙ twice (member k ps) (str_eq p k) (offered (request k)) (lookup k m)
