-- ===== src/Subscriber/Difference.antt =====
-- `setDifference` of ros/subscriber.go.
use rosgo.Prelude.{
  Bool, true, false, ◌&&◌, ◌||◌, not, inl, inr, Bool-cases, ◌≡◌, refl, sym, ◌∙◌, List, [], ◌∷◌,
  Bytes, str_eq, str_eq_iff, if◌then◌else◌, arith,
}
use mathlib.Core.Path.{subst}
use rosgo.Subscriber.{member, set_difference}

-- No string twice.
abbrev pub Distinct : List Bytes → Type 0
Distinct [] = Unit
Distinct (x ∷ xs) = (member x xs ≡ false) × Distinct xs

str_eq_refl : (k : Bytes) → str_eq k k ≡ true
str_eq_refl k = (str_eq_iff k k).1 refl

member_other :
    (b : Bool) (k x : Bytes) (rest : List Bytes)
    → str_eq x k ≡ false
    → member k (if b then rest else x ∷ rest) ≡ member k rest
unfolding member
member_other true k x rest h = refl
member_other false k x rest h = rw h

member_same :
    (a c l : Bool) (k : Bytes) (rest : List Bytes)
    → member k rest ≡ c
    → c ≡ (l && not a)
    → member k (if a || c then rest else k ∷ rest) ≡ not a
unfolding member
member_same true true l k rest h g = ground (arith, h, g)
member_same true false l k rest h g = h
member_same false true l k rest h g = h
member_same false false l k rest h g = rw (str_eq_refl k)

-- The two lists as sets: a string is in the difference just if it is in the first and not in the
-- second.
member-set_difference :
    (k : Bytes) (lhs rhs : List Bytes)
    → member k (set_difference lhs rhs) ≡ (member k lhs && not (member k rhs))
unfolding member set_difference
member-set_difference k [] rhs = refl
member-set_difference k (x ∷ lhs) rhs =
    let ih = member-set_difference k lhs rhs in
    elim (Bool-cases (str_eq x k)) [
      | inl same ↦
          subst
            (λ y.
              member k (set_difference (y ∷ lhs) rhs) ≡ (member k (y ∷ lhs) && not (member k rhs)))
            (sym ((str_eq_iff x k).0 same))
            (member_same (member k rhs) (member k (set_difference lhs rhs)) (member k lhs) k
                (set_difference lhs rhs) refl ih
              ∙ rw (str_eq_refl k))
      | inr other ↦
          member_other (member x rhs || member x (set_difference lhs rhs)) k x
            (set_difference lhs rhs) other
          ∙ ih
          ∙ rw other
    ]

Distinct-cons :
    (a c : Bool) (k : Bytes) (rest : List Bytes)
    → member k rest ≡ c
    → Distinct rest
    → Distinct (if a || c then rest else k ∷ rest)
Distinct-cons true c k rest h d = d
Distinct-cons false true k rest h d = d
Distinct-cons false false k rest h d = (h, d)

Distinct-set_difference : (lhs rhs : List Bytes) → Distinct (set_difference lhs rhs)
unfolding set_difference
Distinct-set_difference [] rhs = tt
Distinct-set_difference (x ∷ lhs) rhs =
    Distinct-cons (member x rhs) (member x (set_difference lhs rhs)) x (set_difference lhs rhs) refl
      (Distinct-set_difference lhs rhs)

-- `setDifference` returns no string twice, and just those of the first list that are not in the
-- second.
pub set_difference-Distinct :
    (k : Bytes) (lhs rhs : List Bytes)
    → Distinct (set_difference lhs rhs)
      × (member k (set_difference lhs rhs) ≡ (member k lhs && not (member k rhs)))
set_difference-Distinct k lhs rhs =
    (Distinct-set_difference lhs rhs, member-set_difference k lhs rhs)
