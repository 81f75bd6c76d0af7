-- ===== src/Node/Topics/Held.antt =====
-- ros/node.go: how often a key is held by a map that is stored into and removed from.
use rosgo.Prelude.{
  ℕ, suc, ◌≤◌, ◌≡◌, refl, sym, ap, ◌∙◌, Bool, true, false, List, [], ◌∷◌, Option, none, some, Bytes,
  str_eq, str_eq_iff, if◌then◌else◌, Bool-cases, inl, inr, arith,
}
use mathlib.Core.Option.{none-ne-some}
use rosgo.Node.Slave.{at_topic}
use rosgo.Node.Topics.{store, remove}

abbrev pub one_if : Bool → ℕ → ℕ
one_if true x = suc x
one_if false x = x

abbrev pub held {ℓ} : {A : Type ℓ} → Bytes → List (Bytes × A) → ℕ
held k [] = 0
held k ((t, a) ∷ ts) = one_if (str_eq t k) (held k ts)

unmatched {ℓ} :
    {A : Type ℓ} (b : Bool) (a : A) (o : Option A)
    → (if b then some a else o) ≡ none
    → (b ≡ false) × (o ≡ none)
unmatched true a o h = absurd (none-ne-some a (sym h))
unmatched false a o h = (refl, h)

pub held-none {ℓ} :
    {A : Type ℓ} (k : Bytes) (ts : List (Bytes × A)) → at_topic k ts ≡ none → held k ts ≡ 0
unfolding at_topic
held-none k [] h = refl
held-none k ((t, a) ∷ ts) h =
    let g = unmatched (str_eq t k) a (at_topic k ts) h in rw g.0 (held-none k ts g.1)

pub held-remove {ℓ} :
    {A : Type ℓ} (k n : Bytes) (ts : List (Bytes × A))
    → held k (remove n ts) ≡ (if str_eq n k then 0 else held k ts)
unfolding remove
held-remove k n [] = elim (Bool-cases (str_eq n k)) [ inl e ↦ rw e refl | inr e ↦ rw e refl ]
held-remove k n ((t, b) ∷ ts) = elim (Bool-cases (str_eq t n)) [
  | inl e ↦
      let q = ap (λ x. str_eq x k) ((str_eq_iff t n).0 e) in
      rw e (held-remove k n ts ∙ rw q (gone (str_eq n k) (held k ts)))
  | inr e ↦ elim (Bool-cases (str_eq n k)) [
    | inl g ↦
        let q : str_eq t k ≡ false = ap (str_eq t) (sym ((str_eq_iff n k).0 g)) ∙ e in
        rw e (ap (one_if (str_eq t k)) (held-remove k n ts) ∙ rw g (rw q refl))
    | inr g ↦ rw e (ap (one_if (str_eq t k)) (held-remove k n ts) ∙ rw g refl)
  ]
]
  where
    gone : (b : Bool) (x : ℕ) → (if b then 0 else x) ≡ (if b then 0 else one_if b x)
    gone true x = refl
    gone false x = refl

pub held-store_new {ℓ} :
    {A : Type ℓ} (k n : Bytes) (a : A) (ts : List (Bytes × A))
    → at_topic n ts ≡ none
    → held k (store n a ts) ≡ one_if (str_eq n k) (held k ts)
unfolding at_topic store
held-store_new k n a [] h = refl
held-store_new k n a ((t, b) ∷ ts) h =
    let g = unmatched (str_eq t n) b (at_topic n ts) h in
    rw g.0 (
      ap (one_if (str_eq t k)) (held-store_new k n a ts g.1)
      ∙ swap (str_eq t k) (str_eq n k) (held k ts))
  where
    swap : (a b : Bool) (x : ℕ) → one_if a (one_if b x) ≡ one_if b (one_if a x)
    swap true true x = refl
    swap true false x = refl
    swap false true x = refl
    swap false false x = refl

pub held-store_old {ℓ} :
    {A : Type ℓ} (k n : Bytes) (a b : A) (ts : List (Bytes × A))
    → at_topic n ts ≡ some b
    → held k (store n a ts) ≡ held k ts
unfolding at_topic store
held-store_old k n a b [] h = absurd (none-ne-some b h)
held-store_old k n a b ((t, c) ∷ ts) h = elim (Bool-cases (str_eq t n)) [
  | inl e ↦ rw e refl
  | inr e ↦ rw e (
      ap (one_if (str_eq t k))
        (held-store_old k n a b ts (sym (ap (λ x. if x then some c else at_topic n ts) e) ∙ h)))
]

pub held-some {ℓ} :
    {A : Type ℓ} (n : Bytes) (b : A) (ts : List (Bytes × A))
    → at_topic n ts ≡ some b
    → 1 ≤ held n ts
unfolding at_topic
held-some n b [] h = absurd (none-ne-some b h)
held-some n b ((t, c) ∷ ts) h = elim (Bool-cases (str_eq t n)) [
  | inl e ↦ rw e (positive (held n ts))
  | inr e ↦ rw e (held-some n b ts (sym (ap (λ x. if x then some c else at_topic n ts) e) ∙ h))
]
  where
    positive : (x : ℕ) → 1 ≤ suc x
    positive x = omega arith
