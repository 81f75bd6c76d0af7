-- ===== src/Name/Namespace.antt =====
-- `getNamespace`.
use rosgo.Prelude.{
  ℕ, suc, ◌≡◌, refl, sym, ap, ◌∙◌, ◌⊎◌, inl, inr, Bool-cases, [], ◌∷◌, ◌++◌, Bytes, ◌==◌,
  if◌then◌else◌, arith, ==_iff, length,
}
use rosgo.Name.{sep, global_ns, up_to_last, trim_last, get_namespace}
use rosgo.Name.Split.{IsPiece}

snoc_cons : (front : Bytes) → (d : ℕ) × (ds : Bytes) × (front ++ sep ∷ [] ≡ d ∷ ds)
snoc_cons [] = (sep, [], refl)
snoc_cons (f ∷ fs) = (f, fs ++ sep ∷ [], refl)

up_to_last_cons :
    (c d : ℕ) (cs ds : Bytes) → up_to_last cs ≡ d ∷ ds → up_to_last (c ∷ cs) ≡ c ∷ d ∷ ds
unfolding up_to_last
up_to_last_cons c d cs ds e = rw e

-- `up_to_last` is empty if there is no separator, and else it ends in one with none behind it.
up_to_last-splits :
    (s : Bytes)
    → (IsPiece s × (up_to_last s ≡ []))
      ⊎ ((front : Bytes) × (base : Bytes) × (up_to_last s ≡ front ++ sep ∷ [])
          × (s ≡ front ++ (sep ∷ base))
          × IsPiece base)
unfolding up_to_last
up_to_last-splits [] = inl (tt, refl)
up_to_last-splits (c ∷ cs) = elim (up_to_last-splits cs) [
  | inl (piece, e) ↦ elim (Bool-cases (c == sep)) [
    | inl here ↦ inr (
      [],
      cs,
      rw e (rw here (ap (λ d. d ∷ []) ((==_iff c sep).0 here))),
      ap (λ d. d ∷ cs) ((==_iff c sep).0 here),
      piece,
    )
    | inr other ↦ inl ((ground arith, piece), rw e (rw other))
  ]
  | inr (front, base, e, split, piece) ↦
      let (d, ds, q) = snoc_cons front in
      inr (
        c ∷ front,
        base,
        up_to_last_cons c d cs ds (e ∙ q) ∙ ap (◌∷◌ c) (sym q),
        ap (◌∷◌ c) split,
        piece,
      )
]

kept :
    (r front : Bytes)
    → r ≡ front ++ sep ∷ []
    → (if length r == 0 then sep ∷ [] else r) ≡ front ++ sep ∷ []
kept r front e = let (d, ds, q) = snoc_cons front in rw (e ∙ q) (positive (length ds) ∙ sym q)
  where
    positive : (n : ℕ) {s : Bytes} → (if suc n == 0 then sep ∷ [] else s) ≡ s
    positive n = ground arith

-- Without its last separator a name either has no separator, and then its namespace is the root,
-- or the namespace is all up to and with the last separator that is left.
pub get_namespace-splits :
    (name : Bytes)
    → IsPiece (trim_last name) × (get_namespace name ≡ global_ns)
      ⊎ ((front : Bytes) × (base : Bytes) × (get_namespace name ≡ front ++ sep ∷ [])
          × (trim_last name ≡ front ++ (sep ∷ base))
          × IsPiece base)
unfolding get_namespace
get_namespace-splits [] = inl (unfold trim_last in tt, refl)
get_namespace-splits (c ∷ cs) = elim (up_to_last-splits (trim_last (c ∷ cs))) [
  | inl (piece, e) ↦ inl (piece, rw e)
  | inr (front, base, e, split, piece) ↦
      inr (front, base, kept (up_to_last (trim_last (c ∷ cs))) front e, split, piece)
]
