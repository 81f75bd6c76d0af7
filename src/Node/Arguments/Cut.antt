-- ===== src/Node/Arguments/Cut.antt =====
-- strings.Split(arg, ":=") in processArguments of ros/node.go, beside a cut at the first `:=`.
use rosgo.Prelude.{
  ℕ, true, false, ◌&&◌, ◌==◌, if◌then◌else◌, ◌≡◌, refl, ap, ◌∙◌, inl, inr, Bool-cases, ==_iff,
  Option, none, some, List, [], ◌∷◌, Bytes,
}
use rosgo.Node.Arguments.{pieces, on_head}

abbrev push : ℕ → Option (Bytes × Bytes) → Option (Bytes × Bytes)
push c none = none
push c (some (k, v)) = some (c ∷ k, v)

-- What stands before and behind the first `:=`.
abbrev pub cut : Bytes → Option (Bytes × Bytes)
cut [] = none
cut (c ∷ []) = none
cut (c ∷ d ∷ s) = if (c == b':') && (d == b'=') then some ([], s) else push c (cut (d ∷ s))

abbrev only : Option (Bytes × Bytes) → Option (Bytes × Bytes)
only none = none
only (some (k, v)) = elim (cut v) [ none ↦ some (k, v) | some _ ↦ none ]

-- The key and the value of an argument that holds `:=` once.
abbrev pub key_and_value : Bytes → Option (Bytes × Bytes)
key_and_value arg = only (cut arg)

-- A list of two pieces.
abbrev pub as_two : List Bytes → Option (Bytes × Bytes)
as_two (k ∷ v ∷ []) = some (k, v)
as_two ps = none

behind_colon :
    (d : ℕ) (s : Bytes)
    → pieces true (d ∷ s)
      ≡ (if d == b'=' then [] ∷ pieces false s else on_head b':' (pieces false (d ∷ s)))
unfolding pieces
behind_colon d s = elim (Bool-cases (d == b':')) [
  | inl colon ↦ rw ((==_iff d b':').0 colon) refl
  | inr other ↦ rw other (elim (Bool-cases (d == b'=')) [
    | inl equals ↦ rw equals refl
    | inr neither ↦ rw neither refl
  ])
]

pieces_step :
    (c d : ℕ) (s : Bytes)
    → pieces false (c ∷ d ∷ s) ≡ (
        if (c == b':') && (d == b'=')
        then [] ∷ pieces false s
        else on_head c (pieces false (d ∷ s)))
pieces_step c d s = elim (Bool-cases (c == b':')) [
  | inl colon ↦ rw ((==_iff c b':').0 colon) (unfold pieces in behind_colon d s)
  | inr other ↦ rw other (unfold pieces in rw other refl)
]

abbrev spread : Bytes → Option (Bytes × Bytes) → List Bytes
spread s none = s ∷ []
spread s (some (k, r)) = k ∷ pieces false r

on_head-spread :
    (c : ℕ) (s : Bytes) (o : Option (Bytes × Bytes))
    → on_head c (spread s o) ≡ spread (c ∷ s) (push c o)
on_head-spread c s none = refl
on_head-spread c s (some (k, r)) = refl

-- The pieces of an argument come of its first cut.
pieces-cut : (s : Bytes) → pieces false s ≡ spread s (cut s)
pieces-cut [] = unfold pieces in refl
pieces-cut (c ∷ []) =
    unfold pieces in
    elim (Bool-cases (c == b':')) [
      | inl colon ↦ rw ((==_iff c b':').0 colon) refl
      | inr other ↦ rw other refl
    ]
pieces-cut (c ∷ d ∷ s) = pieces_step c d s ∙ elim (Bool-cases ((c == b':') && (d == b'='))) [
  | inl here ↦ rw here refl
  | inr later ↦
      rw later (ap (on_head c) (pieces-cut (d ∷ s)) ∙ on_head-spread c (d ∷ s) (cut (d ∷ s)))
]

three_pieces : (k v r : Bytes) (o : Option (Bytes × Bytes)) → as_two (k ∷ v ∷ spread r o) ≡ none
three_pieces k v r none = refl
three_pieces k v r (some _) = refl

behind_cut :
    (k v : Bytes) (o : Option (Bytes × Bytes))
    → as_two (k ∷ spread v o) ≡ elim o [ none ↦ some (k, v) | some _ ↦ none ]
behind_cut k v none = refl
behind_cut k v (some (l, r)) =
    ap (λ ps. as_two (k ∷ l ∷ ps)) (pieces-cut r) ∙ three_pieces k l r (cut r)

as_two-spread : (s : Bytes) (o : Option (Bytes × Bytes)) → as_two (spread s o) ≡ only o
as_two-spread s none = refl
as_two-spread s (some (k, v)) = ap (λ ps. as_two (k ∷ ps)) (pieces-cut v) ∙ behind_cut k v (cut v)

-- An argument has two pieces if it holds `:=` once, and then they are its two parts.
pub as_two-pieces : (arg : Bytes) → as_two (pieces false arg) ≡ key_and_value arg
as_two-pieces arg = ap as_two (pieces-cut arg) ∙ as_two-spread arg (cut arg)
