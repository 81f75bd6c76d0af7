-- ===== src/Name/Qualify.antt =====
-- `qualifyNodeName` of ros/name.go.
use rosgo.Prelude.{
  ℕ, suc, true, false, ◌≡◌, ◌≢◌, refl, sym, ap, ◌∙◌, inl, inr, Bool-cases, List, [], ◌∷◌, ◌++◌,
  Bytes, All, ◌==◌, if◌then◌else◌, ==_iff, ok, err, panic, stuck, ◌>>=◌, arith, length,
}
use mathlib.Core.Path.{subst}
use rosgo.Name.{
  Outcome, empty_node_name, private_node_name, global_ns, split, join, nonempty, components,
  is_global_name, sep, split_last, qualify_node_name,
}
use rosgo.Name.Split.{IsWord, components-IsWord, components-join, components_cons_sep}
use rosgo.Name.Canonical.{canonical, canonicalize_name-canonical, components-canonical}

-- How `qualifyNodeName` may end on a name.
abbrev pub QualifyEnds : Bytes → Outcome (Bytes × Bytes) → Type 0
QualifyEnds name (ok (namespace, base)) =
    IsWord base
    × (is_global_name namespace ≡ true)
    × (components name ≡ components namespace ++ base ∷ [])
    × ((t : Bytes) → name ≢ b'~' ∷ t)
    × ((front : List Bytes) × (components name ≡ front ++ base ∷ [])
        × (namespace ≡ sep ∷ join front))
QualifyEnds name (err empty_node_name) = name ≡ []
QualifyEnds name (err private_node_name) = (t : Bytes) × (name ≡ b'~' ∷ t)
QualifyEnds name panic = (name ≢ []) × (components name ≡ [])
QualifyEnds name stuck = ⊥

-- The branch behind the canonical name, on its words.
abbrev last_word : List Bytes → Outcome (Bytes × Bytes)
last_word words = split_last words >>= λ (front, last).
    if length words == 1 then ok (global_ns, last) else ok (global_ns ++ join front, last)

split_last-cons :
    (w : Bytes) (ws : List Bytes)
    → (front : List Bytes) × (last : Bytes) × (split_last (w ∷ ws) ≡ ok (front, last))
      × (w ∷ ws ≡ front ++ last ∷ [])
split_last-cons w [] = ([], w, refl, refl)
split_last-cons w (v ∷ ws) =
    let (front, last, e, p) = split_last-cons v ws in (w ∷ front, last, rw e, ap (◌∷◌ w) p)

All-split : (ws vs : List Bytes) → All IsWord (ws ++ vs) → All IsWord ws × All IsWord vs
All-split [] vs h = (tt, h)
All-split (w ∷ ws) vs h = let (p, q) = All-split ws vs h.1 in ((h.0, p), q)

components-global_ns : components global_ns ≡ []
unfolding split nonempty
components-global_ns = refl

many : (k : ℕ) → (suc (suc k) == 1) ≡ false
many k = ground arith

last_word-ends :
    (name : Bytes) (words : List Bytes)
    → name ≢ []
    → ((t : Bytes) → name ≢ b'~' ∷ t)
    → components name ≡ words
    → All IsWord words
    → QualifyEnds name (last_word words)
last_word-ends name [] ne p e h = (ne, e)
last_word-ends name (w ∷ []) ne p e h = (
  h.0,
  unfold is_global_name in refl,
  e ∙ ap (λ ws. ws ++ w ∷ []) (sym components-global_ns),
  p,
  ([], e, unfold join in refl),
)
last_word-ends name (w ∷ v ∷ ws) ne other e h =
    let (front, last, p, q) = split_last-cons v ws in
    let (front_words, last_words) =
      All-split (w ∷ front) (last ∷ []) (subst (All IsWord) (ap (◌∷◌ w) q) h) in
    let parts =
      sym (components_cons_sep (join (w ∷ front)) ∙ components-join (w ∷ front) front_words) in
    rw (p, many (length ws))
      (
        last_words.0,
        unfold is_global_name in refl,
        e ∙ ap (◌∷◌ w) q ∙ ap (λ f. f ++ last ∷ []) parts,
        other,
        (w ∷ front, e ∙ ap (◌∷◌ w) q, refl),
      )

-- On every name: it refuses just the empty name and the names that begin with `~`, each with its own error,
-- panics just on a name of separators alone, and from any other name returns its last word, and the words
-- before that joined behind a separator.
pub qualify_node_name-ends : (name : Bytes) → QualifyEnds name (qualify_node_name name)
unfolding qualify_node_name
qualify_node_name-ends [] = refl
qualify_node_name-ends (c ∷ cs) = elim (Bool-cases (c == b'~')) [
  | inl private ↦ rw private (cs, ap (λ x. x ∷ cs) ((==_iff c b'~').0 private))
  | inr other ↦ rw other (
      rw (canonicalize_name-canonical c cs) (
        last_word-ends (c ∷ cs) (components (canonical (c ∷ cs))) (λ z. cc)
          (λ t z. let h : c ≡ b'~' = cc in ground (arith, other, h))
          (sym (components-canonical (c ∷ cs))) (components-IsWord (canonical (c ∷ cs)))))
]
