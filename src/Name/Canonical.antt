-- ===== src/Name/Canonical.antt =====
-- `canonicalizeName` of ros/name.go.
use rosgo.Prelude.{
  ℕ, true, false, ◌≡◌, ◌≢◌, refl, sym, ap, ◌∙◌, inl, inr, ◌⊎◌, Bool, ◌&&◌, All, append-nil,
  Bool-cases, List, [], ◌∷◌, ◌++◌, Bytes, str_eq, str_eq_iff, ◌==◌, if◌then◌else◌, ok, arith,
  ==_iff,
}
use mathlib.Core.Path.{subst}
use rosgo.Name.{
  Outcome, sep, global_ns, split, join, nonempty, components, canonicalize_name, is_global_name,
}
use rosgo.Name.Split.{
  IsPiece, IsWord, ne_sep, split-ne-nil, split_cons, components-IsWord, components-join,
  components_cons_sep,
}

-- The canonical form, written out: the words joined, behind a separator if there was one in front.
unfoldable pub canonical : Bytes → Bytes
canonical [] = []
canonical (c ∷ cs) =
    if c == sep then sep ∷ join (components (c ∷ cs)) else join (components (c ∷ cs))

canonical_root : canonical global_ns ≡ global_ns
unfolding canonical join nonempty split
canonical_root = refl

-- Of a name that is not empty `canonicalizeName` returns the canonical form.
pub canonicalize_name-canonical :
    (c : ℕ) (cs : Bytes) → canonicalize_name (c ∷ cs) ≡ ok (canonical (c ∷ cs))
unfolding canonicalize_name
canonicalize_name-canonical c cs = elim (Bool-cases (str_eq (c ∷ cs) global_ns)) [
  | inl root ↦ rw root (rw ((str_eq_iff (c ∷ cs) global_ns).0 root) (ap ok (sym canonical_root)))
  | inr other ↦ rw other (unfold canonical in ground arith)
]

-- A word that begins a name begins its first component.
components_cons :
    (c : ℕ) (cs : Bytes)
    → (c == sep) ≡ false
    → (w : Bytes) × (ws : List Bytes) × (components (c ∷ cs) ≡ (c ∷ w) ∷ ws)
components_cons c cs h =
    let (w, ws, e) = split-ne-nil cs in
    (w, nonempty ws, ap nonempty (split_cons c cs w ws h e) ∙ unfold nonempty in refl)

join_cons : (c : ℕ) (w : Bytes) (ws : List Bytes) → (t : Bytes) × (join ((c ∷ w) ∷ ws) ≡ c ∷ t)
unfolding join
join_cons c w [] = (w, refl)
join_cons c w (v ∷ ws) = (w ++ (sep ∷ join (v ∷ ws)), refl)

canonical_of_relative :
    (c : ℕ) (cs : Bytes) → (c == sep) ≡ false → canonical (c ∷ cs) ≡ join (components (c ∷ cs))
unfolding canonical
canonical_of_relative c cs h = rw h

-- A canonical form has the words of the name, in their order.
pub components-canonical : (n : Bytes) → components (canonical n) ≡ components n
components-canonical [] = unfold canonical in refl
components-canonical (c ∷ cs) = elim (Bool-cases (c == sep)) [
  | inl global ↦
      unfold canonical in
      rw global (components_cons_sep _ ∙ components-join _ (components-IsWord (c ∷ cs)))
  | inr relative ↦ unfold canonical in rw relative (components-join _ (components-IsWord (c ∷ cs)))
]

-- The canonical form of a name that does not begin with a separator begins as the name does.
pub canonical_relative :
    (c : ℕ) (cs : Bytes)
    → (c == sep) ≡ false
    → (t : Bytes) × (canonical (c ∷ cs) ≡ c ∷ t) × (components (c ∷ t) ≡ components (c ∷ cs))
canonical_relative c cs h =
    let (w, ws, e) = components_cons c cs h in
    let (t, j) = join_cons c w ws in
    let same : canonical (c ∷ cs) ≡ c ∷ t = unfold canonical in rw h (ap join e ∙ j) in
    (t, same, ap components (sym same) ∙ components-canonical (c ∷ cs))

pub canonical_global :
    (c : ℕ) (cs : Bytes) → (c == sep) ≡ true → canonical (c ∷ cs) ≡ sep ∷ join (components (c ∷ cs))
unfolding canonical
canonical_global c cs h = rw h

pub canonical-canonical : (n : Bytes) → canonical (canonical n) ≡ canonical n
canonical-canonical [] = unfold canonical in refl
canonical-canonical (c ∷ cs) = elim (Bool-cases (c == sep)) [
  | inl global ↦
      let e = canonical_global c cs global in
      ap canonical e
      ∙ canonical_global sep _ refl
      ∙ ap (λ ws. sep ∷ join ws) (ap components (sym e) ∙ components-canonical (c ∷ cs))
      ∙ sym e
  | inr relative ↦
      let (t, e, words) = canonical_relative c cs relative in
      ap canonical e
      ∙ canonical_of_relative c t relative
      ∙ ap join words
      ∙ sym (canonical_of_relative c cs relative)
]

-- No separator stands behind another, nor at the end; the flag says that one stands in front.
abbrev pub Single : Bool → Bytes → Type 0
Single behind [] = behind ≡ false
Single behind (c ∷ s) = (behind && (c == sep)) ≡ false × Single (c == sep) s

piece-Single : (w s : Bytes) → IsPiece w → Single false s → Single false (w ++ s)
piece-Single [] s h k = k
piece-Single (c ∷ w) s h k =
    (refl, subst (λ b. Single b (w ++ s)) (sym (ne_sep h.0)) (piece-Single w s h.1 k))

word-Single :
    (behind : Bool) (c : ℕ) (w s : Bytes)
    → IsPiece (c ∷ w)
    → Single false s
    → Single behind (c ∷ (w ++ s))
word-Single true c w s h k = (ne_sep h.0, (piece-Single (c ∷ w) s h k).1)
word-Single false c w s h k = piece-Single (c ∷ w) s h k

join-Single :
    (behind : Bool) (w : Bytes) (ws : List Bytes)
    → All IsWord (w ∷ ws)
    → Single behind (join (w ∷ ws))
unfolding join
join-Single behind [] ws h = absurd (h.0.1 refl)
join-Single behind (c ∷ w) [] h =
    subst (Single behind) (append-nil (c ∷ w)) (word-Single behind c w [] h.0.0 refl)
join-Single behind (c ∷ w) (v ∷ ws) h =
    word-Single behind c w (sep ∷ join (v ∷ ws)) h.0.0 (refl, join-Single true v ws h.1)

rooted-Single :
    (ws : List Bytes) → All IsWord ws → (sep ∷ join ws ≡ global_ns) ⊎ Single false (sep ∷ join ws)
rooted-Single [] h = inl (unfold join in refl)
rooted-Single (w ∷ ws) h = inr (refl, join-Single true w ws h)

canonical-Single :
    (c : ℕ) (cs : Bytes) → (canonical (c ∷ cs) ≡ global_ns) ⊎ Single false (canonical (c ∷ cs))
canonical-Single c cs =
    let words = components-IsWord (c ∷ cs) in
    elim (Bool-cases (c == sep)) [
      | inl global ↦ rw (canonical_global c cs global) (rooted-Single _ words)
      | inr relative ↦
          let (w, ws, e) = components_cons c cs relative in
          rw (canonical_of_relative c cs relative)
            (rw e (inr (join-Single false (c ∷ w) ws (subst (All IsWord) e words))))
    ]

canonicalize_name-eq-ok : (n m : Bytes) → canonicalize_name n ≡ ok m → (n ≢ []) × (m ≡ canonical n)
canonicalize_name-eq-ok [] m e = unfold canonicalize_name in cc
canonicalize_name-eq-ok (c ∷ cs) m e = (λ z. cc, ok_eq (sym e ∙ canonicalize_name-canonical c cs))
  where
    ok_eq : {a b : Bytes} → ◌≡◌ {A = Outcome Bytes} (ok a) (ok b) → a ≡ b
    ok_eq q = cc

-- A canonical form begins as the name does.
pub canonical_cons : (c : ℕ) (cs : Bytes) → (t : Bytes) × (canonical (c ∷ cs) ≡ c ∷ t)
canonical_cons c cs = elim (Bool-cases (c == sep)) [
  | inl global ↦
      let root : sep ≡ c = sym ((==_iff c sep).0 global) in
      (
        join (components (c ∷ cs)),
        canonical_global c cs global ∙ ap (λ d. d ∷ join (components (c ∷ cs))) root,
      )
  | inr relative ↦ let (t, e, _) = canonical_relative c cs relative in (t, e)
]

pub is_global_name-canonical : (n : Bytes) → is_global_name (canonical n) ≡ is_global_name n
is_global_name-canonical [] = unfold canonical in refl
is_global_name-canonical (c ∷ cs) =
    let (t, e) = canonical_cons c cs in ap is_global_name e ∙ unfold is_global_name in refl

pub canonicalize_name_self :
    (c : ℕ) (cs : Bytes) → canonicalize_name (canonical (c ∷ cs)) ≡ ok (canonical (c ∷ cs))
canonicalize_name_self c cs =
    let (t, e) = canonical_cons c cs in
    ap canonicalize_name e
    ∙ canonicalize_name-canonical c t
    ∙ ap ok (ap canonical (sym e) ∙ canonical-canonical (c ∷ cs))

-- A name that `canonicalizeName` returns is `/`, or has no separator behind another and none at the end;
-- it has the components of its argument, is global exactly if the argument is, and is returned as it is
-- when it is passed in again.
pub canonicalize_name_idem :
    (n m : Bytes)
    → canonicalize_name n ≡ ok m
    → (canonicalize_name m ≡ ok m)
      × (components m ≡ components n)
      × (is_global_name m ≡ is_global_name n)
      × ((m ≡ global_ns) ⊎ Single false m)
canonicalize_name_idem [] m e = absurd ((canonicalize_name-eq-ok [] m e).0 refl)
canonicalize_name_idem (c ∷ cs) m e = rw ((canonicalize_name-eq-ok (c ∷ cs) m e).1) (
  canonicalize_name_self c cs,
  components-canonical (c ∷ cs),
  is_global_name-canonical (c ∷ cs),
  canonical-Single c cs,
)
