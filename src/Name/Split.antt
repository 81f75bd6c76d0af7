-- ===== src/Name/Split.antt =====
-- Words between separators, split and joined.
use rosgo.Prelude.{
  ℕ, true, false, ◌≡◌, ◌≢◌, refl, ap, ◌∙◌, inl, inr, Bool-cases, List, [], ◌∷◌, ◌++◌, Bytes, All,
  ◌==◌, arith,
}
use mathlib.Core.Path.{subst}
use rosgo.Name.{sep, split, join, nonempty, components}

-- No separator among the bytes.
abbrev pub IsPiece : Bytes → Type 0
IsPiece = All (λ c. c ≢ sep)

-- A piece of a positive length.
abbrev pub IsWord : Bytes → Type 0
IsWord w = IsPiece w × (w ≢ [])

pub split_cons_sep : (c : ℕ) (s : Bytes) → (c == sep) ≡ true → split (c ∷ s) ≡ [] ∷ split s
unfolding split
split_cons_sep c s h = rw h

-- A byte that is no separator joins the first piece.
pub split_cons :
    (c : ℕ) (s w : Bytes) (ws : List Bytes)
    → (c == sep) ≡ false
    → split s ≡ w ∷ ws
    → split (c ∷ s) ≡ (c ∷ w) ∷ ws
unfolding split
split_cons c s w ws h e = rw h (rw e)

pub split-ne-nil : (s : Bytes) → (w : Bytes) × (ws : List Bytes) × (split s ≡ w ∷ ws)
split-ne-nil [] = ([], [], unfold split in refl)
split-ne-nil (c ∷ cs) =
    let (w, ws, e) = split-ne-nil cs in
    elim (Bool-cases (c == sep)) [
      | inl here ↦ ([], split cs, split_cons_sep c cs here)
      | inr other ↦ (c ∷ w, ws, split_cons c cs w ws other e)
    ]

pub ne_sep : {c : ℕ} → c ≢ sep → (c == sep) ≡ false
ne_sep h = ground arith

pub split_piece : (w s : Bytes) → IsPiece w → split (w ++ (sep ∷ s)) ≡ w ∷ split s
split_piece [] s h = split_cons_sep sep s refl
split_piece (c ∷ w) s h = split_cons c _ w (split s) (ne_sep h.0) (split_piece w s h.1)

pub split_one : (w : Bytes) → IsPiece w → split w ≡ w ∷ []
split_one [] h = unfold split in refl
split_one (c ∷ w) h = split_cons c w w [] (ne_sep h.0) (split_one w h.1)

pub split-join :
    (w : Bytes) (ws : List Bytes) → All IsPiece (w ∷ ws) → split (join (w ∷ ws)) ≡ w ∷ ws
unfolding join
split-join w [] h = split_one w h.0
split-join w (v ∷ ws) h = split_piece w (join (v ∷ ws)) h.0 ∙ ap (◌∷◌ w) (split-join v ws h.1)

pub split-IsPiece : (s : Bytes) → All IsPiece (split s)
split-IsPiece [] = unfold split in (tt, tt)
split-IsPiece (c ∷ cs) =
    let (w, ws, e) = split-ne-nil cs in
    let pieces = subst (All IsPiece) e (split-IsPiece cs) in
    elim (Bool-cases (c == sep)) [
      | inl here ↦ rw (split_cons_sep c cs here) (tt, split-IsPiece cs)
      | inr other ↦ rw (split_cons c cs w ws other e) ((ground arith, pieces.0), pieces.1)
    ]

nonempty-IsWord : (ws : List Bytes) → All IsPiece ws → All IsWord (nonempty ws)
unfolding nonempty
nonempty-IsWord [] h = tt
nonempty-IsWord ([] ∷ ws) h = nonempty-IsWord ws h.1
nonempty-IsWord ((c ∷ w) ∷ ws) h = ((h.0, λ e. cc), nonempty-IsWord ws h.1)

pub components-IsWord : (s : Bytes) → All IsWord (components s)
components-IsWord s = nonempty-IsWord (split s) (split-IsPiece s)

pub All-pieces : (ws : List Bytes) → All IsWord ws → All IsPiece ws
All-pieces [] h = tt
All-pieces (w ∷ ws) h = (h.0.0, All-pieces ws h.1)

pub nonempty_words : (ws : List Bytes) → All IsWord ws → nonempty ws ≡ ws
unfolding nonempty
nonempty_words [] h = refl
nonempty_words ([] ∷ ws) h = absurd (h.0.1 refl)
nonempty_words ((c ∷ w) ∷ ws) h = ap (◌∷◌ (c ∷ w)) (nonempty_words ws h.1)

-- The words of joined words are those words.
pub components-join : (ws : List Bytes) → All IsWord ws → components (join ws) ≡ ws
components-join [] h = unfold join split nonempty in refl
components-join (w ∷ ws) h =
    ap nonempty (split-join w ws (All-pieces (w ∷ ws) h)) ∙ nonempty_words (w ∷ ws) h

pub components_cons_sep : (s : Bytes) → components (sep ∷ s) ≡ components s
components_cons_sep s = ap nonempty (split_cons_sep sep s refl) ∙ unfold nonempty in refl

-- A separator parts the words of what stands before it from those behind it.
split-append : (s t : Bytes) → split (s ++ (sep ∷ t)) ≡ split s ++ split t
split-append [] t = split_cons_sep sep t refl ∙ unfold split in refl
split-append (c ∷ cs) t =
    let (w, ws, e) = split-ne-nil cs in
    let ih : split (cs ++ (sep ∷ t)) ≡ w ∷ (ws ++ split t) =
      split-append cs t ∙ ap (λ p. p ++ split t) e in
    elim (Bool-cases (c == sep)) [
      | inl here ↦
          split_cons_sep c _ here ∙ ap (◌∷◌ []) (split-append cs t) ∙ rw (split_cons_sep c cs here)
      | inr other ↦ split_cons c _ w _ other ih ∙ rw (split_cons c cs w ws other e)
    ]

pub nonempty-append : (ws vs : List Bytes) → nonempty (ws ++ vs) ≡ nonempty ws ++ nonempty vs
unfolding nonempty
nonempty-append [] vs = refl
nonempty-append ([] ∷ ws) vs = nonempty-append ws vs
nonempty-append ((c ∷ w) ∷ ws) vs = ap (◌∷◌ (c ∷ w)) (nonempty-append ws vs)

pub components-append : (s t : Bytes) → components (s ++ (sep ∷ t)) ≡ components s ++ components t
components-append s t = ap nonempty (split-append s t) ∙ nonempty-append (split s) (split t)
