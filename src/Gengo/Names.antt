-- ===== src/Gengo/Names.antt =====
-- `ToGoName`: the words between underscores, each with a capital.
use rosgo.Prelude.{
  ℕ, ◌-◌, ◌≡◌, ◌≢◌, ◌≤◌, refl, ap, ◌∙◌, inl, inr, Bool-cases, Bool, true, false, ◌&&◌, List, [],
  ◌∷◌, ◌++◌, Bytes, All, ltb, leb, ◌==◌, if◌then◌else◌, arith, append_assoc, All-append,
}
use mathlib.Core.Path.{subst}
use rosgo.Gengo.Fields.{to_upper1, words, camel, to_go_name}

abbrev pub NoUnderscore : Bytes → Type 0
NoUnderscore = All (λ c. c ≢ b'_')

words_cons_underscore : (c : ℕ) (s : Bytes) → (c == b'_') ≡ true → words (c ∷ s) ≡ [] ∷ words s
unfolding words
words_cons_underscore c s h = rw h

words_cons :
    (c : ℕ) (s w : Bytes) (ws : List Bytes)
    → (c == b'_') ≡ false
    → words s ≡ w ∷ ws
    → words (c ∷ s) ≡ (c ∷ w) ∷ ws
unfolding words
words_cons c s w ws h e = rw h (rw e)

words-ne-nil : (s : Bytes) → (w : Bytes) × (ws : List Bytes) × (words s ≡ w ∷ ws)
words-ne-nil [] = ([], [], unfold words in refl)
words-ne-nil (c ∷ cs) =
    let (w, ws, e) = words-ne-nil cs in
    elim (Bool-cases (c == b'_')) [
      | inl here ↦ ([], words cs, words_cons_underscore c cs here)
      | inr other ↦ (c ∷ w, ws, words_cons c cs w ws other e)
    ]

words-append : (s t : Bytes) → words (s ++ (b'_' ∷ t)) ≡ words s ++ words t
words-append [] t = words_cons_underscore b'_' t refl ∙ unfold words in refl
words-append (c ∷ cs) t =
    let (w, ws, e) = words-ne-nil cs in
    let ih : words (cs ++ (b'_' ∷ t)) ≡ w ∷ (ws ++ words t) =
      words-append cs t ∙ ap (λ p. p ++ words t) e in
    elim (Bool-cases (c == b'_')) [
      | inl here ↦
          words_cons_underscore c _ here
          ∙ ap (◌∷◌ []) (words-append cs t)
          ∙ rw (words_cons_underscore c cs here)
      | inr other ↦ words_cons c _ w _ other ih ∙ rw (words_cons c cs w ws other e)
    ]

camel-append : (ws vs : List Bytes) → camel (ws ++ vs) ≡ camel ws ++ camel vs
unfolding camel
camel-append [] vs = refl
camel-append ([] ∷ ws) vs = camel-append ws vs
camel-append ((c ∷ w) ∷ ws) vs = rw (camel-append ws vs) (
    rw
      (append_assoc (to_upper1 c) (w ++ camel ws) (camel vs), append_assoc w (camel ws) (camel vs)))

words-NoUnderscore : (s : Bytes) → All NoUnderscore (words s)
words-NoUnderscore [] = unfold words in (tt, tt)
words-NoUnderscore (c ∷ cs) =
    let (w, ws, e) = words-ne-nil cs in
    let pieces = subst (All NoUnderscore) e (words-NoUnderscore cs) in
    elim (Bool-cases (c == b'_')) [
      | inl here ↦ rw (words_cons_underscore c cs here) (tt, words-NoUnderscore cs)
      | inr other ↦ rw (words_cons c cs w ws other e) ((ground arith, pieces.0), pieces.1)
    ]

upper_cases :
    (c : ℕ) (b d : Bool)
    → c ≢ b'_'
    → (d ≡ true → c ≤ b'z')
    → NoUnderscore (if b then (if d then (c - 32) ∷ [] else c ∷ []) else 239 ∷ 191 ∷ 189 ∷ [])
upper_cases c true true h g = ((λ e. absurd (omega (arith, g refl))), tt)
upper_cases c true false h g = (h, tt)
upper_cases c false d h g = ((λ e. omega arith), ((λ e. omega arith), ((λ e. omega arith), tt)))

to_upper1-NoUnderscore : (c : ℕ) → c ≢ b'_' → NoUnderscore (to_upper1 c)
unfolding to_upper1
to_upper1-NoUnderscore c h =
    upper_cases c (ltb c 128) (leb b'a' c && leb c b'z') h (λ e. ground arith)

camel-NoUnderscore : (ws : List Bytes) → All NoUnderscore ws → NoUnderscore (camel ws)
unfolding camel
camel-NoUnderscore [] h = tt
camel-NoUnderscore ([] ∷ ws) h = camel-NoUnderscore ws h.1
camel-NoUnderscore ((c ∷ w) ∷ ws) h =
    All-append _ (to_upper1 c) (w ++ camel ws) (to_upper1-NoUnderscore c h.0.0)
      (All-append _ w (camel ws) h.0.1 (camel-NoUnderscore ws h.1))

-- The Go name has no underscore, and that of two names joined by an underscore is the Go names of
-- the two, one behind the other.
pub to_go_name-joins :
    (s t : Bytes)
    → NoUnderscore (to_go_name s) × (to_go_name (s ++ (b'_' ∷ t)) ≡ to_go_name s ++ to_go_name t)
unfolding to_go_name
to_go_name-joins s t = (
  camel-NoUnderscore (words s) (words-NoUnderscore s),
  ap camel (words-append s t) ∙ camel-append (words s) (words t),
)
