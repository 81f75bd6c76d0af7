-- ===== src/Gengo/Context/Cache.antt =====
-- libgengo/context.go: loads with a registry beside the computation from the files.
use rosgo.Prelude.{
  ℕ, zero, suc, Bool, true, false, Option, none, some, Bytes, str_eq, str_eq_iff, if◌then◌else◌,
  Result, ok, err, panic, stuck, ◌≡◌, ◌≢◌, refl, sym, ap, ◌∙◌, inl, inr, ◌⊎◌, Option-cases,
  ok-injective,
}
use mathlib.Core.Path.{subst}
use mathlib.Core.Option.{some-injective}
use rosgo.Gengo.{MsgSpec}
use rosgo.Gengo.Context.{
  Env, Registry, Error, parse_msg, with_sum, cases, bind, ret, fail, lift, put, register,
  msg_md5_with, finish_with, load_known_with, load_msg_with, Loader,
}
use rosgo.Gengo.Context.Direct.{Answer, either, definition, direct_text, direct_sum}

module _ (env : Env) where
  -- A specification is that of a name: parsed from its file, with its sum.
  pub record IsKnown (name : Bytes) (spec : MsgSpec) : Type 0 where
    pub parsed : MsgSpec
    pub sum : Bytes
    pub depth : ℕ
    pub defined : definition env name ≡ ok parsed
    pub spec_is : spec ≡ with_sum sum parsed
    pub sum_is : direct_sum env depth parsed ≡ some (ok sum)

  unfoldable pub IsCoherent : Registry → Type 0
  IsCoherent r = (name : Bytes) (spec : MsgSpec) → r name ≡ some spec → IsKnown name spec

  -- A computation on the registry gives an answer, and leaves the registry coherent.
  abbrev pub Gives {ℓ} : {A : Type ℓ} → Option (Result Error A × Registry) → Answer A → Type ℓ
  Gives none a = a ≡ none
  Gives (some (o, r)) a = (a ≡ some o) × IsCoherent r

  pub cases-Gives {ℓ} :
      {A B : Type ℓ} (f : A → Loader B) (f2 : A → Answer B) (g : Error → Loader B)
      (g2 : Error → Answer B) (x : Option (Result Error A × Registry)) (a : Answer A)
      → Gives x a
      → ((v : A) (r : Registry) → IsCoherent r → Gives (f v r) (f2 v))
      → ((e : Error) (r : Registry) → IsCoherent r → Gives (g e r) (g2 e))
      → Gives (cases f g x) (either f2 g2 a)
  cases-Gives f f2 g g2 none a h k l = rw h refl
  cases-Gives f f2 g g2 (some (ok v, r)) a h k l = rw h.0 (k v r h.1)
  cases-Gives f f2 g g2 (some (err e, r)) a h k l = rw h.0 (l e r h.1)
  cases-Gives f f2 g g2 (some (panic, r)) a h k l = rw h.0 (refl, h.1)
  cases-Gives f f2 g g2 (some (stuck, r)) a h k l = rw h.0 (refl, h.1)

  put-IsCoherent :
      (name : Bytes) (spec : MsgSpec) (r : Registry)
      → IsKnown name spec
      → IsCoherent r
      → IsCoherent (put name spec r)
  unfolding IsCoherent
  put-IsCoherent name spec r h k other s e = elim (chosen (str_eq other name) spec s (r other) e) [
    | inl (q, t) ↦
        subst (λ o. IsKnown o s) (sym ((str_eq_iff other name).0 q)) (subst (IsKnown name) t h)
    | inr t ↦ k other s t
  ]
    where
      chosen :
          (b : Bool) (x y : MsgSpec) (o : Option MsgSpec)
          → (if b then some x else o) ≡ some y
          → ((b ≡ true) × (x ≡ y)) ⊎ (o ≡ some y)
      chosen true x y o e = inl (refl, some-injective x y e)
      chosen false x y o e = inr e

  pub known_text :
      (n : ℕ) (name : Bytes) (spec d : MsgSpec)
      → IsKnown name spec
      → definition env name ≡ ok d
      → direct_text env n spec ≡ direct_text env n d
  known_text n name spec d k h =
      ap (direct_text env n) k.spec_is
      ∙ without_sum n k.sum k.parsed
      ∙ ap (direct_text env n) (ok-injective k.parsed d (sym k.defined ∙ h))
    where
      without_sum :
          (m : ℕ) (sum : Bytes) (s : MsgSpec)
          → direct_text env m (with_sum sum s) ≡ direct_text env m s
      without_sum zero sum s = unfold direct_text in refl
      without_sum (suc m) sum s = unfold direct_text in refl

  module _ (n : ℕ) (md5_text : MsgSpec → Loader Bytes)
      (ih : (spec : MsgSpec) (r : Registry)
        → IsCoherent r
        → Gives (md5_text spec r) (direct_text env n spec)) where
    pub msg_md5-Gives :
        (spec : MsgSpec) (r : Registry)
        → IsCoherent r
        → Gives (msg_md5_with env md5_text spec r) (direct_sum env n spec)
    msg_md5-Gives spec r c =
        cases-Gives _ _ _ _ (md5_text spec r) (direct_text env n spec) (ih spec r c)
          (λ t r2 c2. (refl, c2)) (λ e r2 c2. (refl, c2))

    -- A load of a name that the files define as `d`.
    abbrev pub Loads : Bytes → MsgSpec → Option (Result Error MsgSpec × Registry) → Type 0
    Loads name d none = direct_sum env n d ≡ none
    Loads name d (some (ok s, r)) = IsKnown name s × IsCoherent r
    Loads name d (some (err e, r)) = (direct_sum env n d ≡ some (err e)) × IsCoherent r
    Loads name d (some (panic, r)) = (direct_sum env n d ≡ some panic) × IsCoherent r
    Loads name d (some (stuck, r)) = (direct_sum env n d ≡ some stuck) × IsCoherent r

    -- What a load does when the name is not registered.
    abbrev pub loaded : Bytes → Result Error MsgSpec → Loader MsgSpec
    loaded name o =
        bind (lift o)
          (λ d. bind (finish_with env md5_text name d) (λ s. bind (register name s) (λ _. ret s)))

    load_unknown :
        (name : Bytes) (r : Registry)
        → load_known_with env md5_text name none r ≡ loaded name (definition env name) r
    unfolding definition
    load_unknown name r = elim (Option-cases (env.msg_path_map name)) [
      | inl e ↦ rw e refl
      | inr (path, e) ↦ rw e (elim (Option-cases (env.read_file path)) [
        | inl g ↦ rw g refl
        | inr (text, g) ↦ rw g (by_parse text (parse_msg env.library text name))
      ])
    ]
      where
        by_parse :
            (text : Bytes) (o : Result Error MsgSpec)
            → bind
                (bind (lift o) (finish_with env md5_text name))
                (λ s. bind (register name s) (λ _. ret s))
                r
              ≡ loaded name o r
        by_parse text (ok d) = refl
        by_parse text (err d) = refl
        by_parse text panic = refl
        by_parse text stuck = refl

    loaded-Loads :
        (name : Bytes) (d : MsgSpec) (x : Option (Result Error Bytes × Registry))
        → definition env name ≡ ok d
        → Gives x (direct_sum env n d)
        → Loads name d (
            cases
              (λ s. bind (register name s) (λ _. ret s))
              fail
              (cases
                (λ sum. bind (register name (with_sum sum d)) (λ _. ret (with_sum sum d)))
                fail
                x))
    unfolding register
    loaded-Loads name d none h g = g
    loaded-Loads name d (some (ok sum, r)) h g =
        let k : IsKnown name (with_sum sum d) = record {
          parsed = d;
          sum = sum;
          depth = n;
          defined = h;
          spec_is = refl;
          sum_is = g.0;
        } in
        (k, put-IsCoherent name (with_sum sum d) _ k (put-IsCoherent name (with_sum sum d) r k g.1))
    loaded-Loads name d (some (err e, r)) h g = g
    loaded-Loads name d (some (panic, r)) h g = g
    loaded-Loads name d (some (stuck, r)) h g = g

    pub load-Loads :
        (name : Bytes) (d : MsgSpec) (r : Registry)
        → definition env name ≡ ok d
        → IsCoherent r
        → Loads name d (load_msg_with env md5_text name r)
    load-Loads name d r h c = elim (Option-cases (r name)) [
      | inl e ↦ rw (e) (
          subst (Loads name d) (sym (load_unknown name r ∙ ap (λ o. loaded name o r) h))
            (loaded-Loads name d (msg_md5_with env md5_text d r) h (msg_md5-Gives d r c)))
      | inr (s, e) ↦ rw e (unfold IsCoherent in c name s e, c)
    ]

    -- A name that the files do not define is not registered either.
    pub undefined :
        (name : Bytes) (o : Result Error MsgSpec) (r : Registry)
        → definition env name ≡ o
        → IsCoherent r
        → ((d : MsgSpec) → o ≢ ok d)
        → load_msg_with env md5_text name r ≡ loaded name o r
    undefined name o r h c k = elim (Option-cases (r name)) [
      | inl e ↦ rw e (load_unknown name r ∙ ap (λ p. loaded name p r) h)
      | inr (s, e) ↦
          let known : IsKnown name s = unfold IsCoherent in c name s e in
          absurd (k known.parsed (sym h ∙ known.defined))
    ]
