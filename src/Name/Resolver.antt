-- ===== src/Name/Resolver.antt =====
-- `resolve` of ros/name.go, beside the words of a name.
use rosgo.Prelude.{
  ℕ, true, false, ◌≡◌, refl, sym, ap, ◌∙◌, inl, inr, Bool-cases, List, [], ◌∷◌, ◌++◌, Bytes, ◌==◌,
  if◌then◌else◌, ok, arith,
}
use mathlib.Core.Path.{ap₂}
use rosgo.Name.{
  sep, split, join, nonempty, components, canonicalize_name, is_global_name, is_private_name,
  NameResolver, resolve,
}
use rosgo.Name.Split.{split-ne-nil, split_cons, nonempty-append, components-append}
use rosgo.Name.Canonical.{
  canonical, canonicalize_name-canonical, canonical_cons, components-canonical, canonical_global,
}

-- The words of the global name that `name` stands for, by the words of the namespace and the node.
abbrev pub words_under : List Bytes → List Bytes → Bytes → List Bytes
words_under ns node [] = ns
words_under ns node (c ∷ cs) =
    if c == sep
    then components (c ∷ cs)
    else if c == b'~'
    then ns ++ (node ++ components cs)
    else ns ++ components (c ∷ cs)

abbrev pub resolved_words : NameResolver → Bytes → List Bytes
resolved_words n = words_under (components n.namespace) (components n.node_name)

-- The namespace is global and canonical, as `newNameResolver` leaves it for a global argument.
pub record IsResolver (n : NameResolver) : Type 0 where
  pub global : is_global_name n.namespace ≡ true
  pub fixed : canonical n.namespace ≡ n.namespace

-- The canonical name of global words.
abbrev pub global_name : List Bytes → Bytes
global_name ws = sep ∷ join ws

global_canonical : (s : Bytes) → is_global_name s ≡ true → canonical s ≡ global_name (components s)
unfolding is_global_name
global_canonical [] h = cc
global_canonical (c ∷ cs) h = canonical_global c cs (ground arith)

-- The canonical name of a global prefix and what is put behind it.
under :
    (s t : Bytes)
    → is_global_name s ≡ true
    → canonicalize_name (s ++ (sep ∷ t)) ≡ ok (global_name (components s ++ components t))
unfolding is_global_name
under [] t h = cc
under (c ∷ cs) t h =
    canonicalize_name-canonical c _
    ∙ ap ok (canonical_global c _ (ground arith) ∙ ap global_name (components-append (c ∷ cs) t))

components_first :
    (c : ℕ) (s w : Bytes) (ws : List Bytes)
    → (c == sep) ≡ false
    → split s ≡ w ∷ ws
    → components (c ∷ s) ≡ (c ∷ w) ∷ nonempty ws
components_first c s w ws h e = ap nonempty (split_cons c s w ws h e) ∙ unfold nonempty in refl

-- Without a byte in front of it the first piece may be empty, and then it is no word.
components-split :
    (s w : Bytes) (ws : List Bytes)
    → split s ≡ w ∷ ws
    → components s ≡ nonempty (w ∷ []) ++ nonempty ws
components-split s w ws e = ap nonempty e ∙ nonempty-append (w ∷ []) ws

first_eq :
    {c d : ℕ} {w v : Bytes} {ws vs : List Bytes} → (c ∷ w) ∷ ws ≡ (d ∷ v) ∷ vs → (w ≡ v) × (ws ≡ vs)
first_eq e = (cc, cc)

-- `canonName[1:]` of a private name keeps the words behind the `~`.
private_tail :
    (c : ℕ) (cs t : Bytes)
    → (c == sep) ≡ false
    → canonical (c ∷ cs) ≡ c ∷ t
    → components t ≡ components cs
private_tail c cs t h e =
    let (w, ws, p) = split-ne-nil cs in
    let (v, vs, q) = split-ne-nil t in
    let same = ap components (sym e) ∙ components-canonical (c ∷ cs) in
    let (first, others) =
      first_eq (sym (components_first c t v vs h q) ∙ same ∙ components_first c cs w ws h p) in
    components-split t v vs q
    ∙ ap₂ (λ a b. nonempty (a ∷ []) ++ b) first others
    ∙ sym (components-split cs w ws p)

resolve_private :
    (n : NameResolver) (t cs : Bytes)
    → IsResolver n
    → components t ≡ components cs
    → canonicalize_name (n.namespace ++ (sep ∷ (n.node_name ++ (sep ∷ t))))
      ≡ ok (global_name (components n.namespace ++ (components n.node_name ++ components cs)))
resolve_private n t cs v h =
    under n.namespace (n.node_name ++ (sep ∷ t)) v.global
    ∙ ap (λ ws. ok (global_name (components n.namespace ++ ws)))
        (components-append n.node_name t ∙ ap (λ ws. components n.node_name ++ ws) h)

resolve_relative :
    (n : NameResolver) (name : Bytes)
    → IsResolver n
    → canonicalize_name (n.namespace ++ (sep ∷ canonical name))
      ≡ ok (global_name (components n.namespace ++ components name))
resolve_relative n name v =
    under n.namespace (canonical name) v.global
    ∙ ap (λ ws. ok (global_name (components n.namespace ++ ws))) (components-canonical name)

-- A resolver with a global, canonical namespace resolves every name: the answer is the canonical
-- global name of the words that the name stands for.
pub resolve-resolved_words :
    (n : NameResolver) (name : Bytes)
    → IsResolver n
    → resolve n name ≡ ok (global_name (resolved_words n name))
unfolding resolve
resolve-resolved_words n [] v = ap ok (sym v.fixed ∙ global_canonical n.namespace v.global)
resolve-resolved_words n (c ∷ cs) v =
    let (t, e) = canonical_cons c cs in
    rw (canonicalize_name-canonical c cs) (
      rw e (elim (Bool-cases (c == sep)) [
        | inl global ↦
            unfold is_global_name in rw global (ap ok (sym e ∙ canonical_global c cs global))
        | inr relative ↦ elim (Bool-cases (c == b'~')) [
          | inl private ↦
              unfold is_global_name is_private_name in
              rw (relative, private) (resolve_private n t cs v (private_tail c cs t relative e))
          | inr plain ↦
              unfold is_global_name is_private_name in
              rw (relative, plain) (rw (← e) (resolve_relative n (c ∷ cs) v))
        ]
      ]))
