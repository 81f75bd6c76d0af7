-- ===== src/Node/Names/Qualified.antt =====
-- The words of a node's qualified name.
use rosgo.Prelude.{
  ◌≡◌, refl, sym, ap, ◌∙◌, true, List, [], ◌∷◌, ◌++◌, Option, none, some, Bytes, str_eq, str_eq_iff,
  ok, err, panic, stuck, inl, inr, Bool-cases, codes, ◌>>=◌,
}
use rosgo.Name.{
  Outcome, join, split, nonempty, sep, global_ns, components, is_global_name, lookup,
  qualify_node_name,
}
use rosgo.Name.Split.{IsWord, components-append, components-join, components_cons_sep}
use rosgo.Name.Qualify.{QualifyEnds, qualify_node_name-ends}
use rosgo.Node.Names.{Names, raw_name, chosen_namespace, qualified, named, node_names}

-- How the naming of a node ends: with the errors of `qualifyNodeName`, or with names.
abbrev pub NamingEnds : Bytes → Outcome Names → Type 0
NamingEnds raw (ok n) =
    IsWord n.name
    × (is_global_name n.namespace ≡ true)
    × (is_global_name n.qualified_name ≡ true)
    × (components n.qualified_name ≡ components n.namespace ++ n.name ∷ [])
NamingEnds raw (err e) = qualify_node_name raw ≡ err e
NamingEnds raw panic = qualify_node_name raw ≡ panic
NamingEnds raw stuck = ⊥

chosen_namespace-global :
    (own env : Bytes) (special : Option Bytes)
    → is_global_name own ≡ true
    → is_global_name (chosen_namespace own env special) ≡ true
unfolding chosen_namespace
chosen_namespace-global own env (some ns) h = unfold is_global_name in refl
chosen_namespace-global own [] none h = h
chosen_namespace-global own (c ∷ s) none h = unfold is_global_name in refl

global_append : (ns more : Bytes) → is_global_name ns ≡ true → is_global_name (ns ++ more) ≡ true
unfolding is_global_name
global_append [] more h = cc
global_append (c ∷ s) more h = h

one_word : (w : Bytes) → IsWord w → components w ≡ w ∷ []
unfolding join
one_word w h = components-join (w ∷ []) (h, tt)

root_words : components global_ns ≡ []
unfolding split nonempty
root_words = refl

qualified-words :
    (ns name : Bytes)
    → IsWord name
    → is_global_name ns ≡ true
    → (is_global_name (qualified ns name) ≡ true)
      × (components (qualified ns name) ≡ components ns ++ name ∷ [])
unfolding qualified
qualified-words ns name w g = elim (Bool-cases (str_eq ns global_ns)) [
  | inl root ↦
      let e = (str_eq_iff ns global_ns).0 root in
      rw root (
        global_append ns name g,
        rw e (
            components_cons_sep name
            ∙ one_word name w
            ∙ ap (λ ws. ws ++ name ∷ []) (sym root_words)),
      )
  | inr other ↦ rw other (
    global_append ns (sep ∷ name) g,
    components-append ns name ∙ ap (λ ws. components ns ++ ws) (one_word name w),
  )
]

named-ends :
    (raw env : Bytes) (special : Option Bytes) (r : Outcome (Bytes × Bytes))
    → qualify_node_name raw ≡ r
    → QualifyEnds raw r
    → NamingEnds raw (r >>= λ (own, base). ok (named (chosen_namespace own env special) base))
named-ends raw env special (ok (own, base)) e h =
    let global = chosen_namespace-global own env special h.1 in
    let words = qualified-words (chosen_namespace own env special) base h.0 global in
    (h.0, global, words.0, words.1)
named-ends raw env special (err x) e h = e
named-ends raw env special panic e h = e
named-ends raw env special stuck e h = h

-- The name of a node is one word, its namespace and its qualified name are global, and the words of the
-- qualified name are those of the namespace and the name; the naming fails just as qualifyNodeName does on
-- the name that was chosen.
pub node_names-ends :
    (name env : Bytes) (specials : List (Bytes × Bytes))
    → NamingEnds (raw_name name (lookup (codes "__name") specials)) (node_names name env specials)
unfolding node_names
node_names-ends name env specials =
    named-ends _ env (lookup (codes "__ns") specials) _ refl
      (qualify_node_name-ends (raw_name name (lookup (codes "__name") specials)))
