-- ===== src/Message/Schema/Keys.antt =====
-- ros/dynamic_message.go: the keys of the properties of a schema.
use rosgo.Prelude.{
  ℕ, zero, suc, ◌≡◌, ◌≢◌, refl, sym, ap, ◌∙◌, inl, inr, Bool-cases, List, [], ◌∷◌, ◌++◌, Bytes,
  str_eq, str_eq_iff, ok, >>=-eq-ok, All, append_assoc, append-nil,
}
use mathlib.Core.Path.{subst}
use rosgo.Gengo.{Field, MsgSpec}
use rosgo.Message.{Outcome}
use rosgo.Message.Types.{Context}
use rosgo.Message.Fits.{DistinctNames}
use rosgo.Message.Schema.{
  Json, Members, nil, cons, set, title, field_schema, properties, schema_of, json_schema,
}

abbrev pub keys : Members → List Bytes
keys nil = []
keys (cons k v m) = k ∷ keys m

abbrev pub names : List Field → List Bytes
names [] = []
names (f ∷ fs) = f.name ∷ names fs

abbrev NotIn : Bytes → List Bytes → Type 0
NotIn k = All (λ j. j ≢ k)

-- A new key is set behind the others.
keys-set :
    (k : Bytes) (v : Json) (m : Members) → NotIn k (keys m) → keys (set k v m) ≡ keys m ++ (k ∷ [])
unfolding set
keys-set k v nil h = refl
keys-set k v (cons j w m) h = elim (Bool-cases (str_eq j k)) [
  | inl same ↦ absurd (h.0 ((str_eq_iff j k).0 same))
  | inr other ↦ rw other (ap (◌∷◌ j) (keys-set k v m h.1))
]

NotIn-snoc : (k j : Bytes) (ks : List Bytes) → NotIn k ks → j ≢ k → NotIn k (ks ++ (j ∷ []))
NotIn-snoc k j [] h ne = (ne, tt)
NotIn-snoc k j (i ∷ ks) h ne = (h.0, NotIn-snoc k j ks h.1 ne)

fresh_names :
    (name : Bytes) (ks : List Bytes) (fs : List Field)
    → All (λ g. name ≢ g.name) fs
    → All (λ g. NotIn g.name ks) fs
    → All (λ g. NotIn g.name (ks ++ (name ∷ []))) fs
fresh_names name ks [] ne h = tt
fresh_names name ks (g ∷ fs) ne h =
    (NotIn-snoc g.name name ks h.0 ne.0, fresh_names name ks fs ne.1 h.1)

keys-properties :
    (schema : MsgSpec → Bytes → Outcome Json) (c : Context) (topic : Bytes) (fs : List Field)
    (m m' : Members)
    → DistinctNames fs
    → All (λ g. NotIn g.name (keys m)) fs
    → properties schema c topic fs m ≡ ok m'
    → keys m' ≡ keys m ++ names fs
unfolding properties
keys-properties schema c topic [] m m' d h e =
    let same : m' ≡ m = cc in ap keys same ∙ sym (append-nil (keys m))
keys-properties schema c topic (f ∷ fs) m m' d h e =
    let (j, _, rest) = >>=-eq-ok (field_schema schema c f (title topic f.name)) _ e in
    let k = keys-set f.name j m h.0 in
    keys-properties schema c topic fs (set f.name j m) m' d.1
      (subst (λ ks. All (λ g. NotIn g.name ks) fs) (sym k) (fresh_names f.name (keys m) fs d.0 h.1))
      rest
    ∙ ap (λ ks. ks ++ names fs) k
    ∙ append_assoc (keys m) (f.name ∷ []) (names fs)

no_keys : (fs : List Field) → All (λ g. NotIn g.name []) fs
no_keys [] = tt
no_keys (f ∷ fs) = (tt, no_keys fs)

-- A schema that is made has one property for each field, under its name and in the order of the
-- fields, if no two fields have one name.
pub json_schema-keys :
    (n : ℕ) (c : Context) (spec : MsgSpec) (topic : Bytes) (j : Json)
    → DistinctNames spec.fields
    → json_schema n c spec topic ≡ ok j
    → (m : Members) × (j ≡ schema_of topic m) × (keys m ≡ names spec.fields)
unfolding json_schema
json_schema-keys zero c spec topic j d e = cc
json_schema-keys (suc n) c spec topic j d e =
    let (m, made, r) = >>=-eq-ok (properties (json_schema n c) c topic spec.fields nil) _ e in
    (
      m,
      cc,
      keys-properties (json_schema n c) c topic spec.fields nil m d (no_keys spec.fields) made,
    )
