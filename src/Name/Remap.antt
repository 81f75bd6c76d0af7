-- ===== src/Name/Remap.antt =====
-- `newNameResolver` and `remap`: what a name is remapped to.
use rosgo.Prelude.{
  true, ◌≡◌, refl, ap, ◌∙◌, List, [], ◌∷◌, Bytes, str_eq, str_eq_iff, if◌then◌else◌, ok, arith,
  Option, none, some,
}
use rosgo.Name.{
  Outcome, is_global_name, NameResolver, resolve_mapping, new_name_resolver, remap, lookup, insert,
}
use rosgo.Name.Canonical.{
  canonical, canonicalize_name-canonical, is_global_name-canonical, canonical-canonical,
}
use rosgo.Name.Resolver.{IsResolver, global_name, resolved_words, resolve-resolved_words}

pub lookup-insert :
    (key other value : Bytes) (names : List (Bytes × Bytes))
    → lookup other (insert key value names)
      ≡ (if str_eq key other then some value else lookup other names)
unfolding lookup insert
lookup-insert key other value [] = refl
lookup-insert key other value ((first, old) ∷ names) = ground (
  arith,
  lookup-insert key other value names,
  str_eq_iff key other,
  str_eq_iff first key,
  str_eq_iff first other,
)

abbrev pub resolved : NameResolver → Bytes → Bytes
resolved n name = global_name (resolved_words n name)

-- The value of the last entry whose key `to` takes to `key`.
abbrev pub last_match : (Bytes → Bytes) → List (Bytes × Bytes) → Bytes → Option Bytes → Option Bytes
last_match to [] key found = found
last_match to ((k, v) ∷ rest) key found =
    last_match to rest key (if str_eq (to k) key then some (to v) else found)

resolve_mapping-last_match :
    (n : NameResolver) (entries done : List (Bytes × Bytes))
    → IsResolver n
    → (m : List (Bytes × Bytes)) × (resolve_mapping n entries done ≡ ok m)
      × ((key : Bytes) → lookup key m ≡ last_match (resolved n) entries key (lookup key done))
unfolding resolve_mapping
resolve_mapping-last_match n [] done v = (done, refl, λ key. refl)
resolve_mapping-last_match n ((k, w) ∷ rest) done v =
    let (m, e, found) =
      resolve_mapping-last_match n rest (insert (resolved n k) (resolved n w) done) v in
    (
      m,
      rw (resolve-resolved_words n k v) (rw (resolve-resolved_words n w v) e),
      λ key.
          found key
          ∙ ap (last_match (resolved n) rest key)
              (lookup-insert (resolved n k) key (resolved n w) done),
    )

-- The resolver before its mapping is resolved.
abbrev unmapped : Bytes → Bytes → List (Bytes × Bytes) → NameResolver
unmapped ns node remapping = record {
  node_name = node;
  namespace = ns;
  mapping = remapping;
  resolved_mapping = [];
}

unmapped-IsResolver :
    (ns node : Bytes) (remapping : List (Bytes × Bytes))
    → is_global_name ns ≡ true
    → IsResolver (unmapped (canonical ns) node remapping)
unmapped-IsResolver ns node remapping h = record {
  global = is_global_name-canonical ns ∙ h;
  fixed = canonical-canonical ns;
}

abbrev pub or_else : Option Bytes → Bytes → Bytes
or_else none name = name
or_else (some v) name = v

answer :
    (o : Option Bytes) (key : Bytes)
    → (elim o as (λ _. Outcome Bytes) [ some value ↦ ok value | none ↦ ok key ])
      ≡ ok (or_else o key)
answer none key = refl
answer (some v) key = refl

-- With a global namespace `newNameResolver` returns a resolver, and `remap` then answers the
-- resolved value of the last entry whose key resolves as the name does, or else the resolved name.
pub remap-last_match :
    (ns node : Bytes) (remapping : List (Bytes × Bytes))
    → is_global_name ns ≡ true
    → (n : NameResolver) × (new_name_resolver ns node remapping ≡ ok n)
      × IsResolver n
      × ((name : Bytes)
          → remap n name
            ≡ ok (
                or_else
                  (last_match (resolved n) remapping (resolved n name) none)
                  (resolved n name)))
unfolding new_name_resolver remap lookup
remap-last_match [] node remapping h = unfold is_global_name in cc
remap-last_match (c ∷ cs) node remapping h =
    let n = unmapped (canonical (c ∷ cs)) node remapping in
    let v = unmapped-IsResolver (c ∷ cs) node remapping h in
    let (m, e, found) = resolve_mapping-last_match n remapping [] v in
    let n' = record n { resolved_mapping = m } in
    let v' : IsResolver n' = record { global = v.global; fixed = v.fixed } in
    (
      n',
      rw (canonicalize_name-canonical c cs) (rw e),
      v',
      λ name. rw (resolve-resolved_words n' name v') (
          answer (lookup (resolved n name) m) (resolved n name)
          ∙ ap (λ o. ok (or_else o (resolved n name))) (found _)),
    )
