-- ===== src/Tests/Names.antt =====
-- Names and their resolution (ros/name.go).
use rosgo.Prelude.{◌⊎◌, false, none, ◌≡◌, ◌∷◌, [], refl, List, Bytes, codes, ok}
use rosgo.Name.{
  canonicalize_name, is_global_name, components, qualify_node_name, NameResolver, resolve,
  new_name_resolver, remap, split, nonempty, join,
}
use rosgo.Name.Canonical.{Single, canonical, canonicalize_name_idem}
use rosgo.Name.Qualify.{QualifyEnds, qualify_node_name-ends}
use rosgo.Name.Resolver.{IsResolver, global_name, resolved_words, resolve-resolved_words}
use rosgo.Name.Remap.{resolved, last_match, or_else, remap-last_match}

canonicalized : canonicalize_name (codes "//a//b/") ≡ ok (codes "/a/b")
unfolding canonicalize_name split join nonempty
canonicalized = refl

canonicalize_name_idem_example :
    (canonicalize_name (codes "/a/b") ≡ ok (codes "/a/b"))
    × (components (codes "/a/b") ≡ components (codes "//a//b/"))
    × (is_global_name (codes "/a/b") ≡ is_global_name (codes "//a//b/"))
    × ((codes "/a/b" ≡ codes "/") ⊎ Single false (codes "/a/b"))
canonicalize_name_idem_example =
    canonicalize_name_idem (codes "//a//b/") (codes "/a/b") canonicalized

qualify_node_name-ends_example : QualifyEnds (codes "/a/b") (qualify_node_name (codes "/a/b"))
qualify_node_name-ends_example = qualify_node_name-ends (codes "/a/b")

abbrev in_a : NameResolver
in_a = record { node_name = codes "n"; namespace = codes "/a"; mapping = []; resolved_mapping = [] }

in_a-IsResolver : IsResolver in_a
in_a-IsResolver = record {
  global = unfold is_global_name in refl;
  fixed = unfold canonical split join nonempty in refl;
}

resolve-resolved_words_example :
    resolve in_a (codes "~b/c") ≡ ok (global_name (resolved_words in_a (codes "~b/c")))
resolve-resolved_words_example = resolve-resolved_words in_a (codes "~b/c") in_a-IsResolver

abbrev pairs : List (Bytes × Bytes)
pairs = (codes "b", codes "/x") ∷ (codes "/a/b", codes "y") ∷ []

remap-last_match_example :
    (n : NameResolver) × (new_name_resolver (codes "/a") (codes "n") pairs ≡ ok n)
    × IsResolver n
    × ((name : Bytes)
        → remap n name
          ≡ ok (or_else (last_match (resolved n) pairs (resolved n name) none) (resolved n name)))
remap-last_match_example =
    remap-last_match (codes "/a") (codes "n") pairs (unfold is_global_name in refl)
