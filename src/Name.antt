-- ===== src/Name.antt =====
-- ros/name.go: ROS names. A Go string is a list of bytes; a slice out of range panics.
pub mod Split
pub mod Canonical
pub mod Namespace
pub mod Qualify
pub mod Resolver
pub mod Remap
use rosgo.Prelude.{
  ℕ, zero, suc, ◌+◌, ◌-◌, Bool, true, false, ◌&&◌, ◌||◌, not, List, [], ◌∷◌, ◌++◌, Option, none,
  some, Bytes, codes, str_eq, length, take, drop, ltb, leb, ◌==◌, if◌then◌else◌, Result, ok, err,
  panic, ◌>>=◌,
}

abbrev pub sep : ℕ
sep = b'/'

abbrev pub global_ns : Bytes
global_ns = codes "/"

abbrev pub private_ns : Bytes
private_ns = codes "~"

-- `strings.Split(s, "/")`: the pieces between the separators, one at least.
unfoldable pub split : Bytes → List Bytes
split [] = [] ∷ []
split (c ∷ cs) =
    if c == sep
    then [] ∷ split cs
    else elim (split cs) [ [] ↦ (c ∷ []) ∷ [] | w ∷ ws ↦ (c ∷ w) ∷ ws ]

-- `strings.Join(ws, "/")`.
unfoldable pub join : List Bytes → Bytes
join [] = []
join (w ∷ []) = w
join (w ∷ v ∷ ws) = w ++ (sep ∷ join (v ∷ ws))

-- The loop that keeps the words of a positive length.
unfoldable pub nonempty : List Bytes → List Bytes
nonempty [] = []
nonempty ([] ∷ ws) = nonempty ws
nonempty ((c ∷ w) ∷ ws) = (c ∷ w) ∷ nonempty ws

abbrev pub components : Bytes → List Bytes
components name = nonempty (split name)

-- The errors of `qualifyNodeName`.
pub data Error : Type 0 where
  empty_node_name private_node_name : Error

abbrev pub Outcome : Type 0 → Type 0
Outcome = Result Error

-- `name[0:1]`.
abbrev pub head1 : Bytes → Outcome Bytes
head1 [] = panic
head1 (c ∷ _) = ok (c ∷ [])

unfoldable pub canonicalize_name : Bytes → Outcome Bytes
canonicalize_name name =
    if str_eq name global_ns
    then ok name
    else head1 name >>= λ h.
        if str_eq h global_ns
        then ok (global_ns ++ join (components name))
        else ok (join (components name))

unfoldable pub is_global_name : Bytes → Bool
is_global_name [] = false
is_global_name (c ∷ _) = str_eq (c ∷ []) global_ns

unfoldable pub is_private_name : Bytes → Bool
is_private_name [] = false
is_private_name (c ∷ _) = str_eq (c ∷ []) private_ns

-- `name[:strings.LastIndex(name, "/")+1]`: what stands up to the last separator, with it.
unfoldable pub up_to_last : Bytes → Bytes
up_to_last [] = []
up_to_last (c ∷ cs) = elim (up_to_last cs) [
  | [] ↦ if c == sep then c ∷ [] else []
  | d ∷ ds ↦ c ∷ d ∷ ds
]

-- `name[:len(name)-1]` where the name ends in a separator, and the name otherwise.
unfoldable pub trim_last : Bytes → Bytes
trim_last [] = []
trim_last (c ∷ []) = if c == sep then [] else c ∷ []
trim_last (c ∷ d ∷ ds) = c ∷ trim_last (d ∷ ds)

unfoldable pub get_namespace : Bytes → Bytes
get_namespace [] = global_ns
get_namespace (c ∷ cs) =
    let result = up_to_last (trim_last (c ∷ cs)) in if length result == 0 then sep ∷ [] else result

-- `components[:len-1]` and `components[len-1]`; without components the slice panics.
abbrev pub split_last : List Bytes → Outcome (List Bytes × Bytes)
split_last [] = panic
split_last (w ∷ []) = ok ([], w)
split_last (w ∷ v ∷ ws) = split_last (v ∷ ws) >>= λ (front, last). ok (w ∷ front, last)

-- The namespace and the name in it.
unfoldable pub qualify_node_name : Bytes → Outcome (Bytes × Bytes)
qualify_node_name [] = err empty_node_name
qualify_node_name (c ∷ cs) =
    if str_eq (c ∷ []) private_ns
    then err private_node_name
    else canonicalize_name (c ∷ cs) >>= λ canon_name.
        let words = components canon_name in
        split_last words >>= λ (front, last).
        if length words == 1 then ok (global_ns, last) else ok (global_ns ++ join front, last)

pub record NameResolver : Type 0 where
  pub node_name : Bytes
  pub namespace : Bytes
  pub mapping : List (Bytes × Bytes)
  pub resolved_mapping : List (Bytes × Bytes)

-- `canonName[1:]`.
abbrev pub tail1 : Bytes → Outcome Bytes
tail1 [] = panic
tail1 (_ ∷ cs) = ok cs

unfoldable pub resolve : NameResolver → Bytes → Outcome Bytes
resolve n [] = ok n.namespace
resolve n (c ∷ cs) = canonicalize_name (c ∷ cs) >>= λ canon_name.
    if is_global_name canon_name
    then ok canon_name
    else if is_private_name canon_name
    then (tail1 canon_name >>= λ t.
        canonicalize_name (n.namespace ++ (sep ∷ (n.node_name ++ (sep ∷ t)))))
    else canonicalize_name (n.namespace ++ (sep ∷ canon_name))

-- Reading and writing a NameMap.
unfoldable pub lookup : Bytes → List (Bytes × Bytes) → Option Bytes
lookup k [] = none
lookup k ((j, v) ∷ m) = if str_eq j k then some v else lookup k m

unfoldable pub insert : Bytes → Bytes → List (Bytes × Bytes) → List (Bytes × Bytes)
insert k v [] = (k, v) ∷ []
insert k v ((j, w) ∷ m) = if str_eq j k then (k, v) ∷ m else (j, w) ∷ insert k v m

-- The loop over `n.mapping`. Go visits the entries of a map in any order: the list is that order.
unfoldable pub resolve_mapping :
    NameResolver → List (Bytes × Bytes) → List (Bytes × Bytes) → Outcome (List (Bytes × Bytes))
resolve_mapping n [] done = ok done
resolve_mapping n ((k, v) ∷ rest) done = resolve n k >>= λ new_key.
    resolve n v >>= λ new_value. resolve_mapping n rest (insert new_key new_value done)

unfoldable pub new_name_resolver : Bytes → Bytes → List (Bytes × Bytes) → Outcome NameResolver
new_name_resolver namespace node_name remapping = canonicalize_name namespace >>= λ ns.
    let n : NameResolver = record {
      node_name = node_name;
      namespace = ns;
      mapping = remapping;
      resolved_mapping = [];
    } in
    resolve_mapping n remapping [] >>= λ m. ok (record n { resolved_mapping = m })

unfoldable pub remap : NameResolver → Bytes → Outcome Bytes
remap n name = resolve n name >>= λ key. elim (lookup key n.resolved_mapping) [
  | some value ↦ ok value
  | none ↦ ok key
]
