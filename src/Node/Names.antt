-- ===== src/Node/Names.antt =====
-- The namespace and the names that newDefaultNode of ros/node.go gives a node.
pub mod Qualified
use rosgo.Prelude.{
  Bool, true, false, List, [], ◌∷◌, ◌++◌, Option, none, some, Bytes, codes, str_eq, ◌==◌,
  if◌then◌else◌, Result, ok, err, panic, stuck, ◌>>=◌,
}
use rosgo.Name.{Outcome, sep, global_ns, lookup, qualify_node_name}

pub record Names : Type 0 where
  pub namespace : Bytes
  pub name : Bytes
  pub qualified_name : Bytes

-- `strings.TrimPrefix(ns, "/")`
abbrev pub trim_prefix : Bytes → Bytes
trim_prefix [] = []
trim_prefix (c ∷ s) = if c == sep then s else c ∷ s

abbrev pub absolute : Bytes → Bytes
absolute ns = global_ns ++ trim_prefix ns

-- The special name `__name`, if it is given, and otherwise the name that the node was made with.
abbrev pub raw_name : Bytes → Option Bytes → Bytes
raw_name name none = name
raw_name name (some v) = v

-- The special name `__ns`, the environment's ROS_NAMESPACE, or the namespace of the name, in that order.
unfoldable pub chosen_namespace : Bytes → Bytes → Option Bytes → Bytes
chosen_namespace own env (some ns) = absolute ns
chosen_namespace own [] none = own
chosen_namespace own (c ∷ s) none = absolute (c ∷ s)

unfoldable pub qualified : Bytes → Bytes → Bytes
qualified ns name = if str_eq ns global_ns then ns ++ name else ns ++ sep ∷ name

abbrev pub named : Bytes → Bytes → Names
named ns name = record { namespace = ns; name = name; qualified_name = qualified ns name }

unfoldable pub node_names : Bytes → Bytes → List (Bytes × Bytes) → Outcome Names
node_names name env specials =
    qualify_node_name (raw_name name (lookup (codes "__name") specials)) >>= λ (own, base).
    ok (named (chosen_namespace own env (lookup (codes "__ns") specials)) base)
