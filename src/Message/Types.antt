-- ===== src/Message/Types.antt =====
-- `newDynamicMessageTypeNested`: from the name of a type to its specification.
use rosgo.Prelude.{
  List, [], ◌∷◌, ◌++◌, Option, none, some, Bytes, codes, str_eq, if◌then◌else◌, ok, err,
}
use rosgo.Gengo.{MsgSpec}
use rosgo.Message.{no_type, Outcome}

-- The message context: what is registered when a call begins, and what loading a definition that
-- is not yet registered gives (`none` if there is none, or if it does not parse).
pub record Context : Type 0 where
  pub registry : List (Bytes × MsgSpec)
  pub load : Bytes → Option MsgSpec

unfoldable pub registered : Bytes → List (Bytes × MsgSpec) → Option MsgSpec
registered k [] = none
registered k ((j, s) ∷ r) = if str_eq j k then some s else registered k r

-- `LoadMsg`, as far as its answer goes.
unfoldable pub load_msg : Context → Bytes → Outcome MsgSpec
load_msg c fullname = elim (registered fullname c.registry) [
  | some spec ↦ ok spec
  | none ↦ elim (c.load fullname) [ some spec ↦ ok spec | none ↦ err (no_type fullname) ]
]

-- The name under which a type is looked up, for a type named in a message of `package_name`.
unfoldable pub full_type_name : Context → Bytes → Bytes → Bytes
full_type_name c type_name package_name =
    if str_eq type_name (codes "Header")
    then codes "std_msgs/Header"
    else elim (registered type_name c.registry) [
      | some _ ↦ type_name
      | none ↦ if str_eq package_name [] then type_name else package_name ++ (b'/' ∷ type_name)
    ]

unfoldable pub nested_type : Context → Bytes → Bytes → Outcome MsgSpec
nested_type c type_name package_name = load_msg c (full_type_name c type_name package_name)
