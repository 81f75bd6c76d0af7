-- ===== src/Node/Arguments.antt =====
-- processArguments of ros/node.go.
pub mod Cut
pub mod Given
use rosgo.Prelude.{
  ℕ, Bool, true, false, ◌&&◌, List, [], ◌∷◌, ◌++◌, Bytes, codes, ◌==◌, if◌then◌else◌,
}
use rosgo.Name.{insert}

-- The remappings, the parameters, the special names, and the arguments that are none of them.
pub record Arguments : Type 0 where
  pub mapping : List (Bytes × Bytes)
  pub params : List (Bytes × Bytes)
  pub specials : List (Bytes × Bytes)
  pub rest : List Bytes

abbrev pub on_head : ℕ → List Bytes → List Bytes
on_head c [] = (c ∷ []) ∷ []
on_head c (p ∷ ps) = (c ∷ p) ∷ ps

-- A byte before the pieces of what follows; the flag says that it comes behind a colon.
abbrev pub before : Bool → ℕ → List Bytes → List Bytes
before false c ps = if c == b':' then ps else on_head c ps
before true c ps =
    if c == b'='
    then [] ∷ ps
    else if c == b':'
    then on_head b':' ps
    else on_head b':' (on_head c ps)

-- `strings.Split(arg, ":=")`. A colon waits for the next byte.
unfoldable pub pieces : Bool → Bytes → List Bytes
pieces false [] = [] ∷ []
pieces true [] = (b':' ∷ []) ∷ []
pieces false (c ∷ s) = before false c (pieces (c == b':') s)
pieces true (c ∷ s) = before true c (pieces (c == b':') s)

unfoldable pub has_prefix : Bytes → Bytes → Bool
has_prefix [] s = true
has_prefix (c ∷ p) [] = false
has_prefix (c ∷ p) (d ∷ s) = c == d && has_prefix p s

abbrev pub is_special : Bytes → Bool
is_special = has_prefix (codes "__")

abbrev pub is_underscored : Bytes → Bool
is_underscored = has_prefix (codes "_")

abbrev pub behind_first : Bytes → Bytes
behind_first [] = []
behind_first (c ∷ s) = s

-- An argument of two components is filed under its key, and any other is left.
abbrev pub filed : Arguments → Bytes → List Bytes → Arguments
filed a arg (k ∷ v ∷ []) =
    if is_special k
    then record a { specials = insert k v a.specials }
    else if is_underscored k
    then record a { params = insert (behind_first k) v a.params }
    else record a { mapping = insert k v a.mapping }
filed a arg ps = record a { rest = a.rest ++ arg ∷ [] }

unfoldable pub process_from : Arguments → List Bytes → Arguments
process_from a [] = a
process_from a (arg ∷ args) = process_from (filed a arg (pieces false arg)) args

unfoldable pub process_arguments : List Bytes → Arguments
process_arguments args =
    process_from (record { mapping = []; params = []; specials = []; rest = [] }) args
