-- ===== src/Prelude/Space.antt =====
-- White space in texts, by Unicode: what strings.TrimSpace and unicode.IsSpace see.
pub mod Trim
use Prim.Native.Nat.{ℕ, zero, suc, ◌-◌}
use mathlib.Core.Bool.{Bool, true, false, ◌&&◌, ◌||◌}
use mathlib.Core.List.{[], ◌∷◌}
use mathlib.Core.Option.{Option, none, some}
use rosgo.Prelude.Tests.{leb, ◌==◌, if◌then◌else◌}
use rosgo.Prelude.Text.{Bytes}

abbrev pub between : ℕ → ℕ → ℕ → Bool
between a b c = leb a c && leb c b

-- The bytes of the white space, by Unicode, that a text begins with; 0 if it begins with none.
unfoldable pub space_width : Bytes → ℕ
space_width [] = 0
space_width (a ∷ []) = if between 9 13 a || a == 32 then 1 else 0
space_width (a ∷ b ∷ []) =
    if between 9 13 a || a == 32 then 1 else if a == 0xC2 && (b == 0x85 || b == 0xA0) then 2 else 0
space_width (a ∷ b ∷ c ∷ s) =
    if between 9 13 a || a == 32
    then 1
    else if a == 0xC2 && (b == 0x85 || b == 0xA0)
    then 2
    else if (a == 0xE1 && b == 0x9A && c == 0x80)
        || (a == 0xE2 && b == 0x80 && (between 0x80 0x8A c || c == 0xA8 || c == 0xA9 || c == 0xAF))
        || (a == 0xE2 && b == 0x81 && c == 0x9F)
        || (a == 0xE3 && b == 0x80 && c == 0x80)
    then 3
    else 0

unfoldable pub spaces : ℕ → Bytes → Bool
spaces k [] = true
spaces (suc k) (c ∷ s) = spaces k s
spaces zero (c ∷ s) =
    let rest = spaces (space_width (c ∷ s) - 1) s in
    if space_width (c ∷ s) == 0 then false else rest

-- `TrimSpace(s) == ""`.
unfoldable pub is_blank : Bytes → Bool
is_blank s = spaces zero s

-- `TrimLeftFunc(s, IsSpace)`, with the bytes of a character counted down.
unfoldable pub drop_spaces : ℕ → Bytes → Bytes
drop_spaces k [] = []
drop_spaces (suc k) (c ∷ s) = drop_spaces k s
drop_spaces zero (c ∷ s) =
    let rest = drop_spaces (space_width (c ∷ s) - 1) s in
    if space_width (c ∷ s) == 0 then c ∷ s else rest

unfoldable pub trim_right : Bytes → Bytes
trim_right [] = []
trim_right (c ∷ s) = let rest = trim_right s in if is_blank (c ∷ s) then [] else c ∷ rest

unfoldable pub trim_left : Bytes → Bytes
trim_left s = drop_spaces zero s

-- `TrimSpace(s)`.
unfoldable pub trim_space : Bytes → Bytes
trim_space s = trim_left (trim_right s)

-- What stands before the first white space, and what begins there: `IndexFunc(s, IsSpace)` and the two
-- slices at it.
unfoldable pub cut_space : Bytes → Option (Bytes × Bytes)
cut_space [] = none
cut_space (c ∷ s) =
    let rest = cut_space s in
    if space_width (c ∷ s) == 0
    then elim rest [ none ↦ none | some (before, after) ↦ some (c ∷ before, after) ]
    else some ([], c ∷ s)

-- What stands before the first `b`, and what follows it.
unfoldable pub cut_at : ℕ → Bytes → Option (Bytes × Bytes)
cut_at b [] = none
cut_at b (c ∷ s) =
    let rest = cut_at b s in
    if c == b
    then some ([], s)
    else elim rest [ none ↦ none | some (before, after) ↦ some (c ∷ before, after) ]
