-- ===== src/Xmlrpc/Text.antt =====
-- The text of XML: what xml.Escape keeps of a string, and what TrimSpace takes away.
use rosgo.Prelude.{
  ℕ, zero, suc, ◌-◌, Bool, ◌&&◌, ◌||◌, not, [], ◌∷◌, Bytes, leb, ◌==◌, if◌then◌else◌,
}
use rosgo.Prelude.Space.{between}

-- A later byte of a UTF-8 sequence.
abbrev continues : ℕ → Bool
continues = between 0x80 0xBF

abbrev starts_three : ℕ → ℕ → Bool
starts_three a b =
    (a == 0xE0 && between 0xA0 0xBF b)
    || ((between 0xE1 0xEC a || between 0xEE 0xEF a) && continues b)
    || (a == 0xED && between 0x80 0x9F b)

abbrev starts_four : ℕ → ℕ → Bool
starts_four a b =
    (a == 0xF0 && between 0x90 0xBF b)
    || (between 0xF1 0xF3 a && continues b)
    || (a == 0xF4 && between 0x80 0x8F b)

-- The bytes of the character of XML that the text begins with; 0 if it begins with none.
unfoldable pub char_width : Bytes → ℕ
char_width [] = 0
char_width (a ∷ []) = if between 0x20 0x7F a || a == 9 || a == 10 || a == 13 then 1 else 0
char_width (a ∷ b ∷ []) =
    if between 0x20 0x7F a || a == 9 || a == 10 || a == 13
    then 1
    else if between 0xC2 0xDF a && continues b
    then 2
    else 0
char_width (a ∷ b ∷ c ∷ []) =
    if between 0x20 0x7F a || a == 9 || a == 10 || a == 13
    then 1
    else if between 0xC2 0xDF a && continues b
    then 2
    else if starts_three a b && continues c && not (a == 0xEF && b == 0xBF && leb 0xBE c)
    then 3
    else 0
char_width (a ∷ b ∷ c ∷ d ∷ s) =
    if between 0x20 0x7F a || a == 9 || a == 10 || a == 13
    then 1
    else if between 0xC2 0xDF a && continues b
    then 2
    else if starts_three a b && continues c
    then (if a == 0xEF && b == 0xBF && leb 0xBE c then 0 else 3)
    else if starts_four a b && continues c && continues d
    then 4
    else 0

-- U+FFFE and U+FFFF are read as one character, though XML has neither.
abbrev refused_width : Bytes → ℕ
refused_width (a ∷ b ∷ c ∷ s) = if a == 0xEF && b == 0xBF && between 0xBE 0xBF c then 3 else 1
refused_width s = 1

-- The bytes of a character that is kept are counted down, and those of one that is replaced.
unfoldable pub escaped : ℕ → ℕ → Bytes → Bytes
escaped keep drop [] = []
escaped (suc keep) drop (c ∷ s) = c ∷ escaped keep drop s
escaped zero (suc drop) (c ∷ s) = escaped zero drop s
escaped zero zero (c ∷ s) =
    let kept = escaped (char_width (c ∷ s) - 1) zero s in
    let replaced = escaped zero (refused_width (c ∷ s) - 1) s in
    if char_width (c ∷ s) == 0 then 0xEF ∷ 0xBF ∷ 0xBD ∷ replaced else c ∷ kept

-- `xmlEscape`, as the decoder reads its answer: the references that stand for markup are undone, and what
-- is no character of XML is now U+FFFD.
unfoldable pub xml_escape : Bytes → Bytes
xml_escape s = escaped zero zero s
