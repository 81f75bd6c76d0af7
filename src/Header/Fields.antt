-- ===== src/Header/Fields.antt =====
-- The map that the peers make of a header: `headerMap[h.key] = h.value` in the order of the lines.
use rosgo.Prelude.{List, [], ◌∷◌, Bytes, str_eq, if◌then◌else◌}
use rosgo.Header.{Header}

-- The value of a key, the last one if it comes twice. A missing key reads as the empty string.
unfoldable pub field_from : Bytes → List Header → Bytes → Bytes
field_from key [] found = found
field_from key (h ∷ hs) found = field_from key hs (if str_eq h.key key then h.value else found)

unfoldable pub field : Bytes → List Header → Bytes
field key hs = field_from key hs []
