-- ===== src/Header/Encoding.antt =====
-- The bytes of a connection header.
use rosgo.Prelude.{
  ◌%◌, ◌^◌, ◌≢◌, List, [], ◌∷◌, ◌++◌, Bytes, length, All, ◌≡◌, refl, length-append, arith,
}
use rosgo.Wire.{put_uint}
use rosgo.Wire.Ints.{length-put_uint}
use rosgo.Header.{Header, line_size, header_size_of}

abbrev pub line : Header → Bytes
line h = h.key ++ (b'=' ∷ h.value)

abbrev pub encode_lines : List Header → Bytes
encode_lines [] = []
encode_lines (h ∷ hs) = put_uint 4 (line_size h % 2 ^ 32) ++ (line h ++ encode_lines hs)

abbrev pub encode : List Header → Bytes
encode hs = put_uint 4 (header_size_of hs % 2 ^ 32) ++ encode_lines hs

-- No `=` in a key.
abbrev pub IsKey : Bytes → Type 0
IsKey = All (λ c. c ≢ b'=')

-- The headers that the format can carry.
abbrev pub IsWritable : List Header → Type 0
IsWritable = All (λ h. IsKey h.key)

pub length-line : (h : Header) → length (line h) ≡ line_size h
length-line h = omega (arith, length-append h.key (b'=' ∷ h.value))

pub length-encode_lines : (hs : List Header) → length (encode_lines hs) ≡ header_size_of hs
length-encode_lines [] = refl
length-encode_lines (h ∷ hs) = omega (
  arith,
  length-append (put_uint 4 (line_size h % 2 ^ 32)) (line h ++ encode_lines hs),
  length-append (line h) (encode_lines hs),
  length-put_uint 4 (line_size h % 2 ^ 32),
  length-line h,
  length-encode_lines hs,
)
