-- ===== src/Header.antt =====
-- ros/header.go: the connection header of TCPROS, a list of `key=value` lines. A line is preceded
-- by its length, and the whole by the number of its bytes, each as a uint32.
pub mod Encoding
pub mod Write
pub mod Read
pub mod Lines
pub mod Sound
pub mod Ends
pub mod Fields
pub mod Writable
use rosgo.Prelude.{
  ℕ, zero, suc, ◌+◌, ◌-◌, ◌%◌, ◌^◌, List, [], ◌∷◌, ◌++◌, Option, none, some, Bytes, length, take,
  drop, ltb, leb, ◌==◌, if◌then◌else◌, Result, ok, err, panic, stuck, ◌>>=◌,
}
use rosgo.Wire.{ReadError, put_uint, uint_of, read_full}

pub record Header : Type 0 where
  pub key : Bytes
  pub value : Bytes

pub data Error : Type 0 where
  read : ReadError → Error
  overrun : Error

-- An error of a read is passed on.
abbrev pub checked {ℓ} : {A : Type ℓ} → Result ReadError A → Result Error A
checked (ok a) = ok a
checked (err e) = err (read e)
checked panic = panic
checked stuck = stuck

-- `line[0:sep]` and `line[sep+1:]` for the first `=` of the line. Without one `sep` is -1, and the
-- slice panics.
pub cut : Bytes → Option (Bytes × Bytes)
cut [] = none
cut (c ∷ cs) =
    if c == b'='
    then some ([], cs)
    else elim (cut cs) [ none ↦ none | some (k, v) ↦ some (c ∷ k, v) ]

pub header_of : Option (Bytes × Bytes) → Result Error Header
header_of none = panic
header_of (some (k, v)) = ok (record { key = k; value = v })

-- One round of the loop: the header, the length that was declared, and the buffer behind the line.
-- `Next` gives what is there if that is less.
unfoldable pub read_line : Bytes → Result Error (Header × ℕ × Bytes)
unfolding cut header_of
read_line buf = do
  (raw, rest) ← checked (read_full 4 buf)
  h ← header_of (cut (take (uint_of raw) rest))
  ok (h, uint_of raw, drop (uint_of raw) rest)

-- `done += 4 + size` in uint32. A round takes four bytes of the buffer at least.
unfoldable pub read_lines : ℕ → ℕ → ℕ → Bytes → List Header → Result Error (List Header)
read_lines zero header_size done buf headers = stuck
read_lines (suc fuel) header_size done buf headers =
    let next = (do
      (h, size, rest) ← read_line buf
      read_lines fuel header_size ((done + (4 + size)) % 2 ^ 32) rest (headers ++ h ∷ [])) in
    if done == header_size then ok headers else if ltb header_size done then err overrun else next

-- The headers, and the stream behind them.
unfoldable pub read_connection_header : Bytes → Result Error (List Header × Bytes)
read_connection_header r = do
  (raw, r') ← checked (read_full 4 r)
  (buf, r'') ← checked (read_full (uint_of raw) r')
  headers ← read_lines (suc (uint_of raw)) (uint_of raw) 0 buf []
  ok (headers, r'')

-- A connection that takes `room` more bytes before it fails.
pub record Conn : Type 0 where
  pub sent : Bytes
  pub room : ℕ

-- `w.Write`: the error case holds the connection after the bytes that it still took.
unfoldable pub send : Bytes → Conn → Result Conn Conn
send bs c =
    if leb (length bs) c.room
    then ok (record { sent = c.sent ++ bs; room = c.room - length bs })
    else err (record { sent = c.sent ++ take c.room bs; room = 0 })

abbrev pub line_size : Header → ℕ
line_size h = length h.key + length h.value + 1

abbrev pub header_size_of : List Header → ℕ
header_size_of [] = 0
header_size_of (h ∷ hs) = line_size h + 4 + header_size_of hs

unfoldable pub write_lines : List Header → Conn → Result Conn Conn
write_lines [] c = ok c
write_lines (h ∷ hs) c = do
  c ← send (put_uint 4 (line_size h % 2 ^ 32)) c
  c ← send h.key c
  c ← send (b'=' ∷ []) c
  c ← send h.value c
  write_lines hs c

unfoldable pub write_connection_header : List Header → Conn → Result Conn Conn
write_connection_header headers w = do
  w ← send (put_uint 4 (header_size_of headers % 2 ^ 32)) w
  write_lines headers w
