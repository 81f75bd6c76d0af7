-- ===== src/Tests/Headers.antt =====
-- Connection headers (ros/header.go).
use rosgo.Prelude.{◌≡◌, ◌≢◌, ◌∷◌, [], ◌++◌, refl, List, Bytes, codes, ok, stuck, All, arith}
use rosgo.Wire.{IsByte, uint_of, read_full}
use rosgo.Header.{
  Header, Conn, read_line, read_lines, read_connection_header, write_connection_header, send,
}
use rosgo.Header.Encoding.{IsWritable, encode}
use rosgo.Header.Read.{read_connection_header-encode}
use rosgo.Header.Write.{write_connection_header-send}
use rosgo.Header.Sound.{read_connection_header_sound}
use rosgo.Header.Ends.{read_connection_header-ne-stuck}

abbrev two_headers : List Header
two_headers =
    record { key = codes "a"; value = codes "x=y" }
    ∷ record { key = codes "md5"; value = codes "*" }
    ∷ []

two_headers-IsWritable : IsWritable two_headers
two_headers-IsWritable = (
  ((λ e. omega arith), tt),
  (((λ e. omega arith), ((λ e. omega arith), ((λ e. omega arith), tt))), tt),
)

read_connection_header-encode_example :
    read_connection_header (encode two_headers ++ codes "rest") ≡ ok (two_headers, codes "rest")
read_connection_header-encode_example =
    read_connection_header-encode two_headers (codes "rest") two_headers-IsWritable (omega arith)

-- The bytes of `a=1`, and one more byte behind.
abbrev stream : Bytes
stream = 7 ∷ 0 ∷ 0 ∷ 0 ∷ 3 ∷ 0 ∷ 0 ∷ 0 ∷ b'a' ∷ b'=' ∷ b'1' ∷ 9 ∷ []

abbrev one_header : List Header
one_header = record { key = codes "a"; value = codes "1" } ∷ []

stream_bytes : All IsByte stream
stream_bytes = (
  omega arith,
  (
    omega arith,
    (
      omega arith,
      (
        omega arith,
        (
          omega arith,
          (
            omega arith,
            (
              omega arith,
              (omega arith, (omega arith, (omega arith, (omega arith, (omega arith, tt))))),
            ),
          ),
        ),
      ),
    ),
  ),
)

stream_read : read_connection_header stream ≡ ok (one_header, 9 ∷ [])
unfolding read_connection_header read_lines read_line read_full uint_of
stream_read = refl

read_connection_header_sound_example :
    (stream ≡ encode one_header ++ 9 ∷ []) × IsWritable one_header
read_connection_header_sound_example = read_connection_header_sound stream stream_bytes stream_read

read_connection_header-ne-stuck_example : read_connection_header stream ≢ stuck
read_connection_header-ne-stuck_example = read_connection_header-ne-stuck stream

abbrev narrow : Conn
narrow = record { sent = codes "s"; room = 10 }

write_connection_header-send_example :
    write_connection_header two_headers narrow ≡ send (encode two_headers) narrow
write_connection_header-send_example = write_connection_header-send two_headers narrow
