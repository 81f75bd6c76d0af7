-- ===== src/Wire.antt =====
-- What ros/header.go and ros/dynamic_message.go use of encoding/binary and io: little-endian
-- integers of `k` bytes, and reads of a whole number of bytes from a stream.
pub mod Ints
pub mod Reads
use rosgo.Prelude.{
  ℕ, zero, suc, ◌+◌, ◌*◌, ◌/◌, ◌%◌, ◌<◌, List, [], ◌∷◌, Bytes, length, take, drop, leb, ◌==◌,
  if◌then◌else◌, Result, ok, err,
}

pub data ReadError : Type 0 where
  eof unexpected_eof : ReadError

abbrev pub IsByte : ℕ → Type 0
IsByte b = b < 256

-- `binary.LittleEndian.PutUint`.
unfoldable pub put_uint : ℕ → ℕ → Bytes
put_uint zero v = []
put_uint (suc k) v = v % 256 ∷ put_uint k (v / 256)

unfoldable pub uint_of : Bytes → ℕ
uint_of [] = 0
uint_of (b ∷ bs) = b + 256 * uint_of bs

-- `io.ReadFull`: `n` bytes and what follows them, or the error for a stream that ends too early.
unfoldable pub read_full : ℕ → Bytes → Result ReadError (Bytes × Bytes)
read_full n s =
    if leb n (length s)
    then ok (take n s, drop n s)
    else if length s == 0
    then err eof
    else err unexpected_eof
