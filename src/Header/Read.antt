-- ===== src/Header/Read.antt =====
-- `readConnectionHeader` of ros/header.go, on the encoding of a header.
use rosgo.Prelude.{
  ℕ, zero, suc, ◌+◌, ◌%◌, ◌^◌, ◌<◌, ◌≡◌, refl, ap, ◌∙◌, inl, inr, Bool-cases, List, [], ◌∷◌, ◌++◌,
  Option, none, some, Option-cases, Bytes, ◌==◌, Result, ok, err, panic, stuck, arith, append_assoc,
  append-nil, take-append, drop-append,
}
use rosgo.Wire.{ReadError, put_uint}
use rosgo.Wire.Ints.{length-put_uint, uint_of-put_uint}
use rosgo.Wire.Reads.{read_full-append}
use rosgo.Header.{
  Header, checked, cut, header_of, read_line, read_lines, read_connection_header, line_size,
  header_size_of,
}
use rosgo.Header.Encoding.{
  IsKey, IsWritable, line, encode_lines, encode, length-line, length-encode_lines,
}

cut-line : (k v : Bytes) → IsKey k → cut (k ++ (b'=' ∷ v)) ≡ some (k, v)
unfolding cut
cut-line [] v h = refl
cut-line (c ∷ k) v h = ground (arith, cut-line k v h.1)

pub cut-eq-some : (l k v : Bytes) → cut l ≡ some (k, v) → (l ≡ k ++ (b'=' ∷ v)) × IsKey k
unfolding cut
cut-eq-some [] k v h = cc
cut-eq-some (c ∷ cs) k v h = elim (Bool-cases (c == b'=')) [
  | inl here ↦ ground arith
  | inr later ↦ elim (Option-cases (cut cs)) [
    | inl none' ↦ ground arith
    | inr ((k', v'), e) ↦ ground (arith, cut-eq-some cs k' v' e)
  ]
]

read_line-append :
    (h : Header) (rest : Bytes)
    → IsKey h.key
    → line_size h < 2 ^ 32
    → read_line (put_uint 4 (line_size h % 2 ^ 32) ++ (line h ++ rest)) ≡ ok (h, line_size h, rest)
unfolding read_line
read_line-append h rest key small =
    let n : line_size h % 2 ^ 32 ≡ line_size h = omega arith in
    rw
      (read_full-append 4 (put_uint 4 (line_size h % 2 ^ 32)) (line h ++ rest)
        (length-put_uint 4 (line_size h % 2 ^ 32)))
      (rw (n, uint_of-put_uint 4 (line_size h) small)
        (rw (← length-line h)
          (rw (take-append (line h) rest, drop-append (line h) rest, cut-line h.key h.value key))))

pub checked-ok {ℓ} : {A : Type ℓ} (m : Result ReadError A) {a : A} → checked m ≡ ok a → m ≡ ok a
checked-ok (ok a) e = cc
checked-ok (err _) e = cc
checked-ok panic e = cc
checked-ok stuck e = cc

pub header_of-ok :
    (o : Option (Bytes × Bytes)) {h : Header} → header_of o ≡ ok h → o ≡ some (h.key, h.value)
unfolding header_of
header_of-ok none e = cc
header_of-ok (some (k, v)) e = cc

-- A round of the loop that reads a line.
pub read_lines-step :
    (fuel size done : ℕ) (buf : Bytes) (out : List Header) {h : Header} {n : ℕ} {rest : Bytes}
    → done < size
    → read_line buf ≡ ok (h, n, rest)
    → read_lines (suc fuel) size done buf out
      ≡ read_lines fuel size ((done + (4 + n)) % 2 ^ 32) rest (out ++ h ∷ [])
unfolding read_lines
read_lines-step fuel size done buf out lt e = rw e (ground arith)

read_lines-encode_lines :
    (hs : List Header) (fuel size done : ℕ) (out : List Header)
    → IsWritable hs
    → size ≡ done + header_size_of hs
    → size < 2 ^ 32
    → header_size_of hs < fuel
    → read_lines fuel size done (encode_lines hs) out ≡ ok (out ++ hs)
read_lines-encode_lines hs zero size done out keys e small enough = absurd (omega arith)
read_lines-encode_lines [] (suc fuel) size done out keys e small enough =
    unfold read_lines in ground (arith, append-nil out)
read_lines-encode_lines (h ∷ hs) (suc fuel) size done out keys e small enough =
    let moved : (done + (4 + line_size h)) % 2 ^ 32 ≡ done + 4 + line_size h = omega arith in
    read_lines-step fuel size done _ out (omega arith)
      (read_line-append h (encode_lines hs) keys.0 (omega arith))
    ∙ rw moved (
        read_lines-encode_lines hs fuel size (done + 4 + line_size h) (out ++ h ∷ []) keys.1
          (omega arith) small (omega arith)
        ∙ ap ok (append_assoc out (h ∷ []) hs))

-- A header whose keys hold no `=`, of less than 2^32 bytes, is read back as it was written,
-- whatever follows it on the stream.
pub read_connection_header-encode :
    (hs : List Header) (rest : Bytes)
    → IsWritable hs
    → header_size_of hs < 2 ^ 32
    → read_connection_header (encode hs ++ rest) ≡ ok (hs, rest)
unfolding read_connection_header
read_connection_header-encode hs rest keys small =
    let n : header_size_of hs % 2 ^ 32 ≡ header_size_of hs = omega arith in
    let raw = put_uint 4 (header_size_of hs % 2 ^ 32) in
    rw
      (
        append_assoc raw (encode_lines hs) rest,
        read_full-append 4 raw (encode_lines hs ++ rest) (length-put_uint 4 _),
      )
      (rw (n, uint_of-put_uint 4 (header_size_of hs) small)
        (rw (read_full-append (header_size_of hs) (encode_lines hs) rest (length-encode_lines hs)) (
          rw (
            read_lines-encode_lines hs (suc (header_size_of hs)) (header_size_of hs) 0 [] keys
              (omega arith) small (omega arith)))))
