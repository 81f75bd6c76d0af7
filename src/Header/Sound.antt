-- ===== src/Header/Sound.antt =====
-- `readConnectionHeader` of ros/header.go: the streams that it reads a header from.
use rosgo.Prelude.{
  ℕ, zero, suc, ◌+◌, ◌%◌, ◌^◌, ◌≤◌, ◌<◌, ◌≡◌, ◌≢◌, refl, sym, ap, ◌∙◌, inl, inr, List, [], ◌∷◌,
  ◌++◌, Bytes, length, All, ok, ◌>>=◌, >>=-eq-ok, arith, length-append, append_assoc, append-nil,
}
use mathlib.Core.Path.{ap₂, subst}
use rosgo.Wire.{IsByte, put_uint, uint_of, read_full}
use rosgo.Wire.Ints.{length-put_uint, uint_of-lt}
use rosgo.Wire.Reads.{read_full-splits}
use rosgo.Header.{
  Header, checked, read_line, read_lines, read_connection_header, line_size, header_size_of,
}
use rosgo.Header.Encoding.{
  IsKey, IsWritable, line, encode_lines, encode, length-line, length-encode_lines,
}
use rosgo.Header.Read.{checked-ok}
use rosgo.Header.Lines.{All-split, read_line-splits, put_uint-raw}

-- A round on an empty buffer does not succeed before all bytes are accounted for.
read_lines-empty :
    (fuel size done : ℕ) (out res : List Header)
    → done ≢ size
    → read_lines fuel size done [] out ≢ ok res
unfolding read_lines read_line read_full
read_lines-empty zero size done out res h e = cc
read_lines-empty (suc fuel) size done out res h e = ground arith

read_lines-cut :
    (fuel size done : ℕ) (buf : Bytes) (out res : List Header)
    → buf ≡ []
    → done ≢ size
    → read_lines fuel size done buf out ≢ ok res
read_lines-cut fuel size done buf out res none_left h =
    rw none_left (read_lines-empty fuel size done out res h)

read_lines-last :
    (fuel size done : ℕ) (buf : Bytes) (out : List Header) {res : List Header}
    → size ≤ done
    → read_lines fuel size done buf out ≡ ok res
    → (done ≡ size) × (res ≡ out)
unfolding read_lines
read_lines-last zero size done buf out h e = cc
read_lines-last (suc fuel) size done buf out h e = ground arith

-- A round that succeeds before all bytes are accounted for has read a line.
read_lines-next :
    (fuel size done : ℕ) (buf : Bytes) (out : List Header) {res : List Header}
    → done < size
    → read_lines (suc fuel) size done buf out ≡ ok res
    → (h : Header) × (n : ℕ) × (rest : Bytes) × (read_line buf ≡ ok (h, n, rest))
      × (read_lines fuel size ((done + (4 + n)) % 2 ^ 32) rest (out ++ h ∷ []) ≡ ok res)
read_lines-next fuel size done buf out {res} lt e =
    let next : (read_line buf >>= λ r.
    read_lines fuel size ((done + (4 + r.1)) % 2 ^ 32) r.2 (out ++ r.0 ∷ []))
        ≡ ok res =
      unfold read_lines in ground arith in
    let ((h, n, rest), r, k) = >>=-eq-ok (read_line buf) _ next in (h, n, rest, r, k)

-- Behind a line that stands whole in the buffer the bytes are again accounted for.
advance :
    (size done n : ℕ) (buf rest : Bytes) (h : Header)
    → All IsByte buf
    → size < 2 ^ 32
    → done + length buf ≡ size
    → line_size h ≡ n
    → buf ≡ put_uint 4 n ++ (line h ++ rest)
    → All IsByte rest × ((done + (4 + n)) % 2 ^ 32 + length rest ≡ size)
advance size done n buf rest h bytes small total sized split =
    let front = All-split (put_uint 4 n) (line h ++ rest) (subst (All IsByte) split bytes) in
    (
      (All-split (line h) rest front.1).1,
      omega (
        arith,
        ap length split,
        length-append (put_uint 4 n) (line h ++ rest),
        length-append (line h) rest,
        length-put_uint 4 n,
        length-line h,
      ),
    )

-- The lines that make up the buffer, and the answer of the loop.
abbrev Accepts : Bytes → List Header → List Header → Type 0
Accepts buf out res =
    (hs : List Header) × (res ≡ out ++ hs) × (buf ≡ encode_lines hs) × IsWritable hs

extend :
    (n : ℕ) (buf rest : Bytes) (h : Header) (out res : List Header)
    → n < 2 ^ 32
    → line_size h ≡ n
    → buf ≡ put_uint 4 n ++ (line h ++ rest)
    → IsKey h.key
    → Accepts rest (out ++ h ∷ []) res
    → Accepts buf out res
extend n buf rest h out res small sized split key (hs, e, enc, writable) =
    let declared : line_size h % 2 ^ 32 ≡ n = omega arith in
    (
      h ∷ hs,
      e ∙ append_assoc out (h ∷ []) hs,
      rw declared (split ∙ ap (λ r. put_uint 4 n ++ (line h ++ r)) enc),
      (key, writable),
    )

read_lines_sound :
    (fuel size done : ℕ) (buf : Bytes) (out : List Header) {res : List Header}
    → All IsByte buf
    → size < 2 ^ 32
    → done + length buf ≡ size
    → read_lines fuel size done buf out ≡ ok res
    → Accepts buf out res
read_lines_sound zero size done buf out bytes small total e = unfold read_lines in cc
read_lines_sound (suc fuel) size done [] out bytes small total e = (
  [],
  (read_lines-last (suc fuel) size done [] out (omega arith) e).1 ∙ sym (append-nil out),
  refl,
  tt,
)
read_lines_sound (suc fuel) size done (b ∷ bs) out {res} bytes small total e =
    let (h, n, rest, r, k) = read_lines-next fuel size done (b ∷ bs) out (omega arith) e in
    let (key, n_small, four, ends) = read_line-splits (b ∷ bs) h n rest bytes r in
    elim ends [
      | inl (sized, split) ↦
          let (rest_bytes, total') =
            advance size done n (b ∷ bs) rest h bytes small total sized split in
          extend n (b ∷ bs) rest h out res n_small sized split key
            (read_lines_sound fuel size _ rest (out ++ h ∷ []) rest_bytes small total' k)
      | inr (none_left, short) ↦
          absurd (read_lines-cut fuel size _ rest (out ++ h ∷ []) res none_left (omega arith) k)
    ]

-- The three reads of a whole header.
assemble :
    (s raw s' buf rest : Bytes) (hs : List Header)
    → All IsByte s
    → read_full 4 s ≡ ok (raw, s')
    → read_full (uint_of raw) s' ≡ ok (buf, rest)
    → read_lines (suc (uint_of raw)) (uint_of raw) 0 buf [] ≡ ok hs
    → (s ≡ encode hs ++ rest) × IsWritable hs
assemble s raw s' buf rest hs bytes r r' r'' =
    let (split, len) = read_full-splits 4 s raw s' r in
    let (split', len') = read_full-splits (uint_of raw) s' buf rest r' in
    let (raw_bytes, s'_bytes) = All-split raw s' (subst (All IsByte) split bytes) in
    let buf_bytes = (All-split buf rest (subst (All IsByte) split' s'_bytes)).0 in
    let small : uint_of raw < 2 ^ 32 =
      subst (λ k. uint_of raw < 256 ^ k) len (uint_of-lt raw raw_bytes) in
    let (hs', same, enc, writable) =
      read_lines_sound (suc (uint_of raw)) (uint_of raw) 0 buf [] buf_bytes small (omega arith)
        r'' in
    let declared : uint_of raw ≡ header_size_of hs' % 2 ^ 32 =
      omega (arith, ap length enc, length-encode_lines hs') in
    let first : raw ≡ put_uint 4 (header_size_of hs' % 2 ^ 32) =
      sym (put_uint-raw raw _ raw_bytes len declared) in
    rw same (
      split
          ∙ ap₂ ◌++◌ first (split' ∙ ap (λ b. b ++ rest) enc)
          ∙ sym (append_assoc _ (encode_lines hs') rest),
      writable,
    )

read_connection_header-parts :
    (s : Bytes) {hs : List Header} {rest : Bytes}
    → read_connection_header s ≡ ok (hs, rest)
    → (raw : Bytes) × (s' : Bytes) × (buf : Bytes) × (read_full 4 s ≡ ok (raw, s'))
      × (read_full (uint_of raw) s' ≡ ok (buf, rest))
      × (read_lines (suc (uint_of raw)) (uint_of raw) 0 buf [] ≡ ok hs)
unfolding read_connection_header
read_connection_header-parts s {hs} {rest} e =
    let ((raw, s'), r, k) = >>=-eq-ok (checked (read_full 4 s)) _ e in
    let ((buf, s''), r', k') = >>=-eq-ok (checked (read_full (uint_of raw) s')) _ k in
    let (res, r'', k'') = >>=-eq-ok (read_lines (suc (uint_of raw)) (uint_of raw) 0 buf []) _ k' in
    let rest_eq : s'' ≡ rest = cc in
    let hs_eq : res ≡ hs = cc in
    (
      raw,
      s',
      buf,
      checked-ok (read_full 4 s) r,
      checked-ok (read_full (uint_of raw) s') r' ∙ ap (λ t. ok (buf, t)) rest_eq,
      r'' ∙ ap ok hs_eq,
    )

-- A stream of bytes from which a header is read begins with the encoding of that header, no key
-- holds a `=`, and the stream is left behind the encoding.
pub read_connection_header_sound :
    (s : Bytes) {hs : List Header} {rest : Bytes}
    → All IsByte s
    → read_connection_header s ≡ ok (hs, rest)
    → (s ≡ encode hs ++ rest) × IsWritable hs
read_connection_header_sound s {hs} {rest} bytes e =
    let (raw, s', buf, r, r', r'') = read_connection_header-parts s e in
    assemble s raw s' buf rest hs bytes r r' r''
