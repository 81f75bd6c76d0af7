-- ===== src/Header/Lines.antt =====
-- One line of a connection header, taken apart after it was read.
use rosgo.Prelude.{
  ℕ, zero, suc, ◌+◌, ◌^◌, ◌≤◌, ◌<◌, ◌≡◌, refl, sym, ap, ◌∙◌, ◌⊎◌, inl, inr, [], ◌∷◌, ◌++◌, some,
  Bytes, length, take, drop, All, ok, >>=-eq-ok, arith, length-append,
}
use mathlib.Core.Path.{ap₂}
use native.Mathlib.Decide.{dec_lt}
use rosgo.Wire.{IsByte, put_uint, uint_of, read_full}
use rosgo.Wire.Ints.{put_uint-uint_of, uint_of-lt}
use rosgo.Wire.Reads.{read_full-splits, take-append-drop, length-take}
use rosgo.Header.{Header, checked, cut, header_of, read_line, line_size}
use rosgo.Header.Encoding.{IsKey, line, length-line}
use rosgo.Header.Read.{cut-eq-some, checked-ok, header_of-ok}

-- What a line that was read consists of.
pub read_line-parts :
    (buf : Bytes) {h : Header} {n : ℕ} {rest : Bytes}
    → read_line buf ≡ ok (h, n, rest)
    → (raw : Bytes) × (tail : Bytes) × (read_full 4 buf ≡ ok (raw, tail))
      × (uint_of raw ≡ n)
      × (cut (take n tail) ≡ some (h.key, h.value))
      × (drop n tail ≡ rest)
unfolding read_line
read_line-parts buf {h} {n} {rest} e =
    let ((raw, tail), r, k) = >>=-eq-ok (checked (read_full 4 buf)) _ e in
    let (h', c, l) = >>=-eq-ok (header_of (cut (take (uint_of raw) tail))) _ k in
    let n_eq : uint_of raw ≡ n = cc in
    let h_eq : h' ≡ h = cc in
    (
      raw,
      tail,
      checked-ok (read_full 4 buf) r,
      n_eq,
      rw (← n_eq) (header_of-ok _ (c ∙ ap ok h_eq)),
      cc,
    )

pub All-split : (xs ys : Bytes) → All IsByte (xs ++ ys) → All IsByte xs × All IsByte ys
All-split [] ys h = (tt, h)
All-split (x ∷ xs) ys h = let (p, q) = All-split xs ys h.1 in ((h.0, p), q)

drop_all : (n : ℕ) (xs : Bytes) → length xs ≤ n → drop n xs ≡ []
drop_all zero [] h = refl
drop_all zero (x ∷ xs) h = absurd (omega arith)
drop_all (suc n) [] h = refl
drop_all (suc n) (x ∷ xs) h = drop_all n xs (omega arith)

pub put_uint-raw :
    (raw : Bytes) (n : ℕ) → All IsByte raw → length raw ≡ 4 → uint_of raw ≡ n → put_uint 4 n ≡ raw
put_uint-raw raw n bytes len e = rw (← e) (rw (← len) (put_uint-uint_of raw bytes))

-- A line that is read has a key with no `=`, and a declared length in a uint32. Either the buffer
-- begins with the encoding of the line, or the line was cut short by the end of the buffer.
pub read_line-splits :
    (buf : Bytes) (h : Header) (n : ℕ) (rest : Bytes)
    → All IsByte buf
    → read_line buf ≡ ok (h, n, rest)
    → IsKey h.key
      × (n < 2 ^ 32)
      × (4 ≤ length buf)
      × ((line_size h ≡ n) × (buf ≡ put_uint 4 n ++ (line h ++ rest))
          ⊎ (rest ≡ []) × (length buf < 4 + n))
read_line-splits buf h n rest bytes e =
    let (raw, tail, r, u, c, d) = read_line-parts buf e in
    let (split, len) = read_full-splits 4 buf raw tail r in
    let raw_bytes = (All-split raw tail (rw split at bytes)).0 in
    let (l, key) = cut-eq-some (take n tail) h.key h.value c in
    let total = length-append raw tail in
    let size = ap length split in
    (
      key,
      rw (← u) (rw len at (uint_of-lt raw raw_bytes)),
      omega arith,
      elim (dec_lt (length tail) n) [
        | yes short ↦ inr (sym d ∙ drop_all n tail (omega arith), omega arith)
        | no long ↦ inl (
          omega (arith, length-line h, ap length l, length-take n tail (omega arith)),
          split
              ∙ ap₂ ◌++◌ (sym (put_uint-raw raw n raw_bytes len u))
                  (sym (take-append-drop n tail) ∙ ap₂ ◌++◌ l d),
        )
      ],
    )
