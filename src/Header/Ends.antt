-- ===== src/Header/Ends.antt =====
-- `readConnectionHeader` of ros/header.go: the rounds of its loop.
use rosgo.Prelude.{
  ℕ, zero, suc, ◌+◌, ◌%◌, ◌^◌, ◌≤◌, ◌<◌, ◌≡◌, ◌≢◌, refl, ap, inl, inr, Bool-cases, List, [], ◌∷◌,
  ◌++◌, Option, none, some, Bytes, length, take, ltb, ◌==◌, Result, ok, err, panic, stuck,
  >>=-ne-stuck, length-drop, arith, length-append,
}
use rosgo.Wire.{ReadError, uint_of, read_full}
use rosgo.Wire.Reads.{read_full-splits, read_full-ne-stuck}
use rosgo.Header.{Header, checked, cut, header_of, read_line, read_lines, read_connection_header}
use rosgo.Header.Read.{checked-ok}
use rosgo.Header.Lines.{read_line-parts}

header_of-ne-stuck : (o : Option (Bytes × Bytes)) → header_of o ≢ stuck
unfolding header_of
header_of-ne-stuck none e = cc
header_of-ne-stuck (some (k, v)) e = cc

checked-ne-stuck {ℓ} : {A : Type ℓ} (m : Result ReadError A) → m ≢ stuck → checked m ≢ stuck
checked-ne-stuck (ok a) h e = cc
checked-ne-stuck (err _) h e = cc
checked-ne-stuck panic h e = cc
checked-ne-stuck stuck h e = h refl

read_line-ne-stuck : (buf : Bytes) → read_line buf ≢ stuck
unfolding read_line
read_line-ne-stuck buf =
    >>=-ne-stuck _ _ (checked-ne-stuck (read_full 4 buf) (read_full-ne-stuck 4 buf))
      (λ r _. >>=-ne-stuck _ _ (header_of-ne-stuck (cut (take (uint_of r.0) r.1))) (λ h _ e. cc))

-- A line that is read takes at least four bytes off the buffer.
read_line-shrinks :
    (buf : Bytes) (r : Header × ℕ × Bytes) → read_line buf ≡ ok r → length r.2 + 4 ≤ length buf
read_line-shrinks buf (h, n, rest) e =
    let (raw, tail, r, u, c, d) = read_line-parts buf e in
    let (split, len) = read_full-splits 4 buf raw tail r in
    omega (arith, ap length split, length-append raw tail, ap length d, length-drop n tail)

read_lines-ne-stuck :
    (fuel size done : ℕ) (buf : Bytes) (out : List Header)
    → length buf < fuel
    → read_lines fuel size done buf out ≢ stuck
unfolding read_lines
read_lines-ne-stuck zero size done buf out h = absurd (omega arith)
read_lines-ne-stuck (suc fuel) size done buf out h =
    let next =
      >>=-ne-stuck (read_line buf)
        (λ r. read_lines fuel size ((done + (4 + r.1)) % 2 ^ 32) r.2 (out ++ r.0 ∷ []))
        (read_line-ne-stuck buf)
        (λ r e. read_lines-ne-stuck fuel size _ r.2 _ (omega (arith, read_line-shrinks buf r e))) in
    elim (Bool-cases (done == size)) [
      | inl all_read ↦ rw all_read (λ e. cc)
      | inr more ↦ rw more (elim (Bool-cases (ltb size done)) [
        | inl over ↦ rw over (λ e. cc)
        | inr under ↦ rw under next
      ])
    ]

buffer_fits :
    (raw s : Bytes) (b : Bytes × Bytes)
    → checked (read_full (uint_of raw) s) ≡ ok b
    → length b.0 < suc (uint_of raw)
buffer_fits raw s (buf, rest) e = omega (
  arith,
  (read_full-splits (uint_of raw) s buf rest (checked-ok (read_full (uint_of raw) s) e)).1,
)

-- `readConnectionHeader` ends on every stream: its loop never runs out of fuel.
pub read_connection_header-ne-stuck : (s : Bytes) → read_connection_header s ≢ stuck
unfolding read_connection_header
read_connection_header-ne-stuck s =
    >>=-ne-stuck _ _ (checked-ne-stuck (read_full 4 s) (read_full-ne-stuck 4 s)) (λ r _.
      >>=-ne-stuck _ _
        (checked-ne-stuck (read_full (uint_of r.0) r.1) (read_full-ne-stuck (uint_of r.0) r.1))
        (λ b e.
          >>=-ne-stuck _ _
            (read_lines-ne-stuck (suc (uint_of r.0)) (uint_of r.0) 0 b.0 []
              (buffer_fits r.0 r.1 b e))
            (λ hs _ e'. cc)))
