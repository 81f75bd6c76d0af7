-- ===== src/Wire/Reads.antt =====
-- What ros/header.go and ros/dynamic_message.go use of io: reads from a stream.
use rosgo.Prelude.{
  ℕ, zero, suc, ◌≤◌, ◌≡◌, ◌≢◌, refl, ap, inl, inr, Bool-cases, [], ◌∷◌, ◌++◌, Bytes, length, take,
  drop, leb, ok, stuck, arith, length-append, take-append, drop-append,
}
use rosgo.Wire.{read_full}

-- A read of as many bytes as stand in front returns them.
pub read_full-append :
    (n : ℕ) (xs rest : Bytes) → length xs ≡ n → read_full n (xs ++ rest) ≡ ok (xs, rest)
unfolding read_full
read_full-append n xs rest h =
    rw (← h) (rw (length-append xs rest, take-append xs rest, drop-append xs rest) (ground arith))

pub take-append-drop : (n : ℕ) (xs : Bytes) → take n xs ++ drop n xs ≡ xs
take-append-drop zero xs = refl
take-append-drop (suc n) [] = refl
take-append-drop (suc n) (x ∷ xs) = ap (◌∷◌ x) (take-append-drop n xs)

pub length-take : (n : ℕ) (xs : Bytes) → n ≤ length xs → length (take n xs) ≡ n
length-take zero xs h = refl
length-take (suc n) [] h = absurd (omega arith)
length-take (suc n) (x ∷ xs) h = ap suc (length-take n xs (omega arith))

-- A read that returns splits the stream after `n` bytes.
pub read_full-splits :
    (n : ℕ) (s xs rest : Bytes) → read_full n s ≡ ok (xs, rest) → (s ≡ xs ++ rest) × (length xs ≡ n)
unfolding read_full
read_full-splits n s xs rest h = elim (Bool-cases (leb n (length s))) [
  | inl enough ↦ ground (arith, take-append-drop n s, length-take n s)
  | inr short ↦ ground arith
]

pub read_full-ne-stuck : (n : ℕ) (s : Bytes) → read_full n s ≢ stuck
unfolding read_full
read_full-ne-stuck n s = ground arith
