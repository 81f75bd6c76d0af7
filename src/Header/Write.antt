-- ===== src/Header/Write.antt =====
-- `writeConnectionHeader` of ros/header.go, beside the encoding of the header.
use rosgo.Prelude.{
  ℕ, zero, suc, ◌-◌, ◌≤◌, ◌≡◌, refl, sym, ap, List, [], ◌∷◌, ◌++◌, Bytes, length, take, leb, Result,
  ok, ◌>>=◌, arith, length-append, append_assoc, append-nil, Bool-cases, inl, inr,
}
use mathlib.Core.Path.{fun_ext}
use rosgo.Header.{Header, Conn, send, write_lines, write_connection_header}
use rosgo.Header.Encoding.{encode_lines, encode}

n_less_zero : (n : ℕ) → n - 0 ≡ n
n_less_zero n = omega arith

take-append_more :
    (n : ℕ) (xs ys : Bytes) → length xs ≤ n → take n (xs ++ ys) ≡ xs ++ take (n - length xs) ys
take-append_more n [] ys h = rw (n_less_zero n)
take-append_more zero (x ∷ xs) ys h = absurd (omega arith)
take-append_more (suc n) (x ∷ xs) ys h =
    let e : suc n - suc (length xs) ≡ n - length xs = omega arith in
    rw e (ap (◌∷◌ x) (take-append_more n xs ys (omega arith)))

take-append_less : (n : ℕ) (xs ys : Bytes) → n ≤ length xs → take n (xs ++ ys) ≡ take n xs
take-append_less zero xs ys h = refl
take-append_less (suc n) [] ys h = absurd (omega arith)
take-append_less (suc n) (x ∷ xs) ys h = ap (◌∷◌ x) (take-append_less n xs ys (omega arith))

-- Two writes are one write of both.
send-append : (xs ys : Bytes) (c : Conn) → (send xs c >>= send ys) ≡ send (xs ++ ys) c
unfolding send
send-append xs ys c = elim (Bool-cases (leb (length xs) c.room)) [
  | inl fits ↦ rw fits (
      ground (
        arith,
        length-append xs ys,
        take-append_more c.room xs ys,
        append_assoc c.sent xs ys,
        append_assoc c.sent xs (take (c.room - length xs) ys),
      ))
  | inr short ↦ rw short (ground (arith, length-append xs ys, take-append_less c.room xs ys))
]

send_nil : (c : Conn) → send [] c ≡ ok c
unfolding send
send_nil c = ground (arith, append-nil c.sent)

-- A write of `xs`, and then a step that is itself one write.
send_then :
    (xs ys : Bytes) (f : Conn → Result Conn Conn)
    → ((c : Conn) → f c ≡ send ys c)
    → (c : Conn) → (send xs c >>= f) ≡ send (xs ++ ys) c
send_then xs ys f h c = rw (fun_ext h) (send-append xs ys c)

write_lines-send : (hs : List Header) (c : Conn) → write_lines hs c ≡ send (encode_lines hs) c
unfolding write_lines
write_lines-send [] c = sym (send_nil c)
write_lines-send (h ∷ hs) c = rw append_assoc (
    send_then _ _ _
      (send_then h.key _ _
        (send_then (b'=' ∷ []) _ _ (send_then h.value _ _ (write_lines-send hs))))
      c)

-- The writes of `writeConnectionHeader` come to one write of the encoding: all of it where the
-- connection takes that many bytes, and otherwise the longest prefix that it takes, with an error.
pub write_connection_header-send :
    (hs : List Header) (c : Conn) → write_connection_header hs c ≡ send (encode hs) c
unfolding write_connection_header
write_connection_header-send hs c = send_then _ _ _ (write_lines-send hs) c
