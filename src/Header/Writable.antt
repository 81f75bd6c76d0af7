-- ===== src/Header/Writable.antt =====
-- ros/header.go: headers that can be written, and connections that take what is written.
use rosgo.Prelude.{
  ◌-◌, ◌≤◌, ◌≡◌, Bool, true, ◌&&◌, not, List, [], ◌∷◌, ◌++◌, Bytes, length, ◌==◌, ok, arith,
}
use rosgo.Header.{Header, Conn, send}
use rosgo.Header.Encoding.{IsKey, IsWritable}

abbrev no_equals : Bytes → Bool
no_equals [] = true
no_equals (c ∷ cs) = not (c == b'=') && no_equals cs

no_equals-IsKey : (k : Bytes) → no_equals k ≡ true → IsKey k
no_equals-IsKey [] h = tt
no_equals-IsKey (c ∷ cs) h = (ground (arith, h), no_equals-IsKey cs (ground (arith, h)))

abbrev pub writable : List Header → Bool
writable [] = true
writable (h ∷ hs) = no_equals h.key && writable hs

both_true : (a b : Bool) → (a && b) ≡ true → (a ≡ true) × (b ≡ true)
both_true a b h = ground (arith, h)

pub writable-IsWritable : (hs : List Header) → writable hs ≡ true → IsWritable hs
writable-IsWritable [] h = tt
writable-IsWritable (h ∷ hs) e =
    let (k, more) = both_true (no_equals h.key) (writable hs) e in
    (no_equals-IsKey h.key k, writable-IsWritable hs more)

-- The connection behind a write that it takes.
abbrev pub took : Bytes → Conn → Conn
took bs c = record { sent = c.sent ++ bs; room = c.room - length bs }

pub send-fits : (bs : Bytes) (c : Conn) → length bs ≤ c.room → send bs c ≡ ok (took bs c)
unfolding send
send-fits bs c h = ground arith
