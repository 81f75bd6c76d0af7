-- ===== src/Tcpros/Handshake.antt =====
-- When a publisher and a subscriber accept one another.
use rosgo.Prelude.{
  ◌-◌, ◌<◌, ◌≤◌, ◌^◌, ◌≡◌, ◌≢◌, ◌↔◌, refl, sym, ◌∙◌, Bool, true, false, ◌&&◌, ◌||◌, not, ◌++◌,
  Bytes, codes, str_eq, str_eq_iff, length, if◌then◌else◌, Result, ok, err, arith, Bool-cases, inl,
  inr,
}
use rosgo.Header
use rosgo.Header.{
  Header, Conn, send, read_connection_header, write_connection_header, header_size_of,
}
use rosgo.Header.Encoding.{IsWritable, encode}
use rosgo.Header.Read.{read_connection_header-encode}
use rosgo.Header.Write.{write_connection_header-send}
use rosgo.Header.Fields.{field, field_from}
use rosgo.Header.Writable.{writable-IsWritable, send-fits}
use rosgo.Publisher.Session
use rosgo.Publisher.Session.{
  Session, header_read, header_written, response_headers, mismatch, check_request, handshake,
}
use rosgo.Subscriber.Receive.{Topic, request_headers, accepts, greet}

request_headers-IsWritable : (t : Topic) → IsWritable (request_headers t)
unfolding request_headers
request_headers-IsWritable t = writable-IsWritable (request_headers t) refl

response_headers-IsWritable : (s : Session) → IsWritable (response_headers s)
unfolding response_headers
response_headers-IsWritable s = writable-IsWritable (response_headers s) refl

-- The connection behind the publisher's answer.
abbrev pub answered : Session → Conn → Conn
answered s c = record {
  sent = c.sent ++ encode (response_headers s);
  room = c.room - length (encode (response_headers s));
}

check_request-request_headers :
    (t : Topic) (s : Session)
    → check_request s (request_headers t) ≡ (
        if mismatch t.type_name s.type_name
        then err (Session.wrong_type t.type_name)
        else if mismatch t.md5sum s.md5sum
        then err (Session.wrong_md5 t.md5sum)
        else ok t.node_id)
unfolding check_request request_headers field field_from
check_request-request_headers t s = refl

accepts-response_headers :
    (t : Topic) (s : Session)
    → accepts t (response_headers s)
      ≡ not (not (str_eq s.type_name t.type_name) || not (str_eq s.md5sum t.md5sum))
unfolding accepts response_headers field field_from
accepts-response_headers t s = refl

greet-encode :
    (t : Topic) (s : Session) (later : Bytes)
    → header_size_of (response_headers s) < 2 ^ 32
    → greet t (encode (response_headers s) ++ later)
      ≡ ok (not (not (str_eq s.type_name t.type_name) || not (str_eq s.md5sum t.md5sum)), later)
unfolding greet
greet-encode t s later h =
    rw (read_connection_header-encode (response_headers s) later (response_headers-IsWritable s) h)
      (rw (accepts-response_headers t s))

-- A request that passes the two checks is answered.
handshake-encode :
    (t : Topic) (s : Session) (rest : Bytes) (c : Conn)
    → header_size_of (request_headers t) < 2 ^ 32
    → length (encode (response_headers s)) ≤ c.room
    → mismatch t.type_name s.type_name ≡ false
    → mismatch t.md5sum s.md5sum ≡ false
    → handshake s (encode (request_headers t) ++ rest) c ≡ ok (t.node_id, rest, answered s c)
unfolding handshake
handshake-encode t s rest c small fits same_type same_md5 =
    rw (read_connection_header-encode (request_headers t) rest (request_headers-IsWritable t) small)
      (rw (check_request-request_headers t s) (
        rw (same_type, same_md5)
          (rw (write_connection_header-send (response_headers s) c)
            (rw (send-fits (encode (response_headers s)) c fits)))))

same : (x : Bytes) → str_eq x x ≡ true
same x = (str_eq_iff x x).1 refl

equal_match : (theirs own : Bytes) → theirs ≡ own → mismatch theirs own ≡ false
equal_match theirs own e = rw e (rw (same own))

both_equal : (a b : Bool) → not (not a || not b) ≡ true → (a ≡ true) × (b ≡ true)
both_equal a b h = ground (arith, h)

ok_inj :
    (b b' : Bool) (later : Bytes)
    → ◌≡◌ {A = Result Header.Error (Bool × Bytes)} (ok (b, later)) (ok (b', later))
    → b ≡ b'
ok_inj b b' later h = cc

agree :
    (t : Topic) (s : Session)
    → not (not (str_eq s.type_name t.type_name) || not (str_eq s.md5sum t.md5sum)) ≡ true
    → (t.type_name ≡ s.type_name) × (t.md5sum ≡ s.md5sum)
agree t s h =
    let (e, e') = both_equal (str_eq s.type_name t.type_name) (str_eq s.md5sum t.md5sum) h in
    (sym ((str_eq_iff s.type_name t.type_name).0 e), sym ((str_eq_iff s.md5sum t.md5sum).0 e'))

absorbed : (a : Bool) → (not a && false) ≡ false
absorbed a = ground arith

star : (theirs own : Bytes) → theirs ≡ codes "*" → mismatch theirs own ≡ false
star theirs own e = rw e (absorbed (str_eq (codes "*") own))

refused : (x y : Bytes) → x ≢ y → str_eq x y ≡ false
refused x y ne = elim (Bool-cases (str_eq x y)) [
  | inl eq ↦ absurd (ne ((str_eq_iff x y).0 eq))
  | inr other ↦ other
]

-- A subscriber's request reaches a publisher's session with what follows it, and its answer the
-- subscriber. If both headers have less than 2^32 bytes and the connection takes the answer, then the
-- two go on with one another exactly when their types and their MD5 sums are equal.
pub handshake-greet :
    (t : Topic) (s : Session) (rest later : Bytes) (c : Conn)
    → header_size_of (request_headers t) < 2 ^ 32
    → header_size_of (response_headers s) < 2 ^ 32
    → length (encode (response_headers s)) ≤ c.room
    → ((handshake s (encode (request_headers t) ++ rest) c ≡ ok (t.node_id, rest, answered s c))
        × (greet t (encode (response_headers s) ++ later) ≡ ok (true, later)))
      ↔ ((t.type_name ≡ s.type_name) × (t.md5sum ≡ s.md5sum))
handshake-greet t s rest later c small small' fits = (
  λ h. agree t s (ok_inj _ _ later (sym (greet-encode t s later small') ∙ h.1)),
  λ (e, e'). (
    handshake-encode t s rest c small fits (equal_match _ _ e) (equal_match _ _ e'),
    greet-encode t s later small' ∙ rw (← e, ← e') (rw (same t.type_name, same t.md5sum)),
  ),
)

-- A subscriber of any type (`*`) whose MD5 sum is `*` as well is accepted by every publisher whose type
-- is not `*`, if both headers are of less than 2^32 bytes and the connection takes the answer, and the
-- subscriber refuses that answer.
pub greet_wildcard :
    (t : Topic) (s : Session) (rest later : Bytes) (c : Conn)
    → header_size_of (request_headers t) < 2 ^ 32
    → header_size_of (response_headers s) < 2 ^ 32
    → length (encode (response_headers s)) ≤ c.room
    → t.type_name ≡ codes "*"
    → t.md5sum ≡ codes "*"
    → s.type_name ≢ codes "*"
    → (handshake s (encode (request_headers t) ++ rest) c ≡ ok (t.node_id, rest, answered s c))
      × (greet t (encode (response_headers s) ++ later) ≡ ok (false, later))
greet_wildcard t s rest later c small small' fits e e' ne = (
  handshake-encode t s rest c small fits (star t.type_name s.type_name e)
      (star t.md5sum s.md5sum e'),
  greet-encode t s later small' ∙ rw (refused s.type_name t.type_name (λ q. ne (q ∙ e))),
)
