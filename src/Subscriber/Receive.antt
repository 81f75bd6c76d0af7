-- ===== src/Subscriber/Receive.antt =====
-- `startRemotePublisherConn` of ros/subscriber.go: one connection of a subscriber to a publisher.
use rosgo.Prelude.{
  ℕ, zero, suc, Bool, ◌||◌, not, List, [], ◌∷◌, Bytes, codes, str_eq, ltb, if◌then◌else◌, Result,
  ok, ◌>>=◌,
}
use rosgo.Wire.{uint_of}
use rosgo.Header
use rosgo.Header.{Header, Conn, read_connection_header, write_connection_header}
use rosgo.Header.Fields.{field}

-- What a subscriber asks for.
pub record Topic : Type 0 where
  pub topic : Bytes
  pub md5sum : Bytes
  pub type_name : Bytes
  pub node_id : Bytes

unfoldable pub request_headers : Topic → List Header
request_headers t =
    record { key = codes "topic"; value = t.topic }
    ∷ record { key = codes "md5sum"; value = t.md5sum }
    ∷ record { key = codes "type"; value = t.type_name }
    ∷ record { key = codes "callerid"; value = t.node_id }
    ∷ []

-- The check of the publisher's header.
unfoldable pub accepts : Topic → List Header → Bool
accepts t hs = not (
    not (str_eq (field (codes "type") hs) t.type_name)
    || not (str_eq (field (codes "md5sum") hs) t.md5sum))

-- What a read may meet on the connection: a byte, or a silence as long as the deadline. Behind the
-- last item the connection is closed.
pub data Item : Type 0 where
  byte : ℕ → Item
  silence : Item

-- A read of `n` bytes: the bytes, or a timeout that loses the bytes read so far, or the end.
pub data Read : Type 0 where
  full : Bytes → List Item → Read
  timeout : List Item → Read
  closed : Read

abbrev pub with_byte : ℕ → Read → Read
with_byte b (full bs rest) = full (b ∷ bs) rest
with_byte b (timeout rest) = timeout rest
with_byte b closed = closed

unfoldable pub read_items : ℕ → List Item → Read
read_items zero s = full [] s
read_items (suc n) [] = closed
read_items (suc n) (silence ∷ s) = timeout s
read_items (suc n) (byte b ∷ s) = with_byte b (read_items n s)

-- How the loop ends: a closed connection is reported, and a size or a body that does not come in time
-- is a reason to dial again.
pub data End : Type 0 where
  disconnected redial unfinished : End

abbrev pub max_size : ℕ
max_size = 256000000

abbrev pub delivered : Bytes → List Bytes × End → List Bytes × End
delivered m (ms, e) = (m ∷ ms, e)

abbrev pub Received : Type 0
Received = List Bytes × End

-- After the read of a body, with the rounds that follow.
abbrev pub with_body : (List Item → Received) → Read → Received
with_body next closed = ([], disconnected)
with_body next (timeout s) = ([], redial)
with_body next (full body s) = delivered body (next s)

-- After the read of a size. A size that is too large is taken for a lost place in the stream.
abbrev pub with_size : (List Item → Received) → Read → Received
with_size next closed = ([], disconnected)
with_size next (timeout s) = next s
with_size next (full raw s) =
    if ltb (uint_of raw) max_size then with_body next (read_items (uint_of raw) s) else ([], redial)

-- The messages offered to the subscriber's channel, until the loop ends. A round takes the size and
-- the body of a message, or one item at least.
unfoldable pub receive : ℕ → List Item → Received
receive zero s = ([], unfinished)
receive (suc n) s = with_size (receive n) (read_items 4 s)

-- The publisher's answer is read and checked, and the messages follow.
unfoldable pub greet : Topic → Bytes → Result Header.Error (Bool × Bytes)
greet t input = read_connection_header input >>= λ (hs, rest). ok (accepts t hs, rest)
