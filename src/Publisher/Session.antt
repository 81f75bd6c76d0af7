-- ===== src/Publisher/Session.antt =====
-- `remoteSubscriberSession` of ros/publisher.go: one connection of a publisher to a subscriber.
pub mod Queue
use rosgo.Prelude.{
  ℕ, suc, ◌%◌, ◌^◌, Bool, true, false, ◌&&◌, not, List, [], ◌∷◌, ◌++◌, Bytes, codes, str_eq, length,
  ◌==◌, if◌then◌else◌, Result, ok, err, panic, stuck, ◌>>=◌,
}
use rosgo.Wire.{put_uint}
use rosgo.Header
use rosgo.Header.{Header, Conn, send, read_connection_header, write_connection_header}
use rosgo.Header.Fields.{field}

pub record Session : Type 0 where
  pub node_id : Bytes
  pub topic : Bytes
  pub type_text : Bytes
  pub md5sum : Bytes
  pub type_name : Bytes

-- The early returns of `start`, each behind an entry in the log.
pub data Error : Type 0 where
  no_header : Header.Error → Error
  wrong_type wrong_md5 : Bytes → Error
  not_written : Conn → Error

abbrev pub header_read {ℓ} : {A : Type ℓ} → Result Header.Error A → Result Error A
header_read (ok a) = ok a
header_read (err e) = err (no_header e)
header_read panic = panic
header_read stuck = stuck

abbrev pub header_written : Result Conn Conn → Result Error Conn
header_written (ok c) = ok c
header_written (err c) = err (not_written c)
header_written panic = panic
header_written stuck = stuck

unfoldable pub response_headers : Session → List Header
response_headers s =
    record { key = codes "message_definition"; value = s.type_text }
    ∷ record { key = codes "callerid"; value = s.node_id }
    ∷ record { key = codes "latching"; value = codes "0" }
    ∷ record { key = codes "md5sum"; value = s.md5sum }
    ∷ record { key = codes "topic"; value = s.topic }
    ∷ record { key = codes "type"; value = s.type_name }
    ∷ []

-- `x != own && x != "*"`.
abbrev pub mismatch : Bytes → Bytes → Bool
mismatch theirs own = not (str_eq theirs own) && not (str_eq theirs (codes "*"))

-- The two checks of the subscriber's header; what passes them is the name of the subscriber.
unfoldable pub check_request : Session → List Header → Result Error Bytes
check_request s hs =
    if mismatch (field (codes "type") hs) s.type_name
    then err (wrong_type (field (codes "type") hs))
    else if mismatch (field (codes "md5sum") hs) s.md5sum
    then err (wrong_md5 (field (codes "md5sum") hs))
    else ok (field (codes "callerid") hs)

-- The start of a session: the subscriber's name, what is left of its bytes, and the connection
-- behind the response.
unfoldable pub handshake : Session → Bytes → Conn → Result Error (Bytes × Bytes × Conn)
handshake s input c = header_read (read_connection_header input) >>= λ (hs, rest).
    check_request s hs >>= λ name.
    header_written (write_connection_header (response_headers s) c) >>= λ c'. ok (name, rest, c')

-- What the deferred function reports to the publisher: a panic is recovered, and every return is a
-- normal exit.
pub data Report : Type 0 where
  recovered normal_exit : Report

abbrev pub report {ℓ} : {A : Type ℓ} → Result Error A → Report
report panic = recovered
report _ = normal_exit

abbrev pub queue_max_size : ℕ
queue_max_size = 100

-- A message for a subscriber: its length, and its bytes.
abbrev pub frame : Bytes → Bytes
frame msg = put_uint 4 (length msg % 2 ^ 32) ++ msg

-- The loop that sends messages: the queue, and the connection.
pub record Sending : Type 0 where
  pub queue : List Bytes
  pub conn : Conn

abbrev pub drop_oldest : List Bytes → List Bytes
drop_oldest [] = []
drop_oldest (m ∷ ms) = ms

-- The case of a new message: a full queue loses its oldest one.
unfoldable pub enqueue : Bytes → Sending → Sending
enqueue msg s = record s {
  queue = (if length s.queue == queue_max_size then drop_oldest s.queue else s.queue) ++ msg ∷ [];
}

-- The two writes of a message; an error ends the session.
unfoldable pub write_message : Bytes → Conn → Result Error Conn
write_message msg c = header_written (send (put_uint 4 (length msg % 2 ^ 32)) c) >>= λ c'.
    header_written (send msg c')

-- A round of the select. Which case is taken is up to the scheduler; that of the queue is open only
-- while it holds a message.
pub data Event : Type 0 where
  arrive : Bytes → Event
  quit dequeue : Event

pub data Round : Type 0 where
  goes_on : Sending → Round
  returns : Conn → Round
  not_open : Round

abbrev pub written : List Bytes → Result Error Conn → Round
written ms (ok c) = goes_on (record { queue = ms; conn = c })
written ms (err (not_written c)) = returns c
written ms _ = not_open

abbrev pub dequeued : List Bytes → Conn → Round
dequeued [] c = not_open
dequeued (m ∷ ms) c = written ms (write_message m c)

unfoldable pub round : Event → Sending → Round
round (arrive msg) s = goes_on (enqueue msg s)
round quit s = returns s.conn
round dequeue s = dequeued s.queue s.conn

abbrev pub onward : (Sending → Round) → Round → Round
onward next (goes_on s) = next s
onward next (returns c) = returns c
onward next not_open = not_open

-- The rounds that the scheduler takes.
unfoldable pub rounds : List Event → Sending → Round
rounds [] s = goes_on s
rounds (e ∷ es) s = onward (rounds es) (round e s)
