-- ===== src/Tests/Sessions.antt =====
-- Publishers and subscribers over a connection (ros/publisher.go and ros/subscriber.go).
use rosgo.Prelude.{
  ℕ, ◌≤◌, ◌≡◌, ◌↔◌, ◌++◌, refl, List, [], ◌∷◌, Bytes, codes, length, ok, true, false, arith,
}
use rosgo.Wire.{put_uint}
use rosgo.Header.{Conn, send}
use rosgo.Header.Encoding.{encode}
use rosgo.Publisher
use rosgo.Publisher.{run, turn, message, session_new, session_error, shutdown, remove_first}
use rosgo.Publisher.Deliveries.{given, heard, listed, run-heard}
use rosgo.Publisher.Session.{
  Session, Sending, Event, arrive, dequeue, goes_on, rounds, round, enqueue, write_message,
  response_headers, handshake, frame,
}
use rosgo.Publisher.Session.Queue.{Subsequence, Sent, arrivals, waited, rounds-Sent}
use rosgo.Subscriber.Receive.{Topic, request_headers, greet, receive, disconnected}
use rosgo.Tcpros.Stream.{bytes, receive-rounds}
use rosgo.Tcpros.Handshake.{answered, handshake-greet, greet_wildcard}

-- Session 7 is announced, hears one message, and reports; session 8 hears the next.
abbrev life : List Publisher.Event
life =
    message (1 ∷ [])
    ∷ session_new 7
    ∷ message (2 ∷ [])
    ∷ session_new 8
    ∷ session_error 7
    ∷ message (3 ∷ [])
    ∷ shutdown
    ∷ []

run-heard_example : given 7 (run life []) ≡ heard 7 (listed 7 []) life
run-heard_example = run-heard 7 life [] [] tt (λ j e. e) (refl, (refl, tt))

abbrev begun : Sending
begun = record { queue = []; conn = record { sent = []; room = 100 } }

abbrev sent_one : Sending
sent_one = record { queue = (5 ∷ []) ∷ []; conn = record { sent = frame (4 ∷ []); room = 95 } }

abbrev two_arrive : List Event
two_arrive = arrive (4 ∷ []) ∷ arrive (5 ∷ []) ∷ dequeue ∷ []

two_rounds : rounds two_arrive begun ≡ goes_on sent_one
unfolding rounds round enqueue write_message send put_uint
two_rounds = refl

rounds-Sent_example : Sent two_arrive begun sent_one
rounds-Sent_example = rounds-Sent two_arrive begun sent_one two_rounds

receive-rounds_example :
    (ms : List Bytes) × ((n : ℕ) × (receive n (bytes sent_one.conn.sent) ≡ (ms, disconnected)))
    × Subsequence (ms ++ sent_one.queue) (arrivals two_arrive)
    × (waited two_arrive [] ≡ (ms, sent_one.queue))
receive-rounds_example =
    receive-rounds two_arrive 100 sent_one two_rounds (omega arith, (omega arith, tt))

abbrev late : List (ℕ × Bytes)
late = (2, 9 ∷ 8 ∷ []) ∷ (0, []) ∷ []

abbrev chatter : Topic
chatter = record {
  topic = codes "/c";
  md5sum = codes "m";
  type_name = codes "p/S";
  node_id = codes "/n";
}

abbrev anything : Topic
anything = record {
  topic = codes "/c";
  md5sum = codes "*";
  type_name = codes "*";
  node_id = codes "/n";
}

abbrev talker : Session
talker = record {
  node_id = codes "/t";
  topic = codes "/c";
  type_text = codes "string data";
  md5sum = codes "m";
  type_name = codes "p/S";
}

abbrev free : Conn
free = record { sent = []; room = 1000 }

answer_fits : length (encode (response_headers talker)) ≤ free.room
unfolding response_headers put_uint
answer_fits = omega arith

handshake-greet_example :
    ((handshake talker (encode (request_headers chatter) ++ 3 ∷ []) free
        ≡ ok (chatter.node_id, 3 ∷ [], answered talker free))
      × (greet chatter (encode (response_headers talker) ++ 4 ∷ []) ≡ ok (true, 4 ∷ [])))
    ↔ ((chatter.type_name ≡ talker.type_name) × (chatter.md5sum ≡ talker.md5sum))
handshake-greet_example =
    handshake-greet chatter talker (3 ∷ []) (4 ∷ []) free (unfold request_headers in omega arith)
      (unfold response_headers in omega arith) answer_fits

greet_wildcard_example :
    (handshake talker (encode (request_headers anything) ++ 3 ∷ []) free
      ≡ ok (anything.node_id, 3 ∷ [], answered talker free))
    × (greet anything (encode (response_headers talker) ++ 4 ∷ []) ≡ ok (false, 4 ∷ []))
greet_wildcard_example =
    greet_wildcard anything talker (3 ∷ []) (4 ∷ []) free (unfold request_headers in omega arith)
      (unfold response_headers in omega arith) answer_fits refl refl (λ e. cc)
