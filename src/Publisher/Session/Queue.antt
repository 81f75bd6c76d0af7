-- ===== src/Publisher/Session/Queue.antt =====
-- ros/publisher.go: the queue of a session, and what the session sends.
use rosgo.Prelude.{
  ◌%◌, ◌^◌, ◌≤◌, ◌≡◌, refl, sym, ap, ◌∙◌, Bool, true, false, ℕ, ◌-◌, drop, List, [], ◌∷◌, ◌++◌,
  Bytes, length, ◌==◌, if◌then◌else◌, Result, ok, err, panic, stuck, >>=-eq-ok, append_assoc,
  append-nil, length-append, arith,
}
use mathlib.Core.Path.{subst}
use rosgo.Wire.{put_uint}
use rosgo.Header.{Conn, send}
use rosgo.Publisher.Session.{
  Sending, Event, no_header, wrong_type, wrong_md5, not_written, onward, arrive, quit, dequeue,
  goes_on, Error, header_written, queue_max_size, frame, drop_oldest, enqueue, write_message,
  written, dequeued, round, rounds,
}

-- The items of one list are items of another, in the same order.
pub data Subsequence : List Bytes → List Bytes → Type 0 where
  done : Subsequence [] []
  keep : {m : Bytes} {xs ys : List Bytes} → Subsequence xs ys → Subsequence (m ∷ xs) (m ∷ ys)
  skip : {m : Bytes} {xs ys : List Bytes} → Subsequence xs ys → Subsequence xs (m ∷ ys)

Subsequence-refl : (xs : List Bytes) → Subsequence xs xs
Subsequence-refl [] = done
Subsequence-refl (x ∷ xs) = keep (Subsequence-refl xs)

drop_oldest-Subsequence :
    (q rest xs : List Bytes) → Subsequence xs (drop_oldest q ++ rest) → Subsequence xs (q ++ rest)
drop_oldest-Subsequence [] rest xs h = h
drop_oldest-Subsequence (m ∷ q) rest xs h = skip h

dropped_if :
    (b : Bool) (q rest xs : List Bytes)
    → Subsequence xs ((if b then drop_oldest q else q) ++ rest)
    → Subsequence xs (q ++ rest)
dropped_if true q rest xs h = drop_oldest-Subsequence q rest xs h
dropped_if false q rest xs h = h

-- The messages that a run of the loop is given.
abbrev pub arrivals : List Event → List Bytes
arrivals [] = []
arrivals (arrive m ∷ es) = m ∷ arrivals es
arrivals (quit ∷ es) = arrivals es
arrivals (dequeue ∷ es) = arrivals es

abbrev pub frames : List Bytes → Bytes
frames [] = []
frames (m ∷ ms) = frame m ++ frames ms

send-ok : (bs : Bytes) (c c' : Conn) → send bs c ≡ ok c' → c'.sent ≡ c.sent ++ bs
unfolding send
send-ok bs c c' h = ground arith

header_written-ok : (r : Result Conn Conn) (c : Conn) → header_written r ≡ ok c → r ≡ ok c
header_written-ok (ok d) c h = cc
header_written-ok (err d) c h = cc
header_written-ok panic c h = cc
header_written-ok stuck c h = cc

write_message-ok :
    (m : Bytes) (c c' : Conn) → write_message m c ≡ ok c' → c'.sent ≡ c.sent ++ frame m
unfolding write_message
write_message-ok m c c' h =
    let (d, sized, rest) =
      >>=-eq-ok (header_written (send (put_uint 4 (length m % 2 ^ 32)) c)) _ h in
    send-ok m d c' (header_written-ok _ c' rest)
    ∙ ap (λ s. s ++ m) (send-ok (put_uint 4 (length m % 2 ^ 32)) c d (header_written-ok _ d sized))
    ∙ append_assoc c.sent (put_uint 4 (length m % 2 ^ 32)) m

-- The last `k` of some messages.
abbrev pub newest : ℕ → List Bytes → List Bytes
newest k ms = drop (length ms - k) ms

abbrev pub sent_first : Bytes → List Bytes × List Bytes → List Bytes × List Bytes
sent_first m (ms, q) = (m ∷ ms, q)

-- The messages that are sent, and those that wait behind the events, where just the newest 100 wait.
abbrev pub waited : List Event → List Bytes → List Bytes × List Bytes
waited [] q = ([], q)
waited (arrive m ∷ es) q = waited es (newest 100 (q ++ m ∷ []))
waited (quit ∷ es) q = waited es q
waited (dequeue ∷ es) [] = waited es []
waited (dequeue ∷ es) (m ∷ q) = sent_first m (waited es q)

-- What a run that goes on has sent, `ms`, and what is still in the queue.
pub record Sent (es : List Event) (s s' : Sending) : Type 0 where
  pub ms : List Bytes
  pub bytes : s'.conn.sent ≡ s.conn.sent ++ frames ms
  pub order : Subsequence (ms ++ s'.queue) (s.queue ++ arrivals es)
  pub bounded : length s.queue ≤ queue_max_size → length s'.queue ≤ queue_max_size
  pub exact : length s.queue ≤ queue_max_size → waited es s.queue ≡ (ms, s'.queue)

room_for :
    (b : Bool) (m : Bytes) (q : List Bytes)
    → (length q == queue_max_size) ≡ b
    → length q ≤ queue_max_size
    → length ((if b then drop_oldest q else q) ++ m ∷ []) ≤ queue_max_size
room_for true m [] e h = omega arith
room_for true m (x ∷ q) e h = omega (arith, length-append q (m ∷ []))
room_for false m q e h = ground (arith, length-append q (m ∷ []))

-- A full queue loses its oldest message, and another one none.
enqueued_newest :
    (b : Bool) (m : Bytes) (q : List Bytes)
    → (length q == queue_max_size) ≡ b
    → length q ≤ queue_max_size
    → newest 100 (q ++ m ∷ []) ≡ (if b then drop_oldest q else q) ++ m ∷ []
enqueued_newest true m [] e h = absurd (ground (arith, e))
enqueued_newest true m (x ∷ q) e h =
    let one : length ((x ∷ q) ++ m ∷ []) - 100 ≡ 1 =
      ground (arith, e, length-append (x ∷ q) (m ∷ [])) in
    ap (λ k. drop k ((x ∷ q) ++ m ∷ [])) one
enqueued_newest false m q e h =
    let none_lost : length (q ++ m ∷ []) - 100 ≡ 0 = ground (arith, e, length-append q (m ∷ [])) in
    ap (λ k. drop k (q ++ m ∷ [])) none_lost

arrive-Sent :
    (m : Bytes) (es : List Event) (s s' : Sending)
    → Sent es (enqueue m s) s'
    → Sent (arrive m ∷ es) s s'
unfolding enqueue
arrive-Sent m es s s' v =
    let full = length s.queue == queue_max_size in
    record {
      ms = v.ms;
      bytes = v.bytes;
      order = dropped_if full s.queue (m ∷ arrivals es) (v.ms ++ s'.queue) (
          subst (Subsequence (v.ms ++ s'.queue))
            (append_assoc (if full then drop_oldest s.queue else s.queue) (m ∷ []) (arrivals es))
            v.order);
      bounded = λ h. v.bounded (room_for full m s.queue refl h);
      exact = λ h.
          ap (waited es) (enqueued_newest full m s.queue refl h)
          ∙ v.exact (room_for full m s.queue refl h);
    }

dequeue-Sent :
    (m : Bytes) (q : List Bytes) (c c' : Conn) (es : List Event) (s' : Sending)
    → write_message m c ≡ ok c'
    → Sent es (record { queue = q; conn = c' }) s'
    → Sent (dequeue ∷ es) (record { queue = m ∷ q; conn = c }) s'
dequeue-Sent m q c c' es s' e v = record {
  ms = m ∷ v.ms;
  bytes =
      v.bytes
      ∙ ap (λ x. x ++ frames v.ms) (write_message-ok m c c' e)
      ∙ append_assoc c.sent (frame m) (frames v.ms);
  order = keep v.order;
  bounded = λ h. v.bounded (omega arith);
  exact = λ h. ap (sent_first m) (v.exact (omega arith));
}

-- The round that writes the first message of the queue, and the rounds behind it.
written-Sent :
    (m : Bytes) (q : List Bytes) (c : Conn) (es : List Event) (s' : Sending) (r : Result Error Conn)
    → write_message m c ≡ r
    → onward (rounds es) (written q r) ≡ goes_on s'
    → ((t : Sending) → rounds es t ≡ goes_on s' → Sent es t s')
    → Sent (dequeue ∷ es) (record { queue = m ∷ q; conn = c }) s'
written-Sent m q c es s' (ok c') e h ih =
    dequeue-Sent m q c c' es s' e (ih (record { queue = q; conn = c' }) h)
written-Sent m q c es s' (err (not_written d)) e h ih = cc
written-Sent m q c es s' (err (no_header d)) e h ih = cc
written-Sent m q c es s' (err (wrong_type d)) e h ih = cc
written-Sent m q c es s' (err (wrong_md5 d)) e h ih = cc
written-Sent m q c es s' panic e h ih = cc
written-Sent m q c es s' stuck e h ih = cc

dequeued-Sent :
    (q : List Bytes) (c : Conn) (es : List Event) (s' : Sending)
    → onward (rounds es) (dequeued q c) ≡ goes_on s'
    → ((t : Sending) → rounds es t ≡ goes_on s' → Sent es t s')
    → Sent (dequeue ∷ es) (record { queue = q; conn = c }) s'
dequeued-Sent [] c es s' h ih = cc
dequeued-Sent (m ∷ q) c es s' h ih = written-Sent m q c es s' (write_message m c) refl h ih

same-Sent : (s : Sending) → Sent [] s s
same-Sent s = record {
  ms = [];
  bytes = sym (append-nil s.conn.sent);
  order = subst (Subsequence s.queue) (sym (append-nil s.queue)) (Subsequence-refl s.queue);
  bounded = λ h. h;
  exact = λ h. refl;
}

-- Whatever the scheduler does: if the session goes on after the events, it has sent the frames of some
-- messages behind what was sent before, and these, with what is then in the queue, are the messages of
-- the queue and the new ones, in their order, less those that were dropped. If at most 100 messages
-- wait at the start, at most 100 do at the end, and what is sent and what still waits is what comes of
-- the events where each new message leaves just the newest 100 waiting.
pub rounds-Sent : (es : List Event) (s s' : Sending) → rounds es s ≡ goes_on s' → Sent es s s'
unfolding rounds round
rounds-Sent [] s s' h = let e : s ≡ s' = cc in subst (Sent [] s) e (same-Sent s)
rounds-Sent (arrive m ∷ es) s s' h = arrive-Sent m es s s' (rounds-Sent es (enqueue m s) s' h)
rounds-Sent (quit ∷ es) s s' h = cc
rounds-Sent (dequeue ∷ es) s s' h =
    dequeued-Sent s.queue s.conn es s' h (λ t e. rounds-Sent es t s' e)
