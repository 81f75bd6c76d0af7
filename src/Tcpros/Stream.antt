-- ===== src/Tcpros/Stream.antt =====
-- ros/publisher.go and ros/subscriber.go: a session's loop and the subscriber's reader on one connection.
use rosgo.Prelude.{
  ℕ, zero, suc, ◌+◌, ◌%◌, ◌^◌, ◌<◌, ◌≡◌, refl, sym, ap, ◌∙◌, true, List, [], ◌∷◌, ◌++◌, Bytes,
  length, ltb, All, append_assoc, arith, if◌then◌else◌,
}
use mathlib.Core.Path.{subst}
use native.Mathlib.Nat.{add-zero, add-suc}
use rosgo.Wire.{put_uint, uint_of}
use rosgo.Wire.Ints.{length-put_uint, uint_of-put_uint}
use rosgo.Publisher.Session.{Sending, Event, goes_on, rounds, frame}
use rosgo.Publisher.Session.Queue.{
  Subsequence, done, keep, skip, arrivals, frames, waited, rounds-Sent,
}
use rosgo.Subscriber.Receive.{
  Item, byte, silence, full, with_byte, read_items, disconnected, redial, max_size, delivered,
  with_body, with_size, receive,
}

abbrev pub bytes : Bytes → List Item
bytes [] = []
bytes (b ∷ bs) = byte b ∷ bytes bs

abbrev pub silences : ℕ → List Item
silences zero = []
silences (suc n) = silence ∷ silences n

-- Messages on the connection, each behind a number of silences.
abbrev pub spaced : List (ℕ × Bytes) → List Item
spaced [] = []
spaced ((n, m) ∷ ms) = silences n ++ (bytes (frame m) ++ spaced ms)

abbrev pub messages : List (ℕ × Bytes) → List Bytes
messages [] = []
messages ((n, m) ∷ ms) = m ∷ messages ms

-- A round for each message, one for each silence, and one for the end.
abbrev pub rounds_for : List (ℕ × Bytes) → ℕ
rounds_for [] = 1
rounds_for ((n, m) ∷ ms) = suc (rounds_for ms) + n

bytes-append : (xs ys : Bytes) → bytes (xs ++ ys) ≡ bytes xs ++ bytes ys
bytes-append [] ys = refl
bytes-append (x ∷ xs) ys = ap (◌∷◌ (byte x)) (bytes-append xs ys)

read_items-bytes :
    (n : ℕ) (xs : Bytes) (rest : List Item)
    → length xs ≡ n
    → read_items n (bytes xs ++ rest) ≡ full xs rest
unfolding read_items
read_items-bytes zero [] rest h = refl
read_items-bytes zero (x ∷ xs) rest h = absurd (omega arith)
read_items-bytes (suc n) [] rest h = absurd (omega arith)
read_items-bytes (suc n) (x ∷ xs) rest h =
    ap (with_byte x) (read_items-bytes n xs rest (omega arith))

abbrev pub IsShort : Bytes → Type 0
IsShort m = length m < max_size

short : (m : Bytes) → IsShort m → ltb (length m) max_size ≡ true
short m h = ground arith

read_body :
    (n : ℕ) (m : Bytes) (rest : List Item) (k : ℕ)
    → k ≡ length m
    → IsShort m
    → (if ltb k max_size
        then with_body (receive n) (read_items k (bytes m ++ rest))
        else ([], redial))
      ≡ delivered m (receive n rest)
read_body n m rest k e h =
    rw e (rw (short m h) (ap (with_body (receive n)) (read_items-bytes (length m) m rest refl)))

-- A round that reads a whole message.
receive-frame :
    (n : ℕ) (m : Bytes) (rest : List Item)
    → IsShort m
    → receive (suc n) (bytes (frame m) ++ rest) ≡ delivered m (receive n rest)
unfolding receive
receive-frame n m rest h =
    let size : length m % 2 ^ 32 ≡ length m = omega arith in
    rw
      (
        size,
        bytes-append (put_uint 4 (length m)) m,
        append_assoc (bytes (put_uint 4 (length m))) (bytes m) rest,
      )
      (ap (with_size (receive n)) (
          read_items-bytes 4 (put_uint 4 (length m)) (bytes m ++ rest)
            (length-put_uint 4 (length m)))
        ∙ read_body n m rest (uint_of (put_uint 4 (length m)))
            (uint_of-put_uint 4 (length m) (omega arith)) h)

receive-silences :
    (n k : ℕ) (rest : List Item) → receive (n + k) (silences k ++ rest) ≡ receive n rest
unfolding receive read_items
receive-silences n zero rest = rw add-zero
receive-silences n (suc k) rest = rw add-suc (receive-silences n k rest)

receive_end : receive 1 [] ≡ ([], disconnected)
unfolding receive read_items
receive_end = refl

-- Messages of less than 256000000 bytes that arrive whole, with any silences between them, are all
-- delivered, in their order, before the loop ends with the connection.
pub receive-spaced :
    (ms : List (ℕ × Bytes))
    → All IsShort (messages ms)
    → receive (rounds_for ms) (spaced ms) ≡ (messages ms, disconnected)
receive-spaced [] h = receive_end
receive-spaced ((n, m) ∷ ms) h =
    receive-silences (suc (rounds_for ms)) n (bytes (frame m) ++ spaced ms)
    ∙ receive-frame (rounds_for ms) m (spaced ms) h.0
    ∙ ap (delivered m) (receive-spaced ms h.1)

abbrev unspaced : List Bytes → List (ℕ × Bytes)
unspaced [] = []
unspaced (m ∷ ms) = (0, m) ∷ unspaced ms

spaced-unspaced : (ms : List Bytes) → spaced (unspaced ms) ≡ bytes (frames ms)
spaced-unspaced [] = refl
spaced-unspaced (m ∷ ms) =
    ap (λ s. bytes (frame m) ++ s) (spaced-unspaced ms) ∙ sym (bytes-append (frame m) (frames ms))

messages-unspaced : (ms : List Bytes) → messages (unspaced ms) ≡ ms
messages-unspaced [] = refl
messages-unspaced (m ∷ ms) = ap (◌∷◌ m) (messages-unspaced ms)

Subsequence-All : {xs ys : List Bytes} → Subsequence xs ys → All IsShort ys → All IsShort xs
Subsequence-All done h = tt
Subsequence-All (keep s) h = (h.0, Subsequence-All s h.1)
Subsequence-All (skip s) h = Subsequence-All s h.1

front : (xs ys : List Bytes) → All IsShort (xs ++ ys) → All IsShort xs
front [] ys h = tt
front (x ∷ xs) ys h = (h.0, front xs ys h.1)

-- If a session that begins with an empty queue, on a connection on which nothing was sent, goes on
-- after any events, and the messages that it was given have less than 256000000 bytes, then the
-- subscriber that reads what was sent receives some messages, and these, with what is still in the
-- queue, are the messages given, in their order, less those dropped: just those that come of the events
-- where each new message leaves the newest 100 waiting.
pub receive-rounds :
    (es : List Event) (room : ℕ) (s : Sending)
    → rounds es (record { queue = []; conn = record { sent = []; room = room } }) ≡ goes_on s
    → All IsShort (arrivals es)
    → (ms : List Bytes) × ((n : ℕ) × (receive n (bytes s.conn.sent) ≡ (ms, disconnected)))
      × Subsequence (ms ++ s.queue) (arrivals es)
      × (waited es [] ≡ (ms, s.queue))
receive-rounds es room s e h =
    let v = rounds-Sent es (record { queue = []; conn = record { sent = []; room = room } }) s e in
    let shorts = front v.ms s.queue (Subsequence-All v.order h) in
    (
      v.ms,
      (
        rounds_for (unspaced v.ms),
        rw v.bytes (
            rw (← spaced-unspaced v.ms) (
              receive-spaced (unspaced v.ms)
                (subst (All IsShort) (sym (messages-unspaced v.ms)) shorts)
              ∙ ap (λ ms. (ms, disconnected)) (messages-unspaced v.ms))),
      ),
      v.order,
      v.exact (omega arith),
    )
