-- ===== src/Subscriber.antt =====
-- ros/subscriber.go: the loop of a subscriber, one function for each case of its select. Channels
-- that the cases send on are answers: the goroutines at their other ends are not modelled.
pub mod Difference
pub mod Connections
pub mod Loops
pub mod Update
pub mod Receive
use rosgo.Prelude.{
  ℕ, Bool, true, false, ◌||◌, List, [], ◌∷◌, ◌++◌, Bytes, str_eq, if◌then◌else◌, Result, ok, err,
  panic, ◌>>=◌,
}

-- The publishers by their API addresses, in `connections` each with the address that its goroutine
-- reads from. A callback is a number.
pub record Subscriber : Type 0 where
  pub pub_list : List Bytes
  pub callbacks : List ℕ
  pub connections : List (Bytes × Bytes)

-- What a publisher answers to `requestTopic`: an error, another protocol, the address for TCPROS,
-- or a value on which a type assertion of the subscriber panics.
pub data Request : Type 0 where
  failed unsupported malformed : Request
  tcpros : Bytes → Request

-- A send on the nil channel of a publisher with no connection never returns.
pub data Error : Type 0 where
  blocked : Bytes → Error

abbrev pub Outcome {ℓ} : Type ℓ → Type ℓ
Outcome = Result Error

unfoldable pub member : Bytes → List Bytes → Bool
member k [] = false
member k (x ∷ xs) = str_eq x k || member k xs

-- `setDifference`: each string of the first list that is not in the second, once. Go returns them
-- in any order: the list is that order.
unfoldable pub set_difference : List Bytes → List Bytes → List Bytes
set_difference [] rhs = []
set_difference (x ∷ lhs) rhs =
    let rest = set_difference lhs rhs in if member x rhs || member x rest then rest else x ∷ rest

abbrev pub keys : List (Bytes × Bytes) → List Bytes
keys [] = []
keys ((k, _) ∷ m) = k ∷ keys m

unfoldable pub delete : Bytes → List (Bytes × Bytes) → List (Bytes × Bytes)
delete k [] = []
delete k ((j, v) ∷ m) = if str_eq j k then delete k m else (j, v) ∷ delete k m

-- The loop over the publishers that are gone: each is told to quit.
unfoldable pub quit_dead : List Bytes → List (Bytes × Bytes) → Outcome (List (Bytes × Bytes))
quit_dead [] m = ok m
quit_dead (p ∷ ps) m = if member p (keys m) then quit_dead ps (delete p m) else err (blocked p)

-- What the answer of a new publisher makes of the connections.
unfoldable pub answered : Request → Bytes → List (Bytes × Bytes) → Outcome (List (Bytes × Bytes))
answered failed p m = ok m
answered unsupported p m = ok m
answered malformed p m = panic
answered (tcpros uri) p m = ok ((p, uri) ∷ delete p m)

-- The loop over the new publishers.
unfoldable pub connect_new :
    (Bytes → Request) → List Bytes → List (Bytes × Bytes) → Outcome (List (Bytes × Bytes))
connect_new request [] m = ok m
connect_new request (p ∷ ps) m = answered (request p) p m >>= λ m'. connect_new request ps m'

-- The case of a new list of publishers.
unfoldable pub receive_list : (Bytes → Request) → List Bytes → Subscriber → Outcome Subscriber
receive_list request list sub =
    quit_dead (set_difference sub.pub_list list) sub.connections >>= λ kept.
    connect_new request (set_difference list sub.pub_list) kept >>= λ m.
    ok (record { pub_list = list; callbacks = sub.callbacks; connections = m })

unfoldable pub add_callback : ℕ → Subscriber → Subscriber
add_callback callback sub = record sub { callbacks = sub.callbacks ++ callback ∷ [] }

-- The address that a reading goroutine sends when its connection ends.
unfoldable pub disconnected : Bytes → Subscriber → Subscriber
disconnected uri sub = record sub { connections = delete uri sub.connections }
