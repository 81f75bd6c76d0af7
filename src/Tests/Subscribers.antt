-- ===== src/Tests/Subscribers.antt =====
-- The loop of a subscriber (ros/subscriber.go).
use rosgo.Prelude.{true, ◌&&◌, not, ◌≡◌, ◌≢◌, refl, [], ◌∷◌, Bytes, codes, ok, err}
use rosgo.Name.{lookup}
use rosgo.Subscriber.{
  Subscriber, Request, failed, malformed, tcpros, blocked, member, set_difference, keys,
  receive_list,
}
use rosgo.Subscriber.Difference.{Distinct, set_difference-Distinct}
use rosgo.Subscriber.Update.{Listed, address_after, receive_list-Listed, receive_list_blocks}

set_difference-Distinct_example :
    Distinct (set_difference (codes "a" ∷ codes "b" ∷ codes "a" ∷ []) (codes "b" ∷ []))
    × (member (codes "a") (set_difference (codes "a" ∷ codes "b" ∷ codes "a" ∷ []) (codes "b" ∷ []))
        ≡ (member (codes "a") (codes "a" ∷ codes "b" ∷ codes "a" ∷ [])
            && not (member (codes "a") (codes "b" ∷ []))))
set_difference-Distinct_example =
    set_difference-Distinct (codes "a") (codes "a" ∷ codes "b" ∷ codes "a" ∷ []) (codes "b" ∷ [])

abbrev one_pub : Subscriber
one_pub = record {
  pub_list = codes "p" ∷ [];
  callbacks = 1 ∷ [];
  connections = (codes "p", codes "p:1") ∷ [];
}

-- The second publisher answers, and the others fail.
abbrev answer : Bytes → Request
answer [] = failed
answer (c ∷ _) = tcpros (c ∷ codes ":2")

answer_proper : (k : Bytes) → answer k ≢ malformed
answer_proper [] = λ e. cc
answer_proper (c ∷ s) = λ e. cc

receive_list-Listed_example :
    (sub' : Subscriber) × (receive_list answer (codes "p" ∷ codes "q" ∷ []) one_pub ≡ ok sub')
    × (sub'.pub_list ≡ codes "p" ∷ codes "q" ∷ [])
    × Listed sub'
    × ((k : Bytes)
        → member k one_pub.pub_list ≡ true
        → member k (codes "p" ∷ codes "q" ∷ []) ≡ true
        → member k (keys sub'.connections) ≡ true)
    × ((k : Bytes)
        → lookup k sub'.connections ≡ address_after answer (codes "p" ∷ codes "q" ∷ []) one_pub k)
receive_list-Listed_example =
    receive_list-Listed answer (codes "p" ∷ codes "q" ∷ []) one_pub (λ k e. e) (λ k e. e)
      answer_proper

-- A publisher whose connection has failed.
abbrev unconnected : Subscriber
unconnected = record { pub_list = codes "p" ∷ []; callbacks = []; connections = [] }

receive_list_blocks_example : (q : Bytes) × (receive_list answer [] unconnected ≡ err (blocked q))
receive_list_blocks_example =
    receive_list_blocks answer [] unconnected (codes "p") (unfold member in refl)
      (unfold member in refl) (unfold member in refl)
