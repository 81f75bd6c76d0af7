-- ===== src/Subscriber/Update.antt =====
-- ros/subscriber.go: the case of the subscriber's loop for a new list of publishers, and its connections.
use rosgo.Prelude.{
  Bool, true, false, ◌&&◌, ◌||◌, not, inl, inr, Bool-cases, ◌≡◌, ◌≢◌, refl, sym, ap, ◌∙◌, List, [],
  Bytes, ok, err, arith, Option, none, if◌then◌else◌,
}
use rosgo.Subscriber.{
  Subscriber, Request, malformed, blocked, member, set_difference, keys, receive_list,
}
use rosgo.Name.{lookup}
use rosgo.Subscriber.Connections.{
  offered, or_else, or_else-none, lookup_absent, lookup-quit_dead, lookup-connect_new,
}
use rosgo.Subscriber.Difference.{set_difference-Distinct}
use rosgo.Subscriber.Loops.{Within, quit_dead-ok, connect_new-ok, quit_dead_blocks}

-- The invariant of the loop: a connected publisher is one of the list.
abbrev pub Listed : Subscriber → Type 0
Listed sub = Within (keys sub.connections) sub.pub_list

-- Where a publisher is connected after an update, by where it was: connected, in the new list, in the
-- old list, connected after the quits, among the dead, among the new.
taken :
    (c l p m d f : Bool)
    → m ≡ (c && not d)
    → d ≡ (p && not l)
    → f ≡ (l && not p)
    → (c ≡ true → p ≡ true)
    → (m || f) ≡ true
    → l ≡ true
taken c l p m d f h1 h2 h3 h4 h5 = ground (arith, h1, h2, h3, h4, h5)

kept_on : (c l p d : Bool) → d ≡ (p && not l) → c ≡ true → l ≡ true → (c && not d) ≡ true
kept_on c l p d h1 h2 h3 = ground (arith, h1, h2, h3)

gone : (a b : Bool) → (a && not b) ≡ true → a ≡ true
gone a b h = ground (arith, h)

-- The address at which a publisher is connected after an update: that of before for one of both lists,
-- that of its answer for a new one, and none for any other.
abbrev pub address_after : (Bytes → Request) → List Bytes → Subscriber → Bytes → Option Bytes
address_after request list sub k =
    if member k list
    then (if member k sub.pub_list then lookup k sub.connections else offered (request k))
    else none

chosen :
    (l p d f : Bool) (a x : Option Bytes)
    → d ≡ (p && not l)
    → f ≡ (l && not p)
    → (p ≡ false → x ≡ none)
    → (if f then or_else a (if d then none else x) else (if d then none else x))
      ≡ (if l then (if p then x else a) else none)
chosen true true d f a x hd hf h = rw (hd, hf) refl
chosen true false d f a x hd hf h = rw (hd, hf) (ap (or_else a) (h refl) ∙ or_else-none a)
chosen false true d f a x hd hf h = rw (hd, hf) refl
chosen false false d f a x hd hf h = rw (hd, hf) (h refl)

-- A publisher that the list has not is not connected.
unlisted :
    (k : Bytes) (sub : Subscriber)
    → Listed sub
    → member k sub.pub_list ≡ false
    → lookup k sub.connections ≡ none
unlisted k sub listed h =
    lookup_absent k sub.connections (elim (Bool-cases (member k (keys sub.connections))) [
      | inl connected ↦ absurd (ground (arith, h, listed k connected))
      | inr alone ↦ alone
    ])

-- If each publisher of the old list is connected, only such publishers are, and no answer makes the
-- subscriber panic, then a new list is taken over without blocking. Then the list is the new one, and
-- connected are: the publishers of both lists, all of them and at the address of before, and the new ones
-- at the address of their answer, where they gave one, and no others.
pub receive_list-Listed :
    (request : Bytes → Request) (list : List Bytes) (sub : Subscriber)
    → Within sub.pub_list (keys sub.connections)
    → Listed sub
    → ((k : Bytes) → request k ≢ malformed)
    → (sub' : Subscriber) × (receive_list request list sub ≡ ok sub')
      × (sub'.pub_list ≡ list)
      × Listed sub'
      × ((k : Bytes)
          → member k sub.pub_list ≡ true
          → member k list ≡ true
          → member k (keys sub'.connections) ≡ true)
      × ((k : Bytes) → lookup k sub'.connections ≡ address_after request list sub k)
unfolding receive_list
receive_list-Listed request list sub full listed h =
    let dead = set_difference sub.pub_list list in
    let fresh = set_difference list sub.pub_list in
    let (m1, e1, in1) =
      quit_dead-ok dead sub.connections (set_difference-Distinct [] sub.pub_list list).0
        (λ k e. full k (gone _ _ (sym (set_difference-Distinct k sub.pub_list list).1 ∙ e))) in
    let (m2, e2, in2, out2) = connect_new-ok request fresh m1 h in
    (
      record { pub_list = list; callbacks = sub.callbacks; connections = m2 },
      rw e1 (rw e2),
      refl,
      (λ k e.
          taken (member k (keys sub.connections)) (member k list) (member k sub.pub_list) _ _ _
            (in1 k) (set_difference-Distinct k sub.pub_list list).1
            (set_difference-Distinct k list sub.pub_list).1 (listed k) (out2 k e)),
      (λ k old new. in2 k (
          in1 k
          ∙ kept_on _ (member k list) (member k sub.pub_list) _
              (set_difference-Distinct k sub.pub_list list).1 (full k old) new)),
      (λ k.
          lookup-connect_new k request fresh m1 m2 e2
          ∙ ap (λ o. if member k fresh then or_else (offered (request k)) o else o)
              (lookup-quit_dead k dead sub.connections m1 e1)
          ∙ chosen (member k list) (member k sub.pub_list) (member k dead) (member k fresh)
              (offered (request k)) (lookup k sub.connections)
              (set_difference-Distinct k sub.pub_list list).1
              (set_difference-Distinct k list sub.pub_list).1 (unlisted k sub listed)),
    )

absent_now : (a b : Bool) → a ≡ true → b ≡ false → (a && not b) ≡ true
absent_now a b h g = ground (arith, h, g)

-- If some publisher of the old list has no connection and is not of the new list, then taking over
-- the new list blocks the subscriber for ever.
pub receive_list_blocks :
    (request : Bytes → Request) (list : List Bytes) (sub : Subscriber) (p : Bytes)
    → member p sub.pub_list ≡ true
    → member p list ≡ false
    → member p (keys sub.connections) ≡ false
    → (q : Bytes) × (receive_list request list sub ≡ err (blocked q))
unfolding receive_list
receive_list_blocks request list sub p old new alone =
    let (q, e) =
      quit_dead_blocks p (set_difference sub.pub_list list) sub.connections
        ((set_difference-Distinct p sub.pub_list list).1 ∙ absent_now _ _ old new) alone in
    (q, rw e)
