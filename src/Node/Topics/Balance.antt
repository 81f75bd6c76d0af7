-- ===== src/Node/Topics/Balance.antt =====
-- ros/node.go: the goroutines of the subscribers that single calls start and tell to end.
use rosgo.Prelude.{
  ℕ, ◌+◌, ◌≤◌, ◌≡◌, refl, sym, ap, ◌∙◌, Bool, true, false, List, [], ◌∷◌, ◌++◌, Option, none, some,
  Bytes, str_eq, str_eq_iff, if◌then◌else◌, Result, ok, err, panic, stuck, arith,
}
use mathlib.Core.Path.{subst}
use rosgo.Name
use rosgo.Name.{NameResolver, remap}
use rosgo.Xmlrpc.{Value}
use rosgo.Api
use rosgo.Node.Slave.{at_topic}
use rosgo.Node.Topics.Held.{
  one_if, held, held-none, held-remove, held-store_new, held-store_old, held-some,
}
use rosgo.Node.Topics.{
  Subscription, Topics, Effect, subscriber_started, subscriber_stopped, Done, named, new_publisher,
  new_publisher_with_callbacks, remove_publisher, new_subscriber, remove_subscriber,
  new_service_server, publisher_or_new, without_publisher, listed, subscriber_with,
  subscriber_or_new, with_callback, without_subscriber, server_for, old_server,
}

-- A call on a node, with the answer of the master where it asks it.
pub data Op : Type 0 where
  advertise : Api.Outcome Value → Bytes → Bytes → Op
  advertise_with_callbacks : Api.Outcome Value → Bytes → Bytes → Op
  unadvertise : Bytes → Op
  subscribe : Api.Outcome Value → Bytes → Bytes → ℕ → Op
  unsubscribe : Bytes → Op
  serve : Bool → Bytes → Bytes → Op

abbrev effects {ℓ} : {A : Type ℓ} → Done A → Topics × List Effect
effects (o, topics, es) = (topics, es)

-- The maps after a call, and its effects.
unfoldable pub step : NameResolver → Op → Topics → Topics × List Effect
step n (advertise answer topic t) topics = effects (new_publisher n answer topic t topics)
step n (advertise_with_callbacks answer topic t) topics =
    effects (new_publisher_with_callbacks n answer topic t topics)
step n (unadvertise topic) topics = effects (remove_publisher n topic topics)
step n (subscribe answer topic t callback) topics =
    effects (new_subscriber n answer topic t callback topics)
step n (unsubscribe topic) topics = effects (remove_subscriber n topic topics)
step n (serve made service t) topics = effects (new_service_server n made service t topics)

abbrev pub then_effects : List Effect → Topics × List Effect → Topics × List Effect
then_effects es (topics, fs) = (topics, es ++ fs)

unfoldable pub run : NameResolver → List Op → Topics → Topics × List Effect
run n [] topics = (topics, [])
run n (op ∷ ops) topics = let s = step n op topics in then_effects s.1 (run n ops s.0)

abbrev pub is_started : Bytes → Effect → Bool
is_started k (subscriber_started t ps) = str_eq t k
is_started k _ = false

abbrev pub is_stopped : Bytes → Effect → Bool
is_stopped k (subscriber_stopped t) = str_eq t k
is_stopped k _ = false

-- How often a subscriber of a name was started, and told to end.
abbrev pub starts : Bytes → List Effect → ℕ
starts k [] = 0
starts k (e ∷ es) = one_if (is_started k e) (starts k es)

abbrev pub stops : Bytes → List Effect → ℕ
stops k [] = 0
stops k (e ∷ es) = one_if (is_stopped k e) (stops k es)

-- A call keeps the count of the subscribers of a name.
abbrev pub Keeps : Bytes → Topics → Topics × List Effect → Type 0
Keeps k topics (after, es) =
    held k topics.subscribers ≤ 1
    → (starts k es + held k topics.subscribers ≡ stops k es + held k after.subscribers)
      × (held k after.subscribers ≤ 1)

named-Keeps {ℓ} :
    {A : Type ℓ} (k : Bytes) (o : Result Name.Error Bytes) (topics : Topics) (f : Bytes → Done A)
    → ((name : Bytes) → Keeps k topics (effects (f name)))
    → Keeps k topics (effects (named o topics f))
named-Keeps k (ok name) topics f h l = h name l
named-Keeps k (err e) topics f h l = (refl, l)
named-Keeps k panic topics f h l = (refl, l)
named-Keeps k stuck topics f h l = (refl, l)

-- The calls that leave the subscribers alone.
advertise-Keeps :
    (k : Bytes) (n : NameResolver) (answer : Api.Outcome Value) (topic t : Bytes) (topics : Topics)
    → Keeps k topics (effects (new_publisher_with_callbacks n answer topic t topics))
unfolding new_publisher_with_callbacks
advertise-Keeps k n answer topic t topics =
    named-Keeps k (remap n topic) topics _
      (λ name. by_key (at_topic topic topics.publishers) answer name)
  where
    by_key :
        (o : Option Bytes) (answer : Api.Outcome Value) (name : Bytes)
        → Keeps k topics (effects (publisher_or_new o answer topic name t topics))
    by_key (some p) answer name l = (refl, l)
    by_key none (ok v) name l = (refl, l)
    by_key none (err e) name l = (refl, l)
    by_key none panic name l = (refl, l)
    by_key none stuck name l = (refl, l)

unadvertise-Keeps :
    (k : Bytes) (n : NameResolver) (topic : Bytes) (topics : Topics)
    → Keeps k topics (effects (remove_publisher n topic topics))
unfolding remove_publisher
unadvertise-Keeps k n topic topics =
    named-Keeps k (remap n topic) topics _ (λ name. by_key (at_topic name topics.publishers) name)
  where
    by_key :
        (o : Option Bytes) (name : Bytes)
        → Keeps k topics (effects (without_publisher o name topics))
    by_key none name l = (refl, l)
    by_key (some p) name l = (refl, l)

serve-Keeps :
    (k : Bytes) (n : NameResolver) (made : Bool) (service t : Bytes) (topics : Topics)
    → Keeps k topics (effects (new_service_server n made service t topics))
unfolding new_service_server
serve-Keeps k n made service t topics =
    named-Keeps k (remap n service) topics _
      (λ name. by_key made (at_topic name topics.servers) name)
  where
    by_key :
        (made : Bool) (o : Option Bytes) (name : Bytes)
        → Keeps k topics (effects (server_for made name t (old_server o name) topics))
    by_key true none name l = (refl, l)
    by_key true (some p) name l = (refl, l)
    by_key false none name l = (refl, l)
    by_key false (some p) name l = (refl, l)

subscribe-Keeps :
    (k : Bytes) (n : NameResolver) (answer : Api.Outcome Value) (topic t : Bytes) (callback : ℕ)
    (topics : Topics)
    → Keeps k topics (effects (new_subscriber n answer topic t callback topics))
unfolding new_subscriber
subscribe-Keeps k n answer topic t callback topics =
    named-Keeps k (remap n topic) topics _
      (λ name. by_key (at_topic name topics.subscribers) answer name refl)
  where
    started :
        (b : Bool) (x : ℕ)
        → x ≤ 1
        → (b ≡ true → x ≡ 0)
        → (one_if b 0 + x ≡ 0 + one_if b x) × (one_if b x ≤ 1)
    started true x l h = let e = h refl in (omega arith, omega (arith, e))
    started false x l h = (refl, l)

    none_held :
        (name : Bytes)
        → at_topic name topics.subscribers ≡ none
        → str_eq name k ≡ true
        → held k topics.subscribers ≡ 0
    none_held name e q =
        held-none k topics.subscribers
          (ap (λ x. at_topic x topics.subscribers) (sym ((str_eq_iff name k).0 q)) ∙ e)

    by_list :
        (o : Option (List Bytes)) (name : Bytes)
        → at_topic name topics.subscribers ≡ none
        → Keeps k topics (effects (subscriber_with o name t callback topics))
    by_list none name e l = (refl, l)
    by_list (some ps) name e l =
        let q =
          held-store_new k name (record { type_name = t; callbacks = callback ∷ [] })
            topics.subscribers e in
        rw q (started (str_eq name k) (held k topics.subscribers) l (none_held name e))

    by_key :
        (o : Option Subscription) (answer : Api.Outcome Value) (name : Bytes)
        → at_topic name topics.subscribers ≡ o
        → Keeps k topics (effects (subscriber_or_new o answer name t callback topics))
    by_key (some s) answer name e l =
        let q = held-store_old k name (with_callback callback s) s topics.subscribers e in
        (ap (λ x. 0 + x) (sym q), rw q l)
    by_key none (ok v) name e l = by_list (listed v) name e l
    by_key none (err f) name e l = (refl, l)
    by_key none panic name e l = (refl, l)
    by_key none stuck name e l = (refl, l)

unsubscribe-Keeps :
    (k : Bytes) (n : NameResolver) (topic : Bytes) (topics : Topics)
    → Keeps k topics (effects (remove_subscriber n topic topics))
unfolding remove_subscriber
unsubscribe-Keeps k n topic topics =
    named-Keeps k (remap n topic) topics _
      (λ name. by_key (at_topic name topics.subscribers) name refl)
  where
    stopped :
        (b : Bool) (x : ℕ)
        → x ≤ 1
        → (b ≡ true → 1 ≤ x)
        → (0 + x ≡ one_if b 0 + (if b then 0 else x)) × ((if b then 0 else x) ≤ 1)
    stopped true x l h = let e = h refl in (omega (arith, l, e), omega arith)
    stopped false x l h = (refl, l)

    by_key :
        (o : Option Subscription) (name : Bytes)
        → at_topic name topics.subscribers ≡ o
        → Keeps k topics (effects (without_subscriber o name topics))
    by_key none name e l = (refl, l)
    by_key (some s) name e l = rw (held-remove k name topics.subscribers) (
        stopped (str_eq name k) (held k topics.subscribers) l (λ q.
          subst (λ x. 1 ≤ held x topics.subscribers) ((str_eq_iff name k).0 q)
            (held-some name s topics.subscribers e)))

pub step-Keeps :
    (k : Bytes) (n : NameResolver) (op : Op) (topics : Topics) → Keeps k topics (step n op topics)
unfolding step
step-Keeps k n (advertise answer topic t) topics =
    unfold new_publisher in
    named-Keeps k (remap n topic) topics _ (λ name. advertise-Keeps k n answer name t topics)
step-Keeps k n (advertise_with_callbacks answer topic t) topics =
    advertise-Keeps k n answer topic t topics
step-Keeps k n (unadvertise topic) topics = unadvertise-Keeps k n topic topics
step-Keeps k n (subscribe answer topic t callback) topics =
    subscribe-Keeps k n answer topic t callback topics
step-Keeps k n (unsubscribe topic) topics = unsubscribe-Keeps k n topic topics
step-Keeps k n (serve made service t) topics = serve-Keeps k n made service t topics
