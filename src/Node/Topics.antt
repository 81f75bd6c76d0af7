-- ===== src/Node/Topics.antt =====
-- ros/node.go: the maps of the subscribers, the publishers and the service servers of a node, and the calls
-- that fill them.
pub mod Held
pub mod Balance
pub mod Stopped
use rosgo.Prelude.{
  ℕ, Bool, true, false, List, [], ◌∷◌, ◌++◌, map, Option, none, some, Bytes, codes, str_eq,
  if◌then◌else◌, Result, ok, err, panic, stuck, with_error,
}
use rosgo.Name
use rosgo.Name.{NameResolver, remap}
use rosgo.Xmlrpc.{Value, absent, str, arr, Values, nil, cons}
use rosgo.Api
use rosgo.Node.Slave.{at_topic}

-- A subscriber: the type of its messages, and its callbacks, each by its number.
pub record Subscription : Type 0 where
  pub type_name : Bytes
  pub callbacks : List ℕ

-- The publishers and the servers are told by the names of their types.
pub record Topics : Type 0 where
  pub subscribers : List (Bytes × Subscription)
  pub publishers : List (Bytes × Bytes)
  pub servers : List (Bytes × Bytes)

-- What a call does beside its answer, in order: calls of the master, and goroutines that are started, with the
-- list of publishers that a subscriber is sent, or told to end.
pub data Effect : Type 0 where
  register_publisher register_subscriber : Bytes → Bytes → Effect
  publisher_started server_started : Bytes → Effect
  subscriber_started : Bytes → List Bytes → Effect
  subscriber_stopped publisher_stopped server_stopped : Bytes → Effect

pub data Error : Type 0 where
  bad_name : Name.Error → Error
  api : Api.Error → Error

-- An answer, the maps after it, and the effects.
abbrev pub Done {ℓ} : Type ℓ → Type ℓ
Done A = Result Error A × Topics × List Effect

unfoldable pub store {ℓ} : {A : Type ℓ} → Bytes → A → List (Bytes × A) → List (Bytes × A)
store topic a [] = (topic, a) ∷ []
store topic a ((t, b) ∷ ts) = if str_eq t topic then (t, a) ∷ ts else (t, b) ∷ store topic a ts

unfoldable pub remove {ℓ} : {A : Type ℓ} → Bytes → List (Bytes × A) → List (Bytes × A)
remove topic [] = []
remove topic ((t, b) ∷ ts) = if str_eq t topic then remove topic ts else (t, b) ∷ remove topic ts

-- A call that goes on with the remapped name.
abbrev pub named {ℓ} : {A : Type ℓ} → Result Name.Error Bytes → Topics → (Bytes → Done A) → Done A
named (ok name) topics f = f name
named (err e) topics f = (err (bad_name e), topics, [])
named panic topics f = (panic, topics, [])
named stuck topics f = (stuck, topics, [])

abbrev pub publisher_for : Api.Outcome Value → Bytes → Bytes → Topics → Done Bytes
publisher_for (ok v) name type_name topics = (
  ok name,
  record topics { publishers = store name type_name topics.publishers },
  register_publisher name type_name ∷ publisher_started name ∷ [],
)
publisher_for (err e) name type_name topics =
    (err (api e), topics, register_publisher name type_name ∷ [])
publisher_for panic name type_name topics = (panic, topics, register_publisher name type_name ∷ [])
publisher_for stuck name type_name topics = (stuck, topics, register_publisher name type_name ∷ [])

abbrev pub publisher_or_new :
    Option Bytes → Api.Outcome Value → Bytes → Bytes → Bytes → Topics → Done Bytes
publisher_or_new (some t) answer topic name type_name topics = (ok topic, topics, [])
publisher_or_new none answer topic name type_name topics =
    publisher_for answer name type_name topics

-- `NewPublisherWithCallbacks`, with what the master answers: the publisher by the name it is stored under. It
-- is looked for under the name as given.
unfoldable pub new_publisher_with_callbacks :
    NameResolver → Api.Outcome Value → Bytes → Bytes → Topics → Done Bytes
new_publisher_with_callbacks n answer topic type_name topics =
    named (remap n topic) topics (λ name.
      publisher_or_new (at_topic topic topics.publishers) answer topic name type_name topics)

unfoldable pub new_publisher :
    NameResolver → Api.Outcome Value → Bytes → Bytes → Topics → Done Bytes
new_publisher n answer topic type_name topics =
    named (remap n topic) topics
      (λ name. new_publisher_with_callbacks n answer name type_name topics)

abbrev pub without_publisher : Option Bytes → Bytes → Topics → Done {0} Unit
without_publisher none name topics = (ok tt, topics, [])
without_publisher (some t) name topics = (
  ok tt,
  record topics { publishers = remove name topics.publishers },
  publisher_stopped name ∷ [],
)

unfoldable pub remove_publisher : NameResolver → Bytes → Topics → Done {0} Unit
remove_publisher n topic topics =
    named (remap n topic) topics
      (λ name. without_publisher (at_topic name topics.publishers) name topics)

-- The strings of the list that the master answers with: an item that is none is the empty one.
unfoldable pub publisher_list : Values → List Bytes
publisher_list nil = []
publisher_list (cons (str s) vs) = s ∷ publisher_list vs
publisher_list (cons _ vs) = [] ∷ publisher_list vs

-- A value that is no list is as the empty list, but nil has no type to tell of.
abbrev pub listed : Value → Option (List Bytes)
listed (arr vs) = some (publisher_list vs)
listed absent = none
listed _ = some []

abbrev pub subscriber_with : Option (List Bytes) → Bytes → Bytes → ℕ → Topics → Done Bytes
subscriber_with none name type_name callback topics =
    (panic, topics, register_subscriber name type_name ∷ [])
subscriber_with (some publishers) name type_name callback topics = (
  ok name,
  record topics {
    subscribers =
        store name (record { type_name = type_name; callbacks = callback ∷ [] }) topics.subscribers;
  },
  register_subscriber name type_name ∷ subscriber_started name publishers ∷ [],
)

abbrev pub subscriber_for : Api.Outcome Value → Bytes → Bytes → ℕ → Topics → Done Bytes
subscriber_for (ok v) name type_name callback topics =
    subscriber_with (listed v) name type_name callback topics
subscriber_for (err e) name type_name callback topics =
    (err (api e), topics, register_subscriber name type_name ∷ [])
subscriber_for panic name type_name callback topics =
    (panic, topics, register_subscriber name type_name ∷ [])
subscriber_for stuck name type_name callback topics =
    (stuck, topics, register_subscriber name type_name ∷ [])

abbrev pub with_callback : ℕ → Subscription → Subscription
with_callback callback s = record {
  type_name = s.type_name;
  callbacks = s.callbacks ++ (callback ∷ []);
}

abbrev pub subscriber_or_new :
    Option Subscription → Api.Outcome Value → Bytes → Bytes → ℕ → Topics → Done Bytes
subscriber_or_new none answer name type_name callback topics =
    subscriber_for answer name type_name callback topics
subscriber_or_new (some s) answer name type_name callback topics = (
  ok name,
  record topics { subscribers = store name (with_callback callback s) topics.subscribers },
  [],
)

-- `NewSubscriber`, with what the master answers.
unfoldable pub new_subscriber :
    NameResolver → Api.Outcome Value → Bytes → Bytes → ℕ → Topics → Done Bytes
new_subscriber n answer topic type_name callback topics = named (remap n topic) topics (λ name.
    subscriber_or_new (at_topic name topics.subscribers) answer name type_name callback topics)

abbrev pub without_subscriber : Option Subscription → Bytes → Topics → Done {0} Unit
without_subscriber none name topics = (ok tt, topics, [])
without_subscriber (some s) name topics = (
  ok tt,
  record topics { subscribers = remove name topics.subscribers },
  subscriber_stopped name ∷ [],
)

unfoldable pub remove_subscriber : NameResolver → Bytes → Topics → Done {0} Unit
remove_subscriber n topic topics =
    named (remap n topic) topics
      (λ name. without_subscriber (at_topic name topics.subscribers) name topics)

-- The server of the name before, told to end.
abbrev pub old_server : Option Bytes → Bytes → List Effect
old_server none name = []
old_server (some t) name = server_stopped name ∷ []

-- Whether a server could be made: a server that could not is nil, and the old one stays in the map.
abbrev pub server_for : Bool → Bytes → Bytes → List Effect → Topics → Done Bool
server_for false name type_name effects topics = (ok false, topics, effects)
server_for true name type_name effects topics = (
  ok true,
  record topics { servers = store name type_name topics.servers },
  effects ++ (server_started name ∷ []),
)

unfoldable pub new_service_server : NameResolver → Bool → Bytes → Bytes → Topics → Done Bool
new_service_server n made service type_name topics =
    named (remap n service) topics (λ name.
      server_for made name type_name (old_server (at_topic name topics.servers) name) topics)

-- The goroutines that `Shutdown` tells to end.
unfoldable pub shutdown_effects : Topics → List Effect
shutdown_effects topics =
    map (λ s. subscriber_stopped s.0) topics.subscribers
    ++ (map (λ p. publisher_stopped p.0) topics.publishers
        ++ map (λ s. server_stopped s.0) topics.servers)
