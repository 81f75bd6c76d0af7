-- ===== src/Node/Slave.antt =====
-- The slave API: the methods that other nodes call.
use rosgo.Prelude.{
  ◌^◌, Bool, true, false, List, [], ◌∷◌, Option, none, some, Bytes, codes, str_eq, if◌then◌else◌,
}
use rosgo.Prelude.Int.{ℤ, pos, negsuc}
use rosgo.Strconv.{parse_int10}
use rosgo.Xmlrpc.{Value, absent, int, str, arr, Values, nil, cons}
use rosgo.Xmlrpc.Calls.{Ran, panicked, failed, returned, Methods}
use rosgo.Api.{build_ros_api_result}
use rosgo.Node.{Node, Publication}

-- What a method does beside its answer: the node is to stop, or a subscriber gets a list of publishers.
pub data Effect : Type 0 where
  stop : Effect
  update : Bytes → List Bytes → Effect

abbrev pub Did : Type 0
Did = Ran × List Effect

abbrev pub answers : ℤ → Bytes → Value → Did
answers code message value = (returned (build_ros_api_result code message value), [])

-- `map[topic]`
unfoldable pub at_topic {ℓ} : {A : Type ℓ} → Bytes → List (Bytes × A) → Option A
at_topic topic [] = none
at_topic topic ((t, a) ∷ ts) = if str_eq t topic then some a else at_topic topic ts

abbrev pub pair : Bytes → Bytes → Value
pair t type_name = arr (cons (str t) (cons (str type_name) nil))

abbrev pub subscriptions : List (Bytes × Bytes) → Values
subscriptions [] = nil
subscriptions ((t, name) ∷ ts) = cons (pair t name) (subscriptions ts)

abbrev pub publications : List (Bytes × Publication) → Values
publications [] = nil
publications ((t, p) ∷ ts) = cons (pair t p.type_name) (publications ts)

-- `uri.(string)` for each publisher; `none` is the panic.
abbrev pub uris : Values → Option (List Bytes)
uris nil = some []
uris (cons (str s) vs) = elim (uris vs) [ some ss ↦ some (s ∷ ss) | none ↦ none ]
uris (cons _ vs) = none

abbrev pub updated : Bytes → Option (List Bytes) → Did
updated topic none = (panicked, [])
updated topic (some ss) =
    (returned (build_ros_api_result (pos 1) (codes "Success") (int (pos 0))), update topic ss ∷ [])

abbrev pub update_for : Option Bytes → Bytes → Values → Did
update_for none topic vs = answers (pos 0) (codes "No such topic") (int (pos 0))
update_for (some type_name) topic vs = updated topic (uris vs)

unfoldable pub publisher_update : Node → Bytes → Values → Did
publisher_update node topic vs = update_for (at_topic topic node.subscribers) topic vs

-- The search for a protocol that is TCPROS: whether there is one. A protocol is a list that begins with
-- its name; `none` is the panic for any other value.
unfoldable pub wants_tcpros : Values → Option Bool
wants_tcpros nil = some false
wants_tcpros (cons (arr (cons (str name) params)) vs) =
    let rest = wants_tcpros vs in if str_eq name (codes "TCPROS") then some true else rest
wants_tcpros (cons _ vs) = none

-- The protocol that is selected: its name, the host, and the port as a number.
abbrev pub with_port : Bytes → Option ℤ → Did
with_port host none = (failed, [])
with_port host (some port) =
    answers (pos 1) (codes "Success")
      (arr (cons (str (codes "TCPROS")) (cons (str host) (cons (int port) nil))))

abbrev pub with_address : Option (Bytes × Bytes) → Did
with_address none = (failed, [])
with_address (some (host, port)) = with_port host (parse_int10 (2 ^ 31) port)

abbrev pub selected : Publication → Option Bool → Did
selected p none = (panicked, [])
selected p (some false) = answers (pos 1) (codes "Success") (arr nil)
selected p (some true) = with_address p.address

abbrev pub request_for : Option Publication → Values → Did
request_for none vs = answers (pos 0) (codes "No such topic") absent
request_for (some p) vs = selected p (wants_tcpros vs)

unfoldable pub request_topic : Node → Bytes → Values → Did
request_topic node topic vs = request_for (at_topic topic node.publishers) vs

-- The names under which the handler has the methods.
pub data SlaveMethod : Type 0 where
  get_bus_stats get_bus_info get_master_uri shutdown get_pid get_subscriptions get_publications :
      SlaveMethod
  param_update publisher_update_method request_topic_method : SlaveMethod

unfoldable pub slave_method : Bytes → Option SlaveMethod
slave_method name =
    if str_eq name (codes "getBusStats")
    then some get_bus_stats
    else if str_eq name (codes "getBusInfo")
    then some get_bus_info
    else if str_eq name (codes "getMasterUri")
    then some get_master_uri
    else if str_eq name (codes "shutdown")
    then some shutdown
    else if str_eq name (codes "getPid")
    then some get_pid
    else if str_eq name (codes "getSubscriptions")
    then some get_subscriptions
    else if str_eq name (codes "getPublications")
    then some get_publications
    else if str_eq name (codes "paramUpdate")
    then some param_update
    else if str_eq name (codes "publisherUpdate")
    then some publisher_update_method
    else if str_eq name (codes "requestTopic")
    then some request_topic_method
    else none

-- A method on its arguments. Reflection panics where their number or their types are others.
unfoldable pub run_slave : Node → SlaveMethod → List Value → Did
run_slave node get_bus_stats (str caller ∷ []) =
    answers (negsuc 0) (codes "Not implemented") (int (pos 0))
run_slave node get_bus_info (str caller ∷ []) =
    answers (negsuc 0) (codes "Not implemeted") (int (pos 0))
run_slave node get_master_uri (str caller ∷ []) =
    answers (pos 0) (codes "Success") (str node.master_uri)
run_slave node shutdown (str caller ∷ str message ∷ []) =
    (returned (build_ros_api_result (pos 0) (codes "Success") (int (pos 0))), stop ∷ [])
run_slave node get_pid (str caller ∷ []) = answers (pos 0) (codes "Success") (int node.pid)
run_slave node get_subscriptions (str caller ∷ []) =
    answers (pos 0) (codes "Success") (arr (subscriptions node.subscribers))
run_slave node get_publications (str caller ∷ []) =
    answers (pos 0) (codes "Success") (arr (publications node.publishers))
run_slave node param_update (str caller ∷ str key ∷ value ∷ []) =
    answers (negsuc 0) (codes "Not implemented") (int (pos 0))
run_slave node publisher_update_method (str caller ∷ str topic ∷ arr vs ∷ []) =
    publisher_update node topic vs
run_slave node request_topic_method (str caller ∷ str topic ∷ arr vs ∷ []) =
    request_topic node topic vs
run_slave node _ _ = (panicked, [])

-- The mapping of the handler, as far as the answers go.
unfoldable pub slave_methods : Node → Methods
slave_methods node name = elim (slave_method name) [
  | some m ↦ some (λ args. (run_slave node m args).0)
  | none ↦ none
]
