-- ===== src/Tests/Nodes.antt =====
-- The slave API and the arguments of a node (ros/node.go).
use rosgo.Name.{
  NameResolver, remap, resolve, canonicalize_name, is_global_name, is_private_name, join, nonempty,
  split,
}
use rosgo.Node.Topics.{
  shutdown_effects, new_subscriber, remove_subscriber, store, remove, publisher_list,
}
use rosgo.Node.Topics.Balance.{Op, subscribe, unsubscribe, step, run, starts, stops}
use rosgo.Node.Topics.Stopped.{no_topics, run-shutdown_effects}
use rosgo.Prelude.{
  ◌≡◌, ◌<◌, ◌≤◌, suc, ◌++◌, ◌⊎◌, refl, List, [], ◌∷◌, Bytes, none, some, codes, length, ok, arith,
}
use rosgo.Prelude.Int.{pos}
use rosgo.Strconv.{digits_of, decimal, format_int, parse_int10, decimal_digits}
use rosgo.Xmlrpc.{Value, str, arr, nil, Floats}
use rosgo.Xmlrpc.Text.{xml_escape, escaped, char_width}
use rosgo.Xmlrpc.Emit.{emit_value, emit_args, emit_request, emit_response}
use rosgo.Xmlrpc.Calls.{returned, call, serve_http, answer_of}
use rosgo.Api.{call_ros_api, build_ros_api_result}
use rosgo.Name.{lookup}
use rosgo.Node.{Node, Publication}
use rosgo.Node.Slave.{
  at_topic, request_topic_method, publisher_update_method, request_topic, wants_tcpros, run_slave,
  slave_methods,
}
use rosgo.Node.Answers.{tcpros_request, location, run_slave-usable, call_ros_api-request_topic}
use rosgo.Node.Arguments.{process_arguments}
use rosgo.Node.Arguments.Given.{last_given, left_over, process_arguments-last_given}

abbrev chatter : Publication
chatter = record { type_name = codes "p/S"; address = some (codes "h", codes "80") }

abbrev talker : Node
talker = record {
  master_uri = codes "m";
  pid = pos 9;
  subscribers = [];
  publishers = (codes "/c", chatter) ∷ [];
}

-- No floats are sent.
abbrev no_floats : Floats
no_floats = record { format_float = λ b. []; parse_float = λ s. none }

chatter_known : at_topic (codes "/c") talker.publishers ≡ some chatter
unfolding at_topic
chatter_known = refl

port_read : parse_int10 2147483648 (codes "80") ≡ some (pos 80)
unfolding parse_int10 decimal_digits
port_read = refl

clean :
    (xml_escape (codes "/n") ≡ codes "/n")
    × (xml_escape (codes "/c") ≡ codes "/c")
    × (xml_escape (codes "h") ≡ codes "h")
unfolding xml_escape escaped char_width
clean = (refl, refl, refl)

request_size :
    length
      (emit_request no_floats (codes "requestTopic") (tcpros_request (codes "/n") (codes "/c"))).0
    < 100
unfolding emit_request emit_args emit_value xml_escape escaped char_width
request_size = omega arith

response_size :
    length
      (emit_response no_floats
        (build_ros_api_result (pos 1) (codes "Success") (location (codes "h") (pos 80)))).0
    < 100
unfolding emit_response emit_value build_ros_api_result xml_escape escaped char_width format_int
    decimal digits_of
response_size = omega arith

call_ros_api-request_topic_example :
    call_ros_api (
      call no_floats 100
        (λ ts. answer_of (serve_http no_floats 100 (slave_methods talker) ts))
        (codes "requestTopic")
        (tcpros_request (codes "/n") (codes "/c")))
    ≡ ok (location (codes "h") (pos 80))
call_ros_api-request_topic_example =
    call_ros_api-request_topic no_floats 100 talker (codes "/n") (codes "/c") (codes "h")
      (codes "80") chatter (pos 80) chatter_known refl port_read (omega arith, omega arith) clean
      request_size response_size

abbrev no_protocol : Value
no_protocol = build_ros_api_result (pos 1) (codes "Success") (arr nil)

asked :
    (run_slave talker request_topic_method (str [] ∷ str (codes "/c") ∷ arr nil ∷ [])).0
    ≡ returned no_protocol
unfolding run_slave request_topic wants_tcpros at_topic
asked = refl

accepted : call_ros_api (ok no_protocol) ≡ ok (arr nil)
unfolding call_ros_api build_ros_api_result
accepted = refl

run_slave-usable_example :
    (request_topic_method ≡ publisher_update_method) ⊎ (request_topic_method ≡ request_topic_method)
run_slave-usable_example =
    run_slave-usable talker request_topic_method (str [] ∷ str (codes "/c") ∷ arr nil ∷ [])
      no_protocol (arr nil) asked accepted

abbrev arguments : List Bytes
arguments = codes "a:=b" ∷ codes "_a:=c" ∷ codes "-v" ∷ codes "__a:=d" ∷ codes "a:=e" ∷ []

process_arguments-last_given_example :
    (lookup (codes "a") (process_arguments arguments).mapping
      ≡ last_given (codes "a") none arguments)
    × (lookup (codes "a") (process_arguments arguments).params
        ≡ last_given (codes "_a") none arguments)
    × (lookup (codes "__a") (process_arguments arguments).specials
        ≡ last_given (codes "__a") none arguments)
    × ((process_arguments arguments).rest ≡ left_over arguments)
process_arguments-last_given_example =
    process_arguments-last_given arguments (codes "a") (λ t e. ground (arith, e))

abbrev resolver : NameResolver
resolver = record {
  node_name = codes "n";
  namespace = codes "/";
  mapping = [];
  resolved_mapping = [];
}

-- A topic that is subscribed to, given up, and subscribed to again, with a second callback.
abbrev calls : List Op
calls =
    subscribe (ok (arr nil)) (codes "t") (codes "p/A") 1
    ∷ unsubscribe (codes "t")
    ∷ subscribe (ok (arr nil)) (codes "t") (codes "p/A") 1
    ∷ subscribe (ok (arr nil)) (codes "/t") (codes "p/A") 2
    ∷ []

run-shutdown_effects_example :
    (starts (codes "/t") (run resolver calls no_topics).1
      ≤ suc (stops (codes "/t") (run resolver calls no_topics).1))
    × (starts (codes "/t") (run resolver calls no_topics).1
        ≡ stops
            (codes "/t")
            ((run resolver calls no_topics).1 ++ shutdown_effects (run resolver calls no_topics).0))
run-shutdown_effects_example = run-shutdown_effects resolver calls (codes "/t")

-- Two subscribers are started by these calls.
calls_start : starts (codes "/t") (run resolver calls no_topics).1 ≡ 2
unfolding run step new_subscriber remove_subscriber store remove publisher_list remap resolve
    canonicalize_name is_global_name is_private_name join nonempty split lookup at_topic
calls_start = refl
