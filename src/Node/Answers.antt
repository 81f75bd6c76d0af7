-- ===== src/Node/Answers.antt =====
-- What callRosAPI makes of the answers of the slave API.
use rosgo.Prelude.{
  ℕ, ◌^◌, ◌≡◌, ◌≤◌, ◌<◌, ◌⊎◌, inl, inr, refl, ap, ◌∙◌, false, List, [], ◌∷◌, some, Bytes, codes,
  length, ok, arith,
}
use rosgo.Prelude.Int.{ℤ, pos, negsuc, pos_part, neg_part}
use rosgo.Strconv.{parse_int10}
use rosgo.Xmlrpc.{Value, int, str, arr, nil, cons, Floats}
use rosgo.Xmlrpc.Text.{xml_escape, escaped, char_width}
use rosgo.Xmlrpc.Emit.{emit_request, emit_response}
use rosgo.Xmlrpc.Calls.{panicked, returned, call, serve_http, answer_of}
use rosgo.Api.{is_success, call_ros_api, build_ros_api_result}
use rosgo.Api.Calls.{succeeded, call_ros_api-call}
use rosgo.Node.{Node, Publication}
use rosgo.Node.Slave.{
  Did, answers, at_topic, wants_tcpros, request_topic, SlaveMethod, get_bus_stats, get_bus_info,
  get_master_uri, shutdown, get_pid, get_subscriptions, get_publications, param_update,
  publisher_update_method, request_topic_method, slave_method, run_slave, slave_methods,
}

-- An answer from which callRosAPI gets no value.
Refused : Did → Type 0
Refused d = (v w : Value) → d.0 ≡ returned v → call_ros_api (ok v) ≡ ok w → ⊥

panicked-Refused : Refused (panicked, [])
unfolding Refused
panicked-Refused v w e h = cc

status_not_ok :
    (code : ℤ) (message : Bytes) (value w : Value)
    → is_success code ≡ false
    → call_ros_api (ok (build_ros_api_result code message value)) ≡ ok w
    → ⊥
unfolding call_ros_api build_ros_api_result
status_not_ok code message value w k h = ground (arith, k, h)

returned_inj : (v w : Value) → returned v ≡ returned w → v ≡ w
returned_inj v w e = cc

code-Refused :
    (code : ℤ) (message : Bytes) (value : Value)
    → is_success code ≡ false
    → Refused (answers code message value)
unfolding Refused
code-Refused code message value k v w e h =
    status_not_ok code message value w k (ap (λ x. call_ros_api (ok x)) (returned_inj _ v e) ∙ h)

-- Of the methods of the slave API only publisherUpdate and requestTopic answer with a code from which
-- callRosAPI gets a value.
pub run_slave-usable :
    (node : Node) (m : SlaveMethod) (args : List Value) (v w : Value)
    → (run_slave node m args).0 ≡ returned v
    → call_ros_api (ok v) ≡ ok w
    → (m ≡ publisher_update_method) ⊎ (m ≡ request_topic_method)
unfolding run_slave Refused
run_slave-usable node publisher_update_method args v w e h = inl refl
run_slave-usable node request_topic_method args v w e h = inr refl
run_slave-usable node get_bus_stats (str c ∷ []) v w e h =
    absurd (code-Refused (negsuc 0) _ _ refl v w e h)
run_slave-usable node get_bus_info (str c ∷ []) v w e h =
    absurd (code-Refused (negsuc 0) _ _ refl v w e h)
run_slave-usable node get_master_uri (str c ∷ []) v w e h =
    absurd (code-Refused (pos 0) _ _ refl v w e h)
run_slave-usable node get_pid (str c ∷ []) v w e h = absurd (code-Refused (pos 0) _ _ refl v w e h)
run_slave-usable node get_subscriptions (str c ∷ []) v w e h =
    absurd (code-Refused (pos 0) _ _ refl v w e h)
run_slave-usable node get_publications (str c ∷ []) v w e h =
    absurd (code-Refused (pos 0) _ _ refl v w e h)
run_slave-usable node shutdown (str c ∷ str s ∷ []) v w e h =
    absurd (code-Refused (pos 0) _ _ refl v w e h)
run_slave-usable node param_update (str c ∷ str k ∷ x ∷ []) v w e h =
    absurd (code-Refused (negsuc 0) _ _ refl v w e h)
run_slave-usable node m args v w e h = absurd (panicked-Refused v w e h)

-- The request of a subscriber for a topic.
abbrev pub tcpros_request : Bytes → Bytes → List Value
tcpros_request caller topic =
    str caller ∷ str topic ∷ arr (cons (arr (cons (str (codes "TCPROS")) nil)) nil) ∷ []

-- Where the publisher is.
abbrev pub location : Bytes → ℤ → Value
location host port = arr (cons (str (codes "TCPROS")) (cons (str host) (cons (int port) nil)))

literals :
    (xml_escape (codes "requestTopic") ≡ codes "requestTopic")
    × (xml_escape (codes "TCPROS") ≡ codes "TCPROS")
    × (xml_escape (codes "Success") ≡ codes "Success")
unfolding xml_escape escaped char_width
literals = (refl, refl, refl)

run_slave-located :
    (node : Node) (caller topic host port : Bytes) (p : Publication) (i : ℤ)
    → at_topic topic node.publishers ≡ some p
    → p.address ≡ some (host, port)
    → parse_int10 (2 ^ 31) port ≡ some i
    → (run_slave node request_topic_method (tcpros_request caller topic)).0
      ≡ returned (build_ros_api_result (pos 1) (codes "Success") (location host i))
unfolding run_slave request_topic wants_tcpros
run_slave-located node caller topic host port p i e a r = rw (e, a, r) refl

-- A subscriber that asks a node over XML-RPC for a topic that the node publishes, from a publisher whose
-- host and port can be told and whose port is a number of 32 bits, is told that host and port, where the
-- names are of characters of XML.
pub call_ros_api-request_topic :
    (f : Floats) (n : ℕ) (node : Node) (caller topic host port : Bytes) (p : Publication) (i : ℤ)
    → at_topic topic node.publishers ≡ some p
    → p.address ≡ some (host, port)
    → parse_int10 (2 ^ 31) port ≡ some i
    → (pos_part i < 2 ^ 31) × (neg_part i ≤ 2 ^ 31)
    → (xml_escape caller ≡ caller) × (xml_escape topic ≡ topic) × (xml_escape host ≡ host)
    → length (emit_request f (codes "requestTopic") (tcpros_request caller topic)).0 < n
    → length (emit_response f (build_ros_api_result (pos 1) (codes "Success") (location host i))).0
      < n
    → call_ros_api (
        call f n
          (λ ts. answer_of (serve_http f n (slave_methods node) ts))
          (codes "requestTopic")
          (tcpros_request caller topic))
      ≡ ok (location host i)
unfolding slave_methods slave_method
call_ros_api-request_topic f n node caller topic host port p i e a r small clean l j =
    succeeded (codes "Success") (location host i) _ (
      call_ros_api-call f n (slave_methods node)
        (λ args. (run_slave node request_topic_method args).0) (codes "requestTopic")
        (tcpros_request caller topic) (pos 1) (codes "Success") (location host i) literals.0
        (clean.0, (clean.1, (((literals.1, tt), tt), tt))) l refl
        (run_slave-located node caller topic host port p i e a r) (omega arith, omega arith)
        literals.2 (literals.1, (clean.2, (small, tt))) j)
