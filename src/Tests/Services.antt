-- ===== src/Tests/Services.antt =====
-- A call of a service (ros/service_client.go and ros/service_server.go).
use rosgo.Prelude.{
  ◌≡◌, ◌≤◌, ◌++◌, refl, [], ◌∷◌, Bool, true, Option, some, Bytes, codes, length, ok, arith,
}
use rosgo.Wire.{put_uint}
use rosgo.Header.{Conn}
use rosgo.Header.Encoding.{encode}
use rosgo.Header.Writable.{took}
use rosgo.Service.{Service}
use rosgo.Service.Client.{call_headers, converse}
use rosgo.Service.Server.{Sent, response, served_headers, session}
use rosgo.Service.Exchange.{frame, reply_bytes, answer_for, converse-session}

abbrev adder : Service
adder = record {
  service = codes "/add";
  md5sum = codes "m";
  type_name = codes "p/Add";
  node_id = codes "/n";
}

abbrev wire : Conn
wire = record { sent = []; room = 1000 }

-- The response is the request.
abbrev echo : Bytes → Option Sent
echo request = some (response request)

abbrev accept_all : Bytes → Bool
accept_all body = true

near_fits : length (encode (call_headers adder) ++ frame (7 ∷ [])) ≤ wire.room
unfolding call_headers put_uint
near_fits = omega arith

far_fits : length (encode (served_headers adder) ++ reply_bytes true (7 ∷ [])) ≤ wire.room
unfolding served_headers put_uint
far_fits = omega arith

converse-session_example :
    (session adder echo (encode (call_headers adder) ++ frame (7 ∷ [])) wire
      ≡ ok (took (encode (served_headers adder) ++ reply_bytes true (7 ∷ [])) wire))
    × (converse adder
          (7 ∷ [])
          accept_all
          (encode (served_headers adder) ++ reply_bytes true (7 ∷ []))
          wire
        ≡ answer_for accept_all true
            (7 ∷ [])
            (took (encode (call_headers adder) ++ frame (7 ∷ [])) wire))
converse-session_example =
    converse-session adder adder (7 ∷ []) echo true (7 ∷ []) accept_all wire wire (refl, refl, refl)
      (unfold call_headers in omega arith, unfold served_headers in omega arith)
      (omega arith, omega arith) refl near_fits far_fits
