-- ===== src/Service/Exchange.antt =====
-- ros/service_client.go and ros/service_server.go: a client and a server of a service over one connection.
use rosgo.Prelude.{
  ℕ, ◌-◌, ◌%◌, ◌<◌, ◌≤◌, ◌^◌, ◌≡◌, ◌↔◌, refl, sym, ap, ◌∙◌, Bool, true, false, [], ◌∷◌, ◌++◌,
  Option, none, some, Bytes, str_eq, str_eq_iff, length, length-append, append_assoc, append-nil,
  if◌then◌else◌, Result, ok, err, arith,
}
use rosgo.Wire.{put_uint, uint_of, read_full}
use rosgo.Wire.Ints.{length-put_uint, uint_of-put_uint}
use rosgo.Wire.Reads.{read_full-append}
use rosgo.Header.{Conn, header_size_of}
use rosgo.Header.Encoding.{IsWritable, encode}
use rosgo.Header.Read.{read_connection_header-encode}
use rosgo.Header.Write.{write_connection_header-send}
use rosgo.Header.Fields.{field, field_from}
use rosgo.Header.Writable.{writable-IsWritable, took, send-fits}
use rosgo.Service.{Service}
use rosgo.Service.Client
use rosgo.Service.Client.{call_headers, agrees, sized, send_request, read_reply, converse}
use rosgo.Service.Server.{
  Handled, served_headers, check_call, Sent, response, failure, job, blocked_sends, write_reply,
  reply, read_request, session,
}

-- A message behind its size.
abbrev pub frame : Bytes → Bytes
frame m = put_uint 4 (length m % 2 ^ 32) ++ m

-- A reply: a response, or the text of an error.
abbrev pub sent_of : Bool → Bytes → Sent
sent_of true m = response m
sent_of false m = failure (some m)

abbrev pub reply_bytes : Bool → Bytes → Bytes
reply_bytes true m = 1 ∷ frame m
reply_bytes false m = 0 ∷ frame m

-- What the client makes of a reply.
abbrev pub answer_for : (Bytes → Bool) → Bool → Bytes → Conn → Result Client.Error (Bytes × Conn)
answer_for deserializes true m conn =
    if deserializes m then ok (m, conn) else err Client.not_deserialized
answer_for deserializes false m conn = err (Client.service_failed m)

call_headers-IsWritable : (c : Service) → IsWritable (call_headers c)
unfolding call_headers
call_headers-IsWritable c = writable-IsWritable (call_headers c) refl

served_headers-IsWritable : (s : Service) → IsWritable (served_headers s)
unfolding served_headers
served_headers-IsWritable s = writable-IsWritable (served_headers s) refl

same : (x : Bytes) → str_eq x x ≡ true
same x = (str_eq_iff x x).1 refl

agrees_lem :
    (c s : Service)
    → s.type_name ≡ c.type_name
    → s.md5sum ≡ c.md5sum
    → agrees c (served_headers s) ≡ true
unfolding agrees served_headers field field_from
agrees_lem c s e d = rw (e, d, same c.type_name, same c.md5sum) refl

check_call_lem :
    (c s : Service) (conn : Conn)
    → s.service ≡ c.service
    → s.md5sum ≡ c.md5sum
    → check_call s (call_headers c) conn ≡ ok conn
unfolding check_call call_headers field field_from
check_call_lem c s conn e d = rw (e, d, same c.service, same c.md5sum) refl

read_whole : (m : Bytes) → read_full (length m) m ≡ ok (m, [])
read_whole m =
    sym (ap (read_full (length m)) (append-nil m)) ∙ read_full-append (length m) m [] refl

size_back : (m : Bytes) → length m < 2 ^ 32 → uint_of (put_uint 4 (length m % 2 ^ 32)) ≡ length m
size_back m h =
    let e : length m % 2 ^ 32 ≡ length m = omega (arith, h) in
    rw e (uint_of-put_uint 4 (length m) h)

read_request-frame :
    (m rest : Bytes) → length m < 2 ^ 32 → read_request (frame m ++ rest) ≡ ok (m, rest)
unfolding read_request
read_request-frame m rest h =
    rw
      (
        append_assoc (put_uint 4 (length m % 2 ^ 32)) m rest,
        read_full-append 4 (put_uint 4 (length m % 2 ^ 32)) (m ++ rest) (length-put_uint 4 _),
      )
      (rw (size_back m h, read_full-append (length m) m rest refl) refl)

request_whole : (m : Bytes) → length m < 2 ^ 32 → read_request (frame m) ≡ ok (m, [])
request_whole m h = sym (ap read_request (append-nil (frame m))) ∙ read_request-frame m [] h

sized-frame : (m : Bytes) → length m < 2 ^ 32 → sized (frame m) ≡ ok (m, [])
unfolding sized
sized-frame m h =
    rw (read_full-append 4 (put_uint 4 (length m % 2 ^ 32)) m (length-put_uint 4 _))
      (rw (size_back m h) (rw (read_whole m) refl))

took-append : (xs ys : Bytes) (c : Conn) → took ys (took xs c) ≡ took (xs ++ ys) c
took-append xs ys c =
    let e : c.room - length xs - length ys ≡ c.room - length (xs ++ ys) =
      omega (arith, length-append xs ys) in
    rw (append_assoc c.sent xs ys, e) refl

write_reply-took :
    (status : ℕ) (m : Bytes) (c : Conn)
    → length (status ∷ frame m) ≤ c.room
    → write_reply status m c ≡ ok (took (status ∷ frame m) c)
unfolding write_reply
write_reply-took status m c h =
    let size = put_uint 4 (length m % 2 ^ 32) in
    let four = length-put_uint 4 (length m % 2 ^ 32) in
    let all = length-append size m in
    rw (send-fits (status ∷ []) c (omega (arith, h, all))) (
      rw (send-fits size (took (status ∷ []) c) (omega (arith, h, all))) (
        rw (send-fits m (took size (took (status ∷ []) c)) (omega (arith, h, all, four))) (
          ap ok
            (ap (took m) (took-append (status ∷ []) size c) ∙ took-append (status ∷ size) m c))))

send_request-took :
    (m : Bytes) (c : Conn) → length (frame m) ≤ c.room → send_request m c ≡ ok (took (frame m) c)
unfolding send_request
send_request-took m c h =
    let size = put_uint 4 (length m % 2 ^ 32) in
    let all = length-append size m in
    rw (send-fits size c (omega (arith, h, all)))
      (rw (send-fits m (took size c) (omega (arith, h, all))) (ap ok (took-append size m c)))

reply-took :
    (b : Bool) (m : Bytes) (c : Conn)
    → length (reply_bytes b m) ≤ c.room
    → reply (some (sent_of b m)) c ≡ ok (took (reply_bytes b m) c)
unfolding reply
reply-took true m c h = write_reply-took 1 m c h
reply-took false m c h = write_reply-took 0 m c h

read_reply-reply_bytes :
    (deserializes : Bytes → Bool) (b : Bool) (m : Bytes) (c : Conn)
    → length m < 2 ^ 32
    → read_reply deserializes (reply_bytes b m) c ≡ answer_for deserializes b m c
unfolding read_reply
read_reply-reply_bytes deserializes true m c h =
    rw (read_full-append 1 (1 ∷ []) (frame m) refl) (unfold uint_of in rw (sized-frame m h) refl)
read_reply-reply_bytes deserializes false m c h =
    rw (read_full-append 1 (0 ∷ []) (frame m) refl) (unfold uint_of in rw (sized-frame m h) refl)

-- A client and a server that know the service by the same name, type and MD5 sum, whose headers have less
-- than 2^32 bytes, and a job that sends the session a response or the text of an error, of less than 2^32
-- bytes, in time. On connections that take what is written, the session reads the request as it was sent
-- and ends with its reply, and the client returns the response if it can be deserialized, and otherwise,
-- or where the reply is an error, fails.
pub converse-session :
    (c s : Service) (request : Bytes) (jobs : Bytes → Option Sent) (b : Bool) (m : Bytes)
    (deserializes : Bytes → Bool) (near far : Conn)
    → (s.service ≡ c.service) × (s.type_name ≡ c.type_name) × (s.md5sum ≡ c.md5sum)
    → (header_size_of (call_headers c) < 2 ^ 32) × (header_size_of (served_headers s) < 2 ^ 32)
    → (length request < 2 ^ 32) × (length m < 2 ^ 32)
    → jobs request ≡ some (sent_of b m)
    → length (encode (call_headers c) ++ frame request) ≤ near.room
    → length (encode (served_headers s) ++ reply_bytes b m) ≤ far.room
    → (session s jobs (encode (call_headers c) ++ frame request) far
        ≡ ok (took (encode (served_headers s) ++ reply_bytes b m) far))
      × (converse c request deserializes (encode (served_headers s) ++ reply_bytes b m) near
          ≡ answer_for deserializes b m (took (encode (call_headers c) ++ frame request) near))
unfolding session converse
converse-session c s request jobs b m deserializes near far same_service sizes lengths answered room
      room' =
    let hc = encode (call_headers c) in
    let hs = encode (served_headers s) in
    let all = length-append hc (frame request) in
    let all' = length-append hs (reply_bytes b m) in
    (
      rw
          (read_connection_header-encode (call_headers c) (frame request)
            (call_headers-IsWritable c) sizes.0)
          (rw (write_connection_header-send (served_headers s) far) (
            rw (send-fits hs far (omega (arith, room', all'))) (
              rw (check_call_lem c s (took hs far) same_service.0 same_service.2) (
                rw (request_whole request lengths.0) (
                  rw (answered) (
                    reply-took b m (took hs far) (omega (arith, room', all'))
                    ∙ ap ok (took-append hs (reply_bytes b m) far))))))),
      rw (write_connection_header-send (call_headers c) near) (
          rw (send-fits hc near (omega (arith, room, all))) (
            rw
              (read_connection_header-encode (served_headers s) (reply_bytes b m)
                (served_headers-IsWritable s) sizes.1)
              (rw (agrees_lem c s same_service.1 same_service.2) (
                rw (send_request-took request (took hc near) (omega (arith, room, all))) (
                  read_reply-reply_bytes deserializes b m _ lengths.1
                  ∙ ap (answer_for deserializes b m) (took-append hc (frame request) near)))))),
    )

-- The job of a request returns just if its request was deserialized and it is in time: otherwise a send
-- on a channel that nobody receives from is left.
pub blocked_sends-job :
    (in_time : Bool) (e : Option Bytes) (h : Handled)
    → (blocked_sends in_time (job e h) ≡ []) ↔ ((in_time ≡ true) × (e ≡ none))
unfolding job
blocked_sends-job true none h = (λ x. (refl, refl), λ x. refl)
blocked_sends-job true (some e) h = (λ x. cc, λ x. cc)
blocked_sends-job false none h = (λ x. cc, λ x. cc)
blocked_sends-job false (some e) h = (λ x. cc, λ x. cc)
