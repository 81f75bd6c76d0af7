-- ===== src/Service/Client.antt =====
-- `Call` of ros/service_client.go.
use rosgo.Prelude.{
  ◌%◌, ◌^◌, Bool, ◌||◌, not, List, [], ◌∷◌, Bytes, codes, str_eq, length, ◌==◌, if◌then◌else◌,
  Result, ok, err, ◌>>=◌, with_error,
}
use rosgo.Wire.{ReadError, put_uint, uint_of, read_full}
use rosgo.Header
use rosgo.Header.{Header, Conn, send, read_connection_header, write_connection_header}
use rosgo.Header.Fields.{field}
use rosgo.Xmlrpc.{Value, str}
use rosgo.Api
use rosgo.Service.{Service}

pub data Error : Type 0 where
  no_lookup : Api.Error → Error
  not_string bad_url refused : Error
  not_written : Conn → Error
  no_header : Header.Error → Error
  incompatible : Error
  not_read : ReadError → Error
  service_failed : Bytes → Error
  not_deserialized : Error

-- What url.Parse and net.Dial make of the service's address: a connection, with all that the other side
-- is going to send on it.
pub data Dialled : Type 0 where
  unparsed unreachable : Dialled
  connected : Conn → Bytes → Dialled

unfoldable pub call_headers : Service → List Header
call_headers c =
    record { key = codes "service"; value = c.service }
    ∷ record { key = codes "md5sum"; value = c.md5sum }
    ∷ record { key = codes "type"; value = c.type_name }
    ∷ record { key = codes "callerid"; value = c.node_id }
    ∷ []

-- The check of the server's header.
unfoldable pub agrees : Service → List Header → Bool
agrees c hs = not (
    not (str_eq (field (codes "type") hs) c.type_name)
    || not (str_eq (field (codes "md5sum") hs) c.md5sum))

-- A text or a message with its size before it. A deadline that passes is the end of the stream.
unfoldable pub sized : Bytes → Result Error (Bytes × Bytes)
sized s = with_error not_read (read_full 4 s) >>= λ (raw, rest).
    with_error not_read (read_full (uint_of raw) rest)

-- The two writes of the request.
unfoldable pub send_request : Bytes → Conn → Result Error Conn
send_request request conn =
    with_error not_written (send (put_uint 4 (length request % 2 ^ 32)) conn) >>= λ c.
    with_error not_written (send request c)

abbrev pub failure : Bytes → Result Error (Bytes × Conn)
failure s = sized s >>= λ (message, rest). err (service_failed message)

abbrev pub response : (Bytes → Bool) → Bytes → Conn → Result Error (Bytes × Conn)
response deserializes s conn =
    sized s >>= λ (body, rest). if deserializes body then ok (body, conn) else err not_deserialized

-- What follows the request: the byte that tells a failure, and the message of either kind. The body that
-- was deserialized is the answer; `Deserialize` of the response is a parameter.
unfoldable pub read_reply : (Bytes → Bool) → Bytes → Conn → Result Error (Bytes × Conn)
read_reply deserializes s conn = with_error not_read (read_full 1 s) >>= λ (status, rest).
    if uint_of status == 0 then failure rest else response deserializes rest conn

unfoldable pub converse :
    Service → Bytes → (Bytes → Bool) → Bytes → Conn → Result Error (Bytes × Conn)
converse c request deserializes input conn =
    with_error not_written (write_connection_header (call_headers c) conn) >>= λ conn'.
    with_error no_header (read_connection_header input) >>= λ (hs, rest).
    if agrees c hs
    then (send_request request conn' >>= λ sent. read_reply deserializes rest sent)
    else err incompatible

abbrev pub address : Value → Result Error Bytes
address (str s) = ok s
address _ = err not_string

abbrev pub over :
    (Bytes → Conn → Result Error (Bytes × Conn)) → Dialled → Result Error (Bytes × Conn)
over next unparsed = err bad_url
over next unreachable = err refused
over next (connected conn input) = next input conn

-- `Call`, from the answer of `lookupService` and the request as it was serialised.
unfoldable pub call_service :
    Service
    → Bytes
    → (Bytes → Bool)
    → (Bytes → Dialled)
    → Api.Outcome Value
    → Result Error (Bytes × Conn)
call_service c request deserializes dial looked_up = with_error no_lookup looked_up >>= λ v.
    address v >>= λ url. over (converse c request deserializes) (dial url)
