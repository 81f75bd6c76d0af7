-- ===== src/Service/Server.antt =====
-- `start` of a session and of a server in ros/service_server.go.
use rosgo.Prelude.{
  ℕ, ◌%◌, ◌^◌, Bool, true, ◌||◌, not, List, [], ◌∷◌, ◌++◌, Option, none, some, Bytes, codes, str_eq,
  length, ◌==◌, if◌then◌else◌, Result, ok, err, ◌>>=◌, with_error,
}
use rosgo.Wire.{ReadError, put_uint, uint_of, read_full}
use rosgo.Header
use rosgo.Header.{Header, Conn, send, read_connection_header, write_connection_header}
use rosgo.Header.Fields.{field}
use rosgo.Service.{Service}

-- How a session ends without a reply: the first four are returns, the others panics that are recovered.
pub data Error : Type 0 where
  no_header : Header.Error → Error
  not_answered : Conn → Error
  probed incompatible : Conn → Error
  not_read : ReadError → Error
  not_replied : Conn → Error
  timed_out nil_error : Conn → Error

-- What the deferred function tells the server.
abbrev pub close_event : Result Error Conn → Option Error
close_event (err (not_read e)) = some (not_read e)
close_event (err (not_replied c)) = some (not_replied c)
close_event (err (timed_out c)) = some (timed_out c)
close_event (err (nil_error c)) = some (nil_error c)
close_event _ = none

unfoldable pub served_headers : Service → List Header
served_headers s =
    record { key = codes "service"; value = s.service }
    ∷ record { key = codes "md5sum"; value = s.md5sum }
    ∷ record { key = codes "type"; value = s.type_name }
    ∷ record { key = codes "callerid"; value = s.node_id }
    ∷ []

-- The checks that follow the answer.
unfoldable pub check_call : Service → List Header → Conn → Result Error Conn
check_call s hs conn =
    if str_eq (field (codes "probe") hs) (codes "1")
    then err (probed conn)
    else if not (str_eq (field (codes "service") hs) s.service)
        || not (str_eq (field (codes "md5sum") hs) s.md5sum)
    then err (incompatible conn)
    else ok conn

-- What the job of a request sends to its session: the response, or an error by its text; `none` is a nil
-- error.
pub data Sent : Type 0 where
  response : Bytes → Sent
  failure : Option Bytes → Sent

-- What the handler returned: not one result; nil, with the response as it was serialised; an error; or a
-- result of another type.
pub data Handled : Type 0 where
  not_one : Handled
  success : Bytes → Handled
  failed : Bytes → Handled
  not_error : Handled

abbrev pub outcome : Option Bytes → Handled → Sent
outcome e not_one = failure e
outcome e (success body) = response body
outcome e (failed message) = failure (some message)
outcome e not_error = failure (some (codes "Service handler has invalid signature"))

-- The job, from the error of `Deserialize`, if any: all that it sends. After such an error it goes on.
unfoldable pub job : Option Bytes → Handled → List Sent
job none h = outcome none h ∷ []
job (some e) h = failure (some e) ∷ outcome (some e) h ∷ []

-- The session takes one thing from the job, if it comes within a second.
abbrev pub taken : Bool → List Sent → Option Sent
taken true (x ∷ xs) = some x
taken _ _ = none

-- What the job is then left with: each is a send that nobody receives.
abbrev pub blocked_sends : Bool → List Sent → List Sent
blocked_sends true (x ∷ xs) = xs
blocked_sends _ xs = xs

unfoldable pub write_reply : ℕ → Bytes → Conn → Result Error Conn
write_reply status message conn = with_error not_replied (send (status ∷ []) conn) >>= λ c.
    with_error not_replied (send (put_uint 4 (length message % 2 ^ 32)) c) >>= λ c'.
    with_error not_replied (send message c')

-- The text of a nil error is asked for after the byte that tells a failure.
unfoldable pub reply : Option Sent → Conn → Result Error Conn
reply none conn = err (timed_out conn)
reply (some (response body)) conn = write_reply 1 body conn
reply (some (failure (some message))) conn = write_reply 0 message conn
reply (some (failure none)) conn =
    with_error not_replied (send (0 ∷ []) conn) >>= λ c. err (nil_error c)

-- The request, as the job gets it.
unfoldable pub read_request : Bytes → Result Error (Bytes × Bytes)
read_request s = with_error not_read (read_full 4 s) >>= λ (raw, rest).
    with_error not_read (read_full (uint_of raw) rest)

-- A session. What its job sends in time, for the bytes of a request, is a parameter.
unfoldable pub session : Service → (Bytes → Option Sent) → Bytes → Conn → Result Error Conn
session s jobs input conn = with_error no_header (read_connection_header input) >>= λ (hs, rest).
    with_error not_answered (write_connection_header (served_headers s) conn) >>= λ conn'.
    check_call s hs conn' >>= λ checked.
    read_request rest >>= λ (request, _). reply (jobs request) checked

-- A round of the server's loop: a new connection, a session that is over, or the shutdown.
pub data Event : Type 0 where
  accepted closed : ℕ → Event
  accept_failed shutdown : Event

pub data Next : Type 0 where
  loops : List ℕ → Next
  returned blocked : Next

unfoldable pub without_first : ℕ → List ℕ → List ℕ
without_first i [] = []
without_first i (s ∷ ss) = if s == i then ss else s ∷ without_first i ss

-- The shutdown sends on the `quitChan` of each session, which is nil, since no channel is made for it.
abbrev pub quit_sessions : List ℕ → Next
quit_sessions [] = returned
quit_sessions (s ∷ ss) = blocked

unfoldable pub turn : Event → List ℕ → Next
turn (accepted i) ss = loops (ss ++ i ∷ [])
turn (closed i) ss = loops (without_first i ss)
turn accept_failed ss = returned
turn shutdown ss = quit_sessions ss
