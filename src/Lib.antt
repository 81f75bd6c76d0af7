-- ===== src/Lib.antt =====
-- rosgo is a ROS client library. A node exchanges messages with other nodes over TCP: a connection
-- begins with a header of `key=value` lines on each side, then messages follow in the ROS wire format.
-- Messages are either generated ahead of time or, as modelled here, described by a specification that is
-- found at run time. Topics and nodes are found by name, through a master that is called by XML-RPC.
--
-- The parts, and the files that model them:
--
-- Prelude: Go strings and byte slices as lists of bytes, how a Go call ends (`Result`: a value, an error,
-- a panic, and `stuck` for fuel that runs out), and the integers that int64 and uint32 values are read as.
-- Wire: what the other parts use of encoding/binary and io: little-endian integers and whole reads.
-- Temporal: ros/temporal.go, ros/time.go, ros/duration.go. `normalize_temporal` is normalizeTemporal, with
-- its two branches in `carry` and `in_range`; `add`, `sub`, `cmp`, `to_nsec`, `from_nsec` are the methods of
-- Time and of Duration, which have the same bodies; `sub` is also Diff.
-- Rate: ros/rate.go. The two clock readings of Sleep are arguments.
-- Header: ros/header.go. `read_connection_header` and `write_connection_header`, on the bytes that a reader
-- still holds and on a writer that accepts a bounded number of bytes. `read_line` is one round of the loop.
-- Name: ros/name.go. `canonicalize_name`, `get_namespace`, `qualify_node_name`, and the NameResolver with
-- `resolve`, `new_name_resolver` and `remap`. A NameMap is a list of pairs in the order of iteration.
-- Gengo: libgengo/msgs.go and libgengo/parser.go: the specification records, the names of types (Gengo/Types),
-- what NewField and NewConstant fill in (Gengo/Fields), the legal names (Gengo/Legal), the printers
-- (Gengo/Print), and `load_constant_line` and `load_field_line` (Gengo/Lines). Gengo/Definition is the loop of
-- LoadMsgFromString over the lines. Gengo/Context is the rest of libgengo/context.go: the registry is a function
-- of names that is passed along, a `Loader` is a computation on it, and the methods are written over
-- ComputeMD5Text, which they call and which calls them; Gengo/Services loads services. Gengo/Context/Direct
-- computes the same from the files alone, without a registry.
-- Message: ros/dynamic_message.go. A data map is a list of entries. Message/Types is
-- newDynamicMessageTypeNested over a registry and a loader, Message/Zero is zeroValueData and NewMessage,
-- Message/Encode and Message/Decode are Serialize and Deserialize, Message/Schema is
-- generateJSONSchemaProperties. The source spells each branch out for an array and for a scalar; the model
-- has one function per branch, and `kind` for the tests that choose it.
-- Strconv: what xmlrpc/xmlrpc.go and ros/node.go use of strconv and encoding/base64: the decimal texts of
-- integers, ParseInt with its prefixes and underscores, and StdEncoding. Prelude/Space is the white space and
-- the trims of strings and unicode.
-- Xmlrpc: xmlrpc/xmlrpc.go, over the tokens that the XML decoder gives: `Token` has the kinds the code tells
-- apart, and a decoder is the list of tokens it gives before its error, which it repeats. Xmlrpc/Text is
-- xmlEscape, as the decoder reads its answer. Xmlrpc/Emit holds the
-- emitters, which write tokens where the source writes the tags that stand for them, and keep what was
-- written before an error. Xmlrpc/Parse holds nextTag, expectNextTag, parseValue, parseRequest and
-- parseResponse; `parse_items` and `parse_members` are the loops of parseValue over an array and a struct.
-- Xmlrpc/Calls holds Call and Handler.ServeHTTP. A Go value is a `Value` by its dynamic type.
-- Api: ros/master.go: callRosAPI on what the XML-RPC call returned, and buildRosAPIResult; Api/Calls puts it
-- on top of Xmlrpc/Calls.
-- Subscriber: ros/subscriber.go: setDifference, and the cases of the subscriber's loop for a new list of
-- publishers, a new callback and a disconnection. A send that never returns is the error `blocked`.
-- Subscriber/Receive is startRemotePublisherConn from the response header on: `greet` is the check of the
-- header, `receive` the loop that reads sizes and bodies, over bytes and silences as long as the deadline.
-- Publisher: ros/publisher.go: `turn` is a case of the publisher's loop, and `run` the loop over the events
-- that the select receives. Publisher/Session is a session: `handshake` reads, checks and answers the
-- header, `round` is a case of the sending loop, and `rounds` follows the choices of the scheduler.
-- Tcpros: a publisher's session and a subscriber's reader together: the handshake and the stream.
-- Service: ros/service_client.go (Service/Client) and ros/service_server.go (Service/Server): `converse` is
-- Call from the connection on, `session` the session of a server, `job` what the job of a request sends to
-- it, and `turn` a round of the server's loop. Service/Exchange puts the two sides together.
-- Node: ros/node.go: the slave API (Node/Slave) as the mapping of the XML-RPC handler, processArguments
-- (Node/Arguments), the names that newDefaultNode gives a node (Node/Names), the maps of its subscribers,
-- publishers and servers with the calls that change them, given what the master answers (Node/Topics), and the
-- queries of the master (Node/Queries). Node/Host: ros/network.go, given what the system tells.
-- Tests: the theorems at concrete inputs.
--
-- Message uses Wire for its integers and Gengo for its fields; Rate uses Temporal. A message's fields come
-- from a specification, whose fields NewField builds; Message/Builtin relates the two. Publisher, Subscriber
-- and Service read and write their headers with Header. A subscriber asks a node for a topic by callRosAPI,
-- which calls Xmlrpc on both sides, and the node answers from Node/Slave.
--
-- Fuel: the loop of `read_connection_header` has one round more than the declared size, and a round takes
-- four bytes at least. `serialize`, `deserialize`, `new_message`, `zero_value_data` and `json_schema` have
-- fuel for the depth of nested messages; Message/Fits says which depth a message needs. Types that contain themselves have no finite depth, in Go as in the model. Loads count
-- the depth of nested messages too, and give `none` below it; a rank of the names bounds it. Each round
-- of `parse_value` and of its loops takes a token, so more rounds than there are tokens are enough. A round of
-- `receive` takes a message, or an item of the stream at least; Tcpros/Stream says how many rounds a stream
-- needs. `parse_args` may turn for ever, as its loop in the source does, and `stuck` stands for that too.
--
-- Parameters: the loader of message definitions (`Context`), the clock readings of Rate, what a new publisher
-- answers a subscriber, the text of floats (`Floats`, for FormatFloat and ParseFloat; a value with floats can
-- be sent where a float is read back from its text), the answer to a post of HTTP (`Call`), the functions
-- behind the methods of a handler, the files with the paths of the messages and MD5 (`Env`), the floats and
-- the digits outside ASCII of message definitions (`Library`), the text of a constant's value, what a system
-- tells of its host, how long a job takes, and the reading of a service's response. Of the others nothing is
-- assumed.
--
-- Not modelled: floats beyond their bit patterns (ToSec, FromSec, NewRate), isValidName, which is a regular
-- expression, the search of directories for message files, JSON unmarshalling, the code generator, the parser
-- of XML below its tokens, and the set-up of nodes, listeners and goroutines: dialling, callbacks, and what a
-- subscriber does when it is told to end.
-- Of the reading goroutine of a subscriber the signal to quit is left out, which only returns.
pub mod Prelude
pub mod Temporal
pub mod Rate
pub mod Wire
pub mod Header
pub mod Name
pub mod Gengo
pub mod Message
pub mod Subscriber
pub mod Publisher
pub mod Tcpros
pub mod Strconv
pub mod Xmlrpc
pub mod Api
pub mod Service
pub mod Node
pub mod Tests
