-- ===== src/Shared/Protocol.antt =====
-- shared/protocol.py: the messages between client and server, as the dicts that JSON and msgpack
-- write out. A new id and a reading of the clock are arguments.
pub mod RoundTrip
mod Tests
use cpip.Common.{
  String, Bool, true, false, not, Option, none, some, List, [], ◌∷◌, ◌++◌, ◌==◌, if◌then◌else◌, ℕ,
}
use cpip.Common.Dict
use cpip.Common.Dict.{Dict}
use cpip.Shared.Json.{Json, Fields, truthy, is_null, empty}

pub data MessageType : Type 0 where
  call : MessageType
  result : MessageType
  error : MessageType
  stream_start : MessageType
  stream_chunk : MessageType
  stream_end : MessageType
  heartbeat : MessageType
  heartbeat_ack : MessageType
  session_init : MessageType
  session_ack : MessageType
  session_end : MessageType
  notify : MessageType
  log : MessageType
  progress : MessageType

-- `MessageType.value`
unfoldable pub value : MessageType → String
value MessageType.call = "rpc.call"
value MessageType.result = "rpc.result"
value MessageType.error = "rpc.error"
value MessageType.stream_start = "rpc.stream.start"
value MessageType.stream_chunk = "rpc.stream.chunk"
value MessageType.stream_end = "rpc.stream.end"
value MessageType.heartbeat = "rpc.heartbeat"
value MessageType.heartbeat_ack = "rpc.heartbeat.ack"
value MessageType.session_init = "session.init"
value MessageType.session_ack = "session.ack"
value MessageType.session_end = "session.end"
value MessageType.notify = "rpc.notify"
value MessageType.log = "rpc.log"
value MessageType.progress = "rpc.progress"

abbrev pub all_types : List MessageType
all_types =
    MessageType.call ∷ MessageType.result ∷ MessageType.error ∷ MessageType.stream_start
    ∷ MessageType.stream_chunk ∷ MessageType.stream_end ∷ MessageType.heartbeat
    ∷ MessageType.heartbeat_ack ∷ MessageType.session_init ∷ MessageType.session_ack
    ∷ MessageType.session_end ∷ MessageType.notify ∷ MessageType.log ∷ MessageType.progress ∷ []

unfoldable pub with_value : List MessageType → String → Option MessageType
with_value [] s = none
with_value (t ∷ ts) s = if value t == s then some t else with_value ts s

-- `MessageType(v)`, which raises ValueError if no type has the value.
unfoldable pub to_type : Json → Option MessageType
to_type (Json.string s) = with_value all_types s
to_type _ = none

-- A field that is `None` in Python is null.
pub record RpcMessage : Type 0 where
  pub type : MessageType
  pub id : Json
  pub method : Json
  pub params : Json
  pub result : Json
  pub error : Json
  pub timestamp : Json
  pub metadata : Json

-- `v or default`
abbrev pub or_else : Json → Json → Json
or_else v default = if truthy v then v else default

-- The constructor: `__init__` with all arguments.
abbrev pub new_message :
    String → ℕ → MessageType → Json → Json → Json → Json → Json → Json → Json → RpcMessage
new_message uuid now type method params outcome failure id metadata timestamp = record {
  type = type;
  id = or_else id (Json.string uuid);
  method = method;
  params = or_else params empty;
  result = outcome;
  error = failure;
  timestamp = or_else timestamp (Json.number now);
  metadata = or_else metadata empty;
}

abbrev pub add_field : Bool → String → Json → Dict Json → Dict Json
add_field present key v msg = if present then Dict.put msg key v else msg

-- The dict of a message, a field after the other.
abbrev pub header : RpcMessage → Dict Json
header m =
    ("jsonrpc", Json.string "2.0")
    ∷ ("type", Json.string (value m.type))
    ∷ ("id", m.id)
    ∷ ("timestamp", m.timestamp)
    ∷ []

abbrev pub with_method : RpcMessage → Dict Json
with_method m = add_field (truthy m.method) "method" m.method (header m)

abbrev pub with_params : RpcMessage → Dict Json
with_params m = add_field (truthy m.params) "params" m.params (with_method m)

abbrev pub with_result : RpcMessage → Dict Json
with_result m = add_field (not (is_null m.result)) "result" m.result (with_params m)

abbrev pub with_error : RpcMessage → Dict Json
with_error m = add_field (truthy m.error) "error" m.error (with_result m)

unfoldable pub to_dict : RpcMessage → Dict Json
to_dict m = add_field (truthy m.metadata) "metadata" m.metadata (with_error m)

-- `data.get(key)`
abbrev pub field : Dict Json → String → Json
field d key = elim (Dict.get d key) [ some v ↦ v | none ↦ Json.null ]

abbrev pub type_field : Dict Json → Json
type_field d = elim (Dict.get d "type") [ some v ↦ v | none ↦ Json.string "rpc.call" ]

unfoldable pub from_dict : String → ℕ → Dict Json → Option RpcMessage
from_dict uuid now d = elim (to_type (type_field d)) [
  | none ↦ none
  | some type ↦ some (
      new_message uuid now type (field d "method") (field d "params") (field d "result")
        (field d "error") (field d "id") (field d "metadata") (field d "timestamp"))
]

abbrev pub plain : String → ℕ → MessageType → RpcMessage
plain uuid now type =
    new_message uuid now type Json.null Json.null Json.null Json.null Json.null Json.null Json.null

-- `make_call`; the arguments are `params`, or `kwargs` if these are `None`.
unfoldable pub make_call : String → ℕ → String → Json → Json → RpcMessage
make_call uuid now method params kwargs = record (plain uuid now MessageType.call) {
  method = Json.string method;
  params = or_else (if is_null params then kwargs else params) empty;
}

unfoldable pub make_result : String → ℕ → Json → Json → RpcMessage
make_result uuid now call_id outcome = record (plain uuid now MessageType.result) {
  id = or_else call_id (Json.string uuid);
  result = outcome;
}

unfoldable pub make_error : String → ℕ → Json → String → String → Json → RpcMessage
make_error uuid now call_id code message content = record (plain uuid now MessageType.error) {
  id = or_else call_id (Json.string uuid);
  error = Json.object (
      Fields.entry "code" (Json.string code) (
        Fields.entry "message" (Json.string message)
          (Fields.entry "data" content Fields.no_fields)));
}

unfoldable pub make_heartbeat : String → ℕ → RpcMessage
make_heartbeat uuid now = plain uuid now MessageType.heartbeat

unfoldable pub make_heartbeat_ack : String → ℕ → Json → RpcMessage
make_heartbeat_ack uuid now ping_id = record (plain uuid now MessageType.heartbeat_ack) {
  id = or_else ping_id (Json.string uuid);
}

unfoldable pub make_stream_start : String → ℕ → Json → Json → RpcMessage
make_stream_start uuid now call_id metadata = record (plain uuid now MessageType.stream_start) {
  id = or_else call_id (Json.string uuid);
  metadata = or_else metadata empty;
}

unfoldable pub make_stream_chunk : String → ℕ → Json → Json → ℕ → RpcMessage
make_stream_chunk uuid now call_id content index =
    record (plain uuid now MessageType.stream_chunk) {
      id = or_else call_id (Json.string uuid);
      result = content;
      metadata = Json.object (Fields.entry "index" (Json.number index) Fields.no_fields);
    }

unfoldable pub make_stream_end : String → ℕ → Json → RpcMessage
make_stream_end uuid now call_id = record (plain uuid now MessageType.stream_end) {
  id = or_else call_id (Json.string uuid);
}

unfoldable pub make_notification : String → ℕ → String → Json → RpcMessage
make_notification uuid now method params = record (plain uuid now MessageType.notify) {
  method = Json.string method;
  params = or_else params empty;
}

unfoldable pub make_session_init : String → ℕ → Json → RpcMessage
make_session_init uuid now device_info = record (plain uuid now MessageType.session_init) {
  params = or_else device_info empty;
}
