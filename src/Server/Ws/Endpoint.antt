-- ===== src/Server/Ws/Endpoint.antt =====
-- server/app.py: the WebSocket endpoint. `json.loads`, `json.dumps` and `decode_token` are parameters,
-- and so are the handlers of calls. Each connection's task is a sequence of events, and events of the
-- tasks interleave in any order. `conn` is the object that `connect` made for the socket: the hub has
-- it as long as the device's connection has that socket.
pub mod Replies
pub mod Reconnect
use Prim.Native.String.{slice, len}
use text.Mathlib.Text.{starts_with}
use cpip.Common.{
  ℕ, String, Bool, true, false, not, Option, none, some, List, [], ◌∷◌, ◌++◌, ◌&&◌, eqb, ◌==◌,
  if◌then◌else◌,
}
use cpip.Common.Dict
use cpip.Common.Dict.{Dict}
use cpip.Shared.Json.{Json, Fields}
use cpip.Shared.Protocol.{MessageType, RpcMessage, to_dict, from_dict, make_notification}
use cpip.Server.Ws.Hub.{DeviceConnection, Hub, connect, disconnect}
use cpip.Server.Ws.Rpc.{Handlers, Context, dispatch}

pub record Env : Type 0 where
  pub loads : String → Option (Dict Json)
  pub dumps : Dict Json → String
  pub handlers : Handlers
  pub context : Context
  pub alive : ℕ → Bool

-- `RPCMessage.from_json`; every exception is met alike, by going on with the next text.
abbrev pub from_json : Env → String → Option RpcMessage
from_json env raw = elim (env.loads raw) [
  | none ↦ none
  | some d ↦ from_dict env.context.uuid env.context.now d
]

-- `websocket.send_text(message.to_json())`; where it raises, the endpoint goes on.
unfoldable pub send : Env → ℕ → RpcMessage → Hub → Hub
send env w msg h =
    if env.alive w then record h { sent = h.sent ++ (w, env.dumps (to_dict msg)) ∷ [] } else h

-- An assignment to a field of `conn`.
unfoldable pub update_conn : String → ℕ → (DeviceConnection → DeviceConnection) → Hub → Hub
update_conn device_id w f h = elim (Dict.get h.connections device_id) [
  | none ↦ h
  | some conn ↦
      if eqb conn.websocket w
      then record h { connections = Dict.put h.connections device_id (f conn) }
      else h
]

abbrev pub session_ack : Env → String → RpcMessage
session_ack env device_id =
    make_notification env.context.uuid env.context.now "session.ack"
      (Json.object (Fields.entry "session_id" (Json.string device_id) Fields.no_fields))

unfoldable pub on_message : Env → String → ℕ → RpcMessage → MessageType → Hub → Hub
on_message env device_id w msg MessageType.session_init h =
    send env w (session_ack env device_id)
      (update_conn device_id w (λ conn. record conn { metadata = msg.params }) h)
on_message env device_id w msg MessageType.heartbeat_ack h =
    update_conn device_id w (λ conn. record conn { last_heartbeat = env.context.now }) h
on_message env device_id w msg MessageType.call h = elim (dispatch env.handlers env.context msg) [
  | none ↦ h
  | some response ↦ send env w response h
]
on_message env device_id w msg _ h = h

-- The body of the loop over the texts of a socket.
unfoldable pub receive : Env → String → ℕ → String → Hub → Hub
receive env device_id w raw h = elim (from_json env raw) [
  | none ↦ h
  | some msg ↦ on_message env device_id w msg msg.type h
]

-- What happens to the endpoint's tasks: one begins, gets a text, or ends by its `finally`.
pub data Event : Type 0 where
  opened : String → ℕ → ℕ → Event
  received : String → ℕ → String → Event
  ended : String → Event

unfoldable pub step : Env → Event → Hub → Hub
step env (Event.opened device_id w now) h = connect device_id w now h
step env (Event.received device_id w raw) h = receive env device_id w raw h
step env (Event.ended device_id) h = disconnect device_id h

unfoldable pub run : Env → List Event → Hub → Hub
run env [] h = h
run env (e ∷ es) h = run env es (step env e h)

-- What the endpoint reads of a user: the device id, if there is one.
abbrev pub User : Type 0
User = Option String

abbrev pub bearer : Option String → Option String
bearer none = none
bearer (some header) =
    if starts_with header "Bearer " then some (slice header 7 (len header)) else none

-- `token` of the headers or, if there is none, of the query.
unfoldable pub token_of : Option String → Option String → Option String
token_of auth_header query = elim (bearer auth_header) [
  | none ↦ query
  | some t ↦ if t == "" then query else some t
]

abbrev pub user_of_token : Bool → (String → Option User) → Option String → Option User
user_of_token debug decode_token none = none
user_of_token debug decode_token (some t) =
    if t == ""
    then none
    else if debug && starts_with t "dev_"
    then some (some (slice t 4 (len t)))
    else decode_token t

-- The user of a socket, or `none` where the endpoint closes it. An empty token counts as none, and
-- `decode_token` answers no empty dict.
unfoldable pub user_of : Bool → (String → Option User) → Option String → Option User
user_of debug decode_token token = elim (user_of_token debug decode_token token) [
  | some u ↦ some u
  | none ↦ if debug then some (some "local") else none
]

abbrev pub device_of : User → String
device_of none = "unknown"
device_of (some d) = d
