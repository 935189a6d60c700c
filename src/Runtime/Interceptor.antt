-- ===== src/Runtime/Interceptor.antt =====
-- runtime/interceptor.py: class CloudSession, the calls that a proxy makes in the cloud. A future is kept
-- under the id of its message. What `from_json` makes of a text is a message, or none where it raises;
-- the threads and the event loop, which only carry a call to the coroutine, are not modelled.
pub mod Receiving
pub mod Remote
mod Tests
use cpip.Common.{
  ℕ, String, Bool, true, false, not, ◌&&◌, Option, some, none, List, [], ◌∷◌, ◌++◌, if◌then◌else◌,
}
use cpip.Common.Dict
use cpip.Common.Dict.{Dict}
use cpip.Shared.Json.{Json, Fields, truthy, get_or}
use cpip.Shared.Protocol.{RpcMessage, MessageType, make_call}
use cpip.Runtime.Serialization.Values.{Value, Entries, Outcome, ok, raised, Failure, Codec}
use cpip.Runtime.Serialization.Encode.{serialize_args}
use cpip.Runtime.Serialization.Decode.{deserialize_result}

-- The state of a future; a call that timed out has cancelled it.
pub data Future : Type 0 where
  waiting : Future
  result : Json → Future
  error : String → Future
  cancelled : Future

-- `_ws`: none before the first connection; it stays when the connection is lost.
pub data Socket : Type 0 where
  no_socket : Socket
  open_socket : Socket
  lost_socket : Socket

pub record CloudSession : Type 0 where
  pub session_id : String
  pub socket : Socket
  pub connected : Bool
  pub pending : Dict (Unit {0})
  pub futures : Dict Future
  pub sent : List RpcMessage

abbrev pub new_session : String → CloudSession
new_session session_id = record {
  session_id = session_id;
  socket = Socket.no_socket;
  connected = false;
  pending = [];
  futures = [];
  sent = [];
}

-- `_connect`; `reached` tells whether the server answers.
unfoldable pub connect : Bool → CloudSession → CloudSession
connect reached s =
    if s.connected
    then s
    else if reached
    then record s { socket = Socket.open_socket; connected = true }
    else s

abbrev pub call_params : Codec → CloudSession → String → Value → Entries → Json
call_params codec s method args kwargs = Json.object (
    Fields.entry "session_id" (Json.string s.session_id) (
      Fields.entry "method" (Json.string method) (
        Fields.entry "args" (serialize_args codec args)
          (Fields.entry "kwargs" (serialize_args codec (Value.dict kwargs)) Fields.no_fields))))

-- The message of a call, with a new id.
abbrev pub call_message : Codec → String → ℕ → CloudSession → String → Value → Entries → RpcMessage
call_message codec uuid now s method args kwargs =
    make_call uuid now "exec.call" (call_params codec s method args kwargs) Json.null

-- `if self._ws: await self._ws.send(...)`: whether that does not raise, and the session.
abbrev pub send : RpcMessage → Socket → CloudSession → Bool × CloudSession
send msg Socket.no_socket s = (true, s)
send msg Socket.open_socket s = (true, record s { sent = s.sent ++ (msg ∷ []) })
send msg Socket.lost_socket s = (false, s)

-- `_async_execute` up to the wait.
unfoldable pub begin :
    Codec → Bool → String → ℕ → String → Value → Entries → CloudSession → Bool × CloudSession
begin codec reached uuid now method args kwargs s =
    let c = connect reached s in
    let waits = record c {
      pending = Dict.put c.pending uuid tt;
      futures = Dict.put c.futures uuid Future.waiting;
    } in
    send (call_message codec uuid now c method args kwargs) c.socket waits

abbrev pub is_waiting : Option Future → Bool
is_waiting (some Future.waiting) = true
is_waiting _ = false

-- `future.set_result` and `future.set_exception`, if the future is not done.
abbrev pub settle : String → Future → CloudSession → CloudSession
settle id f s =
    if is_waiting (Dict.get s.futures id) then record s { futures = Dict.put s.futures id f } else s

-- `msg.error.get("message", "Remote error") if msg.error else "Remote error"`; an error that is neither
-- false nor a dict raises, and the message of the future must be a text here.
abbrev pub error_text : Json → Option String
error_text (Json.object d) = elim (get_or d "message" (Json.string "Remote error")) [
  | Json.string s ↦ some s
  | _ ↦ none
]
error_text v = if truthy v then none else some "Remote error"

abbrev pub is_answer : MessageType → Bool
is_answer MessageType.result = true
is_answer MessageType.error = true
is_answer _ = false

-- What an answer makes of its future: nothing where its error raises.
abbrev pub outcome : RpcMessage → Option Future
outcome msg = elim msg.type [
  | MessageType.result ↦ some (Future.result msg.result)
  | MessageType.error ↦ elim (error_text msg.error) [
    | some text ↦ some (Future.error text)
    | none ↦ none
  ]
  | _ ↦ none
]

-- The future is taken out of the pending ones before anything else, also where the rest raises.
abbrev pub answered : RpcMessage → String → CloudSession → CloudSession
answered msg id s =
    let taken = record s { pending = Dict.remove s.pending id } in
    if is_answer msg.type
    then elim (outcome msg) [ some f ↦ settle id f taken | none ↦ taken ]
    else s

-- One text of the server. A message whose id is no text has no future.
unfoldable pub receive : Option RpcMessage → CloudSession → CloudSession
receive none s = s
receive (some msg) s = elim msg.id [
  | Json.string id ↦ elim (Dict.get s.pending id) [ none ↦ s | some _ ↦ answered msg id s ]
  | _ ↦ s
]

abbrev pub receive_all : List (Option RpcMessage) → CloudSession → CloudSession
receive_all [] s = s
receive_all (m ∷ ms) s = receive_all ms (receive m s)

-- The end of the receiver's loop, when the connection is lost.
unfoldable pub connection_lost : CloudSession → CloudSession
connection_lost s = record s { connected = false; socket = Socket.lost_socket }

-- What a call answers.
pub data Answer : Type 0 where
  returned : Value → Answer
  raises : Failure → Answer
  runtime_error : String → Answer
  timeout_error : Answer

abbrev pub deserialized : Outcome Value → Answer
deserialized (ok v) = Answer.returned v
deserialized (raised e) = Answer.raises e

-- The end of `_async_execute`, 300 seconds after its start or as soon as the future is done.
unfoldable pub finish : Codec → String → CloudSession → Answer × CloudSession
finish codec id s = elim (Dict.get s.futures id) [
  | some (Future.result v) ↦ (deserialized (deserialize_result codec v), s)
  | some (Future.error text) ↦ (Answer.runtime_error text, s)
  | some Future.waiting ↦
      (Answer.timeout_error, record s { futures = Dict.put s.futures id Future.cancelled })
  | _ ↦ (Answer.timeout_error, s)
]
