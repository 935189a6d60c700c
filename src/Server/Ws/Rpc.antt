-- ===== src/Server/Ws/Rpc.antt =====
-- server/ws/rpc.py: calls are dispatched to handlers by their method. A handler is a parameter: it
-- returns a value or raises, with a text and a traceback. `asyncio.iscoroutinefunction` makes no
-- difference to what is returned. The text of a value that is no string, and the time taken in
-- milliseconds, are parameters.
use Prim.Native.String.{◌++◌}
use cpip.Common.{ℕ, String, true, Option, none, some, []}
use cpip.Common.Dict
use cpip.Common.Dict.{Dict}
use cpip.Shared.Json.{Json, Fields}
use cpip.Shared.Protocol.{RpcMessage, make_result, make_error, or_else}

pub data Handled : Type 0 where
  returned : Json → Handled
  raised : String → String → Handled

abbrev pub Handlers : Type 0
Handlers = Dict (Json → Handled)

-- What a call reads of its surroundings: a fresh id, the clock, the duration and `str`.
pub record Context : Type 0 where
  pub uuid : String
  pub now : ℕ
  pub duration_ms : ℕ
  pub str : Json → String

unfoldable pub register : String → (Json → Handled) → Handlers → Handlers
register method handler handlers = Dict.put handlers method handler

-- `_handle_ping` and `_handle_echo`, and the global dispatcher: nothing else registers a handler.
abbrev pub handle_ping : ℕ → Json → Handled
handle_ping now params = Handled.returned (
    Json.object (
      Fields.entry "pong" (Json.boolean true)
        (Fields.entry "timestamp" (Json.number now) Fields.no_fields)))

abbrev pub handle_echo : Json → Handled
handle_echo params = Handled.returned params

unfoldable pub dispatcher : ℕ → Handlers
dispatcher now = register "echo" handle_echo (register "ping" (handle_ping now) [])

-- `self._handlers.get(method)`: the keys are texts, so another hashable value finds nothing, and a
-- list or a dict raises TypeError, which is the outer `none`.
abbrev pub lookup : Handlers → Json → Option (Option (Json → Handled))
lookup handlers (Json.string s) = some (Dict.get handlers s)
lookup handlers (Json.array vs) = none
lookup handlers (Json.object vs) = none
lookup handlers _ = some none

abbrev pub answer : Context → RpcMessage → Handled → RpcMessage
answer c msg (Handled.returned v) = record (make_result c.uuid c.now msg.id v) {
  metadata = Json.object (Fields.entry "duration_ms" (Json.number c.duration_ms) Fields.no_fields);
}
answer c msg (Handled.raised message traceback) =
    make_error c.uuid c.now msg.id "EXECUTION_ERROR" message (Json.string traceback)

-- The response to a call, for what the lookup of its handler found.
unfoldable pub respond : Context → RpcMessage → Json → Option (Json → Handled) → RpcMessage
respond c msg method none =
    make_error c.uuid c.now msg.id "METHOD_NOT_FOUND" ("Unknown method: " ++ c.str method) Json.null
respond c msg method (some handler) = answer c msg (handler msg.params)

-- `dispatch`; `none` where it raises itself.
unfoldable pub dispatch : Handlers → Context → RpcMessage → Option RpcMessage
dispatch handlers c msg =
    let method = or_else msg.method (Json.string "") in
    elim (lookup handlers method) [ none ↦ none | some found ↦ some (respond c msg method found) ]
