-- ===== src/Client/Daemon.antt =====
-- client/daemon.py: the connection to the cloud and the calls that wait for their results. The tasks
-- are steps; a waiting future is the entry of its call, and what it was set to is recorded. The signals
-- and the pid file are not modelled. Messages has what else comes from the cloud.
pub mod Reconnecting
pub mod Answers
pub mod Messages
pub mod Invalidating
mod Tests
use cpip.Common.{
  ℕ, ◌*◌, min, String, Bool, true, false, Option, none, some, List, [], ◌∷◌, ◌++◌, if◌then◌else◌,
}
use cpip.Common.Dict
use cpip.Common.Dict.{Dict}
use cpip.Shared.Json.{Json, Fields, truthy, get_or}
use cpip.Shared.Protocol.{RpcMessage}

-- WS_RECONNECT_BASE_DELAY and WS_RECONNECT_MAX_DELAY, in seconds
abbrev pub base_delay : ℕ
base_delay = 1

abbrev pub max_delay : ℕ
max_delay = 60

-- A round of `_connection_loop` while the daemon runs: no connection comes about, or one does and ends
-- by an error, or it is closed in order, when the loop over its texts just ends.
pub data Connection : Type 0 where
  refused : Connection
  broken : Connection
  closed : Connection

-- The sleep of a round, if it sleeps, and the delay after it.
unfoldable pub connection_round : Connection → ℕ → Option ℕ × ℕ
connection_round Connection.refused delay = (some delay, min (delay * 2) max_delay)
connection_round Connection.broken delay = (some base_delay, min (base_delay * 2) max_delay)
connection_round Connection.closed delay = (none, base_delay)

-- The sleeps of the rounds.
unfoldable pub connection_loop : List Connection → ℕ → List (Option ℕ)
connection_loop [] delay = []
connection_loop (c ∷ cs) delay =
    (connection_round c delay).0 ∷ connection_loop cs (connection_round c delay).1

-- What a future is set to: a result, or an exception with its content.
pub data Settled : Type 0 where
  result : Json → Settled
  exception : Json → Settled

-- `_pending`, by the ids of the calls, and the futures that were set, in order.
pub record Calls : Type 0 where
  pub pending : Dict (Unit {0})
  pub settled : List (String × Settled)

-- `rpc_call`, up to its wait.
unfoldable pub rpc_call : String → Calls → Calls
rpc_call id c = record c { pending = Dict.put c.pending id tt }

abbrev pub recorded : String → Option Settled → List (String × Settled) → List (String × Settled)
recorded id none settled = settled
recorded id (some v) settled = settled ++ (id, v) ∷ []

-- The future is popped, and set where that does not raise. One that is done, by a timeout, is not set:
-- then its entry is there, but nobody waits.
unfoldable pub settle : String → Option Settled → Calls → Calls
settle id value c = elim (Dict.get c.pending id) [
  | none ↦ c
  | some u ↦ record { pending = Dict.remove c.pending id; settled = recorded id value c.settled }
]

-- The content of the exception; none where an error that is no dict has no `get`.
abbrev pub error_content : Json → Option Settled
error_content (Json.object (Fields.entry k v d)) =
    some (Settled.exception (get_or (Fields.entry k v d) "message" (Json.string "Unknown error")))
error_content v = if truthy v then none else some (Settled.exception (Json.string "Unknown"))

-- The two branches of `_handle_message` for answers. No call has an id that is no text.
unfoldable pub settle_message : RpcMessage → Option Settled → Calls → Calls
settle_message msg value c = elim msg.id [ Json.string id ↦ settle id value c | _ ↦ c ]
