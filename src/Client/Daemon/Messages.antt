-- ===== src/Client/Daemon/Messages.antt =====
-- client/daemon.py: `_handle_message` and what the cloud can call on the client. What is raised is
-- passed over by the loop over the messages. The size of the cache is a parameter.
use Prim.Native.String.{◌++◌ as ◌<>◌}
use cpip.Common.{ℕ, String, Bool, Option, some, none, List, [], ◌∷◌, ◌++◌, ◌==◌, if◌then◌else◌}
use cpip.Common.Dict
use cpip.Files.{dir}
use cpip.Shared.Json.{Json, Fields, truthy, get_or}
use cpip.Shared.Protocol.{RpcMessage, MessageType, or_else, make_result, make_heartbeat_ack}
use cpip.Client.Cache.State.{CacheManager, delete}
use cpip.Client.Cache.Metadata.{meta_file}
use cpip.Client.Sync.{Cloud, Results, SyncManager, do_sync}
use cpip.Client.Daemon.{Calls, Settled, settle_message, error_content}

-- `connected` tells whether there is a socket and it can be sent to.
pub record Daemon : Type 0 where
  pub calls : Calls
  pub sync : SyncManager
  pub connected : Bool
  pub sent : List RpcMessage

-- What a message meets: an id and a time for the answer, the cloud and the times of a sync, and the
-- size of the cache in megabytes.
pub record Surroundings : Type 0 where
  pub uuid : String
  pub now : ℕ
  pub cloud : Cloud
  pub clock : ℕ → ℕ
  pub begun : ℕ
  pub ended : ℕ
  pub size_mb : CacheManager → Json

abbrev pub ok_status : Json
ok_status = Json.object (Fields.entry "status" (Json.string "ok") Fields.no_fields)

-- `meta_path.unlink(missing_ok=True)`, which raises for a directory.
abbrev pub unlink_metadata : String → SyncManager → Option Json × SyncManager
unlink_metadata package_name s = elim (Dict.get s.cache.disk (meta_file s.cache package_name)) [
  | some (dir files) ↦ (none, s)
  | _ ↦ (some ok_status, record s { cache = delete (meta_file s.cache package_name) s.cache })
]

-- `_handle_cache_invalidate`; params that are no dict have no `get`.
abbrev pub handle_cache_invalidate : Surroundings → Json → SyncManager → Option Json × SyncManager
handle_cache_invalidate e (Json.object d) s =
    let name = get_or d "package" (Json.string "") in
    if truthy name then unlink_metadata (e.cloud.str name) s else (some ok_status, s)
handle_cache_invalidate e params s = (none, s)

abbrev pub sync_answer : Option Results × SyncManager → Option Json × SyncManager
sync_answer (none, s) = (none, s)
sync_answer (some results, s) = (
  some (
      Json.object (
        Fields.entry "status" (Json.string "ok")
          (Fields.entry "updated" (Json.number results.metadata_updated) Fields.no_fields))),
  s,
)

-- `_handle_sync_trigger`
abbrev pub handle_sync_trigger : Surroundings → SyncManager → Option Json × SyncManager
handle_sync_trigger e s = sync_answer (do_sync e.cloud e.clock e.begun e.ended s)

-- `_handle_status`
abbrev pub handle_status : Surroundings → SyncManager → Option Json × SyncManager
handle_status e s = (
  some (
      Json.object (
        Fields.entry "status" (Json.string "running") (
          Fields.entry "cache_size_mb" (e.size_mb s.cache)
            (Fields.entry "sync_running" (Json.boolean s.running) Fields.no_fields)))),
  s,
)

abbrev pub unknown_method : Surroundings → Json → Json
unknown_method e method =
    Json.object (
      Fields.entry "error" (Json.string ("Unknown method: " <> e.cloud.str method))
        Fields.no_fields)

-- `_dispatch`; a list or a dict cannot be looked up.
abbrev pub dispatch : Surroundings → Json → Json → SyncManager → Option Json × SyncManager
dispatch e (Json.string m) params s =
    if m == "cache.invalidate"
    then handle_cache_invalidate e params s
    else if m == "sync.trigger"
    then handle_sync_trigger e s
    else if m == "status"
    then handle_status e s
    else (some (unknown_method e (Json.string m)), s)
dispatch e (Json.array vs) params s = (none, s)
dispatch e (Json.object vs) params s = (none, s)
dispatch e method params s = (some (unknown_method e method), s)

-- `if self._ws: await self._ws.send(...)`
abbrev pub send : RpcMessage → Daemon → Daemon
send msg d = if d.connected then record d { sent = d.sent ++ (msg ∷ []) } else d

abbrev pub answer_call : Surroundings → RpcMessage → Option Json × SyncManager → Daemon → Daemon
answer_call e msg (none, s) d = record d { sync = s }
answer_call e msg (some v, s) d = send (make_result e.uuid e.now msg.id v) (record d { sync = s })

unfoldable pub handle_message : Surroundings → RpcMessage → Daemon → Daemon
handle_message e msg d = elim msg.type [
  | MessageType.heartbeat ↦ send (make_heartbeat_ack e.uuid e.now msg.id) d
  | MessageType.result ↦ record d {
    calls = settle_message msg (some (Settled.result msg.result)) d.calls;
  }
  | MessageType.error ↦ record d { calls = settle_message msg (error_content msg.error) d.calls }
  | MessageType.call ↦
      answer_call e msg (dispatch e (or_else msg.method (Json.string "")) msg.params d.sync) d
  | _ ↦ d
]
