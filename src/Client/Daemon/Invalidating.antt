-- ===== src/Client/Daemon/Invalidating.antt =====
-- client/daemon.py: the call `cache.invalidate` of the cloud, over the metadata of client/cache.py.
use cpip.Common.{
  ℕ, ◌≡◌, ◌≢◌, refl, ap, ◌∙◌, String, false, Option, some, none, [], ◌∷◌, ◌++◌, ◌==◌, if◌then◌else◌,
  arith, eq_iff, eq_refl,
}
use cpip.Common.Dict
use cpip.Common.Dict.{get-remove}
use cpip.Files.{Node, file, dir}
use cpip.Shared.Json.{Json, Fields, truthy, get_or}
use cpip.Shared.Protocol.{RpcMessage, MessageType, or_else, make_result}
use cpip.Client.Cache.State.{delete}
use cpip.Client.Cache.Metadata.{get_metadata, meta_file, meta_file_ne}
use cpip.Client.Sync.{SyncManager}
use cpip.Client.Daemon.Messages.{
  Daemon, Surroundings, ok_status, unlink_metadata, handle_cache_invalidate, dispatch, send,
  answer_call, handle_message,
}

-- What stands at a path is no directory.
abbrev pub IsFile : Option Node → Type 0
IsFile (some (dir files)) = ⊥
IsFile _ = Unit

-- The state after metadata was removed.
abbrev removed : String → SyncManager → SyncManager
removed name s = record s { cache = delete (meta_file s.cache name) s.cache }

unlink_file :
    (name : String) (s : SyncManager)
    → IsFile (Dict.get s.cache.disk (meta_file s.cache name))
    → unlink_metadata name s ≡ (some ok_status, removed name s)
unlink_file name s h = go (Dict.get s.cache.disk (meta_file s.cache name)) h
  where
    go :
        (o : Option Node)
        → IsFile o
        → (elim o as (λ _. Option Json × SyncManager) [
          | some (dir files) ↦ (none, s)
          | _ ↦ (some ok_status, removed name s)
        ])
          ≡ (some ok_status, removed name s)
    go none h = refl
    go (some (file c)) h = refl
    go (some (dir files)) h = absurd h

module _ (e : Surroundings) (msg : RpcMessage) (d : Daemon) (fields : Fields) (name : String)
    (call : msg.type ≡ MessageType.call) (method : msg.method ≡ Json.string "cache.invalidate")
    (params : msg.params ≡ Json.object fields)
    (named : get_or fields "package" (Json.string "") ≡ Json.string name)
    (named_so : e.cloud.str (Json.string name) ≡ name) (not_empty : (name == "") ≡ false)
    (is_file : IsFile (Dict.get d.sync.cache.disk (meta_file d.sync.cache name))) where
  handled :
      handle_cache_invalidate e (Json.object fields) d.sync ≡ (some ok_status, removed name d.sync)
  handled =
      ap
        (λ (v : Json).
          if truthy v then unlink_metadata (e.cloud.str v) d.sync else (some ok_status, d.sync))
        named
      ∙ rw not_empty
          (ap (λ (t : String). unlink_metadata t d.sync) named_so ∙ unlink_file name d.sync is_file)

  handle_message_invalidate :
      handle_message e msg d
      ≡ send (make_result e.uuid e.now msg.id ok_status) (record d { sync = removed name d.sync })
  unfolding handle_message
  handle_message_invalidate =
      rw (handle_message, call)
        (ap
            (λ (m : Json).
              answer_call e msg (dispatch e (or_else m (Json.string "")) msg.params d.sync) d)
            method
          ∙ ap
              (λ (p : Json).
                answer_call e msg (dispatch e (Json.string "cache.invalidate") p d.sync) d)
              params
          ∙ ap (λ (o : Option Json × SyncManager). answer_call e msg o d) handled)

  -- When the cloud calls cache.invalidate with the name of a package, its metadata is not found any
  -- more, that of each other package as before; the call is answered under its id if the daemon is
  -- connected, and the calls that wait are left alone.
  pub handle_message-get_metadata :
      (other : String) (now : ℕ)
      → name ≢ other
      → let d1 = handle_message e msg d in
        ((get_metadata name now d1.sync.cache).0 ≡ none)
        × ((get_metadata other now d1.sync.cache).0 ≡ (get_metadata other now d.sync.cache).0)
        × (d1.sent ≡ (
            if d.connected
            then d.sent ++ (make_result e.uuid e.now msg.id ok_status ∷ [])
            else d.sent))
        × (d1.calls ≡ d.calls)
  unfolding get_metadata
  handle_message-get_metadata other now h =
      let path = meta_file d.sync.cache name in
      let other_path = meta_file d.sync.cache other in
      rw handle_message_invalidate (
        ground (
          arith,
          get-remove d.sync.cache.disk path path,
          get-remove d.sync.cache.disk path other_path,
          eq_refl path,
          eq_iff path other_path,
          meta_file_ne d.sync.cache name other h,
        ))
