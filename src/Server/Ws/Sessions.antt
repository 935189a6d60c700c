-- ===== src/Server/Ws/Sessions.antt =====
-- server/ws/sessions.py: the execution sessions of devices. Readings of the clock are arguments.
pub mod Cleanup
use cpip.Common.{
  ℕ, ◌+◌, ◌-◌, String, Bool, true, false, Option, none, some, List, [], ◌∷◌, ◌++◌, ltb, length, map,
  select, ◌==◌, seconds,
}
use cpip.Common.Dict
use cpip.Common.Dict.{Dict}

pub record ExecutionSession : Type 0 where
  pub session_id : String
  pub device_id : String
  pub created_at : ℕ
  pub last_active : ℕ
  pub active_modules : List String
  pub execution_count : ℕ

abbrev pub Sessions : Type 0
Sessions = Dict ExecutionSession

unfoldable pub create : ℕ → String → String → Sessions → Sessions
create now session_id device_id sessions = Dict.put sessions session_id (record {
  session_id = session_id;
  device_id = device_id;
  created_at = now;
  last_active = now;
  active_modules = [];
  execution_count = 0;
})

abbrev pub get : Sessions → String → Option ExecutionSession
get sessions session_id = Dict.get sessions session_id

unfoldable pub get_by_device : Sessions → String → List ExecutionSession
get_by_device sessions device_id =
    select (λ (s : ExecutionSession). s.device_id == device_id) (Dict.values sessions)

-- The session is an object of the dict: an update of it is one of the dict.
unfoldable pub update_activity : ℕ → String → Sessions → Sessions
update_activity now session_id sessions = elim (Dict.get sessions session_id) [
  | none ↦ sessions
  | some s ↦
      Dict.put sessions session_id
        (record s { last_active = now; execution_count = s.execution_count + 1 })
]

unfoldable pub remove : String → Sessions → Sessions
remove session_id sessions = Dict.remove sessions session_id

-- `now - s.last_active > max_idle_seconds`
abbrev pub is_stale : ℕ → ℕ → ExecutionSession → Bool
is_stale max_idle now s = ltb (seconds max_idle) (now - s.last_active)

abbrev pub stale_ids : ℕ → ℕ → Sessions → List String
stale_ids max_idle now sessions =
    map (λ (e : String × ExecutionSession). e.0)
      (select (λ (e : String × ExecutionSession). is_stale max_idle now e.1) sessions)

unfoldable pub delete_all : List String → Sessions → Sessions
delete_all [] sessions = sessions
delete_all (sid ∷ ids) sessions = delete_all ids (Dict.remove sessions sid)

unfoldable pub cleanup_stale : ℕ → ℕ → Sessions → ℕ × Sessions
cleanup_stale max_idle now sessions =
    let stale = stale_ids max_idle now sessions in (length stale, delete_all stale sessions)

abbrev pub active_count : Sessions → ℕ
active_count sessions = length sessions
