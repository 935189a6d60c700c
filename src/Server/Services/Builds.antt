-- ===== src/Server/Services/Builds.antt =====
-- server/services/build_service.py: builds that are submitted and cancelled. A build's object is the
-- dict's: its change is one of the dict.
pub mod Queued
use cpip.Common.{
  ℕ, ◌+◌, ◌-◌, String, Bool, true, false, Option, none, some, List, [], ◌∷◌, ◌++◌, length, drop,
  ◌==◌, if◌then◌else◌, ◌||◌,
}
use cpip.Common.Dict
use cpip.Common.Dict.{Dict}
use cpip.Builder.Queue.{BuildRequest}

pub data BuildStatus : Type 0 where
  queued : BuildStatus
  building : BuildStatus
  succeeded : BuildStatus
  failed : BuildStatus
  cancelled : BuildStatus

-- `BuildResult` of shared/models.py, as far as the service sets it.
pub record BuildResult : Type 0 where
  pub request_id : String
  pub status : BuildStatus
  pub package_name : String
  pub package_version : String

pub record BuildService : Type 0 where
  pub builds : Dict BuildResult
  pub queue : List String

abbrev pub new_service : BuildService
new_service = record { builds = []; queue = [] }

abbrev pub queued_result : BuildRequest → BuildResult
queued_result req = record {
  request_id = req.request_id;
  status = BuildStatus.queued;
  package_name = req.package_name;
  package_version = req.package_version;
}

unfoldable pub submit_build : BuildRequest → BuildService → BuildResult × BuildService
submit_build req s = (
  queued_result req,
  record {
    builds = Dict.put s.builds req.request_id (queued_result req);
    queue = s.queue ++ req.request_id ∷ [];
  },
)

abbrev pub get_build : BuildService → String → Option BuildResult
get_build s build_id = Dict.get s.builds build_id

-- `list(...)[-limit:]`, for a positive limit
abbrev pub list_builds : ℕ → BuildService → List BuildResult
list_builds limit s = drop (length s.builds - limit) (Dict.values s.builds)

abbrev pub is_over : BuildStatus → Bool
is_over BuildStatus.succeeded = true
is_over BuildStatus.failed = true
is_over _ = false

-- `list.remove`: the first that is equal, if there is one.
unfoldable pub remove_first : String → List String → List String
remove_first id [] = []
remove_first id (x ∷ xs) = let rest = remove_first id xs in if x == id then xs else x ∷ rest

unfoldable pub cancel_build : String → BuildService → Bool × BuildService
cancel_build build_id s = elim (Dict.get s.builds build_id) [
  | none ↦ (false, s)
  | some build ↦ if is_over build.status then (false, s) else (
    true,
    record {
      builds = Dict.put s.builds build_id (record build { status = BuildStatus.cancelled });
      queue = remove_first build_id s.queue;
    },
  )
]

abbrev pub queue_size : BuildService → ℕ
queue_size s = length s.queue
