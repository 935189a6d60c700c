-- ===== src/Server/Services/Execution.antt =====
-- server/services/execution_service.py: remote executions. The import of a module, the lookup of its
-- attributes and the call are one parameter, which returns a value or raises, with a text and a
-- traceback. The duration is an argument, in milliseconds.
pub mod Allowed
use Prim.Native.String.{◌++◌ as ◌<>◌}
use cpip.Common.{
  ℕ, String, Bool, true, false, Option, none, some, List, [], ◌∷◌, ◌==◌, ◌||◌, if◌then◌else◌,
}
use cpip.Common.Dict
use cpip.Common.Dict.{Dict}
use cpip.Common.Texts.{split_dots}
use cpip.Shared.Json.{Json}

pub data ExecutionStatus : Type 0 where
  pending : ExecutionStatus
  running : ExecutionStatus
  completed : ExecutionStatus
  failed : ExecutionStatus
  timeout : ExecutionStatus
  cancelled : ExecutionStatus

-- `ExecutionRequest` and `ExecutionResult` of shared/models.py: what the service reads and sets.
pub record ExecutionRequest : Type 0 where
  pub request_id : String
  pub method : String
  pub args : Json
  pub kwargs : Json

pub record ExecutionResult : Type 0 where
  pub request_id : String
  pub status : ExecutionStatus
  pub result : Json
  pub error : Option String
  pub traceback : Option String
  pub duration_ms : ℕ

pub data Called : Type 0 where
  returned : Json → Called
  raised : String → String → Called

abbrev pub Results : Type 0
Results = Dict ExecutionResult

abbrev pub allowed_modules : List String
allowed_modules =
    "torch" ∷ "tensorflow" ∷ "jax" ∷ "cv2" ∷ "scipy" ∷ "numpy" ∷ "pandas" ∷ "sklearn"
    ∷ "transformers" ∷ "diffusers" ∷ "onnxruntime" ∷ "playwright" ∷ "math" ∷ "json" ∷ []

abbrev pub allowed : String → List String → Bool
allowed m [] = false
allowed m (x ∷ xs) = x == m || allowed m xs

abbrev pub Call : Type 0
Call = String → List String → Json → Json → Called

-- The traceback of the errors that are raised here is that of the code itself.
abbrev pub here : String
here = "execution_service.py"

-- `_execute_sandboxed`, by the parts of the method.
unfoldable pub execute_parts : Call → ExecutionRequest → List String → Called
execute_parts call req (m ∷ attr ∷ attrs) =
    if allowed m allowed_modules
    then call m (attr ∷ attrs) req.args req.kwargs
    else Called.raised ("Module '" <> (m <> "' is not allowed for remote execution")) here
execute_parts call req _ = Called.raised ("Invalid method: " <> req.method) here

abbrev pub method_parts : ExecutionRequest → List String
method_parts req = split_dots req.method

abbrev pub outcome : ExecutionRequest → ℕ → Called → ExecutionResult
outcome req duration (Called.returned v) = record {
  request_id = req.request_id;
  status = ExecutionStatus.completed;
  result = v;
  error = none;
  traceback = none;
  duration_ms = duration;
}
outcome req duration (Called.raised message traceback) = record {
  request_id = req.request_id;
  status = ExecutionStatus.failed;
  result = Json.null;
  error = some message;
  traceback = some traceback;
  duration_ms = duration;
}

unfoldable pub execute : Call → ℕ → ExecutionRequest → Results → ExecutionResult × Results
execute call duration req results =
    let r = outcome req duration (execute_parts call req (method_parts req)) in
    (r, Dict.put results req.request_id r)

abbrev pub get_result : Results → String → Option ExecutionResult
get_result results execution_id = Dict.get results execution_id

abbrev pub is_active : ExecutionStatus → Bool
is_active ExecutionStatus.pending = true
is_active ExecutionStatus.running = true
is_active _ = false

unfoldable pub cancel : String → Results → Results
cancel execution_id results = elim (Dict.get results execution_id) [
  | none ↦ results
  | some r ↦
      if is_active r.status
      then Dict.put results execution_id (record r { status = ExecutionStatus.cancelled })
      else results
]
