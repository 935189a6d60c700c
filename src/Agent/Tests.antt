-- ===== src/Agent/Tests.antt =====
-- Runs of agent/: a pipeline that stops, and the models that run locally.
use cpip.Common.{ℕ, suc, zero, ◌≡◌, refl, String, Option, some, none, List, [], ◌∷◌, map}
use cpip.Common.Dict
use cpip.Common.Dict.{Dict}
use cpip.Agent.Orchestrator.{
  Value, Object, Heap, Status, AgentTask, Agent, Orchestrator, Handled, Handlers, Step,
  register_agent, unregister_agent, first_capable, find_agent, submit_task, run_steps, run_pipeline,
}
use cpip.Agent.Orchestrator.Shared.{is_dict, item, Leave, Ran}
use cpip.Agent.Orchestrator.Pipelines.{run_pipeline-Ran}
use cpip.Agent.Router.{route, list_local_models, list_cloud_models}

program : Unit {0}
unfolding register_agent unregister_agent first_capable find_agent submit_task run_steps
    run_pipeline route Dict.get Dict.put Dict.remove
program = tt

-- The handler 0 answers what its payload has as the context, any other raises.
abbrev context_of : Option Value → Value
context_of (some v) = v
context_of none = Value.none_value

abbrev handlers : Handlers
handlers zero payload heap = (Handled.returned (context_of (item (heap payload) "_context")), heap)
handlers (suc n) payload heap = (Handled.raised "broken", heap)

abbrev agent : String → String → ℕ → Agent
agent id capability handler = record {
  id = id;
  name = id;
  capabilities = capability ∷ [];
  handler = some handler;
}

abbrev start : Orchestrator
start =
    register_agent (agent "a" "read" 0)
      (register_agent (agent "b" "write" 1) (record { agents = []; tasks = [] }))

-- The payloads are the dicts at 1 and 2, and the context is at 0.
abbrev step : String → String → ℕ → Step
step name capability payload = record {
  id = name;
  name = name;
  payload = payload;
  capability = capability;
}

abbrev steps : List Step
steps =
    step "one" "read" 1 ∷ step "two" "read" 2 ∷ step "three" "write" 1 ∷ step "four" "read" 2 ∷ []

abbrev empty_dicts : Heap
empty_dicts a = Object.dict []

abbrev task_over : String → Status → Value → String → AgentTask
task_over name status v error = record {
  id = name;
  name = name;
  status = status;
  result = v;
  error = error;
}

-- Both results are the dict of the context itself, which has the two of them in the end.
test_pipeline :
    let (results, p, last) = run_pipeline handlers 0 steps start empty_dicts in
    (results
      ≡ task_over "one" Status.completed (Value.ref 0) ""
        ∷ task_over "two" Status.completed (Value.ref 0) ""
        ∷ task_over "three" Status.failed Value.none_value "broken"
        ∷ [])
    × (last 0 ≡ Object.dict (("one", Value.ref 0) ∷ ("two", Value.ref 0) ∷ []))
unfolding program
test_pipeline = (refl, refl)

test_no_agent :
    (submit_task handlers "t" "t" 1 "math" (unregister_agent "a" start) empty_dicts).0
    ≡ task_over "t" Status.failed Value.none_value "No agent available for: math"
unfolding program
test_no_agent = refl

-- A model that is listed as local, and runs in the cloud on every device.
test_route :
    (list_local_models ≡ "tinyllama-1.1b" ∷ "all-MiniLM-L6-v2" ∷ "whisper-tiny" ∷ [])
    × (map (route 64_000) list_local_models ≡ "cloud" ∷ "local" ∷ "local" ∷ [])
    × (map (route 64_000) list_cloud_models ≡ "cloud" ∷ "cloud" ∷ "cloud" ∷ "cloud" ∷ "cloud" ∷ [])
unfolding program
test_route = (refl, refl, refl)

handlers-Leave : Leave handlers 0
handlers-Leave = record { same = same; dicts = dicts }
  where
    same : (n payload : ℕ) (heap : Heap) → (handlers n payload heap).1 0 ≡ heap 0
    same zero payload heap = refl
    same (suc n) payload heap = refl

    dicts :
        (n payload a : ℕ) (heap : Heap) → is_dict ((handlers n payload heap).1 a) ≡ is_dict (heap a)
    dicts zero payload a heap = refl
    dicts (suc n) payload a heap = refl

run_pipeline-Ran_example :
    let (results, p, last) = run_pipeline handlers 0 steps start empty_dicts in
    (end : Dict Value) × (last 0 ≡ Object.dict end) × Ran handlers start 0 steps [] results end
run_pipeline-Ran_example =
    run_pipeline-Ran handlers 0 steps start empty_dicts handlers-Leave
      ((refl, refl), ((refl, refl), ((refl, refl), ((refl, refl), tt))))
