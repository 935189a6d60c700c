-- ===== src/Agent/Orchestrator.antt =====
-- agent/orchestrator.py: class Orchestrator. A handler is a number, and what it does with a payload is
-- a parameter: it returns or raises, and may change any object that it reaches. Objects are kept in a
-- heap, by their addresses, since the payloads, the results and the context of a pipeline share
-- them. New ids and the address of a new dict are arguments; a handler that calls the orchestrator itself
-- is not modelled.
pub mod Shared
pub mod Pipelines
use Prim.Native.String.{◌++◌ as ◌<>◌}
use cpip.Common.{
  ℕ, String, Bool, true, false, ◌||◌, Option, some, none, List, [], ◌∷◌, ◌++◌, ◌==◌, if◌then◌else◌,
  eqb,
}
use cpip.Common.Dict
use cpip.Common.Dict.{Dict}

-- A value is a constant or the address of an object, which is a dict or a list.
pub data Value : Type 0 where
  none_value : Value
  boolean : Bool → Value
  number : ℕ → Value
  text : String → Value
  ref : ℕ → Value

pub data Object : Type 0 where
  dict : Dict Value → Object
  list : List Value → Object

abbrev pub Heap : Type 0
Heap = ℕ → Object

abbrev pub write : Heap → ℕ → Object → Heap
write heap a object b = if eqb a b then object else heap b

abbrev pub with_item : Object → String → Value → Object
with_item (Object.dict d) key v = Object.dict (Dict.put d key v)
with_item (Object.list vs) key v = Object.list vs

-- `d[key] = v` for the dict at an address.
abbrev pub set_item : Heap → ℕ → String → Value → Heap
set_item heap a key v = write heap a (with_item (heap a) key v)

pub data Status : Type 0 where
  pending : Status
  running : Status
  completed : Status
  failed : Status

pub record AgentTask : Type 0 where
  pub id : String
  pub name : String
  pub status : Status
  pub result : Value
  pub error : String

pub record Agent : Type 0 where
  pub id : String
  pub name : String
  pub capabilities : List String
  pub handler : Option ℕ

pub record Orchestrator : Type 0 where
  pub agents : Dict Agent
  pub tasks : Dict AgentTask

-- What the call of a handler gives, besides the objects that it changes.
pub data Handled : Type 0 where
  returned : Value → Handled
  raised : String → Handled

abbrev pub Handlers : Type 0
Handlers = ℕ → ℕ → Heap → Handled × Heap

unfoldable pub register_agent : Agent → Orchestrator → Orchestrator
register_agent agent o = record o { agents = Dict.put o.agents agent.id agent }

unfoldable pub unregister_agent : String → Orchestrator → Orchestrator
unregister_agent agent_id o = record o { agents = Dict.remove o.agents agent_id }

abbrev pub member : String → List String → Bool
member x [] = false
member x (y ∷ ys) = x == y || member x ys

unfoldable pub first_capable : String → List Agent → Option Agent
first_capable capability [] = none
first_capable capability (agent ∷ agents) =
    if member capability agent.capabilities then some agent else first_capable capability agents

abbrev pub first : List Agent → Option Agent
first [] = none
first (agent ∷ agents) = some agent

unfoldable pub find_agent : Orchestrator → String → Option Agent
find_agent o capability =
    if capability == ""
    then first (Dict.values o.agents)
    else first_capable capability (Dict.values o.agents)

abbrev pub new_task : String → String → AgentTask
new_task id name = record {
  id = id;
  name = name;
  status = Status.pending;
  result = Value.none_value;
  error = "";
}

abbrev pub no_agent : String → String → String
no_agent capability task_name =
    "No agent available for: " <> (if capability == "" then task_name else capability)

abbrev pub with_handled : AgentTask → Handled → AgentTask
with_handled task (Handled.returned v) = record task { status = Status.completed; result = v }
with_handled task (Handled.raised message) = record task { status = Status.failed; error = message }

-- The handler of the agent that is chosen, if there is one.
abbrev pub handler_for : Orchestrator → String → Option ℕ
handler_for o capability = elim (find_agent o capability) [
  | none ↦ none
  | some agent ↦ agent.handler
]

abbrev pub called : Handlers → Option ℕ → String → AgentTask → ℕ → Heap → AgentTask × Heap
called handlers none capability task payload heap =
    (record task { status = Status.failed; error = no_agent capability task.name }, heap)
called handlers (some handler) capability task payload heap =
    let (handled, after) = handlers handler payload heap in (with_handled task handled, after)

-- The task is the object that the dict has, so its changes are those of the dict's.
unfoldable pub submit_task :
    Handlers → String → String → ℕ → String → Orchestrator → Heap → AgentTask × Orchestrator × Heap
submit_task handlers id task_name payload capability o heap =
    let (task, after) =
      called handlers (handler_for o capability) capability (new_task id task_name) payload heap in
    (task, record o { tasks = Dict.put o.tasks id task }, after)

-- The payload is the address of a dict.
pub record Step : Type 0 where
  pub id : String
  pub name : String
  pub payload : ℕ
  pub capability : String

abbrev pub is_completed : Status → Bool
is_completed Status.completed = true
is_completed _ = false

-- `payload["_context"] = context`: not a copy of the results so far, but their dict itself.
abbrev pub with_context : Step → ℕ → Heap → Heap
with_context step context heap = set_item heap step.payload "_context" (Value.ref context)

unfoldable pub run_steps :
    Handlers → ℕ → List Step → Orchestrator → Heap → List AgentTask × Orchestrator × Heap
run_steps handlers context [] o heap = ([], o, heap)
run_steps handlers context (step ∷ steps) o heap =
    let (task, o1, after) =
      submit_task handlers step.id step.name step.payload step.capability o
        (with_context step context heap) in
    let (results, end, last) =
      run_steps handlers context steps o1 (set_item after context step.name task.result) in
    elim (is_completed task.status) [
      | true ↦ (task ∷ results, end, last)
      | false ↦ (task ∷ [], o1, after)
    ]

-- `context` is the address of a new dict.
unfoldable pub run_pipeline :
    Handlers → ℕ → List Step → Orchestrator → Heap → List AgentTask × Orchestrator × Heap
run_pipeline handlers context steps o heap =
    run_steps handlers context steps o (write heap context (Object.dict []))
