-- ===== src/Agent/Orchestrator/Shared.antt =====
-- agent/orchestrator.py: the objects that the steps of a pipeline share.
use cpip.Common.{
  ℕ, ◌≡◌, refl, ◌∙◌, String, Bool, true, false, Option, some, none, List, [], ◌∷◌, arith, eqb, All,
  eq_refl,
}
use cpip.Common.Dict
use cpip.Common.Dict.{Dict, get-put}
use cpip.Agent.Orchestrator.{
  Value, Object, Heap, set_item, with_item, Status, AgentTask, Orchestrator, Handled, Handlers,
  Step, is_completed, handler_for, new_task, no_agent, called, with_handled, find_agent,
}

abbrev pub is_dict : Object → Bool
is_dict (Object.dict d) = true
is_dict (Object.list vs) = false

abbrev pub item : Object → String → Option Value
item (Object.dict d) key = Dict.get d key
item (Object.list vs) key = none

-- Handlers that leave the dict of the context alone; in any case a dict stays a dict.
pub record Leave (handlers : Handlers) (context : ℕ) : Type 0 where
  pub same :
      (handler payload : ℕ) (heap : Heap) → (handlers handler payload heap).1 context ≡ heap context
  pub dicts :
      (handler payload a : ℕ) (heap : Heap)
      → is_dict ((handlers handler payload heap).1 a) ≡ is_dict (heap a)

-- The payload of a step is a dict, and not the new one of the context.
abbrev pub Payload : ℕ → Heap → Step → Type 0
Payload context heap step =
    (eqb step.payload context ≡ false) × (is_dict (heap step.payload) ≡ true)

-- A step completes if it has a handler, which returns: then with its result.
pub data Completes (handlers : Handlers) (o : Orchestrator) (step : Step) (heap : Heap)
    : AgentTask → Type 0 where
  returns :
      (handler : ℕ) (v : Value)
      → handler_for o step.capability ≡ some handler
      → (handlers handler step.payload heap).0 ≡ Handled.returned v
      → Completes handlers o step heap
          (record (new_task step.id step.name) { status = Status.completed; result = v })

-- It fails if it has none or this raises: then with an error.
pub data Fails (handlers : Handlers) (o : Orchestrator) (step : Step) (heap : Heap)
    : AgentTask → Type 0 where
  has_none :
      handler_for o step.capability ≡ none
      → Fails handlers o step heap (record (new_task step.id step.name) {
        status = Status.failed;
        error = no_agent step.capability step.name;
      })
  raises :
      (handler : ℕ) (message : String)
      → handler_for o step.capability ≡ some handler
      → (handlers handler step.payload heap).0 ≡ Handled.raised message
      → Fails handlers o step heap
          (record (new_task step.id step.name) { status = Status.failed; error = message })

abbrev pub call_of : Handlers → Option ℕ → Step → Heap → AgentTask × Heap
call_of handlers h step heap =
    called handlers h step.capability (new_task step.id step.name) step.payload heap

pub call_of-Completes :
    (handlers : Handlers) (o : Orchestrator) (step : Step) (heap : Heap) (h : Option ℕ)
    → handler_for o step.capability ≡ h
    → is_completed (call_of handlers h step heap).0.status ≡ true
    → Completes handlers o step heap (call_of handlers h step heap).0
call_of-Completes handlers o step heap none e c = absurd (cc c)
call_of-Completes handlers o step heap (some handler) e c =
    go (handlers handler step.payload heap).0 refl c
  where
    go :
        (x : Handled)
        → (handlers handler step.payload heap).0 ≡ x
        → is_completed (with_handled (new_task step.id step.name) x).status ≡ true
        → Completes handlers o step heap (with_handled (new_task step.id step.name) x)
    go (Handled.returned v) same c = Completes.returns handler v e same
    go (Handled.raised message) same c = absurd (cc c)

pub call_of-Fails :
    (handlers : Handlers) (o : Orchestrator) (step : Step) (heap : Heap) (h : Option ℕ)
    → handler_for o step.capability ≡ h
    → is_completed (call_of handlers h step heap).0.status ≡ false
    → Fails handlers o step heap (call_of handlers h step heap).0
call_of-Fails handlers o step heap none e c = Fails.has_none e
call_of-Fails handlers o step heap (some handler) e c =
    go (handlers handler step.payload heap).0 refl c
  where
    go :
        (x : Handled)
        → (handlers handler step.payload heap).0 ≡ x
        → is_completed (with_handled (new_task step.id step.name) x).status ≡ false
        → Fails handlers o step heap (with_handled (new_task step.id step.name) x)
    go (Handled.returned v) same c = absurd (cc c)
    go (Handled.raised message) same c = Fails.raises handler message e same

-- The results of a pipeline from what the context has to what it has in the end. Each step is made where
-- its payload refers to the dict of the context and this has the results so far, and the first that does
-- not complete is the last.
pub data Ran (handlers : Handlers) (o : Orchestrator) (context : ℕ)
    : List Step → Dict Value → List AgentTask → Dict Value → Type 0 where
  over : {d : Dict Value} → Ran handlers o context [] d [] d
  completed :
      {step : Step} {steps : List Step} {d end : Dict Value} {results : List AgentTask}
      (heap : Heap) (task : AgentTask)
      → heap context ≡ Object.dict d
      → item (heap step.payload) "_context" ≡ some (Value.ref context)
      → Completes handlers o step heap task
      → Ran handlers o context steps (Dict.put d step.name task.result) results end
      → Ran handlers o context (step ∷ steps) d (task ∷ results) end
  stopped :
      {step : Step} {steps : List Step} {d : Dict Value} (heap : Heap) (task : AgentTask)
      → heap context ≡ Object.dict d
      → item (heap step.payload) "_context" ≡ some (Value.ref context)
      → Fails handlers o step heap task
      → Ran handlers o context (step ∷ steps) d (task ∷ []) d

is_dict-with_item :
    (object : Object) (key : String) (v : Value) → is_dict (with_item object key v) ≡ is_dict object
is_dict-with_item (Object.dict d) key v = refl
is_dict-with_item (Object.list vs) key v = refl

pub is_dict-set_item :
    (heap : Heap) (a b : ℕ) (key : String) (v : Value)
    → is_dict (set_item heap a key v b) ≡ is_dict (heap b)
is_dict-set_item heap a b key v = ground (arith, is_dict-with_item (heap a) key v)

item-with_item :
    (object : Object) (key : String) (v : Value)
    → is_dict object ≡ true
    → item (with_item object key v) key ≡ some v
item-with_item (Object.dict d) key v h = ground (arith, get-put d key key v, eq_refl key)
item-with_item (Object.list vs) key v h = absurd (cc h)

pub eqb_self : (n : ℕ) → eqb n n ≡ true
eqb_self n = ground arith

pub item-set_item :
    (heap : Heap) (a : ℕ) (key : String) (v : Value)
    → is_dict (heap a) ≡ true
    → item (set_item heap a key v a) key ≡ some v
item-set_item heap a key v h = rw (eqb_self a) (item-with_item (heap a) key v h)

pub called-Leave :
    (handlers : Handlers) (context : ℕ) (h : Option ℕ) (capability : String) (task : AgentTask)
    (payload : ℕ) (heap : Heap)
    → Leave handlers context
    → ((called handlers h capability task payload heap).1 context ≡ heap context)
      × ((a : ℕ)
          → is_dict ((called handlers h capability task payload heap).1 a) ≡ is_dict (heap a))
called-Leave handlers context none capability task payload heap l = (refl, λ a. refl)
called-Leave handlers context (some h) capability task payload heap l =
    (l.same h payload heap, λ a. l.dicts h payload a heap)

pub handler_for-agents :
    (o p : Orchestrator) (capability : String)
    → p.agents ≡ o.agents
    → handler_for p capability ≡ handler_for o capability
unfolding find_agent
handler_for-agents o p capability e = ground (arith, e)

pub payloads_later :
    (context : ℕ) (heap after : Heap) (steps : List Step)
    → ((a : ℕ) → is_dict (after a) ≡ is_dict (heap a))
    → All (Payload context heap) steps
    → All (Payload context after) steps
payloads_later context heap after [] same h = tt
payloads_later context heap after (step ∷ steps) same h =
    ((h.0.0, same step.payload ∙ h.0.1), payloads_later context heap after steps same h.1)

-- What steps answer: their tasks, and the context in the end.
abbrev pub Ends :
    Handlers
    → Orchestrator
    → ℕ
    → List Step
    → Dict Value
    → List AgentTask × Orchestrator × Heap
    → Type 0
Ends handlers o context steps d (results, p, heap) =
    (end : Dict Value) × (heap context ≡ Object.dict end)
    × Ran handlers o context steps d results end
