-- ===== src/Agent/Orchestrator/Pipelines.antt =====
-- agent/orchestrator.py: the results of a pipeline, and the dict that its steps share.
use cpip.Common.{
  ℕ, ◌≡◌, refl, sym, ap, ◌∙◌, Bool, true, false, some, List, [], ◌∷◌, arith, eqb, String, All,
}
use cpip.Common.Dict
use cpip.Common.Dict.{Dict, get-put}
use cpip.Agent.Orchestrator.{
  Value, Object, Heap, write, set_item, with_item, AgentTask, Orchestrator, Handlers, Step,
  submit_task, run_steps, run_pipeline, is_completed, with_context, handler_for, new_task, called,
}
use cpip.Agent.Orchestrator.Shared.{
  is_dict, item, Leave, Payload, call_of-Completes, call_of-Fails, Ran, is_dict-set_item,
  item-set_item, eqb_self, called-Leave, handler_for-agents, payloads_later, Ends,
}

module _ (handlers : Handlers) (o : Orchestrator) (context : ℕ)
    (leave : Leave handlers context) where
  with_context-context :
      (step : Step) (heap : Heap)
      → eqb step.payload context ≡ false
      → with_context step context heap context ≡ heap context
  with_context-context step heap n = rw n refl

  set_item-context :
      (heap : Heap) (d : Dict Value) (key : String) (v : Value)
      → heap context ≡ Object.dict d
      → set_item heap context key v context ≡ Object.dict (Dict.put d key v)
  set_item-context heap d key v e =
      rw (eqb_self context) (ap (λ (object : Object). with_item object key v) e)

  step-Ends :
      (step : Step) (steps : List Step) (p : Orchestrator) (heap : Heap) (d : Dict Value)
      → ((q : Orchestrator) (next : Heap) (later : Dict Value)
          → q.agents ≡ o.agents
          → next context ≡ Object.dict later
          → All (Payload context next) steps
          → Ends handlers o context steps later (run_steps handlers context steps q next))
      → p.agents ≡ o.agents
      → heap context ≡ Object.dict d
      → All (Payload context heap) (step ∷ steps)
      → Ends handlers o context (step ∷ steps) d (run_steps handlers context (step ∷ steps) p heap)
  unfolding run_steps submit_task
  step-Ends step steps p heap d go_on a e h = go (is_completed task.status) refl
    where
      before : Heap
      before = with_context step context heap

      ended : AgentTask × Heap
      ended =
          called handlers (handler_for p step.capability) step.capability
            (new_task step.id step.name) step.payload before

      task : AgentTask
      task = ended.0

      after : Heap
      after = ended.1

      before-context : before context ≡ Object.dict d
      before-context = with_context-context step heap h.0.0 ∙ e

      kept : (after context ≡ before context) × ((x : ℕ) → is_dict (after x) ≡ is_dict (before x))
      kept =
          called-Leave handlers context (handler_for p step.capability) step.capability
            (new_task step.id step.name) step.payload before leave

      handler : handler_for o step.capability ≡ handler_for p step.capability
      handler = sym (handler_for-agents o p step.capability a)

      next : Heap
      next = set_item after context step.name task.result

      o1 : Orchestrator
      o1 = record p { tasks = Dict.put p.tasks step.id task }

      reference : item (before step.payload) "_context" ≡ some (Value.ref context)
      reference = item-set_item heap step.payload "_context" (Value.ref context) h.0.1

      later :
          Ends handlers o context steps
            (Dict.put d step.name task.result)
            (run_steps handlers context steps o1 next)
      later =
          go_on o1 next (Dict.put d step.name task.result) a
            (set_item-context after d step.name task.result (kept.0 ∙ before-context))
            (payloads_later context heap next steps
              (λ x.
                is_dict-set_item after context x step.name task.result
                ∙ kept.1 x
                ∙ is_dict-set_item heap step.payload x "_context" (Value.ref context))
              h.1)

      rest : List AgentTask × Orchestrator × Heap
      rest = run_steps handlers context steps o1 next

      go :
          (b : Bool)
          → is_completed task.status ≡ b
          → Ends handlers o context
              (step ∷ steps)
              d
              (elim b [ true ↦ (task ∷ rest.0, rest.1, rest.2) | false ↦ (task ∷ [], o1, after) ])
      go true c = (
        later.0,
        later.1,
        Ran.completed before task before-context reference
            (call_of-Completes handlers o step before (handler_for p step.capability) handler c)
            later.2,
      )
      go false c = (
        d,
        kept.0 ∙ before-context,
        Ran.stopped before task before-context reference
            (call_of-Fails handlers o step before (handler_for p step.capability) handler c),
      )

  steps-Ends :
      (steps : List Step) (p : Orchestrator) (heap : Heap) (d : Dict Value)
      → p.agents ≡ o.agents
      → heap context ≡ Object.dict d
      → All (Payload context heap) steps
      → Ends handlers o context steps d (run_steps handlers context steps p heap)
  unfolding run_steps
  steps-Ends [] p heap d a e h = (d, e, Ran.over)
  steps-Ends (step ∷ steps) p heap d a e h =
      step-Ends step steps p heap d (λ q next later. steps-Ends steps q next later) a e h

payloads_new :
    (context : ℕ) (heap : Heap) (object : Object) (steps : List Step)
    → All (Payload context heap) steps
    → All (Payload context (write heap context object)) steps
payloads_new context heap object [] h = tt
payloads_new context heap object (step ∷ steps) h =
    ((h.0.0, new step.payload h.0.0 h.0.1), payloads_new context heap object steps h.1)
  where
    new :
        (a : ℕ)
        → eqb a context ≡ false
        → is_dict (heap a) ≡ true
        → is_dict (write heap context object a) ≡ true
    new a n t = ground (arith, n, t)

-- Where the payloads are dicts and the handlers leave the dict of the context alone, a pipeline answers
-- one task for each step, up to the first step that has no agent or whose handler raises. Each handler is
-- called where its payload refers to the one dict of the context, and this has the results of the steps
-- before it, under their names; in the end the dict, which all these payloads refer to, has the results
-- of all steps that completed.
pub run_pipeline-Ran :
    (handlers : Handlers) (context : ℕ) (steps : List Step) (o : Orchestrator) (heap : Heap)
    → Leave handlers context
    → All (Payload context heap) steps
    → let (results, p, last) = run_pipeline handlers context steps o heap in
      (end : Dict Value) × (last context ≡ Object.dict end)
      × Ran handlers o context steps [] results end
unfolding run_pipeline
run_pipeline-Ran handlers context steps o heap leave h =
    steps-Ends handlers o context leave steps o (write heap context (Object.dict [])) [] refl
      (rw (eqb_self context) refl) (payloads_new context heap (Object.dict []) steps h)
