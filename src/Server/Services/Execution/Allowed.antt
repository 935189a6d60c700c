-- ===== src/Server/Services/Execution/Allowed.antt =====
-- server/services/execution_service.py: what is not executed, and what is not cancelled.
use mathlib.Core.Path.{subst}
use text.Mathlib.TextEquality.{eq_iff}
use cpip.Common.{
  ℕ, ◌≡◌, refl, sym, ap, inl, inr, String, Bool, true, false, some, List, [], ◌∷◌, if◌then◌else◌,
  arith, Option-cases,
}
use cpip.Common.Dict
use cpip.Common.Dict.{Dict, get-put}
use cpip.Server.Services.Execution.{
  ExecutionStatus, ExecutionRequest, ExecutionResult, Called, Results, Call, allowed_modules,
  allowed, execute_parts, method_parts, outcome, execute, get_result, is_active, cancel,
}

-- The module of a method, the part before its first dot, if it has one.
abbrev pub first_allowed : List String → Bool
first_allowed (m ∷ attr ∷ attrs) = allowed m allowed_modules
first_allowed _ = false

else_branch {ℓ} : {A : Type ℓ} (x y : A) (b : Bool) → b ≡ false → (if b then x else y) ≡ y
else_branch x y true e = absurd (cc e)
else_branch x y false e = refl

parts_refused :
    (call call' : Call) (req : ExecutionRequest) (parts : List String)
    → first_allowed parts ≡ false
    → (execute_parts call req parts ≡ execute_parts call' req parts)
      × ((message : String) × (traceback : String) × (execute_parts call req parts
            ≡ Called.raised message traceback))
unfolding execute_parts
parts_refused call call' req [] e = (refl, (_, _, refl))
parts_refused call call' req (m ∷ []) e = (refl, (_, _, refl))
parts_refused call call' req (m ∷ attr ∷ attrs) e =
    (ground (arith, e), (_, _, else_branch _ _ (allowed m allowed_modules) e))

-- A method whose module is not on the list, or that names none, is not executed: it fails, and alike
-- whatever an import or a call would do.
pub execute_refused :
    (call call' : Call) (duration : ℕ) (req : ExecutionRequest) (results : Results)
    → first_allowed (method_parts req) ≡ false
    → ((execute call duration req results).0.status ≡ ExecutionStatus.failed)
      × (execute call duration req results ≡ execute call' duration req results)
unfolding execute
execute_refused call call' duration req results e = (
  ap (λ (c : Called). (outcome req duration c).status)
      (parts_refused call call' req (method_parts req) e).1.2,
  ap
      (λ (c : Called).
        (outcome req duration c, Dict.put results req.request_id (outcome req duration c)))
      (parts_refused call call' req (method_parts req) e).0,
)

-- The results that are there after executions and cancellations.
pub data Run : Results → Type 0 where
  started : Run []
  executed :
      {results : Results} (call : Call) (duration : ℕ) (req : ExecutionRequest)
      → Run results
      → Run (execute call duration req results).1
  cancelled : {results : Results} (id : String) → Run results → Run (cancel id results)

abbrev Over : Results → Type 0
Over results =
    (id : String) (r : ExecutionResult)
    → get_result results id ≡ some r
    → is_active r.status ≡ false

outcome-is_active :
    (req : ExecutionRequest) (duration : ℕ) (c : Called)
    → is_active (outcome req duration c).status ≡ false
outcome-is_active req duration (Called.returned v) = refl
outcome-is_active req duration (Called.raised message traceback) = refl

put-Over :
    (results : Results) (k : String) (x : ExecutionResult)
    → is_active x.status ≡ false
    → Over results
    → Over (Dict.put results k x)
put-Over results k x a o id r h = ground (arith, h, a, o id r, get-put results k id x, eq_iff k id)

cancel-Over : (results : Results) (id : String) → Over results → cancel id results ≡ results
unfolding cancel
cancel-Over results id o = elim (Option-cases (Dict.get results id)) [
  | inl e ↦ ground (arith, e)
  | inr (r, e) ↦ ground (arith, e, o id r e)
]

nil-Over : Over []
unfolding Dict.get
nil-Over id r h = absurd (cc h)

Run-Over : (results : Results) → Run results → Over results
unfolding execute
Run-Over _ Run.started = nil-Over
Run-Over _ (Run.executed {results} call duration req r) =
    put-Over results req.request_id _
      (outcome-is_active req duration (execute_parts call req (method_parts req)))
      (Run-Over results r)
Run-Over _ (Run.cancelled {results} id r) =
    subst Over (sym (cancel-Over results id (Run-Over results r))) (Run-Over results r)

-- A cancellation never changes anything: an execution is recorded only when it is over.
pub cancel_idle : (results : Results) (id : String) → Run results → cancel id results ≡ results
cancel_idle results id r = cancel-Over results id (Run-Over results r)
