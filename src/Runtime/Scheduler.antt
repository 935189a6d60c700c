-- ===== src/Runtime/Scheduler.antt =====
-- runtime/scheduler.py: where an operation is to run. The method in lower case is an argument, and so
-- are the estimated sizes of the positional arguments, which the code reads of the objects.
mod Tests
use Prim.Native.String.{◌++◌, slice}
use package.text.Mathlib.Text.{find?}
use cpip.Common.{
  ℕ, ◌+◌, ◌*◌, String, Bool, true, false, ◌||◌, Option, none, some, List, [], ◌∷◌, ltb, ◌==◌,
  if◌then◌else◌, ◌≡◌, refl, arith, ◌≤◌, ap,
}
use cpip.Client.Resolver.{mem, cloud_preferred_packages}

pub data SchedulerDecision : Type 0 where
  run_local : SchedulerDecision
  run_cloud : SchedulerDecision
  run_hybrid : SchedulerDecision
  run_gpu : SchedulerDecision

pub record ScheduleResult : Type 0 where
  pub decision : SchedulerDecision
  pub reason : String
  pub priority : ℕ

-- `method.split(".")[0]`
abbrev pub top_package : String → String
top_package method = elim (find? method ".") [ none ↦ method | some i ↦ slice method 0 i ]

abbrev pub contains_any : String → List String → Bool
contains_any s [] = false
contains_any s (t ∷ ts) = elim (find? s t) [ some i ↦ true | none ↦ contains_any s ts ]

abbrev pub gpu_methods : List String
gpu_methods = "cuda" ∷ "gpu" ∷ "to('cuda')" ∷ ".cuda()" ∷ "npu" ∷ []

abbrev pub gpu_packages : List String
gpu_packages = "torch" ∷ "tensorflow" ∷ "jax" ∷ "cupy" ∷ []

unfoldable pub needs_gpu : String → String → Bool
needs_gpu method lower = mem (top_package method) gpu_packages || contains_any lower gpu_methods

abbrev pub total : List ℕ → ℕ
total [] = 0
total (n ∷ ns) = n + total ns

unfoldable pub is_large_operation : List ℕ → Bool
is_large_operation sizes = ltb (100 * 1024 * 1024) (total sizes)

unfoldable pub schedule : Bool → String → String → List ℕ → ScheduleResult
schedule has_gpu method lower sizes =
    if needs_gpu method lower
    then (if has_gpu
        then record {
          decision = SchedulerDecision.run_local;
          reason = "Local GPU available";
          priority = 5;
        }
        else record {
          decision = SchedulerDecision.run_gpu;
          reason = "GPU operation → cloud GPU";
          priority = 2;
        })
    else if mem (top_package method) cloud_preferred_packages
    then record {
      decision = SchedulerDecision.run_cloud;
      reason = top_package method ++ " is cloud-preferred";
      priority = 3;
    }
    else if is_large_operation sizes
    then record {
      decision = SchedulerDecision.run_cloud;
      reason = "Large data operation";
      priority = 4;
    }
    else record {
      decision = SchedulerDecision.run_local;
      reason = "Standard local execution";
      priority = 8;
    }
