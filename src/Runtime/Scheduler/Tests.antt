-- ===== src/Runtime/Scheduler/Tests.antt =====
-- Runs of runtime/scheduler.py.
use cpip.Common.{◌≡◌, refl, true, false, [], ◌∷◌}
use cpip.Runtime.Scheduler.{SchedulerDecision, schedule, needs_gpu, is_large_operation}

program : Unit {0}
unfolding schedule needs_gpu is_large_operation
program = tt

test_gpu : (schedule false "torch.tensor" "torch.tensor" []).decision ≡ SchedulerDecision.run_gpu
unfolding program
test_gpu = refl

test_preferred : (schedule true "scipy.linalg" "scipy.linalg" []).priority ≡ 3
unfolding program
test_preferred = refl

test_large : (schedule true "math.sqrt" "math.sqrt" (100_000_000 ∷ 9_000_000 ∷ [])).priority ≡ 4
unfolding program
test_large = refl

test_local : (schedule true "math.sqrt" "math.sqrt" (8 ∷ [])).decision ≡ SchedulerDecision.run_local
unfolding program
test_local = refl
