-- ===== src/Executor/Routing/Tests.antt =====
-- Runs of executor/pool.py: a call of torch, one of jax in the mode of the GPU, and an invalid name.
use cpip.Common.{◌≡◌, refl, String, Bool, true, false, List, [], ◌∷◌, ◌==◌, if◌then◌else◌}
use cpip.Executor.Sandbox as Sandbox
use cpip.Executor.Sandbox.{Process, SandboxResult, Docker, options}
use cpip.Executor.Runtimes.{
  Invocation, Ran, execute_torch, execute_tensorflow, run_playwright, is_valid_method,
  all_method_chars,
}
use cpip.Executor.Routing.{needs_gpu, module_of, build_code, execute}
use cpip.Executor.Routing.Isolation.{Isolated, execute-Isolated}
use cpip.Runtime.Scheduler as Scheduler
use cpip.Runtime.Scheduler.{SchedulerDecision}

program : Unit {0}
unfolding Sandbox.execute options execute_torch execute_tensorflow run_playwright is_valid_method
    all_method_chars needs_gpu module_of build_code execute Scheduler.schedule Scheduler.needs_gpu
program = tt

-- Whether a command asks for a GPU.
abbrev asks : List String → Bool
asks [] = false
asks (arg ∷ args) = if arg == "--gpus" then true else asks args

abbrev docker : Docker
docker args timeout = Process.finished 0 (if asks args then "GPU" else "no GPU") ""

abbrev call : String → Invocation
call method = record { method = method; args = "[1]"; kwargs = "{}"; script = "" }

abbrev output : Ran → String
output (Ran.ran (r, killed)) = r.stdout
output Ran.invalid_method = "invalid"

-- A method of jax, which the scheduler sends to a GPU of the cloud, runs there without one.
test_gpu :
    ((Scheduler.schedule false "jax.jit" "jax.jit" []).decision ≡ SchedulerDecision.run_gpu)
    × (output (execute docker "0a1b2c3d" 5 "gpu" "jax.jit" (call "jax.jit")) ≡ "no GPU")
    × (output (execute docker "0a1b2c3d" 5 "gpu" "torch.ones" (call "torch.ones")) ≡ "GPU")
    × (output (execute docker "0a1b2c3d" 5 "cloud" "torch.ones;" (call "torch.ones;")) ≡ "invalid")
unfolding program
test_gpu = (refl, refl, refl, refl)

test_build_code :
    build_code (call "math.sqrt")
    ≡ "import math; import json; r = math.sqrt(*[1], **{}); print(json.dumps({'result': str(r)}))"
unfolding program
test_build_code = refl

execute-Isolated_example :
    Isolated docker "0a1b2c3d" 5
      (call "jax.jit")
      (execute docker "0a1b2c3d" 5 "gpu" "jax.jit" (call "jax.jit"))
execute-Isolated_example = execute-Isolated docker "0a1b2c3d" 5 (call "jax.jit") "gpu" "jax.jit"
