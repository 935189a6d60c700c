-- ===== src/Executor/Routing.antt =====
-- executor/pool.py: class ExecutionPool, which routes an execution to a runtime. The method in lower
-- case is an argument.
pub mod Isolation
mod Tests
use Prim.Native.Char.{code}
use Prim.Native.String.{◌++◌}
use cpip.Common.{
  ℕ, String, Bool, true, false, ◌||◌, Option, some, none, List, [], ◌∷◌, ◌==◌, eqb, if◌then◌else◌,
}
use cpip.Runtime.Scheduler.{contains_any}
use cpip.Executor.Sandbox as Sandbox
use cpip.Executor.Sandbox.{default_config, Docker}
use cpip.Executor.Runtimes.{Invocation, Ran, execute_torch, execute_tensorflow, run_playwright}

-- `t in s`
abbrev pub contains : String → String → Bool
contains s t = contains_any s (t ∷ [])

unfoldable pub needs_gpu : String → Bool
needs_gpu lower = contains_any lower ("torch" ∷ "cuda" ∷ "tensorflow" ∷ "jax" ∷ "cupy" ∷ [])

-- The part of `method.rsplit(".", 1)` in front of the last dot, if there is one.
unfoldable pub module_of : String → Option String
module_of String.[] = none
module_of (String.◌∷◌ c s) =
    let rest = module_of s in
    elim rest [
      | some before ↦ some (String.◌∷◌ c before)
      | none ↦ if eqb (code c) b'.' then some String.[] else none
    ]

unfoldable pub build_code : Invocation → String
build_code inv = elim (module_of inv.method) [
  | none ↦ "import json; print(json.dumps({'result': 'no-op'}))"
  | some name ↦
      "import "
      ++ (name
          ++ ("; import json; r = "
              ++ (inv.method
                  ++ ("(*"
                      ++ (inv.args
                          ++ (", **"
                              ++ (inv.kwargs ++ "); print(json.dumps({'result': str(r)}))")))))))
]

-- The end of `execute`, past the runtimes of the GPU.
abbrev pub without_gpu : Docker → String → ℕ → String → Invocation → Ran
without_gpu docker uuid duration mode inv =
    if mode == "browser" || contains inv.method "playwright"
    then Ran.ran (run_playwright docker uuid duration inv.script)
    else Ran.ran (Sandbox.execute docker uuid duration (build_code inv) default_config)

unfoldable pub execute : Docker → String → ℕ → String → String → Invocation → Ran
execute docker uuid duration mode lower inv =
    if mode == "gpu" || needs_gpu lower
    then (if contains inv.method "torch"
        then execute_torch docker uuid duration inv
        else if contains inv.method "tensorflow" || contains inv.method "tf."
        then execute_tensorflow docker uuid duration inv
        else without_gpu docker uuid duration mode inv)
    else without_gpu docker uuid duration mode inv
