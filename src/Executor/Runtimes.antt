-- ===== src/Executor/Runtimes.antt =====
-- executor/gpu_runtime.py and executor/browser_runtime.py: code for the sandbox. The texts `repr` of
-- the arguments are given.
use Prim.Native.Char.{Char, code}
use Prim.Native.String.{◌++◌}
use cpip.Common.{ℕ, String, Bool, true, false, ◌&&◌, ◌||◌, List, ◌==◌, eqb, leb, if◌then◌else◌}
use cpip.Executor.Sandbox as Sandbox
use cpip.Executor.Sandbox.{SandboxConfig, SandboxResult, default_config, Docker}

-- A call that is to be executed: `repr` of its arguments, and `kwargs.get("script", "")`.
pub record Invocation : Type 0 where
  pub method : String
  pub args : String
  pub kwargs : String
  pub script : String

-- `[a-zA-Z0-9_\.]`
abbrev pub is_method_char : Char → Bool
is_method_char c =
    let n = code c in
    (leb b'a' n && leb n b'z')
    || (leb b'A' n && leb n b'Z')
    || (leb b'0' n && leb n b'9')
    || eqb n b'_'
    || eqb n b'.'

-- The rest of a match of `[...]+$` after its first character; `$` also stands before a last newline.
unfoldable pub all_method_chars : String → Bool
all_method_chars String.[] = true
all_method_chars (String.◌∷◌ c s) =
    (is_method_char c && all_method_chars s) || (eqb (code c) 10 && s == "")

unfoldable pub is_valid_method : String → Bool
is_valid_method String.[] = false
is_valid_method (String.◌∷◌ c s) = is_method_char c && all_method_chars s

-- The result and the containers that were killed, or the ValueError of the validation.
pub data Ran : Type 0 where
  ran : SandboxResult × List String → Ran
  invalid_method : Ran

-- `uuid` and `duration` are those of the sandbox.
abbrev pub torch_code : Invocation → String
torch_code inv =
    "\nimport torch, json, sys\nresult = "
    ++ (inv.method
        ++ ("(*"
            ++ (inv.args
                ++ (", **"
                    ++ (inv.kwargs
                        ++ ")\nif hasattr(result, 'tolist'): result = result.tolist()\nprint(json.dumps({\"result\": result}))\n")))))

abbrev pub tf_code : Invocation → String
tf_code inv =
    "\nimport tensorflow as tf, json\nresult = "
    ++ (inv.method
        ++ ("(*"
            ++ (inv.args
                ++ (", **"
                    ++ (inv.kwargs
                        ++ ")\nif hasattr(result, 'numpy'): result = result.numpy().tolist()\nprint(json.dumps({\"result\": result}))\n")))))

abbrev pub torch_config : SandboxConfig
torch_config = record default_config {
  gpu = true;
  image = "pytorch/pytorch:latest";
  memory_limit = "8g";
}

abbrev pub tensorflow_config : SandboxConfig
tensorflow_config = record default_config {
  gpu = true;
  image = "tensorflow/tensorflow:latest-gpu";
  memory_limit = "8g";
}

unfoldable pub execute_torch : Docker → String → ℕ → Invocation → Ran
execute_torch docker uuid duration inv =
    if is_valid_method inv.method
    then Ran.ran (Sandbox.execute docker uuid duration (torch_code inv) torch_config)
    else Ran.invalid_method

unfoldable pub execute_tensorflow : Docker → String → ℕ → Invocation → Ran
execute_tensorflow docker uuid duration inv =
    if is_valid_method inv.method
    then Ran.ran (Sandbox.execute docker uuid duration (tf_code inv) tensorflow_config)
    else Ran.invalid_method

abbrev pub browser_config : SandboxConfig
browser_config = record default_config {
  image = "mcr.microsoft.com/playwright/python:latest";
  network = true;
  memory_limit = "4g";
  timeout = 120;
}

unfoldable pub run_playwright : Docker → String → ℕ → String → SandboxResult × List String
run_playwright docker uuid duration script =
    Sandbox.execute docker uuid duration script browser_config
