-- ===== src/Executor/Sandbox.antt =====
-- executor/sandbox.py: class Sandbox, the run of a text of code in a new container. What docker does
-- with a command is a parameter; the name of the container and the duration are arguments.
use Prim.Native.String.{◌++◌ as ◌<>◌}
use cpip.Common.{ℕ, String, Bool, false, List, [], ◌∷◌, ◌++◌, eqb, if◌then◌else◌}

-- `cpu_limit` is the text of the number.
pub record SandboxConfig : Type 0 where
  pub memory_limit : String
  pub cpu_limit : String
  pub timeout : ℕ
  pub network : Bool
  pub gpu : Bool
  pub image : String

abbrev pub default_config : SandboxConfig
default_config = record {
  memory_limit = "4g";
  cpu_limit = "4.0";
  timeout = 600;
  network = false;
  gpu = false;
  image = "python:3.11-slim";
}

pub record SandboxResult : Type 0 where
  pub success : Bool
  pub stdout : String
  pub stderr : String
  pub duration : ℕ
  pub exit_code : ℕ

-- How `subprocess.run` ends: with the exit code and both outputs, by its time, or by another error.
pub data Process : Type 0 where
  finished : ℕ → String → String → Process
  timed_out : Process
  raised : String → Process

abbrev pub network_args : SandboxConfig → List String
network_args cfg = if cfg.network then [] else "--network=none" ∷ []

abbrev pub gpu_args : SandboxConfig → List String
gpu_args cfg = if cfg.gpu then "--gpus" ∷ "all" ∷ [] else []

-- The options of `docker run`, in front of the image.
unfoldable pub options : SandboxConfig → String → List String
options cfg container_name =
    ("--name"
      ∷ container_name
      ∷ ("--memory=" <> cfg.memory_limit)
      ∷ ("--cpus=" <> cfg.cpu_limit)
      ∷ "--read-only"
      ∷ "--tmpfs"
      ∷ "/tmp:rw,noexec,nosuid,size=256m"
      ∷ [])
    ++ (network_args cfg ++ gpu_args cfg)

abbrev pub command : SandboxConfig → String → String → List String
command cfg container_name code =
    "docker"
    ∷ "run"
    ∷ "--rm"
    ∷ (options cfg container_name ++ (cfg.image ∷ "python" ∷ "-c" ∷ code ∷ []))

abbrev pub Docker : Type 0
Docker = List String → ℕ → Process

-- The result of an ended process, and the names of the containers that are killed.
abbrev pub ended : SandboxConfig → String → ℕ → Process → SandboxResult × List String
ended cfg container_name duration (Process.finished code out err) = (
  record {
    success = eqb code 0;
    stdout = out;
    stderr = err;
    duration = duration;
    exit_code = code;
  },
  [],
)
ended cfg container_name duration Process.timed_out = (
  record {
    success = false;
    stdout = "";
    stderr = "Execution timed out";
    duration = cfg.timeout;
    exit_code = 0;
  },
  container_name ∷ [],
)
ended cfg container_name duration (Process.raised message) = (
  record { success = false; stdout = ""; stderr = message; duration = duration; exit_code = 0 },
  [],
)

-- `uuid` are eight hexadecimal digits.
unfoldable pub execute : Docker → String → ℕ → String → SandboxConfig → SandboxResult × List String
execute docker uuid duration code cfg =
    let container_name = "cpip-exec-" <> uuid in
    ended cfg container_name duration (docker (command cfg container_name code) cfg.timeout)
