-- ===== src/Client/Resolver.antt =====
-- client/resolver.py: how a package is to be provided. What importlib, the registry's answer and `apt`
-- say are parameters; the registry's answer is what `_query_cloud` makes of it, `none` on any failure.
pub mod Offline
use Prim.Native.String.{◌++◌}
use cpip.Common.{
  ℕ, String, Bool, true, false, not, ◌&&◌, ◌||◌, Option, none, some, List, [], ◌∷◌, ◌==◌,
  if◌then◌else◌, select,
}
use cpip.Files.{Os, Result, ok, err}
use cpip.Client.Cache.State.{CacheManager}
use cpip.Client.Cache.Wheels.{get_wheel}

pub data PackageStrategy : Type 0 where
  local_install : PackageStrategy
  termux_pkg : PackageStrategy
  cloud_wheel : PackageStrategy
  cloud_build : PackageStrategy
  cloud_exec : PackageStrategy
  hybrid : PackageStrategy

abbrev pub strategy_value : PackageStrategy → String
strategy_value PackageStrategy.local_install = "local_install"
strategy_value PackageStrategy.termux_pkg = "termux_pkg"
strategy_value PackageStrategy.cloud_wheel = "cloud_wheel"
strategy_value PackageStrategy.cloud_build = "cloud_build"
strategy_value PackageStrategy.cloud_exec = "cloud_exec"
strategy_value PackageStrategy.hybrid = "hybrid"

-- `PackageInfo` of shared/models.py: what the client reads of it.
pub record PackageInfo : Type 0 where
  pub version : String
  pub strategy : PackageStrategy
  pub wheel_url : Option String
  pub wheel_hash : Option String
  pub requires_gpu : Bool

pub record PackageResolution : Type 0 where
  pub pkg : String
  pub version : String
  pub strategy : PackageStrategy
  pub info : Option PackageInfo
  pub fallback_strategies : List PackageStrategy
  pub reason : String

-- The settings and the system that the resolver reads, and what it asks others.
pub record Surroundings : Type 0 where
  pub offline_mode : Bool
  pub gpu_offload : Bool
  pub is_termux : Bool
  pub has_gpu : Bool
  pub is_installed : String → Bool
  pub installed_version : String → Option String
  pub query_cloud : String → String → Option PackageInfo
  pub has_termux_pkg : String → Bool

abbrev pub mem : String → List String → Bool
mem s [] = false
mem s (t ∷ ts) = t == s || mem s ts

abbrev pub cloud_preferred_packages : List String
cloud_preferred_packages =
    "torch" ∷ "torchvision" ∷ "torchaudio" ∷ "tensorflow" ∷ "tensorflow-gpu" ∷ "jax" ∷ "jaxlib"
    ∷ "opencv-python" ∷ "opencv-contrib-python" ∷ "scipy" ∷ "playwright" ∷ "chromium"
    ∷ "llama-cpp-python" ∷ "transformers" ∷ "diffusers" ∷ "triton" ∷ "cupy" ∷ "dlib" ∷ "mediapipe"
    ∷ "onnxruntime" ∷ "paddlepaddle" ∷ []

-- `v or default` on texts
abbrev pub text_or : String → String → String
text_or v default = if v == "" then default else v

abbrev pub is_strategy : PackageStrategy → PackageStrategy → Bool
is_strategy s t = strategy_value s == strategy_value t

abbrev pub plain :
    String → String → PackageStrategy → List PackageStrategy → String → PackageResolution
plain pkg version strategy fallbacks reason = record {
  pkg = pkg;
  version = version;
  strategy = strategy;
  info = none;
  fallback_strategies = fallbacks;
  reason = reason;
}

abbrev pub already_installed : String
already_installed = "Already installed locally"

unfoldable pub cloud_strategy : Surroundings → PackageInfo → PackageStrategy
cloud_strategy env info =
    if info.requires_gpu && (not env.has_gpu && env.gpu_offload)
    then PackageStrategy.hybrid
    else info.strategy

unfoldable pub cloud_resolution : Surroundings → String → String → PackageInfo → PackageResolution
cloud_resolution env pkg version info =
    let strategy = cloud_strategy env info in
    record {
      pkg = pkg;
      version = text_or info.version version;
      strategy = strategy;
      info = some info;
      fallback_strategies =
          select (λ (s : PackageStrategy). not (is_strategy s strategy))
            (PackageStrategy.cloud_exec ∷ PackageStrategy.cloud_build ∷ []);
      reason = "Cloud registry: " ++ strategy_value strategy;
    }

-- What follows where the registry is not asked or knows nothing.
unfoldable pub resolve_local : Surroundings → String → String → PackageResolution
resolve_local env pkg version =
    if env.is_termux && env.has_termux_pkg pkg
    then plain pkg version PackageStrategy.termux_pkg [] "Available as Termux package"
    else if mem pkg cloud_preferred_packages
    then plain pkg version PackageStrategy.cloud_exec (PackageStrategy.cloud_build ∷ [])
        "Heavy package — cloud execution recommended"
    else plain pkg version PackageStrategy.local_install
        (PackageStrategy.cloud_wheel ∷ PackageStrategy.cloud_build ∷ PackageStrategy.cloud_exec
          ∷ [])
        "Attempting local install with cloud fallback"

unfoldable pub resolve_missing : Surroundings → String → String → PackageResolution
resolve_missing env pkg version =
    if env.offline_mode
    then resolve_local env pkg version
    else (elim (env.query_cloud pkg version) [
      | some info ↦ cloud_resolution env pkg version info
      | none ↦ resolve_local env pkg version
    ])

abbrev pub version_found : Surroundings → String → String → String
version_found env pkg version = elim (env.installed_version pkg) [
  | none ↦ version
  | some v ↦ text_or v version
]

abbrev pub resolve_cached :
    Surroundings
    → String
    → String
    → Result (Option String) × CacheManager
    → Result PackageResolution × CacheManager
resolve_cached env pkg version (err x, s) = (err x, s)
resolve_cached env pkg version (ok none, s) = (ok (resolve_missing env pkg version), s)
resolve_cached env pkg version (ok (some path), s) =
    (ok (plain pkg version PackageStrategy.local_install [] "Found in local cache"), s)

-- `resolve`; an error of the cache is passed on.
unfoldable pub resolve :
    Os → Surroundings → String → String → ℕ → CacheManager → Result PackageResolution × CacheManager
resolve os env pkg version now s =
    if env.is_installed pkg
    then (
      ok (
          plain pkg (version_found env pkg version) PackageStrategy.local_install []
            already_installed),
      s,
    )
    else resolve_cached env pkg version (get_wheel os pkg version now s)
