-- ===== src/Agent/Router.antt =====
-- agent/router.py: class ModelRouter. The memory of the device is an argument.
use cpip.Common.{
  ℕ, ◌*◌, String, Bool, true, false, not, ◌&&◌, Option, some, none, List, [], ◌∷◌, ◌==◌, ltb, map,
  select, if◌then◌else◌,
}
use cpip.Common.Dict
use cpip.Common.Dict.{Dict}

pub record ModelInfo : Type 0 where
  pub name : String
  pub size_mb : ℕ
  pub requires_gpu : Bool
  pub local_capable : Bool
  pub provider : String

abbrev pub known : String → ℕ → Bool → Bool → String → String × ModelInfo
known name size_mb requires_gpu local_capable provider = (
  name,
  record {
    name = name;
    size_mb = size_mb;
    requires_gpu = requires_gpu;
    local_capable = local_capable;
    provider = provider;
  },
)

abbrev pub known_models : Dict ModelInfo
known_models =
    known "gpt-4" 0 false false "openai"
    ∷ known "gpt-3.5-turbo" 0 false false "openai"
    ∷ known "llama-2-7b" 3500 true false "cloud"
    ∷ known "llama-2-13b" 7000 true false "cloud"
    ∷ known "phi-2" 1400 false false "cloud"
    ∷ known "tinyllama-1.1b" 600 false true "local"
    ∷ known "all-MiniLM-L6-v2" 80 false true "local"
    ∷ known "whisper-tiny" 75 false true "local"
    ∷ []

abbrev pub local_max_size_mb : ℕ
local_max_size_mb = 500

abbrev pub route_known : ℕ → ModelInfo → String
route_known total_memory_mb info =
    if info.provider == "openai"
    then "cloud"
    else if info.local_capable && ltb info.size_mb local_max_size_mb
    then (if ltb (info.size_mb * 2) total_memory_mb then "local" else "cloud")
    else "cloud"

unfoldable pub route : ℕ → String → String
route total_memory_mb model_name = elim (Dict.get known_models model_name) [
  | none ↦ "cloud"
  | some info ↦ route_known total_memory_mb info
]

abbrev pub get_model_info : String → Option ModelInfo
get_model_info model_name = Dict.get known_models model_name

abbrev pub list_local_models : List String
list_local_models =
    map (λ e. e.0) (select (λ (e : String × ModelInfo). e.1.local_capable) known_models)

abbrev pub list_cloud_models : List String
list_cloud_models =
    map (λ e. e.0) (select (λ (e : String × ModelInfo). not e.1.local_capable) known_models)
