-- ===== src/Client/Config.antt =====
-- client/config.py: the settings of the client and its tokens, their defaults, and how they are
-- loaded and saved. The values of settings are whatever the file holds, as the code does not check
-- them. The parser tomllib is a parameter.
pub mod Toml
pub mod Saving
pub mod RoundTrip
mod Tests
use cpip.Common.{
  ℕ, String, Bool, true, false, Option, some, none, List, [], ◌∷◌, ◌++◌, ◌==◌, if◌then◌else◌,
}
use cpip.Common.Dict
use cpip.Common.Dict.{Dict}
use cpip.Files.{join}
use cpip.Shared.Json.{Json, Fields, get_field, get_or}

pub record CloudConfig : Type 0 where
  pub api_url : Json
  pub ws_url : Json
  pub cdn_url : Json
  pub timeout : Json
  pub max_retries : Json

pub record CacheConfig : Type 0 where
  pub max_size_mb : Json
  pub wheel_ttl_days : Json
  pub metadata_ttl_hours : Json
  pub auto_cleanup : Json

pub record RuntimeConfig : Type 0 where
  pub prefer_local : Json
  pub gpu_offload : Json
  pub lazy_loading : Json
  pub cloud_exec : Json
  pub auto_sync : Json
  pub import_hooks : Json
  pub offline_mode : Json

pub record AuthConfig : Type 0 where
  pub token : Json
  pub refresh_token : Json
  pub device_id : Json
  pub user_id : Json

pub record CpipConfig : Type 0 where
  pub cloud : CloudConfig
  pub cache : CacheConfig
  pub runtime : RuntimeConfig
  pub auth : AuthConfig
  pub home : String
  pub config_file : String
  pub cache_dir : String
  pub wheels_dir : String
  pub layers_dir : String
  pub metadata_dir : String
  pub log_dir : String
  pub venv_dir : String
  pub auth_file : String

-- The process: its environment, CPIP_HOME, and `tomllib.loads`, if there is such a module; it gives
-- none for a text that is not TOML.
pub record Process : Type 0 where
  pub environ : Dict String
  pub cpip_home : String
  pub loads : Option (String → Option Fields)

-- `os.getenv(key, default)`
abbrev pub getenv : Process → String → String → String
getenv p key default = elim (Dict.get p.environ key) [ some v ↦ v | none ↦ default ]

unfoldable pub default_cloud : Process → CloudConfig
default_cloud p = record {
  api_url = Json.string (getenv p "CPIP_API_URL" "http://localhost:8000");
  ws_url = Json.string (getenv p "CPIP_WS_URL" "ws://localhost:8000/ws");
  cdn_url = Json.string (getenv p "CPIP_CDN_URL" "http://localhost:8000/cdn");
  timeout = Json.number 30;
  max_retries = Json.number 3;
}

abbrev pub default_cache : CacheConfig
default_cache = record {
  max_size_mb = Json.number 2048;
  wheel_ttl_days = Json.number 30;
  metadata_ttl_hours = Json.number 24;
  auto_cleanup = Json.boolean true;
}

abbrev pub default_runtime : RuntimeConfig
default_runtime = record {
  prefer_local = Json.boolean true;
  gpu_offload = Json.boolean true;
  lazy_loading = Json.boolean true;
  cloud_exec = Json.boolean true;
  auto_sync = Json.boolean true;
  import_hooks = Json.boolean true;
  offline_mode = Json.boolean false;
}

abbrev pub default_auth : AuthConfig
default_auth = record {
  token = Json.string "";
  refresh_token = Json.string "";
  device_id = Json.string "";
  user_id = Json.string "";
}

-- `path or join(parent, name)`
abbrev pub default_path : String → String → String → String
default_path path parent name = if path == "" then join parent name else path

abbrev pub cache_dir_of : CpipConfig → String
cache_dir_of c = default_path c.cache_dir c.home "cache"

-- `__post_init__`
unfoldable pub post_init : CpipConfig → CpipConfig
post_init c = record c {
  config_file = default_path c.config_file c.home "config.toml";
  cache_dir = cache_dir_of c;
  wheels_dir = default_path c.wheels_dir (cache_dir_of c) "wheels";
  layers_dir = default_path c.layers_dir (cache_dir_of c) "layers";
  metadata_dir = default_path c.metadata_dir (cache_dir_of c) "metadata";
  log_dir = default_path c.log_dir c.home "logs";
  venv_dir = default_path c.venv_dir c.home "envs";
  auth_file = default_path c.auth_file c.home "auth.json";
}

-- `CpipConfig()`
unfoldable pub new_config : Process → CpipConfig
new_config p = post_init (record {
  cloud = default_cloud p;
  cache = default_cache;
  runtime = default_runtime;
  auth = default_auth;
  home = p.cpip_home;
  config_file = "";
  cache_dir = "";
  wheels_dir = "";
  layers_dir = "";
  metadata_dir = "";
  log_dir = "";
  venv_dir = "";
  auth_file = "";
})

-- A file holds a text, or the text of a JSON object.
pub data Content : Type 0 where
  text : String → Content
  json : Fields → Content

pub record Disk : Type 0 where
  pub files : Dict Content
  pub modes : Dict ℕ
  pub dirs : List String

-- CONFIG_FILE and AUTH_FILE
abbrev pub config_path : Process → String
config_path p = join p.cpip_home "config.toml"

abbrev pub auth_path : Process → String
auth_path p = join p.cpip_home "auth.json"

-- `Path(d).mkdir(parents=True, exist_ok=True)`
abbrev pub mkdir : String → Disk → Disk
mkdir d disk = record disk { dirs = d ∷ disk.dirs }

unfoldable pub ensure_directories : CpipConfig → Disk → Disk
ensure_directories c disk = mkdir c.venv_dir (
    mkdir c.log_dir (
      mkdir c.metadata_dir
        (mkdir c.layers_dir (mkdir c.wheels_dir (mkdir c.cache_dir (mkdir c.home disk))))))

-- The document of a text; nothing of a text that tomllib refuses.
abbrev pub document : (String → Option Fields) → String → Fields
document loads s = elim (loads s) [ some d ↦ d | none ↦ Fields.no_fields ]

unfoldable pub load_toml : Process → String → Disk → Fields
load_toml p path disk = elim p.loads [
  | none ↦ Fields.no_fields
  | some loads ↦ elim (Dict.get disk.files path) [
    | some (Content.text s) ↦ document loads s
    | _ ↦ Fields.no_fields
  ]
]

-- `if name in raw: ...`, where a value that is no table has no `get`: AttributeError.
abbrev pub from_table {ℓ} : {A : Type ℓ} → Json → (Fields → A → A) → A → Option A
from_table (Json.object d) f a = some (f d a)
from_table _ f a = none

abbrev pub from_section {ℓ} : {A : Type ℓ} → Fields → String → (Fields → A → A) → A → Option A
from_section raw name f a = elim (get_field raw name) [ none ↦ some a | some v ↦ from_table v f a ]

abbrev pub cloud_values : Fields → CloudConfig → CloudConfig
cloud_values d c = record c {
  api_url = get_or d "api_url" c.api_url;
  ws_url = get_or d "ws_url" c.ws_url;
  cdn_url = get_or d "cdn_url" c.cdn_url;
  timeout = get_or d "timeout" c.timeout;
}

abbrev pub cache_values : Fields → CacheConfig → CacheConfig
cache_values d c = record c {
  max_size_mb = get_or d "max_size_mb" c.max_size_mb;
  wheel_ttl_days = get_or d "wheel_ttl_days" c.wheel_ttl_days;
}

abbrev pub runtime_values : Fields → RuntimeConfig → RuntimeConfig
runtime_values d c = record c {
  prefer_local = get_or d "prefer_local" c.prefer_local;
  gpu_offload = get_or d "gpu_offload" c.gpu_offload;
  lazy_loading = get_or d "lazy_loading" c.lazy_loading;
  cloud_exec = get_or d "cloud_exec" c.cloud_exec;
  offline_mode = get_or d "offline_mode" c.offline_mode;
}

-- The values of the file, a section after the other.
unfoldable pub apply_toml : Fields → CpipConfig → Option CpipConfig
apply_toml raw c = elim (from_section raw "cloud" cloud_values c.cloud) [
  | none ↦ none
  | some cloud ↦ elim (from_section raw "cache" cache_values c.cache) [
    | none ↦ none
    | some cache ↦ elim (from_section raw "runtime" runtime_values c.runtime) [
      | none ↦ none
      | some runtime ↦ some (record c { cloud = cloud; cache = cache; runtime = runtime })
    ]
  ]
]

-- A variable of the environment that is set and not empty goes before `v`.
abbrev pub override : Process → String → Json → Json
override p key v = let found = getenv p key "" in if found == "" then v else Json.string found

unfoldable pub apply_environ : Process → CpipConfig → CpipConfig
apply_environ p c = record c {
  cloud = record c.cloud {
    api_url = override p "CPIP_API_URL" c.cloud.api_url;
    ws_url = override p "CPIP_WS_URL" c.cloud.ws_url;
  };
  runtime = record c.runtime {
    offline_mode =
        if getenv p "CPIP_OFFLINE" "" == "" then c.runtime.offline_mode else Json.boolean true;
  };
}

-- The tokens of the file; a file that is no JSON object changes nothing.
unfoldable pub load_auth : String → Disk → CpipConfig → CpipConfig
load_auth path disk c = elim (Dict.get disk.files path) [
  | some (Content.json d) ↦ record c {
    auth = record {
      token = get_or d "token" (Json.string "");
      refresh_token = get_or d "refresh_token" (Json.string "");
      device_id = get_or d "device_id" (Json.string "");
      user_id = get_or d "user_id" (Json.string "");
    };
  }
  | _ ↦ c
]

-- The configuration and the disk with its directories; none where an error is raised.
unfoldable pub load_config : Process → Disk → Option (CpipConfig × Disk)
load_config p disk = elim (apply_toml (load_toml p (config_path p) disk) (new_config p)) [
  | none ↦ none
  | some loaded ↦
      let c = load_auth (auth_path p) disk (apply_environ p loaded) in
      some (c, ensure_directories c disk)
]
