-- ===== src/Client/Config/RoundTrip.antt =====
-- client/config.py: what is loaded after a configuration and its tokens were saved.
use Prim.Native.String.{◌++◌}
use text.Mathlib.TextLemmas.{append_cancel_left}
use cpip.Common.{
  ◌≡◌, ◌≢◌, refl, inl, inr, Bool-cases, String, false, Option, some, ◌==◌, arith, eq_iff, eq_refl,
}
use cpip.Common.Dict
use cpip.Common.Dict.{get-put}
use cpip.Files.{join}
use cpip.Shared.Json.{Fields, get_field}
use cpip.Client.Config.Toml.{toml_text}
use cpip.Client.Config.Saving.{saved, save_config, save_auth, auth_data}
use cpip.Client.Config.{
  CpipConfig, Process, Disk, Content, config_path, auth_path, load_toml, apply_toml, apply_environ,
  load_auth, load_config, new_config, ensure_directories,
}

-- What of a configuration is kept: the settings that are both written and read. The others are at
-- their defaults again.
abbrev pub persisted : Process → CpipConfig → CpipConfig
persisted p c = record (new_config p) {
  cloud = record (new_config p).cloud {
    api_url = c.cloud.api_url;
    ws_url = c.cloud.ws_url;
    cdn_url = c.cloud.cdn_url;
    timeout = c.cloud.timeout;
  };
  cache = record (new_config p).cache {
    max_size_mb = c.cache.max_size_mb;
    wheel_ttl_days = c.cache.wheel_ttl_days;
  };
  runtime = record (new_config p).runtime {
    prefer_local = c.runtime.prefer_local;
    gpu_offload = c.runtime.gpu_offload;
    lazy_loading = c.runtime.lazy_loading;
    cloud_exec = c.runtime.cloud_exec;
    offline_mode = c.runtime.offline_mode;
  };
}

-- What is loaded after `c` and its tokens were saved.
abbrev pub loaded_again : Process → CpipConfig → CpipConfig
loaded_again p c = record (apply_environ p (persisted p c)) { auth = c.auth }

names_differ : ◌≢◌ {A = String} "auth.json" "config.toml"
names_differ = ground (arith, eq_iff "auth.json" "config.toml")

paths_differ : (home : String) → (join home "auth.json" == join home "config.toml") ≡ false
paths_differ home = elim (Bool-cases (join home "auth.json" == join home "config.toml")) [
  | inl e ↦ absurd (
      names_differ (
        append_cancel_left "/" "auth.json" "config.toml" (
          append_cancel_left home ("/" ++ "auth.json") ("/" ++ "config.toml")
            ((eq_iff (join home "auth.json") (join home "config.toml")).0 e))))
  | inr e ↦ e
]

abbrev pub both_saved : Process → CpipConfig → Disk → Disk
both_saved p c disk = save_auth p c (save_config p c disk)

get-both_saved :
    (p : Process) (c : CpipConfig) (disk : Disk)
    → (Dict.get (both_saved p c disk).files (config_path p)
        ≡ some (Content.text (toml_text (saved c))))
      × (Dict.get (both_saved p c disk).files (auth_path p) ≡ some (Content.json (auth_data c)))
unfolding save_auth save_config
get-both_saved p c disk = ground (
  arith,
  paths_differ p.cpip_home,
  eq_refl (config_path p),
  eq_refl (auth_path p),
  get-put (save_config p c disk).files (auth_path p) (config_path p) (Content.json (auth_data c)),
  get-put (save_config p c disk).files (auth_path p) (auth_path p) (Content.json (auth_data c)),
  get-put disk.files (config_path p) (config_path p) (Content.text (toml_text (saved c))),
)

apply_toml-saved :
    (p : Process) (c : CpipConfig) → apply_toml (saved c) (new_config p) ≡ some (persisted p c)
unfolding apply_toml get_field
apply_toml-saved p c = refl

load_auth-saved :
    (p : Process) (c k : CpipConfig) (disk : Disk)
    → load_auth (auth_path p) (both_saved p c disk) k ≡ record k { auth = c.auth }
unfolding load_auth get_field
load_auth-saved p c k disk = ground (arith, (get-both_saved p c disk).1)

-- A configuration that was saved with its tokens is loaded again as `persisted` says, under the
-- environment's overrides, with the tokens, and the directories are made; if the parser reads the
-- text that was written.
pub load_config-save_config :
    (p : Process) (loads : String → Option Fields) (c : CpipConfig) (disk : Disk)
    → p.loads ≡ some loads
    → loads (toml_text (saved c)) ≡ some (saved c)
    → load_config p (both_saved p c disk)
      ≡ some (loaded_again p c, ensure_directories (loaded_again p c) (both_saved p c disk))
unfolding load_config load_toml
load_config-save_config p loads c disk l r = ground (
  arith,
  l,
  r,
  (get-both_saved p c disk).0,
  apply_toml-saved p c,
  load_auth-saved p c (apply_environ p (persisted p c)) disk,
)
