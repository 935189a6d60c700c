-- ===== src/Client/Config/Saving.antt =====
-- client/config.py: save_config and save_auth.
use cpip.Common.Dict
use cpip.Shared.Json.{Json, Fields}
use cpip.Client.Config.Toml.{toml_text}
use cpip.Client.Config.{CpipConfig, Process, Disk, Content, config_path, auth_path, mkdir}

-- The document that is saved.
abbrev pub saved : CpipConfig → Fields
saved c =
    Fields.entry "cloud"
      (Json.object (
        Fields.entry "api_url" c.cloud.api_url (
          Fields.entry "ws_url" c.cloud.ws_url (
            Fields.entry "cdn_url" c.cloud.cdn_url
              (Fields.entry "timeout" c.cloud.timeout Fields.no_fields)))))
      (Fields.entry "cache"
        (Json.object (
          Fields.entry "max_size_mb" c.cache.max_size_mb (
            Fields.entry "wheel_ttl_days" c.cache.wheel_ttl_days
              (Fields.entry "auto_cleanup" c.cache.auto_cleanup Fields.no_fields))))
        (Fields.entry "runtime"
          (Json.object (
            Fields.entry "prefer_local" c.runtime.prefer_local (
              Fields.entry "gpu_offload" c.runtime.gpu_offload (
                Fields.entry "lazy_loading" c.runtime.lazy_loading (
                  Fields.entry "cloud_exec" c.runtime.cloud_exec
                    (Fields.entry "offline_mode" c.runtime.offline_mode Fields.no_fields))))))
          Fields.no_fields))

-- `_save_toml`; the directory is made if it is missing.
abbrev pub save_toml : Process → Fields → Disk → Disk
save_toml p d disk =
    let made = mkdir p.cpip_home disk in
    record made { files = Dict.put made.files (config_path p) (Content.text (toml_text d)) }

unfoldable pub save_config : Process → CpipConfig → Disk → Disk
save_config p c disk = save_toml p (saved c) disk

abbrev pub auth_data : CpipConfig → Fields
auth_data c = Fields.entry "token" c.auth.token (
    Fields.entry "refresh_token" c.auth.refresh_token (
      Fields.entry "device_id" c.auth.device_id
        (Fields.entry "user_id" c.auth.user_id Fields.no_fields)))

-- The file of the tokens, with the mode 0o600: only the user reads and writes it.
unfoldable pub save_auth : Process → CpipConfig → Disk → Disk
save_auth p c disk =
    let made = mkdir p.cpip_home disk in
    record made {
      files = Dict.put made.files (auth_path p) (Content.json (auth_data c));
      modes = Dict.put made.modes (auth_path p) 0o600;
    }
