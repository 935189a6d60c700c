-- ===== src/Client/Config/Tests.antt =====
-- Runs of client/config.py: a configuration that is saved and loaded, the text of its file, and a
-- file whose section is no table.
use text.Mathlib.TextPositions.{eq_refl}
use cpip.Common.{◌≡◌, refl, String, Option, some, none, [], ◌∷◌, ◌==◌, if◌then◌else◌, arith}
use cpip.Common.Dict
use cpip.Shared.Json.{Json, Fields, get_field}
use cpip.Client.Config.Toml.{toml_text, toml_lines, setting_line, decimal, join_lines}
use cpip.Client.Config.Saving.{saved, save_config, save_auth}
use cpip.Client.Config.RoundTrip.{load_config-save_config, loaded_again, both_saved}
use cpip.Client.Config.{
  CpipConfig, Process, Disk, Content, load_toml, apply_toml, apply_environ, load_auth, load_config,
  new_config, post_init, default_cloud, ensure_directories,
}

program : Unit {0}
unfolding load_toml apply_toml apply_environ load_auth load_config new_config post_init
    default_cloud ensure_directories save_config save_auth toml_text toml_lines setting_line decimal
    join_lines get_field Dict.get Dict.put
program = tt

abbrev phone : Process
phone = record {
  environ = ("CPIP_WS_URL", "ws://cloud/ws") ∷ [];
  cpip_home = "/home/.cpip";
  loads = none;
}

abbrev config : CpipConfig
config =
    let c = new_config phone in
    record c {
      cloud = record c.cloud { timeout = Json.number 120; max_retries = Json.number 9 };
      auth = record c.auth { token = Json.string "t0" };
    }

abbrev empty_disk : Disk
empty_disk = record { files = []; modes = []; dirs = [] }

-- A parser that reads the one text.
abbrev reader : String → Option Fields
reader s = if s == toml_text (saved config) then some (saved config) else none

abbrev reading : Process
reading = record phone { loads = some reader }

test_text :
    toml_text (
      Fields.entry "cloud"
        (Json.object (
          Fields.entry "cdn_url"
            (Json.string "a")
            (Fields.entry "timeout" (Json.number 120) Fields.no_fields)))
        Fields.no_fields)
    ≡ "[cloud]\ncdn_url = \"a\"\ntimeout = 120\n"
unfolding program
test_text = refl

test_no_table :
    load_config
      (record phone {
        loads = some (λ s. some (Fields.entry "cloud" (Json.number 1) Fields.no_fields));
      })
      (record empty_disk { files = ("/home/.cpip/config.toml", Content.text "cloud = 1") ∷ [] })
    ≡ none
unfolding program
test_no_table = refl

reader-saved : reader (toml_text (saved config)) ≡ some (saved config)
reader-saved = ground (arith, eq_refl (toml_text (saved config)))

load_config-save_config_example :
    load_config reading (both_saved reading config empty_disk)
    ≡ some (
      loaded_again reading config,
      ensure_directories (loaded_again reading config) (both_saved reading config empty_disk),
    )
load_config-save_config_example =
    load_config-save_config reading reader config empty_disk refl reader-saved

-- The retries are not kept, the other settings are.
test_loaded :
    ((loaded_again reading config).cloud.max_retries ≡ Json.number 3)
    × ((loaded_again reading config).cloud.timeout ≡ Json.number 120)
    × ((loaded_again reading config).cloud.ws_url ≡ Json.string "ws://cloud/ws")
    × ((loaded_again reading config).auth.token ≡ Json.string "t0")
unfolding program
test_loaded = (refl, refl, refl, refl)
