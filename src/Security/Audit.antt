-- ===== src/Security/Audit.antt =====
-- security/audit.py: class AuditLogger. The log is the list of the events in its file; whether the file
-- can be written is an argument. The second log, of the module logging, has the same events.
use cpip.Common.{ℕ, String, Bool, List, [], ◌∷◌, ◌++◌, if◌then◌else◌}
use cpip.Shared.Json.{Json, Fields}

pub record Event : Type 0 where
  pub timestamp : ℕ
  pub type : String
  pub user_id : String
  pub device_id : String
  pub details : Json

abbrev pub Log : Type 0
Log = List Event

-- An error of the write is passed over.
unfoldable pub log_event : Bool → ℕ → String → String → String → Json → Log → Log
log_event writable now event_type user_id device_id details log =
    if writable
    then log
      ++ (record {
        timestamp = now;
        type = event_type;
        user_id = user_id;
        device_id = device_id;
        details = details;
      }
          ∷ [])
    else log

abbrev pub one : String → Json → Fields
one key v = Fields.entry key v Fields.no_fields

unfoldable pub log_auth_success : Bool → ℕ → String → String → String → Log → Log
log_auth_success writable now user_id device_id ip_address =
    log_event writable now "auth_success" user_id device_id
      (Json.object (one "ip_address" (Json.string ip_address)))

unfoldable pub log_auth_failure : Bool → ℕ → String → String → String → String → Log → Log
log_auth_failure writable now user_id device_id reason ip_address =
    log_event writable now "auth_failure" user_id device_id (
      Json.object
        (Fields.entry "reason" (Json.string reason) (one "ip_address" (Json.string ip_address))))

unfoldable pub log_execution : Bool → ℕ → String → String → String → Json → Log → Log
log_execution writable now user_id device_id method sandbox_config =
    log_event writable now "execution_attempt" user_id device_id
      (Json.object (Fields.entry "method" (Json.string method) (one "sandbox" sandbox_config)))

unfoldable pub log_package_install : Bool → ℕ → String → String → String → String → Log → Log
log_package_install writable now user_id device_id package_name strategy =
    log_event writable now "package_install" user_id device_id (
      Json.object
        (Fields.entry "package" (Json.string package_name) (one "strategy" (Json.string strategy))))
