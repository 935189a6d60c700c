-- ===== src/Client/Sync.antt =====
-- client/sync.py: class SyncManager, over the metadata cache. httpx, what the system is, the text of
-- an error and the dict of a JSON object as the cache keeps it are parameters; the times a method
-- reads are its arguments. A task that runs is one flag.
pub mod Stored
pub mod Rounds
mod Tests
use cpip.Common.{
  ℕ, zero, suc, ◌+◌, ◌-◌, String, Bool, true, false, Option, some, none, List, [], ◌∷◌, ◌&&◌, leb,
  if◌then◌else◌, eqb, ◌==◌, seconds,
}
use cpip.Files.{Metadata, OsError, Result, ok, err}
use cpip.Shared.Json.{Json, Items, Fields, get_field, get_or}
use cpip.Client.Cache.State.{CacheManager}
use cpip.Client.Cache.Metadata.{store_metadata}

-- What is raised while the cloud is asked, or a package is stored.
pub data Raised : Type 0 where
  http : String → Raised
  not_json : Raised
  bad_answer : Json → Raised
  disk : OsError → Raised

pub record Answer : Type 0 where
  pub status_code : ℕ
  pub body : Option Json

-- `str`, of errors and of values, and the dict of a package. The cloud: what comes of registering the
-- device, whose answer is not read, and of asking for the catalog.
pub record Cloud : Type 0 where
  pub message : Raised → String
  pub str : Json → String
  pub metadata : Fields → Metadata
  pub register : Option String
  pub catalog : Option Answer
  pub refused : String

pub record Results : Type 0 where
  pub metadata_updated : ℕ
  pub errors : List String
  pub timestamp : ℕ

-- `sync_file` is what `.last_sync` holds; where it cannot be written, `write_text` raises.
pub record SyncManager : Type 0 where
  pub cache : CacheManager
  pub running : Bool
  pub task : Bool
  pub last_sync : ℕ
  pub sync_file : Option Results
  pub writable : Bool

-- `pkg["name"]`, and the dict; none where it raises.
abbrev pub package_of : Cloud → Json → Option (String × Metadata)
package_of cloud (Json.object d) = elim (get_field d "name") [
  | none ↦ none
  | some name ↦ some (cloud.str name, cloud.metadata d)
]
package_of cloud _ = none

-- What was done of a catalog: the packages that were stored, what was raised, and the cache.
pub record Progress : Type 0 where
  pub updated : ℕ
  pub raised : Option Raised
  pub cache : CacheManager

abbrev pub goes_on : ℕ → Result (Unit {0}) → CacheManager → Progress → Progress
goes_on n (ok u) cache rest = rest
goes_on n (err e) cache rest = record { updated = n; raised = some (disk e); cache = cache }

-- The loop over the packages; the clock reads `clock n` when the package after `n` others is stored.
unfoldable pub store_all : Cloud → (ℕ → ℕ) → ℕ → Items → CacheManager → Progress
store_all cloud clock n Items.no_items cache = record { updated = n; raised = none; cache = cache }
store_all cloud clock n (Items.item v vs) cache = elim (package_of cloud v) [
  | none ↦ record { updated = n; raised = some (bad_answer v); cache = cache }
  | some (name, m) ↦
      let out = store_metadata name m (clock n) cache in
      goes_on n out.0 out.1 (store_all cloud clock (suc n) vs out.1)
]

-- What the loop runs over; none where that raises.
abbrev pub packages_of : Json → Option Items
packages_of (Json.array vs) = some vs
packages_of (Json.string s) = if s == "" then some Items.no_items else none
packages_of (Json.object Fields.no_fields) = some Items.no_items
packages_of _ = none

abbrev pub nothing_done : Option Raised → CacheManager → Progress
nothing_done raised cache = record { updated = 0; raised = raised; cache = cache }

abbrev pub store_catalog : Cloud → (ℕ → ℕ) → Json → CacheManager → Progress
store_catalog cloud clock (Json.object d) cache =
    let packages = get_or d "packages" (Json.array Items.no_items) in
    elim (packages_of packages) [
      | none ↦ nothing_done (some (bad_answer packages)) cache
      | some vs ↦ store_all cloud clock 0 vs cache
    ]
store_catalog cloud clock v cache = nothing_done (some (bad_answer v)) cache

-- `resp.json()`, and the packages of it.
abbrev pub store_body : Cloud → (ℕ → ℕ) → Option Json → CacheManager → Progress
store_body cloud clock none cache = nothing_done (some not_json) cache
store_body cloud clock (some v) cache = store_catalog cloud clock v cache

abbrev pub store_answer : Cloud → (ℕ → ℕ) → Option Answer → CacheManager → Progress
store_answer cloud clock none cache = nothing_done (some (http cloud.refused)) cache
store_answer cloud clock (some answer) cache =
    if eqb answer.status_code 200
    then store_body cloud clock answer.body cache
    else nothing_done none cache

-- The body of the `try`: the device is registered, then the catalog is asked for.
abbrev pub update : Cloud → (ℕ → ℕ) → CacheManager → Progress
update cloud clock cache = elim cloud.register [
  | some e ↦ nothing_done (some (http e)) cache
  | none ↦ store_answer cloud clock cloud.catalog cache
]

abbrev pub errors_of : Cloud → Option Raised → List String
errors_of cloud none = []
errors_of cloud (some e) = cloud.message e ∷ []

abbrev pub results_of : Cloud → ℕ → Progress → Results
results_of cloud begun done = record {
  metadata_updated = done.updated;
  errors = errors_of cloud done.raised;
  timestamp = begun;
}

-- `_do_sync`, and so `sync_now`, from `begun` to `ended`; without results where it raises.
unfoldable pub do_sync : Cloud → (ℕ → ℕ) → ℕ → ℕ → SyncManager → Option Results × SyncManager
do_sync cloud clock begun ended s =
    let done = update cloud clock s.cache in
    let results = results_of cloud begun done in
    if s.writable
    then (
      some results,
      record s { cache = done.cache; last_sync = ended; sync_file = some results },
    )
    else (none, record s { cache = done.cache; last_sync = ended })

-- One round of `_sync_loop`, at `now`; what is raised is passed over.
unfoldable pub sync_round : Cloud → (ℕ → ℕ) → ℕ → ℕ → ℕ → SyncManager → SyncManager
sync_round cloud clock now begun ended s =
    if s.running && leb (seconds 3600) (now - s.last_sync)
    then (do_sync cloud clock begun ended s).1
    else s

abbrev pub start : SyncManager → SyncManager
start s = if s.running then s else record s { running = true; task = true }

-- The task is cancelled and waited for.
abbrev pub stop : SyncManager → SyncManager
stop s = record s { running = false; task = false }
