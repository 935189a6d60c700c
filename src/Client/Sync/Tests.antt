-- ===== src/Client/Sync/Tests.antt =====
-- client/sync.py: syncs of a catalog.
use cpip.Common.{ℕ, ◌+◌, ◌≡◌, refl, String, true, false, some, none, [], ◌∷◌, arith, seconds}
use cpip.Common.Dict
use cpip.Files.{Metadata, dir}
use cpip.Shared.Json.{Json, Items, Fields, get_field}
use cpip.Client.Cache.State.{CacheManager, missing}
use cpip.Client.Cache.Metadata.{get_metadata, store_metadata}
use cpip.Client.Sync.{
  Raised, Cloud, Results, SyncManager, store_all, do_sync, sync_round, start, stop,
}
use mathlib.Core.Option.{map}
use cpip.Client.Sync.Stored.{latest, storable}
use cpip.Client.Sync.Rounds.{offered, do_sync_lem}

program : Unit {0}
unfolding get_field get_metadata store_metadata store_all do_sync sync_round Dict.get Dict.put
program = tt

abbrev cache : CacheManager
cache = record {
  max_size_mb = 1;
  wheels_dir = "w";
  layers_dir = "l";
  metadata_dir = "m";
  index = [];
  index_file = missing;
  index_writable = true;
  disk = ("m/jax.json", dir []) ∷ [];
}

abbrev release : String → String → Json
release name version = Json.object (
    Fields.entry "name" (Json.string name)
      (Fields.entry "version" (Json.string version) Fields.no_fields))

abbrev catalog : Items → Json
catalog vs = Json.object (Fields.entry "packages" (Json.array vs) Fields.no_fields)

-- The same package twice, then one that cannot be stored, and one that is not reached.
abbrev some_packages : Items
some_packages = Items.item (release "numpy" "1") (
    Items.item (release "numpy" "2")
      (Items.item (release "jax" "1") (Items.item (release "torch" "1") Items.no_items)))

abbrev str : Json → String
str (Json.string s) = s
str _ = "None"

abbrev version_of : Fields → Metadata
version_of d = record {
  cached_at = none;
  items = ("version", elim (get_field d "version") [ none ↦ "" | some v ↦ str v ]) ∷ [];
}

abbrev message : Raised → String
message (Raised.http s) = s
message Raised.not_json = "Expecting value"
message (Raised.bad_answer v) = "'name'"
message (Raised.disk e) = "Is a directory"

abbrev cloud : Cloud
cloud = record {
  message = message;
  str = str;
  metadata = version_of;
  register = none;
  catalog = some (record { status_code = 200; body = some (catalog some_packages) });
  refused = "";
}

abbrev manager : SyncManager
manager = record {
  cache = cache;
  running = false;
  task = false;
  last_sync = 0;
  sync_file = none;
  writable = true;
}

abbrev clock : ℕ → ℕ
clock i = seconds 9000 + i

test_do_sync :
    let (results, s) = do_sync cloud clock 5 (seconds 9001) manager in
    (results
      ≡ some (record { metadata_updated = 2; errors = "Is a directory" ∷ []; timestamp = 5 }))
    × ((get_metadata "numpy" (seconds 9002) s.cache).0
        ≡ some (record { cached_at = some (seconds 9000 + 1); items = ("version", "2") ∷ [] }))
    × ((get_metadata "torch" (seconds 9002) s.cache).0 ≡ none)
unfolding program
test_do_sync = (refl, refl, refl)

-- The cloud cannot be reached: the time of the last sync is set all the same.
test_unreachable :
    let (results, s) =
      do_sync (record cloud { register = some "refused" }) clock 5 (seconds 9001) manager in
    (results ≡ some (record { metadata_updated = 0; errors = "refused" ∷ []; timestamp = 5 }))
    × (s.last_sync ≡ seconds 9001)
unfolding program
test_unreachable = (refl, refl)

test_round :
    ((sync_round cloud clock (seconds 9000) 0 (seconds 9001) (start manager)).last_sync
      ≡ seconds 9001)
    × (sync_round cloud clock (seconds 9000) 0 (seconds 9001) (stop (start manager)) ≡ manager)
unfolding program
test_round = (refl, refl)

do_sync_lem_example :
    let (results, s1) = do_sync cloud clock 5 (seconds 9001) manager in
    let count = storable cloud cache (offered cloud) in
    (map (λ (r : Results). r.metadata_updated) results ≡ some count)
    × ((get_metadata "numpy" (seconds 9002) s1.cache).0
        ≡ latest cloud clock 0 count
            (offered cloud)
            "numpy"
            (get_metadata "numpy" (seconds 9002) cache).0)
    × (sync_round cloud clock (seconds 9100) 7 8 s1 ≡ s1)
do_sync_lem_example =
    do_sync_lem cloud clock "numpy" (seconds 9002) (λ i. omega arith) 5 (seconds 9001)
      (seconds 9100) 7 8 manager (omega arith)
