-- ===== src/Client/Cache/Tests.antt =====
-- Runs and instances of client/cache.py: a cache of 1 MB that holds two wheels and a layer.
use cpip.Common.{
  ◌*◌, ◌≤◌, ◌≡◌, refl, true, some, none, [], ◌∷◌, eqb, eq_iff, arith, if◌then◌else◌, length,
}
use cpip.Common.Dict
use cpip.Common.Dict.{Unique}
use cpip.Files.{Metadata, Contents, bytes, json, file, Os, ok}
use cpip.Client.Cache.State.{CacheManager, CacheEntry, missing, wheel, save_index, cache_key}
use cpip.Client.Cache.Evict.{
  current_size, over_limit, oldest_from, oldest, evict_entry, evict_loop, maybe_evict,
}
use cpip.Client.Cache.Evict.Bounds.{maybe_evict_within}
use cpip.Client.Cache.Evict.Order.{Evicts, maybe_evict-Evicts}
use cpip.Client.Cache.Wheels.{checked_wheel, get_wheel, copy_wheel, index_wheel, store_wheel}
use cpip.Client.Cache.Wheels.Integrity.{get_wheel_sound, get_wheel-store_wheel}
use cpip.Client.Cache.Metadata.{get_metadata, store_metadata}
use cpip.Client.Cache.Maintain.{verify_integrity, verify_entry, verify_loop, save_if}
use cpip.Client.Cache.Maintain.Verified.{DistinctPaths, issues_of, issue, verify_integrity_exact}

abbrev os : Os
os = record {
  sha256 = λ c. elim c [ bytes b ↦ if eqb (length b) 2 then "aa" else "bb" | json m ↦ "cc" ];
  file_size = λ c. elim c [ bytes b ↦ length b | json m ↦ 2 ];
}

abbrev numpy : CacheEntry
numpy = record {
  path = "w/numpy.whl";
  subject = wheel "numpy" "1.26";
  sha256 = "aa";
  size = 600_000;
  cached_at = 10;
  last_accessed = 20;
}

abbrev scipy : CacheEntry
scipy = record numpy {
  path = "w/scipy.whl";
  subject = wheel "scipy" "1.13";
  sha256 = "zz";
  last_accessed = 15;
}

abbrev cache : CacheManager
cache = record {
  max_size_mb = 1;
  wheels_dir = "w";
  layers_dir = "l";
  metadata_dir = "m";
  index = ("wheel:numpy:1.26", numpy) ∷ ("wheel:scipy:1.13", scipy) ∷ [];
  index_file = missing;
  index_writable = true;
  disk =
      ("w/numpy.whl", file (bytes (1 ∷ 2 ∷ [])))
      ∷ ("w/scipy.whl", file (bytes (3 ∷ [])))
      ∷ ("d/new.whl", file (bytes (4 ∷ 5 ∷ [])))
      ∷ [];
}

program : Unit {0}
unfolding Dict.get Dict.put Dict.remove save_index current_size over_limit oldest_from oldest
    evict_entry evict_loop maybe_evict checked_wheel get_wheel copy_wheel index_wheel store_wheel
    get_metadata store_metadata verify_integrity verify_entry verify_loop save_if issues_of issue
program = tt

-- 1.2 MB of 0.9 are too much: the wheel that was used first goes.
evicted : Dict.keys (maybe_evict cache).index ≡ "wheel:numpy:1.26" ∷ []
unfolding program
evicted = refl

verified : (verify_integrity os cache).0 ≡ "Corrupt: wheel:scipy:1.13 (hash mismatch)" ∷ []
unfolding program
verified = refl

maybe_evict_within_example : 10 * current_size (maybe_evict cache).index ≤ 9 * 1 * 1_048_576
maybe_evict_within_example = maybe_evict_within cache

cache-Unique : Unique cache.index
unfolding program
cache-Unique = (refl, (refl, tt))

maybe_evict-Evicts_example : Unique (maybe_evict cache).index × Evicts cache (maybe_evict cache)
maybe_evict-Evicts_example = maybe_evict-Evicts cache cache-Unique

get_wheel_sound_example :
    (e : CacheEntry) × (c : Contents) × (Dict.get cache.index (cache_key (wheel "numpy" "1.26"))
      ≡ some e)
    × (e.path ≡ "w/numpy.whl")
    × (Dict.get (get_wheel os "numpy" "1.26" 30 cache).1.disk "w/numpy.whl" ≡ some (file c))
    × (os.sha256 c ≡ e.sha256)
unfolding program
get_wheel_sound_example = get_wheel_sound os "numpy" "1.26" 30 cache "w/numpy.whl" refl

get_wheel-store_wheel_example :
    (get_wheel os "new" "1.0" 50
      (store_wheel os "new" "1.0" (record { parent = "d"; name = "new.whl" }) "" 40 41 cache).1).0
    ≡ ok (some "w/new.whl")
unfolding program
get_wheel-store_wheel_example =
    get_wheel-store_wheel os "new" "1.0" (record { parent = "d"; name = "new.whl" }) "" 40 41 cache
      (bytes (4 ∷ 5 ∷ [])) refl 50

abbrev one_big : CacheManager
one_big = record cache { index = ("wheel:numpy:1.26", record numpy { size = 1_000_000 }) ∷ [] }

abbrev about : Metadata
about = record { cached_at = none; items = [] }

cache-DistinctPaths : DistinctPaths cache.index
unfolding program
cache-DistinctPaths = (
  λ j x h. ground (arith, eq_iff "wheel:scipy:1.13" j, eq_iff "w/numpy.whl" "w/scipy.whl"),
  (λ j x h. absurd (cc), tt),
)

verify_integrity_exact_example :
    ((verify_integrity os cache).0 ≡ issues_of os cache.disk cache.index)
    × (Dict.get (verify_integrity os cache).1.index "wheel:scipy:1.13" ≡ none)
unfolding program
verify_integrity_exact_example =
    verify_integrity_exact os cache cache-Unique cache-DistinctPaths "wheel:scipy:1.13" scipy refl
