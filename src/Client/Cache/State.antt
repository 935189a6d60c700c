-- ===== src/Client/Cache/State.antt =====
-- client/cache.py: the state of `CacheManager` and its index file. A method takes the state and the
-- clock readings it makes, and returns the new state beside its result.
use Prim.Native.String.{◌++◌}
use cpip.Common.{ℕ, String, Bool, [], if◌then◌else◌}
use cpip.Common.Dict
use cpip.Common.Dict.{Dict}
use cpip.Files.{Node, file, dir, Disk, Os, Result, ok, err, is_a_directory}

-- What an entry is about: the keys `type`, `package`, `version`, `layer_id` of its dict.
pub data Subject : Type 0 where
  wheel : String → String → Subject
  layer : String → Subject

-- An entry of the index.
pub record CacheEntry : Type 0 where
  pub path : String
  pub subject : Subject
  pub sha256 : String
  pub size : ℕ
  pub cached_at : ℕ
  pub last_accessed : ℕ

abbrev pub Index : Type 0
Index = Dict CacheEntry

-- cache.json: not there, no JSON, or a saved index.
pub data IndexFile : Type 0 where
  missing corrupt : IndexFile
  saved : Index → IndexFile

-- `index_writable` is false where writing cache.json raises OSError, which the code passes over.
pub record CacheManager : Type 0 where
  pub max_size_mb : ℕ
  pub wheels_dir : String
  pub layers_dir : String
  pub metadata_dir : String
  pub index : Index
  pub index_file : IndexFile
  pub index_writable : Bool
  pub disk : Disk

-- `_cache_key`; a layer's key is `layer:{layer_id}`.
abbrev pub cache_key : Subject → String
cache_key (wheel pkg version) = "wheel" ++ (":" ++ (pkg ++ (":" ++ version)))
cache_key (layer layer_id) = "layer:" ++ layer_id

read_index : IndexFile → Index → Index
read_index missing current = current
read_index corrupt current = []
read_index (saved index) current = index

-- `_load_index`
unfoldable pub load_index : CacheManager → CacheManager
unfolding read_index
load_index s = record s { index = read_index s.index_file s.index }

-- `_save_index`
unfoldable pub save_index : CacheManager → CacheManager
save_index s = if s.index_writable then record s { index_file = saved s.index } else s

-- `path.unlink(missing_ok=True)` and `shutil.rmtree(path)`
abbrev pub delete : String → CacheManager → CacheManager
delete path s = record s { disk = Dict.remove s.disk path }

-- `del self._index[key]`
abbrev pub forget : String → CacheManager → CacheManager
forget key s = record s { index = Dict.remove s.index key }

-- `_hash_file`: opening a directory raises.
abbrev pub hash_file : Os → Node → Result String
hash_file os (file c) = ok (os.sha256 c)
hash_file os (dir d) = err is_a_directory

-- `entry["last_accessed"] = time.time()`, on the dict that the index holds
abbrev pub touch : String → CacheEntry → ℕ → CacheManager → CacheManager
touch key e now s = record s { index = Dict.put s.index key (record e { last_accessed = now }) }
