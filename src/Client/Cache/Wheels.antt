-- ===== src/Client/Cache/Wheels.antt =====
-- client/cache.py: the wheel cache, `get_wheel` and `store_wheel`.
pub mod Integrity
pub mod SelfEviction
use cpip.Common.{ℕ, String, Option, none, some, ◌==◌, if◌then◌else◌}
use cpip.Common.Dict
use cpip.Files.{
  file, dir, FilePath, join, text, Os, Result, ok, err, file_not_found, is_a_directory,
}
use cpip.Client.Cache.State.{
  CacheManager, CacheEntry, Subject, wheel, cache_key, save_index, delete, forget, hash_file, touch,
}
use cpip.Client.Cache.Evict.{maybe_evict}

module _ (os : Os) where
  -- The hash comparison of `get_wheel` and what follows it.
  unfoldable pub checked_wheel :
      String → CacheEntry → ℕ → Result String → CacheManager → Result (Option String) × CacheManager
  unfolding save_index
  checked_wheel key e now (err x) s = (err x, s)
  checked_wheel key e now (ok actual) s =
      if actual == e.sha256
      then (ok (some e.path), save_index (touch key e now s))
      else (ok none, save_index (forget key (delete e.path s)))

  unfoldable pub get_wheel :
      String → String → ℕ → CacheManager → Result (Option String) × CacheManager
  unfolding checked_wheel
  get_wheel pkg version now s =
      let key = cache_key (wheel pkg version) in
      elim (Dict.get s.index key) [
        | none ↦ (ok none, s)
        | some e ↦ elim (Dict.get s.disk e.path) [
          | none ↦ (ok none, save_index (forget key s))
          | some node ↦ checked_wheel key e now (hash_file os node) s
        ]
      ]

  -- The copy of `store_wheel`. The destination is taken to be no directory.
  unfoldable pub copy_wheel : FilePath → String → CacheManager → Result CacheManager
  copy_wheel source dest s =
      if text source == dest then ok s else elim (Dict.get s.disk (text source)) [
        | none ↦ err file_not_found
        | some (file c) ↦ ok (record s { disk = Dict.put s.disk dest (file c) })
        | some (dir d) ↦ err is_a_directory
      ]

  -- `actual_hash = sha256 or self._hash_file(dest)`, `dest.stat()` and the new entry
  unfoldable pub index_wheel :
      Subject → String → String → ℕ → ℕ → CacheManager → Result String × CacheManager
  unfolding save_index
  index_wheel subject dest sha256 cached_at last_accessed s = elim (Dict.get s.disk dest) [
    | none ↦ (err file_not_found, s)
    | some (dir d) ↦ (err is_a_directory, s)
    | some (file c) ↦ (
      ok dest,
      save_index (record s {
        index = Dict.put s.index (cache_key subject) (record {
          path = dest;
          subject = subject;
          sha256 = if sha256 == "" then os.sha256 c else sha256;
          size = os.file_size c;
          cached_at = cached_at;
          last_accessed = last_accessed;
        });
      }),
    )
  ]

  -- The two clock readings are those of the new entry.
  unfoldable pub store_wheel :
      String → String → FilePath → String → ℕ → ℕ → CacheManager → Result String × CacheManager
  store_wheel pkg version source sha256 cached_at last_accessed s =
      let s' = maybe_evict s in
      let dest = join s.wheels_dir source.name in
      elim (copy_wheel source dest s') [
        | err x ↦ (err x, s')
        | ok s'' ↦ index_wheel (wheel pkg version) dest sha256 cached_at last_accessed s''
      ]
