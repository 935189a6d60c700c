-- ===== src/Client/Cache/Layers.antt =====
-- client/cache.py: the layer cache, `get_layer` and `store_layer`.
use cpip.Common.{ℕ, String, Option, none, some, ◌==◌, if◌then◌else◌}
use cpip.Common.Dict
use cpip.Files.{
  Node, file, dir, join, Os, total_size, Result, ok, err, file_not_found, not_a_directory,
}
use cpip.Client.Cache.State.{CacheManager, layer, cache_key, save_index, forget, touch}
use cpip.Client.Cache.Evict.{maybe_evict}

unfoldable pub get_layer : String → ℕ → CacheManager → Option String × CacheManager
unfolding save_index
get_layer layer_id now s =
    let key = cache_key (layer layer_id) in
    elim (Dict.get s.index key) [
      | none ↦ (none, s)
      | some e ↦ elim (Dict.get s.disk e.path) [
        | none ↦ (none, save_index (forget key s))
        | some node ↦ (some e.path, save_index (touch key e now s))
      ]
    ]

-- `shutil.rmtree(dest)` if it exists: a file there raises.
unfoldable pub clear_dest : String → CacheManager → Result CacheManager
clear_dest dest s = elim (Dict.get s.disk dest) [
  | none ↦ ok s
  | some (file c) ↦ err not_a_directory
  | some (dir d) ↦ ok (record s { disk = Dict.remove s.disk dest })
]

-- `shutil.copytree(source, dest)`
unfoldable pub copy_tree : String → String → CacheManager → Result CacheManager
copy_tree source dest s = elim (Dict.get s.disk source) [
  | none ↦ err file_not_found
  | some (file c) ↦ err not_a_directory
  | some (dir d) ↦ ok (record s { disk = Dict.put s.disk dest (dir d) })
]

module _ (os : Os) where
  -- `_dir_size`: nothing is found below a file or a missing path.
  unfoldable pub dir_size : Option Node → ℕ
  dir_size none = 0
  dir_size (some (file c)) = 0
  dir_size (some (dir d)) = total_size os d

  unfoldable pub index_layer :
      String → String → String → ℕ → ℕ → CacheManager → Result String × CacheManager
  unfolding save_index dir_size
  index_layer layer_id dest sha256 cached_at last_accessed s = (
    ok dest,
    save_index (record s {
      index = Dict.put s.index (cache_key (layer layer_id)) (record {
        path = dest;
        subject = layer layer_id;
        sha256 = sha256;
        size = dir_size (Dict.get s.disk dest);
        cached_at = cached_at;
        last_accessed = last_accessed;
      });
    }),
  )

  unfoldable pub store_layer :
      String → String → String → ℕ → ℕ → CacheManager → Result String × CacheManager
  store_layer layer_id source sha256 cached_at last_accessed s =
      let s' = maybe_evict s in
      let dest = join s.layers_dir layer_id in
      if source == dest
      then index_layer layer_id dest sha256 cached_at last_accessed s'
      else elim (clear_dest dest s') [
        | err x ↦ (err x, s')
        | ok s1 ↦ elim (copy_tree source dest s1) [
          | err x ↦ (err x, s1)
          | ok s2 ↦ index_layer layer_id dest sha256 cached_at last_accessed s2
        ]
      ]
