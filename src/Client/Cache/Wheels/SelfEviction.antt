-- ===== src/Client/Cache/Wheels/SelfEviction.antt =====
-- client/cache.py: `store_wheel` makes room before it looks at its source. `_download_wheel` of
-- client/installer.py downloads to the wheels directory itself, so the source may be the file of an
-- entry that has to go.
use cpip.Common.{ℕ, String, ◌≡◌, true, none, [], ◌∷◌, arith, eq_iff, eq_refl, length}
use cpip.Common.Dict
use cpip.Common.Dict.{get-remove}
use cpip.Files.{FilePath, join, text, Os, err, file_not_found}
use cpip.Client.Cache.State.{CacheManager, CacheEntry, save_index}
use cpip.Client.Cache.Evict.{oldest_from, over_limit, evict_entry, evict_loop, maybe_evict}
use cpip.Client.Cache.Evict.Bounds.{evict_loop_step}
use cpip.Client.Cache.Wheels.{copy_wheel, index_wheel, store_wheel}

only_evicted :
    (s : CacheManager) (key : String) (e : CacheEntry)
    → s.index ≡ (key, e) ∷ []
    → over_limit s ≡ true
    → ((maybe_evict s).index ≡ []) × (Dict.get (maybe_evict s).disk e.path ≡ none)
unfolding maybe_evict save_index evict_loop oldest_from evict_entry
only_evicted s key e i over =
    let all : length s.index ≡ 1 = rw i in
    let step = evict_loop_step 0 s (key, e) [] i over in
    let emptied : Dict.remove s.index key ≡ [] =
      rw i (unfold Dict.remove in ground (arith, eq_refl key)) in
    ground (arith, all, step, emptied, get-remove s.disk e.path e.path, eq_refl e.path)

-- If the only entry is over the limit and its path is the wheel to store, the wheel is deleted before
-- it is stored: the call raises FileNotFoundError, the file is gone, and nothing is recorded.
pub store_wheel_evicts_source :
    (os : Os) (pkg version key sha256 : String) (source : FilePath) (e : CacheEntry)
    (cached_at last_accessed : ℕ) (s : CacheManager)
    → s.index ≡ (key, e) ∷ []
    → over_limit s ≡ true
    → text source ≡ join s.wheels_dir source.name
    → e.path ≡ text source
    → let (r, s') = store_wheel os pkg version source sha256 cached_at last_accessed s in
      (r ≡ err file_not_found) × (Dict.get s'.disk (text source) ≡ none) × (s'.index ≡ [])
unfolding store_wheel copy_wheel index_wheel
store_wheel_evicts_source os pkg version key sha256 source e cached_at last_accessed s i over d p =
    ground
      (arith, only_evicted s key e i over, eq_iff (text source) (join s.wheels_dir source.name))
