-- ===== src/Client/Cache/Wheels/Integrity.antt =====
-- client/cache.py: what `get_wheel` returns is what was recorded, and what `store_wheel` records.
use cpip.Common.{
  ℕ, String, ◌≡◌, refl, ◌||◌, Option, none, some, arith, ◌==◌, eq_iff, eq_refl, if◌then◌else◌,
  Option-cases, inl, inr,
}
use cpip.Common.Dict
use cpip.Common.Dict.{dict_laws, get-put, get-remove}
use cpip.Files.{Contents, Node, file, dir, FilePath, join, text, Os, ok}
use cpip.Client.Cache.State.{CacheManager, CacheEntry, wheel, cache_key, save_index}
use cpip.Client.Cache.Evict.{maybe_evict}
use cpip.Client.Cache.Wheels.{checked_wheel, get_wheel, copy_wheel, index_wheel, store_wheel}

-- What `get_wheel` does with an entry whose file holds `c`. If the digest of `c` is the recorded one,
-- the result is the path, no file changes, and the entry is marked as used now; if not, there is no
-- result, and both the file and the entry go.
pub get_wheel_file :
    (os : Os) (pkg version : String) (now : ℕ) (s : CacheManager) (e : CacheEntry) (c : Contents)
    → Dict.get s.index (cache_key (wheel pkg version)) ≡ some e
    → Dict.get s.disk e.path ≡ some (file c)
    → let (r, s') = get_wheel os pkg version now s in
      let valid = os.sha256 c == e.sha256 in
      (r ≡ ok (if valid then some e.path else none))
      × (Dict.get s'.disk e.path ≡ (if valid then some (file c) else none))
      × (Dict.get s'.index (cache_key (wheel pkg version))
          ≡ (if valid then some (record e { last_accessed = now }) else none))
unfolding get_wheel checked_wheel save_index
get_wheel_file os pkg version now s e c entry content = ground (
  arith,
  get-put s.index (cache_key (wheel pkg version)) (cache_key (wheel pkg version))
      (record e { last_accessed = now }),
  get-remove s.index (cache_key (wheel pkg version)) (cache_key (wheel pkg version)),
  get-remove s.disk e.path e.path,
  eq_refl (cache_key (wheel pkg version)),
  eq_refl e.path,
)

-- A hit needs an entry, and a file at its path.
hit_needs_entry :
    (os : Os) (pkg version : String) (now : ℕ) (s : CacheManager) (path : String)
    → (get_wheel os pkg version now s).0 ≡ ok (some path)
    → (e : CacheEntry) × (Dict.get s.index (cache_key (wheel pkg version)) ≡ some e)
unfolding get_wheel
hit_needs_entry os pkg version now s path h =
    elim (Option-cases (Dict.get s.index (cache_key (wheel pkg version)))) [
      | inl n ↦ absurd (ground arith)
      | inr found ↦ found
    ]

hit_needs_file :
    (os : Os) (pkg version : String) (now : ℕ) (s : CacheManager) (path : String) (e : CacheEntry)
    (node : Option Node)
    → Dict.get s.disk e.path ≡ node
    → (get_wheel os pkg version now s).0 ≡ ok (some path)
    → Dict.get s.index (cache_key (wheel pkg version)) ≡ some e
    → (c : Contents) × (Dict.get s.disk e.path ≡ some (file c))
unfolding get_wheel checked_wheel
hit_needs_file os pkg version now s path e none d h m = absurd (ground arith)
hit_needs_file os pkg version now s path e (some (file c)) d h m = (c, d)
hit_needs_file os pkg version now s path e (some (dir files)) d h m = absurd (ground arith)

-- Whatever `get_wheel` hands out is recorded under its key, and is a file on the disk whose digest is
-- the recorded one.
pub get_wheel_sound :
    (os : Os) (pkg version : String) (now : ℕ) (s : CacheManager) (path : String)
    → (get_wheel os pkg version now s).0 ≡ ok (some path)
    → (e : CacheEntry) × (c : Contents) × (Dict.get s.index (cache_key (wheel pkg version))
        ≡ some e)
      × (e.path ≡ path)
      × (Dict.get (get_wheel os pkg version now s).1.disk path ≡ some (file c))
      × (os.sha256 c ≡ e.sha256)
get_wheel_sound os pkg version now s path h =
    let (e, entry) = hit_needs_entry os pkg version now s path h in
    let (c, content) = hit_needs_file os pkg version now s path e _ refl h entry in
    let facts = get_wheel_file os pkg version now s e c entry content in
    (
      e,
      c,
      entry,
      ground (arith, facts),
      ground (arith, facts),
      ground (arith, facts, eq_iff (os.sha256 c) e.sha256),
    )

-- The entry that `store_wheel` records of a file that holds `c`.
abbrev new_entry : Os → String → String → String → String → ℕ → ℕ → Contents → CacheEntry
new_entry os pkg version dest sha256 cached_at last_accessed c = record {
  path = dest;
  subject = wheel pkg version;
  sha256 = if sha256 == "" then os.sha256 c else sha256;
  size = os.file_size c;
  cached_at = cached_at;
  last_accessed = last_accessed;
}

module _ (os : Os) (pkg version : String) (source : FilePath) (sha256 : String)
    (cached_at last_accessed : ℕ) (s : CacheManager) (c : Contents)
    (there : Dict.get (maybe_evict s).disk (text source) ≡ some (file c)) where
  -- `store_wheel` of a source that is a file succeeds, and leaves the file and its entry.
  pub store_wheel_entry :
      let (r, s') = store_wheel os pkg version source sha256 cached_at last_accessed s in
      let dest = join s.wheels_dir source.name in
      (r ≡ ok dest)
      × (Dict.get s'.disk dest ≡ some (file c))
      × (Dict.get s'.index (cache_key (wheel pkg version))
          ≡ some (new_entry os pkg version dest sha256 cached_at last_accessed c))
  unfolding store_wheel copy_wheel index_wheel save_index
  store_wheel_entry =
      let dest = join s.wheels_dir source.name in
      let key = cache_key (wheel pkg version) in
      ground (
        arith,
        eq_iff (text source) dest,
        eq_refl dest,
        eq_refl key,
        get-put (maybe_evict s).disk dest dest (file c),
        get-put (maybe_evict s).index key key
            (new_entry os pkg version dest sha256 cached_at last_accessed c),
      )

  -- After `store_wheel` has copied a source that is a file, `get_wheel` of the same package and
  -- version returns the destination, unless a digest was passed in that is not the file's.
  pub get_wheel-store_wheel :
      (now : ℕ)
      → (get_wheel os pkg version now
          (store_wheel os pkg version source sha256 cached_at last_accessed s).1).0
        ≡ ok (
            if sha256 == "" || os.sha256 c == sha256
            then some (join s.wheels_dir source.name)
            else none)
  get_wheel-store_wheel now =
      let (r, content, entry) = store_wheel_entry in
      let dest = join s.wheels_dir source.name in
      let s' = (store_wheel os pkg version source sha256 cached_at last_accessed s).1 in
      let e = new_entry os pkg version dest sha256 cached_at last_accessed c in
      ground (arith, get_wheel_file os pkg version now s' e c entry content, eq_refl (os.sha256 c))
