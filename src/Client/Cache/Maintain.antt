-- ===== src/Client/Cache/Maintain.antt =====
-- client/cache.py: `clear` and `verify_integrity`.
pub mod Verified
use Prim.Native.String.{◌++◌}
use text.Mathlib.Text.{starts_with}
use cpip.Common.{
  String, Bool, not, ◌||◌, Option, none, some, List, [], ◌∷◌, ◌++◌ as append, ◌==◌, select,
  if◌then◌else◌,
}
use cpip.Common.Dict
use cpip.Files.{Node, file, dir, Disk, Os}
use cpip.Client.Cache.State.{CacheManager, CacheEntry, Index, save_index, delete, forget}

-- `shutil.rmtree(d)` and `d.mkdir()`: nothing is left below `d`.
unfoldable pub empty_dir : String → Disk → Disk
empty_dir d = select (λ f. not (starts_with f.0 (d ++ "/")))

unfoldable pub clear : CacheManager → CacheManager
unfolding empty_dir save_index
clear s = save_index (record s {
  disk = empty_dir s.metadata_dir (empty_dir s.layers_dir (empty_dir s.wheels_dir s.disk));
  index = [];
})

-- `if issues: self._save_index()`
unfoldable pub save_if : List String × CacheManager → List String × CacheManager
unfolding save_index
save_if ([], s) = ([], s)
save_if (issue ∷ issues, s) = (issue ∷ issues, save_index s)

module _ (os : Os) where
  -- One round of the loop of `verify_integrity`: the issues it adds, and the new state.
  unfoldable pub verify_entry : String → CacheEntry → CacheManager → List String × CacheManager
  verify_entry key e s = elim (Dict.get s.disk e.path) [
    | none ↦ (("Missing: " ++ key) ∷ [], forget key s)
    | some (dir files) ↦ ([], s)
    | some (file c) ↦
        if e.sha256 == "" || os.sha256 c == e.sha256
        then ([], s)
        else (("Corrupt: " ++ (key ++ " (hash mismatch)")) ∷ [], forget key (delete e.path s))
  ]

  -- The loop over a copy of the items.
  unfoldable pub verify_loop : Index → CacheManager → List String × CacheManager
  verify_loop [] s = ([], s)
  verify_loop ((key, e) ∷ items) s =
      let (issues, s') = verify_entry key e s in
      let (more, s'') = verify_loop items s' in (append issues more, s'')

  unfoldable pub verify_integrity : CacheManager → List String × CacheManager
  verify_integrity s = save_if (verify_loop s.index s)
