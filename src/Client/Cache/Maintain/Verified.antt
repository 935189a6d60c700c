-- ===== src/Client/Cache/Maintain/Verified.antt =====
-- client/cache.py: what `verify_integrity` reports and removes.
use Prim.Native.String.{◌++◌}
use cpip.Common.{
  String, ◌≡◌, refl, ◌≢◌, ◌||◌, Option, none, some, List, [], ◌∷◌, ◌++◌ as append, ◌==◌, arith,
  eq_iff, eq_refl, if◌then◌else◌, ap, ◌∙◌,
}
use mathlib.Core.Path.{ap₂}
use cpip.Common.Dict
use cpip.Common.Dict.{Dict, Unique, get-remove}
use cpip.Files.{Node, file, dir, Disk, Os}
use cpip.Client.Cache.State.{CacheManager, CacheEntry, Index, save_index}
use cpip.Client.Cache.Maintain.{verify_entry, verify_loop, save_if, verify_integrity}

-- No two entries share a path.
abbrev pub DistinctPaths : Index → Type 0
DistinctPaths [] = Unit
DistinctPaths ((_, e) ∷ index) =
    ((j : String) (x : CacheEntry) → Dict.get index j ≡ some x → e.path ≢ x.path)
    × DistinctPaths index

-- What is wrong with an entry, on a given disk: its path is not there, or is a file that has not
-- the recorded digest.
unfoldable pub issue : Os → String → CacheEntry → Option Node → Option String
issue os key e none = some ("Missing: " ++ key)
issue os key e (some (dir files)) = none
issue os key e (some (file c)) =
    if e.sha256 == "" || os.sha256 c == e.sha256
    then none
    else some ("Corrupt: " ++ (key ++ " (hash mismatch)"))

abbrev pub listed : Option String → List String → List String
listed none l = l
listed (some x) l = x ∷ l

-- The issues of all entries, in the order of the index.
unfoldable pub issues_of : Os → Disk → Index → List String
issues_of os disk [] = []
issues_of os disk ((key, e) ∷ index) =
    listed (issue os key e (Dict.get disk e.path)) (issues_of os disk index)

-- An entry that has no issue stays, and one that has goes.
abbrev pub survivor : Os → String → CacheEntry → Option Node → Option CacheEntry
survivor os key e node = elim (issue os key e node) [ none ↦ some e | some _ ↦ none ]

module _ (os : Os) where
  -- A round changes the disk at most at the entry's own path.
  verify_entry_disk :
      (key : String) (e : CacheEntry) (s : CacheManager) (p : String)
      → e.path ≢ p
      → Dict.get (verify_entry os key e s).1.disk p ≡ Dict.get s.disk p
  unfolding verify_entry
  verify_entry_disk key e s p h = ground (arith, get-remove s.disk e.path p, eq_iff e.path p)

  verify_entry_index :
      (key : String) (e : CacheEntry) (s : CacheManager) (j : String)
      → Dict.get (verify_entry os key e s).1.index j
        ≡ elim (issue os key e (Dict.get s.disk e.path)) [
          | none ↦ Dict.get s.index j
          | some _ ↦ if key == j then none else Dict.get s.index j
        ]
  unfolding verify_entry issue
  verify_entry_index key e s j = ground (arith, get-remove s.index key j)

  verify_entry_issues :
      (key : String) (e : CacheEntry) (s : CacheManager) (more : List String)
      → append (verify_entry os key e s).0 more
        ≡ listed (issue os key e (Dict.get s.disk e.path)) more
  unfolding verify_entry issue
  verify_entry_issues key e s more = ground arith

  -- On the paths of other entries the disk reads the same, so their issues are the same.
  issues_of_agree :
      (index : Index) (d d' : Disk)
      → ((j : String) (x : CacheEntry)
          → Dict.get index j ≡ some x
          → Dict.get d x.path ≡ Dict.get d' x.path)
      → Unique index
      → issues_of os d index ≡ issues_of os d' index
  unfolding issues_of Dict.get
  issues_of_agree [] d d' h u = refl
  issues_of_agree ((key, e) ∷ index) d d' h u =
      ap₂ (λ (o : Option Node) (l : List String). listed (issue os key e o) l)
        (h key e (ground (arith, eq_refl key)))
        (issues_of_agree index d d' (λ j x m. h j x (ground (arith, u.0, m, eq_iff key j))) u.1)

  -- The loop leaves alone the keys that are not among its items.
  verify_loop_absent :
      (items : Index) (s : CacheManager) (j : String)
      → Dict.get items j ≡ none
      → Dict.get (verify_loop os items s).1.index j ≡ Dict.get s.index j
  unfolding verify_loop Dict.get
  verify_loop_absent [] s j h = refl
  verify_loop_absent ((key, e) ∷ items) s j h =
      let s' = (verify_entry os key e s).1 in
      ground (arith, verify_loop_absent items s' j, verify_entry_index key e s j)

  verify_loop_issues :
      (items : Index) (s : CacheManager)
      → Unique items
      → DistinctPaths items
      → (verify_loop os items s).0 ≡ issues_of os s.disk items
  unfolding verify_loop issues_of
  verify_loop_issues [] s u p = refl
  verify_loop_issues ((key, e) ∷ items) s u p =
      let s' = (verify_entry os key e s).1 in
      let later = verify_loop_issues items s' u.1 p.1 in
      let agree =
        issues_of_agree items s'.disk s.disk (λ j x m. verify_entry_disk key e s x.path (p.0 j x m))
          u.1 in
      verify_entry_issues key e s (verify_loop os items s').0
      ∙ ap (listed (issue os key e (Dict.get s.disk e.path))) (later ∙ agree)

  verify_loop_index :
      (items : Index) (s : CacheManager) (j : String) (x : CacheEntry)
      → Unique items
      → DistinctPaths items
      → Dict.get items j ≡ some x
      → Dict.get s.index j ≡ some x
      → Dict.get (verify_loop os items s).1.index j ≡ survivor os j x (Dict.get s.disk x.path)
  unfolding verify_loop Dict.get
  verify_loop_index [] s j x u p h g = absurd (cc)
  verify_loop_index ((key, e) ∷ items) s j x u p h g =
      let s' = (verify_entry os key e s).1 in
      ground (
        arith,
        eq_iff key j,
        u.0,
        p.0 j x,
        verify_entry_index key e s j,
        verify_entry_disk key e s x.path,
        verify_loop_absent items s' j,
        verify_loop_index items s' j x u.1 p.1,
      )

index-save_if : (r : List String × CacheManager) → (save_if r).1.index ≡ r.1.index
unfolding save_if save_index
index-save_if ([], s) = refl
index-save_if (x ∷ issues, s) = ground arith

issues-save_if : (r : List String × CacheManager) → (save_if r).0 ≡ r.0
unfolding save_if
issues-save_if ([], s) = refl
issues-save_if (x ∷ issues, s) = refl

module _ (os : Os) (s : CacheManager) (keys : Unique s.index) (paths : DistinctPaths s.index) where
  -- Where no two entries share a key or a path, `verify_integrity` reports exactly the entries whose
  -- path is gone or whose file has not the recorded digest, in the order of the index, and
  -- of each entry it keeps it unchanged if there is nothing to report, and removes it if there is.
  pub verify_integrity_exact :
      (j : String) (e : CacheEntry)
      → Dict.get s.index j ≡ some e
      → ((verify_integrity os s).0 ≡ issues_of os s.disk s.index)
        × (Dict.get (verify_integrity os s).1.index j ≡ survivor os j e (Dict.get s.disk e.path))
  unfolding verify_integrity
  verify_integrity_exact j e h = (
    issues-save_if (verify_loop os s.index s) ∙ verify_loop_issues os s.index s keys paths,
    rw index-save_if (verify_loop_index os s.index s j e keys paths h h),
  )
