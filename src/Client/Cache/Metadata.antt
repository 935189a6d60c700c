-- ===== src/Client/Cache/Metadata.antt =====
-- client/cache.py: the metadata cache, `get_metadata` and `store_metadata`. A file of plain bytes
-- stands for text that is no JSON.
use Prim.Native.String.{◌++◌}
use text.Mathlib.TextLemmas.{append_cancel_left, append_cancel_right}
use cpip.Common.{
  ℕ, ◌+◌, String, ◌≡◌, ◌≢◌, Bool, Option, none, some, arith, ltb, if◌then◌else◌, eq_iff, eq_refl,
  seconds,
}
use mathlib.Core.Option.{get_or}
use cpip.Common.Dict
use cpip.Common.Dict.{get-put, get-remove}
use cpip.Files.{Metadata, bytes, json, file, dir, join, Result, ok, err, is_a_directory}
use cpip.Client.Cache.State.{CacheManager, delete}

-- `self.metadata_dir / f"{package}.json"`
abbrev pub meta_file : CacheManager → String → String
meta_file s pkg = join s.metadata_dir (pkg ++ ".json")

-- `data.get("_cached_at", 0)`
abbrev pub stamp : Metadata → ℕ
stamp m = get_or m.cached_at 0

-- Older than 24 hours.
abbrev pub expired : ℕ → Metadata → Bool
expired now m = ltb (stamp m + seconds 86400) now

unfoldable pub get_metadata : String → ℕ → CacheManager → Option Metadata × CacheManager
get_metadata pkg now s = elim (Dict.get s.disk (meta_file s pkg)) [
  | none ↦ (none, s)
  | some (dir files) ↦ (none, s)
  | some (file (bytes b)) ↦ (none, s)
  | some (file (json m)) ↦ if expired now m then (none, delete (meta_file s pkg) s) else (some m, s)
]

unfoldable pub store_metadata :
    String → Metadata → ℕ → CacheManager → Result (Unit {0}) × CacheManager
store_metadata pkg m now s = elim (Dict.get s.disk (meta_file s pkg)) [
  | some (dir files) ↦ (err is_a_directory, s)
  | _ ↦ (
    ok tt,
    record s {
      disk = Dict.put s.disk (meta_file s pkg) (file (json (record m { cached_at = some now })));
    },
  )
]

pub meta_file_ne : (s : CacheManager) (p q : String) → p ≢ q → meta_file s p ≢ meta_file s q
meta_file_ne s p q h e = h (
    append_cancel_right p q ".json" (
      append_cancel_left "/" (p ++ ".json") (q ++ ".json")
        (append_cancel_left s.metadata_dir ("/" ++ (p ++ ".json")) ("/" ++ (q ++ ".json")) e)))

module _ (pkg : String) (m : Metadata) (stored now : ℕ) (s : CacheManager)
    (done : (store_metadata pkg m stored s).0 ≡ ok tt) where
  -- Metadata that was stored at one time is read at another: with its stamp for 24 hours, and after
  -- that not at all, and then its file is gone.
  pub get_metadata-store_metadata :
      let s1 = (store_metadata pkg m stored s).1 in
      let (found, s2) = get_metadata pkg now s1 in
      let late = ltb (stored + seconds 86400) now in
      (found ≡ (if late then none else some (record m { cached_at = some stored })))
      × (Dict.get s2.disk (meta_file s pkg)
          ≡ (if late then none else some (file (json (record m { cached_at = some stored })))))
  unfolding get_metadata store_metadata
  get_metadata-store_metadata =
      let path = meta_file s pkg in
      let node = file (json (record m { cached_at = some stored })) in
      ground (
        arith,
        get-put s.disk path path node,
        get-remove (Dict.put s.disk path node) path path,
        eq_refl path,
      )

  -- Storing the metadata of one package changes nothing for another.
  pub get_metadata-store_metadata_ne :
      (other : String)
      → pkg ≢ other
      → (get_metadata other now (store_metadata pkg m stored s).1).0 ≡ (get_metadata other now s).0
  unfolding get_metadata store_metadata
  get_metadata-store_metadata_ne other h = ground (
    arith,
    get-put s.disk (meta_file s pkg) (meta_file s other)
        (file (json (record m { cached_at = some stored }))),
    eq_iff (meta_file s pkg) (meta_file s other),
    meta_file_ne s pkg other h,
  )
