-- ===== src/Client/Resolver/Offline.antt =====
-- client/resolver.py: the offline mode.
use cpip.Common.{ℕ, ◌≡◌, refl, String, true, Option, none, some, arith}
use cpip.Files.{Os, Result, ok, err}
use cpip.Client.Cache.State.{CacheManager}
use cpip.Client.Cache.Wheels.{get_wheel}
use cpip.Client.Resolver.{
  PackageInfo, Surroundings, resolve, resolve_cached, resolve_missing, resolve_local,
}

resolve_cached_offline :
    (env : Surroundings) (query : String → String → Option PackageInfo) (pkg version : String)
    (r : Result (Option String) × CacheManager)
    → env.offline_mode ≡ true
    → resolve_cached env pkg version r
      ≡ resolve_cached (record env { query_cloud = query }) pkg version r
unfolding resolve_missing resolve_local
resolve_cached_offline env query pkg version (err x, s) o = refl
resolve_cached_offline env query pkg version (ok none, s) o = ground (arith, o)
resolve_cached_offline env query pkg version (ok (some path), s) o = refl

-- Offline, the registry is not asked: a package is resolved alike whatever the registry would say.
pub resolve_offline :
    (os : Os) (env : Surroundings) (query : String → String → Option PackageInfo)
    (pkg version : String) (now : ℕ) (s : CacheManager)
    → env.offline_mode ≡ true
    → resolve os env pkg version now s
      ≡ resolve os (record env { query_cloud = query }) pkg version now s
unfolding resolve
resolve_offline os env query pkg version now s o =
    ground (arith, resolve_cached_offline env query pkg version (get_wheel os pkg version now s) o)
