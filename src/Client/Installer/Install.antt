-- ===== src/Client/Installer/Install.antt =====
-- client/installer.py: `install`, the strategies of a resolution in their order.
use cpip.Common.{String, Bool, true, false, not, ◌&&◌, List, [], ◌∷◌, ◌==◌, if◌then◌else◌}
use cpip.Common.Dict
use cpip.Common.Dict.{Dict}
use cpip.Files.{Result, ok, err}
use cpip.Client.Cache.State.{CacheManager}
use cpip.Client.Resolver.{PackageStrategy, PackageResolution, resolve, already_installed}
use cpip.Client.Installer.World.{World, Outside, Attempt}
use cpip.Client.Installer.Strategies.{
  tick, install_local, install_termux, install_cloud_wheel, install_cloud_build,
}

-- `register_cloud_package` of runtime/hooks.py
unfoldable pub register_cloud_package : String → Bool → World → World
register_cloud_package pkg hybrid w = record w { registered = Dict.put w.registered pkg hybrid }

unfoldable pub execute_strategy :
    Outside → String → String → PackageResolution → PackageStrategy → World → Attempt × World
execute_strategy o pkg version res PackageStrategy.local_install w = install_local o pkg version w
execute_strategy o pkg version res PackageStrategy.termux_pkg w = install_termux o pkg w
execute_strategy o pkg version res PackageStrategy.cloud_wheel w =
    install_cloud_wheel o pkg version res w
execute_strategy o pkg version res PackageStrategy.cloud_build w =
    install_cloud_build o pkg version w
execute_strategy o pkg version res PackageStrategy.cloud_exec w =
    (Attempt.answered true, register_cloud_package pkg false w)
execute_strategy o pkg version res PackageStrategy.hybrid w =
    (Attempt.answered true, register_cloud_package pkg true w)

-- What `install` does: it returns True, or it raises PackageInstallError or the error of the cache.
pub data Installed : Type 0 where
  done : Installed
  exhausted : Installed
  unresolved : Installed

abbrev pub success : Attempt → Bool
success (Attempt.answered b) = b
success Attempt.failure = false

unfoldable pub try_strategies :
    Outside → String → String → PackageResolution → List PackageStrategy → World → Installed × World
try_strategies o pkg version res [] w = (Installed.exhausted, w)
try_strategies o pkg version res (s ∷ strategies) w =
    let r = execute_strategy o pkg version res s w in
    let rest = try_strategies o pkg version res strategies r.1 in
    if success r.0 then (Installed.done, r.1) else rest

abbrev pub is_local : PackageStrategy → Bool
is_local PackageStrategy.local_install = true
is_local _ = false

unfoldable pub install_resolved :
    Outside
    → String
    → String
    → Bool
    → Result PackageResolution × CacheManager
    → World
    → Installed × World
install_resolved o pkg version force (err x, s) w = (Installed.unresolved, record w { cache = s })
install_resolved o pkg version force (ok res, s) w =
    if is_local res.strategy && not force && res.reason == already_installed
    then (Installed.done, record w { cache = s })
    else try_strategies o pkg version res (res.strategy ∷ res.fallback_strategies)
        (record w { cache = s })

unfoldable pub install : Outside → String → String → Bool → World → Installed × World
install o pkg version force w =
    install_resolved o pkg version force
      (resolve o.os o.surroundings pkg version (o.clock w.ticks) w.cache) (tick 1 w)
