-- ===== src/Client/Installer/Strategies.antt =====
-- client/installer.py: the strategies that install a package by pip or by pkg.
use Prim.Native.String.{◌++◌ as ◌<>◌}
use cpip.Common.{
  ℕ, ◌+◌, String, false, Option, none, some, List, [], ◌∷◌, ◌==◌, if◌then◌else◌, take,
}
use cpip.Files.{FilePath, text, Result, ok, err}
use cpip.Client.Cache.State.{CacheManager}
use cpip.Client.Cache.Wheels.{get_wheel, store_wheel}
use cpip.Client.Resolver.{PackageResolution}
use cpip.Client.Installer.World.{
  World, Poll, Outside, Attempt, run_process, pip_install, requirement, report, download_wheel,
}

unfoldable pub local_pip :
    Outside → String → String → Result (Option String) × CacheManager → World → Attempt × World
local_pip o pkg version (err x, s) w = (Attempt.failure, record w { cache = s })
local_pip o pkg version (ok none, s) w =
    report (run_process o (pip_install o (requirement pkg version)) (record w { cache = s }))
local_pip o pkg version (ok (some path), s) w =
    report (run_process o (pip_install o path) (record w { cache = s }))

abbrev pub tick : ℕ → World → World
tick n w = record w { ticks = w.ticks + n }

unfoldable pub install_local : Outside → String → String → World → Attempt × World
install_local o pkg version w =
    local_pip o pkg version (get_wheel o.os pkg version (o.clock w.ticks) w.cache) (tick 1 w)

unfoldable pub install_termux : Outside → String → World → Attempt × World
install_termux o pkg w =
    report (run_process o ("pkg" ∷ "install" ∷ "-y" ∷ ("python-" <> pkg) ∷ []) w)

-- `self.cache.store_wheel(...)`: two readings of the clock.
unfoldable pub keep_wheel :
    Outside → String → String → FilePath → String → World → Result String × World
keep_wheel o pkg version path sha256 w =
    let r =
      store_wheel o.os pkg version path sha256 (o.clock w.ticks) (o.clock (w.ticks + 1)) w.cache in
    (r.0, record (tick 2 w) { cache = r.1 })

abbrev pub non_empty : Option String → Option String
non_empty none = none
non_empty (some s) = if s == "" then none else some s

abbrev pub known_url : PackageResolution → Option String
known_url res = elim res.info [ none ↦ none | some info ↦ non_empty info.wheel_url ]

abbrev pub known_hash : PackageResolution → String
known_hash res = elim res.info [
  | none ↦ ""
  | some info ↦ elim info.wheel_hash [ none ↦ "" | some h ↦ h ]
]

abbrev pub url_of : Outside → String → String → PackageResolution → Option String
url_of o pkg version res = elim (known_url res) [
  | some url ↦ some url
  | none ↦ non_empty (o.wheel_url pkg version)
]

-- What follows the download of a cloud wheel.
unfoldable pub pip_stored : Outside → FilePath → Result String × World → Attempt × World
pip_stored o path (err x, w) = (Attempt.failure, w)
pip_stored o path (ok dest, w) = report (run_process o (pip_install o (text path)) w)

unfoldable pub store_and_pip :
    Outside → String → String → PackageResolution → Option FilePath × World → Attempt × World
store_and_pip o pkg version res (none, w) = (Attempt.answered false, w)
store_and_pip o pkg version res (some path, w) =
    pip_stored o path (keep_wheel o pkg version path (known_hash res) w)

unfoldable pub install_cloud_wheel :
    Outside → String → String → PackageResolution → World → Attempt × World
install_cloud_wheel o pkg version res w = elim (url_of o pkg version res) [
  | none ↦ (Attempt.answered false, w)
  | some url ↦ store_and_pip o pkg version res (download_wheel o url w)
]

-- Within the `try` of `_install_cloud_build` an exception answers False.
abbrev pub caught : Attempt × World → Attempt × World
caught (Attempt.failure, w) = (Attempt.answered false, w)
caught (Attempt.answered b, w) = (Attempt.answered b, w)

unfoldable pub local_stored : Outside → String → String → Result String × World → Attempt × World
local_stored o pkg version (err x, w) = (Attempt.failure, w)
local_stored o pkg version (ok dest, w) = install_local o pkg version w

-- A build that succeeded: `none` where its wheel is not to be had, and polling goes on.
unfoldable pub built_wheel :
    Outside → String → String → Option FilePath × World → Option Attempt × World
built_wheel o pkg version (none, w) = (none, w)
built_wheel o pkg version (some path, w) =
    let r = local_stored o pkg version (keep_wheel o pkg version path "" w) in (some r.0, r.1)

unfoldable pub poll_loop : Outside → String → String → List Poll → World → Attempt × World
poll_loop o pkg version [] w = (Attempt.answered false, w)
poll_loop o pkg version (Poll.pending ∷ polls) w = poll_loop o pkg version polls w
poll_loop o pkg version (Poll.raised ∷ polls) w = (Attempt.failure, w)
poll_loop o pkg version (Poll.failed ∷ polls) w = (Attempt.answered false, w)
poll_loop o pkg version (Poll.succeeded url ∷ polls) w = elim (non_empty url) [
  | none ↦ poll_loop o pkg version polls w
  | some u ↦
      let r = built_wheel o pkg version (download_wheel o u w) in
      let rest = poll_loop o pkg version polls r.1 in elim r.0 [ none ↦ rest | some a ↦ (a, r.1) ]
]

-- At most 360 polls.
unfoldable pub install_cloud_build : Outside → String → String → World → Attempt × World
install_cloud_build o pkg version w = elim (o.submit_build pkg version) [
  | none ↦ (Attempt.answered false, w)
  | some polls ↦ caught (poll_loop o pkg version (take 360 polls) w)
]
