-- ===== src/Client/Installer/Attempts.antt =====
-- client/installer.py: an installation by the strategies of the resolver.
use cpip.Common.{Bool, true, false, ◌||◌, List, [], ◌∷◌}
use cpip.Client.Resolver.{PackageStrategy, PackageResolution}
use cpip.Client.Installer.World.{World}

-- The strategies that set up a proxy, and so cannot fail.
abbrev pub is_proxy : PackageStrategy → Bool
is_proxy PackageStrategy.cloud_exec = true
is_proxy PackageStrategy.hybrid = true
is_proxy _ = false

abbrev pub has_proxy : List PackageStrategy → Bool
has_proxy [] = false
has_proxy (s ∷ strategies) = is_proxy s || has_proxy strategies

abbrev strategies_of : PackageResolution → List PackageStrategy
strategies_of res = res.strategy ∷ res.fallback_strategies
