-- ===== src/Server/Services/Packages/Unsupported.antt =====
-- server/services/package_service.py with client/resolver.py: packages for other architectures.
use cpip.Common.{◌≡◌, ◌∙◌, ap, String, true, false, some, arith}
use cpip.Common.Dict
use cpip.Client.Resolver.{PackageStrategy, PackageInfo, Surroundings, cloud_strategy, mem}
use cpip.Client.Installer.Attempts.{is_proxy}
use cpip.Server.Services.Packages.{Registry, Registered, get_package}

remote : PackageInfo → PackageInfo
remote info = record info { strategy = PackageStrategy.cloud_exec }

get_package-remote :
    (registry : Registry) (name arch : String) (r : Registered)
    → Dict.get registry name ≡ some r
    → mem arch r.supported_architectures ≡ false
    → get_package registry name arch ≡ remote r.info
unfolding get_package remote
get_package-remote registry name arch r e m = ground (arith, e, m)

remote-proxy :
    (env : Surroundings) (info : PackageInfo) → is_proxy (cloud_strategy env (remote info)) ≡ true
unfolding cloud_strategy remote
remote-proxy env info = ground arith

-- A registered package that does not support the client's architecture is run in the cloud: what the
-- server answers makes the client choose a strategy that sets up a proxy, whatever its system.
pub unsupported_is_proxy :
    (registry : Registry) (name arch : String) (r : Registered) (env : Surroundings)
    → Dict.get registry name ≡ some r
    → mem arch r.supported_architectures ≡ false
    → is_proxy (cloud_strategy env (get_package registry name arch)) ≡ true
unsupported_is_proxy registry name arch r env e m =
    ap (λ (info : PackageInfo). is_proxy (cloud_strategy env info))
      (get_package-remote registry name arch r e m)
    ∙ remote-proxy env r.info
