-- ===== src/Server/Services/Packages.antt =====
-- server/services/package_service.py: the registry of packages. `model_dump` and the construction of a
-- PackageInfo from it copy the object. `python` and `version` are not read. `search` is not modelled:
-- it compares texts in lower case.
pub mod Unsupported
use cpip.Common.{
  ℕ, String, Bool, true, false, not, Option, none, some, List, [], ◌∷◌, map, ◌==◌, ◌||◌,
  if◌then◌else◌,
}
use cpip.Common.Dict
use cpip.Common.Dict.{Dict}
use cpip.Client.Resolver.{
  PackageStrategy, PackageInfo, strategy_value, mem, cloud_preferred_packages,
}

-- `PackageInfo` of shared/models.py, as the registry keeps it: what the client reads, and the rest.
pub record Registered : Type 0 where
  pub info : PackageInfo
  pub supported_architectures : List String
  pub cloud_only : Bool
  pub layers : List String

abbrev pub Registry : Type 0
Registry = Dict Registered

abbrev pub seeded : String → PackageStrategy → Bool → Bool → List String → Registered
seeded version strategy requires_gpu cloud_only architectures = record {
  info = record {
    version = version;
    strategy = strategy;
    wheel_url = none;
    wheel_hash = none;
    requires_gpu = requires_gpu;
  };
  supported_architectures = architectures;
  cloud_only = cloud_only;
  layers = [];
}

abbrev pub both : List String
both = "aarch64" ∷ "x86_64" ∷ []

abbrev pub seed_packages : Registry
seed_packages =
    ("torch", seeded "2.4.0" PackageStrategy.hybrid true false both)
    ∷ ("tensorflow", seeded "2.16.0" PackageStrategy.cloud_exec true true ("x86_64" ∷ []))
    ∷ ("opencv-python", seeded "4.9.0" PackageStrategy.cloud_wheel false false both)
    ∷ ("scipy", seeded "1.13.0" PackageStrategy.cloud_wheel false false both)
    ∷ ("playwright", seeded "1.44.0" PackageStrategy.cloud_exec false true ("x86_64" ∷ []))
    ∷ ("numpy", seeded "1.26.4" PackageStrategy.local_install false false both)
    ∷ []

abbrev pub unknown : PackageStrategy → PackageInfo
unknown strategy = record {
  version = "latest";
  strategy = strategy;
  wheel_url = none;
  wheel_hash = none;
  requires_gpu = false;
}

unfoldable pub get_package : Registry → String → String → PackageInfo
get_package registry name arch = elim (Dict.get registry name) [
  | some r ↦
      if mem arch r.supported_architectures
      then r.info
      else record (r.info) { strategy = PackageStrategy.cloud_exec }
  | none ↦
      if mem name cloud_preferred_packages
      then unknown PackageStrategy.cloud_exec
      else unknown PackageStrategy.local_install
]

-- An address that is empty counts as none.
unfoldable pub get_wheel_url : Registry → String → Option String
get_wheel_url registry name = elim (Dict.get registry name) [
  | none ↦ none
  | some r ↦ elim r.info.wheel_url [ none ↦ none | some url ↦ if url == "" then none else some url ]
]

unfoldable pub get_layers : Registry → String → List String
get_layers registry name = elim (Dict.get registry name) [ none ↦ [] | some r ↦ r.layers ]

abbrev pub CatalogEntry : Type 0
CatalogEntry = String × String × String

abbrev pub get_catalog : Registry → List CatalogEntry
get_catalog =
    map (λ (e : String × Registered). (e.0, e.1.info.version, strategy_value e.1.info.strategy))
