-- ===== src/Client/Installer/Tests.antt =====
-- Runs of client/installer.py and client/resolver.py: a wheel from the cloud with the wrong digest, a
-- package that pip cannot install, and the offline mode.
use cpip.Common.{◌≡◌, refl, String, true, false, some, none, [], ◌∷◌}
use cpip.Common.Dict
use cpip.Files.{bytes, Os, ok}
use cpip.Client.Cache.State.{saved, save_index, load_index}
use cpip.Client.Cache.Wheels.{get_wheel, store_wheel, checked_wheel, copy_wheel, index_wheel}
use cpip.Client.Cache.Evict.{maybe_evict, evict_loop, oldest, evict_entry}
use cpip.Client.Resolver.{
  PackageStrategy, PackageInfo, PackageResolution, Surroundings, resolve, resolve_missing,
  resolve_local, cloud_resolution, cloud_strategy,
}
use cpip.Client.Installer.World.{
  World, Poll, Fetched, Outside, last_part, filename, run_process, put_file, download_path,
  download_wheel,
}
use cpip.Client.Installer.Strategies.{
  local_pip, install_local, install_termux, keep_wheel, pip_stored, store_and_pip,
  install_cloud_wheel, local_stored, built_wheel, poll_loop, install_cloud_build,
}
use cpip.Client.Installer.Install.{
  register_cloud_package, execute_strategy, try_strategies, install_resolved, install,
}

program : Unit {0}
unfolding save_index load_index get_wheel store_wheel checked_wheel copy_wheel index_wheel
    maybe_evict evict_loop oldest evict_entry resolve resolve_missing resolve_local cloud_resolution
    cloud_strategy last_part run_process local_pip install_local install_termux download_wheel
    keep_wheel pip_stored store_and_pip install_cloud_wheel local_stored built_wheel poll_loop
    install_cloud_build register_cloud_package execute_strategy try_strategies install_resolved
    install Dict.get Dict.put Dict.remove
program = tt

abbrev os : Os
os = record { sha256 = λ c. "c0de"; file_size = λ c. 4 }

abbrev url : String
url = "https://host/wheels/numpy.whl?key=1"

abbrev numpy : PackageInfo
numpy = record {
  version = "2.0";
  strategy = PackageStrategy.cloud_wheel;
  wheel_url = some url;
  wheel_hash = some "beef";
  requires_gpu = false;
}

abbrev phone : Surroundings
phone = record {
  offline_mode = false;
  gpu_offload = true;
  is_termux = true;
  has_gpu = false;
  is_installed = λ pkg. false;
  installed_version = λ pkg. none;
  query_cloud = λ pkg version. some numpy;
  has_termux_pkg = λ pkg. false;
}

abbrev outside : Outside
outside = record {
  os = os;
  surroundings = phone;
  executable = "python";
  clock = λ n. n;
  exits_zero = λ ran cmd. false;
  wheel_url = λ pkg version. none;
  fetch = λ u. Fetched.complete (bytes (1 ∷ 2 ∷ []));
  submit_build = λ pkg version. some (Poll.pending ∷ Poll.failed ∷ []);
}

abbrev world : World
world = record {
  cache = record {
    max_size_mb = 10;
    wheels_dir = "w";
    layers_dir = "l";
    metadata_dir = "m";
    index = [];
    index_file = saved [];
    index_writable = true;
    disk = [];
  };
  ran = [];
  registered = [];
  ticks = 0;
}

test_filename : filename url ≡ "numpy.whl"
unfolding program
test_filename = refl

abbrev resolution : PackageResolution
resolution = record {
  pkg = "numpy";
  version = "2.0";
  strategy = PackageStrategy.cloud_wheel;
  info = some numpy;
  fallback_strategies = PackageStrategy.cloud_exec ∷ PackageStrategy.cloud_build ∷ [];
  reason = "Cloud registry: cloud_wheel";
}

test_resolve : (resolve os phone "numpy" "latest" 0 world.cache).0 ≡ ok resolution
unfolding program
test_resolve = refl

-- pip fails, and the proxy is set up instead.
test_install : (install outside "numpy" "latest" false world).1.registered ≡ ("numpy", false) ∷ []
unfolding program
test_install = refl

kept :
    (keep_wheel outside "numpy" "2.0"
      (download_path world url)
      "beef"
      (put_file (download_path world url) (bytes (1 ∷ 2 ∷ [])) world)).0
    ≡ ok "w/numpy.whl"
unfolding program
kept = refl

abbrev offline : Surroundings
offline = record phone { offline_mode = true }
