-- ===== src/Virtualization/Linker/Tests.antt =====
-- Runs of virtualization/linker.py: a library is installed, and the linker activated twice.
use cpip.Common.{◌≡◌, refl, String, some, [], ◌∷◌}
use cpip.Common.Dict
use cpip.Common.Dict.{Dict}
use cpip.Virtualization.Linker.{
  DynamicLinker, install_so, get_so_path, split_colon, join_colon, configure_env, activate,
}

program : Unit {0}
unfolding install_so get_so_path split_colon join_colon configure_env activate Dict.get Dict.put
program = tt

abbrev linker : DynamicLinker
linker = record { lib_dir = "/home/.cpip/lib"; files = []; modes = []; loaded = [] }

abbrev environ : Dict String
environ = ("HOME", "/home") ∷ ("LD_LIBRARY_PATH", "/usr/lib::/home/.cpip/lib:/opt/lib") ∷ []

test_activate :
    activate linker environ
    ≡ ("HOME", "/home") ∷ ("LD_LIBRARY_PATH", "/home/.cpip/lib:/usr/lib:/opt/lib") ∷ []
unfolding program
test_activate = refl

test_install_so :
    get_so_path "libz.so" (install_so "libz.so" (1 ∷ []) linker).1 ≡ some "/home/.cpip/lib/libz.so"
unfolding program
test_install_so = refl
