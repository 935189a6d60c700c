-- ===== src/Virtualization/Mount/Tests.antt =====
-- Runs of virtualization/mount.py: two packages with the same layers, of which one is unmounted.
use cpip.Common.{◌≡◌, refl, String, true, false, none, [], ◌∷◌, ◌==◌, if◌then◌else◌, arith, eq_iff}
use cpip.Common.Dict
use cpip.Virtualization.Layers.{Libraries, compose_layers, overlay}
use cpip.Virtualization.Mount.{
  PackageManifest, VirtualMount, mount, unmount, remove_path, unmount_all, is_mounted,
}
use cpip.Virtualization.Mount.Paths.{Sound, Mounting, Unshared, Mounting-Sound}

program : Unit {0}
unfolding mount unmount remove_path unmount_all is_mounted compose_layers Dict.update overlay
    Dict.get Dict.put Dict.remove
program = tt

abbrev lib : Libraries
lib = record {
  digest = λ bs. "a000000000000000ffff";
  digest_text = λ s. if s == "l1" then "c000000000000000ffff" else "d000000000000000ffff";
  read_tar = λ bs. none;
}

abbrev start : VirtualMount
start = record {
  layer_manager = record { layers_dir = "home" ∷ "layers" ∷ []; layers = []; composed = [] };
  mounts = [];
  sys_path = "site-packages" ∷ [];
  modules = "numpy" ∷ "numpy.linalg" ∷ "numpy2" ∷ [];
}

abbrev manifest : String → String → PackageManifest
manifest name layer = record {
  name = name;
  version = "1";
  layers =
      record { layer_id = layer; sha256 = ""; size = 0; content_type = "python"; files = [] } ∷ [];
}

abbrev one : VirtualMount
one = (mount lib (manifest "numpy" "l1") start).1

abbrev two : VirtualMount
two = (mount lib (manifest "scipy" "l1") one).1

abbrev apart : VirtualMount
apart = (mount lib (manifest "scipy" "l2") one).1

test_unmount : unmount "numpy" two ≡ record two {
  mounts = ("scipy", "home/layers/composed/c000000000000000") ∷ [];
  sys_path = "site-packages" ∷ [];
  modules = "numpy2" ∷ [];
}
unfolding program
test_unmount = refl

test_unmount_all :
    ((unmount_all apart).sys_path ≡ "site-packages" ∷ [])
    × (is_mounted "scipy" (unmount_all apart) ≡ false)
    × (is_mounted "scipy" apart ≡ true)
unfolding program
test_unmount_all = (refl, refl, refl)

start-Sound : Sound start
unfolding program
start-Sound = record { once = λ q. ground arith; on_path = λ name q e. absurd (cc e) }

two-Sound : Sound two
two-Sound =
    Mounting-Sound lib
      (Mounting.mounted (manifest "scipy" "l1")
        (Mounting.mounted (manifest "numpy" "l1") Mounting.done))
      start-Sound

numpy-Unshared : Unshared "numpy" apart
unfolding program
numpy-Unshared other path e f = ground (
  arith,
  e,
  f,
  eq_iff "numpy" other,
  eq_iff "scipy" other,
  eq_iff "home/layers/composed/c000000000000000" "home/layers/composed/d000000000000000",
)

Mounting-Sound_example : Sound (unmount "numpy" apart)
Mounting-Sound_example =
    Mounting-Sound lib
      (Mounting.unmounted "numpy" numpy-Unshared (
        Mounting.mounted (manifest "scipy" "l2")
          (Mounting.mounted (manifest "numpy" "l1") Mounting.done)))
      start-Sound

abbrev shared : String
shared = "home/layers/composed/c000000000000000"
