-- ===== src/Virtualization/Mount.antt =====
-- virtualization/mount.py: class VirtualMount. The state is that of the object, of its LayerManager
-- and of the process: `sys.path` and the names in `sys.modules`.
pub mod Paths
mod Tests
use Prim.Native.String.{◌++◌ as ◌<>◌}
use text.Mathlib.Text.{starts_with}
use cpip.Common.{
  String, Bool, true, false, not, ◌||◌, Option, some, none, List, [], ◌∷◌, ◌++◌, ◌==◌,
  if◌then◌else◌, select,
}
use cpip.Common.Dict
use cpip.Common.Dict.{Dict}
use cpip.Virtualization.Layers.{
  PackageLayer, Libraries, LayerManager, compose_layers, join_parts, member,
}

-- PackageManifest, without the fields that mounting does not read.
pub record PackageManifest : Type 0 where
  pub name : String
  pub version : String
  pub layers : List PackageLayer

pub record VirtualMount : Type 0 where
  pub layer_manager : LayerManager
  pub mounts : Dict String
  pub sys_path : List String
  pub modules : List String

abbrev pub composed_path : LayerManager → String → String
composed_path m name = join_parts (m.layers_dir ++ ("composed" ∷ name ∷ []))

-- `if path not in sys.path: sys.path.insert(0, path)`
abbrev pub insert_path : String → List String → List String
insert_path path paths = if member path paths then paths else path ∷ paths

-- `sys.path.remove(path)`: the first one.
unfoldable pub remove_path : String → List String → List String
remove_path path [] = []
remove_path path (p ∷ paths) =
    let rest = remove_path path paths in if p == path then paths else p ∷ rest

-- The path of the package, which is composed if it is not mounted.
unfoldable pub mount : Libraries → PackageManifest → VirtualMount → String × VirtualMount
mount lib manifest v = elim (Dict.get v.mounts manifest.name) [
  | some path ↦ (path, v)
  | none ↦
      let (name, manager) = compose_layers lib manifest.layers v.layer_manager in
      let path = composed_path v.layer_manager name in
      (
        path,
        record v {
          layer_manager = manager;
          mounts = Dict.put v.mounts manifest.name path;
          sys_path = insert_path path v.sys_path;
        },
      )
]

-- Whether a name in `sys.modules` is the package or below it.
abbrev pub belongs : String → String → Bool
belongs package_name key = key == package_name || starts_with key (package_name <> ".")

unfoldable pub unmount : String → VirtualMount → VirtualMount
unmount package_name v = record v {
  mounts = Dict.remove v.mounts package_name;
  sys_path = elim (Dict.get v.mounts package_name) [
    | some path ↦ remove_path path v.sys_path
    | none ↦ v.sys_path
  ];
  modules = select (λ (key : String). not (belongs package_name key)) v.modules;
}

unfoldable pub is_mounted : String → VirtualMount → Bool
is_mounted package_name v = elim (Dict.get v.mounts package_name) [ some _ ↦ true | none ↦ false ]

abbrev pub unmount_each : List String → VirtualMount → VirtualMount
unmount_each [] v = v
unmount_each (name ∷ names) v = unmount_each names (unmount name v)

unfoldable pub unmount_all : VirtualMount → VirtualMount
unmount_all v = unmount_each (Dict.keys v.mounts) v
