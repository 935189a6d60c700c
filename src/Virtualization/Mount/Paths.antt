-- ===== src/Virtualization/Mount/Paths.antt =====
-- virtualization/mount.py: the paths of mounted packages on the import path.
use mathlib.Core.Path.{subst}
use cpip.Common.{
  ℕ, ◌+◌, ◌≤◌, ◌≡◌, ◌≢◌, refl, sym, ap, inl, inr, Option-cases, String, some, none, List, [], ◌∷◌,
  ◌==◌, if◌then◌else◌, arith, eq_iff, eq_refl,
}
use cpip.Common.Dict
use cpip.Common.Dict.{Dict, get-put, get-remove}
use cpip.Virtualization.Layers.{Libraries, compose_layers, member}
use cpip.Virtualization.Mount.{
  PackageManifest, VirtualMount, mount, unmount, remove_path, insert_path, composed_path,
}

abbrev pub occurs : String → List String → ℕ
occurs path [] = 0
occurs path (p ∷ ps) = (if p == path then 1 else 0) + occurs path ps

occurs-remove_path :
    (path q : String) (ps : List String)
    → occurs path ps ≤ 1
    → occurs q (remove_path path ps) ≡ (if path == q then 0 else occurs q ps)
unfolding remove_path
occurs-remove_path path q [] h = ground arith
occurs-remove_path path q (p ∷ ps) h =
    ground (arith, eq_iff path q, eq_iff p path, eq_iff p q, occurs-remove_path path q ps)

occurs-member :
    (path : String) (ps : List String)
    → occurs path ps ≤ 1
    → (if member path ps then 1 else 0) ≡ occurs path ps
occurs-member path [] h = refl
occurs-member path (p ∷ ps) h = ground (arith, eq_iff p path, eq_iff path p, occurs-member path ps)

-- No path stands twice, and the path of a mounted package stands.
pub record Sound (v : VirtualMount) : Type 0 where
  pub once : (path : String) → occurs path v.sys_path ≤ 1
  pub on_path :
      (name path : String) → Dict.get v.mounts name ≡ some path → occurs path v.sys_path ≡ 1

mount_known :
    (lib : Libraries) (manifest : PackageManifest) (v : VirtualMount) (path : String)
    → Dict.get v.mounts manifest.name ≡ some path
    → (mount lib manifest v).1 ≡ v
unfolding mount
mount_known lib manifest v path e = ground (arith, e)

abbrev path_of : Libraries → PackageManifest → VirtualMount → String
path_of lib manifest v =
    composed_path v.layer_manager (compose_layers lib manifest.layers v.layer_manager).0

occurs-insert_path :
    (path q : String) (ps : List String)
    → occurs path ps ≤ 1
    → occurs q (insert_path path ps) ≡ (if path == q then 1 else occurs q ps)
occurs-insert_path path q ps h = ground (arith, eq_iff path q, occurs-member path ps h)

mount_new :
    (lib : Libraries) (manifest : PackageManifest) (v : VirtualMount)
    → Dict.get v.mounts manifest.name ≡ none
    → ((mount lib manifest v).1.mounts ≡ Dict.put v.mounts manifest.name (path_of lib manifest v))
      × ((mount lib manifest v).1.sys_path ≡ insert_path (path_of lib manifest v) v.sys_path)
unfolding mount
mount_new lib manifest v e = ground (arith, e)

mounted-Sound :
    (lib : Libraries) (manifest : PackageManifest) (v : VirtualMount)
    → Sound v
    → Dict.get v.mounts manifest.name ≡ none
    → Sound (mount lib manifest v).1
mounted-Sound lib manifest v s e =
    let path = path_of lib manifest v in
    let (mounts, paths) = mount_new lib manifest v e in
    record {
      once = λ q. ground (
        arith,
        ap (occurs q) paths,
        occurs-insert_path path q v.sys_path (s.once path),
        s.once q,
      );
      on_path = λ name q g. ground (
        arith,
        g,
        ap (λ (d : Dict String). Dict.get d name) mounts,
        ap (occurs q) paths,
        get-put v.mounts manifest.name name path,
        occurs-insert_path path q v.sys_path (s.once path),
        s.on_path name q,
        eq_iff path q,
      );
    }

pub mount-Sound :
    (lib : Libraries) (manifest : PackageManifest) (v : VirtualMount)
    → Sound v
    → Sound (mount lib manifest v).1
mount-Sound lib manifest v s = elim (Option-cases (Dict.get v.mounts manifest.name)) [
  | inl e ↦ mounted-Sound lib manifest v s e
  | inr (path, e) ↦ subst Sound (sym (mount_known lib manifest v path e)) s
]

-- Unmounting takes the path of the package from the import path, and no other, also where another
-- package is mounted there.
pub unmount_lem :
    (name path : String) (v : VirtualMount) (q : String)
    → Sound v
    → Dict.get v.mounts name ≡ some path
    → (occurs q (unmount name v).sys_path ≡ (if path == q then 0 else occurs q v.sys_path))
      × (Dict.get (unmount name v).mounts q ≡ (if name == q then none else Dict.get v.mounts q))
unfolding unmount
unmount_lem name path v q s e =
    ground
      (arith, e, occurs-remove_path path q v.sys_path (s.once path), get-remove v.mounts name q)

-- No other mounted package has the path of `name`.
abbrev pub Unshared : String → VirtualMount → Type 0
Unshared name v =
    (other path : String)
    → Dict.get v.mounts name ≡ some path
    → Dict.get v.mounts other ≡ some path
    → other ≡ name

pub unmount-Sound :
    (name : String) (v : VirtualMount) → Sound v → Unshared name v → Sound (unmount name v)
unfolding unmount
unmount-Sound name v s u = elim (Option-cases (Dict.get v.mounts name)) [
  | inl e ↦ record {
    once = λ q. ground (arith, e, s.once q);
    on_path = λ other q g. ground (arith, e, g, get-remove v.mounts name other, s.on_path other q);
  }
  | inr (path, e) ↦ record {
    once = λ q. ground (arith, (unmount_lem name path v q s e).0, s.once q);
    on_path = λ other q g. ground (
      arith,
      g,
      e,
      (unmount_lem name path v q s e).0,
      get-remove v.mounts name other,
      s.on_path other q,
      u other path,
      eq_iff path q,
      eq_iff name other,
    );
  }
]

-- What a process does: it mounts packages, and unmounts some that share their layers with no other.
pub data Mounting (lib : Libraries) (v : VirtualMount) : VirtualMount → Type 0 where
  done : Mounting lib v v
  mounted :
      {w : VirtualMount} (manifest : PackageManifest)
      → Mounting lib v w
      → Mounting lib v (mount lib manifest w).1
  unmounted :
      {w : VirtualMount} (name : String)
      → Unshared name w
      → Mounting lib v w
      → Mounting lib v (unmount name w)

-- While a package is unmounted only if no other is mounted at its path, every mounted package is on the
-- import path, and no path is there twice.
pub Mounting-Sound : (lib : Libraries) {v w : VirtualMount} → Mounting lib v w → Sound v → Sound w
Mounting-Sound lib Mounting.done s = s
Mounting-Sound lib (Mounting.mounted manifest r) s =
    mount-Sound lib manifest _ (Mounting-Sound lib r s)
Mounting-Sound lib (Mounting.unmounted name u r) s = unmount-Sound name _ (Mounting-Sound lib r s) u

-- Unmounting one of two packages at the same path takes the other from the import path, which is
-- still mounted.
pub unmount_shared :
    (name other path : String) (v : VirtualMount)
    → Sound v
    → name ≢ other
    → Dict.get v.mounts name ≡ some path
    → Dict.get v.mounts other ≡ some path
    → (Dict.get (unmount name v).mounts other ≡ some path)
      × (occurs path (unmount name v).sys_path ≡ 0)
unmount_shared name other path v s ne e f = ground (
  arith,
  f,
  eq_iff name other,
  eq_refl path,
  (unmount_lem name path v path s e).0,
  (unmount_lem name path v other s e).1,
)
