-- ===== src/Virtualization/Layers/Composing.antt =====
-- virtualization/layers.py: what a composed package holds, and which layers a cleanup leaves.
use cpip.Common.{
  ◌≡◌, refl, inl, inr, Option-cases, String, not, Option, some, none, List, [], ◌∷◌, if◌then◌else◌,
  arith, eq_iff, eq_refl, select, length, ◌+◌,
}
use cpip.Common.Dict
use cpip.Common.Dict.{Dict, get-put, get-update, or_in, Unique}
use cpip.Virtualization.Layers.{
  Bytes, Files, PackageLayer, Libraries, LayerManager, overlay, composed_name, compose_layers,
  cleanup_unused, member,
}

-- No layer holds a path twice.
pub record EachUnique (layers : Dict Files) : Type 0 where
  pub unique : (id : String) (files : Files) → Dict.get layers id ≡ some files → Unique files

abbrev pub file_of : Dict Files → String → String → Option Bytes
file_of layers id path = elim (Dict.get layers id) [
  | some files ↦ Dict.get files path
  | none ↦ none
]

-- The file at a path of the last layer that has one.
abbrev pub visible : Dict Files → List PackageLayer → String → Option Bytes
visible layers [] path = none
visible layers (l ∷ ls) path = or_in (visible layers ls path) (file_of layers l.layer_id path)

pub or_in_assoc : (a b c : Option Bytes) → or_in a (or_in b c) ≡ or_in (or_in a b) c
or_in_assoc (some v) b c = refl
or_in_assoc none b c = refl

pub or_in_none : (a : Option Bytes) → or_in a none ≡ a
or_in_none (some v) = refl
or_in_none none = refl

get-overlay :
    (layers : Dict Files) (ls : List PackageLayer) (dest : Files) (path : String)
    → EachUnique layers
    → Dict.get (overlay layers ls dest) path ≡ or_in (visible layers ls path) (Dict.get dest path)
unfolding overlay
get-overlay layers [] dest path u = refl
get-overlay layers (l ∷ ls) dest path u = elim (Option-cases (Dict.get layers l.layer_id)) [
  | inl e ↦
      ground (arith, e, get-overlay layers ls dest path u, or_in_none (visible layers ls path))
  | inr (files, e) ↦ ground (
    arith,
    e,
    get-overlay layers ls (Dict.update files dest) path u,
    get-update files dest path (u.unique l.layer_id files e),
    or_in_assoc (visible layers ls path) (Dict.get files path) (Dict.get dest path),
  )
]

-- A package that is composed for the first time holds at each path the file of the last of its layers
-- that has one there, and nothing else, if no layer holds a path twice.
pub compose_layers_lem :
    (lib : Libraries) (m : LayerManager) (ls : List PackageLayer) (path : String)
    → EachUnique m.layers
    → Dict.get m.composed (composed_name lib ls) ≡ none
    → let (name, after) = compose_layers lib ls m in
      file_of after.composed name path ≡ visible m.layers ls path
unfolding compose_layers Dict.get
compose_layers_lem lib m ls path u fresh = ground (
  arith,
  fresh,
  get-overlay m.layers ls [] path u,
  or_in_none (visible m.layers ls path),
  eq_refl (composed_name lib ls),
  get-put m.composed (composed_name lib ls) (composed_name lib ls) (overlay m.layers ls []),
)

get-select :
    (active : List String) (layers : Dict Files) (id : String)
    → Dict.get (select (λ (e : String × Files). member e.0 active) layers) id
      ≡ (if member id active then Dict.get layers id else none)
unfolding Dict.get
get-select active [] id = ground arith
get-select active ((k, files) ∷ layers) id =
    ground (arith, eq_iff k id, get-select active layers id)

length-select-both :
    (active : List String) (layers : Dict Files)
    → length (select (λ (e : String × Files). not (member e.0 active)) layers)
        + length (select (λ (e : String × Files). member e.0 active) layers)
      ≡ length layers
length-select-both active [] = refl
length-select-both active ((k, files) ∷ layers) = ground (arith, length-select-both active layers)

-- A cleanup leaves exactly the active layers, with their files, leaves the composed packages, and
-- answers how many layers it removed.
pub cleanup_unused_lem :
    (active : List String) (m : LayerManager) (id : String)
    → let (removed, after) = cleanup_unused active m in
      (Dict.get after.layers id ≡ (if member id active then Dict.get m.layers id else none))
      × (after.composed ≡ m.composed)
      × (removed + length after.layers ≡ length m.layers)
unfolding cleanup_unused
cleanup_unused_lem active m id =
    (get-select active m.layers id, refl, length-select-both active m.layers)
