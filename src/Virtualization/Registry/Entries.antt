-- ===== src/Virtualization/Registry/Entries.antt =====
-- virtualization/registry.py: what the registry of manifests keeps, over any run of its operations.
use text.Mathlib.TextLemmas.{append_cancel_right}
use cpip.Common.{
  ◌≡◌, refl, ◌∙◌, String, Option, some, none, List, [], ◌∷◌, ◌==◌, eq_iff, eq_refl, if◌then◌else◌,
  arith, inl,
}
use mathlib.Core.Logic.{◌⊎◌}
use cpip.Common.Dict
use cpip.Common.Dict.{Dict, get-put, get-remove}
use cpip.Shared.Json.{Json}
use cpip.Virtualization.Registry.{
  Manifest, Content, json, Registry, manifest_file, manifest_data, read_manifest, remember, get,
  store, remove,
}
use cpip.Virtualization.Registry.Saved.{
  saved, saved_of, parse_manifest-manifest_data, read_manifest_saved,
}

-- A call of the registry.
pub data Op : Type 0 where
  look : String → Op
  add : Manifest → Op
  drop : String → Op

abbrev pub step : (Json → String) → Op → Registry → Registry
step str (look name) r = (get name r).1
step str (add m) r = store str m r
step str (drop name) r = remove name r

abbrev pub run : (Json → String) → List Op → Registry → Registry
run str [] r = r
run str (op ∷ ops) r = run str ops (step str op r)

-- A registry that keeps no files: the manifest of a name.
abbrev pub View : Type 0
View = String → Option Manifest

abbrev pub change : (Json → String) → Op → View → View
change str (look name) view key = view key
change str (add m) view key = if str m.name == key then some m else view key
change str (drop name) view key = if name == key then none else view key

abbrev pub changes : (Json → String) → List Op → View → View
changes str [] view = view
changes str (op ∷ ops) view = changes str ops (change str op view)

-- The manifests of the files are those of the view as they were saved; one in memory is as it was
-- stored.
record Shows (r : Registry) (view : View) : Type 0 where
  pub on_disk : (name : String) → read_manifest r.files name ≡ saved_of (view name)
  pub cached :
      (name : String)
      → (Dict.get r.cache name ≡ none) × (view name ≡ saved_of (view name))
        ⊎ (Dict.get r.cache name ≡ view name)

manifest_file_eq : (a b : String) → (manifest_file a == manifest_file b) ≡ (a == b)
manifest_file_eq a b = ground (
  arith,
  eq_iff a b,
  eq_iff (manifest_file a) (manifest_file b),
  eq_refl (manifest_file a),
  append_cancel_right a b ".manifest.json",
)

remember_answer :
    (name : String) (found : Option Manifest) (r : Registry) → (remember name found r).0 ≡ found
remember_answer name none r = refl
remember_answer name (some m) r = refl

remember_files :
    (name : String) (found : Option Manifest) (r : Registry)
    → (remember name found r).1.files ≡ r.files
remember_files name none r = refl
remember_files name (some m) r = refl

remember_cache :
    (name key : String) (found : Option Manifest) (r : Registry)
    → (Dict.get (remember name found r).1.cache key ≡ Dict.get r.cache key)
      ⊎ ((name ≡ key) × (Dict.get (remember name found r).1.cache key ≡ found))
remember_cache name key none r = inl refl
remember_cache name key (some m) r = ground (arith, get-put r.cache name key m, eq_iff name key)

get-Shows : (r : Registry) (view : View) (name : String) → Shows r view → (get name r).0 ≡ view name
unfolding get
get-Shows r view name s =
    ground
      (arith, s.on_disk name, s.cached name, remember_answer name (read_manifest r.files name) r)

read-store :
    (str : Json → String) (m : Manifest) (files : Dict Content) (name : String)
    → read_manifest (Dict.put files (manifest_file (str m.name)) (json (manifest_data m))) name
      ≡ (if str m.name == name then some (saved m) else read_manifest files name)
unfolding read_manifest
read-store str m files name = ground (
  arith,
  get-put files (manifest_file (str m.name)) (manifest_file name) (json (manifest_data m)),
  manifest_file_eq (str m.name) name,
  parse_manifest-manifest_data m,
)

read-remove :
    (files : Dict Content) (gone name : String)
    → read_manifest (Dict.remove files (manifest_file gone)) name
      ≡ (if gone == name then none else read_manifest files name)
unfolding read_manifest
read-remove files gone name =
    ground (
      arith,
      get-remove files (manifest_file gone) (manifest_file name),
      manifest_file_eq gone name,
    )

step-Shows :
    (str : Json → String) (op : Op) (r : Registry) (view : View)
    → Shows r view
    → Shows (step str op r) (change str op view)
unfolding get store remove
step-Shows str (look name) r view s =
    let found = read_manifest r.files name in
    record {
      on_disk = λ key. ground (arith, s.on_disk key, remember_files name found r);
      cached = λ key.
          ground
            (arith, s.on_disk name, s.cached key, s.cached name, remember_cache name key found r);
    }
step-Shows str (add m) r view s = record {
  on_disk = λ key. ground (arith, s.on_disk key, read-store str m r.files key);
  cached = λ key. ground (arith, s.cached key, get-put r.cache (str m.name) key m);
}
step-Shows str (drop name) r view s = record {
  on_disk = λ key. ground (arith, s.on_disk key, read-remove r.files name key);
  cached = λ key. ground (arith, s.cached key, get-remove r.cache name key);
}

run-Shows :
    (str : Json → String) (ops : List Op) (r : Registry) (view : View)
    → Shows r view
    → Shows (run str ops r) (changes str ops view)
run-Shows str [] r view s = s
run-Shows str (op ∷ ops) r view s =
    run-Shows str ops (step str op r) (change str op view) (step-Shows str op r view s)

abbrev pub opened : Dict Content → Registry
opened files = record { files = files; cache = [] }

opened-Shows : (files : Dict Content) → Shows (opened files) (read_manifest files)
unfolding Dict.get
opened-Shows files = record {
  on_disk = λ name. read_manifest_saved files name;
  cached = λ name. inl (refl, read_manifest_saved files name);
}

-- After any calls of a registry, a name has the manifest that was stored last under it and not removed
-- since, or else the one its file had; a registry that is opened anew on the files finds the same, but
-- without the metadata of the layers.
pub get-run :
    (str : Json → String) (ops : List Op) (files : Dict Content) (name : String)
    → let r = run str ops (opened files) in
      let last = changes str ops (read_manifest files) name in
      ((get name r).0 ≡ last) × ((get name (opened r.files)).0 ≡ saved_of last)
get-run str ops files name =
    let shown = run-Shows str ops (opened files) (read_manifest files) (opened-Shows files) in
    let r = run str ops (opened files) in
    (
      get-Shows r (changes str ops (read_manifest files)) name shown,
      get-Shows (opened r.files) (read_manifest r.files) name (opened-Shows r.files)
          ∙ shown.on_disk name,
    )
