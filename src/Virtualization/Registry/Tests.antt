-- ===== src/Virtualization/Registry/Tests.antt =====
-- virtualization/registry.py: runs of the registry of manifests.
use cpip.Common.{◌≡◌, refl, String, true, some, none, List, [], ◌∷◌}
use cpip.Common.Dict
use cpip.Common.Dict.{Dict}
use cpip.Shared.Json.{Json, Items, Fields, get_field}
use cpip.Builder.Scanner.{ends_with}
use cpip.Virtualization.Registry.{
  Manifest, Content, plain, json, manifest_data, read_manifest, get, store, list_packages,
}
use cpip.Virtualization.Registry.Entries.{add, drop, look, Op, run, changes, opened, get-run}
use cpip.Virtualization.Registry.Saved.{saved, saved_of}

-- The texts that occur here are those of strings.
abbrev str : Json → String
str (Json.string s) = s
str _ = "None"

abbrev named : String → Manifest
named name = record {
  name = Json.string name;
  version = Json.string "2.1";
  layers =
      record {
        layer_id = Json.string "l0";
        sha256 = Json.string "ab";
        size = Json.number 7;
        content_type = Json.string "python";
        files = Json.array Items.no_items;
        metadata = Json.boolean true;
      }
      ∷ [];
  entry_point = Json.string "";
  python_requires = Json.string ">=3.9";
  dependencies = Json.array Items.no_items;
}

-- One file that is no JSON, one without a version, and a manifest.
abbrev files : Dict Content
files =
    ("bad.manifest.json", plain "{")
    ∷ (
      "none.manifest.json",
      json (Json.object (Fields.entry "name" (Json.string "none") Fields.no_fields)),
    )
    ∷ ("torch.manifest.json", json (manifest_data (named "torch")))
    ∷ []

abbrev calls : List Op
calls = look "torch" ∷ add (named "numpy") ∷ drop "torch" ∷ look "bad" ∷ []

test_get_torch : (get "torch" (opened files)).0 ≡ some (saved (named "torch"))
unfolding get read_manifest Dict.get Dict.put get_field
test_get_torch = refl

test_get_bad : (get "bad" (opened files)).0 ≡ none
unfolding get read_manifest Dict.get Dict.put get_field
test_get_bad = refl

test_get_none : (get "none" (opened files)).0 ≡ none
unfolding get read_manifest Dict.get Dict.put get_field
test_get_none = refl

test_list : list_packages (opened files) ≡ "bad" ∷ "none" ∷ "torch" ∷ []
unfolding list_packages ends_with
test_list = refl

-- A name that holds `.manifest` is listed without it, and no manifest is found under what is listed.
test_list_cut : list_packages (store str (named "a.manifests") (opened [])) ≡ "as" ∷ []
unfolding store list_packages Dict.put ends_with
test_list_cut = refl

get-run_example :
    let r = run str calls (opened files) in
    let last = changes str calls (read_manifest files) "numpy" in
    ((get "numpy" r).0 ≡ last) × ((get "numpy" (opened r.files)).0 ≡ saved_of last)
get-run_example = get-run str calls files "numpy"
