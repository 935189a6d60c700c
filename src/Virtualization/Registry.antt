-- ===== src/Virtualization/Registry.antt =====
-- virtualization/registry.py: class PackageRegistry, the manifests of virtual packages. The state is
-- what is in memory and the files of the metadata directory, by their names, which hold no slash; a
-- name that is no text is in memory under its text. The values of a manifest are whatever a file holds,
-- as the code does not check them. A file holds the text of a JSON value, which stands for that text, or
-- another one; `str` is a parameter.
pub mod Saved
pub mod Entries
mod Tests
use Prim.Native.String.{◌++◌, slice, len}
use text.Mathlib.Text.{find?}
use cpip.Common.{
  ℕ, zero, suc, ◌+◌, ◌-◌, String, Option, some, none, List, [], ◌∷◌, ◌==◌, if◌then◌else◌, map,
  select,
}
use cpip.Common.Dict
use cpip.Common.Dict.{Dict}
use cpip.Builder.Scanner.{ends_with}
use cpip.Shared.Json.{Json, Items, Fields, get_field, get_or, empty}

pub record Layer : Type 0 where
  pub layer_id : Json
  pub sha256 : Json
  pub size : Json
  pub content_type : Json
  pub files : Json
  pub metadata : Json

pub record Manifest : Type 0 where
  pub name : Json
  pub version : Json
  pub layers : List Layer
  pub entry_point : Json
  pub python_requires : Json
  pub dependencies : Json

pub data Content : Type 0 where
  plain : String → Content
  json : Json → Content

pub record Registry : Type 0 where
  pub files : Dict Content
  pub cache : Dict Manifest

-- `f"{name}.manifest.json"`
abbrev pub manifest_file : String → String
manifest_file name = name ++ ".manifest.json"

-- A layer of a file, with its defaults; none where a key is missing or the value is no object.
abbrev pub parse_layer : Json → Option Layer
parse_layer (Json.object l) = elim (get_field l "layer_id") [
  | none ↦ none
  | some layer_id ↦ elim (get_field l "sha256") [
    | none ↦ none
    | some sha256 ↦ elim (get_field l "size") [
      | none ↦ none
      | some size ↦ some (record {
        layer_id = layer_id;
        sha256 = sha256;
        size = size;
        content_type = get_or l "content_type" (Json.string "python");
        files = get_or l "files" (Json.array Items.no_items);
        metadata = empty;
      })
    ]
  ]
]
parse_layer _ = none

abbrev pub and_layer : Option Layer → Option (List Layer) → Option (List Layer)
and_layer none ls = none
and_layer (some l) none = none
and_layer (some l) (some ls) = some (l ∷ ls)

abbrev pub parse_items : Items → Option (List Layer)
parse_items Items.no_items = some []
parse_items (Items.item v vs) = and_layer (parse_layer v) (parse_items vs)

-- The loop runs over a list; over an empty text or object too, and with others it raises.
abbrev pub parse_layers : Json → Option (List Layer)
parse_layers (Json.array vs) = parse_items vs
parse_layers (Json.string s) = if s == "" then some [] else none
parse_layers (Json.object Fields.no_fields) = some []
parse_layers _ = none

abbrev pub with_layers : Fields → Option (List Layer) → Option Manifest
with_layers d none = none
with_layers d (some layers) = elim (get_field d "name") [
  | none ↦ none
  | some name ↦ elim (get_field d "version") [
    | none ↦ none
    | some version ↦ some (record {
      name = name;
      version = version;
      layers = layers;
      entry_point = get_or d "entry_point" (Json.string "");
      python_requires = get_or d "python_requires" (Json.string "");
      dependencies = get_or d "dependencies" (Json.array Items.no_items);
    })
  ]
]

-- `_parse_manifest`; none where it raises.
abbrev pub parse_manifest : Json → Option Manifest
parse_manifest (Json.object d) =
    with_layers d (parse_layers (get_or d "layers" (Json.array Items.no_items)))
parse_manifest _ = none

abbrev pub layer_data : Layer → Json
layer_data l = Json.object (
    Fields.entry "layer_id" l.layer_id (
      Fields.entry "sha256" l.sha256 (
        Fields.entry "size" l.size (
          Fields.entry "content_type" l.content_type
            (Fields.entry "files" l.files Fields.no_fields)))))

abbrev pub layer_items : List Layer → Items
layer_items [] = Items.no_items
layer_items (l ∷ ls) = Items.item (layer_data l) (layer_items ls)

abbrev pub manifest_data : Manifest → Json
manifest_data m = Json.object (
    Fields.entry "name" m.name (
      Fields.entry "version" m.version (
        Fields.entry "entry_point" m.entry_point (
          Fields.entry "python_requires" m.python_requires (
            Fields.entry "dependencies" m.dependencies
              (Fields.entry "layers" (Json.array (layer_items m.layers)) Fields.no_fields))))))

-- The manifest of the text of a file, if it is there and can be read.
unfoldable pub read_manifest : Dict Content → String → Option Manifest
read_manifest files name = elim (Dict.get files (manifest_file name)) [
  | some (json d) ↦ parse_manifest d
  | _ ↦ none
]

-- What was read is remembered, if it could be read.
abbrev pub remember : String → Option Manifest → Registry → Option Manifest × Registry
remember name none r = (none, r)
remember name (some m) r = (some m, record r { cache = Dict.put r.cache name m })

unfoldable pub get : String → Registry → Option Manifest × Registry
get name r = elim (Dict.get r.cache name) [
  | some m ↦ (some m, r)
  | none ↦ remember name (read_manifest r.files name) r
]

unfoldable pub store : (Json → String) → Manifest → Registry → Registry
store str m r = record {
  files = Dict.put r.files (manifest_file (str m.name)) (json (manifest_data m));
  cache = Dict.put r.cache (str m.name) m;
}

unfoldable pub remove : String → Registry → Registry
remove name r = record {
  files = Dict.remove r.files (manifest_file name);
  cache = Dict.remove r.cache name;
}

-- `s.replace(".manifest", "")`: each cut leaves a shorter text, so as many as it has bytes are enough.
abbrev pub without_manifest : ℕ → String → String
without_manifest zero s = s
without_manifest (suc fuel) s = elim (find? s ".manifest") [
  | none ↦ s
  | some i ↦ slice s 0 i ++ without_manifest fuel (slice s (i + 9) (len s))
]

-- `p.stem` of a file that ends in `.json`
abbrev pub stem : String → String
stem file = slice file 0 (len file - 5)

-- In the order of the directory.
unfoldable pub list_packages : Registry → List String
list_packages r =
    map (λ file. without_manifest (len file) (stem file))
      (select (λ file. ends_with file ".manifest.json") (Dict.keys r.files))
