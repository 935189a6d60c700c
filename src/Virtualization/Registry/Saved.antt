-- ===== src/Virtualization/Registry/Saved.antt =====
-- virtualization/registry.py: what a file keeps of a manifest.
use cpip.Common.{
  ◌≡◌, refl, sym, String, Option, some, none, List, [], ◌∷◌, ◌==◌, arith, inl, inr, ap₂, Bool-cases,
}
use cpip.Common.Dict
use cpip.Common.Dict.{Dict, get-put, get-remove}
use cpip.Shared.Json.{empty, Json, Items, Fields, get_field, get_or}
use cpip.Virtualization.Registry.{
  Layer, Manifest, Content, plain, json, and_layer, with_layers, parse_layers, manifest_file,
  parse_layer, parse_items, parse_manifest, layer_items, manifest_data, read_manifest,
}

-- What a file keeps of a manifest: all but the metadata of its layers.
abbrev saved_layer : Layer → Layer
saved_layer l = record l { metadata = empty }

abbrev saved_layers : List Layer → List Layer
saved_layers [] = []
saved_layers (l ∷ ls) = saved_layer l ∷ saved_layers ls

abbrev pub saved : Manifest → Manifest
saved m = record m { layers = saved_layers m.layers }

abbrev pub saved_of : Option Manifest → Option Manifest
saved_of none = none
saved_of (some m) = some (saved m)

parse_items-layer_items : (ls : List Layer) → parse_items (layer_items ls) ≡ some (saved_layers ls)
unfolding get_field
parse_items-layer_items [] = refl
parse_items-layer_items (l ∷ ls) = rw (parse_items-layer_items ls) refl

pub parse_manifest-manifest_data :
    (m : Manifest) → parse_manifest (manifest_data m) ≡ some (saved m)
unfolding get_field
parse_manifest-manifest_data m = rw (parse_manifest, parse_items-layer_items m.layers) refl

IsSavedLayer : Option Layer → Type 0
IsSavedLayer none = Unit
IsSavedLayer (some l) = saved_layer l ≡ l

IsSaved : Option (List Layer) → Type 0
IsSaved none = Unit
IsSaved (some ls) = saved_layers ls ≡ ls

parse_layer-IsSavedLayer : (v : Json) → IsSavedLayer (parse_layer v)
unfolding IsSavedLayer
parse_layer-IsSavedLayer (Json.object d) =
    fields (get_field d "layer_id") (get_field d "sha256") (get_field d "size")
  where
    fields :
        (o p q : Option Json)
        → IsSavedLayer (elim o [
          | none ↦ none
          | some x ↦ elim p [
            | none ↦ none
            | some y ↦ elim q [
              | none ↦ none
              | some z ↦ some (record {
                layer_id = x;
                sha256 = y;
                size = z;
                content_type = get_or d "content_type" (Json.string "python");
                files = get_or d "files" (Json.array Items.no_items);
                metadata = empty;
              })
            ]
          ]
        ])
    fields none p q = tt
    fields (some x) none q = tt
    fields (some x) (some y) none = tt
    fields (some x) (some y) (some z) = refl
parse_layer-IsSavedLayer Json.null = tt
parse_layer-IsSavedLayer (Json.boolean b) = tt
parse_layer-IsSavedLayer (Json.number n) = tt
parse_layer-IsSavedLayer (Json.string s) = tt
parse_layer-IsSavedLayer (Json.array vs) = tt

and_layer-IsSaved :
    (o : Option Layer) (rest : Option (List Layer))
    → IsSavedLayer o
    → IsSaved rest
    → IsSaved (and_layer o rest)
unfolding IsSavedLayer IsSaved
and_layer-IsSaved none rest h k = tt
and_layer-IsSaved (some l) none h k = tt
and_layer-IsSaved (some l) (some ls) h k = ap₂ (λ x xs. x ∷ xs) h k

parse_items-IsSaved : (vs : Items) → IsSaved (parse_items vs)
unfolding IsSaved
parse_items-IsSaved Items.no_items = refl
parse_items-IsSaved (Items.item v vs) =
    and_layer-IsSaved (parse_layer v) (parse_items vs) (parse_layer-IsSavedLayer v)
      (parse_items-IsSaved vs)

parse_layers-IsSaved : (v : Json) → IsSaved (parse_layers v)
unfolding IsSaved
parse_layers-IsSaved (Json.array vs) = parse_items-IsSaved vs
parse_layers-IsSaved (Json.string s) = elim (Bool-cases (s == "")) [
  | inl e ↦ rw e refl
  | inr e ↦ rw e tt
]
parse_layers-IsSaved (Json.object Fields.no_fields) = refl
parse_layers-IsSaved (Json.object (Fields.entry k v d)) = tt
parse_layers-IsSaved Json.null = tt
parse_layers-IsSaved (Json.boolean b) = tt
parse_layers-IsSaved (Json.number n) = tt

with_layers_saved :
    (d : Fields) (o : Option (List Layer))
    → IsSaved o
    → saved_of (with_layers d o) ≡ with_layers d o
unfolding IsSaved
with_layers_saved d none h = refl
with_layers_saved d (some ls) h = ground (arith, h)

parse_manifest_saved : (v : Json) → parse_manifest v ≡ saved_of (parse_manifest v)
parse_manifest_saved (Json.object d) =
    let layers = get_or d "layers" (Json.array Items.no_items) in
    sym (with_layers_saved d (parse_layers layers) (parse_layers-IsSaved layers))
parse_manifest_saved Json.null = refl
parse_manifest_saved (Json.boolean b) = refl
parse_manifest_saved (Json.number n) = refl
parse_manifest_saved (Json.string s) = refl
parse_manifest_saved (Json.array vs) = refl

pub read_manifest_saved :
    (files : Dict Content) (name : String)
    → read_manifest files name ≡ saved_of (read_manifest files name)
unfolding read_manifest
read_manifest_saved files name = of (Dict.get files (manifest_file name))
  where
    of :
        (o : Option Content)
        → (elim o [ some (json d) ↦ parse_manifest d | _ ↦ none ])
          ≡ saved_of (elim o [ some (json d) ↦ parse_manifest d | _ ↦ none ])
    of none = refl
    of (some (plain s)) = refl
    of (some (json d)) = parse_manifest_saved d
