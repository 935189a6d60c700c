-- ===== src/Runtime/Serialization/Decode.antt =====
-- runtime/serialization.py: deserialize_result and its helpers.
use Prim.Native.String.{String}
use cpip.Common.{ℕ, some, none, Bool, true, false, List, ◌==◌, if◌then◌else◌}
use cpip.Shared.Json.{Json, Items, Fields, truthy, get_field, get_or}
use cpip.Runtime.Serialization.Values.{
  Value, Values, Entries, Failure, Outcome, ok, raised, ◌>>=◌, Codec, first_part, allowed, to_set,
}

-- A value of JSON as the Python value that it is.
abbrev mutual
  pub plain : Json → Value
  plain Json.null = Value.none
  plain (Json.boolean b) = Value.boolean b
  plain (Json.number n) = Value.number n
  plain (Json.string s) = Value.text s
  plain (Json.array vs) = Value.list (plain_items vs)
  plain (Json.object vs) = Value.dict (plain_fields vs)

  plain_items : Items → Values
  plain_items Items.no_items = Values.no_values
  plain_items (Items.item v vs) = Values.next (plain v) (plain_items vs)

  plain_fields : Fields → Entries
  plain_fields Fields.no_fields = Entries.no_entries
  plain_fields (Fields.entry k v vs) = Entries.pair k (plain v) (plain_fields vs)

-- `data[key]`
abbrev pub at : Fields → String → Outcome Json
at d key = elim (get_field d key) [ some v ↦ ok v | none ↦ raised (Failure.key_error key) ]

-- What `data.get("__type__")` selects; `untagged` where it is false in a test.
pub data Tag : Type 0 where
  untagged list_tag dict_tag bytes_tag complex_tag set_tag : Tag
  ndarray_tag tensor_tag pickle_tag repr_tag unknown_tag : Tag

unfoldable pub to_tag : String → Tag
to_tag s =
    if s == "list"
    then Tag.list_tag
    else if s == "dict"
    then Tag.dict_tag
    else if s == "bytes"
    then Tag.bytes_tag
    else if s == "complex"
    then Tag.complex_tag
    else if s == "set"
    then Tag.set_tag
    else if s == "ndarray"
    then Tag.ndarray_tag
    else if s == "tensor"
    then Tag.tensor_tag
    else if s == "pickle"
    then Tag.pickle_tag
    else if s == "repr"
    then Tag.repr_tag
    else Tag.unknown_tag

abbrev pub tag_of : Json → Tag
tag_of (Json.string s) = if truthy (Json.string s) then to_tag s else Tag.untagged
tag_of v = if truthy v then Tag.unknown_tag else Tag.untagged

abbrev pub type_tag : Fields → Tag
type_tag d = tag_of (get_or d "__type__" Json.null)

-- `base64.b64decode(v)`
abbrev pub b64decode : Codec → Json → Outcome (List ℕ)
b64decode codec (Json.string s) = codec.b64decode s
b64decode codec _ = raised Failure.type_error

-- `complex(x, y)`
abbrev bit : Bool → ℕ
bit b = if b then 1 else 0

abbrev pub to_complex : Json → Json → Outcome Value
to_complex (Json.number x) (Json.number y) = ok (Value.complex x y)
to_complex (Json.boolean b) (Json.number y) = ok (Value.complex (bit b) y)
to_complex (Json.number x) (Json.boolean b) = ok (Value.complex x (bit b))
to_complex (Json.boolean b) (Json.boolean c) = ok (Value.complex (bit b) (bit c))
to_complex _ _ = raised Failure.type_error

unfoldable pub deserialize_numpy : Codec → Fields → Outcome Value
deserialize_numpy codec d = elim codec.has_numpy [
  | false ↦ ok (plain (Json.object d))
  | true ↦ at d "data" >>= b64decode codec >>= λ raw.
      at d "dtype" >>= codec.frombuffer raw >>= λ arr.
      at d "shape" >>= codec.reshape arr >>= λ shaped. ok (Value.array shaped)
]

unfoldable pub deserialize_tensor : Codec → Fields → Outcome Value
deserialize_tensor codec d = elim (if codec.has_torch then codec.has_numpy else false) [
  | false ↦ deserialize_numpy codec d
  | true ↦ at d "data" >>= b64decode codec >>= λ raw.
      codec.frombuffer raw (get_or d "numpy_dtype" (Json.string "float32")) >>= λ arr.
      at d "shape" >>= codec.reshape arr >>= λ shaped. ok (codec.from_numpy shaped)
]

-- `data.get("class", "").split(".")[0]`
abbrev pub class_module : Json → Outcome String
class_module (Json.string s) = ok (first_part s)
class_module _ = raised Failure.attribute_error

unfoldable pub deserialize_pickle : Codec → Fields → Outcome Value
deserialize_pickle codec d = class_module (get_or d "class" (Json.string "")) >>= λ name.
    if allowed name
    then at d "data" >>= b64decode codec >>= codec.loads
    else ok (plain (Json.object d))

-- The loop over `data.get("values", [])` meets the items of a list, the keys of a dict (texts, which
-- stay as they are) and the characters of a text.
abbrev characters : String → Values
characters String.[] = Values.no_values
characters (String.◌∷◌ c s) = Values.next (Value.text (String.◌∷◌ c String.[])) (characters s)

abbrev field_names : Fields → Values
field_names Fields.no_fields = Values.no_values
field_names (Fields.entry k v vs) = Values.next (Value.text k) (field_names vs)

unfoldable mutual
  pub deserialize_result : Codec → Json → Outcome Value
  deserialize_result codec (Json.array vs) = deserialize_items codec vs >>= λ ws. ok (Value.list ws)
  deserialize_result codec (Json.object d) = elim (type_tag d) [
    | Tag.untagged ↦ deserialize_fields codec d >>= λ es. ok (Value.dict es)
    | Tag.list_tag ↦ values_field codec d >>= λ ws. ok (Value.list ws)
    | Tag.dict_tag ↦ items_field codec d >>= λ es. ok (Value.dict es)
    | Tag.bytes_tag ↦ at d "data" >>= b64decode codec >>= λ bs. ok (Value.bytes bs)
    | Tag.complex_tag ↦ at d "real" >>= λ x. at d "imag" >>= to_complex x
    | Tag.set_tag ↦ values_field codec d >>= to_set
    | Tag.ndarray_tag ↦ deserialize_numpy codec d
    | Tag.tensor_tag ↦ deserialize_tensor codec d
    | Tag.pickle_tag ↦ deserialize_pickle codec d
    | Tag.repr_tag ↦ ok (plain (get_or d "value" (Json.string "")))
    | Tag.unknown_tag ↦ ok (plain (Json.object d))
  ]
  deserialize_result codec v = ok (plain v)

  -- `[deserialize_result(v) for v in vs]`
  pub deserialize_items : Codec → Items → Outcome Values
  deserialize_items codec Items.no_items = ok Values.no_values
  deserialize_items codec (Items.item v vs) =
      deserialize_result codec v >>= λ w. deserialize_items codec vs >>= λ ws. ok (Values.next w ws)

  -- `{k: deserialize_result(v) for k, v in d.items()}`
  pub deserialize_fields : Codec → Fields → Outcome Entries
  deserialize_fields codec Fields.no_fields = ok Entries.no_entries
  deserialize_fields codec (Fields.entry k v vs) = deserialize_result codec v >>= λ w.
      deserialize_fields codec vs >>= λ es. ok (Entries.pair k w es)

  -- `[deserialize_result(v) for v in data.get("values", [])]`
  pub values_field : Codec → Fields → Outcome Values
  values_field codec Fields.no_fields = ok Values.no_values
  values_field codec (Fields.entry k v vs) = elim (k == "values") [
    | true ↦ each codec v
    | false ↦ values_field codec vs
  ]

  pub each : Codec → Json → Outcome Values
  each codec (Json.array vs) = deserialize_items codec vs
  each codec (Json.object d) = ok (field_names d)
  each codec (Json.string s) = ok (characters s)
  each codec _ = raised Failure.type_error

  -- `{k: deserialize_result(v) for k, v in data.get("items", {}).items()}`
  pub items_field : Codec → Fields → Outcome Entries
  items_field codec Fields.no_fields = ok Entries.no_entries
  items_field codec (Fields.entry k v vs) = elim (k == "items") [
    | true ↦ each_item codec v
    | false ↦ items_field codec vs
  ]

  pub each_item : Codec → Json → Outcome Entries
  each_item codec (Json.object d) = deserialize_fields codec d
  each_item codec _ = raised Failure.attribute_error
