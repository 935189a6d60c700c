-- ===== src/Runtime/Serialization/Encode.antt =====
-- runtime/serialization.py: serialize_args and serialize_value.
use Prim.Native.String.{◌++◌}
use cpip.Common.{ℕ, String, List, [], ◌∷◌, if◌then◌else◌}
use cpip.Shared.Json.{Json, Items, Fields}
use cpip.Runtime.Serialization.Values.{
  Object, Array, Value, Values, Entries, Codec, first_part, allowed,
}

-- `list(arr.shape)`
abbrev pub numbers : List ℕ → Items
numbers [] = Items.no_items
numbers (n ∷ ns) = Items.item (Json.number n) (numbers ns)

-- `{"__type__": tag, ...}`
abbrev pub tagged : String → Fields → Json
tagged tag fields = Json.object (Fields.entry "__type__" (Json.string tag) fields)

abbrev pub one_field : String → Json → Fields
one_field key v = Fields.entry key v Fields.no_fields

unfoldable pub serialize_numpy : Codec → Array → Json
serialize_numpy codec arr = tagged "ndarray" (
    Fields.entry "dtype" (Json.string arr.dtype) (
      Fields.entry "shape" (Json.array (numbers arr.shape))
        (one_field "data" (Json.string (codec.b64encode arr.content)))))

-- `f"{type(value).__module__}.{type(value).__name__}"`
abbrev pub class_path : Codec → Object → String
class_path codec i = codec.module_name i ++ ("." ++ codec.class_name i)

unfoldable pub serialize_pickle : Codec → Object → Json
serialize_pickle codec i = tagged "pickle" (
    Fields.entry "data" (Json.string (codec.b64encode (codec.dumps i)))
      (one_field "class" (Json.string (class_path codec i))))

-- What is neither a value of JSON, a container nor an array: pickled if its module is allowed, or
-- the text of it.
unfoldable pub serialize_other : Codec → Object → Json
serialize_other codec i =
    if allowed (first_part (codec.module_name i))
    then serialize_pickle codec i
    else tagged "repr" (
        Fields.entry "value" (Json.string (codec.repr i))
          (one_field "class" (Json.string (codec.class_name i))))

unfoldable mutual
  pub serialize_value : Codec → Value → Json
  serialize_value codec Value.none = Json.null
  serialize_value codec (Value.boolean b) = Json.boolean b
  serialize_value codec (Value.number n) = Json.number n
  serialize_value codec (Value.text s) = Json.string s
  serialize_value codec (Value.list vs) =
      tagged "list" (one_field "values" (Json.array (serialize_values codec vs)))
  serialize_value codec (Value.tuple vs) =
      tagged "list" (one_field "values" (Json.array (serialize_values codec vs)))
  serialize_value codec (Value.dict es) =
      tagged "dict" (one_field "items" (Json.object (serialize_items codec es)))
  serialize_value codec (Value.bytes bs) =
      tagged "bytes" (one_field "data" (Json.string (codec.b64encode bs)))
  serialize_value codec (Value.complex x y) =
      tagged "complex" (Fields.entry "real" (Json.number x) (one_field "imag" (Json.number y)))
  serialize_value codec (Value.set vs) =
      tagged "set" (one_field "values" (Json.array (serialize_values codec vs)))
  serialize_value codec (Value.array arr) = serialize_numpy codec arr
  serialize_value codec (Value.instance_of i) = serialize_other codec i

  -- `[serialize_value(v) for v in vs]`
  pub serialize_values : Codec → Values → Items
  serialize_values codec Values.no_values = Items.no_items
  serialize_values codec (Values.next v vs) =
      Items.item (serialize_value codec v) (serialize_values codec vs)

  -- `{k: serialize_value(v) for k, v in es.items()}`
  pub serialize_items : Codec → Entries → Fields
  serialize_items codec Entries.no_entries = Fields.no_fields
  serialize_items codec (Entries.pair k v es) =
      Fields.entry k (serialize_value codec v) (serialize_items codec es)

-- The arguments of a call: the outer list or dict is not tagged.
unfoldable pub serialize_args : Codec → Value → Json
serialize_args codec (Value.list vs) = Json.array (serialize_values codec vs)
serialize_args codec (Value.tuple vs) = Json.array (serialize_values codec vs)
serialize_args codec (Value.dict es) = Json.object (serialize_items codec es)
serialize_args codec v = serialize_value codec v
