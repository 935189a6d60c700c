-- ===== src/Runtime/Serialization/RoundTrip.antt =====
-- runtime/serialization.py: what comes back of a value that was serialized.
use Prim.Native.Char.{code}
use Prim.Native.String.{◌++◌}
use text.Mathlib.TextLemmas.{nil-append, cons-append}
use cpip.Common.{
  ℕ, ◌≡◌, refl, ap, ◌∙◌, ◌==◌, ◌||◌, Bool, true, false, Bool-cases, inl, inr, none, String, List,
  eqb, if◌then◌else◌, arith,
}
use cpip.Shared.Json.{Json, get_field}
use cpip.Runtime.Serialization.Values.{
  Value, Values, Entries, Outcome, ok, ◌>>=◌, Array, Object, Codec, first_part, allowed, to_set,
}
use cpip.Runtime.Serialization.Encode.{
  serialize_value, serialize_values, serialize_items, serialize_args, serialize_numpy,
  serialize_pickle, serialize_other, numbers,
}
use cpip.Runtime.Serialization.Decode.{
  deserialize_result, deserialize_items, deserialize_fields, deserialize_numpy, deserialize_pickle,
  to_tag,
}

-- What the libraries promise: base64 and pickle give back what they were given, and numpy is there
-- and makes an array again of its bytes, type and shape.
pub record Faithful (codec : Codec) : Type 0 where
  pub base64 : (bs : List ℕ) → codec.b64decode (codec.b64encode bs) ≡ ok bs
  pub pickle : (i : Object) → codec.loads (codec.dumps i) ≡ ok (Value.instance_of i)
  pub numpy : codec.has_numpy ≡ true
  pub arrays :
      (a : Array)
      → (codec.frombuffer a.content (Json.string a.dtype) >>= λ b.
          codec.reshape b (Json.array (numbers a.shape)))
        ≡ ok a

-- A tuple becomes a list, an object of a module that is not allowed its text, and a set is made again
-- of what its elements become.
abbrev mutual
  pub restored : Codec → Value → Outcome Value
  restored codec (Value.list vs) = restored_all codec vs >>= λ ws. ok (Value.list ws)
  restored codec (Value.tuple vs) = restored_all codec vs >>= λ ws. ok (Value.list ws)
  restored codec (Value.dict es) = restored_entries codec es >>= λ ds. ok (Value.dict ds)
  restored codec (Value.set vs) = restored_all codec vs >>= to_set
  restored codec (Value.instance_of i) =
      if allowed (first_part (codec.module_name i))
      then ok (Value.instance_of i)
      else ok (Value.text (codec.repr i))
  restored codec v = ok v

  pub restored_all : Codec → Values → Outcome Values
  restored_all codec Values.no_values = ok Values.no_values
  restored_all codec (Values.next v vs) =
      restored codec v >>= λ w. restored_all codec vs >>= λ ws. ok (Values.next w ws)

  pub restored_entries : Codec → Entries → Outcome Entries
  restored_entries codec Entries.no_entries = ok Entries.no_entries
  restored_entries codec (Entries.pair k v es) =
      restored codec v >>= λ w. restored_entries codec es >>= λ ds. ok (Entries.pair k w ds)

-- The module of a class path is that of the class.
first_part-append : (s t : String) → first_part (s ++ ("." ++ t)) ≡ first_part s
unfolding first_part
first_part-append String.[] t = ap first_part (nil-append ("." ++ t) ∙ cons-append _ String.[] t)
first_part-append (String.◌∷◌ c s) t =
    ap first_part (cons-append c s ("." ++ t)) ∙ elim (Bool-cases (eqb (code c) b'.')) [
      | inl e ↦ ground (arith, e)
      | inr e ↦ ground (arith, e, first_part-append s t)
    ]

deserialize-serialize_numpy :
    (codec : Codec) (arr : Array)
    → Faithful codec
    → deserialize_result codec (serialize_numpy codec arr) ≡ ok (Value.array arr)
unfolding deserialize_result deserialize_numpy serialize_numpy get_field to_tag
deserialize-serialize_numpy codec arr f =
    ground (arith, f.numpy, f.base64 arr.content, f.arrays arr)

deserialize-serialize_other :
    (codec : Codec) (i : Object)
    → Faithful codec
    → deserialize_result codec (serialize_other codec i) ≡ restored codec (Value.instance_of i)
unfolding deserialize_result deserialize_pickle serialize_pickle serialize_other get_field to_tag
deserialize-serialize_other codec i f = ground (
  arith,
  first_part-append (codec.module_name i) (codec.class_name i),
  f.base64 (codec.dumps i),
  f.pickle i,
)

mutual
  unfolding deserialize_result serialize_value get_field to_tag

  value_lem :
      (codec : Codec)
      → Faithful codec
      → (v : Value) → deserialize_result codec (serialize_value codec v) ≡ restored codec v
  value_lem codec f Value.none = refl
  value_lem codec f (Value.boolean b) = refl
  value_lem codec f (Value.number n) = refl
  value_lem codec f (Value.text s) = refl
  value_lem codec f (Value.bytes bs) =
      ap (λ (o : Outcome (List ℕ)). o >>= λ b. ok (Value.bytes b)) (f.base64 bs)
  value_lem codec f (Value.complex x y) = refl
  value_lem codec f (Value.list vs) =
      ap (λ (o : Outcome Values). o >>= λ ws. ok (Value.list ws)) (items_lem codec f vs)
  value_lem codec f (Value.tuple vs) =
      ap (λ (o : Outcome Values). o >>= λ ws. ok (Value.list ws)) (items_lem codec f vs)
  value_lem codec f (Value.set vs) =
      ap (λ (o : Outcome Values). o >>= to_set) (items_lem codec f vs)
  value_lem codec f (Value.dict es) =
      ap (λ (o : Outcome Entries). o >>= λ ds. ok (Value.dict ds)) (fields_lem codec f es)
  value_lem codec f (Value.array arr) = deserialize-serialize_numpy codec arr f
  value_lem codec f (Value.instance_of i) = deserialize-serialize_other codec i f

  items_lem :
      (codec : Codec)
      → Faithful codec
      → (vs : Values) → deserialize_items codec (serialize_values codec vs) ≡ restored_all codec vs
  items_lem codec f Values.no_values = refl
  items_lem codec f (Values.next v vs) =
      λ i. value_lem codec f v i >>= λ w. items_lem codec f vs i >>= λ ws. ok (Values.next w ws)

  fields_lem :
      (codec : Codec)
      → Faithful codec
      → (es : Entries)
      → deserialize_fields codec (serialize_items codec es) ≡ restored_entries codec es
  fields_lem codec f Entries.no_entries = refl
  fields_lem codec f (Entries.pair k v es) =
      λ i. value_lem codec f v i >>= λ w. fields_lem codec f es i >>= λ ds. ok (Entries.pair k w ds)

-- Whatever is serialized comes back as `restored` says, an error of a set included, if the
-- libraries are faithful.
pub deserialize_result-serialize_value :
    (codec : Codec) (v : Value)
    → Faithful codec
    → deserialize_result codec (serialize_value codec v) ≡ restored codec v
deserialize_result-serialize_value codec v f = value_lem codec f v

abbrev has_key : Entries → String → Bool
has_key Entries.no_entries key = false
has_key (Entries.pair k v es) key = k == key || has_key es key

get_field-serialize_items :
    (codec : Codec) (es : Entries) (key : String)
    → has_key es key ≡ false
    → get_field (serialize_items codec es) key ≡ none
unfolding get_field serialize_value
get_field-serialize_items codec Entries.no_entries key h = refl
get_field-serialize_items codec (Entries.pair k v es) key h =
    ground (arith, get_field-serialize_items codec es key)

-- Keyword arguments, none of which is named like the tag of the wire.
abbrev pub Untagged : Value → Type 0
Untagged (Value.dict es) = has_key es "__type__" ≡ false
Untagged _ = Unit

-- Arguments, whose outer list or dict has no tag, come back as `restored` says if the libraries are
-- faithful and no keyword argument is named `__type__`.
pub deserialize_result-serialize_args :
    (codec : Codec) (v : Value)
    → Faithful codec
    → Untagged v
    → deserialize_result codec (serialize_args codec v) ≡ restored codec v
unfolding deserialize_result serialize_args serialize_value
deserialize_result-serialize_args codec (Value.list vs) f u =
    ap (λ (o : Outcome Values). o >>= λ ws. ok (Value.list ws)) (items_lem codec f vs)
deserialize_result-serialize_args codec (Value.tuple vs) f u =
    ap (λ (o : Outcome Values). o >>= λ ws. ok (Value.list ws)) (items_lem codec f vs)
deserialize_result-serialize_args codec (Value.dict es) f u =
    ground (arith, get_field-serialize_items codec es "__type__", fields_lem codec f es)
deserialize_result-serialize_args codec Value.none f u = refl
deserialize_result-serialize_args codec (Value.boolean b) f u = value_lem codec f (Value.boolean b)
deserialize_result-serialize_args codec (Value.number n) f u = value_lem codec f (Value.number n)
deserialize_result-serialize_args codec (Value.text s) f u = value_lem codec f (Value.text s)
deserialize_result-serialize_args codec (Value.bytes bs) f u = value_lem codec f (Value.bytes bs)
deserialize_result-serialize_args codec (Value.complex x y) f u =
    value_lem codec f (Value.complex x y)
deserialize_result-serialize_args codec (Value.set vs) f u = value_lem codec f (Value.set vs)
deserialize_result-serialize_args codec (Value.array arr) f u = value_lem codec f (Value.array arr)
deserialize_result-serialize_args codec (Value.instance_of i) f u =
    value_lem codec f (Value.instance_of i)
