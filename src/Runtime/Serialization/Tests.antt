-- ===== src/Runtime/Serialization/Tests.antt =====
-- Runs of runtime/serialization.py: nested arguments there and back, and the values that do not
-- come back.
use cpip.Common.{◌≡◌, refl, [], ◌∷◌}
use cpip.Shared.Json.{get_field}
use cpip.Runtime.Serialization.Values.{
  Value, Values, Entries, ok, raised, Failure, first_part, allowed, to_set,
}
use cpip.Runtime.Serialization.Encode.{
  serialize_value, serialize_args, serialize_numpy, serialize_pickle, serialize_other,
}
use cpip.Runtime.Serialization.Decode.{
  deserialize_result, deserialize_numpy, deserialize_tensor, deserialize_pickle, to_tag,
}
use cpip.Runtime.Serialization.RoundTrip.{restored, deserialize_result-serialize_value}
use cpip.Runtime.Serialization.Sample.{libraries, libraries-Faithful}

program : Unit {0}
unfolding deserialize_result deserialize_numpy deserialize_tensor deserialize_pickle get_field
    to_tag serialize_value serialize_args serialize_numpy serialize_pickle serialize_other
    first_part allowed to_set
program = tt

abbrev two : Value → Value → Values
two v w = Values.next v (Values.next w Values.no_values)

-- `(b"\x03\x00", {"when": date, "who": order})`
abbrev arguments : Value
arguments = Value.tuple (
    two (Value.bytes (3 ∷ 0 ∷ [])) (
      Value.dict (
        Entries.pair "when" (Value.instance_of 0)
          (Entries.pair "who" (Value.instance_of 7) Entries.no_entries))))

test_arguments :
    deserialize_result libraries (serialize_args libraries arguments)
    ≡ ok (
        Value.list (
          two (Value.bytes (3 ∷ 0 ∷ [])) (
            Value.dict (
              Entries.pair "when"
                (Value.instance_of 0)
                (Entries.pair "who" (Value.text "<Order>") Entries.no_entries)))))
unfolding program
test_arguments = refl

-- `{(1, 2)}` is written, and cannot be read.
test_set_of_tuple :
    deserialize_result libraries (
      serialize_value libraries (
        Value.set
          (Values.next (Value.tuple (two (Value.number 1) (Value.number 2))) Values.no_values)))
    ≡ raised Failure.type_error
unfolding program
test_set_of_tuple = refl

-- A keyword argument named `__type__` is taken for the tag.
test_tagged :
    deserialize_result libraries (
      serialize_args libraries
        (Value.dict (Entries.pair "__type__" (Value.text "repr") Entries.no_entries)))
    ≡ ok (Value.text "")
unfolding program
test_tagged = refl

deserialize_result-serialize_value_example :
    deserialize_result libraries (serialize_value libraries arguments)
    ≡ restored libraries arguments
deserialize_result-serialize_value_example =
    deserialize_result-serialize_value libraries arguments libraries-Faithful

abbrev keywords : Value
keywords = Value.dict (Entries.pair "order" arguments Entries.no_entries)
