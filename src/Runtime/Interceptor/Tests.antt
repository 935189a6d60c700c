-- ===== src/Runtime/Interceptor/Tests.antt =====
-- Runs of runtime/interceptor.py: a call that is answered, errors, and a call that is not sent.
use cpip.Common.{◌≡◌, refl, true, false, Option, some, none, List, [], ◌∷◌, ◌++◌}
use cpip.Common.Dict
use cpip.Shared.Json.{Json, get_field}
use cpip.Shared.Protocol.{
  RpcMessage, make_call, make_result, make_error, make_heartbeat, make_stream_start,
}
use cpip.Runtime.Serialization.Values.{Value, Values, Entries, first_part, allowed, to_set}
use cpip.Runtime.Serialization.Encode.{
  serialize_value, serialize_args, serialize_numpy, serialize_pickle, serialize_other,
}
use cpip.Runtime.Serialization.Decode.{
  deserialize_result, deserialize_numpy, deserialize_tensor, deserialize_pickle, to_tag,
}
use cpip.Runtime.Serialization.RoundTrip.{restored}
use cpip.Runtime.Serialization.Sample.{libraries, libraries-Faithful}
use cpip.Runtime.Interceptor.{
  CloudSession, new_session, connect, begin, receive, receive_all, connection_lost, Answer,
  deserialized, finish,
}
use cpip.Runtime.Interceptor.Remote.{Holds, finish-receive_all}

program : Unit {0}
unfolding connect begin receive connection_lost finish make_call make_result make_error
    make_heartbeat make_stream_start serialize_value serialize_args serialize_numpy serialize_pickle
    serialize_other deserialize_result deserialize_numpy deserialize_tensor deserialize_pickle
    to_tag first_part allowed to_set get_field Dict.get Dict.put Dict.remove
program = tt

abbrev start : CloudSession
start = new_session "s1"

abbrev called : CloudSession
called = (begin libraries true "c1" 7 "numpy.sum" Value.none Entries.no_entries start).1

abbrev answer : Value → RpcMessage
answer v = make_result "u9" 8 (Json.string "c1") (serialize_value libraries v)

abbrev pair : Value
pair =
    Value.tuple (Values.next (Value.number 1) (Values.next (Value.instance_of 7) Values.no_values))

test_answered :
    (finish libraries "c1" (receive_all (some (answer pair) ∷ []) called)).0
    ≡ Answer.returned (
        Value.list
          (Values.next (Value.number 1) (Values.next (Value.text "<Order>") Values.no_values)))
unfolding program
test_answered = refl

abbrev broken : RpcMessage
broken = make_error "u9" 8 (Json.string "c1") "E1" "no module" Json.null

test_error :
    (finish libraries "c1" (receive_all (none ∷ some broken ∷ some (answer pair) ∷ []) called)).0
    ≡ Answer.runtime_error "no module"
unfolding program
test_error = refl

-- An error that is no dict is passed over, and the call is no longer pending: its answer is lost.
test_lost :
    (finish libraries "c1" (
      receive_all
        (some (record broken { error = Json.string "no" }) ∷ some (answer pair) ∷ [])
        called)).0
    ≡ Answer.timeout_error
unfolding program
test_lost = refl

-- After the connection is lost and the server cannot be reached, a send raises.
test_connection_lost :
    (begin libraries false "c2" 9 "numpy.sum" Value.none Entries.no_entries
      (connection_lost called)).0
    ≡ false
unfolding program
test_connection_lost = refl

-- A stream of the call begins before its answer.
abbrev stream : RpcMessage
stream = make_stream_start "t1" 8 (Json.string "c1") Json.null

abbrev before : List (Option RpcMessage)
before = none ∷ some (make_heartbeat "h1" 8) ∷ some stream ∷ []

abbrev after : List (Option RpcMessage)
after = some broken ∷ []

finish-receive_all_example :
    (finish libraries "c1" (receive_all (before ++ (some (answer pair) ∷ after)) called)).0
    ≡ deserialized (restored libraries pair)
unfolding program
finish-receive_all_example =
    finish-receive_all libraries true "c1" 7 "numpy.sum" Value.none Entries.no_entries start before
      after (answer pair) (deserialized (restored libraries pair)) libraries-Faithful
      (refl, (refl, (refl, tt))) refl (Holds.value pair refl refl)
