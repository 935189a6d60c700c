-- ===== src/Shared/Protocol/Tests.antt =====
-- Runs of shared/protocol.py: a call and a chunk are written to a dict and read back.
use cpip.Common.{◌≡◌, refl, inl, inr, some, none, [], ◌∷◌}
use cpip.Common.Dict
use cpip.Shared.Json.{Json, Fields}
use cpip.Shared.Protocol.{
  value, with_value, to_type, RpcMessage, to_dict, from_dict, make_call, make_stream_chunk,
}
use cpip.Shared.Protocol.RoundTrip.{from_dict-to_dict, IsNormal}

program : Unit {0}
unfolding value with_value to_type to_dict from_dict make_call make_stream_chunk Dict.get Dict.put
program = tt

abbrev params : Json
params = Json.object (Fields.entry "name" (Json.string "numpy") Fields.no_fields)

test_call :
    to_dict (make_call "c0de" 7 "package.install" params Json.null)
    ≡ ("jsonrpc", Json.string "2.0")
      ∷ ("type", Json.string "rpc.call")
      ∷ ("id", Json.string "c0de")
      ∷ ("timestamp", Json.number 7)
      ∷ ("method", Json.string "package.install")
      ∷ ("params", params)
      ∷ []
unfolding program
test_call = refl

test_unknown : from_dict "c0de" 7 (("type", Json.string "rpc.other") ∷ []) ≡ none
unfolding program
test_unknown = refl

abbrev chunk : RpcMessage
chunk = make_stream_chunk "c0de" 7 (Json.string "a") (Json.number 3) 1

chunk-IsNormal : IsNormal chunk
unfolding program
chunk-IsNormal = (refl, refl, inr refl, inr refl, inr refl, inl refl)

from_dict-to_dict_example : from_dict "beef" 9 (to_dict chunk) ≡ some chunk
from_dict-to_dict_example = from_dict-to_dict "beef" 9 chunk chunk-IsNormal
