-- ===== src/Client/Daemon/Tests.antt =====
-- Runs of client/daemon.py: delays that double, an answer that comes twice, and calls of the cloud.
use cpip.Common.{
  ◌≡◌, ◌≢◌, refl, arith, eq_iff, String, true, none, some, List, [], ◌∷◌, ◌++◌, if◌then◌else◌,
}
use cpip.Common.Dict
use cpip.Files.{Metadata, file, json, dir}
use cpip.Shared.Json.{Json, Fields, get_field, get_or}
use cpip.Shared.Protocol.{
  RpcMessage, MessageType, make_call, make_result, make_error, make_heartbeat,
}
use cpip.Client.Cache.State.{missing}
use cpip.Client.Cache.Metadata.{get_metadata}
use cpip.Client.Sync.{SyncManager, do_sync}
use cpip.Client.Daemon.{
  Connection, connection_round, connection_loop, Settled, rpc_call, settle, settle_message,
}
use cpip.Client.Daemon.Messages.{Daemon, Surroundings, ok_status, handle_message}
use cpip.Client.Daemon.Invalidating.{IsFile, handle_message-get_metadata}

program : Unit {0}
unfolding connection_round connection_loop rpc_call settle settle_message handle_message do_sync
    get_metadata make_call make_result make_error make_heartbeat get_field Dict.get Dict.put
    Dict.remove
program = tt

abbrev rounds : List Connection
rounds =
    Connection.refused ∷ Connection.refused ∷ Connection.refused ∷ Connection.broken
    ∷ Connection.closed ∷ []

test_delays : connection_loop rounds 1 ≡ some 1 ∷ some 2 ∷ some 4 ∷ some 1 ∷ none ∷ []
unfolding program
test_delays = refl

abbrev three : Metadata
three = record { cached_at = some 3; items = [] }

abbrev sync : SyncManager
sync = record {
  cache = record {
    max_size_mb = 1;
    wheels_dir = "w";
    layers_dir = "l";
    metadata_dir = "m";
    index = [];
    index_file = missing;
    index_writable = true;
    disk =
        ("m/numpy.json", file (json three))
        ∷ ("m/jax.json", file (json three))
        ∷ ("m/cv2.json", dir [])
        ∷ [];
  };
  running = true;
  task = true;
  last_sync = 0;
  sync_file = none;
  writable = true;
}

abbrev start : Daemon
start = record {
  calls = rpc_call "a" (record { pending = []; settled = [] });
  sync = sync;
  connected = true;
  sent = [];
}

abbrev around : Surroundings
around = record {
  uuid = "u1";
  now = 9;
  cloud = record {
    message = λ r. "error";
    str = λ v. elim v [ Json.string s ↦ s | _ ↦ "?" ];
    metadata = λ d. three;
    register = some "refused";
    catalog = none;
    refused = "";
  };
  clock = λ i. 9;
  begun = 8;
  ended = 9;
  size_mb = λ c. Json.number 1;
}

abbrev late : RpcMessage
late = make_error "e1" 8 (Json.string "a") "E" "late" Json.null

abbrev three_result : RpcMessage
three_result = make_result "e2" 7 (Json.string "a") (Json.number 3)

test_settled :
    (handle_message around late (handle_message around three_result start)).calls
    ≡ record { pending = []; settled = ("a", Settled.result (Json.number 3)) ∷ [] }
unfolding program
test_settled = refl

-- An error that is no dict: the call waits no longer, and nothing is set.
test_lost :
    (handle_message around (record late { error = Json.string "late" }) start).calls
    ≡ record { pending = []; settled = [] }
unfolding program
test_lost = refl

abbrev invalidate : String → RpcMessage
invalidate name =
    make_call "c1" 5 "cache.invalidate"
      (Json.object (Fields.entry "package" (Json.string name) Fields.no_fields)) Json.null

test_directory : handle_message around (invalidate "cv2") start ≡ start
unfolding program
test_directory = refl

test_trigger :
    (handle_message around (make_call "c2" 5 "sync.trigger" Json.null Json.null) start).sent
    ≡ make_result "u1" 9 (Json.string "c2") (
        Json.object (
          Fields.entry "status"
            (Json.string "ok")
            (Fields.entry "updated" (Json.number 0) Fields.no_fields)))
      ∷ []
unfolding program
test_trigger = refl

numpy-ne-jax : ◌≢◌ {A = String} "numpy" "jax"
numpy-ne-jax = ground (arith, eq_iff "numpy" "jax")

abbrev numpy_fields : Fields
numpy_fields = Fields.entry "package" (Json.string "numpy") Fields.no_fields

numpy_call :
    ((invalidate "numpy").type ≡ MessageType.call)
    × ((invalidate "numpy").method ≡ Json.string "cache.invalidate")
    × ((invalidate "numpy").params ≡ Json.object numpy_fields)
unfolding program
numpy_call = (refl, refl, refl)

numpy_named : get_or numpy_fields "package" (Json.string "") ≡ Json.string "numpy"
unfolding program
numpy_named = refl

numpy-IsFile : IsFile (Dict.get sync.cache.disk "m/numpy.json")
unfolding program
numpy-IsFile = tt

handle_message-get_metadata_example :
    let d1 = handle_message around (invalidate "numpy") start in
    ((get_metadata "numpy" 10 d1.sync.cache).0 ≡ none)
    × ((get_metadata "jax" 10 d1.sync.cache).0 ≡ (get_metadata "jax" 10 start.sync.cache).0)
    × (d1.sent ≡ (
        if start.connected
        then start.sent ++ (make_result "u1" 9 (invalidate "numpy").id ok_status ∷ [])
        else start.sent))
    × (d1.calls ≡ start.calls)
handle_message-get_metadata_example =
    handle_message-get_metadata around (invalidate "numpy") start numpy_fields "numpy" numpy_call.0
      numpy_call.1 numpy_call.2 numpy_named refl refl numpy-IsFile "jax" 10 numpy-ne-jax
