-- ===== src/Server/Ws/Tests.antt =====
-- Runs of server/ws/ and the endpoint of server/app.py: a device that connects, is called and connects
-- again, heartbeats and a cleanup of sessions.
use cpip.Common.{
  ◌≡◌, refl, ◌==◌, if◌then◌else◌, String, true, false, Option, some, none, [], ◌∷◌, ◌++◌, seconds,
}
use cpip.Common.Dict
use cpip.Common.Dict.{Dict, Unique}
use cpip.Shared.Json.{Json, Fields}
use cpip.Shared.Protocol.{
  RpcMessage, value, with_value, to_type, to_dict, from_dict, make_call, make_result, make_error,
  make_notification,
}
use cpip.Server.Ws.Hub.{
  DeviceConnection, Hub, new_hub, connect, disconnect, try_send, send_to_device, broadcast,
  broadcast_loop, beat, beats, heartbeat_round, get_connection,
}
use cpip.Server.Ws.Hub.Heartbeats.{filtered, kept, get_connection-heartbeat_round}
use cpip.Server.Ws.Hub.Sockets.{Fresh, Sound, Run, Run-Sound}
use cpip.Server.Ws.Sessions.{Sessions, create, update_activity, cleanup_stale, delete_all}
use cpip.Server.Ws.Rpc.{Handled, Handlers, Context, dispatch, respond}
use cpip.Server.Ws.Endpoint.{
  Env, Event, send, update_conn, on_message, receive, step, run, User, user_of, token_of,
}
use cpip.Server.Ws.Endpoint.Replies.{receive_all, all_texts, receive_all_sent}
use cpip.Server.Ws.Endpoint.Reconnect.{reconnect_lost}

program : Unit {0}
unfolding value with_value to_type to_dict from_dict make_call make_result make_error
    make_notification connect disconnect try_send send_to_device broadcast broadcast_loop beat beats
    heartbeat_round create update_activity cleanup_stale delete_all dispatch respond send
    update_conn on_message receive step run user_of token_of Dict.get Dict.put Dict.remove
program = tt

abbrev ping : Json → Handled
ping params = Handled.returned (Json.boolean true)

abbrev broken : Json → Handled
broken params = Handled.raised "no such file" "Traceback"

abbrev handlers : Handlers
handlers = ("ping", ping) ∷ ("broken", broken) ∷ []

abbrev context : Context
context = record { uuid = "c0de"; now = 50; duration_ms = 2; str = λ v. "?" }

-- Two texts are known: a call and an acknowledgement of a heartbeat.
abbrev loads : String → Option (Dict Json)
loads raw = elim (raw == "call") [
  | true ↦ some (
      ("type", Json.string "rpc.call")
      ∷ ("id", Json.string "1")
      ∷ ("method", Json.string "ping")
      ∷ [])
  | false ↦ if raw == "ack" then some (("type", Json.string "rpc.heartbeat.ack") ∷ []) else none
]

abbrev dumps : Dict Json → String
dumps d = elim (Dict.get d "type") [ some (Json.string s) ↦ s | _ ↦ "" ]

abbrev env : Env
env = record {
  loads = loads;
  dumps = dumps;
  handlers = handlers;
  context = context;
  alive = λ w. true;
}

abbrev one : Hub
one = connect "phone" 1 10 new_hub

test_replies :
    (receive_all env "phone" 1 ("call" ∷ "noise" ∷ "ack" ∷ []) one).sent ≡ (1, "rpc.result") ∷ []
unfolding program
test_replies = refl

test_token : token_of (some "Bearer abc") none ≡ some "abc"
unfolding program
test_token = refl

first-Fresh : Fresh 1 new_hub
unfolding program
first-Fresh = (refl, λ d c e. absurd (cc e))

one-Run : Run one
one-Run = Run.connected "phone" 1 10 first-Fresh Run.started

Run-Sound_example : Sound one
Run-Sound_example = Run-Sound one one-Run

get_connection-heartbeat_round_example :
    get_connection (heartbeat_round (λ w. false) 30 20 one) "phone"
    ≡ filtered (kept (λ w. false) 30 20) (get_connection one "phone")
get_connection-heartbeat_round_example =
    get_connection-heartbeat_round (λ w. false) 30 20 one "phone"

abbrev sessions : Sessions
sessions = create (seconds 5000) "b" "phone" (create 0 "a" "phone" [])

sessions-Unique : Unique sessions
unfolding program
sessions-Unique = (refl, (refl, tt))

test_cleanup : (cleanup_stale 3600 (seconds 5001) sessions).0 ≡ 1
unfolding program
test_cleanup = refl

receive_all_sent_example :
    (receive_all env "phone" 1 ("call" ∷ "ack" ∷ []) one).sent
    ≡ one.sent ++ all_texts env "phone" 1 ("call" ∷ "ack" ∷ [])
receive_all_sent_example = receive_all_sent env "phone" 1 ("call" ∷ "ack" ∷ []) one refl

abbrev a_call : RpcMessage
a_call = make_call "1" 40 "ping" Json.null Json.null

call_method : a_call.method ≡ Json.string "ping"
unfolding program
call_method = refl

abbrev phone : DeviceConnection
phone = record {
  device_id = "phone";
  websocket = 1;
  connected_at = 10;
  last_heartbeat = 10;
  metadata = Json.object Fields.no_fields;
}

phone_there : get_connection one "phone" ≡ some phone
unfolding program
phone_there = refl

reconnect_lost_example :
    (get_connection (run env (Event.opened "phone" 2 60 ∷ Event.ended "phone" ∷ []) one) "phone"
      ≡ none)
    × ((run env (Event.opened "phone" 2 60 ∷ Event.ended "phone" ∷ []) one).closed
        ≡ (one.closed ++ 1 ∷ []) ++ 2 ∷ [])
reconnect_lost_example = reconnect_lost env one "phone" phone 2 60 phone_there

abbrev decode : String → Option User
decode t = if t == "abc" then some (some "phone") else none
