-- ===== src/Runtime/Hooks/Tests.antt =====
-- Runs of runtime/hooks.py: hooks that are activated twice, imports, and a call through a proxy.
use Prim.Native.String.{◌++◌ as ◌<>◌}
use cpip.Common.{
  ◌≡◌, refl, String, Bool, true, false, some, none, List, [], ◌∷◌, ◌++◌, ◌==◌, if◌then◌else◌,
  select,
}
use cpip.Common.Dict
use cpip.Common.Dict.{Dict}
use cpip.Common.Texts.{split_dots, join_dots}
use cpip.Shared.Json.{Json}
use cpip.Shared.Protocol.{RpcMessage, to_dict, make_call, make_error, value}
use cpip.Server.Services.Execution.{
  ExecutionRequest, Called, Call, allowed, allowed_modules, execute_parts, method_parts, here,
}
use cpip.Server.Ws.Hub.{new_hub}
use cpip.Server.Ws.Rpc.{Context, dispatcher}
use cpip.Server.Ws.Endpoint as Endpoint
use cpip.Server.Ws.Endpoint.{Env}
use cpip.Runtime.Serialization.Values.{Value, Entries}
use cpip.Runtime.Serialization.Sample.{libraries}
use cpip.Runtime.Interceptor.{
  CloudSession, Socket, new_session, Answer, connect, begin, call_message, receive_all, finish,
}
use cpip.Runtime.Hooks.{
  ProxyModule, proxy, ordinary, cpip_finder, other_finder, Hooks, is_other, register_cloud_package,
  activate_hooks, deactivate_hooks, find_spec, top_level, new_proxy, get_session, getattr, chain,
  call_remote, create,
}
use cpip.Runtime.Hooks.Registering.{
  Change, change_all, installations, is_on, hooks_on, registered, activated, installed,
  change_all_lem,
}
use cpip.Runtime.Hooks.Importing.{import_module, import_all, import_module-deactivate_hooks}
use cpip.Runtime.Hooks.Proxied.{Hooked, is_proxy, import_all-proxy}
use cpip.Runtime.Hooks.Names.{execute_parts-chain}
use cpip.Runtime.Hooks.Refused.{IsServer, IsRead, refusal}
use cpip.Runtime.Hooks.Remote.{call_remote_refused}

program : Unit {0}
unfolding register_cloud_package activate_hooks deactivate_hooks find_spec get_session getattr chain
    call_remote create import_module split_dots Dict.get Dict.put
program = tt

abbrev clean : Hooks
clean = record {
  cloud_packages = [];
  hooks_active = false;
  meta_path = other_finder "PathFinder" ∷ [];
  modules = ("json", ordinary "PathFinder") ∷ [];
}

abbrev changes : List Change
changes =
    registered "torch" Json.null false
    ∷ activated Json.null
    ∷ activated Json.null
    ∷ installed "zipimporter"
    ∷ []

abbrev hooked : Hooks
hooked = activate_hooks Json.null (register_cloud_package "torch" Json.null false clean)

test_activated_twice :
    (change_all changes clean).meta_path
    ≡ other_finder "zipimporter" ∷ cpip_finder Json.null ∷ other_finder "PathFinder" ∷ []
unfolding program
test_activated_twice = refl

change_all_lem_example :
    (hooks_on (change_all changes clean).meta_path ≡ (if is_on changes false then 1 else 0))
    × (select is_other (change_all changes clean).meta_path
        ≡ installations changes (select is_other clean.meta_path))
change_all_lem_example = change_all_lem changes clean refl refl

abbrev everything : String → String → Bool
everything f name = true

test_import :
    ((import_module everything "torch.nn" hooked).0
      ≡ some (
          proxy
            (record (new_proxy "torch.nn" Json.null
              (some (record { config = Json.null; hybrid = false; loaded = false }))) {
                initialized = true;
              })))
    × ((import_module everything "numpy" hooked).0 ≡ some (ordinary "PathFinder"))
unfolding program
test_import = (refl, refl)

json_unregistered : Dict.get hooked.cloud_packages (top_level "json.decoder") ≡ none
unfolding program
json_unregistered = refl

import_module-deactivate_hooks_example :
    let (m, after) = import_module everything "json.decoder" hooked in
    let (m0, after0) = import_module everything "json.decoder" (deactivate_hooks hooked) in
    (m ≡ m0) × (after.modules ≡ after0.modules)
import_module-deactivate_hooks_example =
    import_module-deactivate_hooks everything "json.decoder" hooked json_unregistered

abbrev fresh : Hooks
fresh = record hooked { modules = [] }

fresh-Hooked :
    Hooked "torch" Json.null
      (other_finder "PathFinder" ∷ [])
      (record { config = Json.null; hybrid = false; loaded = false })
      fresh
unfolding program
fresh-Hooked = (refl, refl, λ name e. refl)

torch_top : top_level "torch" ≡ "torch"
unfolding program
torch_top = refl

torch_nn_top : top_level "torch.nn" ≡ "torch"
unfolding program
torch_nn_top = refl

import_all-proxy_example :
    is_proxy
      (import_module everything "torch.nn" (import_all everything ("json" ∷ "torch" ∷ []) fresh)).0
    ≡ true
import_all-proxy_example =
    import_all-proxy everything "torch" Json.null (other_finder "PathFinder" ∷ [])
      (record { config = Json.null; hybrid = false; loaded = false }) torch_top
      ("json" ∷ "torch" ∷ []) "torch.nn" fresh fresh-Hooked torch_nn_top

abbrev request : ExecutionRequest
request = record {
  request_id = "r1";
  method = "torch.nn.Linear.add";
  args = Json.null;
  kwargs = Json.null;
}

abbrev parts_as_text : Call
parts_as_text m attrs args kwargs = Called.returned (Json.string (join_dots m attrs))

-- The submodule torch.nn.
request_method : request.method ≡ chain (join_dots "torch" ("nn" ∷ [])) ("Linear" ∷ "add" ∷ [])
unfolding program
request_method = refl

execute_parts-chain_example :
    (top_level request.method ≡ "torch")
    × (execute_parts parts_as_text request (method_parts request) ≡ (
        if allowed "torch" allowed_modules
        then parts_as_text "torch" ("nn" ∷ "Linear" ∷ "add" ∷ []) request.args request.kwargs
        else Called.raised
            ("Module '" <> ("torch" <> "' is not allowed for remote execution"))
            here))
execute_parts-chain_example =
    execute_parts-chain parts_as_text request "torch" "Linear" ("nn" ∷ []) ("add" ∷ [])
      (refl, (refl, (refl, (refl, (refl, tt))))) ((refl, (refl, tt)), tt)
      ((refl, (refl, (refl, (refl, (refl, (refl, tt)))))), ((refl, (refl, (refl, tt))), tt))
      request_method

abbrev torch : ProxyModule
torch = new_proxy "torch" Json.null none

abbrev session : CloudSession
session = connect true (new_session "s1")

abbrev sent_call : RpcMessage
sent_call =
    call_message libraries "c1" 7 (connect true (get_session "s1" torch).0) "torch.nn.relu"
      Value.none Entries.no_entries

abbrev context : Context
context = record {
  uuid = "c0de";
  now = 50;
  duration_ms = 2;
  str = λ v. elim v [ Json.string s ↦ s | _ ↦ "?" ];
}

abbrev refused : RpcMessage
refused =
    make_error "c0de" 50 (Json.string "c1") "METHOD_NOT_FOUND" "Unknown method: exec.call" Json.null

-- The texts of two messages.
abbrev server : Env
server = record {
  loads = λ s. some (if s == "rpc.call" then to_dict sent_call else to_dict refused);
  dumps = λ d. elim (Dict.get d "type") [ some (Json.string s) ↦ s | _ ↦ "" ];
  handlers = dispatcher 5;
  context = context;
  alive = λ w. true;
}

server-IsServer : IsServer server
server-IsServer = record {
  started = 5;
  handlers = refl;
  str = λ s. refl;
  has_uuid = refl;
  has_time = refl;
}

refused-IsRead : IsRead server (refusal server "c1")
unfolding program make_error to_dict value
refused-IsRead = refl

sent_call-IsRead : IsRead server sent_call
unfolding program make_call to_dict value connect
sent_call-IsRead = refl

torch_connected : (connect true (get_session "s1" torch).0).socket ≡ Socket.open_socket
unfolding program connect
torch_connected = refl

call_remote_refused_example :
    let (s, q) = get_session "s1" torch in
    let s1 = (begin libraries true "c1" 7 "torch.nn.relu" Value.none Entries.no_entries s).1 in
    (call_remote libraries true "s1" "c1" 7 "nn" ("relu" ∷ []) Value.none Entries.no_entries torch
      ≡ some (true, record q { session = some s1 }))
    × (s1.sent ≡ s.sent ++ (sent_call ∷ []))
    × ((Endpoint.receive server "phone" 1 (server.dumps (to_dict sent_call)) new_hub).sent
        ≡ new_hub.sent ++ ((1, server.dumps (to_dict (refusal server "c1"))) ∷ []))
    × ((finish libraries "c1" (
          receive_all
            (none ∷ Endpoint.from_json server (server.dumps (to_dict (refusal server "c1"))) ∷ [])
            s1)).0
        ≡ Answer.runtime_error "Unknown method: exec.call")
call_remote_refused_example =
    call_remote_refused server libraries "c1" 7 Value.none Entries.no_entries (none ∷ []) []
      server-IsServer refused-IsRead refl refl (refl, tt) true "s1" "nn" ("relu" ∷ []) "phone" 1
      new_hub torch refl refl refl torch_connected sent_call-IsRead
