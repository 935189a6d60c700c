-- ===== src/Server/Services/Tests.antt =====
-- Runs of server/services/: a build that is submitted and cancelled, and executions that are allowed
-- and refused.
use cpip.Common.{none, true, false, some, ◌≡◌, refl, String, [], ◌∷◌}
use cpip.Common.Texts.{split_dots}
use cpip.Common.Dict
use cpip.Builder.Queue.{BuildRequest}
use cpip.Shared.Json.{Json, Items}
use cpip.Server.Services.Builds.{
  BuildService, new_service, submit_build, cancel_build, remove_first,
}
use cpip.Server.Services.Builds.Queued.{Run}
use cpip.Server.Services.Execution.{
  ExecutionRequest, Called, Call, Results, execute_parts, method_parts, execute, cancel,
}
use cpip.Client.Resolver.{Surroundings, PackageStrategy}
use cpip.Server.Services.Packages.{seed_packages, seeded}

program : Unit {0}
unfolding submit_build cancel_build remove_first split_dots execute_parts execute cancel Dict.get
    Dict.put
program = tt

abbrev request : BuildRequest
request = record {
  request_id = "a";
  package_name = "numpy";
  package_version = "latest";
  target_architecture = "aarch64";
  python_version = "3.11";
  priority = 5;
}

abbrev service : BuildService
service = (cancel_build "a" (submit_build request new_service).1).1

test_cancelled : service.queue ≡ []
unfolding program
test_cancelled = refl

service-Run : Run service
unfolding program
service-Run = Run.cancelled "a" (Run.submitted request refl Run.started)

abbrev call : Call
call m attrs args kwargs = Called.returned (Json.number 3)

abbrev other_call : Call
other_call m attrs args kwargs = Called.raised "gone" "Traceback"

abbrev executes : String → ExecutionRequest
executes method = record {
  request_id = "x";
  method = method;
  args = Json.array Items.no_items;
  kwargs = Json.null;
}

test_parts : method_parts (executes "torch.nn.relu") ≡ "torch" ∷ "nn" ∷ "relu" ∷ []
unfolding program
test_parts = refl

test_allowed : (execute call 1 (executes "math.sqrt") []).0.result ≡ Json.number 3
unfolding program
test_allowed = refl

abbrev results : Results
results = (execute call 1 (executes "math.sqrt") []).1

abbrev phone : Surroundings
phone = record {
  offline_mode = false;
  gpu_offload = true;
  is_termux = true;
  has_gpu = false;
  is_installed = λ pkg. false;
  installed_version = λ pkg. none;
  query_cloud = λ pkg version. none;
  has_termux_pkg = λ pkg. false;
}

seeded_playwright :
    Dict.get seed_packages "playwright"
    ≡ some (seeded "1.44.0" PackageStrategy.cloud_exec false true ("x86_64" ∷ []))
unfolding program
seeded_playwright = refl
