-- ===== src/Server/Api/Tests.antt =====
-- Runs of server/api/: an execution with and without a token, and the limit that all calls share.
use cpip.Common.{
  ℕ, suc, zero, ◌≤◌, ◌≡◌, refl, String, false, Option, some, none, List, [], ◌∷◌, ◌==◌,
  if◌then◌else◌, arith,
}
use cpip.Common.Texts.{split_dots}
use cpip.Common.Dict
use cpip.Shared.Json.{Json, get_field}
use cpip.Server.Auth.Tokens.{decode_token, get_current_user, require_auth, user_data}
use cpip.Server.Auth.RateLimiter.{
  before_comma, strip_left, strip_right, client_key, all_old, prune_loop, prune, cleaned, check_key,
  check, check_rate_limit,
}
use cpip.Server.Auth.RateLimiter.Window.{count_recent}
use cpip.Server.Services.Builds.{new_service, submit_build, cancel_build, remove_first}
use cpip.Server.Services.Execution.{Called, execute, execute_parts, cancel}
use cpip.Server.Services.Packages.{get_package, get_wheel_url, get_layers, seed_packages}
use cpip.Server.Api.Limited.{executions, executions_le}
use cpip.Server.Api.Typed.{Answered, handle-Answered}
use cpip.Server.Api.{Endpoint, Http, Response, Env, App, handle}

program : Unit {0}
unfolding handle decode_token get_current_user require_auth get_field before_comma strip_left
    strip_right client_key all_old prune_loop prune cleaned check_key check check_rate_limit
    submit_build cancel_build remove_first execute execute_parts split_dots cancel get_package
    get_wheel_url get_layers Dict.get Dict.put Dict.remove
program = tt

-- A server that knows one token.
abbrev env : Env
env = record {
  server = record {
    jwt = record {
      encode = λ p secret. "t0";
      decode = λ t secret now.
          if t == "t0" then some (user_data (Json.string "ada") (Json.string "phone")) else none;
    };
    jwt_secret = "s3cret";
    debug = false;
  };
  registry = seed_packages;
  call = λ m attrs args kwargs. Called.returned (Json.number 2);
  search = λ q arch limit. [];
}

abbrev start : App
start = record { windows = []; builds = new_service; results = [] }

abbrev call : Endpoint → Option String → ℕ → Http
call endpoint token now = record {
  endpoint = endpoint;
  token = token;
  client = record { forwarded = none; host = some "10.0.0.1" };
  now = now;
  duration = 5;
}

abbrev sqrt : Endpoint
sqrt =
    Endpoint.submit_execution
      (record { request_id = "e1"; method = "math.sqrt"; args = Json.number 4; kwargs = Json.null })

abbrev new_build : Endpoint
new_build = Endpoint.create_build (record {
  request_id = "b1";
  package_name = "scipy";
  package_version = "1";
  target_architecture = "aarch64";
  python_version = "3.11";
  priority = 5;
})

abbrev handle_all : List Http → App → App
handle_all [] app = app
handle_all (http ∷ https) app = handle_all https (handle env http app).1

abbrev repeat : ℕ → Http → List Http
repeat zero http = []
repeat (suc n) http = http ∷ repeat n http

-- Ten reads of the catalog use up the limit of the builds.
test_shared_limit :
    (handle env
      (call new_build (some "t0") 11)
      (handle_all (repeat 10 (call Endpoint.get_catalog none 9)) start)).0
    ≡ Response.too_many_requests 60
unfolding program
test_shared_limit = refl

-- A result is read without a token.
test_get_execution :
    (handle env (call (Endpoint.get_execution "e0") none 11) start).0
    ≡ Response.not_found "Execution not found"
unfolding program
test_get_execution = refl

abbrev requests : List Http
requests =
    call Endpoint.get_catalog none 9
    ∷ call sqrt (some "t0") 10
    ∷ call new_build (some "t0") 11
    ∷ call sqrt none 12
    ∷ call sqrt (some "t0") 13
    ∷ []

test_executions : executions env requests start ≡ ("rate:10.0.0.1", 10) ∷ ("rate:10.0.0.1", 13) ∷ []
unfolding program
test_executions = refl

executions_le_example : count_recent 60 "rate:10.0.0.1" 20 (executions env requests start) ≤ 50
executions_le_example = executions_le env requests start "rate:10.0.0.1" 20 refl (omega arith)

test_refused :
    handle env (call sqrt none 12) start ≡ (Response.unauthorized "Not authenticated", start)
unfolding program
test_refused = refl

-- Without a token the cancellation of a build is refused.
handle-Answered_example :
    Answered env
      (Endpoint.cancel_build "b0")
      (call (Endpoint.cancel_build "b0") none 12)
      start
      (handle env (call (Endpoint.cancel_build "b0") none 12) start).0
handle-Answered_example = handle-Answered env (call (Endpoint.cancel_build "b0") none 12) start
