-- ===== src/Server/Api.antt =====
-- server/api/builds.py, server/api/execution.py and server/api/packages.py: the REST routers, over the
-- services, the tokens and the rate limiter. A request has its call, its token and what the limiter
-- reads of its client. FastAPI resolves `require_auth` before it runs a handler. The search of packages
-- is a parameter, and so is the call of a method.
pub mod Tracking
pub mod Limited
pub mod Typed
mod Tests
use Prim.Native.String.{◌++◌}
use cpip.Common.{
  ℕ, ◌/◌, String, Bool, true, false, Option, some, none, List, [], ◌∷◌, if◌then◌else◌,
}
use cpip.Server.Auth.Tokens.{Server, Auth, require_auth}
use cpip.Server.Auth.RateLimiter.{
  Request, RateLimit, Windows, Answer, check_rate_limit, default_limit, build_limit, exec_limit,
}
use cpip.Builder.Queue.{BuildRequest}
use cpip.Server.Services.Builds as Builds
use cpip.Server.Services.Builds.{BuildResult, BuildService}
use cpip.Server.Services.Execution as Execution
use cpip.Server.Services.Execution.{ExecutionRequest, ExecutionResult, Results}
use cpip.Server.Services.Packages as Packages
use cpip.Server.Services.Packages.{Registry, CatalogEntry}
use cpip.Client.Resolver.{PackageInfo}

pub data Endpoint : Type 0 where
  create_build : BuildRequest → Endpoint
  get_build : String → Endpoint
  list_builds : ℕ → Endpoint
  cancel_build : String → Endpoint
  submit_execution : ExecutionRequest → Endpoint
  get_execution : String → Endpoint
  cancel_execution : String → Endpoint
  get_catalog : Endpoint
  search_packages : String → String → ℕ → Endpoint
  get_package : String → String → Endpoint
  get_wheel : String → Endpoint
  get_layers : String → Endpoint

-- `now` is in microseconds, `duration` that of an execution.
pub record Http : Type 0 where
  pub endpoint : Endpoint
  pub token : Option String
  pub client : Request
  pub now : ℕ
  pub duration : ℕ

pub data Response : Type 0 where
  unauthorized : String → Response
  too_many_requests : ℕ → Response
  not_found : String → Response
  build : BuildResult → Response
  builds : List BuildResult → Response
  executed : ExecutionResult → Response
  execution : ExecutionResult → Response
  cancelled : Response
  catalog : List CatalogEntry → Response
  package_info : PackageInfo → Response
  wheel : String → Response
  layers : List String → Response

pub record Env : Type 0 where
  pub server : Server
  pub registry : Registry
  pub call : Execution.Call
  pub search : String → String → ℕ → List CatalogEntry

pub record App : Type 0 where
  pub windows : Windows
  pub builds : BuildService
  pub results : Results

-- The handler past `Depends(require_auth)`.
abbrev pub authorized : Env → Http → App → Response × App → Response × App
authorized env http app handled = elim (require_auth env.server http.token (http.now / 1_000_000)) [
  | Auth.user _ ↦ handled
  | Auth.unauthorized detail ↦ (Response.unauthorized detail, app)
]

-- The handler past `check_rate_limit`.
abbrev pub after_check : Answer × Windows → App → (App → Response × App) → Response × App
after_check (Answer.pass, ws) app handled = handled (record app { windows = ws })
after_check (Answer.too_many_requests n, ws) app handled =
    (Response.too_many_requests n, record app { windows = ws })

abbrev pub limited : RateLimit → Http → App → (App → Response × App) → Response × App
limited limit http app handled =
    after_check (check_rate_limit (some http.client) limit http.now app.windows) app handled

abbrev pub submitted : BuildRequest → App → Response × App
submitted req app =
    let (r, service) = Builds.submit_build req app.builds in
    (Response.build r, record app { builds = service })

abbrev pub run_execution : Env → ℕ → ExecutionRequest → App → Response × App
run_execution env duration req app =
    let (r, results) = Execution.execute env.call duration req app.results in
    (Response.executed r, record app { results = results })

abbrev pub cancelled_build : Bool × BuildService → App → Response × App
cancelled_build (found, service) app = (
  if found then Response.cancelled else Response.not_found "Build not found or already completed",
  record app { builds = service },
)

abbrev pub found_build : Option BuildResult → Response
found_build (some r) = Response.build r
found_build none = Response.not_found "Build not found"

abbrev pub found_execution : Option ExecutionResult → Response
found_execution (some r) = Response.execution r
found_execution none = Response.not_found "Execution not found"

abbrev pub found_wheel : Option String → Response
found_wheel (some url) = Response.wheel url
found_wheel none = Response.not_found "No wheel available"

abbrev pub create_build_route : Env → BuildRequest → Http → App → Response × App
create_build_route env req http app =
    authorized env http app (limited build_limit http app (submitted req))

abbrev pub get_build_route : Env → String → Http → App → Response × App
get_build_route env id http app = (found_build (Builds.get_build app.builds id), app)

abbrev pub list_builds_route : Env → ℕ → Http → App → Response × App
list_builds_route env limit http app = (Response.builds (Builds.list_builds limit app.builds), app)

abbrev pub cancel_build_route : Env → String → Http → App → Response × App
cancel_build_route env id http app =
    authorized env http app (cancelled_build (Builds.cancel_build id app.builds) app)

abbrev pub submit_execution_route : Env → ExecutionRequest → Http → App → Response × App
submit_execution_route env req http app =
    authorized env http app (limited exec_limit http app (run_execution env http.duration req))

abbrev pub get_execution_route : Env → String → Http → App → Response × App
get_execution_route env id http app = (found_execution (Execution.get_result app.results id), app)

abbrev pub cancel_execution_route : Env → String → Http → App → Response × App
cancel_execution_route env id http app =
    authorized env http app
      (Response.cancelled, record app { results = Execution.cancel id app.results })

abbrev pub get_catalog_route : Env → Http → App → Response × App
get_catalog_route env http app =
    limited default_limit http app
      (λ next. (Response.catalog (Packages.get_catalog env.registry), next))

abbrev pub search_packages_route : Env → String → String → ℕ → Http → App → Response × App
search_packages_route env q arch limit http app =
    limited default_limit http app (λ next. (Response.catalog (env.search q arch limit), next))

abbrev pub get_package_route : Env → String → String → Http → App → Response × App
get_package_route env name arch http app =
    limited default_limit http app
      (λ next. (Response.package_info (Packages.get_package env.registry name arch), next))

abbrev pub get_wheel_route : Env → String → Http → App → Response × App
get_wheel_route env name http app =
    limited default_limit http app
      (λ next. (found_wheel (Packages.get_wheel_url env.registry name), next))

abbrev pub get_layers_route : Env → String → Http → App → Response × App
get_layers_route env name http app =
    limited default_limit http app
      (λ next. (Response.layers (Packages.get_layers env.registry name), next))

abbrev pub handle_endpoint : Env → Endpoint → Http → App → Response × App
handle_endpoint env (Endpoint.create_build req) http app = create_build_route env req http app
handle_endpoint env (Endpoint.get_build id) http app = get_build_route env id http app
handle_endpoint env (Endpoint.list_builds limit) http app = list_builds_route env limit http app
handle_endpoint env (Endpoint.cancel_build id) http app = cancel_build_route env id http app
handle_endpoint env (Endpoint.submit_execution req) http app =
    submit_execution_route env req http app
handle_endpoint env (Endpoint.get_execution id) http app = get_execution_route env id http app
handle_endpoint env (Endpoint.cancel_execution id) http app = cancel_execution_route env id http app
handle_endpoint env Endpoint.get_catalog http app = get_catalog_route env http app
handle_endpoint env (Endpoint.search_packages q arch limit) http app =
    search_packages_route env q arch limit http app
handle_endpoint env (Endpoint.get_package name arch) http app =
    get_package_route env name arch http app
handle_endpoint env (Endpoint.get_wheel name) http app = get_wheel_route env name http app
handle_endpoint env (Endpoint.get_layers name) http app = get_layers_route env name http app

unfoldable pub handle : Env → Http → App → Response × App
handle env http app = handle_endpoint env http.endpoint http app
