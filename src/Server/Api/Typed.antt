-- ===== src/Server/Api/Typed.antt =====
-- server/api/: what each endpoint answers, with a user and without, above its limit and below.
use cpip.Common.{ℕ, ◌≡◌, String, refl, Bool, true, false, not, ◌||◌, Option, some, none}
use cpip.Server.Auth.Tokens.{Auth}
use cpip.Server.Auth.RateLimiter.{
  RateLimit, Windows, Answer, check_rate_limit, build_limit, exec_limit, default_limit,
}
use cpip.Server.Services.Builds as Builds
use cpip.Server.Services.Builds.{BuildResult, BuildService}
use cpip.Server.Services.Execution as Execution
use cpip.Server.Services.Execution.{ExecutionResult}
use cpip.Server.Services.Packages as Packages
use cpip.Server.Api.{
  Endpoint, Http, Response, Env, App, handle, handle_endpoint, authorized, after_check, limited,
  submitted, run_execution, cancelled_build, found_build, found_execution, found_wheel,
}
use cpip.Server.Api.Tracking.{auth_of}

-- The endpoints that want a user, and the limit of each.
abbrev pub wants_user : Endpoint → Bool
wants_user (Endpoint.create_build req) = true
wants_user (Endpoint.cancel_build id) = true
wants_user (Endpoint.submit_execution req) = true
wants_user (Endpoint.cancel_execution id) = true
wants_user _ = false

abbrev pub limit_at : Endpoint → Option RateLimit
limit_at (Endpoint.create_build req) = some build_limit
limit_at (Endpoint.submit_execution req) = some exec_limit
limit_at (Endpoint.get_build id) = none
limit_at (Endpoint.list_builds limit) = none
limit_at (Endpoint.cancel_build id) = none
limit_at (Endpoint.get_execution id) = none
limit_at (Endpoint.cancel_execution id) = none
limit_at _ = some default_limit

-- Whether what a request asks for is missing.
abbrev is_none_build : Option BuildResult → Bool
is_none_build none = true
is_none_build (some r) = false

abbrev is_none_execution : Option ExecutionResult → Bool
is_none_execution none = true
is_none_execution (some r) = false

abbrev is_none_text : Option String → Bool
is_none_text none = true
is_none_text (some t) = false

abbrev pub is_missing : Env → App → Endpoint → Bool
is_missing env app (Endpoint.get_build id) = is_none_build (Builds.get_build app.builds id)
is_missing env app (Endpoint.cancel_build id) = not (Builds.cancel_build id app.builds).0
is_missing env app (Endpoint.get_execution id) =
    is_none_execution (Execution.get_result app.results id)
is_missing env app (Endpoint.get_wheel name) =
    is_none_text (Packages.get_wheel_url env.registry name)
is_missing env app _ = false

-- The type of an endpoint's value: what it answers with a status of success.
abbrev pub is_value : Endpoint → Response → Bool
is_value (Endpoint.create_build req) (Response.build r) = true
is_value (Endpoint.get_build id) (Response.build r) = true
is_value (Endpoint.list_builds limit) (Response.builds rs) = true
is_value (Endpoint.cancel_build id) Response.cancelled = true
is_value (Endpoint.submit_execution req) (Response.executed r) = true
is_value (Endpoint.get_execution id) (Response.execution r) = true
is_value (Endpoint.cancel_execution id) Response.cancelled = true
is_value Endpoint.get_catalog (Response.catalog es) = true
is_value (Endpoint.search_packages q arch limit) (Response.catalog es) = true
is_value (Endpoint.get_package name arch) (Response.package_info i) = true
is_value (Endpoint.get_wheel name) (Response.wheel url) = true
is_value (Endpoint.get_layers name) (Response.layers ls) = true
is_value _ _ = false

-- How long a client must wait that the limiter refuses; none where it lets the request pass.
abbrev wait_of : Answer → Option ℕ
wait_of Answer.pass = none
wait_of (Answer.too_many_requests n) = some n

abbrev pub refused : Option RateLimit → Http → Windows → Option ℕ
refused none http ws = none
refused (some limit) http ws = wait_of (check_rate_limit (some http.client) limit http.now ws).0

abbrev is_user : Auth → Bool
is_user (Auth.user u) = true
is_user (Auth.unauthorized detail) = false

abbrev pub admitted : Env → Endpoint → Http → Bool
admitted env e http = not (wants_user e) || is_user (auth_of env http)

-- The answer to a request; no two of these four hold at once.
pub data Answered (env : Env) (e : Endpoint) (http : Http) (app : App) : Response → Type 0 where
  unauthorized :
      (detail : String)
      → wants_user e ≡ true
      → auth_of env http ≡ Auth.unauthorized detail
      → Answered env e http app (Response.unauthorized detail)
  too_many_requests :
      (n : ℕ)
      → admitted env e http ≡ true
      → refused (limit_at e) http app.windows ≡ some n
      → Answered env e http app (Response.too_many_requests n)
  not_found :
      (detail : String)
      → admitted env e http ≡ true
      → refused (limit_at e) http app.windows ≡ none
      → is_missing env app e ≡ true
      → Answered env e http app (Response.not_found detail)
  value :
      (r : Response)
      → admitted env e http ≡ true
      → refused (limit_at e) http app.windows ≡ none
      → is_missing env app e ≡ false
      → is_value e r ≡ true
      → Answered env e http app r

module _ (env : Env) (e : Endpoint) (http : Http) (app : App) where
  authorized-Answered :
      (handled : Response × App)
      → wants_user e ≡ true
      → (admitted env e http ≡ true → Answered env e http app handled.0)
      → Answered env e http app (authorized env http app handled).0
  authorized-Answered handled u d = go (auth_of env http) refl
    where
      go :
          (auth : Auth)
          → auth_of env http ≡ auth
          → Answered env e http app
              (elim auth as (λ _. Response × App) [
                | Auth.user _ ↦ handled
                | Auth.unauthorized detail ↦ (Response.unauthorized detail, app)
              ]).0
      go (Auth.user x) a = d (rw (u, a) refl)
      go (Auth.unauthorized detail) a = Answered.unauthorized detail u a

  limited-Answered :
      (limit : RateLimit) (handled : App → Response × App)
      → limit_at e ≡ some limit
      → admitted env e http ≡ true
      → ((next : App)
          → refused (limit_at e) http app.windows ≡ none
          → Answered env e http app (handled next).0)
      → Answered env e http app (limited limit http app handled).0
  limited-Answered limit handled l u d =
      go (check_rate_limit (some http.client) limit http.now app.windows) refl
    where
      go :
          (a : Answer × Windows)
          → check_rate_limit (some http.client) limit http.now app.windows ≡ a
          → Answered env e http app (after_check a app handled).0
      go (Answer.pass, ws) c = d (record app { windows = ws }) (rw (l, c) refl)
      go (Answer.too_many_requests n, ws) c = Answered.too_many_requests n u (rw (l, c) refl)

  -- A handler that finds whatever it is asked for.
  limited_value :
      (limit : RateLimit) (handled : App → Response × App)
      → limit_at e ≡ some limit
      → admitted env e http ≡ true
      → is_missing env app e ≡ false
      → ((next : App) → is_value e (handled next).0 ≡ true)
      → Answered env e http app (limited limit http app handled).0
  limited_value limit handled l u m d =
      limited-Answered limit handled l u (λ next r. Answered.value (handled next).0 u r m (d next))

found_build-Answered :
    (env : Env) (id : String) (http : Http) (app : App) (o : Option BuildResult)
    → Builds.get_build app.builds id ≡ o
    → Answered env (Endpoint.get_build id) http app (found_build o)
found_build-Answered env id http app none o =
    Answered.not_found "Build not found" refl refl (rw o refl)
found_build-Answered env id http app (some r) o =
    Answered.value (Response.build r) refl refl (rw o refl) refl

found_execution-Answered :
    (env : Env) (id : String) (http : Http) (app : App) (o : Option ExecutionResult)
    → Execution.get_result app.results id ≡ o
    → Answered env (Endpoint.get_execution id) http app (found_execution o)
found_execution-Answered env id http app none o =
    Answered.not_found "Execution not found" refl refl (rw o refl)
found_execution-Answered env id http app (some r) o =
    Answered.value (Response.execution r) refl refl (rw o refl) refl

found_wheel-Answered :
    (env : Env) (name : String) (http : Http) (app : App) (o : Option String)
    → Packages.get_wheel_url env.registry name ≡ o
    → refused (some default_limit) http app.windows ≡ none
    → Answered env (Endpoint.get_wheel name) http app (found_wheel o)
found_wheel-Answered env name http app none o r =
    Answered.not_found "No wheel available" refl r (rw o refl)
found_wheel-Answered env name http app (some url) o r =
    Answered.value (Response.wheel url) refl r (rw o refl) refl

cancelled_build-Answered :
    (env : Env) (id : String) (http : Http) (app : App) (found : Bool) (service : BuildService)
    → (Builds.cancel_build id app.builds).0 ≡ found
    → admitted env (Endpoint.cancel_build id) http ≡ true
    → Answered env (Endpoint.cancel_build id) http app (cancelled_build (found, service) app).0
cancelled_build-Answered env id http app true service c u =
    Answered.value Response.cancelled u refl (rw c refl) refl
cancelled_build-Answered env id http app false service c u =
    Answered.not_found "Build not found or already completed" u refl (rw c refl)

handle_endpoint-Answered :
    (env : Env) (e : Endpoint) (http : Http) (app : App)
    → Answered env e http app (handle_endpoint env e http app).0
handle_endpoint-Answered env (Endpoint.create_build req) http app =
    authorized-Answered env (Endpoint.create_build req) http app _ refl (λ u.
      limited_value env (Endpoint.create_build req) http app build_limit (submitted req) refl u refl
        (λ next. refl))
handle_endpoint-Answered env (Endpoint.get_build id) http app =
    found_build-Answered env id http app (Builds.get_build app.builds id) refl
handle_endpoint-Answered env (Endpoint.list_builds limit) http app =
    Answered.value _ refl refl refl refl
handle_endpoint-Answered env (Endpoint.cancel_build id) http app =
    let (found, service) = Builds.cancel_build id app.builds in
    authorized-Answered env (Endpoint.cancel_build id) http app
      (cancelled_build (found, service) app) refl
      (λ u. cancelled_build-Answered env id http app found service refl u)
handle_endpoint-Answered env (Endpoint.submit_execution req) http app =
    authorized-Answered env (Endpoint.submit_execution req) http app _ refl (λ u.
      limited_value env (Endpoint.submit_execution req) http app exec_limit
        (run_execution env http.duration req) refl u refl (λ next. refl))
handle_endpoint-Answered env (Endpoint.get_execution id) http app =
    found_execution-Answered env id http app (Execution.get_result app.results id) refl
handle_endpoint-Answered env (Endpoint.cancel_execution id) http app =
    authorized-Answered env (Endpoint.cancel_execution id) http app
      (Response.cancelled, record app { results = Execution.cancel id app.results }) refl
      (λ u. Answered.value Response.cancelled u refl refl refl)
handle_endpoint-Answered env Endpoint.get_catalog http app =
    limited_value env Endpoint.get_catalog http app default_limit _ refl refl refl (λ next. refl)
handle_endpoint-Answered env (Endpoint.search_packages q arch limit) http app =
    limited_value env (Endpoint.search_packages q arch limit) http app default_limit _ refl refl
      refl (λ next. refl)
handle_endpoint-Answered env (Endpoint.get_package name arch) http app =
    limited_value env (Endpoint.get_package name arch) http app default_limit _ refl refl refl
      (λ next. refl)
handle_endpoint-Answered env (Endpoint.get_wheel name) http app =
    limited-Answered env (Endpoint.get_wheel name) http app default_limit _ refl refl (λ next r.
      found_wheel-Answered env name http app (Packages.get_wheel_url env.registry name) refl r)
handle_endpoint-Answered env (Endpoint.get_layers name) http app =
    limited_value env (Endpoint.get_layers name) http app default_limit _ refl refl refl
      (λ next. refl)

-- A request that reaches a handler is answered 401 exactly if its endpoint wants a user and the token
-- gives none; of the others, 429 exactly if the endpoint has a limit and the limiter refuses the client
-- under it, with the time to wait; then 404 exactly if the build, the result or the wheel that it asks
-- for is missing, or the build that it cancels has ended; and else by a value of the type that the
-- endpoint declares.
pub handle-Answered :
    (env : Env) (http : Http) (app : App)
    → Answered env http.endpoint http app (handle env http app).0
unfolding handle
handle-Answered env http app = handle_endpoint-Answered env http.endpoint http app
