-- ===== src/Server/Api/Tracking.antt =====
-- server/api/: which limit a request comes to, and what it does to the windows of the limiter.
use cpip.Common.{
  String, sym, ap, ◌∙◌, ◌/◌, ◌≡◌, refl, ◌⊎◌, inl, inr, Bool-cases, Bool, true, false, Option, some,
  none, [], ◌∷◌, arith,
}
use cpip.Server.Auth.Tokens.{Auth, require_auth}
use cpip.Server.Auth.RateLimiter.{
  RateLimit, Windows, check, check_rate_limit, default_limit, build_limit, exec_limit, client_key,
}
use cpip.Server.Auth.RateLimiter.Window.{Log}
use cpip.Server.Services.Builds as Builds
use cpip.Server.Services.Builds.{BuildResult, BuildService}
use cpip.Server.Services.Execution.{ExecutionResult}
use cpip.Server.Api.{
  found_build, found_wheel, found_execution, cancelled_build, Endpoint, Http, Response, Env, App,
  handle, handle_endpoint, authorized, limited,
}

abbrev pub auth_of : Env → Http → Auth
auth_of env http = require_auth env.server http.token (http.now / 1_000_000)

-- The limit that a request comes to: none where there is no check or no user.
abbrev pub with_user : Auth → RateLimit → Option RateLimit
with_user (Auth.user _) limit = some limit
with_user (Auth.unauthorized _) limit = none

abbrev pub limit_of : Auth → Endpoint → Option RateLimit
limit_of auth (Endpoint.create_build req) = with_user auth build_limit
limit_of auth (Endpoint.get_build id) = none
limit_of auth (Endpoint.list_builds limit) = none
limit_of auth (Endpoint.cancel_build id) = none
limit_of auth (Endpoint.submit_execution req) = with_user auth exec_limit
limit_of auth (Endpoint.get_execution id) = none
limit_of auth (Endpoint.cancel_execution id) = none
limit_of auth _ = some default_limit

-- What a request puts into a log of the executions: its client and time, if it was executed.
abbrev pub executed_by : Http → Response → Log
executed_by http (Response.executed r) = (client_key (some http.client), http.now) ∷ []
executed_by http _ = []

abbrev pub checked : Http → RateLimit → Windows → Bool × Windows
checked http limit ws = check (some http.client) limit http.now ws

-- A request goes to the limiter as its limit says, and is executed only if it is let through under the
-- limit of executions.
pub record Tracked (http : Http) (app : App) (o : Option RateLimit) (out : Response × App)
    : Type 0 where
  pub windows :
      out.1.windows
      ≡ (elim o [ none ↦ app.windows | some limit ↦ (checked http limit app.windows).1 ])
  pub executed :
      (executed_by http out.0 ≡ [])
      ⊎ ((executed_by http out.0 ≡ (client_key (some http.client), http.now) ∷ [])
          × (o ≡ some exec_limit)
          × ((checked http exec_limit app.windows).0 ≡ true))

-- A handler that leaves the windows alone.
abbrev Keeps : (App → Response × App) → Type 0
Keeps f = (app : App) → (f app).1.windows ≡ app.windows

abbrev ExecutedOrNot : Http → Response → Type 0
ExecutedOrNot http r =
    (executed_by http r ≡ [])
    ⊎ (executed_by http r ≡ (client_key (some http.client), http.now) ∷ [])

executed_cases : (http : Http) (r : Response) → ExecutedOrNot http r
executed_cases http (Response.executed r) = inr refl
executed_cases http (Response.unauthorized d) = inl refl
executed_cases http (Response.too_many_requests n) = inl refl
executed_cases http (Response.not_found d) = inl refl
executed_cases http (Response.build r) = inl refl
executed_cases http (Response.builds r) = inl refl
executed_cases http (Response.execution r) = inl refl
executed_cases http Response.cancelled = inl refl
executed_cases http (Response.catalog r) = inl refl
executed_cases http (Response.package_info r) = inl refl
executed_cases http (Response.wheel r) = inl refl
executed_cases http (Response.layers r) = inl refl

-- A handler executes nothing, or stands behind the limit of executions.
abbrev Allowed : Http → RateLimit → (App → Response × App) → Type 0
Allowed http limit f = (limit ≡ exec_limit) ⊎ ((app : App) → executed_by http (f app).0 ≡ [])

limited-Tracked :
    (http : Http) (limit : RateLimit) (app : App) (f : App → Response × App)
    → Keeps f
    → Allowed http limit f
    → Tracked http app (some limit) (limited limit http app f)
unfolding check_rate_limit
limited-Tracked http limit app f keeps allowed =
    let after = record app { windows = (checked http limit app.windows).1 } in
    elim (Bool-cases (checked http limit app.windows).0) [
      | inl e ↦ record {
        windows = ground (arith, e, keeps after);
        executed = elim allowed [
          | inr h ↦ inl (ground (arith, e, h after))
          | inl same ↦ elim (executed_cases http (f after).0) [
            | inl h ↦ inl (ground (arith, e, h))
            | inr h ↦ inr (
              ground (arith, e, h),
              ap some same,
              ap (λ (l : RateLimit). (checked http l app.windows).0) (sym same) ∙ e,
            )
          ]
        ];
      }
      | inr e ↦ record { windows = ground (arith, e); executed = inl (ground (arith, e)) }
    ]

free-Tracked :
    (http : Http) (app : App) (out : Response × App)
    → out.1.windows ≡ app.windows
    → executed_by http out.0 ≡ []
    → Tracked http app none out
free-Tracked http app out w e = record { windows = w; executed = inl e }

authorized-Tracked :
    (env : Env) (http : Http) (limit : RateLimit) (app : App) (f : App → Response × App)
    → Keeps f
    → Allowed http limit f
    → Tracked http app
        (with_user (auth_of env http) limit)
        (authorized env http app (limited limit http app f))
authorized-Tracked env http limit app f keeps allowed = go (auth_of env http)
  where
    go :
        (auth : Auth)
        → Tracked http app (with_user auth limit) (elim auth [
          | Auth.user _ ↦ limited limit http app f
          | Auth.unauthorized detail ↦ (Response.unauthorized detail, app)
        ])
    go (Auth.user u) = limited-Tracked http limit app f keeps allowed
    go (Auth.unauthorized detail) =
        free-Tracked http app (Response.unauthorized detail, app) refl refl

authorized_free-Tracked :
    (env : Env) (http : Http) (app : App) (handled : Response × App)
    → handled.1.windows ≡ app.windows
    → executed_by http handled.0 ≡ []
    → Tracked http app none (authorized env http app handled)
authorized_free-Tracked env http app handled w e = go (auth_of env http)
  where
    go :
        (auth : Auth)
        → Tracked http app none (elim auth [
          | Auth.user _ ↦ handled
          | Auth.unauthorized detail ↦ (Response.unauthorized detail, app)
        ])
    go (Auth.user u) = free-Tracked http app handled w e
    go (Auth.unauthorized detail) =
        free-Tracked http app (Response.unauthorized detail, app) refl refl

found_build_none : (http : Http) (o : Option BuildResult) → executed_by http (found_build o) ≡ []
found_build_none http none = refl
found_build_none http (some r) = refl

found_execution_none :
    (http : Http) (o : Option ExecutionResult) → executed_by http (found_execution o) ≡ []
found_execution_none http none = refl
found_execution_none http (some r) = refl

found_wheel_none : (http : Http) (o : Option String) → executed_by http (found_wheel o) ≡ []
found_wheel_none http none = refl
found_wheel_none http (some url) = refl

cancelled_build_none :
    (http : Http) (r : Bool × BuildService) (app : App)
    → executed_by http (cancelled_build r app).0 ≡ []
cancelled_build_none http (true, s) app = refl
cancelled_build_none http (false, s) app = refl

endpoint-Tracked :
    (env : Env) (e : Endpoint) (http : Http) (app : App)
    → Tracked http app (limit_of (auth_of env http) e) (handle_endpoint env e http app)
endpoint-Tracked env (Endpoint.create_build req) http app =
    authorized-Tracked env http build_limit app _ (λ a. refl) (inr (λ a. refl))
endpoint-Tracked env (Endpoint.get_build id) http app =
    free-Tracked http app _ refl (found_build_none http _)
endpoint-Tracked env (Endpoint.list_builds limit) http app = free-Tracked http app _ refl refl
endpoint-Tracked env (Endpoint.cancel_build id) http app =
    authorized_free-Tracked env http app _ refl
      (cancelled_build_none http (Builds.cancel_build id app.builds) app)
endpoint-Tracked env (Endpoint.submit_execution req) http app =
    authorized-Tracked env http exec_limit app _ (λ a. refl) (inl refl)
endpoint-Tracked env (Endpoint.get_execution id) http app =
    free-Tracked http app _ refl (found_execution_none http _)
endpoint-Tracked env (Endpoint.cancel_execution id) http app =
    authorized_free-Tracked env http app _ refl refl
endpoint-Tracked env Endpoint.get_catalog http app =
    limited-Tracked http default_limit app _ (λ a. refl) (inr (λ a. refl))
endpoint-Tracked env (Endpoint.search_packages q arch limit) http app =
    limited-Tracked http default_limit app _ (λ a. refl) (inr (λ a. refl))
endpoint-Tracked env (Endpoint.get_package name arch) http app =
    limited-Tracked http default_limit app _ (λ a. refl) (inr (λ a. refl))
endpoint-Tracked env (Endpoint.get_wheel name) http app =
    limited-Tracked http default_limit app _ (λ a. refl) (inr (λ a. found_wheel_none http _))
endpoint-Tracked env (Endpoint.get_layers name) http app =
    limited-Tracked http default_limit app _ (λ a. refl) (inr (λ a. refl))

pub handle-Tracked :
    (env : Env) (http : Http) (app : App)
    → Tracked http app (limit_of (auth_of env http) http.endpoint) (handle env http app)
unfolding handle
handle-Tracked env http app = endpoint-Tracked env http.endpoint http app
