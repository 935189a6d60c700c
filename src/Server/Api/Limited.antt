-- ===== src/Server/Api/Limited.antt =====
-- server/api/: how many executions a client can have made, and what requests without a user change.
use mathlib.Core.List.{append-nil, append_assoc}
use mathlib.Core.Option.{some-injective}
use mathlib.Core.Path.{subst}
use cpip.Common.Dict
use cpip.Common.{
  ℕ, ◌+◌, ◌≤◌, ◌<◌, ◌≡◌, refl, sym, inl, inr, String, Bool, true, false, Option, some, none, List,
  [], ◌∷◌, ◌++◌, if◌then◌else◌, ◌==◌, eq_iff, arith, length-append, select, select-append,
}
use cpip.Server.Auth.Tokens.{Auth}
use cpip.Server.Auth.RateLimiter.{
  RateLimit, Windows, build_limit, exec_limit, is_recent, client_key,
}
use cpip.Server.Auth.RateLimiter.Bound.{select_later}
use cpip.Server.Auth.RateLimiter.Window.{
  Tracks, Log, check-Tracks, check_answer, log_request, log_check, count_recent, times_of,
  times_of-append,
}
use cpip.Server.Api.{Endpoint, Http, Response, Env, App, handle, handle_endpoint, authorized}
use cpip.Server.Api.Tracking.{
  auth_of, limit_of, executed_by, checked, Tracked, handle-Tracked, with_user,
}

abbrev pub changes : Endpoint → Bool
changes (Endpoint.create_build req) = true
changes (Endpoint.cancel_build id) = true
changes (Endpoint.submit_execution req) = true
changes (Endpoint.cancel_execution id) = true
changes _ = false

unfold_authorized :
    (env : Env) (http : Http) (app : App) (handled : Response × App) (detail : String)
    → auth_of env http ≡ Auth.unauthorized detail
    → authorized env http app handled ≡ (Response.unauthorized detail, app)
unfold_authorized env http app handled detail e = ground (arith, e)

-- The executions of a run of requests, by client and time.
abbrev pub executions : Env → List Http → App → Log
executions env [] app = []
executions env (http ∷ https) app =
    executed_by http (handle env http app).0 ++ executions env https (handle env http app).1

count-append :
    (w : ℕ) (key : String) (now : ℕ) (l m : Log)
    → count_recent w key now (l ++ m) ≡ count_recent w key now l + count_recent w key now m
count-append w key now l m = ground (
  arith,
  times_of-append key l m,
  select-append (is_recent w now) (times_of key l) (times_of key m),
  length-append (select (is_recent w now) (times_of key l))
      (select (is_recent w now) (times_of key m)),
)

-- The log of all requests that were let through, after a request that came to a limit.
abbrev log_after : Http → Option RateLimit → Log → Log
log_after http none log = log
log_after http (some limit) log = (log_request (some http.client) limit http.now log).1

-- From time `since` on: the windows have the recent times of the log, and so has the log those of the
-- executions, of which no more than the limit are recent.
pub record Few (since : ℕ) (ws : Windows) (log executed : Log) : Type 0 where
  pub tracks : Tracks 60 since ws log
  pub few : (key : String) (t : ℕ) → since ≤ t → count_recent 60 key t executed ≤ 50
  pub less :
      (key : String) (t : ℕ)
      → since ≤ t
      → count_recent 60 key t executed ≤ count_recent 60 key t log

abbrev entry_of : Http → Log
entry_of http = (client_key (some http.client), http.now) ∷ []

-- A log of one entry counts for its client only.
count-entry :
    (http : Http) (key : String) (t : ℕ)
    → count_recent 60 key t (entry_of http)
      ≤ (if client_key (some http.client) == key then 1 else 0)
count-entry http key t = ground arith

-- As time goes on, fewer executions are recent.
count_later :
    (key : String) (now t : ℕ) (log : Log)
    → now ≤ t
    → count_recent 60 key t log ≤ count_recent 60 key now log
count_later key now t log h = select_later 60 now t (times_of key log) h

-- The log only grows.
count-log_after :
    (http : Http) (limit : RateLimit) (log : Log) (key : String) (t : ℕ)
    → count_recent 60 key t log ≤ count_recent 60 key t (log_after http (some limit) log)
unfolding log_check
count-log_after http limit log key t = ground (arith, count-append 60 key t log (entry_of http))

module _ (http : Http) (since : ℕ) (ws : Windows) (log executed : Log)
    (few : Few since ws log executed) (later : since ≤ http.now) where
  idle-Few : Few http.now ws log executed
  idle-Few = record {
    tracks = record { at = λ key t h. few.tracks.at key t (omega (arith, later, h)) };
    few = λ key t h. few.few key t (omega (arith, later, h));
    less = λ key t h. few.less key t (omega (arith, later, h));
  }

  checked-Tracks :
      (limit : RateLimit)
      → limit.window_seconds ≡ 60
      → Tracks 60 http.now (checked http limit ws).1 (log_after http (some limit) log)
  checked-Tracks limit same =
      subst
        (λ (v : ℕ). Tracks v http.now (checked http limit ws).1 (log_after http (some limit) log))
        same
        (check-Tracks since limit http.now ws log later
          (subst (λ (v : ℕ). Tracks v since ws log) (sym same) few.tracks) (some http.client))

  checked-Few :
      (limit : RateLimit)
      → limit.window_seconds ≡ 60
      → Few http.now (checked http limit ws).1 (log_after http (some limit) log) executed
  checked-Few limit same = record {
    tracks = checked-Tracks limit same;
    few = λ key t h. few.few key t (omega (arith, later, h));
    less = λ key t h.
        omega
          (arith, few.less key t (omega (arith, later, h)), count-log_after http limit log key t);
  }

  -- An execution that is let through: fewer than the limit were recent.
  room :
      (checked http exec_limit ws).0 ≡ true
      → (count_recent 60 (client_key (some http.client)) http.now log < 50)
        × (log_after http (some exec_limit) log ≡ log ++ entry_of http)
  unfolding log_check
  room c =
      let same =
        check_answer since exec_limit http.now ws log later few.tracks (some http.client) in
      ground (arith, c, same)

  executed-Few :
      (checked http exec_limit ws).0 ≡ true
      → Few http.now
          (checked http exec_limit ws).1
          (log_after http (some exec_limit) log)
          (executed ++ entry_of http)
  executed-Few c =
      let (under, grown) = room c in
      record {
        tracks = checked-Tracks exec_limit refl;
        few = λ key t h. ground (
          arith,
          under,
          count-append 60 key t executed (entry_of http),
          count-entry http key t,
          few.few key t (omega (arith, later, h)),
          count_later key http.now t executed h,
          few.less key http.now later,
          eq_iff (client_key (some http.client)) key,
        );
        less = λ key t h. ground (
          arith,
          grown,
          count-append 60 key t executed (entry_of http),
          count-append 60 key t log (entry_of http),
          few.less key t (omega (arith, later, h)),
        );
      }

-- The limits of the program have one window.
abbrev IsLimit : Option RateLimit → Type 0
IsLimit none = Unit
IsLimit (some limit) = limit.window_seconds ≡ 60

with_user-IsLimit :
    (auth : Auth) (limit : RateLimit) → IsLimit (some limit) → IsLimit (with_user auth limit)
with_user-IsLimit (Auth.user u) limit h = h
with_user-IsLimit (Auth.unauthorized d) limit h = tt

limit_of-IsLimit : (auth : Auth) (e : Endpoint) → IsLimit (limit_of auth e)
limit_of-IsLimit auth (Endpoint.create_build req) = with_user-IsLimit auth build_limit refl
limit_of-IsLimit auth (Endpoint.get_build id) = tt
limit_of-IsLimit auth (Endpoint.list_builds limit) = tt
limit_of-IsLimit auth (Endpoint.cancel_build id) = tt
limit_of-IsLimit auth (Endpoint.submit_execution req) = with_user-IsLimit auth exec_limit refl
limit_of-IsLimit auth (Endpoint.get_execution id) = tt
limit_of-IsLimit auth (Endpoint.cancel_execution id) = tt
limit_of-IsLimit auth Endpoint.get_catalog = refl
limit_of-IsLimit auth (Endpoint.search_packages q arch limit) = refl
limit_of-IsLimit auth (Endpoint.get_package name arch) = refl
limit_of-IsLimit auth (Endpoint.get_wheel name) = refl
limit_of-IsLimit auth (Endpoint.get_layers name) = refl

-- The clock does not run backwards, up to the time `now`.
abbrev pub Ordered : ℕ → ℕ → List Http → Type 0
Ordered since now [] = since ≤ now
Ordered since now (http ∷ https) = (since ≤ http.now) × Ordered http.now now https

step-Few :
    (http : Http) (since : ℕ) (app : App) (o : Option RateLimit) (out : Response × App)
    (log executed : Log)
    → IsLimit o
    → Tracked http app o out
    → since ≤ http.now
    → Few since app.windows log executed
    → Few http.now out.1.windows (log_after http o log) (executed ++ executed_by http out.0)
step-Few http since app none out log executed l tracked later few = elim tracked.executed [
  | inl e ↦
      subst (λ (ws : Windows). Few http.now ws log (executed ++ executed_by http out.0))
        (sym tracked.windows)
        (subst (λ (x : Log). Few http.now app.windows log (executed ++ x)) (sym e)
          (subst (Few http.now app.windows log) (sym (append-nil executed))
            (idle-Few http since app.windows log executed few later)))
  | inr (_, e, _) ↦ absurd (cc e)
]
step-Few http since app (some limit) out log executed l tracked later few =
    subst
      (λ (ws : Windows).
        Few http.now ws (log_after http (some limit) log) (executed ++ executed_by http out.0))
      (sym tracked.windows)
      (elim tracked.executed [
        | inl e ↦
            subst
              (λ (x : Log).
                Few http.now (checked http limit app.windows).1 (log_after http (some limit) log)
                  (executed ++ x))
              (sym e)
              (subst
                (Few http.now (checked http limit app.windows).1 (log_after http (some limit) log))
                (sym (append-nil executed))
                (checked-Few http since app.windows log executed few later limit l))
        | inr (e, s, c) ↦
            subst
              (λ (x : Log).
                Few http.now (checked http limit app.windows).1 (log_after http (some limit) log)
                  (executed ++ x))
              (sym e)
              (subst
                (λ (v : RateLimit).
                  Few http.now (checked http v app.windows).1 (log_after http (some v) log)
                    (executed ++ entry_of http))
                (sym (some-injective limit exec_limit s))
                (executed-Few http since app.windows log executed few later c))
      ])

executions-Few :
    (env : Env) (https : List Http) (app : App) (since now : ℕ) (log executed : Log)
    → Few since app.windows log executed
    → Ordered since now https
    → (key : String) → count_recent 60 key now (executed ++ executions env https app) ≤ 50
executions-Few env [] app since now log executed few order key =
    rw append-nil (few.few key now order)
executions-Few env (http ∷ https) app since now log executed few order key =
    let o = limit_of (auth_of env http) http.endpoint in
    let out = handle env http app in
    rw (← append_assoc executed (executed_by http out.0) (executions env https out.1)) (
      executions-Few env https out.1 http.now now (log_after http o log)
        (executed ++ executed_by http out.0)
        (step-Few http since app o out log executed
          (limit_of-IsLimit (auth_of env http) http.endpoint) (handle-Tracked env http app) order.0
          few)
        order.1 key)

nothing-Few : Few 0 [] [] []
unfolding Dict.get
nothing-Few = record {
  tracks = record { at = λ key t h. refl };
  few = λ key t h. omega arith;
  less = λ key t h. omega arith;
}

-- Whatever requests come, in order of time, to a server without earlier ones: at no time have more than
-- 50 executions been run for one client within the minute before it.
pub executions_le :
    (env : Env) (https : List Http) (app : App) (key : String) (now : ℕ)
    → app.windows ≡ []
    → Ordered 0 now https
    → count_recent 60 key now (executions env https app) ≤ 50
executions_le env https app key now fresh order =
    executions-Few env https app 0 now [] []
      (subst (λ (ws : Windows). Few 0 ws [] []) (sym fresh) nothing-Few) order key

-- A request without a user changes nothing: no build, no execution, no window of the limiter, if it
-- is one of those that make changes.
pub handle_refused :
    (env : Env) (http : Http) (app : App) (detail : String)
    → auth_of env http ≡ Auth.unauthorized detail
    → changes http.endpoint ≡ true
    → handle env http app ≡ (Response.unauthorized detail, app)
unfolding handle
handle_refused env http app detail refused c = go http.endpoint c
  where
    go :
        (e : Endpoint)
        → changes e ≡ true
        → handle_endpoint env e http app ≡ (Response.unauthorized detail, app)
    go (Endpoint.create_build req) c = unfold_authorized env http app _ detail refused
    go (Endpoint.cancel_build id) c = unfold_authorized env http app _ detail refused
    go (Endpoint.submit_execution req) c = unfold_authorized env http app _ detail refused
    go (Endpoint.cancel_execution id) c = unfold_authorized env http app _ detail refused
    go (Endpoint.get_build id) c = absurd (cc c)
    go (Endpoint.list_builds limit) c = absurd (cc c)
    go (Endpoint.get_execution id) c = absurd (cc c)
    go Endpoint.get_catalog c = absurd (cc c)
    go (Endpoint.search_packages q arch limit) c = absurd (cc c)
    go (Endpoint.get_package name arch) c = absurd (cc c)
    go (Endpoint.get_wheel name) c = absurd (cc c)
    go (Endpoint.get_layers name) c = absurd (cc c)
