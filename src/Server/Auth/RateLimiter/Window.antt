-- ===== src/Server/Auth/RateLimiter/Window.antt =====
-- server/auth/rate_limiter.py: the limiter against a log of all accepted requests.
use mathlib.Core.List.{append-nil}
use mathlib.Core.Path.{subst}
use cpip.Common.{
  ℕ, ◌≤◌, String, ◌≡◌, refl, Bool, true, false, Option, none, some, List, [], ◌∷◌, ◌++◌, arith, ltb,
  length, select, select-append, ◌==◌, eq_iff, if◌then◌else◌, ap₂, sym,
}
use cpip.Common.Dict
use cpip.Common.Dict.{get-put}
use cpip.Server.Auth.RateLimiter.{
  Request, RateLimit, Windows, client_key, is_recent, window, cleaned, check_key, check,
}
use cpip.Server.Auth.RateLimiter.Pruning.{window-cleaned_self, select-cleaned}

-- Who was let through, and when, oldest first. Nothing is ever dropped from it.
abbrev pub Log : Type 0
Log = List (String × ℕ)

abbrev pub times_of : String → Log → List ℕ
times_of key [] = []
times_of key ((k, t) ∷ log) = if k == key then t ∷ times_of key log else times_of key log

-- How many requests of a client were let through within the window before `now`.
abbrev pub count_recent : ℕ → String → ℕ → Log → ℕ
count_recent w key now log = length (select (is_recent w now) (times_of key log))

-- The specification of `check`: a request is let through if fewer than the limit were let through
-- within the window.
unfoldable pub log_check : RateLimit → ℕ → String → Log → Bool × Log
log_check limit now key log =
    if ltb (count_recent limit.window_seconds key now log) limit.requests
    then (true, log ++ (key, now) ∷ [])
    else (false, log)

pub times_of-append :
    (key : String) (log more : Log)
    → times_of key (log ++ more) ≡ times_of key log ++ times_of key more
times_of-append key [] more = refl
times_of-append key ((k, t) ∷ log) more = ground (arith, times_of-append key log more)

-- From time `since` on, the windows and the log have the same recent times.
pub record Tracks (w since : ℕ) (ws : Windows) (log : Log) : Type 0 where
  pub at :
      (key : String) (now : ℕ)
      → since ≤ now
      → select (is_recent w now) (window ws key) ≡ select (is_recent w now) (times_of key log)

-- One call of `check`.
pub record Call : Type 0 where
  pub request : Option Request
  pub limit : RateLimit
  pub now : ℕ

unfoldable pub answers : List Call → Windows → List Bool
answers [] ws = []
answers (c ∷ calls) ws = let (b, ws') = check c.request c.limit c.now ws in b ∷ answers calls ws'

-- A call with no request is let through and not logged.
abbrev pub log_request : Option Request → RateLimit → ℕ → Log → Bool × Log
log_request none limit now log = (true, log)
log_request (some r) limit now log = log_check limit now (client_key (some r)) log

unfoldable pub log_answers : List Call → Log → List Bool
log_answers [] log = []
log_answers (c ∷ calls) log =
    let (b, log') = log_request c.request c.limit c.now log in b ∷ log_answers calls log'

-- The clock does not run backwards, and every limit has the same window, as the three of the
-- program have.
abbrev pub InOrder : ℕ → ℕ → List Call → Type 0
InOrder w since [] = Unit
InOrder w since (c ∷ calls) = (since ≤ c.now) × (c.limit.window_seconds ≡ w) × InOrder w c.now calls

module _ (since : ℕ) (limit : RateLimit) (now : ℕ) (key : String) (ws : Windows) (log : Log)
    (later : since ≤ now) (tracks : Tracks limit.window_seconds since ws log) where
  check_key_answer : (check_key limit now key ws).0 ≡ (log_check limit now key log).0
  unfolding check_key log_check
  check_key_answer =
      ground (arith, window-cleaned_self limit.window_seconds now key ws, tracks.at key now later)

  check_key-window :
      (k : String) (t : ℕ)
      → now ≤ t
      → select (is_recent limit.window_seconds t) (window (check_key limit now key ws).1 k)
        ≡ select (is_recent limit.window_seconds t) (times_of k (log_check limit now key log).1)
  unfolding check_key log_check
  check_key-window k t h =
      let w = limit.window_seconds in
      let ws' = cleaned w now key ws in
      let kept = window ws' key in
      ground (
        arith,
        window-cleaned_self w now key ws,
        tracks.at key now later,
        get-put ws' key k kept,
        get-put ws' key k (kept ++ now ∷ []),
        eq_iff key k,
        select-cleaned w now key ws k t h,
        tracks.at k t,
        times_of-append k log ((key, now) ∷ []),
        append-nil (times_of k log),
        select-append (is_recent w t) kept (now ∷ []),
        select-append (is_recent w t) (times_of k log) (now ∷ []),
      )

  check_key-Tracks :
      Tracks limit.window_seconds now (check_key limit now key ws).1 (log_check limit now key log).1
  check_key-Tracks = record { at = check_key-window }

module _ (since : ℕ) (limit : RateLimit) (now : ℕ) (ws : Windows) (log : Log) (later : since ≤ now)
    (tracks : Tracks limit.window_seconds since ws log) where
  pub check_answer :
      (r : Option Request) → (check r limit now ws).0 ≡ (log_request r limit now log).0
  unfolding check
  check_answer none = refl
  check_answer (some r) = check_key_answer since limit now (client_key (some r)) ws log later tracks

  pub check-Tracks :
      (r : Option Request)
      → Tracks limit.window_seconds now (check r limit now ws).1 (log_request r limit now log).1
  unfolding check
  check-Tracks none = record { at = λ k t h. tracks.at k t (omega arith) }
  check-Tracks (some r) = check_key-Tracks since limit now (client_key (some r)) ws log later tracks

module _ (w : ℕ) where
  answers_refine :
      (since : ℕ) (calls : List Call) (ws : Windows) (log : Log)
      → InOrder w since calls
      → Tracks w since ws log
      → answers calls ws ≡ log_answers calls log
  unfolding answers log_answers
  answers_refine since [] ws log order tracks = refl
  answers_refine since (c ∷ calls) ws log order tracks =
      let same = order.1 in
      let now_tracks = subst (λ (v : ℕ). Tracks v since ws log) (sym same) tracks in
      let ws' = (check c.request c.limit c.now ws).1 in
      let log' = (log_request c.request c.limit c.now log).1 in
      let next =
        subst (λ (v : ℕ). Tracks v c.now ws' log') same
          (check-Tracks since c.limit c.now ws log order.0 now_tracks c.request) in
      ap₂ {B = List Bool} ◌∷◌ (check_answer since c.limit c.now ws log order.0 now_tracks c.request)
        (answers_refine c.now calls ws' log' order.2 next)

  -- From an empty limiter, for calls whose clock does not run backwards and whose limits have one
  -- window, `check` answers as the log does: it lets a request through exactly if fewer requests of
  -- that client than the limit were let through within the window before it.
  pub answers-log_answers :
      (calls : List Call) → InOrder w 0 calls → answers calls [] ≡ log_answers calls []
  answers-log_answers calls order =
      answers_refine 0 calls [] [] order (record { at = λ key now h. unfold Dict.get in refl })
