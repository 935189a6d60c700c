-- ===== src/Server/Auth/RateLimiter/Bound.antt =====
-- server/auth/rate_limiter.py: no window holds more accepted requests of a client than the limit.
use mathlib.Core.List.{append-nil, append_assoc}
use cpip.Common.{
  ℕ, ◌≤◌, String, ◌≡◌, Bool, Option, none, some, List, [], ◌∷◌, ◌++◌, arith, length, length-append,
  select, select-append, eq_iff, if◌then◌else◌, All, Option-cases, inl, inr,
}
use cpip.Server.Auth.RateLimiter.{Request, RateLimit, client_key, is_recent}
use cpip.Server.Auth.RateLimiter.Window.{
  Log, times_of, times_of-append, count_recent, log_check, Call, answers, log_request, log_answers,
  InOrder, answers-log_answers,
}

-- The requests that were let through, by the answers.
abbrev pub granted : List Call → List Bool → Log
granted [] answers = []
granted (c ∷ calls) [] = []
granted (c ∷ calls) (b ∷ answers) = elim c.request [
  | none ↦ granted calls answers
  | some r ↦
      if b then (client_key (some r), c.now) ∷ granted calls answers else granted calls answers
]

-- The log grows by what is granted.
granted_next :
    (c : Call) (calls : List Call) (bs : List Bool) (log : Log)
    → log ++ granted (c ∷ calls) ((log_request c.request c.limit c.now log).0 ∷ bs)
      ≡ (log_request c.request c.limit c.now log).1 ++ granted calls bs
unfolding log_check
granted_next c calls bs log = elim (Option-cases c.request) [
  | inl e ↦ rw (e, granted, log_request)
  | inr (r, e) ↦
      ground (arith, e, append_assoc log ((client_key (some r), c.now) ∷ []) (granted calls bs))
]

module _ (w : ℕ) where
  -- As time goes on, fewer of the logged requests are recent.
  pub select_later :
      (now later : ℕ) (l : List ℕ)
      → now ≤ later
      → length (select (is_recent w later) l) ≤ length (select (is_recent w now) l)
  select_later now later [] h = omega arith
  select_later now later (t ∷ l) h = ground (arith, select_later now later l h)

  abbrev Within : ℕ → ℕ → Log → Type 0
  Within most since log = (key : String) (now : ℕ) → since ≤ now → count_recent w key now log ≤ most

  log_check-Within :
      (most since : ℕ) (limit : RateLimit) (key : String) (now : ℕ) (log : Log)
      → since ≤ now
      → limit.window_seconds ≡ w
      → limit.requests ≤ most
      → Within most since log
      → Within most now (log_check limit now key log).1
  unfolding log_check
  log_check-Within most since limit key now log later same fits within k t h = ground (
    arith,
    within k t,
    times_of-append k log ((key, now) ∷ []),
    append-nil (times_of k log),
    select-append (is_recent w t) (times_of k log) (now ∷ []),
    length-append (select (is_recent w t) (times_of k log)) (select (is_recent w t) (now ∷ [])),
    select_later now t (times_of k log) h,
    eq_iff key k,
  )

  log_request-Within :
      (most since : ℕ) (limit : RateLimit) (now : ℕ) (log : Log)
      → since ≤ now
      → limit.window_seconds ≡ w
      → limit.requests ≤ most
      → Within most since log
      → (r : Option Request) → Within most now (log_request r limit now log).1
  log_request-Within most since limit now log later same fits within none =
      λ k t h. within k t (omega arith)
  log_request-Within most since limit now log later same fits within (some r) =
      log_check-Within most since limit (client_key (some r)) now log later same fits within

  granted_bound :
      (most since : ℕ) (calls : List Call) (log : Log)
      → InOrder w since calls
      → All (λ (c : Call). c.limit.requests ≤ most) calls
      → Within most since log
      → (key : String) (now : ℕ) → since ≤ now
      → All (λ (c : Call). c.now ≤ now) calls
      → count_recent w key now (log ++ granted calls (log_answers calls log)) ≤ most
  unfolding log_answers
  granted_bound most since [] log order fits within key now h past =
      rw append-nil (within key now h)
  granted_bound most since (c ∷ calls) log order fits within key now h past =
      let log' = (log_request c.request c.limit c.now log).1 in
      rw (granted_next c calls (log_answers calls log') log) (
        granted_bound most c.now calls log' order.2 fits.1
          (log_request-Within most since c.limit c.now log order.0 order.1 fits.0 within c.request)
          key now past.0 past.1)

  -- At no time, however the calls of `check` up to it are spread over clients and limits, have more
  -- requests of one client been let through within the window before it than the largest limit.
  pub granted-answers_le :
      (most : ℕ) (calls : List Call) (key : String) (now : ℕ)
      → InOrder w 0 calls
      → All (λ (c : Call). c.limit.requests ≤ most) calls
      → All (λ (c : Call). c.now ≤ now) calls
      → count_recent w key now (granted calls (answers calls [])) ≤ most
  granted-answers_le most calls key now order fits past =
      rw (answers-log_answers w calls order)
        (granted_bound most 0 calls [] order fits (λ k t h. omega arith) key now (omega arith) past)
