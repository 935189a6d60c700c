-- ===== src/Runtime/Fallback.antt =====
-- runtime/fallback.py: retries with backoff, fallback chains, and the circuit breaker. What the
-- wrapped functions do is given by their outcomes, whether they are coroutines or not. Delays and
-- times are natural numbers of one small unit, and the backoff factor is a whole number.
pub mod Retries
pub mod Chains
pub mod Breaker
mod Tests
use cpip.Common.{
  ℕ, zero, suc, ◌+◌, ◌*◌, min, String, Bool, true, false, Option, none, some, List, [], ◌∷◌, ◌++◌,
  ltb, leb, length, ◌==◌, if◌then◌else◌,
}

pub data Outcome {ℓ} (E A : Type ℓ) : Type ℓ where
  returned : A → Outcome E A
  raised : E → Outcome E A

-- What the wrappers raise: an error of the function, or a RuntimeError or ConnectionError of their
-- own.
pub data Failure {ℓ} (E : Type ℓ) : Type ℓ where
  error : E → Failure E
  exhausted : Failure E
  circuit_open : Failure E

-- `last_error or RuntimeError(…)`
abbrev pub last_or_exhausted {ℓ} : {E : Type ℓ} → Option E → Failure E
last_or_exhausted none = exhausted
last_or_exhausted (some e) = error e

-- `RetryConfig`
pub record RetryConfig {ℓ} (E : Type ℓ) : Type ℓ where
  pub max_retries : ℕ
  pub base_delay : ℕ
  pub max_delay : ℕ
  pub backoff_factor : ℕ
  pub retryable : E → Bool

-- What a call of `retry_async` does: its result, the delays that it sleeps, the calls that it makes.
pub record Retried {ℓ} (E A : Type ℓ) : Type ℓ where
  pub result : Outcome (Failure E) A
  pub delays : List ℕ
  pub calls : ℕ

module _ {ℓ} {E A : Type ℓ} where
  abbrev pub called : Retried E A → Retried E A
  called r = record r { calls = suc r.calls }

  abbrev pub slept : ℕ → Retried E A → Retried E A
  slept d r = record r { delays = d ∷ r.delays }

  module _ (cfg : RetryConfig E) (func : ℕ → Outcome E A) where
    -- The `for` loop with `left` rounds to go; `func attempt` is the outcome of that attempt.
    unfoldable pub retry_loop : ℕ → ℕ → ℕ → Option E → Retried E A
    retry_loop zero attempt delay last_error = record {
      result = raised (last_or_exhausted last_error);
      delays = [];
      calls = 0;
    }
    retry_loop (suc left) attempt delay last_error =
        let again =
          retry_loop left (suc attempt) (min (delay * cfg.backoff_factor) cfg.max_delay) in
        let last = retry_loop left (suc attempt) delay in
        elim (func attempt) [
          | returned a ↦ record { result = returned a; delays = []; calls = 1 }
          | raised e ↦ elim (cfg.retryable e) [
            | false ↦ record { result = raised (error e); delays = []; calls = 1 }
            | true ↦ elim (ltb attempt cfg.max_retries) [
              | true ↦ called (slept delay (again (some e)))
              | false ↦ called (last (some e))
            ]
          ]
        ]

    unfoldable pub retry_async : Retried E A
    retry_async = retry_loop (suc cfg.max_retries) 0 cfg.base_delay none

-- The label that `add` stores: its argument, or `strategy_{n}`.
pub data Label : Type 0 where
  named : String → Label
  numbered : ℕ → Label

-- `FallbackChain`
pub record FallbackChain {ℓ} (X E A : Type ℓ) : Type ℓ where
  pub strategies : List (X → Outcome E A)
  pub labels : List Label

module _ {ℓ} {X E A : Type ℓ} where
  unfoldable pub add : FallbackChain X E A → (X → Outcome E A) → String → FallbackChain X E A
  add c strategy label =
      let strategies = c.strategies ++ strategy ∷ [] in
      record {
        strategies = strategies;
        labels =
            c.labels ++ (if label == "" then numbered (length strategies) else named label) ∷ [];
      }

  -- The loop of `execute`, with the calls that it makes.
  unfoldable pub try_each : List (X → Outcome E A) → X → Option E → Outcome (Failure E) A × ℕ
  try_each [] args last_error = (raised (last_or_exhausted last_error), 0)
  try_each (strategy ∷ rest) args last_error =
      let more = try_each rest args in
      elim (strategy args) [
        | returned a ↦ (returned a, 1)
        | raised e ↦ let (r, n) = more (some e) in (r, suc n)
      ]

  unfoldable pub execute : FallbackChain X E A → X → Outcome (Failure E) A × ℕ
  execute c args = try_each c.strategies args none

-- `_state`
pub data BreakerState : Type 0 where
  closed opened half_open : BreakerState

-- `CircuitBreaker`
pub record CircuitBreaker : Type 0 where
  pub failure_threshold : ℕ
  pub reset_timeout : ℕ
  pub failures : ℕ
  pub last_failure : ℕ
  pub state : BreakerState

abbrev pub init_breaker : ℕ → ℕ → CircuitBreaker
init_breaker threshold timeout = record {
  failure_threshold = threshold;
  reset_timeout = timeout;
  failures = 0;
  last_failure = 0;
  state = closed;
}

-- The property `is_open`, which moves an open breaker to half-open after the timeout.
unfoldable pub is_open : ℕ → CircuitBreaker → Bool × CircuitBreaker
is_open now b = elim b.state [
  | opened ↦
      if ltb (b.last_failure + b.reset_timeout) now
      then (false, record b { state = half_open })
      else (true, b)
  | _ ↦ (false, b)
]

unfoldable pub record_success : CircuitBreaker → CircuitBreaker
record_success b = record b { failures = 0; state = closed }

unfoldable pub record_failure : ℕ → CircuitBreaker → CircuitBreaker
record_failure now b = record b {
  failures = suc b.failures;
  last_failure = now;
  state = if leb b.failure_threshold (suc b.failures) then opened else b.state;
}

-- A call: the clock as `is_open` reads it, the clock as `record_failure` reads it, and what the
-- function does if it is called.
pub record Attempt {ℓ} (E A : Type ℓ) : Type ℓ where
  pub asked : ℕ
  pub failed : ℕ
  pub outcome : Outcome E A

module _ {ℓ} {E A : Type ℓ} where
  -- `call`: the outcome, or the rejection of an open breaker.
  unfoldable pub call : Attempt E A → CircuitBreaker → Outcome (Failure E) A × CircuitBreaker
  unfolding is_open record_success record_failure
  call x b =
      let (is_shut, b') = is_open x.asked b in
      if is_shut then (raised circuit_open, b') else elim x.outcome [
        | returned a ↦ (returned a, record_success b')
        | raised e ↦ (raised (error e), record_failure x.failed b')
      ]

  -- One call after the other.
  unfoldable pub calls : List (Attempt E A) → CircuitBreaker → List (Outcome (Failure E) A)
  calls [] b = []
  calls (x ∷ xs) b = let (r, b') = call x b in r ∷ calls xs b'
