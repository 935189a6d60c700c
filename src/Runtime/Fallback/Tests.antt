-- ===== src/Runtime/Fallback/Tests.antt =====
-- Runs and instances of runtime/fallback.py.
use cpip.Common.{ℕ, suc, ◌≡◌, refl, List, [], ◌∷◌, arith, eqb, ltb, if◌then◌else◌}
use cpip.Runtime.Fallback.{
  Outcome, returned, raised, error, circuit_open, RetryConfig, retry_loop, retry_async, Attempt,
  init_breaker, call, calls,
}
use cpip.Runtime.Fallback.Breaker.{tally_calls, calls-tally_calls}

-- Three retries from 10 to 35 units; error 1 may be retried, error 2 not.
abbrev cfg : RetryConfig ℕ
cfg = record {
  max_retries = 3;
  base_delay = 10;
  max_delay = 35;
  backoff_factor = 2;
  retryable = λ e. eqb e 1;
}

abbrev always : ℕ → Outcome ℕ ℕ
always i = raised 1

abbrev third : ℕ → Outcome ℕ ℕ
third i = if ltb i 2 then raised 1 else returned 7

always_fails :
    retry_async cfg always
    ≡ record { result = raised (error 1); delays = 10 ∷ 20 ∷ 35 ∷ []; calls = 4 }
unfolding retry_async retry_loop
always_fails = refl

-- An error that may not be retried ends the loop at once.
gives_up :
    retry_async {A = ℕ} cfg (λ i. raised 2)
    ≡ record { result = raised (error 2); delays = []; calls = 1 }
unfolding retry_async retry_loop
gives_up = refl

abbrev broken : ℕ → Outcome ℕ ℕ
broken x = raised x

abbrev works : ℕ → Outcome ℕ ℕ
works x = returned (suc x)

-- Two failures open the breaker; the call within the timeout is turned away, the next is made.
abbrev script : List (Attempt ℕ ℕ)
script =
    record { asked = 1; failed = 2; outcome = raised 9 }
    ∷ record { asked = 3; failed = 4; outcome = raised 9 }
    ∷ record { asked = 10; failed = 11; outcome = returned 1 }
    ∷ record { asked = 70; failed = 71; outcome = returned 2 }
    ∷ []

script_runs :
    calls script (init_breaker 2 60)
    ≡ raised (error 9) ∷ raised (error 9) ∷ raised circuit_open ∷ returned 2 ∷ []
unfolding calls call
script_runs = refl

calls-tally_calls_example :
    calls script (init_breaker 2 60)
    ≡ tally_calls 2 60 script (record { consecutive = 0; last = 0 })
calls-tally_calls_example = calls-tally_calls 2 60 (omega arith) script
