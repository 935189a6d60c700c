-- ===== src/Runtime/Fallback/Breaker.antt =====
-- runtime/fallback.py: the circuit breaker against a tally of consecutive failures.
use cpip.Common.{
  ℕ, suc, ◌+◌, ◌<◌, ◌≡◌, refl, ◌&&◌, not, List, [], ◌∷◌, arith, ltb, leb, if◌then◌else◌, ap₂,
}
use cpip.Runtime.Fallback.{
  Outcome, returned, raised, Failure, error, circuit_open, closed, opened, CircuitBreaker,
  init_breaker, Attempt, call, calls,
}

-- The calls that failed since one last succeeded, and when the last of them did.
pub record Tally : Type 0 where
  pub consecutive : ℕ
  pub last : ℕ

module _ {ℓ} {E A : Type ℓ} (threshold timeout : ℕ) where
  -- The specification, with no states: a call is turned away if the failures have reached the
  -- threshold and the last is no longer ago than the timeout, and is made if not.
  unfoldable pub tally_call : Attempt E A → Tally → Outcome (Failure E) A × Tally
  tally_call x t =
      if leb threshold t.consecutive && not (ltb (t.last + timeout) x.asked)
      then (raised circuit_open, t)
      else elim x.outcome [
        | returned a ↦ (returned a, record { consecutive = 0; last = t.last })
        | raised e ↦ (raised (error e), record { consecutive = suc t.consecutive; last = x.failed })
      ]

  unfoldable pub tally_calls : List (Attempt E A) → Tally → List (Outcome (Failure E) A)
  tally_calls [] t = []
  tally_calls (x ∷ xs) t = let (r, t') = tally_call x t in r ∷ tally_calls xs t'

-- A breaker between calls: open exactly if the tally has reached the threshold.
pub record Matches (threshold timeout : ℕ) (b : CircuitBreaker) (t : Tally) : Type 0 where
  pub threshold_eq : b.failure_threshold ≡ threshold
  pub timeout_eq : b.reset_timeout ≡ timeout
  pub failures_eq : b.failures ≡ t.consecutive
  pub last_eq : b.last_failure ≡ t.last
  pub state_eq : b.state ≡ (if leb threshold t.consecutive then opened else closed)

module _ {ℓ} {E A : Type ℓ} (threshold timeout : ℕ) (positive : 0 < threshold) where
  call_result :
      (x : Attempt E A) (b : CircuitBreaker) (t : Tally)
      → Matches threshold timeout b t
      → (call x b).0 ≡ (tally_call threshold timeout x t).0
  unfolding call tally_call
  call_result x b t m = ground arith

  call-Matches :
      (x : Attempt E A) (b : CircuitBreaker) (t : Tally)
      → Matches threshold timeout b t
      → Matches threshold timeout (call x b).1 (tally_call threshold timeout x t).1
  unfolding call tally_call
  call-Matches x b t m = ground arith

  calls_refine :
      (xs : List (Attempt E A)) (b : CircuitBreaker) (t : Tally)
      → Matches threshold timeout b t
      → calls xs b ≡ tally_calls threshold timeout xs t
  unfolding calls tally_calls
  calls_refine [] b t m = refl
  calls_refine (x ∷ xs) b t m =
      ap₂ {B = List (Outcome (Failure E) A)} ◌∷◌ (call_result x b t m)
        (calls_refine xs (call x b).1 (tally_call threshold timeout x t).1 (call-Matches x b t m))

  -- A new breaker with a positive threshold answers every sequence of calls, whatever the times and
  -- the outcomes, as the tally does: it turns a call away exactly if as many calls as the threshold
  -- have failed since the last success, and the last no longer ago than the timeout.
  pub calls-tally_calls :
      (xs : List (Attempt E A))
      → calls xs (init_breaker threshold timeout)
        ≡ tally_calls threshold timeout xs (record { consecutive = 0; last = 0 })
  calls-tally_calls xs = calls_refine xs (init_breaker threshold timeout) _ (ground arith)
