-- ===== src/Runtime/Fallback/Retries.antt =====
-- runtime/fallback.py: the attempts and the delays of `retry_async`.
use native.Mathlib.Nat.{mul_assoc}
use native.Mathlib.Decide.{dec_le}
use cpip.Common.{
  ℕ, zero, suc, ◌+◌, ◌*◌, ◌≤◌, ◌<◌, min, ◌≡◌, refl, Bool, true, false, Option, none, some, List, [],
  ◌∷◌, arith, ◌⊎◌, ap, sym, ◌∙◌,
}
use cpip.Runtime.Fallback.{
  Outcome, returned, raised, Failure, error, RetryConfig, called, slept, retry_loop, retry_async,
}

module _ {ℓ} {E : Type ℓ} (cfg : RetryConfig E) where
  -- The delay after attempt `i`: the base delay times the factor to the power `i`, capped.
  abbrev pub power : ℕ → ℕ
  power zero = 1
  power (suc i) = power i * cfg.backoff_factor

  pub backoff : ℕ → ℕ
  backoff i = min (cfg.base_delay * power i) cfg.max_delay

  -- The delays after `n` attempts from attempt `i` on.
  abbrev pub backoffs : ℕ → ℕ → List ℕ
  backoffs i zero = []
  backoffs i (suc n) = backoff i ∷ backoffs (suc i) n

  -- An outcome after which `retry_async` tries again, if it may.
  abbrev pub is_retried : {A : Type ℓ} → Outcome E A → Bool
  is_retried (returned a) = false
  is_retried (raised e) = cfg.retryable e

-- A failure of the function, passed on.
abbrev pub passed_on {ℓ} : {E A : Type ℓ} → Outcome E A → Outcome (Failure E) A
passed_on (returned a) = returned a
passed_on (raised e) = raised (error e)

min-mul-min : (p f m : ℕ) → 1 ≤ f → min (min p m * f) m ≡ min (p * f) m
min-mul-min p f m h = elim (dec_le p m) [
  | yes below ↦ let e : min p m ≡ p = omega arith in rw e
  | no above ↦
      let e : min p m ≡ m = omega arith in
      let capped : m ≤ m * f = grind arith in
      let over : m ≤ p * f = grind arith in rw e (omega arith)
]

module _ {ℓ} {E A : Type ℓ} (cfg : RetryConfig E) (func : ℕ → Outcome E A)
    (growing : 1 ≤ cfg.backoff_factor) where
  -- A delay is the one before it times the factor, capped.
  backoff_next :
      (i : ℕ) → min (backoff cfg i * cfg.backoff_factor) cfg.max_delay ≡ backoff cfg (suc i)
  unfolding backoff
  backoff_next i =
      rw (← mul_assoc)
        (min-mul-min (cfg.base_delay * power cfg i) cfg.backoff_factor cfg.max_delay growing)

  -- The last attempt, which settles the matter or is the last that is allowed.
  loop_last :
      (left attempt : ℕ) (last : Option E)
      → attempt + left ≡ cfg.max_retries
      → (is_retried cfg (func attempt) ≡ false) ⊎ (attempt ≡ cfg.max_retries)
      → retry_loop cfg func (suc left) attempt (backoff cfg attempt) last
        ≡ record { result = passed_on (func attempt); delays = []; calls = 1 }
  unfolding retry_loop
  loop_last zero attempt last e stop = ground arith
  loop_last (suc left) attempt last e stop = ground arith

  -- An attempt that is retried, below the last: a delay, and the next attempt.
  loop_step :
      (rounds attempt delay : ℕ) (last : Option E) (o : Outcome E A)
      → func attempt ≡ o
      → attempt < cfg.max_retries
      → is_retried cfg o ≡ true
      → (e : E) × (retry_loop cfg func (suc rounds) attempt delay last
          ≡ called (
              slept delay (
                retry_loop cfg func rounds
                  (suc attempt)
                  (min (delay * cfg.backoff_factor) cfg.max_delay)
                  (some e))))
  unfolding retry_loop
  loop_step rounds attempt delay last (returned a) same less retried = absurd (cc)
  loop_step rounds attempt delay last (raised e) same less retried =
      (e, rw (same, retry_loop) (ground arith))

  -- `n` more attempts that are retried, up to attempt `k`.
  loop_past :
      (n rounds attempt k : ℕ) (last : Option E)
      → attempt + n ≡ k
      → attempt + rounds ≡ cfg.max_retries
      → k ≤ cfg.max_retries
      → ((i : ℕ) → i < k → is_retried cfg (func i) ≡ true)
      → (is_retried cfg (func k) ≡ false) ⊎ (k ≡ cfg.max_retries)
      → retry_loop cfg func (suc rounds) attempt (backoff cfg attempt) last
        ≡ record { result = passed_on (func k); delays = backoffs cfg attempt n; calls = suc n }
  unfolding retry_loop
  loop_past zero rounds attempt k last at e le before stop =
      let same : attempt ≡ k = omega arith in
      rw (← same) (loop_last rounds attempt last e (rw (← same) at stop))
  loop_past (suc n) zero attempt k last at e le before stop = absurd (omega arith)
  loop_past (suc n) (suc rounds) attempt k last at e le before stop =
      let (y, step) =
        loop_step (suc rounds) attempt (backoff cfg attempt) last (func attempt) refl (omega arith)
          (before attempt (omega arith)) in
      let rest =
        loop_past n rounds (suc attempt) k (some y) (omega arith) (omega arith) le before stop in
      ground (arith, step, backoff_next attempt, rest)

  -- Let the attempts before attempt `k` raise what may be retried, and let attempt `k`, the last that
  -- `max_retries` allows or an earlier one, not do so or be that last one. Then `retry_async` makes
  -- `k + 1` calls, returns or raises what attempt `k` did, and slept `k` times in between: the base delay
  -- times the powers of the factor, each capped by the maximum, if the base delay is not above that.
  pub retry_async_lem :
      (k : ℕ)
      → cfg.base_delay ≤ cfg.max_delay
      → k ≤ cfg.max_retries
      → ((i : ℕ) → i < k → is_retried cfg (func i) ≡ true)
      → (is_retried cfg (func k) ≡ false) ⊎ (k ≡ cfg.max_retries)
      → retry_async cfg func
        ≡ record { result = passed_on (func k); delays = backoffs cfg 0 k; calls = suc k }
  unfolding retry_async
  retry_async_lem k capped le before stop =
      let first : backoff cfg 0 ≡ cfg.base_delay = unfold backoff in omega arith in
      ap (λ d. retry_loop cfg func (suc cfg.max_retries) 0 d none) (sym first)
      ∙ loop_past k cfg.max_retries 0 k none (omega arith) (omega arith) le before stop
