-- ===== src/Runtime/Fallback/Chains.antt =====
-- runtime/fallback.py: a fallback chain returns what its first working strategy returns.
use cpip.Common.{◌+◌, ◌≡◌, Option, none, some, List, [], ◌∷◌, ◌++◌, arith, length, All}
use mathlib.Core.List.{append-nil}
use cpip.Runtime.Fallback.{Outcome, returned, raised, last_or_exhausted, Label, try_each, execute}

-- The strategies that raise on an argument, with their errors.
abbrev pub Raises {ℓ} : {X E A : Type ℓ} → X → (X → Outcome E A) × E → Type ℓ
Raises {E} {A} x (strategy, e) = ◌≡◌ {A = Outcome E A} (strategy x) (raised e)

abbrev pub firsts {ℓ} : {A B : Type ℓ} → List (A × B) → List A
firsts [] = []
firsts ((a, b) ∷ l) = a ∷ firsts l

abbrev pub last_of {ℓ} : {A B : Type ℓ} → List (A × B) → Option B → Option B
last_of [] o = o
last_of ((a, b) ∷ l) o = last_of l (some b)

module _ {ℓ} {X E A : Type ℓ} (x : X) where
  try_each_past :
      (failing : List ((X → Outcome E A) × E)) (rest : List (X → Outcome E A)) (e : Option E)
      → All (Raises x) failing
      → try_each (firsts failing ++ rest) x e ≡ (
        (try_each rest x (last_of failing e)).0,
        length failing + (try_each rest x (last_of failing e)).1,
      )
  unfolding try_each
  try_each_past [] rest e h = ground arith
  try_each_past ((f, y) ∷ failing) rest e h =
      ground (arith, h.0, try_each_past failing rest (some y) h.1)

  -- Let every strategy of a list raise on the argument. A chain of just these makes all the calls and
  -- raises the last error, or RuntimeError if there is none. With a strategy after them that returns,
  -- it returns that value, has called each up to that one once, and none behind it.
  pub execute-firsts :
      (failing : List ((X → Outcome E A) × E)) (f : X → Outcome E A) (a : A)
      (behind : List (X → Outcome E A)) (labels : List Label)
      → All (Raises x) failing
      → f x ≡ returned a
      → (execute (record { strategies = firsts failing; labels = labels }) x
          ≡ (raised (last_or_exhausted (last_of failing none)), length failing))
        × (execute (record { strategies = firsts failing ++ f ∷ behind; labels = labels }) x
            ≡ (returned a, length failing + 1))
  unfolding execute try_each
  execute-firsts failing f a behind labels h r = (
    ground (arith, try_each_past failing [] none h, append-nil (firsts failing)),
    ground (arith, r, try_each_past failing (f ∷ behind) none h),
  )
