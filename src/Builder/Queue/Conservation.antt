-- ===== src/Builder/Queue/Conservation.antt =====
-- builder/queue.py: no request is lost.
use text.Mathlib.TextEquality.{eq_iff}
use cpip.Common.{
  ℕ, ◌+◌, ◌≤◌, ◌≡◌, refl, String, Option, none, some, List, [], ◌∷◌, ◌++◌, arith, ◌==◌,
  if◌then◌else◌, choose, choose_some,
}
use cpip.Common.Dict
use cpip.Common.Dict.{Dict, get-put, get-remove}
use cpip.Builder.Queue.{
  Entry, BuildRequest, BuildQueue, empty_queue, before, insert, sort, push, pop, pop_first,
  complete, fail, lowered,
}

-- How often a request waits, and whether it is worked on.
abbrev pub waiting : String → List Entry → ℕ
waiting id [] = 0
waiting id (e ∷ es) = (if e.request.request_id == id then 1 else 0) + waiting id es

abbrev pub counted : Option BuildRequest → ℕ
counted none = 0
counted (some r) = 1

abbrev pub held : String → BuildQueue → ℕ
held id q = waiting id q.queue + counted (Dict.get q.processing id)

-- The key of a request in processing is its id.
abbrev pub Named : Dict BuildRequest → Type 0
Named p = (k : String) (r : BuildRequest) → Dict.get p k ≡ some r → r.request_id ≡ k

waiting-insert :
    (id : String) (e : Entry) (xs : List Entry) → waiting id (insert e xs) ≡ waiting id (e ∷ xs)
unfolding insert
waiting-insert id e [] = refl
waiting-insert id e (x ∷ xs) =
    choose (λ (l : List Entry). waiting id l ≡ waiting id (e ∷ x ∷ xs)) (before e x) (e ∷ x ∷ xs)
      (x ∷ insert e xs) (λ h. refl) (λ h. omega (arith, waiting-insert id e xs))

waiting-sort : (id : String) (xs : List Entry) → waiting id (sort xs) ≡ waiting id xs
unfolding sort
waiting-sort id [] = refl
waiting-sort id (x ∷ xs) = omega (arith, waiting-insert id x (sort xs), waiting-sort id xs)

waiting-append :
    (id : String) (xs ys : List Entry) → waiting id (xs ++ ys) ≡ waiting id xs + waiting id ys
waiting-append id [] ys = omega arith
waiting-append id (x ∷ xs) ys = omega (arith, waiting-append id xs ys)

held-push :
    (id : String) (now : ℕ) (r : BuildRequest) (q : BuildQueue)
    → held id (push now r q) ≡ (if r.request_id == id then 1 else 0) + held id q
unfolding push
held-push id now r q =
    omega (arith, waiting-sort id (q.queue ++ entry ∷ []), waiting-append id q.queue (entry ∷ []))
  where
    entry : Entry
    entry = record { priority = r.priority; timestamp = now; request = r }

held-pop_first :
    (id : String) (l : List Entry) (p : Dict BuildRequest)
    → waiting id l + counted (Dict.get p id) ≤ 1
    → held id (pop_first l p).1 ≡ waiting id l + counted (Dict.get p id)
unfolding pop_first
held-pop_first id [] p h = refl
held-pop_first id (e ∷ rest) p h =
    ground (arith, h, eq_iff e.request.request_id id, get-put p e.request.request_id id e.request)

held-complete :
    (id j : String) (q : BuildQueue)
    → held id (complete j q) ≡ (if j == id then waiting id q.queue else held id q)
unfolding complete
held-complete id j q = ground (arith, eq_iff j id, get-remove q.processing j id)

held-fail :
    (id j : String) (now : ℕ) (q : BuildQueue)
    → Named q.processing
    → held id (fail now j q) ≡ held id q
unfolding fail
held-fail id j now q named =
    choose_some (λ (q' : BuildQueue). held id q' ≡ held id q) (Dict.get q.processing j)
      (complete j q) (λ r. push now (lowered r) (complete j q))
      (λ h. ground (arith, h, held-complete id j q, eq_iff j id))
      (λ r h. ground (
        arith,
        h,
        held-push id now (lowered r) (complete j q),
        held-complete id j q,
        named j r h,
        eq_iff j id,
        eq_iff r.request_id id,
      ))

-- The queues that are reached when a request is pushed only while it is neither waiting nor in
-- processing.
pub data Run : BuildQueue → Type 0 where
  started : Run empty_queue
  pushed :
      {q : BuildQueue} (now : ℕ) (r : BuildRequest)
      → held r.request_id q ≡ 0
      → Run q
      → Run (push now r q)
  popped : {q : BuildQueue} → Run q → Run (pop q).1
  completed : {q : BuildQueue} (id : String) → Run q → Run (complete id q)
  failed : {q : BuildQueue} (now : ℕ) (id : String) → Run q → Run (fail now id q)

nil-Named : Named []
unfolding Dict.get
nil-Named k r h = absurd (cc h)

held-empty : (id : String) → held id empty_queue ≡ 0
unfolding Dict.get
held-empty id = refl

put-Named : (p : Dict BuildRequest) (r : BuildRequest) → Named p → Named (Dict.put p r.request_id r)
put-Named p r named k s h =
    ground (arith, h, named k s, get-put p r.request_id k r, eq_iff r.request_id k)

remove-Named : (p : Dict BuildRequest) (j : String) → Named p → Named (Dict.remove p j)
remove-Named p j named k s h = ground (arith, h, named k s, get-remove p j k, eq_iff j k)

pop_first-Named :
    (l : List Entry) (p : Dict BuildRequest) → Named p → Named (pop_first l p).1.processing
unfolding pop_first
pop_first-Named [] p named = named
pop_first-Named (e ∷ rest) p named = put-Named p e.request named

fail-Named :
    (now : ℕ) (j : String) (q : BuildQueue) → Named q.processing → Named (fail now j q).processing
unfolding fail push complete
fail-Named now j q named =
    choose_some (λ (q' : BuildQueue). Named q'.processing) (Dict.get q.processing j) (complete j q)
      (λ r. push now (lowered r) (complete j q)) (λ h. remove-Named q.processing j named)
      (λ r h. remove-Named q.processing j named)

Run-Named : (q : BuildQueue) → Run q → Named q.processing
unfolding push complete
Run-Named _ Run.started = nil-Named
Run-Named _ (Run.pushed {q} now r f h) = Run-Named q h
Run-Named _ (Run.popped {q} h) = pop_first-Named q.queue q.processing (Run-Named q h)
Run-Named _ (Run.completed {q} j h) = remove-Named q.processing j (Run-Named q h)
Run-Named _ (Run.failed {q} now j h) = fail-Named now j q (Run-Named q h)

-- A request is in one place at most.
held-le : (q : BuildQueue) (id : String) → Run q → held id q ≤ 1
held-le _ id Run.started = omega (arith, held-empty id)
held-le _ id (Run.pushed {q} now r f h) =
    ground (arith, held-push id now r q, held-le q id h, eq_iff r.request_id id, f)
held-le _ id (Run.popped {q} h) =
    omega (arith, held-pop_first id q.queue q.processing (held-le q id h), held-le q id h)
held-le _ id (Run.completed {q} j h) = ground (arith, held-complete id j q, held-le q id h)
held-le _ id (Run.failed {q} now j h) =
    omega (arith, held-fail id j now q (Run-Named q h), held-le q id h)

-- No request is lost or doubled: while requests are pushed only when they are not held, each is
-- waiting or in processing once at most, pop and fail keep all that is held, and complete takes out no
-- request but the one named.
pub held_once :
    (q : BuildQueue) (id : String)
    → Run q
    → (held id q ≤ 1)
      × (held id (pop q).1 ≡ held id q)
      × ((now : ℕ) (j : String) → held id (fail now j q) ≡ held id q)
      × ((j : String)
          → held id (complete j q) ≡ (if j == id then waiting id q.queue else held id q))
held_once q id h = (
  held-le q id h,
  held-pop_first id q.queue q.processing (held-le q id h),
  λ now j. held-fail id j now q (Run-Named q h),
  λ j. held-complete id j q,
)
