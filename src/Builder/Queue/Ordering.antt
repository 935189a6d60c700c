-- ===== src/Builder/Queue/Ordering.antt =====
-- builder/queue.py: the queue is in order, and pop takes the least entry.
use mathlib.Core.List.{Permᴰ}
use cpip.Common.{
  ℕ, ◌≤◌, ◌<◌, ◌≡◌, refl, ◌⊎◌, inl, inr, String, true, false, Option, none, some, List, [], ◌∷◌,
  arith, All, choose, choose_some,
}
use cpip.Common.Dict
use cpip.Builder.Queue.{
  Entry, BuildRequest, BuildQueue, before, insert, sort, push, pop, pop_first, complete, fail,
  lowered,
}
use cpip.Builder.Queue.Steps.{Reachable}

-- `a` is not to be popped after `b`.
abbrev pub Before : Entry → Entry → Type 0
Before a b = (a.priority < b.priority) ⊎ ((a.priority ≡ b.priority) × (a.timestamp ≤ b.timestamp))

abbrev pub Sorted : List Entry → Type 0
Sorted [] = Unit
Sorted (x ∷ xs) = All (Before x) xs × Sorted xs

before→Before : (a b : Entry) → before a b ≡ true → Before a b
before→Before a b h = ground (arith, h)

not-before→Before : (a b : Entry) → before a b ≡ false → Before b a
not-before→Before a b h = ground (arith, h)

Before-trans : (a b c : Entry) → Before a b → Before b c → Before a c
Before-trans a b c h k = ground (arith, h, k)

All-Before : (a b : Entry) (xs : List Entry) → Before a b → All (Before b) xs → All (Before a) xs
All-Before a b [] h k = tt
All-Before a b (x ∷ xs) h (k, ks) = (Before-trans a b x h k, All-Before a b xs h ks)

Permᴰ-refl : (xs : List Entry) → Permᴰ xs xs
Permᴰ-refl [] = Permᴰ.nil
Permᴰ-refl (x ∷ xs) = Permᴰ.cons refl (Permᴰ-refl xs)

insert-Permᴰ : (e : Entry) (xs : List Entry) → Permᴰ (insert e xs) (e ∷ xs)
unfolding insert
insert-Permᴰ e [] = Permᴰ.cons refl Permᴰ.nil
insert-Permᴰ e (x ∷ xs) =
    choose (λ (l : List Entry). Permᴰ l (e ∷ x ∷ xs)) (before e x) (e ∷ x ∷ xs) (x ∷ insert e xs)
      (λ h. Permᴰ.cons refl (Permᴰ.cons refl (Permᴰ-refl xs)))
      (λ h. Permᴰ.trans (Permᴰ.cons refl (insert-Permᴰ e xs)) (Permᴰ.swap refl refl))

sort-Permᴰ : (xs : List Entry) → Permᴰ (sort xs) xs
unfolding sort
sort-Permᴰ [] = Permᴰ.nil
sort-Permᴰ (x ∷ xs) = Permᴰ.trans (insert-Permᴰ x (sort xs)) (Permᴰ.cons refl (sort-Permᴰ xs))

All-insert :
    (P : Entry → Type 0) (e : Entry) (xs : List Entry) → P e → All P xs → All P (insert e xs)
unfolding insert
All-insert P e [] p ps = (p, tt)
All-insert P e (x ∷ xs) p (q, qs) =
    choose (All P) (before e x) (e ∷ x ∷ xs) (x ∷ insert e xs) (λ h. (p, (q, qs)))
      (λ h. (q, All-insert P e xs p qs))

insert-Sorted : (e : Entry) (xs : List Entry) → Sorted xs → Sorted (insert e xs)
unfolding insert
insert-Sorted e [] s = (tt, tt)
insert-Sorted e (x ∷ xs) (h, s) =
    choose Sorted (before e x) (e ∷ x ∷ xs) (x ∷ insert e xs)
      (λ k. ((before→Before e x k, All-Before e x xs (before→Before e x k) h), (h, s)))
      (λ k. (All-insert (Before x) e xs (not-before→Before e x k) h, insert-Sorted e xs s))

pub sort-Sorted : (xs : List Entry) → Sorted (sort xs)
unfolding sort
sort-Sorted [] = tt
sort-Sorted (x ∷ xs) = insert-Sorted x (sort xs) (sort-Sorted xs)

pop-Sorted :
    (l : List Entry) (p : Dict.Dict BuildRequest) → Sorted l → Sorted (pop_first l p).1.queue
unfolding pop_first
pop-Sorted [] p s = tt
pop-Sorted (e ∷ rest) p s = s.1

fail-Sorted :
    (now : ℕ) (id : String) (q : BuildQueue) → Sorted q.queue → Sorted (fail now id q).queue
unfolding fail push complete
fail-Sorted now id q s =
    choose_some (λ (q' : BuildQueue). Sorted q'.queue) (Dict.get q.processing id) (complete id q)
      (λ r. push now (lowered r) (complete id q)) (λ h. s) (λ r h. sort-Sorted _)

-- The queue is in order after any operations.
Reachable-Sorted : (q : BuildQueue) → Reachable q → Sorted q.queue
unfolding push complete
Reachable-Sorted _ Reachable.started = tt
Reachable-Sorted _ (Reachable.pushed {q} now r h) = sort-Sorted _
Reachable-Sorted _ (Reachable.popped {q} h) = pop-Sorted q.queue q.processing (Reachable-Sorted q h)
Reachable-Sorted _ (Reachable.completed {q} id h) = Reachable-Sorted q h
Reachable-Sorted _ (Reachable.failed {q} now id h) = fail-Sorted now id q (Reachable-Sorted q h)

-- A queue is empty and answers nothing, or what is taken is an entry of it that none of the rest comes
-- before.
abbrev pub TakesFirst :
    List Entry → Dict.Dict BuildRequest → Option BuildRequest × BuildQueue → Type 0
TakesFirst l p (r, q) =
    ((l ≡ []) × (r ≡ none) × (q ≡ record { queue = []; processing = p }))
    ⊎ ((e : Entry) × Permᴰ l (e ∷ q.queue)
        × All (Before e) q.queue
        × (r ≡ some e.request)
        × (q.processing ≡ Dict.put p e.request.request_id e.request))

pop_first-TakesFirst :
    (l : List Entry) (p : Dict.Dict BuildRequest) → Sorted l → TakesFirst l p (pop_first l p)
unfolding pop_first
pop_first-TakesFirst [] p s = inl (refl, refl, refl)
pop_first-TakesFirst (e ∷ rest) p s = inr (e, Permᴰ-refl (e ∷ rest), s.0, refl, refl)

-- After any pushes, pops, completions and failures, pop takes an entry with the least priority
-- number, and the earliest of these, which then is in processing; it answers nothing only if the
-- queue is empty.
pub pop-TakesFirst : (q : BuildQueue) → Reachable q → TakesFirst q.queue q.processing (pop q)
pop-TakesFirst q h = pop_first-TakesFirst q.queue q.processing (Reachable-Sorted q h)
