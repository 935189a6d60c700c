-- ===== src/Builder/Worker/Rounds.antt =====
-- builder/worker.py: what becomes of the requests.
use mathlib.Core.Path.{subst}
use cpip.Common.{
  ℕ, ◌≤◌, ◌≡◌, refl, sym, ◌∙◌, ap, inl, inr, String, Bool, true, false, none, some, List, [], ◌∷◌,
  if◌then◌else◌, arith, length, Option-cases, choose_some, eq_refl, nil_of_length,
}
use cpip.Common.Dict
use cpip.Builder.Queue.{Entry, BuildRequest, BuildQueue, pop, pop_first, complete, fail}
use cpip.Builder.Queue.Conservation.{Run, held, held_once}
use cpip.Builder.Scanner.{scan_wheel}
use cpip.Builder.Worker.{Tools, built, scan_and_sign, process_build, work_round, start}

-- The build of a request succeeds: it compiles to a wheel that is clean and can be signed.
abbrev pub signed : Tools → String → Bool
signed t path = elim (t.read_wheel path) [
  | none ↦ false
  | some w ↦ elim (t.sign_file path) [ none ↦ false | some signature ↦ (scan_wheel w).clean ]
]

abbrev pub passes : Tools → BuildRequest → Bool
passes t req = elim (t.compile req) [
  | none ↦ false
  | some result ↦ elim (built result) [ none ↦ false | some path ↦ signed t path ]
]

scan_and_sign_lem :
    (t : Tools) (now : ℕ) (req : BuildRequest) (path : String) (q : BuildQueue)
    → scan_and_sign t now req path q
      ≡ (if signed t path then complete req.request_id q else fail now req.request_id q)
unfolding scan_and_sign
scan_and_sign_lem t now req path q = ground arith

-- A processed build is complete if it passes, and has failed otherwise, on every branch.
pub process_build_lem :
    (t : Tools) (now : ℕ) (req : BuildRequest) (q : BuildQueue)
    → process_build t now req q
      ≡ (if passes t req then complete req.request_id q else fail now req.request_id q)
unfolding process_build
process_build_lem t now req q = elim (Option-cases (t.compile req)) [
  | inl e ↦ ground (arith, e)
  | inr (result, e) ↦ elim (Option-cases (built result)) [
    | inl f ↦ ground (arith, e, f)
    | inr (path, f) ↦ ground (arith, e, f, scan_and_sign_lem t now req path q)
  ]
]

if-Run : (b : Bool) (q q' : BuildQueue) → Run q → Run q' → Run (if b then q else q')
if-Run true q q' h h' = h
if-Run false q q' h h' = h'

process_build-Run :
    (t : Tools) (now : ℕ) (req : BuildRequest) (q : BuildQueue)
    → Run q
    → Run (process_build t now req q)
process_build-Run t now req q h = subst Run (sym (process_build_lem t now req q)) (
    if-Run (passes t req) (complete req.request_id q) (fail now req.request_id q)
      (Run.completed req.request_id h) (Run.failed now req.request_id h))

work_round-Run : (t : Tools) (now : ℕ) (q : BuildQueue) → Run q → Run (work_round t now q)
unfolding work_round
work_round-Run t now q h =
    choose_some Run (pop q).0 (pop q).1 (λ req. process_build t now req (pop q).1)
      (λ e. Run.popped h) (λ req e. process_build-Run t now req (pop q).1 (Run.popped h))

work_round-held :
    (t : Tools) (now : ℕ) (q : BuildQueue) (id : String)
    → ((req : BuildRequest) → passes t req ≡ false)
    → Run q
    → held id (work_round t now q) ≡ held id q
unfolding work_round
work_round-held t now q id never h =
    choose_some (λ (q' : BuildQueue). held id q' ≡ held id q) (pop q).0 (pop q).1
      (λ req. process_build t now req (pop q).1) (λ e. (held_once q id h).1)
      (λ req e.
        ap (held id) (process_build_lem t now req (pop q).1)
        ∙ ap
            (λ (b : Bool).
              held id (
                if b then complete req.request_id (pop q).1 else fail now req.request_id (pop q).1))
            (never req)
        ∙ (held_once (pop q).1 id (Run.popped h)).2 now req.request_id
        ∙ (held_once q id h).1)

-- While no build passes, no request is given up: however long the worker runs, each is held as often
-- as before.
pub held-start :
    (t : Tools) (times : List ℕ) (q : BuildQueue) (id : String)
    → ((req : BuildRequest) → passes t req ≡ false)
    → Run q
    → held id (start t times q) ≡ held id q
unfolding start
held-start t [] q id never h = refl
held-start t (now ∷ times) q id never h =
    held-start t times (work_round t now q) id never (work_round-Run t now q h)
    ∙ work_round-held t now q id never h

complete-pop_first :
    (e : Entry) (rest : List Entry)
    → complete e.request.request_id (pop_first (e ∷ rest) []).1
      ≡ record { queue = rest; processing = [] }
unfolding pop_first complete Dict.put Dict.remove
complete-pop_first e rest = ground (arith, eq_refl e.request.request_id)

round_takes :
    (t : Tools) (now : ℕ) (l : List Entry)
    → ((req : BuildRequest) → passes t req ≡ true)
    → work_round t now (record { queue = l; processing = [] })
      ≡ record { queue = elim l [ [] ↦ [] | e ∷ rest ↦ rest ]; processing = [] }
unfolding work_round pop_first
round_takes t now [] always = refl
round_takes t now (e ∷ rest) always =
    process_build_lem t now e.request (pop_first (e ∷ rest) []).1
    ∙ ap
        (λ (b : Bool).
          if b
          then complete e.request.request_id (pop_first (e ∷ rest) []).1
          else fail now e.request.request_id (pop_first (e ∷ rest) []).1)
        (always e.request)
    ∙ complete-pop_first e rest

-- If every build passes, a worker that runs for as many rounds as requests wait empties the queue,
-- and has none left in processing.
pub start_drains :
    (t : Tools) (times : List ℕ) (l : List Entry)
    → ((req : BuildRequest) → passes t req ≡ true)
    → length l ≤ length times
    → start t times (record { queue = l; processing = [] }) ≡ record { queue = []; processing = [] }
unfolding start
start_drains t [] l always h =
    ap (λ (l' : List Entry). record { queue = l'; processing = [] }) (nil_of_length l h)
start_drains t (now ∷ times) [] always h =
    ap (start t times) (round_takes t now [] always) ∙ start_drains t times [] always (omega arith)
start_drains t (now ∷ times) (e ∷ rest) always h =
    ap (start t times) (round_takes t now (e ∷ rest) always)
    ∙ start_drains t times rest always (omega arith)
