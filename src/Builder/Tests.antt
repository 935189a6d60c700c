-- ===== src/Builder/Tests.antt =====
-- Runs of builder/: two requests, a wheel with a name that climbs out, and builds that pass or fail.
use cpip.Common.{
  ℕ, ◌≤◌, ◌≡◌, refl, String, true, false, some, List, [], ◌∷◌, map, arith, if◌then◌else◌, ◌==◌,
}
use cpip.Common.Dict
use cpip.Builder.Queue.{
  Entry, BuildRequest, BuildQueue, empty_queue, push, pop, pop_first, complete, fail, insert, sort,
}
use cpip.Builder.Queue.Steps.{Reachable}
use cpip.Builder.Queue.Ordering.{TakesFirst, pop-TakesFirst}
use cpip.Builder.Queue.Conservation.{Run, held, held_once, waiting}
use cpip.Builder.Scanner.{
  Issue, ZipInfo, Wheel, is_traversal, is_script, contains, ends_with, getinfo, check_name,
  check_names, scan_wheel,
}
use cpip.Builder.Scanner.Issues.{Scanned, scan_wheel-Scanned}
use cpip.Builder.Worker.{Tools, process_build, scan_and_sign, work_round, start}
use cpip.Builder.Worker.Rounds.{passes, start_drains}

program : Unit {0}
unfolding push pop_first complete fail insert sort contains ends_with is_traversal is_script getinfo
    check_name check_names scan_wheel process_build scan_and_sign work_round start Dict.get Dict.put
    Dict.remove
program = tt

abbrev request : String → ℕ → BuildRequest
request id priority = record {
  request_id = id;
  package_name = "numpy";
  package_version = "latest";
  target_architecture = "aarch64";
  python_version = "3.11";
  priority = priority;
}

abbrev slow : BuildRequest
slow = request "a" 9

abbrev urgent : BuildRequest
urgent = request "b" 1

abbrev two : BuildQueue
two = push 2 urgent (push 1 slow empty_queue)

test_pop : (pop two).0 ≡ some urgent
unfolding program
test_pop = refl

abbrev priorities : BuildQueue → List ℕ
priorities q = map (λ (e : Entry). e.priority) q.queue

-- A build that fails twice has priority 10, not 11.
test_fail : priorities (fail 4 "a" (pop (fail 3 "a" (pop (push 1 slow empty_queue)).1)).1) ≡ 10 ∷ []
unfolding program
test_fail = refl

abbrev wheel : List ZipInfo → Wheel
wheel infos = record { name = "numpy.whl"; digest = "c0de"; zip = some infos }

abbrev bad : Wheel
bad = wheel (
    record { filename = "../etc/passwd"; file_size = 10 }
    ∷ record { filename = "setup.sh"; file_size = 600_000_000 }
    ∷ [])

abbrev good : Wheel
good = wheel (record { filename = "numpy/init.py"; file_size = 10 } ∷ [])

test_scan :
    (scan_wheel bad).issues
    ≡ Issue.path_traversal "../etc/passwd"
      ∷ Issue.script_file "setup.sh"
      ∷ Issue.oversized_file "setup.sh" 600_000_000
      ∷ []
unfolding program
test_scan = refl

test_clean : (scan_wheel good).clean ≡ true
unfolding program
test_clean = refl

abbrev tools : Wheel → Tools
tools w = record {
  compile = λ req. some (record { success = true; wheel_path = some "/tmp/cpip-builds/numpy.whl" });
  read_wheel = λ path. some w;
  sign_file = λ path. some "signature";
}

two-Reachable : Reachable two
two-Reachable = Reachable.pushed 2 urgent (Reachable.pushed 1 slow Reachable.started)

two-Run : Run two
unfolding program
two-Run = Run.pushed 2 urgent refl (Run.pushed 1 slow refl Run.started)

passes-good : (req : BuildRequest) → passes (tools good) req ≡ true
unfolding program
passes-good req = refl

passes-bad : (req : BuildRequest) → passes (tools bad) req ≡ false
unfolding program
passes-bad req = refl

pop-TakesFirst_example : TakesFirst two.queue two.processing (pop two)
pop-TakesFirst_example = pop-TakesFirst two two-Reachable

held_once_example :
    (held "a" two ≤ 1)
    × (held "a" (pop two).1 ≡ held "a" two)
    × ((now : ℕ) (j : String) → held "a" (fail now j two) ≡ held "a" two)
    × ((j : String)
        → held "a" (complete j two) ≡ (if j == "a" then waiting "a" two.queue else held "a" two))
held_once_example = held_once two "a" two-Run

scan_wheel-Scanned_example : Scanned bad (scan_wheel bad).clean (scan_wheel bad).issues
scan_wheel-Scanned_example = scan_wheel-Scanned bad

start_drains_example : start (tools good) (5 ∷ 6 ∷ []) two ≡ empty_queue
unfolding program
start_drains_example = start_drains (tools good) (5 ∷ 6 ∷ []) two.queue passes-good (omega arith)
