-- ===== src/Builder/Worker.antt =====
-- builder/worker.py: a worker takes builds from the queue. The compiler and the signer are parameters,
-- and so are the wheels on the disk, which the scanner reads. A build's clock reading is an argument.
-- The log is not modelled.
pub mod Rounds
use cpip.Common.{
  ℕ, String, Bool, true, false, not, ◌&&◌, Option, none, some, List, [], ◌∷◌, ◌==◌, if◌then◌else◌,
}
use cpip.Builder.Queue.{BuildRequest, BuildQueue, pop, complete, fail}
use cpip.Builder.Scanner.{ScanResult, Wheel, scan_wheel}

-- `CompileResult` of builder/compiler.py, as far as the worker reads it.
pub record CompileResult : Type 0 where
  pub success : Bool
  pub wheel_path : Option String

-- A call that raises answers `none`.
pub record Tools : Type 0 where
  pub compile : BuildRequest → Option CompileResult
  pub read_wheel : String → Option Wheel
  pub sign_file : String → Option String

unfoldable pub scan_and_sign : Tools → ℕ → BuildRequest → String → BuildQueue → BuildQueue
scan_and_sign t now req path q = elim (t.read_wheel path) [
  | none ↦ fail now req.request_id q
  | some w ↦
      if not (scan_wheel w).clean then fail now req.request_id q else (elim (t.sign_file path) [
        | none ↦ fail now req.request_id q
        | some signature ↦ complete req.request_id q
      ])
]

-- `result.success and result.wheel_path`
abbrev pub built : CompileResult → Option String
built result = elim result.wheel_path [
  | none ↦ none
  | some path ↦ if result.success && not (path == "") then some path else none
]

unfoldable pub process_build : Tools → ℕ → BuildRequest → BuildQueue → BuildQueue
process_build t now req q = elim (t.compile req) [
  | none ↦ fail now req.request_id q
  | some result ↦ elim (built result) [
    | none ↦ fail now req.request_id q
    | some path ↦ scan_and_sign t now req path q
  ]
]

-- A round of `start` while the worker runs; with nothing to do it sleeps.
unfoldable pub work_round : Tools → ℕ → BuildQueue → BuildQueue
work_round t now q = elim (pop q).0 [
  | none ↦ (pop q).1
  | some req ↦ process_build t now req (pop q).1
]

-- `start`, up to its stop: one round for each reading of the clock.
unfoldable pub start : Tools → List ℕ → BuildQueue → BuildQueue
start t [] q = q
start t (now ∷ times) q = start t times (work_round t now q)
