-- ===== src/Builder/Queue/Steps.antt =====
-- builder/queue.py: the runs of a queue, as sequences of its operations.
use cpip.Common.{ℕ, String}
use cpip.Builder.Queue.{BuildRequest, BuildQueue, empty_queue, push, pop, complete, fail}

-- The queues that the operations make of the empty one, in any order and with any arguments.
pub data Reachable : BuildQueue → Type 0 where
  started : Reachable empty_queue
  pushed : {q : BuildQueue} (now : ℕ) (r : BuildRequest) → Reachable q → Reachable (push now r q)
  popped : {q : BuildQueue} → Reachable q → Reachable (pop q).1
  completed : {q : BuildQueue} (id : String) → Reachable q → Reachable (complete id q)
  failed : {q : BuildQueue} (now : ℕ) (id : String) → Reachable q → Reachable (fail now id q)
