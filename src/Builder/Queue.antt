-- ===== src/Builder/Queue.antt =====
-- builder/queue.py: the queue of build requests. Readings of the clock are arguments. `priority` is a
-- natural number (shared/models.py has 1 to 10), and a request stands in one place at a time, so that
-- the change of its priority in `fail` is seen nowhere else.
pub mod Steps
pub mod Ordering
pub mod Conservation
use cpip.Common.{
  ℕ, ◌+◌, min, String, Bool, true, false, Option, none, some, List, [], ◌∷◌, ◌++◌, ltb, eqb, leb,
  length, ◌&&◌, ◌||◌, if◌then◌else◌,
}
use cpip.Common.Dict
use cpip.Common.Dict.{Dict}

-- `BuildRequest` of shared/models.py: what the builder reads of it.
pub record BuildRequest : Type 0 where
  pub request_id : String
  pub package_name : String
  pub package_version : String
  pub target_architecture : String
  pub python_version : String
  pub priority : ℕ

-- A tuple of the queue.
pub record Entry : Type 0 where
  pub priority : ℕ
  pub timestamp : ℕ
  pub request : BuildRequest

pub record BuildQueue : Type 0 where
  pub queue : List Entry
  pub processing : Dict BuildRequest

abbrev pub empty_queue : BuildQueue
empty_queue = record { queue = []; processing = [] }

-- `(a[0], a[1]) <= (b[0], b[1])`
abbrev pub before : Entry → Entry → Bool
before a b = ltb a.priority b.priority || (eqb a.priority b.priority && leb a.timestamp b.timestamp)

-- `list.sort` is a stable sort: an entry goes before the first that its key is not above.
unfoldable pub insert : Entry → List Entry → List Entry
insert e [] = e ∷ []
insert e (x ∷ xs) =
    let rest = insert e xs in elim (before e x) [ true ↦ e ∷ x ∷ xs | false ↦ x ∷ rest ]

unfoldable pub sort : List Entry → List Entry
sort [] = []
sort (x ∷ xs) = insert x (sort xs)

unfoldable pub push : ℕ → BuildRequest → BuildQueue → BuildQueue
push now request q = record q {
  queue =
      sort (
        q.queue ++ record { priority = request.priority; timestamp = now; request = request } ∷ []);
}

-- `pop`, by the entries of the queue.
unfoldable pub pop_first : List Entry → Dict BuildRequest → Option BuildRequest × BuildQueue
pop_first [] processing = (none, record { queue = []; processing = processing })
pop_first (e ∷ rest) processing = (
  some e.request,
  record { queue = rest; processing = Dict.put processing e.request.request_id e.request },
)

abbrev pub pop : BuildQueue → Option BuildRequest × BuildQueue
pop q = pop_first q.queue q.processing

unfoldable pub complete : String → BuildQueue → BuildQueue
complete request_id q = record q { processing = Dict.remove q.processing request_id }

abbrev pub lowered : BuildRequest → BuildRequest
lowered r = record r { priority = min (r.priority + 1) 10 }

unfoldable pub fail : ℕ → String → BuildQueue → BuildQueue
fail now request_id q = elim (Dict.get q.processing request_id) [
  | none ↦ complete request_id q
  | some r ↦ push now (lowered r) (complete request_id q)
]

abbrev pub size : BuildQueue → ℕ
size q = length q.queue

abbrev pub processing_count : BuildQueue → ℕ
processing_count q = length q.processing
