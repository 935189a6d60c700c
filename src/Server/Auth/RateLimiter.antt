-- ===== src/Server/Auth/RateLimiter.antt =====
-- server/auth/rate_limiter.py: a sliding window of the times of the accepted requests, for each client.
pub mod Pruning
pub mod Window
pub mod Bound
mod Tests
use Prim.Native.Char.{Char, code}
use Prim.Native.String.{◌++◌}
use mathlib.Core.Option.{get_or}
use cpip.Common.{
  ℕ, ◌+◌, ◌-◌, String, Bool, true, false, ◌&&◌, ◌||◌, not, Option, none, some, List, [], ◌∷◌,
  ◌++◌ as append, ltb, leb, eqb, ◌==◌, length, select, seconds, if◌then◌else◌,
}
use cpip.Common.Dict
use cpip.Common.Dict.{Dict}

-- What the limiter reads of a request: the header `x-forwarded-for`, and the host of the client.
pub record Request : Type 0 where
  pub forwarded : Option String
  pub host : Option String

pub record RateLimit : Type 0 where
  pub requests : ℕ
  pub window_seconds : ℕ

abbrev pub Windows : Type 0
Windows = Dict (List ℕ)

-- `text.split(",")[0]`
unfoldable pub before_comma : String → String
before_comma String.[] = ""
before_comma (String.◌∷◌ c s) =
    let rest = before_comma s in elim (eqb (code c) b',') [ true ↦ "" | false ↦ String.◌∷◌ c rest ]

-- Python's white space.
abbrev is_space : Char → Bool
is_space c =
    let n = code c in
    (leb 9 n && leb n 13)
    || (leb 28 n && leb n 32)
    || eqb n 0x85
    || eqb n 0xa0
    || eqb n 0x1680
    || (leb 0x2000 n && leb n 0x200a)
    || (leb 0x2028 n && leb n 0x2029)
    || eqb n 0x202f
    || eqb n 0x205f
    || eqb n 0x3000

unfoldable pub strip_left : String → String
strip_left String.[] = ""
strip_left (String.◌∷◌ c s) =
    let rest = strip_left s in elim (is_space c) [ true ↦ rest | false ↦ String.◌∷◌ c s ]

unfoldable pub strip_right : String → String
strip_right String.[] = ""
strip_right (String.◌∷◌ c s) =
    let rest = strip_right s in
    elim (is_space c && rest == "") [ true ↦ "" | false ↦ String.◌∷◌ c rest ]

-- `_client_key`
unfoldable pub client_key : Option Request → String
unfolding before_comma strip_left strip_right
client_key none = "rate:unknown"
client_key (some r) =
    let address = get_or r.host "unknown" in
    "rate:" ++ elim r.forwarded [
      | none ↦ address
      | some f ↦ if f == "" then address else strip_right (strip_left (before_comma f))
    ]

-- `t > now - window_seconds`
abbrev pub is_recent : ℕ → ℕ → ℕ → Bool
is_recent window now t = ltb now (t + seconds window)

-- `self._windows[key]` of the defaultdict
abbrev pub window : Windows → String → List ℕ
window ws key = get_or (Dict.get ws key) []

-- `not times or all(t <= window_start for t in times)`
unfoldable pub all_old : ℕ → ℕ → List ℕ → Bool
all_old w now [] = true
all_old w now (t ∷ times) = not (is_recent w now t) && all_old w now times

-- The loop that drops the clients with no recent request.
unfoldable pub prune_loop : ℕ → ℕ → List String → Windows → Windows
prune_loop w now [] ws = ws
prune_loop w now (k ∷ keys) ws =
    prune_loop w now keys (if all_old w now (window ws k) then Dict.remove ws k else ws)

unfoldable pub prune : ℕ → ℕ → Windows → Windows
prune w now ws = if ltb 1000 (length ws) then prune_loop w now (Dict.keys ws) ws else ws

-- The windows when `check` comes to compare: the client's old times are gone, and maybe some clients.
unfoldable pub cleaned : ℕ → ℕ → String → Windows → Windows
cleaned w now key ws = prune w now (Dict.put ws key (select (is_recent w now) (window ws key)))

-- `check` past its first line, for the client with that key.
unfoldable pub check_key : RateLimit → ℕ → String → Windows → Bool × Windows
check_key limit now key ws =
    let ws' = cleaned limit.window_seconds now key ws in
    let times = window ws' key in
    if leb limit.requests (length times)
    then (false, Dict.put ws' key times)
    else (true, Dict.put ws' key (append times (now ∷ [])))

unfoldable pub check : Option Request → RateLimit → ℕ → Windows → Bool × Windows
check none limit now ws = (true, ws)
check (some r) limit now ws = check_key limit now (client_key (some r)) ws

-- `max(0, limit.requests - current)`
unfoldable pub remaining : Option Request → RateLimit → ℕ → Windows → ℕ
remaining none limit now ws = limit.requests
remaining (some r) limit now ws =
    limit.requests
    - length (select (is_recent limit.window_seconds now) (window ws (client_key (some r))))

-- The answer of `check_rate_limit`: no error, or status 429 with its `Retry-After`.
pub data Answer : Type 0 where
  pass : Answer
  too_many_requests : ℕ → Answer

unfoldable pub check_rate_limit : Option Request → RateLimit → ℕ → Windows → Answer × Windows
check_rate_limit none limit now ws = (pass, ws)
check_rate_limit (some r) limit now ws =
    let (allowed, ws') = check (some r) limit now ws in
    (if allowed then pass else too_many_requests limit.window_seconds, ws')

abbrev pub default_limit : RateLimit
default_limit = record { requests = 100; window_seconds = 60 }

abbrev pub build_limit : RateLimit
build_limit = record { requests = 10; window_seconds = 60 }

abbrev pub exec_limit : RateLimit
exec_limit = record { requests = 50; window_seconds = 60 }
