-- ===== src/Virtualization/Loader.antt =====
-- virtualization/loader.py: LazyModule, LazyFinder and LazyLoader. An object is a number; what fetches
-- a package is a parameter.
pub mod Reads
mod Tests
use Prim.Native.Char.{code}
use text.Mathlib.Text.{starts_with}
use cpip.Common.{
  ℕ, ◌+◌, String, Bool, true, false, Option, some, none, List, [], ◌∷◌, ◌==◌, eqb, if◌then◌else◌,
}
use cpip.Common.Dict
use cpip.Common.Dict.{Dict}

-- The attributes of a module.
abbrev pub Attributes : Type 0
Attributes = Dict ℕ

-- What `fetch_func(name)` does: it returns a module or None, or raises.
pub data Fetched : Type 0 where
  module_with : Attributes → Fetched
  nothing : Fetched
  raises : Fetched

-- `attributes` is `__dict__`; `fetches` counts the calls of the function.
pub record LazyModule : Type 0 where
  pub name : String
  pub attributes : Attributes
  pub fetch_func : Option (String → Fetched)
  pub loaded : Bool
  pub real_module : Option Attributes
  pub fetches : ℕ

-- The answer to a read of an attribute.
pub data Answer : Type 0 where
  value : ℕ → Answer
  attribute_error : Answer
  fetch_error : Answer

-- Whether the function raised, and the module after it. It counts as loaded before the call.
abbrev pub after_fetch : Fetched → LazyModule → Bool × LazyModule
after_fetch (Fetched.module_with attrs) m =
    (true, record m { real_module = some attrs; attributes = Dict.update attrs m.attributes })
after_fetch Fetched.nothing m = (true, m)
after_fetch Fetched.raises m = (false, m)

unfoldable pub ensure_loaded : LazyModule → Bool × LazyModule
ensure_loaded m = if m.loaded then (true, m) else elim m.fetch_func [
  | none ↦ (true, record m { loaded = true })
  | some fetch ↦ after_fetch (fetch m.name) (record m { loaded = true; fetches = m.fetches + 1 })
]

abbrev pub found : Option ℕ → Answer
found (some v) = Answer.value v
found none = Answer.attribute_error

abbrev pub from_real : String → LazyModule → Answer
from_real name m = elim m.real_module [
  | some attrs ↦ found (Dict.get attrs name)
  | none ↦ Answer.attribute_error
]

-- `__getattr__`, which Python calls for a name that `__dict__` does not have.
unfoldable pub getattr : String → LazyModule → Answer × LazyModule
getattr name m =
    if starts_with name "_"
    then (Answer.attribute_error, m)
    else let (fine, after) = ensure_loaded m in
      (if fine then from_real name after else Answer.fetch_error, after)

-- `module.name`
unfoldable pub read : String → LazyModule → Answer × LazyModule
read name m = elim (Dict.get m.attributes name) [
  | some v ↦ (Answer.value v, m)
  | none ↦ getattr name m
]

-- The module after several reads.
abbrev pub read_all : List String → LazyModule → LazyModule
read_all [] m = m
read_all (name ∷ names) m = read_all names (read name m).1

-- `fullname.split(".")[0]`
unfoldable pub top_name : String → String
top_name String.[] = String.[]
top_name (String.◌∷◌ c s) =
    let rest = top_name s in if eqb (code c) b'.' then String.[] else String.◌∷◌ c rest

pub record ModuleSpec : Type 0 where
  pub name : String
  pub is_package : Bool

-- The registry of LazyFinder: its keys, and the function under `fetch_func`.
pub record LazyRegistry : Type 0 where
  pub packages : Dict ℕ
  pub fetch_func : Option (String → Fetched)

unfoldable pub find_spec : LazyRegistry → String → Option ModuleSpec
find_spec registry fullname = elim (Dict.get registry.packages (top_name fullname)) [
  | none ↦ none
  | some _ ↦ some (record { name = fullname; is_package = fullname == top_name fullname })
]

-- `create_module`; `own` are the entries that every module object has.
unfoldable pub create_module : LazyRegistry → Attributes → ModuleSpec → LazyModule
create_module registry own spec = record {
  name = spec.name;
  attributes = own;
  fetch_func = registry.fetch_func;
  loaded = false;
  real_module = none;
  fetches = 0;
}
