-- ===== src/Runtime/Hooks/Importing.antt =====
-- runtime/hooks.py: what is imported while the finder is on the path. The step of Python's import
-- system: a module that is there already, or else that of the first finder that has one. The parents of
-- a dotted name are imported before it, by the same step.
use cpip.Common.{
  ◌≡◌, refl, inl, inr, Option-cases, String, Bool, Option, some, none, List, [], ◌∷◌, if◌then◌else◌,
  select,
}
use cpip.Common.Dict
use cpip.Common.Dict.{get-put}
use cpip.Shared.Json.{Json}
use cpip.Runtime.Hooks.{
  Module, proxy, ordinary, Finder, cpip_finder, other_finder, is_other, Hooks, top_level, find_spec,
  create_module, exec_module, deactivate_hooks,
}

-- Whether another finder has a module of a name.
abbrev pub Others : Type 0
Others = String → String → Bool

abbrev pub search : Others → String → Hooks → List Finder → Option Module
search others name h [] = none
search others name h (cpip_finder config ∷ fs) =
    let rest = search others name h fs in
    elim (find_spec config name h) [ some spec ↦ some (proxy (create_module spec)) | none ↦ rest ]
search others name h (other_finder f ∷ fs) =
    let rest = search others name h fs in if others f name then some (ordinary f) else rest

abbrev pub initialized : String → Option Module → Hooks → Option Module × Hooks
initialized name none h = (none, h)
initialized name (some m) h =
    (some (exec_module m), record h { modules = Dict.put h.modules name (exec_module m) })

unfoldable pub import_module : Others → String → Hooks → Option Module × Hooks
import_module others name h = elim (Dict.get h.modules name) [
  | some m ↦ (some m, h)
  | none ↦ initialized name (search others name h h.meta_path) h
]

abbrev pub import_all : Others → List String → Hooks → Hooks
import_all others [] h = h
import_all others (name ∷ names) h = import_all others names (import_module others name h).1

pub import_absent :
    (others : Others) (name : String) (h : Hooks)
    → Dict.get h.modules name ≡ none
    → import_module others name h ≡ initialized name (search others name h h.meta_path) h
unfolding import_module
import_absent others name h e = rw (import_module, e) refl

pub import_there :
    (others : Others) (name : String) (m : Module) (h : Hooks)
    → Dict.get h.modules name ≡ some m
    → import_module others name h ≡ (some m, h)
unfolding import_module
import_there others name m h e = rw (import_module, e) refl

find_spec_unregistered :
    (config : Json) (name : String) (h : Hooks)
    → Dict.get h.cloud_packages (top_level name) ≡ none
    → find_spec config name h ≡ none
unfolding find_spec
find_spec_unregistered config name h e = rw (find_spec, e) refl

search-select :
    (others : Others) (name : String) (h : Hooks) (fs : List Finder)
    → Dict.get h.cloud_packages (top_level name) ≡ none
    → search others name h fs ≡ search others name (deactivate_hooks h) (select is_other fs)
search-select others name h [] e = refl
search-select others name h (cpip_finder config ∷ fs) e =
    rw (search, find_spec_unregistered config name h e) (search-select others name h fs e)
search-select others name h (other_finder f ∷ fs) e = rw (search-select others name h fs e) refl

abbrev Same : Option Module × Hooks → Option Module × Hooks → Type 0
Same a b = (a.0 ≡ b.0) × (a.1.modules ≡ b.1.modules)

initialized-deactivate_hooks :
    (name : String) (o : Option Module) (h : Hooks)
    → Same (initialized name o h) (initialized name o (deactivate_hooks h))
unfolding deactivate_hooks
initialized-deactivate_hooks name none h = (refl, refl)
initialized-deactivate_hooks name (some m) h = (refl, refl)

-- What belongs to no registered package is imported as if the hooks were not active.
pub import_module-deactivate_hooks :
    (others : Others) (name : String) (h : Hooks)
    → Dict.get h.cloud_packages (top_level name) ≡ none
    → let (m, after) = import_module others name h in
      let (m0, after0) = import_module others name (deactivate_hooks h) in
      (m ≡ m0) × (after.modules ≡ after0.modules)
unfolding deactivate_hooks
import_module-deactivate_hooks others name h e = elim (Option-cases (Dict.get h.modules name)) [
  | inl absent ↦
      rw
        (
          import_absent others name h absent,
          import_absent others name (deactivate_hooks h) absent,
          search-select others name h h.meta_path e,
        )
        (initialized-deactivate_hooks name
          (search others name (deactivate_hooks h) (select is_other h.meta_path)) h)
  | inr (m, there) ↦
      rw (import_there others name m h there, import_there others name m (deactivate_hooks h) there)
        (refl, refl)
]
