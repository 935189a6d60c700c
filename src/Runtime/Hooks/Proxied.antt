-- ===== src/Runtime/Hooks/Proxied.antt =====
-- runtime/hooks.py: the imports of a registered package.
use cpip.Common.{
  ◌≡◌, refl, sym, ap, ◌∙◌, inl, inr, Bool-cases, Option-cases, String, Bool, true, false, Option,
  some, none, List, [], ◌∷◌, ◌==◌, eq_iff,
}
use cpip.Common.Dict
use cpip.Common.Dict.{get-put}
use cpip.Shared.Json.{Json}
use cpip.Runtime.Hooks.{
  Package, Module, proxy, ordinary, Finder, cpip_finder, Hooks, is_ordinary, top_level, find_spec,
  create_module, exec_module,
}
use cpip.Runtime.Hooks.Importing.{
  Others, search, initialized, import_module, import_all, import_absent, import_there,
}

-- No module of the package is one that another finder made.
abbrev pub AllProxies : String → Hooks → Type 0
AllProxies top h =
    (name : String) → top_level name ≡ top → is_ordinary (Dict.get h.modules name) ≡ false

find_spec_registered :
    (config : Json) (name : String) (info : Package) (h : Hooks)
    → Dict.get h.cloud_packages (top_level name) ≡ some info
    → is_ordinary (Dict.get h.modules (top_level name)) ≡ false
    → find_spec config name h
      ≡ some (record {
        name = name;
        config = config;
        info = info;
        is_package = name == top_level name;
      })
unfolding find_spec
find_spec_registered config name info h e o = rw (find_spec, e, o) refl

search_registered :
    (others : Others) (config : Json) (fs : List Finder) (name : String) (info : Package)
    (h : Hooks)
    → Dict.get h.cloud_packages (top_level name) ≡ some info
    → is_ordinary (Dict.get h.modules (top_level name)) ≡ false
    → search others name h (cpip_finder config ∷ fs)
      ≡ some (
          proxy (
            create_module (record {
              name = name;
              config = config;
              info = info;
              is_package = name == top_level name;
            })))
search_registered others config fs name info h e o =
    rw (search, find_spec_registered config name info h e o) refl

-- A module that is made by the finder of cpip.
abbrev pub made : String → Json → Package → Module
made name config info = exec_module (
    proxy (
      create_module (record {
        name = name;
        config = config;
        info = info;
        is_package = name == top_level name;
      })))

-- The step of an import, where the finder of cpip stands first.
import_registered :
    (others : Others) (config : Json) (fs : List Finder) (name : String) (info : Package)
    (h : Hooks)
    → h.meta_path ≡ cpip_finder config ∷ fs
    → Dict.get h.cloud_packages (top_level name) ≡ some info
    → is_ordinary (Dict.get h.modules (top_level name)) ≡ false
    → Dict.get h.modules name ≡ none
    → import_module others name h ≡ (
      some (made name config info),
      record h { modules = Dict.put h.modules name (made name config info) },
    )
import_registered others config fs name info h p e o absent =
    import_absent others name h absent
    ∙ (ap (λ (ps : List Finder). initialized name (search others name h ps) h) p
        ∙ ap (λ (m : Option Module). initialized name m h)
            (search_registered others config fs name info h e o))

abbrev pub is_proxy : Option Module → Bool
is_proxy (some (proxy p)) = true
is_proxy _ = false

proxy_cases : (m : Module) → is_ordinary (some m) ≡ false → is_proxy (some m) ≡ true
proxy_cases (proxy p) e = refl
proxy_cases (ordinary f) e = absurd (cc e)

-- The hooks are active, and their finder stands before all others.
abbrev pub Hooked : String → Json → List Finder → Package → Hooks → Type 0
Hooked top config fs info h =
    (h.meta_path ≡ cpip_finder config ∷ fs)
    × (Dict.get h.cloud_packages top ≡ some info)
    × AllProxies top h

module _ (others : Others) (top : String) (config : Json) (fs : List Finder) (info : Package)
    (simple : top_level top ≡ top) where
  import_own :
      (name : String) (h : Hooks)
      → top_level name ≡ top
      → Hooked top config fs info h
      → Dict.get h.modules name ≡ none
      → import_module others name h ≡ (
        some (made name config info),
        record h { modules = Dict.put h.modules name (made name config info) },
      )
  import_own name h own k absent =
      import_registered others config fs name info h k.0 (rw own k.1) (rw own (k.2 top simple))
        absent

  put-AllProxies :
      (name : String) (m : Module) (h : Hooks)
      → (top_level name ≡ top → is_ordinary (some m) ≡ false)
      → AllProxies top h
      → AllProxies top (record h { modules = Dict.put h.modules name m })
  put-AllProxies name m h own all key e = elim (Bool-cases (name == key)) [
    | inl same ↦
        rw (get-put h.modules name key m, same) (own (ap top_level ((eq_iff name key).0 same) ∙ e))
    | inr other ↦ rw (get-put h.modules name key m, other) (all key e)
  ]

  initialized-Hooked :
      (name : String) (o : Option Module) (h : Hooks)
      → (top_level name ≡ top → is_ordinary o ≡ false)
      → Hooked top config fs info h
      → Hooked top config fs info (initialized name o h).1
  initialized-Hooked name none h own k = k
  initialized-Hooked name (some (proxy p)) h own k =
      (k.0, k.1, put-AllProxies name (exec_module (proxy p)) h (λ _. refl) k.2)
  initialized-Hooked name (some (ordinary f)) h own k =
      (k.0, k.1, put-AllProxies name (ordinary f) h own k.2)

  search_own :
      (name : String) (h : Hooks)
      → Hooked top config fs info h
      → top_level name ≡ top
      → is_ordinary (search others name h h.meta_path) ≡ false
  search_own name h k own =
      ap (λ (ps : List Finder). is_ordinary (search others name h ps)) k.0
      ∙ ap is_ordinary
          (search_registered others config fs name info h (rw own k.1) (rw own (k.2 top simple)))

  import_module-Hooked :
      (name : String) (h : Hooks)
      → Hooked top config fs info h
      → Hooked top config fs info (import_module others name h).1
  import_module-Hooked name h k = elim (Option-cases (Dict.get h.modules name)) [
    | inl absent ↦
        rw (import_absent others name h absent)
          (initialized-Hooked name (search others name h h.meta_path) h (search_own name h k) k)
    | inr (m, there) ↦ rw (import_there others name m h there) k
  ]

  import_all-Hooked :
      (names : List String) (h : Hooks)
      → Hooked top config fs info h
      → Hooked top config fs info (import_all others names h)
  import_all-Hooked [] h k = k
  import_all-Hooked (name ∷ names) h k =
      import_all-Hooked names (import_module others name h).1 (import_module-Hooked name h k)

  import_proxy :
      (name : String) (h : Hooks)
      → Hooked top config fs info h
      → top_level name ≡ top
      → is_proxy (import_module others name h).0 ≡ true
  import_proxy name h k own = elim (Option-cases (Dict.get h.modules name)) [
    | inl absent ↦ rw (import_own name h own k absent) refl
    | inr (m, there) ↦
        rw (import_there others name m h there)
          (proxy_cases m (ap is_ordinary (sym there) ∙ k.2 name own))
  ]

  -- While the hooks are active, with their finder before all others, and nothing of a registered
  -- package was imported before from elsewhere: whatever is imported, each module of the package is a
  -- proxy, also if another finder has one of its name.
  pub import_all-proxy :
      (names : List String) (name : String) (h : Hooks)
      → Hooked top config fs info h
      → top_level name ≡ top
      → is_proxy (import_module others name (import_all others names h)).0 ≡ true
  import_all-proxy names name h k own =
      import_proxy name (import_all others names h) (import_all-Hooked names h k) own
