-- ===== src/Virtualization/Linker/Activation.antt =====
-- virtualization/linker.py: the search path after the linker is activated.
use Prim.Native.Char.{Char, code}
use Prim.Native.String.{◌++◌ as ◌<>◌}
use text.Mathlib.TextLemmas.{nil-append, cons-append}
use cpip.Common.{
  ◌≡◌, refl, ap, ◌∙◌, inl, inr, Bool-cases, String, Bool, false, not, ◌&&◌, ◌||◌, List, [], ◌∷◌,
  ◌==◌, eqb, select, All, All-select, arith, eq_iff, eq_refl,
}
use cpip.Common.Dict
use cpip.Common.Dict.{Dict, get-put}
use cpip.Virtualization.Linker.{
  DynamicLinker, prepend, split_colon, join_colon, search_path, current_path, configure_env,
  activate,
}

abbrev pub has_colon : String → Bool
has_colon String.[] = false
has_colon (String.◌∷◌ c s) = eqb (code c) b':' || has_colon s

abbrev Colonless : String → Type 0
Colonless s = has_colon s ≡ false

prepend-Colonless :
    (c : Char) (ps : List String)
    → eqb (code c) b':' ≡ false
    → All Colonless ps
    → All Colonless (prepend c ps)
prepend-Colonless c [] h a = (ground (arith, h), tt)
prepend-Colonless c (p ∷ ps) h a = (ground (arith, h, a.0), a.1)

split_colon-Colonless : (s : String) → All Colonless (split_colon s)
unfolding split_colon
split_colon-Colonless String.[] = (refl, tt)
split_colon-Colonless (String.◌∷◌ c s) = elim (Bool-cases (eqb (code c) b':')) [
  | inl e ↦ ground (arith, e, split_colon-Colonless s)
  | inr e ↦ ground (arith, e, prepend-Colonless c (split_colon s) e (split_colon-Colonless s))
]

split_colon-one : (p : String) → Colonless p → split_colon p ≡ p ∷ []
unfolding split_colon
split_colon-one String.[] h = refl
split_colon-one (String.◌∷◌ c s) h = ground (arith, split_colon-one s, h)

split_colon-append :
    (p s : String) → Colonless p → split_colon (p <> (":" <> s)) ≡ p ∷ split_colon s
unfolding split_colon
split_colon-append String.[] s h = ap split_colon (
    nil-append (":" <> s)
    ∙ cons-append _ String.[] s
    ∙ ap (λ (t : String). String.◌∷◌ ":" t) (nil-append s))
split_colon-append (String.◌∷◌ c p) s h =
    ap split_colon (cons-append c p (":" <> s)) ∙ ground (arith, split_colon-append p s, h)

split_colon-join_colon :
    (p : String) (ps : List String)
    → All Colonless (p ∷ ps)
    → split_colon (join_colon (p ∷ ps)) ≡ p ∷ ps
unfolding join_colon
split_colon-join_colon p [] a = split_colon-one p a.0
split_colon-join_colon p (q ∷ ps) a =
    split_colon-append p (join_colon (q ∷ ps)) a.0
    ∙ ap (λ (l : List String). p ∷ l) (split_colon-join_colon q ps a.1)

select_idem :
    (keep : String → Bool) (ps : List String) → select keep (select keep ps) ≡ select keep ps
select_idem keep [] = refl
select_idem keep (p ∷ ps) = elim (Bool-cases (keep p)) [
  | inl e ↦ ground (arith, e, select_idem keep ps)
  | inr e ↦ ground (arith, e, select_idem keep ps)
]

abbrev other : String → String → Bool
other lib_path p = not (p == "") && not (p == lib_path)

search_path_split :
    (lib_path current : String)
    → has_colon lib_path ≡ false
    → split_colon (join_colon (search_path lib_path current)) ≡ search_path lib_path current
search_path_split lib_path current h =
    split_colon-join_colon lib_path (select (other lib_path) (split_colon current)) (
      h,
      All-select Colonless (other lib_path) (split_colon current) (split_colon-Colonless current),
    )

search_path_idem :
    (lib_path current : String)
    → has_colon lib_path ≡ false
    → search_path lib_path (join_colon (search_path lib_path current))
      ≡ search_path lib_path current
search_path_idem lib_path current h =
    ap (λ (ps : List String). lib_path ∷ select (other lib_path) ps)
      (search_path_split lib_path current h)
    ∙ ap (λ (ps : List String). lib_path ∷ ps)
        (ground (arith, eq_refl lib_path) ∙ select_idem (other lib_path) (split_colon current))

put_idem : (d : Dict String) (k v : String) → Dict.put (Dict.put d k v) k v ≡ Dict.put d k v
unfolding Dict.put
put_idem [] k v = ground (arith, eq_refl k)
put_idem ((j, w) ∷ d) k v = ground (arith, eq_iff j k, eq_refl j, put_idem d k v)

current-activate :
    (l : DynamicLinker) (environ : Dict String)
    → current_path (activate l environ) ≡ join_colon (search_path l.lib_dir (current_path environ))
unfolding activate configure_env Dict.get
current-activate l environ = ground (
  arith,
  eq_refl "LD_LIBRARY_PATH",
  get-put environ "LD_LIBRARY_PATH" "LD_LIBRARY_PATH"
      (join_colon (search_path l.lib_dir (current_path environ))),
)

-- After an activation the search path is the directory of the linker, followed by the paths that stood
-- there and are neither empty nor that directory, in their order; another activation changes nothing.
-- The directory has no colon in its name.
pub activate_lem :
    (l : DynamicLinker) (environ : Dict String)
    → has_colon l.lib_dir ≡ false
    → (split_colon (current_path (activate l environ))
        ≡ search_path l.lib_dir (current_path environ))
      × (activate l (activate l environ) ≡ activate l environ)
unfolding activate configure_env Dict.get
activate_lem l environ h = (
  ap split_colon (current-activate l environ)
      ∙ search_path_split l.lib_dir (current_path environ) h,
  ap
        (λ (s : String).
          Dict.put (activate l environ) "LD_LIBRARY_PATH" (join_colon (search_path l.lib_dir s)))
        (current-activate l environ)
      ∙ ap (λ (ps : List String). Dict.put (activate l environ) "LD_LIBRARY_PATH" (join_colon ps))
          (search_path_idem l.lib_dir (current_path environ) h)
      ∙ put_idem environ "LD_LIBRARY_PATH"
          (join_colon (search_path l.lib_dir (current_path environ))),
)
