-- ===== src/Virtualization/Linker.antt =====
-- virtualization/linker.py: the directory of shared libraries and the search path of the dynamic
-- linker, of class DynamicLinker. The programs patchelf and ldd are not run.
pub mod Activation
mod Tests
use Prim.Native.Char.{Char, code}
use Prim.Native.String.{◌++◌ as ◌<>◌}
use cpip.Common.{
  ℕ, String, Bool, true, false, not, ◌&&◌, Option, some, none, List, [], ◌∷◌, ◌==◌, eqb,
  if◌then◌else◌, select,
}
use cpip.Common.Dict
use cpip.Common.Dict.{Dict}
use cpip.Files.{join}

pub record DynamicLinker : Type 0 where
  pub lib_dir : String
  pub files : Dict (List ℕ)
  pub modes : Dict ℕ
  pub loaded : Dict (Unit {0})

-- The file is made executable, and its name added to the set of the loaded ones.
unfoldable pub install_so : String → List ℕ → DynamicLinker → String × DynamicLinker
install_so name content l = (
  join l.lib_dir name,
  record l {
    files = Dict.put l.files name content;
    modes = Dict.put l.modes name 0o755;
    loaded = Dict.put l.loaded name tt;
  },
)

unfoldable pub get_so_path : String → DynamicLinker → Option String
get_so_path name l = elim (Dict.get l.files name) [
  | some _ ↦ some (join l.lib_dir name)
  | none ↦ none
]

abbrev pub prepend : Char → List String → List String
prepend c [] = String.◌∷◌ c String.[] ∷ []
prepend c (p ∷ ps) = String.◌∷◌ c p ∷ ps

-- `s.split(":")`
unfoldable pub split_colon : String → List String
split_colon String.[] = String.[] ∷ []
split_colon (String.◌∷◌ c s) =
    let rest = split_colon s in if eqb (code c) b':' then String.[] ∷ rest else prepend c rest

-- `":".join(ps)`
unfoldable pub join_colon : List String → String
join_colon [] = ""
join_colon (p ∷ []) = p
join_colon (p ∷ q ∷ ps) = p <> (":" <> join_colon (q ∷ ps))

-- `[lib_path] + [p for p in current.split(":") if p and p != lib_path]`
abbrev pub search_path : String → String → List String
search_path lib_path current =
    lib_path ∷ select (λ (p : String). not (p == "") && not (p == lib_path)) (split_colon current)

abbrev pub current_path : Dict String → String
current_path environ = elim (Dict.get environ "LD_LIBRARY_PATH") [ some v ↦ v | none ↦ "" ]

unfoldable pub configure_env : Dict String → DynamicLinker → Dict String
configure_env environ l =
    ("LD_LIBRARY_PATH", join_colon (search_path l.lib_dir (current_path environ))) ∷ []

-- The environment of the process after `activate`.
unfoldable pub activate : DynamicLinker → Dict String → Dict String
activate l environ = Dict.put environ "LD_LIBRARY_PATH" (current_path (configure_env environ l))
