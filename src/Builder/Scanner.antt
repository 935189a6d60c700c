-- ===== src/Builder/Scanner.antt =====
-- builder/scanner.py: the scan of a built wheel. A wheel is what is read of it: the name and the
-- digest of its file and, if it is a zip file, the names and sizes of its entries.
pub mod Names
pub mod Checks
pub mod Issues
use text.Mathlib.Text.{starts_with}
use cpip.Common.{
  ℕ, ◌+◌, ◌-◌, ◌*◌, ◌≡◌, refl, ◌∙◌, sym, ap, ap₂, String, Bool, true, false, not, ◌||◌, ◌&&◌,
  Option, none, some, List, [], ◌∷◌, ◌++◌, map, length, ltb, ◌==◌, if◌then◌else◌, arith,
  Option-cases, inl, inr,
}
use mathlib.Core.List.{append_assoc, append-nil}

-- The texts of the issues, by their kind.
pub data Issue : Type 0 where
  not_a_zip : Issue
  path_traversal script_file : String → Issue
  oversized_file : String → ℕ → Issue

pub record ScanResult : Type 0 where
  pub pkg : String
  pub clean : Bool
  pub issues : List Issue
  pub sha256 : String
  pub file_count : ℕ
  pub total_size : ℕ

pub record ZipInfo : Type 0 where
  pub filename : String
  pub file_size : ℕ

pub record Wheel : Type 0 where
  pub name : String
  pub digest : String
  pub zip : Option (List ZipInfo)

-- `t in s` and `s.endswith(t)`.
unfoldable pub contains : String → String → Bool
contains String.[] t = starts_with "" t
contains (String.◌∷◌ c s) t = starts_with (String.◌∷◌ c s) t || contains s t

unfoldable pub ends_with : String → String → Bool
ends_with String.[] t = "" == t
ends_with (String.◌∷◌ c s) t = (String.◌∷◌ c s == t) || ends_with s t

unfoldable pub is_traversal : String → Bool
is_traversal name = starts_with name "/" || contains name ".."

unfoldable pub is_script : String → Bool
is_script name =
    ends_with name ".sh" || ends_with name ".bat" || ends_with name ".cmd" || ends_with name ".ps1"

-- `zf.getinfo(name)`: of entries with one name, the last.
unfoldable pub getinfo : List ZipInfo → ZipInfo → ZipInfo
getinfo [] found = found
getinfo (i ∷ infos) found = getinfo infos (if i.filename == found.filename then i else found)

abbrev pub sizes : List ZipInfo → ℕ
sizes [] = 0
sizes (i ∷ infos) = i.file_size + sizes infos

abbrev pub add_issue : Bool → Issue → ScanResult → ScanResult
add_issue found issue r = if found then record r { issues = r.issues ++ issue ∷ [] } else r

abbrev pub limit : ℕ
limit = 500 * 1024 * 1024

-- One name of the loop.
unfoldable pub check_name : List ZipInfo → ZipInfo → ScanResult → ScanResult
check_name infos i r =
    let info = getinfo infos i in
    let r₁ =
      (if is_traversal i.filename
        then record r { clean = false; issues = r.issues ++ Issue.path_traversal i.filename ∷ [] }
        else r) in
    let r₂ = add_issue (is_script i.filename) (Issue.script_file i.filename) r₁ in
    add_issue (ltb limit info.file_size) (Issue.oversized_file i.filename info.file_size) r₂

unfoldable pub check_names : List ZipInfo → List ZipInfo → ScanResult → ScanResult
check_names infos [] r = r
check_names infos (i ∷ rest) r = check_names infos rest (check_name infos i r)

abbrev pub new_result : Wheel → ScanResult
new_result w = record {
  pkg = w.name;
  clean = true;
  issues = [];
  sha256 = w.digest;
  file_count = 0;
  total_size = 0;
}

abbrev pub counted : Wheel → List ZipInfo → ScanResult
counted w infos = record (new_result w) { file_count = length infos; total_size = sizes infos }

unfoldable pub scan_wheel : Wheel → ScanResult
scan_wheel w = elim w.zip [
  | none ↦ record (new_result w) { clean = false; issues = Issue.not_a_zip ∷ [] }
  | some infos ↦ check_names infos infos (counted w infos)
]
