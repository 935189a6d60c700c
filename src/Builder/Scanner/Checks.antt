-- ===== src/Builder/Scanner/Checks.antt =====
-- builder/scanner.py: what the loop over the names adds to a result.
use cpip.Common.{
  ◌≡◌, refl, ◌∙◌, sym, ap, Bool, true, false, not, ◌&&◌, List, [], ◌∷◌, ◌++◌, ltb, if◌then◌else◌,
  arith,
}
use mathlib.Core.List.{append_assoc, append-nil}
use cpip.Builder.Scanner.{
  Issue, ScanResult, ZipInfo, is_traversal, is_script, limit, getinfo, add_issue, check_name,
  check_names,
}

-- The issues of one entry, whatever was found before.
abbrev issues_of : List ZipInfo → ZipInfo → List Issue
issues_of infos i =
    (if is_traversal i.filename then Issue.path_traversal i.filename ∷ [] else [])
    ++ (if is_script i.filename then Issue.script_file i.filename ∷ [] else [])
    ++ (if ltb limit (getinfo infos i).file_size
        then Issue.oversized_file i.filename (getinfo infos i).file_size ∷ []
        else [])

abbrev pub all_issues : List ZipInfo → List ZipInfo → List Issue
all_issues infos [] = []
all_issues infos (i ∷ rest) = issues_of infos i ++ all_issues infos rest

abbrev pub none_traverses : List ZipInfo → Bool
none_traverses [] = true
none_traverses (i ∷ rest) = not (is_traversal i.filename) && none_traverses rest

and_assoc : (a b c : Bool) → ((a && b) && c) ≡ (a && (b && c))
and_assoc a b c = ground arith

-- The three tests of a name, on any outcomes.
issues_by_tests :
    (t s o : Bool) (x y z : Issue) (r : ScanResult)
    → (add_issue o z (
        add_issue s y
          (if t then record r { clean = false; issues = r.issues ++ x ∷ [] } else r))).issues
      ≡ r.issues
        ++ ((if t then x ∷ [] else []) ++ (if s then y ∷ [] else []) ++ (if o then z ∷ [] else []))
issues_by_tests false false false x y z r = sym (append-nil r.issues)
issues_by_tests false false true x y z r = refl
issues_by_tests false true false x y z r = refl
issues_by_tests false true true x y z r = append_assoc r.issues (y ∷ []) (z ∷ [])
issues_by_tests true false false x y z r = refl
issues_by_tests true false true x y z r = append_assoc r.issues (x ∷ []) (z ∷ [])
issues_by_tests true true false x y z r = append_assoc r.issues (x ∷ []) (y ∷ [])
issues_by_tests true true true x y z r =
    append_assoc (r.issues ++ x ∷ []) (y ∷ []) (z ∷ [])
    ∙ append_assoc r.issues (x ∷ []) (y ∷ z ∷ [])

check_name-issues :
    (infos : List ZipInfo) (i : ZipInfo) (r : ScanResult)
    → (check_name infos i r).issues ≡ r.issues ++ issues_of infos i
unfolding check_name
check_name-issues infos i r =
    issues_by_tests (is_traversal i.filename) (is_script i.filename)
      (ltb limit (getinfo infos i).file_size) (Issue.path_traversal i.filename)
      (Issue.script_file i.filename) (Issue.oversized_file i.filename (getinfo infos i).file_size) r

check_name-clean :
    (infos : List ZipInfo) (i : ZipInfo) (r : ScanResult)
    → (check_name infos i r).clean ≡ (r.clean && not (is_traversal i.filename))
unfolding check_name
check_name-clean infos i r = ground arith

pub check_names-issues :
    (infos rest : List ZipInfo) (r : ScanResult)
    → (check_names infos rest r).issues ≡ r.issues ++ all_issues infos rest
unfolding check_names
check_names-issues infos [] r = sym (append-nil r.issues)
check_names-issues infos (i ∷ rest) r =
    check_names-issues infos rest (check_name infos i r)
    ∙ ap (λ (l : List Issue). l ++ all_issues infos rest) (check_name-issues infos i r)
    ∙ append_assoc r.issues (issues_of infos i) (all_issues infos rest)

pub check_names-clean :
    (infos rest : List ZipInfo) (r : ScanResult)
    → (check_names infos rest r).clean ≡ (r.clean && none_traverses rest)
unfolding check_names
check_names-clean infos [] r = ground arith
check_names-clean infos (i ∷ rest) r =
    check_names-clean infos rest (check_name infos i r)
    ∙ ap (λ (b : Bool). b && none_traverses rest) (check_name-clean infos i r)
    ∙ and_assoc r.clean (not (is_traversal i.filename)) (none_traverses rest)
