-- ===== src/Builder/Scanner/Issues.antt =====
-- builder/scanner.py: what a scan finds.
use mathlib.Core.Path.{subst}
use cpip.Common.{
  ℕ, ◌<◌, ◌*◌, ◌≢◌, ◌⊎◌, String, All, some, Bool-cases, eq_iff, ◌==◌, ◌≡◌, refl, ◌∙◌, sym, ap, Bool,
  true, false, none, some, List, [], ◌∷◌, ◌++◌, ltb, if◌then◌else◌, arith, Option-cases, inl, inr,
}
use cpip.Builder.Scanner.Names.{
  Traverses, Script, is_traversal-Traverses, Traverses-is_traversal, is_script-Script,
  Script-is_script,
}
use cpip.Builder.Scanner.{
  Issue, ZipInfo, Wheel, is_traversal, is_script, limit, getinfo, scan_wheel, counted,
}
use cpip.Builder.Scanner.Checks.{all_issues, none_traverses, check_names-issues, check_names-clean}

-- The issue that a test reports, if what it looks for is so.
pub data Reports (P : Type 0) (x : Issue) : List Issue → Type 0 where
  reported : P → Reports P x (x ∷ [])
  silent : ¬ P → Reports P x []

-- The last entry of a name, which is the one that is read under it, has this size.
abbrev pub LastSize : List ZipInfo → String → ℕ → Type 0
LastSize infos name size =
    (before after : List ZipInfo) × (i : ZipInfo) × (infos ≡ before ++ (i ∷ after))
    × (i.filename ≡ name)
    × (i.file_size ≡ size)
    × All (λ (x : ZipInfo). x.filename ≢ name) after

-- The issues of the entries, in their order.
pub data Found (infos : List ZipInfo) : List ZipInfo → List Issue → Type 0 where
  nothing : Found infos [] []
  entry :
      {i : ZipInfo} {rest : List ZipInfo} {later : List Issue} (size : ℕ) (ts ss os : List Issue)
      → LastSize infos i.filename size
      → Reports (Traverses i.filename) (Issue.path_traversal i.filename) ts
      → Reports (Script i.filename) (Issue.script_file i.filename) ss
      → Reports (500 * 1024 * 1024 < size) (Issue.oversized_file i.filename size) os
      → Found infos rest later
      → Found infos (i ∷ rest) ((ts ++ ss ++ os) ++ later)

-- What a scan answers: whether the wheel is clean, and the issues.
pub data Scanned (w : Wheel) : Bool → List Issue → Type 0 where
  not_a_zip : w.zip ≡ none → Scanned w false (Issue.not_a_zip ∷ [])
  safe :
      (infos : List ZipInfo) (issues : List Issue)
      → w.zip ≡ some infos
      → All (λ (i : ZipInfo). ¬ Traverses i.filename) infos
      → Found infos infos issues
      → Scanned w true issues
  traversing :
      (before after : List ZipInfo) (i : ZipInfo) (issues : List Issue)
      → w.zip ≡ some (before ++ (i ∷ after))
      → Traverses i.filename
      → Found (before ++ (i ∷ after)) (before ++ (i ∷ after)) issues
      → Scanned w false issues

Reports-if :
    (P : Type 0) (x : Issue) (b : Bool)
    → (b ≡ true → P)
    → (P → b ≡ true)
    → Reports P x (if b then x ∷ [] else [])
Reports-if P x true holds tested = Reports.reported (holds refl)
Reports-if P x false holds tested = Reports.silent (λ p. cc (tested p))

last-cons :
    (i : ZipInfo) (infos : List ZipInfo) (name : String) (size : ℕ)
    → LastSize infos name size
    → LastSize (i ∷ infos) name size
last-cons i infos name size (before, after, x, same, named, sized, rest) =
    (i ∷ before, after, x, ap (λ (l : List ZipInfo). i ∷ l) same, named, sized, rest)

-- Either no entry has the name, or its last one is found.
abbrev LastOrNone : List ZipInfo → String → ZipInfo → ZipInfo → Type 0
LastOrNone infos name old new =
    (All (λ (x : ZipInfo). x.filename ≢ name) infos × (new ≡ old))
    ⊎ LastSize infos name new.file_size

getinfo-last :
    (infos : List ZipInfo) (old : ZipInfo) → LastOrNone infos old.filename old (getinfo infos old)
unfolding getinfo
getinfo-last [] old = inl (tt, refl)
getinfo-last (i ∷ infos) old = elim (Bool-cases (i.filename == old.filename)) [
  | inr e ↦
      subst (λ (x : ZipInfo). LastOrNone (i ∷ infos) old.filename old (getinfo infos x))
        (sym (ap (λ (b : Bool). if b then i else old) e))
        (elim (getinfo-last infos old) [
          | inl missing ↦ inl (
            (λ same. ground (arith, e, same, eq_iff i.filename old.filename), missing.0),
            missing.1,
          )
          | inr last ↦ inr (last-cons i infos old.filename (getinfo infos old).file_size last)
        ])
  | inl e ↦
      let name = (eq_iff i.filename old.filename).0 e in
      subst (λ (x : ZipInfo). LastOrNone (i ∷ infos) old.filename old (getinfo infos x))
        (sym (ap (λ (b : Bool). if b then i else old) e))
        (subst (λ (n : String). LastOrNone (i ∷ infos) n old (getinfo infos i)) name
          (elim (getinfo-last infos i) [
            | inl missing ↦ inr (
              [],
              infos,
              i,
              refl,
              refl,
              sym (ap (λ (x : ZipInfo). x.file_size) missing.1),
              missing.0,
            )
            | inr last ↦ inr (last-cons i infos i.filename (getinfo infos i).file_size last)
          ]))
]

-- All entries of a list are named by one of another.
abbrev Present : List ZipInfo → List ZipInfo → Type 0
Present infos rest =
    All (λ (i : ZipInfo). ¬ All (λ (x : ZipInfo). x.filename ≢ i.filename) infos) rest

Present-cons :
    (y : ZipInfo) (infos rest : List ZipInfo) → Present infos rest → Present (y ∷ infos) rest
Present-cons y infos [] p = tt
Present-cons y infos (i ∷ rest) p = (λ h. p.0 h.1, Present-cons y infos rest p.1)

Present-self : (infos : List ZipInfo) → Present infos infos
Present-self [] = tt
Present-self (i ∷ infos) = (λ h. h.0 refl, Present-cons i infos infos (Present-self infos))

all_issues-Found :
    (infos rest : List ZipInfo) → Present infos rest → Found infos rest (all_issues infos rest)
all_issues-Found infos [] p = Found.nothing
all_issues-Found infos (i ∷ rest) p = elim (getinfo-last infos i) [
  | inl none_named ↦ absurd (p.0 none_named.0)
  | inr last ↦
      let size = (getinfo infos i).file_size in
      Found.entry size _ _ _ last
        (Reports-if (Traverses i.filename) (Issue.path_traversal i.filename)
          (is_traversal i.filename) (is_traversal-Traverses i.filename)
          (Traverses-is_traversal i.filename))
        (Reports-if (Script i.filename) (Issue.script_file i.filename) (is_script i.filename)
          (is_script-Script i.filename) (Script-is_script i.filename))
        (Reports-if (500 * 1024 * 1024 < size) (Issue.oversized_file i.filename size)
          (ltb limit size) (λ h. ground (arith, h)) (λ h. ground (arith, h)))
        (all_issues-Found infos rest p.1)
]

none_traverses-All :
    (infos : List ZipInfo)
    → none_traverses infos ≡ true
    → All (λ (i : ZipInfo). ¬ Traverses i.filename) infos
none_traverses-All [] h = tt
none_traverses-All (i ∷ infos) h = (
  λ t. ground (arith, h, Traverses-is_traversal i.filename t),
  none_traverses-All infos (ground (arith, h)),
)

none_traverses-Traverses :
    (infos : List ZipInfo)
    → none_traverses infos ≡ false
    → (before after : List ZipInfo) × (i : ZipInfo) × (infos ≡ before ++ (i ∷ after))
      × Traverses i.filename
none_traverses-Traverses [] h = absurd (cc h)
none_traverses-Traverses (i ∷ infos) h = elim (Bool-cases (is_traversal i.filename)) [
  | inl e ↦ ([], infos, i, refl, is_traversal-Traverses i.filename e)
  | inr e ↦
      let (before, after, x, same, t) = none_traverses-Traverses infos (ground (arith, h, e)) in
      (i ∷ before, after, x, ap (λ (l : List ZipInfo). i ∷ l) same, t)
]

checked-Scanned :
    (w : Wheel) (infos : List ZipInfo) (b : Bool)
    → w.zip ≡ some infos
    → none_traverses infos ≡ b
    → Scanned w b (all_issues infos infos)
checked-Scanned w infos true z h =
    Scanned.safe infos (all_issues infos infos) z (none_traverses-All infos h)
      (all_issues-Found infos infos (Present-self infos))
checked-Scanned w infos false z h =
    let (before, after, i, same, t) = none_traverses-Traverses infos h in
    Scanned.traversing before after i (all_issues infos infos) (z ∙ ap some same) t (
      subst (λ (l : List ZipInfo). Found l l (all_issues infos infos)) same
        (all_issues-Found infos infos (Present-self infos)))

Scanned-as :
    (w : Wheel) (b : Bool) (issues : List Issue)
    → (scan_wheel w).clean ≡ b
    → (scan_wheel w).issues ≡ issues
    → Scanned w b issues
    → Scanned w (scan_wheel w).clean (scan_wheel w).issues
Scanned-as w b issues c e scanned =
    subst (λ (a : Bool). Scanned w a (scan_wheel w).issues) (sym c)
      (subst (λ (l : List Issue). Scanned w b l) (sym e) scanned)

-- A scanned wheel is clean exactly if it is a zip file with no name that starts with a slash or has two
-- dots in a row. Its issues are, entry by entry, the traversal of such a name, the script where the name
-- ends in .sh, .bat, .cmd or .ps1, and the size if the last entry of the name has more than 500 MB; or
-- one issue that it is no zip file.
pub scan_wheel-Scanned : (w : Wheel) → Scanned w (scan_wheel w).clean (scan_wheel w).issues
unfolding scan_wheel
scan_wheel-Scanned w = elim (Option-cases w.zip) [
  | inl e ↦
      Scanned-as w false (Issue.not_a_zip ∷ []) (ground (arith, e)) (ground (arith, e))
        (Scanned.not_a_zip e)
  | inr (infos, e) ↦
      Scanned-as w (none_traverses infos) (all_issues infos infos)
        (ground (arith, e, check_names-clean infos infos (counted w infos)))
        (ground (arith, e, check_names-issues infos infos (counted w infos)))
        (checked-Scanned w infos (none_traverses infos) e refl)
]
