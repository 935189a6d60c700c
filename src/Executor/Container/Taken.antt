-- ===== src/Executor/Container/Taken.antt =====
-- executor/container.py: which container is taken from the warm ones.
use mathlib.Core.Path.{subst}
use mathlib.Core.Option.{some-injective}
use cpip.Common.{
  ℕ, suc, ◌+◌, ◌≡◌, ◌≢◌, refl, sym, ◌∙◌, String, Bool, true, false, Option, none, some, List, [],
  ◌∷◌, ◌++◌, arith, length, ◌==◌, if◌then◌else◌,
}
use cpip.Common.Dict
use cpip.Common.Dict.{Dict, get-put, get-remove}
use cpip.Executor.Container.{Container, ContainerPool, fits, take_fitting}

-- How often an id is among the warm containers, and among all that are warm or in use.
abbrev pub warm_count : String → List Container → ℕ
warm_count id [] = 0
warm_count id (c ∷ cs) = (if c.id == id then 1 else 0) + warm_count id cs

abbrev pub used : Option Container → ℕ
used none = 0
used (some c) = 1

abbrev pub count : String → ContainerPool → ℕ
count id p = warm_count id p.available + used (Dict.get p.in_use id)

pub warm_count-append :
    (id : String) (xs ys : List Container)
    → warm_count id (xs ++ ys) ≡ warm_count id xs + warm_count id ys
warm_count-append id [] ys = omega arith
warm_count-append id (x ∷ xs) ys = omega (arith, warm_count-append id xs ys)

-- What is taken is one of the warm containers and fits; the others stay.
abbrev pub Taken : String → Bool → List Container → Container × List Container → Type 0
Taken image gpu cs (c, rest) =
    (fits image gpu c ≡ true)
    × (length cs ≡ suc (length rest))
    × ((id : String) → warm_count id cs ≡ (if c.id == id then 1 else 0) + warm_count id rest)

abbrev or_later :
    Bool
    → Container
    → List Container
    → Option (Container × List Container)
    → Option (Container × List Container)
or_later true x xs later = some (x, xs)
or_later false x xs none = none
or_later false x xs (some found) = some (found.0, x ∷ found.1)

or_later-Taken :
    (image : String) (gpu : Bool) (x : Container) (xs : List Container) (b : Bool)
    (later : Option (Container × List Container)) (p : Container × List Container)
    → fits image gpu x ≡ b
    → ((q : Container × List Container) → later ≡ some q → Taken image gpu xs q)
    → or_later b x xs later ≡ some p
    → Taken image gpu (x ∷ xs) p
or_later-Taken image gpu x xs true later p f h e =
    subst (Taken image gpu (x ∷ xs)) (some-injective (x, xs) p e) (f, refl, λ id. refl)
or_later-Taken image gpu x xs false none p f h e = absurd (cc e)
or_later-Taken image gpu x xs false (some (c, cs)) p f h e =
    subst (Taken image gpu (x ∷ xs)) (some-injective (c, x ∷ cs) p e) (
      (h (c, cs) refl).0,
      omega (arith, (h (c, cs) refl).1),
      λ id. omega (arith, (h (c, cs) refl).2 id),
    )

take_fitting-or_later :
    (image : String) (gpu : Bool) (x : Container) (xs : List Container)
    → take_fitting image gpu (x ∷ xs) ≡ or_later (fits image gpu x) x xs (take_fitting image gpu xs)
unfolding take_fitting
take_fitting-or_later image gpu x xs = ground arith

take_fitting_nil :
    (image : String) (gpu : Bool) (p : Container × List Container)
    → take_fitting image gpu [] ≢ some p
unfolding take_fitting
take_fitting_nil image gpu p e = absurd (cc e)

pub take_fitting-Taken :
    (image : String) (gpu : Bool) (cs : List Container) (p : Container × List Container)
    → take_fitting image gpu cs ≡ some p
    → Taken image gpu cs p
take_fitting-Taken image gpu [] p e = absurd (take_fitting_nil image gpu p e)
take_fitting-Taken image gpu (x ∷ xs) p e =
    or_later-Taken image gpu x xs (fits image gpu x) (take_fitting image gpu xs) p refl
      (λ q k. take_fitting-Taken image gpu xs q k) (sym (take_fitting-or_later image gpu x xs) ∙ e)
