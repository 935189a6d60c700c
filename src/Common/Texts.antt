-- ===== src/Common/Texts.antt =====
-- Python's `s.split(".")` and `".".join(parts)`.
use Prim.Native.Char.{Char, code}
use Prim.Native.String.{String, ◌++◌}
use mathlib.Core.Path.{◌≡◌, refl, ap, ◌∙◌}
use mathlib.Core.Bool.{Bool, true, false}
use mathlib.Core.List.{List, [], ◌∷◌}
use text.Mathlib.TextLemmas.{nil-append, cons-append}
use cpip.Common.Tests.{eqb}

abbrev pub is_dot : Char → Bool
is_dot c = eqb (code c) b'.'

abbrev pub before_first : Char → List String → List String
before_first c [] = String.◌∷◌ c "" ∷ []
before_first c (p ∷ ps) = String.◌∷◌ c p ∷ ps

-- A character that ends a part, or begins the first of the others.
abbrev pub cut : Bool → Char → List String → List String
cut true c rest = "" ∷ rest
cut false c rest = before_first c rest

unfoldable pub split_dots : String → List String
split_dots String.[] = "" ∷ []
split_dots (String.◌∷◌ c s) = cut (is_dot c) c (split_dots s)

abbrev pub join_dots : String → List String → String
join_dots s [] = s
join_dots s (p ∷ ps) = s ++ ("." ++ join_dots p ps)

-- A text without a dot.
abbrev pub NoDot : String → Type 0
NoDot String.[] = Unit
NoDot (String.◌∷◌ c s) = (is_dot c ≡ false) × NoDot s

abbrev pub NoDots : List String → Type 0
NoDots [] = Unit
NoDots (p ∷ ps) = NoDot p × NoDots ps

split_dots-append : (a s : String) → NoDot a → split_dots (a ++ ("." ++ s)) ≡ a ∷ split_dots s
unfolding split_dots
split_dots-append String.[] s h =
    rw (nil-append ("." ++ s))
      (ap split_dots (cons-append "." "" s ∙ ap (String.◌∷◌ ".") (nil-append s)))
split_dots-append (String.◌∷◌ c a) s h =
    ap split_dots (cons-append c a ("." ++ s)) ∙ rw (h.0, split_dots-append a s h.1) refl

split_dots_one : (a : String) → NoDot a → split_dots a ≡ a ∷ []
unfolding split_dots
split_dots_one String.[] h = refl
split_dots_one (String.◌∷◌ c a) h = rw (h.0, split_dots_one a h.1) refl

-- Parts that hold no dot are found again.
pub split_dots-join_dots :
    (p : String) (ps : List String) → NoDot p → NoDots ps → split_dots (join_dots p ps) ≡ p ∷ ps
split_dots-join_dots p [] h hs = split_dots_one p h
split_dots-join_dots p (q ∷ ps) h hs =
    split_dots-append p (join_dots q ps) h ∙ ap (λ xs. p ∷ xs) (split_dots-join_dots q ps hs.0 hs.1)
