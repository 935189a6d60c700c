-- ===== src/Builder/Scanner/Names.antt =====
-- builder/scanner.py: which names the tests of a scan find.
use Prim.Native.String.{◌++◌ as ◌<>◌}
use text.Mathlib.Text.{starts_with}
use text.Mathlib.TextEquality.{starts_with_iff}
use text.Mathlib.TextLemmas.{nil-append, cons-append}
use cpip.Common.{
  ◌≡◌, refl, sym, ap, ◌∙◌, ◌⊎◌, inl, inr, String, Bool, true, false, ◌||◌, ◌==◌, eq_iff, eq_refl,
  arith,
}
use cpip.Builder.Scanner.{contains, ends_with, is_traversal, is_script}

abbrev pub EndsWith : String → String → Type 0
EndsWith s t = (u : String) × (s ≡ u <> t)

abbrev pub Contains : String → String → Type 0
Contains s t = (u v : String) × (s ≡ u <> (t <> v))

-- A name that starts with a slash, or has two dots in a row.
abbrev pub Traverses : String → Type 0
Traverses name = ((t : String) × (name ≡ "/" <> t)) ⊎ Contains name ".."

abbrev pub Script : String → Type 0
Script name =
    EndsWith name ".sh" ⊎ (EndsWith name ".bat" ⊎ (EndsWith name ".cmd" ⊎ EndsWith name ".ps1"))

or_cases : (a b : Bool) → (a || b) ≡ true → (a ≡ true) ⊎ (b ≡ true)
or_cases true b h = inl refl
or_cases false b h = inr h

or_left : (a b : Bool) → a ≡ true → (a || b) ≡ true
or_left a b h = ground (arith, h)

or_right : (a b : Bool) → b ≡ true → (a || b) ≡ true
or_right a b h = ground (arith, h)

ends_with-EndsWith : (s t : String) → ends_with s t ≡ true → EndsWith s t
unfolding ends_with
ends_with-EndsWith String.[] t h = ("", (eq_iff "" t).0 h ∙ sym (nil-append t))
ends_with-EndsWith (String.◌∷◌ c s) t h = elim (or_cases (String.◌∷◌ c s == t) (ends_with s t) h) [
  | inl e ↦ ("", (eq_iff (String.◌∷◌ c s) t).0 e ∙ sym (nil-append t))
  | inr e ↦
      let (u, same) = ends_with-EndsWith s t e in
      (String.◌∷◌ c u, ap (String.◌∷◌ c) same ∙ sym (cons-append c u t))
]

ends_with_self : (t : String) → ends_with t t ≡ true
unfolding ends_with
ends_with_self String.[] = refl
ends_with_self (String.◌∷◌ c t) =
    or_left (String.◌∷◌ c t == String.◌∷◌ c t) (ends_with t (String.◌∷◌ c t))
      (eq_refl (String.◌∷◌ c t))

ends_with-append : (u t : String) → ends_with (u <> t) t ≡ true
unfolding ends_with
ends_with-append String.[] t = ap (λ (s : String). ends_with s t) (nil-append t) ∙ ends_with_self t
ends_with-append (String.◌∷◌ c u) t =
    ap (λ (s : String). ends_with s t) (cons-append c u t)
    ∙ or_right (String.◌∷◌ c (u <> t) == t) (ends_with (u <> t) t) (ends_with-append u t)

starts_with-Contains : (s t : String) → starts_with s t ≡ true → Contains s t
starts_with-Contains s t h =
    let (v, same) = (starts_with_iff s t).0 h in ("", v, sym same ∙ sym (nil-append (t <> v)))

contains-Contains : (s t : String) → contains s t ≡ true → Contains s t
unfolding contains
contains-Contains String.[] t h = starts_with-Contains "" t h
contains-Contains (String.◌∷◌ c s) t h =
    elim (or_cases (starts_with (String.◌∷◌ c s) t) (contains s t) h) [
      | inl e ↦ starts_with-Contains (String.◌∷◌ c s) t e
      | inr e ↦
          let (u, v, same) = contains-Contains s t e in
          (String.◌∷◌ c u, v, ap (String.◌∷◌ c) same ∙ sym (cons-append c u (t <> v)))
    ]

starts_with-contains : (s t : String) → starts_with s t ≡ true → contains s t ≡ true
unfolding contains
starts_with-contains String.[] t h = h
starts_with-contains (String.◌∷◌ c s) t h =
    or_left (starts_with (String.◌∷◌ c s) t) (contains s t) h

contains-append : (u t v : String) → contains (u <> (t <> v)) t ≡ true
unfolding contains
contains-append String.[] t v =
    ap (λ (s : String). contains s t) (nil-append (t <> v))
    ∙ starts_with-contains (t <> v) t ((starts_with_iff (t <> v) t).1 (v, refl))
contains-append (String.◌∷◌ c u) t v =
    ap (λ (s : String). contains s t) (cons-append c u (t <> v))
    ∙ or_right (starts_with (String.◌∷◌ c (u <> (t <> v))) t) (contains (u <> (t <> v)) t)
        (contains-append u t v)

EndsWith-ends_with : (s t : String) → EndsWith s t → ends_with s t ≡ true
EndsWith-ends_with s t (u, same) = ap (λ (r : String). ends_with r t) same ∙ ends_with-append u t

-- The tests decide what they are meant to.
pub is_traversal-Traverses : (name : String) → is_traversal name ≡ true → Traverses name
unfolding is_traversal
is_traversal-Traverses name h = elim (or_cases (starts_with name "/") (contains name "..") h) [
  | inl e ↦ let (t, same) = (starts_with_iff name "/").0 e in inl (t, sym same)
  | inr e ↦ inr (contains-Contains name ".." e)
]

pub Traverses-is_traversal : (name : String) → Traverses name → is_traversal name ≡ true
unfolding is_traversal
Traverses-is_traversal name (inl (t, same)) =
    or_left (starts_with name "/") (contains name "..") ((starts_with_iff name "/").1 (t, sym same))
Traverses-is_traversal name (inr (u, v, same)) =
    or_right (starts_with name "/") (contains name "..")
      (ap (λ (s : String). contains s "..") same ∙ contains-append u ".." v)

pub is_script-Script : (name : String) → is_script name ≡ true → Script name
unfolding is_script
is_script-Script name h = elim (or_cases _ (ends_with name ".ps1") h) [
  | inr e ↦ inr (inr (inr (ends_with-EndsWith name ".ps1" e)))
  | inl r ↦ elim (or_cases _ (ends_with name ".cmd") r) [
    | inr e ↦ inr (inr (inl (ends_with-EndsWith name ".cmd" e)))
    | inl q ↦ elim (or_cases (ends_with name ".sh") (ends_with name ".bat") q) [
      | inl e ↦ inl (ends_with-EndsWith name ".sh" e)
      | inr e ↦ inr (inl (ends_with-EndsWith name ".bat" e))
    ]
  ]
]

pub Script-is_script : (name : String) → Script name → is_script name ≡ true
unfolding is_script
Script-is_script name (inl e) = ground (arith, EndsWith-ends_with name ".sh" e)
Script-is_script name (inr (inl e)) = ground (arith, EndsWith-ends_with name ".bat" e)
Script-is_script name (inr (inr (inl e))) = ground (arith, EndsWith-ends_with name ".cmd" e)
Script-is_script name (inr (inr (inr e))) = ground (arith, EndsWith-ends_with name ".ps1" e)
