-- ===== src/Virtualization/Loader/Reads.antt =====
-- virtualization/loader.py: what the reads of a lazy module answer.
use text.Mathlib.Text.{starts_with}
use cpip.Common.{
  ◌≤◌, ◌≡◌, ap, ◌∙◌, choose_some, choose_if, ◌⊎◌, inl, inr, Option-cases, String, true, false, some,
  none, List, [], ◌∷◌, arith,
}
use cpip.Common.Dict
use cpip.Common.Dict.{Dict, Unique, get-update, or_in}
use cpip.Virtualization.Loader.{
  Attributes, Fetched, LazyModule, Answer, found, ensure_loaded, getattr, read, read_all,
}

-- The state of a module that has `attrs` to be fetched, over the attributes `own` it has at first.
pub record Lazy (own attrs : Attributes) (m : LazyModule) : Type 0 where
  pub fetch :
      (fetch : String → Fetched) × (m.fetch_func ≡ some fetch)
      × (fetch m.name ≡ Fetched.module_with attrs)
  pub state :
      ((m.loaded ≡ false) × (m.attributes ≡ own) × (m.fetches ≡ 0))
      ⊎ ((m.loaded ≡ true)
          × (m.attributes ≡ Dict.update attrs own)
          × (m.real_module ≡ some attrs)
          × (m.fetches ≡ 1))

ensure_loaded-Lazy :
    (own attrs : Attributes) (m : LazyModule)
    → Lazy own attrs m
    → ((ensure_loaded m).0 ≡ true)
      × ((ensure_loaded m).1.real_module ≡ some attrs)
      × ((ensure_loaded m).1.loaded ≡ true)
      × ((ensure_loaded m).1.attributes ≡ Dict.update attrs own)
      × ((ensure_loaded m).1.fetches ≡ 1)
      × ((ensure_loaded m).1.fetch_func ≡ m.fetch_func)
      × ((ensure_loaded m).1.name ≡ m.name)
unfolding ensure_loaded
ensure_loaded-Lazy own attrs m l =
    let (fetch, e, f) = l.fetch in
    elim l.state [
      | inl h ↦ ground (arith, h.0, h.1, h.2, e, f)
      | inr h ↦ ground (arith, h.0, h.1, h.2, h.3)
    ]

loaded-Lazy :
    (own attrs : Attributes) (m : LazyModule)
    → Lazy own attrs m
    → Lazy own attrs (ensure_loaded m).1
loaded-Lazy own attrs m l =
    let (fine, real, loaded, attributes, fetches, func, name) = ensure_loaded-Lazy own attrs m l in
    let (fetch, e, f) = l.fetch in
    record {
      fetch = (fetch, func ∙ e, ap fetch name ∙ f);
      state = inr (loaded, attributes, real, fetches);
    }

read-Lazy :
    (own attrs : Attributes) (name : String) (m : LazyModule)
    → Lazy own attrs m
    → Lazy own attrs (read name m).1
unfolding read getattr
read-Lazy own attrs name m l =
    choose_some (λ (r : Answer × LazyModule). Lazy own attrs r.1) (Dict.get m.attributes name)
      (getattr name m) (λ v. (Answer.value v, m))
      (λ _.
        choose_if (λ (r : Answer × LazyModule). Lazy own attrs r.1) (starts_with name "_")
          (Answer.attribute_error, m) _ l (loaded-Lazy own attrs m l))
      (λ v _. l)

read_all-Lazy :
    (own attrs : Attributes) (names : List String) (m : LazyModule)
    → Lazy own attrs m
    → Lazy own attrs (read_all names m)
read_all-Lazy own attrs [] m l = l
read_all-Lazy own attrs (name ∷ names) m l =
    read_all-Lazy own attrs names _ (read-Lazy own attrs name m l)

read-value :
    (own attrs : Attributes) (name : String) (m : LazyModule)
    → Lazy own attrs m
    → Unique attrs
    → starts_with name "_" ≡ false
    → Dict.get own name ≡ none
    → (read name m).0 ≡ found (Dict.get attrs name)
unfolding read getattr
read-value own attrs name m l u public absent =
    let (fine, real, loaded, attributes, fetches, func, same) = ensure_loaded-Lazy own attrs m l in
    elim l.state [
      | inl h ↦
          ground (arith, ap (λ (d : Attributes). Dict.get d name) h.1, absent, public, fine, real)
      | inr h ↦ elim (Option-cases (Dict.get attrs name)) [
        | inl e ↦ ground (
          arith,
          e,
          ap (λ (d : Attributes). Dict.get d name) h.1,
          get-update attrs own name u,
          absent,
          public,
          fine,
          real,
        )
        | inr (v, e) ↦ ground (
          arith,
          e,
          ap (λ (d : Attributes). Dict.get d name) h.1,
          get-update attrs own name u,
          absent,
        )
      ]
    ]

fetches-le : (own attrs : Attributes) (m : LazyModule) → Lazy own attrs m → m.fetches ≤ 1
fetches-le own attrs m l = ground (arith, l.state)

-- Whatever was read of a lazy module before, a name that does not start with an underscore is answered
-- as the fetched module has it, and the module is fetched once at most, if the fetch gives a module.
pub read-read_all :
    (own attrs : Attributes) (names : List String) (name : String) (m : LazyModule)
    → Lazy own attrs m
    → Unique attrs
    → starts_with name "_" ≡ false
    → Dict.get own name ≡ none
    → ((read name (read_all names m)).0 ≡ found (Dict.get attrs name))
      × ((read name (read_all names m)).1.fetches ≤ 1)
read-read_all own attrs names name m l u public absent =
    let before = read_all-Lazy own attrs names m l in
    (
      read-value own attrs name (read_all names m) before u public absent,
      fetches-le own attrs _ (read-Lazy own attrs name (read_all names m) before),
    )
