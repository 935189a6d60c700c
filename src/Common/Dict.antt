-- ===== src/Common/Dict.antt =====
-- Python's `dict` with text keys: an association list in insertion order. `d[k] = v` replaces in
-- place or adds at the end, as Python does, so a loop over the dict meets the entries in its order.
use Prim.Native.Nat.{◌≤◌, ◌<◌}
use Prim.Native.String.{String}
use mathlib.Core.Path.{◌≡◌, refl, ◌∙◌}
use mathlib.Core.Logic.{◌≢◌}
use mathlib.Core.Bool.{true, false}
use mathlib.Core.Option.{Option, none, some}
use mathlib.Core.List.{List, [], ◌∷◌, map}
use native.Mathlib.Omega.{arith}
use text.Mathlib.Text.{◌==◌}
use text.Mathlib.TextEquality.{eq_iff}
use cpip.Common.Tests.{if◌then◌else◌}
use cpip.Common.Lists.{length}

abbrev pub Dict {ℓ} : Type ℓ → Type ℓ
Dict V = List (String × V)

module _ {ℓ} {V : Type ℓ} where
  -- `d.get(k)`
  unfoldable pub get : Dict V → String → Option V
  get [] k = none
  get ((j, v) ∷ d) k = if j == k then some v else get d k

  -- `d[k] = v`
  unfoldable pub put : Dict V → String → V → Dict V
  put [] k v = (k, v) ∷ []
  put ((j, w) ∷ d) k v = elim (j == k) [ true ↦ (j, v) ∷ d | false ↦ (j, w) ∷ put d k v ]

  -- `d.pop(k, None)`
  unfoldable pub remove : Dict V → String → Dict V
  remove [] k = []
  remove ((j, v) ∷ d) k =
      let rest = remove d k in elim (j == k) [ true ↦ rest | false ↦ (j, v) ∷ rest ]

  -- `d.update(src)`
  unfoldable pub update : Dict V → Dict V → Dict V
  update [] d = d
  update ((k, v) ∷ src) d = update src (put d k v)

  -- `list(d.keys())` and `list(d.values())`
  abbrev pub keys : Dict V → List String
  keys = map (λ e. e.0)

  abbrev pub values : Dict V → List V
  values = map (λ e. e.1)

  pub get-put :
      (d : Dict V) (k j : String) (v : V) → get (put d k v) j ≡ (if k == j then some v else get d j)
  unfolding get put
  get-put [] k j v = refl
  get-put ((i, w) ∷ d) k j v = ground (arith, eq_iff k j, eq_iff i k, eq_iff i j, get-put d k j v)

  pub get-remove :
      (d : Dict V) (k j : String) → get (remove d k) j ≡ (if k == j then none else get d j)
  unfolding get remove
  get-remove [] k j = ground arith
  get-remove ((i, w) ∷ d) k j = ground (arith, eq_iff k j, eq_iff i k, eq_iff i j, get-remove d k j)

  -- No key stands twice, as in any Python dict.
  abbrev pub Unique : Dict V → Type ℓ
  Unique [] = Unit
  Unique ((k, v) ∷ d) = (get d k ≡ none) × Unique d

  pub put-Unique : (d : Dict V) (k : String) (v : V) → Unique d → Unique (put d k v)
  unfolding get put
  put-Unique [] k v u = (refl, tt)
  put-Unique ((j, w) ∷ d) k v u =
      ground (arith, eq_iff j k, eq_iff k j, get-put d k j v, put-Unique d k v u.1)

  pub remove-Unique : (d : Dict V) (k : String) → Unique d → Unique (remove d k)
  unfolding get remove
  remove-Unique [] k u = u
  remove-Unique ((j, w) ∷ d) k u =
      ground (arith, eq_iff j k, eq_iff k j, get-remove d k j, remove-Unique d k u.1)

  abbrev pub or_in : Option V → Option V → Option V
  or_in (some v) o = some v
  or_in none o = o

  pub get-update :
      (src d : Dict V) (k : String)
      → Unique src
      → get (update src d) k ≡ or_in (get src k) (get d k)
  unfolding update get
  get-update [] d k u = refl
  get-update ((j, v) ∷ src) d k u =
      get-update src (put d j v) k u.1 ∙ ground (arith, get-put d j k v, eq_iff j k, u.0)

  -- Removing a key that is absent changes nothing.
  pub remove_absent : (d : Dict V) (k : String) → get d k ≡ none → remove d k ≡ d
  unfolding get remove
  remove_absent [] k h = refl
  remove_absent ((j, w) ∷ d) k h = ground (arith, remove_absent d k)

  pub length-remove-le : (d : Dict V) (k : String) → length (remove d k) ≤ length d
  unfolding remove
  length-remove-le [] k = omega arith
  length-remove-le ((j, w) ∷ d) k = ground (arith, length-remove-le d k)

  -- `del d[k]` of a key that is there takes one entry at least.
  pub length-remove-lt : (d : Dict V) (k : String) → get d k ≢ none → length (remove d k) < length d
  unfolding get remove
  length-remove-lt [] k h = absurd (h refl)
  length-remove-lt ((j, w) ∷ d) k h = ground (arith, length-remove-le d k, length-remove-lt d k)

pub ruleset dict_laws = (get-put, get-remove)
