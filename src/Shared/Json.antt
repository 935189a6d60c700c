-- ===== src/Shared/Json.antt =====
-- The values of JSON, which the Python code passes on as they are, and their truth in a test. A number
-- is a natural number; times are in microseconds.
use cpip.Common.{
  ◌≡◌, refl, arith, eq_iff, ℕ, String, Bool, true, false, not, Option, some, none, ◌==◌, eqb,
  if◌then◌else◌,
}

mutual
  pub data Json : Type 0 where
    null : Json
    boolean : Bool → Json
    number : ℕ → Json
    string : String → Json
    array : Items → Json
    object : Fields → Json

  pub data Items : Type 0 where
    no_items : Items
    item : Json → Items → Items

  pub data Fields : Type 0 where
    no_fields : Fields
    entry : String → Json → Fields → Fields

-- `bool(v)`
abbrev pub truthy : Json → Bool
truthy Json.null = false
truthy (Json.boolean b) = b
truthy (Json.number n) = not (eqb n 0)
truthy (Json.string s) = not (s == "")
truthy (Json.array Items.no_items) = false
truthy (Json.array (Items.item v vs)) = true
truthy (Json.object Fields.no_fields) = false
truthy (Json.object (Fields.entry k v vs)) = true

abbrev pub is_null : Json → Bool
is_null Json.null = true
is_null _ = false

abbrev pub empty : Json
empty = Json.object Fields.no_fields

-- `data.get(key)` and `data.get(key, default)`
unfoldable pub get_field : Fields → String → Option Json
get_field Fields.no_fields key = none
get_field (Fields.entry k v vs) key = if k == key then some v else get_field vs key

abbrev pub get_or : Fields → String → Json → Json
get_or d key default = elim (get_field d key) [ some v ↦ v | none ↦ default ]

-- `data[key] = v`, as in `Common.Dict`.
unfoldable pub put_field : Fields → String → Json → Fields
put_field Fields.no_fields key v = Fields.entry key v Fields.no_fields
put_field (Fields.entry k w vs) key v =
    let rest = put_field vs key v in if k == key then Fields.entry k v vs else Fields.entry k w rest

pub get_field-put_field :
    (d : Fields) (k j : String) (v : Json)
    → get_field (put_field d k v) j ≡ (if k == j then some v else get_field d j)
unfolding get_field put_field
get_field-put_field Fields.no_fields k j v = refl
get_field-put_field (Fields.entry i w vs) k j v =
    ground (arith, eq_iff k j, eq_iff i k, eq_iff i j, get_field-put_field vs k j v)
