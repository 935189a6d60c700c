-- ===== src/Runtime/Serialization/Values.antt =====
-- The Python values that runtime/serialization.py tells apart, and the libraries it calls: base64,
-- pickle, numpy and torch. Numbers are natural numbers, keys of dicts are texts, as JSON needs them.
use Prim.Native.Char.{code}
use cpip.Common.{ℕ, Bool, true, false, ◌&&◌, ◌||◌, String, List, ◌==◌, eqb, if◌then◌else◌}
use cpip.Shared.Json.{Json}

-- An object of another class, by a number; a copy of it has the same number.
abbrev pub Object : Type 0
Object = ℕ

-- A numpy array: `dtype`, `shape` and `tobytes()`.
pub record Array : Type 0 where
  pub dtype : String
  pub shape : List ℕ
  pub content : List ℕ

mutual
  pub data Value : Type 0 where
    none : Value
    boolean : Bool → Value
    number : ℕ → Value
    text : String → Value
    bytes : List ℕ → Value
    complex : ℕ → ℕ → Value
    list : Values → Value
    tuple : Values → Value
    set : Values → Value
    dict : Entries → Value
    array : Array → Value
    instance_of : Object → Value

  pub data Values : Type 0 where
    no_values : Values
    next : Value → Values → Values

  pub data Entries : Type 0 where
    no_entries : Entries
    pair : String → Value → Entries → Entries

-- What a call raises.
pub data Failure : Type 0 where
  key_error : String → Failure
  type_error attribute_error other_error : Failure

pub data Outcome {ℓ} (A : Type ℓ) : Type ℓ where
  ok : A → Outcome A
  raised : Failure → Outcome A

infixl 1 ◌>>=◌
abbrev pub ◌>>=◌ {ℓ κ} : {A : Type ℓ} {B : Type κ} → Outcome A → (A → Outcome B) → Outcome B
ok a >>= f = f a
raised e >>= f = raised e

-- The libraries, and what is read of an object: `type(value).__module__`, `type(value).__name__`,
-- `repr(value)`. A decoder raises what it does not accept.
pub record Codec : Type 0 where
  pub b64encode : List ℕ → String
  pub b64decode : String → Outcome (List ℕ)
  pub module_name : Object → String
  pub class_name : Object → String
  pub dumps : Object → List ℕ
  pub loads : List ℕ → Outcome Value
  pub repr : Object → String
  pub has_numpy : Bool
  pub has_torch : Bool
  pub frombuffer : List ℕ → Json → Outcome Array
  pub reshape : Array → Json → Outcome Array
  pub from_numpy : Array → Value

-- `s.split(".")[0]`
unfoldable pub first_part : String → String
first_part String.[] = String.[]
first_part (String.◌∷◌ c s) =
    let rest = first_part s in if eqb (code c) b'.' then String.[] else String.◌∷◌ c rest

-- `_PICKLE_ALLOWLIST`
unfoldable pub allowed : String → Bool
allowed name =
    name == "builtins"
    || name == "collections"
    || name == "datetime"
    || name == "decimal"
    || name == "fractions"
    || name == "numbers"
    || name == "re"
    || name == "uuid"

-- Which values can stand in a set. An object can, as without an `__eq__`.
abbrev mutual
  pub hashable : Value → Bool
  hashable (Value.list vs) = false
  hashable (Value.set vs) = false
  hashable (Value.dict es) = false
  hashable (Value.array a) = false
  hashable (Value.tuple vs) = all_hashable vs
  hashable _ = true

  pub all_hashable : Values → Bool
  all_hashable Values.no_values = true
  all_hashable (Values.next v vs) = hashable v && all_hashable vs

abbrev same_bytes : List ℕ → List ℕ → Bool
same_bytes List.[] List.[] = true
same_bytes (List.◌∷◌ x xs) (List.◌∷◌ y ys) = eqb x y && same_bytes xs ys
same_bytes _ _ = false

abbrev bit : Bool → ℕ
bit b = if b then 1 else 0

-- `v == w` on values that can stand in a set: `True` is 1, a complex number without an imaginary part
-- is its real part.
abbrev mutual
  same : Value → Value → Bool
  same Value.none Value.none = true
  same (Value.boolean b) (Value.boolean c) = eqb (bit b) (bit c)
  same (Value.boolean b) (Value.number n) = eqb (bit b) n
  same (Value.boolean b) (Value.complex x y) = eqb (bit b) x && eqb y 0
  same (Value.number n) (Value.boolean b) = eqb n (bit b)
  same (Value.number n) (Value.number m) = eqb n m
  same (Value.number n) (Value.complex x y) = eqb n x && eqb y 0
  same (Value.complex x y) (Value.boolean b) = eqb x (bit b) && eqb y 0
  same (Value.complex x y) (Value.number n) = eqb x n && eqb y 0
  same (Value.complex x y) (Value.complex v w) = eqb x v && eqb y w
  same (Value.text s) (Value.text t) = s == t
  same (Value.bytes s) (Value.bytes t) = same_bytes s t
  same (Value.tuple vs) (Value.tuple ws) = same_all vs ws
  same (Value.instance_of i) (Value.instance_of j) = eqb i j
  same _ _ = false

  same_all : Values → Values → Bool
  same_all Values.no_values Values.no_values = true
  same_all (Values.next v vs) (Values.next w ws) = same v w && same_all vs ws
  same_all _ _ = false

abbrev holds : Values → Value → Bool
holds Values.no_values v = false
holds (Values.next w ws) v = same w v || holds ws v

-- The elements of a set that is made of values one after the other; the first of two equal ones stays.
abbrev elements_from : Values → Values → Values
elements_from Values.no_values seen = Values.no_values
elements_from (Values.next v vs) seen =
    let kept = elements_from vs (Values.next v seen) in
    let passed = elements_from vs seen in if holds seen v then passed else Values.next v kept

-- `{v for v in vs}`, which raises TypeError for a value that cannot be hashed
-- (here only after all values are there).
unfoldable pub to_set : Values → Outcome Value
to_set vs =
    if all_hashable vs
    then Outcome.ok (Value.set (elements_from vs Values.no_values))
    else Outcome.raised Failure.type_error
