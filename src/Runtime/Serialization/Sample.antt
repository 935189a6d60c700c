-- ===== src/Runtime/Serialization/Sample.antt =====
-- Concrete libraries for runs of runtime/serialization.py.
use Prim.Native.Char.{code}
use cpip.Common.{
  ℕ, zero, suc, eqb, ◌≡◌, refl, ap, ◌∙◌, String, List, [], ◌∷◌, true, false, if◌then◌else◌,
}
use cpip.Shared.Json.{Json, Items}
use cpip.Runtime.Serialization.Values.{Value, Outcome, ok, raised, Failure, Array, Object, Codec}
use cpip.Runtime.Serialization.Encode.{numbers}
use cpip.Runtime.Serialization.RoundTrip.{Faithful}

-- A base64 of one `x` for each unit and a `,` after each number.
abbrev unary : ℕ → String → String
unary zero s = String.◌∷◌ "," s
unary (suc n) s = String.◌∷◌ "x" (unary n s)

abbrev encode : List ℕ → String
encode [] = String.[]
encode (n ∷ ns) = unary n (encode ns)

abbrev bump : List ℕ → List ℕ
bump [] = []
bump (n ∷ ns) = suc n ∷ ns

abbrev decode : String → List ℕ
decode String.[] = []
decode (String.◌∷◌ c s) = let rest = decode s in if eqb (code c) b',' then 0 ∷ rest else bump rest

decode-unary : (n : ℕ) (s : String) → decode (unary n s) ≡ n ∷ decode s
decode-unary zero s = refl
decode-unary (suc n) s = ap bump (decode-unary n s)

decode-encode : (ns : List ℕ) → decode (encode ns) ≡ ns
decode-encode [] = refl
decode-encode (n ∷ ns) = decode-unary n (encode ns) ∙ ap (λ (l : List ℕ). n ∷ l) (decode-encode ns)

abbrev read_shape : Items → List ℕ
read_shape (Items.item (Json.number n) vs) = n ∷ read_shape vs
read_shape _ = []

read_shape-numbers : (ns : List ℕ) → read_shape (numbers ns) ≡ ns
read_shape-numbers [] = refl
read_shape-numbers (n ∷ ns) = ap (λ (l : List ℕ). n ∷ l) (read_shape-numbers ns)

abbrev load : List ℕ → Outcome Value
load (n ∷ []) = ok (Value.instance_of n)
load _ = raised Failure.other_error

abbrev from_bytes : List ℕ → Json → Outcome Array
from_bytes bs (Json.string s) = ok (record { dtype = s; shape = []; content = bs })
from_bytes bs _ = raised Failure.type_error

abbrev reshaped : Array → Json → Outcome Array
reshaped a (Json.array vs) = ok (record a { shape = read_shape vs })
reshaped a _ = raised Failure.type_error

-- The object 0 is a date, all others are of a class of the user.
abbrev module_of : Object → String
module_of zero = "datetime"
module_of (suc n) = "shop.models"

abbrev pub libraries : Codec
libraries = record {
  b64encode = encode;
  b64decode = λ s. ok (decode s);
  module_name = module_of;
  class_name = λ i. "Order";
  dumps = λ i. i ∷ [];
  loads = load;
  repr = λ i. "<Order>";
  has_numpy = true;
  has_torch = false;
  frombuffer = from_bytes;
  reshape = reshaped;
  from_numpy = Value.array;
}

pub libraries-Faithful : Faithful libraries
libraries-Faithful = record {
  base64 = λ bs. ap ok (decode-encode bs);
  pickle = λ i. refl;
  numpy = refl;
  arrays = λ a i. ok (record a { shape = read_shape-numbers a.shape i });
}
