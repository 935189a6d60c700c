-- ===== src/Executor/Names.antt =====
-- executor/gpu_runtime.py: which names of methods the validation lets through.
use Prim.Native.Char.{Char, code}
use mathlib.Core.Path.{subst}
use cpip.Common.{
  ℕ, ◌≤◌, ◌≡◌, refl, sym, ◌⊎◌, inl, inr, String, true, ◌||◌, ◌&&◌, ◌==◌, eq_iff, eqb, leb, arith,
  Bool-cases,
}
use cpip.Executor.Runtimes.{is_method_char, all_method_chars, is_valid_method}

-- A letter or a digit of ASCII, an underscore or a dot.
abbrev pub MethodChar : Char → Type 0
MethodChar c =
    ((b'a' ≤ code c) × (code c ≤ b'z'))
    ⊎ (((b'A' ≤ code c) × (code c ≤ b'Z'))
        ⊎ (((b'0' ≤ code c) × (code c ≤ b'9')) ⊎ ((code c ≡ b'_') ⊎ (code c ≡ b'.'))))

-- At least one of these characters, and at most a newline behind them.
pub data ValidName : String → Type 0 where
  last : (c : Char) → MethodChar c → ValidName (String.◌∷◌ c "")
  last_line : (c n : Char) → MethodChar c → code n ≡ 10 → ValidName (String.◌∷◌ c (String.◌∷◌ n ""))
  next : (c : Char) (s : String) → MethodChar c → ValidName s → ValidName (String.◌∷◌ c s)

is_method_char-MethodChar : (c : Char) → is_method_char c ≡ true → MethodChar c
is_method_char-MethodChar c h = go (code c) h
  where
    go :
        (n : ℕ)
        → ((leb b'a' n && leb n b'z')
            || (leb b'A' n && leb n b'Z')
            || (leb b'0' n && leb n b'9')
            || eqb n b'_'
            || eqb n b'.')
          ≡ true
        → ((b'a' ≤ n) × (n ≤ b'z'))
          ⊎ (((b'A' ≤ n) × (n ≤ b'Z')) ⊎ (((b'0' ≤ n) × (n ≤ b'9')) ⊎ ((n ≡ b'_') ⊎ (n ≡ b'.'))))
    go n h = ground (arith, h)

MethodChar-is_method_char : (c : Char) → MethodChar c → is_method_char c ≡ true
MethodChar-is_method_char c (inl h) = ground (arith, h)
MethodChar-is_method_char c (inr (inl h)) = ground (arith, h)
MethodChar-is_method_char c (inr (inr (inl h))) = ground (arith, h)
MethodChar-is_method_char c (inr (inr (inr (inl h)))) = ground (arith, h)
MethodChar-is_method_char c (inr (inr (inr (inr h)))) = ground (arith, h)

-- What follows a character of a name.
follows :
    (c : Char) (s : String) → MethodChar c → all_method_chars s ≡ true → ValidName (String.◌∷◌ c s)
unfolding all_method_chars
follows c String.[] m h = last c m
follows c (String.◌∷◌ d s) m h = elim (Bool-cases (is_method_char d && all_method_chars s)) [
  | inl e ↦
      next c (String.◌∷◌ d s) m
        (follows d s (is_method_char-MethodChar d (ground (arith, e))) (ground (arith, e)))
  | inr e ↦ end_of s (ground (arith, h, e)) (ground (arith, h, e))
]
  where
    end_of :
        (t : String)
        → (t == "") ≡ true
        → eqb (code d) 10 ≡ true
        → ValidName (String.◌∷◌ c (String.◌∷◌ d t))
    end_of t e n =
        subst (λ (u : String). ValidName (String.◌∷◌ c (String.◌∷◌ d u))) (sym ((eq_iff t "").0 e))
          (last_line c d m (ground (arith, n)))

-- The validation lets through exactly these names.
pub is_valid_method-ValidName : (s : String) → is_valid_method s ≡ true → ValidName s
unfolding is_valid_method
is_valid_method-ValidName String.[] h = absurd (cc h)
is_valid_method-ValidName (String.◌∷◌ c s) h =
    follows c s (is_method_char-MethodChar c (ground (arith, h))) (ground (arith, h))

all_method_chars-next :
    (c : Char) (s : String)
    → is_method_char c ≡ true
    → all_method_chars s ≡ true
    → all_method_chars (String.◌∷◌ c s) ≡ true
unfolding all_method_chars
all_method_chars-next c s m h = ground (arith, m, h)

ValidName-all_method_chars : (s : String) → ValidName s → all_method_chars s ≡ true
unfolding all_method_chars
ValidName-all_method_chars s (last c m) =
    all_method_chars-next c "" (MethodChar-is_method_char c m) refl
ValidName-all_method_chars s (last_line c n m e) =
    all_method_chars-next c (String.◌∷◌ n "") (MethodChar-is_method_char c m) (ground (arith, e))
ValidName-all_method_chars s (next c t m v) =
    all_method_chars-next c t (MethodChar-is_method_char c m) (ValidName-all_method_chars t v)

pub ValidName-is_valid_method : (s : String) → ValidName s → is_valid_method s ≡ true
unfolding is_valid_method all_method_chars
ValidName-is_valid_method s (last c m) = ground (arith, MethodChar-is_method_char c m)
ValidName-is_valid_method s (last_line c n m e) = ground (arith, MethodChar-is_method_char c m, e)
ValidName-is_valid_method s (next c t m v) =
    ground (arith, MethodChar-is_method_char c m, ValidName-all_method_chars t v)
