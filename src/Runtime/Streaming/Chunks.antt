-- ===== src/Runtime/Streaming/Chunks.antt =====
-- runtime/streaming.py: chunks may come in any order.
use mathlib.Core.Path.{subst}
use cpip.Common.{
  ℕ, zero, suc, ◌+◌, ◌≤◌, ◌<◌, ◌≡◌, ◌∙◌, refl, true, false, Option, none, some, List, [], ◌∷◌, ◌++◌,
  map, arith, eqb, length, length-append, get_elem?, set, ap₂, sym, ◌⊎◌, inl, inr, Bool, ◌||◌,
  Option-cases, if◌then◌else◌, All, ap,
}
use cpip.Runtime.Streaming.{pad, put_chunk}

module _ {D : Type 0} where
  -- The write of a chunk by position.
  abbrev place : D → ℕ → List (Option D) → List (Option D)
  place d zero [] = some d ∷ []
  place d zero (c ∷ chunks) = some d ∷ chunks
  place d (suc i) [] = none ∷ place d i []
  place d (suc i) (c ∷ chunks) = c ∷ place d i chunks

  place-append :
      (d : D) (i : ℕ) (chunks : List (Option D))
      → length chunks ≤ i
      → place d i (chunks ++ none ∷ []) ≡ place d i chunks
  place-append d zero [] h = refl
  place-append d (suc i) [] h = refl
  place-append d zero (c ∷ chunks) h = absurd (omega arith)
  place-append d (suc i) (c ∷ chunks) h = ap (◌∷◌ c) (place-append d i chunks (omega arith))

  set-eq-place :
      (d : D) (i : ℕ) (chunks : List (Option D))
      → i < length chunks
      → set chunks i (some d) ≡ place d i chunks
  set-eq-place d i [] h = absurd (omega arith)
  set-eq-place d zero (c ∷ chunks) h = refl
  set-eq-place d (suc i) (c ∷ chunks) h = ap (◌∷◌ c) (set-eq-place d i chunks (omega arith))

  set-pad :
      (fuel : ℕ) (d : D) (i : ℕ) (chunks : List (Option D))
      → i < length chunks + fuel
      → set (pad fuel i chunks) i (some d) ≡ place d i chunks
  unfolding pad
  set-pad zero d i chunks h = set-eq-place d i chunks (omega arith)
  set-pad (suc fuel) d i chunks h = ground (
    arith,
    set-eq-place d i chunks,
    place-append d i chunks,
    set-pad fuel d i (chunks ++ none ∷ []),
    length-append chunks (none ∷ []),
  )

  put_chunk-eq-place :
      (d : D) (i : ℕ) (chunks : List (Option D)) → put_chunk d i chunks ≡ place d i chunks
  unfolding put_chunk
  put_chunk-eq-place d i chunks = set-pad (suc i) d i chunks (omega arith)

  -- The chunks after deliveries, each a value and its index, in the order in which they come.
  unfoldable pub deliver : List (D × ℕ) → List (Option D) → List (Option D)
  deliver [] chunks = chunks
  deliver ((d, i) ∷ ds) chunks = deliver ds (put_chunk d i chunks)

  -- What stands at a position, if anything does.
  slot : List (Option D) → ℕ → Option D
  slot [] i = none
  slot (c ∷ chunks) zero = c
  slot (c ∷ chunks) (suc i) = slot chunks i

  -- A chunk with the index was delivered.
  abbrev pub delivered : ℕ → List (D × ℕ) → Bool
  delivered i [] = false
  delivered i ((d, j) ∷ ds) = eqb j i || delivered i ds

  abbrev pub From : List D → D × ℕ → Type 0
  From values (d, i) = get_elem? values i ≡ some d

  slot-place :
      (d : D) (i j : ℕ) (chunks : List (Option D))
      → slot (place d i chunks) j ≡ (if eqb i j then some d else slot chunks j)
  unfolding slot
  slot-place d zero zero [] = refl
  slot-place d zero (suc j) [] = ground arith
  slot-place d zero zero (c ∷ chunks) = refl
  slot-place d zero (suc j) (c ∷ chunks) = ground arith
  slot-place d (suc i) zero [] = ground arith
  slot-place d (suc i) (suc j) [] = ground (arith, slot-place d i j [])
  slot-place d (suc i) zero (c ∷ chunks) = ground arith
  slot-place d (suc i) (suc j) (c ∷ chunks) = ground (arith, slot-place d i j chunks)

  length-place-le :
      (d : D) (i n : ℕ) (chunks : List (Option D))
      → length chunks ≤ n
      → i < n
      → length (place d i chunks) ≤ n
  length-place-le d i zero chunks h k = absurd (omega arith)
  length-place-le d zero (suc n) [] h k = omega arith
  length-place-le d zero (suc n) (c ∷ chunks) h k = omega arith
  length-place-le d (suc i) (suc n) [] h k =
      omega (arith, length-place-le d i n [] (omega arith) (omega arith))
  length-place-le d (suc i) (suc n) (c ∷ chunks) h k =
      omega (arith, length-place-le d i n chunks (omega arith) (omega arith))

  within : (values : List D) (d : D) (i : ℕ) → get_elem? values i ≡ some d → i < length values
  within [] d i h = absurd (cc h)
  within (e ∷ values) d zero h = omega arith
  within (e ∷ values) d (suc i) h = omega (arith, within values d i h)

  length-deliver-le :
      (values : List D) (ds : List (D × ℕ)) (chunks : List (Option D))
      → All (From values) ds
      → length chunks ≤ length values
      → length (deliver ds chunks) ≤ length values
  unfolding deliver
  length-deliver-le values [] chunks a h = h
  length-deliver-le values ((d, i) ∷ ds) chunks a h =
      length-deliver-le values ds (put_chunk d i chunks) a.1 (
        subst (λ (cs : List (Option D)). length cs ≤ length values)
          (sym (put_chunk-eq-place d i chunks))
          (length-place-le d i (length values) chunks h (within values d i a.0)))

  -- No chunk stands where the list has no element.
  beyond :
      (chunks : List (Option D)) (values : List D) (i : ℕ)
      → length chunks ≤ length values
      → get_elem? values i ≡ none
      → slot chunks i ≡ get_elem? values i
  unfolding slot
  beyond [] values i h e = sym e
  beyond (c ∷ chunks) [] i h e = absurd (omega arith)
  beyond (c ∷ chunks) (d ∷ values) zero h e = absurd (cc e)
  beyond (c ∷ chunks) (d ∷ values) (suc i) h e = beyond chunks values i (omega arith) e

  slot-deliver :
      (values : List D) (ds : List (D × ℕ)) (chunks : List (Option D)) (i : ℕ) (d : D)
      → get_elem? values i ≡ some d
      → All (From values) ds
      → (delivered i ds ≡ true) ⊎ (slot chunks i ≡ some d)
      → slot (deliver ds chunks) i ≡ some d
  unfolding deliver
  slot-deliver values [] chunks i d h a (inl e) = absurd (cc e)
  slot-deliver values [] chunks i d h a (inr e) = e
  slot-deliver values ((d', j) ∷ ds) chunks i d h a e =
      slot-deliver values ds (put_chunk d' j chunks) i d h a.1
        (ground (arith, put_chunk-eq-place d' j chunks, slot-place d' j i chunks, h, a.0))

  slots_eq :
      (values : List D) (chunks : List (Option D))
      → length chunks ≤ length values
      → ((i : ℕ) → slot chunks i ≡ get_elem? values i)
      → chunks ≡ map some values
  unfolding slot
  slots_eq [] [] h e = refl
  slots_eq [] (c ∷ chunks) h e = absurd (omega arith)
  slots_eq (d ∷ values) [] h e = absurd (cc (e 0))
  slots_eq (d ∷ values) (c ∷ chunks) h e =
      ap₂ ◌∷◌ (e 0) (slots_eq values chunks (omega arith) (λ i. e (suc i)))

  -- Chunks that are all from a list, with none of it missing, give back that list: in any order, and
  -- whatever chunks come twice.
  pub deliver_lem :
      (values : List D) (ds : List (D × ℕ))
      → All (From values) ds
      → ((i : ℕ) → i < length values → delivered i ds ≡ true)
      → deliver ds [] ≡ map some values
  deliver_lem values ds a full =
      slots_eq values (deliver ds []) (length-deliver-le values ds [] a (omega arith))
        (λ i. filled i (Option-cases (get_elem? values i)))
    where
      filled :
          (i : ℕ)
          → (get_elem? values i ≡ none) ⊎ ((d : D) × (get_elem? values i ≡ some d))
          → slot (deliver ds []) i ≡ get_elem? values i
      filled i (inl e) =
          beyond (deliver ds []) values i (length-deliver-le values ds [] a (omega arith)) e
      filled i (inr (d, e)) =
          slot-deliver values ds [] i d e a (inl (full i (within values d i e))) ∙ sym e
