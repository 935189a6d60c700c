-- ===== src/Virtualization/Fetcher/Ranges.antt =====
-- virtualization/fetcher.py: the ranges of a chunked download.
use mathlib.Core.List.{Permᴰ}
use mathlib.Core.Path.{subst}
use cpip.Common.{
  ℕ, zero, suc, ◌+◌, ◌-◌, ◌≤◌, ◌<◌, ◌≡◌, refl, ◌∙◌, sym, ap₂, Bool, true, false, List, [], ◌∷◌,
  arith, leb, min, ◌&&◌, ◌||◌, All,
}
use cpip.Virtualization.Fetcher.{ChunkDownloader, ranges, range_loop}

-- The ranges follow one another from `a` on and end before `b`: no byte is left out and none is in
-- two ranges.
abbrev pub Tiles : ℕ → ℕ → List (ℕ × ℕ) → Type 0
Tiles a b [] = a ≡ b
Tiles a b ((start, end) ∷ rs) = (start ≡ a) × (start ≤ end) × Tiles (end + 1) b rs

-- A range within a file of the given length that holds no more bytes than a chunk.
abbrev pub Bounded : ℕ → ℕ → ℕ × ℕ → Type 0
Bounded total chunk_size (start, end) = (start ≤ end) × (end < total) × (end < start + chunk_size)

range_loop-Tiles :
    (fuel chunk_size total offset : ℕ)
    → 0 < chunk_size
    → offset ≤ total
    → total ≤ fuel + offset
    → Tiles offset total (range_loop fuel chunk_size total offset)
unfolding range_loop
range_loop-Tiles zero chunk_size total offset c h k = omega arith
range_loop-Tiles (suc fuel) chunk_size total offset c h k = ground (
  arith,
  range_loop-Tiles fuel chunk_size total (min (offset + chunk_size - 1) (total - 1) + 1) c,
)

range_loop-Bounded :
    (fuel chunk_size total offset : ℕ)
    → 0 < chunk_size
    → All (Bounded total chunk_size) (range_loop fuel chunk_size total offset)
unfolding range_loop
range_loop-Bounded zero chunk_size total offset c = tt
range_loop-Bounded (suc fuel) chunk_size total offset c = ground (
  arith,
  range_loop-Bounded fuel chunk_size total (min (offset + chunk_size - 1) (total - 1) + 1) c,
)

-- The loop that plans the ranges ends, and the ranges follow one another over the whole file, each
-- within it and no longer than a chunk, if the chunk size is positive.
pub ranges-Tiles :
    (d : ChunkDownloader) (total : ℕ)
    → 0 < d.chunk_size
    → Tiles 0 total (ranges d total) × All (Bounded total d.chunk_size) (ranges d total)
unfolding ranges
ranges-Tiles d total c = (
  range_loop-Tiles total d.chunk_size total 0 c (omega arith) (omega arith),
  range_loop-Bounded total d.chunk_size total 0 c,
)

abbrev pub holds : ℕ → ℕ × ℕ → Bool
holds j (start, end) = leb start j && leb j end

abbrev pub covers : ℕ → List (ℕ × ℕ) → Bool
covers j [] = false
covers j (range ∷ rs) = holds j range || covers j rs

abbrev pub bytes_of : List (ℕ × ℕ) → ℕ
bytes_of [] = 0
bytes_of ((start, end) ∷ rs) = (end + 1 - start) + bytes_of rs

pub covers-Tiles :
    (a b : ℕ) (rs : List (ℕ × ℕ)) (j : ℕ) → Tiles a b rs → a ≤ j → j < b → covers j rs ≡ true
covers-Tiles a b [] j t h k = absurd (omega arith)
covers-Tiles a b ((start, end) ∷ rs) j (e, l, t) h k =
    ground (arith, covers-Tiles (end + 1) b rs j t)

pub bytes_of-Tiles : (a b : ℕ) (rs : List (ℕ × ℕ)) → Tiles a b rs → a + bytes_of rs ≡ b
bytes_of-Tiles a b [] t = omega arith
bytes_of-Tiles a b ((start, end) ∷ rs) (e, l, t) = omega (arith, bytes_of-Tiles (end + 1) b rs t)

or_swap : (x y z : Bool) → (x || (y || z)) ≡ (y || (x || z))
or_swap x y z = ground arith

abbrev size : ℕ × ℕ → ℕ
size (start, end) = end + 1 - start

-- The order of the ranges does not matter to what they cover.
pub covers-Permᴰ : (j : ℕ) (rs ss : List (ℕ × ℕ)) → Permᴰ rs ss → covers j rs ≡ covers j ss
covers-Permᴰ j _ _ Permᴰ.nil = refl
covers-Permᴰ j _ _ (Permᴰ.cons e p) =
    ap₂ (λ (r : ℕ × ℕ) (b : Bool). holds j r || b) e (covers-Permᴰ j _ _ p)
covers-Permᴰ j _ _ (Permᴰ.swap {a} {b} {a'} {b'} {l} e f) =
    ap₂ (λ (r s : ℕ × ℕ). holds j r || (holds j s || covers j l)) e f
    ∙ or_swap (holds j b') (holds j a') (covers j l)
covers-Permᴰ j rs ss (Permᴰ.trans p q) = covers-Permᴰ j _ _ p ∙ covers-Permᴰ j _ _ q

add_swap : (x y z : ℕ) → x + (y + z) ≡ y + (x + z)
add_swap x y z = omega arith

pub bytes_of-Permᴰ : (rs ss : List (ℕ × ℕ)) → Permᴰ rs ss → bytes_of rs ≡ bytes_of ss
bytes_of-Permᴰ _ _ Permᴰ.nil = refl
bytes_of-Permᴰ _ _ (Permᴰ.cons e p) =
    ap₂ (λ (r : ℕ × ℕ) (n : ℕ). size r + n) e (bytes_of-Permᴰ _ _ p)
bytes_of-Permᴰ _ _ (Permᴰ.swap {a} {b} {a'} {b'} {l} e f) =
    ap₂ (λ (r s : ℕ × ℕ). size r + (size s + bytes_of l)) e f
    ∙ add_swap (size b') (size a') (bytes_of l)
bytes_of-Permᴰ rs ss (Permᴰ.trans p q) = bytes_of-Permᴰ _ _ p ∙ bytes_of-Permᴰ _ _ q

pub All-Permᴰ {ℓ} : (P : ℕ × ℕ → Type ℓ) (rs ss : List (ℕ × ℕ)) → Permᴰ rs ss → All P ss → All P rs
All-Permᴰ P _ _ Permᴰ.nil h = h
All-Permᴰ P _ _ (Permᴰ.cons e p) h = (subst P (sym e) h.0, All-Permᴰ P _ _ p h.1)
All-Permᴰ P _ _ (Permᴰ.swap e f) h = (subst P (sym e) h.1.0, (subst P (sym f) h.0, h.1.1))
All-Permᴰ P rs ss (Permᴰ.trans p q) h = All-Permᴰ P _ _ p (All-Permᴰ P _ _ q h)
