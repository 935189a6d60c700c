-- ===== src/Client/Cache/Evict/Bounds.antt =====
-- client/cache.py: the loop of `_maybe_evict` ends, and ends below the limit.
use cpip.Common.{
  ℕ, zero, suc, ◌*◌, ◌≤◌, ◌<◌, String, ◌≡◌, refl, ◌≢◌, true, false, none, some, [], ◌∷◌, arith,
  eq_iff, length, Bool-cases, nil_of_length, inl, inr,
}
use cpip.Common.Dict
use cpip.Common.Dict.{length-remove-lt}
use cpip.Client.Cache.State.{CacheManager, CacheEntry, Index, save_index}
use cpip.Client.Cache.Evict.{
  current_size, over_limit, oldest_from, evict_entry, oldest, evict_loop, maybe_evict,
}

-- The entry that is picked is one of the index.
pub oldest_from-ne-none :
    (best : String × CacheEntry) (index : Index)
    → Dict.get (best ∷ index) (oldest_from best index).0 ≢ none
unfolding oldest_from Dict.get
oldest_from-ne-none (b, x) [] = ground (arith, eq_iff b b)
oldest_from-ne-none (b, x) ((k, e) ∷ index) =
    ground (arith, eq_iff b b, oldest_from-ne-none (k, e) index, oldest_from-ne-none (b, x) index)

-- A round takes an entry from the index.
evict_entry_shorter :
    (s : CacheManager) (best : String × CacheEntry) (index : Index)
    → s.index ≡ best ∷ index
    → length (evict_entry (oldest_from best index) s).index < length s.index
unfolding evict_entry
evict_entry_shorter s best index e =
    length-remove-lt s.index (oldest_from best index).0 (rw e (oldest_from-ne-none best index))

-- An empty cache is within every limit.
over_limit_empty : (s : CacheManager) → s.index ≡ [] → over_limit s ≡ false
unfolding over_limit current_size
over_limit_empty s e = rw e (ground arith)

-- One round of a loop that is over the limit.
pub evict_loop_step :
    (fuel : ℕ) (s : CacheManager) (best : String × CacheEntry) (index : Index)
    → s.index ≡ best ∷ index
    → over_limit s ≡ true
    → evict_loop (suc fuel) s ≡ evict_loop fuel (evict_entry (oldest_from best index) s)
unfolding evict_loop oldest
evict_loop_step fuel s best index e over =
    let picked : oldest s.index ≡ some (oldest_from best index) = rw e in ground arith

-- The loop stops at a state within the limit, and else takes the oldest entry: an induction rule,
-- for as much fuel as the index has entries.
module _ {ℓ} (P : CacheManager → CacheManager → Type ℓ)
    (stop : (s : CacheManager) → over_limit s ≡ false → P s s)
    (next : (s s' : CacheManager) (best : String × CacheEntry) (index : Index)
      → s.index ≡ best ∷ index
      → P (evict_entry (oldest_from best index) s) s'
      → P s s') where
  evict_round :
      (fuel : ℕ) (s : CacheManager) (index : Index)
      → ((s1 : CacheManager) → length s1.index ≤ fuel → P s1 (evict_loop fuel s1))
      → s.index ≡ index
      → length s.index ≤ suc fuel
      → over_limit s ≡ true
      → P s (evict_loop (suc fuel) s)
  evict_round fuel s [] ih e h over = absurd (cc (over_limit_empty s e))
  evict_round fuel s (best ∷ index) ih e h over =
      let shorter = evict_entry_shorter s best index e in
      rw (evict_loop_step fuel s best index e over)
        (next s _ best index e (ih (evict_entry (oldest_from best index) s) (omega arith)))

  pub evict_loop_induction :
      (fuel : ℕ) (s : CacheManager) → length s.index ≤ fuel → P s (evict_loop fuel s)
  unfolding evict_loop
  evict_loop_induction zero s h = stop s (over_limit_empty s (nil_of_length s.index h))
  evict_loop_induction (suc fuel) s h = elim (Bool-cases (over_limit s)) [
    | inl over ↦ evict_round fuel s s.index (evict_loop_induction fuel) refl h over
    | inr within ↦ rw (within, evict_loop) (stop s within)
  ]

-- The loop leaves the limit as it is, and ends within it.
evict_loop_within :
    (fuel : ℕ) (s : CacheManager)
    → length s.index ≤ fuel
    → (over_limit (evict_loop fuel s) ≡ false) × ((evict_loop fuel s).max_size_mb ≡ s.max_size_mb)
unfolding evict_entry
evict_loop_within =
    evict_loop_induction (λ s s'. (over_limit s' ≡ false) × (s'.max_size_mb ≡ s.max_size_mb))
      (λ s h. (h, refl)) (λ s s' best index e h. h)

evict_loop_idle : (fuel : ℕ) (s : CacheManager) → over_limit s ≡ false → evict_loop fuel s ≡ s
unfolding evict_loop
evict_loop_idle zero s h = refl
evict_loop_idle (suc fuel) s h = rw (h, evict_loop)

-- After `_maybe_evict` the entries take nine tenths of the limit at most: the loop is never cut short.
pub maybe_evict_within :
    (s : CacheManager) → 10 * current_size (maybe_evict s).index ≤ 9 * s.max_size_mb * 1_048_576
unfolding maybe_evict save_index over_limit
maybe_evict_within s = ground (arith, evict_loop_within (length s.index) s (omega arith))

-- A cache within the bound loses nothing.
pub maybe_evict_idle :
    (s : CacheManager)
    → over_limit s ≡ false
    → ((maybe_evict s).index ≡ s.index) × ((maybe_evict s).disk ≡ s.disk)
unfolding maybe_evict save_index
maybe_evict_idle s h = let idle = evict_loop_idle (length s.index) s h in rw idle (ground arith)
