-- ===== src/Client/Cache/Evict.antt =====
-- client/cache.py: eviction, `_current_size_mb` and `_maybe_evict`.
pub mod Bounds
pub mod Order
use cpip.Common.{
  ℕ, zero, suc, ◌+◌, ◌*◌, String, Bool, true, false, Option, none, some, [], ◌∷◌, ltb, length,
  if◌then◌else◌,
}
use cpip.Client.Cache.State.{CacheManager, CacheEntry, Index, save_index, delete, forget}

-- The sum of `_current_size_mb`, in bytes.
unfoldable pub current_size : Index → ℕ
current_size [] = 0
current_size ((_, e) ∷ index) = e.size + current_size index

-- `self._current_size_mb() > self.max_size_mb * 0.9`, with both sides multiplied out.
unfoldable pub over_limit : CacheManager → Bool
over_limit s = ltb (9 * s.max_size_mb * 1_048_576) (10 * current_size s.index)

-- `min(keys, key=last_accessed)`: the first of the least.
unfoldable pub oldest_from : String × CacheEntry → Index → String × CacheEntry
oldest_from best [] = best
oldest_from best ((k, e) ∷ index) =
    oldest_from (if ltb e.last_accessed best.1.last_accessed then (k, e) else best) index

unfoldable pub oldest : Index → Option (String × CacheEntry)
oldest [] = none
oldest (entry ∷ index) = some (oldest_from entry index)

-- One round of the loop: the file or the directory goes, and the entry.
unfoldable pub evict_entry : String × CacheEntry → CacheManager → CacheManager
evict_entry (key, e) s = forget key (delete e.path s)

-- The `while` loop on fuel.
unfoldable pub evict_loop : ℕ → CacheManager → CacheManager
evict_loop zero s = s
evict_loop (suc fuel) s = elim (over_limit s) [
  | false ↦ s
  | true ↦ elim (oldest s.index) [ none ↦ s | some entry ↦ evict_loop fuel (evict_entry entry s) ]
]

-- Every round takes an entry, so the length of the index is fuel enough (Evict/Bounds).
unfoldable pub maybe_evict : CacheManager → CacheManager
maybe_evict s = save_index (evict_loop (length s.index) s)
