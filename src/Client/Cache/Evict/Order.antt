-- ===== src/Client/Cache/Evict/Order.antt =====
-- client/cache.py: what `_maybe_evict` removes, and in what order.
use cpip.Common.{
  ℕ, ◌≤◌, String, ◌≡◌, refl, ◌≢◌, none, some, [], ◌∷◌, arith, eq_iff, length, Option-cases, inl,
  inr, eq_refl,
}
use cpip.Common.Dict
use cpip.Common.Dict.{Unique, get-remove, remove-Unique}
use cpip.Client.Cache.State.{CacheManager, CacheEntry, Index, save_index}
use cpip.Client.Cache.Evict.{oldest_from, evict_entry, evict_loop, maybe_evict}
use cpip.Client.Cache.Evict.Bounds.{evict_loop_induction}

-- The entry that is picked stands in the index.
oldest_from-get :
    (best : String × CacheEntry) (index : Index)
    → Unique (best ∷ index)
    → Dict.get (best ∷ index) (oldest_from best index).0 ≡ some (oldest_from best index).1
unfolding oldest_from Dict.get
oldest_from-get (b, x) [] u = ground (arith, eq_iff b b)
oldest_from-get (b, x) ((k, e) ∷ index) u = ground (
  arith,
  eq_iff b b,
  eq_iff k b,
  eq_iff b k,
  eq_iff b (oldest_from (k, e) index).0,
  eq_iff k (oldest_from (b, x) index).0,
  oldest_from-get (k, e) index u.1,
  oldest_from-get (b, x) index,
)

oldest_from-le_best :
    (best : String × CacheEntry) (index : Index)
    → (oldest_from best index).1.last_accessed ≤ best.1.last_accessed
unfolding oldest_from
oldest_from-le_best best [] = omega arith
oldest_from-le_best (b, x) ((k, y) ∷ index) =
    ground (arith, oldest_from-le_best (k, y) index, oldest_from-le_best (b, x) index)

-- No entry of the index was used longer ago.
oldest_from-le :
    (best : String × CacheEntry) (index : Index) (j : String) (e : CacheEntry)
    → Dict.get (best ∷ index) j ≡ some e
    → (oldest_from best index).1.last_accessed ≤ e.last_accessed
unfolding oldest_from Dict.get
oldest_from-le (b, x) [] j e h = ground arith
oldest_from-le (b, x) ((k, y) ∷ index) j e h = ground (
  arith,
  oldest_from-le_best (k, y) index,
  oldest_from-le_best (b, x) index,
  oldest_from-le (k, y) index j e,
  oldest_from-le (b, x) index j e,
)

-- What an eviction from `s` to `s'` may do. `kept`: what stays is unchanged. `older`: what goes was
-- used no later than anything that stays. `deleted`: the path of what goes is off the disk.
-- `no_new`: no path comes up. `others`: a path of no removed entry holds what it held.
pub record Evicts (s s' : CacheManager) : Type 0 where
  pub kept :
      (j : String) (e : CacheEntry) → Dict.get s'.index j ≡ some e → Dict.get s.index j ≡ some e
  pub older :
      (k j : String) (e e' : CacheEntry)
      → Dict.get s.index k ≡ some e
      → Dict.get s'.index k ≡ none
      → Dict.get s'.index j ≡ some e'
      → e.last_accessed ≤ e'.last_accessed
  pub deleted :
      (k : String) (e : CacheEntry)
      → Dict.get s.index k ≡ some e
      → Dict.get s'.index k ≡ none
      → Dict.get s'.disk e.path ≡ none
  pub no_new : (p : String) → Dict.get s.disk p ≡ none → Dict.get s'.disk p ≡ none
  pub others :
      (p : String)
      → ((k : String) (e : CacheEntry)
          → Dict.get s.index k ≡ some e
          → Dict.get s'.index k ≡ none
          → e.path ≢ p)
      → Dict.get s'.disk p ≡ Dict.get s.disk p

Evicts-refl : (s : CacheManager) → Evicts s s
Evicts-refl s = record {
  kept = λ j e h. h;
  older = λ k j e e' h g m. absurd (cc);
  deleted = λ k e h g. absurd (cc);
  no_new = λ p h. h;
  others = λ p h. refl;
}

-- One round: the entry (k0, e0) goes, and then what the rest of the loop takes.
module _ (s s' : CacheManager) (k0 : String) (e0 : CacheEntry)
    (there : Dict.get s.index k0 ≡ some e0)
    (least : (j : String) (e : CacheEntry)
      → Dict.get s.index j ≡ some e
      → e0.last_accessed ≤ e.last_accessed)
    (rest : Evicts (evict_entry (k0, e0) s) s') where
  round_kept :
      (j : String) (e : CacheEntry) → Dict.get s'.index j ≡ some e → Dict.get s.index j ≡ some e
  unfolding evict_entry
  round_kept j e h = ground (arith, rest.kept j e, get-remove s.index k0 j)

  round_gone : Dict.get s'.index k0 ≡ none
  unfolding evict_entry
  round_gone = elim (Option-cases (Dict.get s'.index k0)) [
    | inl n ↦ n
    | inr (e, h) ↦ ground (arith, rest.kept k0 e h, get-remove s.index k0 k0, eq_iff k0 k0)
  ]

  round_older :
      (k j : String) (e e' : CacheEntry)
      → Dict.get s.index k ≡ some e
      → Dict.get s'.index k ≡ none
      → Dict.get s'.index j ≡ some e'
      → e.last_accessed ≤ e'.last_accessed
  unfolding evict_entry
  round_older k j e e' h g m = ground (
    arith,
    eq_iff k0 k,
    get-remove s.index k0 k,
    rest.older k j e e',
    round_kept j e' m,
    least j e',
  )

  round_no_new : (p : String) → Dict.get s.disk p ≡ none → Dict.get s'.disk p ≡ none
  unfolding evict_entry
  round_no_new p h = ground (arith, rest.no_new p, get-remove s.disk e0.path p)

  round_deleted :
      (k : String) (e : CacheEntry)
      → Dict.get s.index k ≡ some e
      → Dict.get s'.index k ≡ none
      → Dict.get s'.disk e.path ≡ none
  unfolding evict_entry
  round_deleted k e h g = ground (
    arith,
    eq_iff k0 k,
    get-remove s.index k0 k,
    rest.deleted k e,
    rest.no_new e0.path,
    get-remove s.disk e0.path e0.path,
    eq_refl e0.path,
  )

  round_others :
      (p : String)
      → ((k : String) (e : CacheEntry)
          → Dict.get s.index k ≡ some e
          → Dict.get s'.index k ≡ none
          → e.path ≢ p)
      → Dict.get s'.disk p ≡ Dict.get s.disk p
  unfolding evict_entry
  round_others p h = ground (
    arith,
    h k0 e0 there round_gone,
    eq_iff e0.path p,
    get-remove s.disk e0.path p,
    rest.others p (λ k e m g. h k e (ground (arith, m, get-remove s.index k0 k)) g),
  )

  round_lem : Evicts s s'
  round_lem = record {
    kept = round_kept;
    older = round_older;
    deleted = round_deleted;
    no_new = round_no_new;
    others = round_others;
  }

-- Saving the index moves neither an entry nor a file.
pub index-save_index : (s : CacheManager) → (save_index s).index ≡ s.index
unfolding save_index
index-save_index s = ground arith

pub disk-save_index : (s : CacheManager) → (save_index s).disk ≡ s.disk
unfolding save_index
disk-save_index s = ground arith

Evicts-save_index : (s s' : CacheManager) → Evicts s s' → Evicts s (save_index s')
Evicts-save_index s s' h = record {
  kept = λ j e. rw (index-save_index s') (h.kept j e);
  older = λ k j e e'. rw (index-save_index s') (h.older k j e e');
  deleted = λ k e. rw (index-save_index s', disk-save_index s') (h.deleted k e);
  no_new = λ p. rw (disk-save_index s') (h.no_new p);
  others = λ p. rw (index-save_index s', disk-save_index s') (h.others p);
}

evict_loop-Evicts :
    (fuel : ℕ) (s : CacheManager)
    → length s.index ≤ fuel
    → Unique s.index
    → Unique (evict_loop fuel s).index × Evicts s (evict_loop fuel s)
unfolding evict_entry
evict_loop-Evicts =
    evict_loop_induction (λ s s'. Unique s.index → Unique s'.index × Evicts s s')
      (λ s h u. (u, Evicts-refl s))
      λ s s' best index e rest u.
        let picked = oldest_from best index in
        let v : Unique (best ∷ index) = rw e at u in
        let r = rest (remove-Unique s.index picked.0 u) in
        (
          r.0,
          round_lem s s' picked.0 picked.1 (rw e (oldest_from-get best index v))
              (λ j x m. oldest_from-le best index j x (rw e at m)) r.1,
        )

-- `_maybe_evict` keeps the keys of the index distinct. What it removes was used no later than what it
-- keeps, its path is off the disk, and every entry and every other path that stays is unchanged.
pub maybe_evict-Evicts :
    (s : CacheManager) → Unique s.index → Unique (maybe_evict s).index × Evicts s (maybe_evict s)
unfolding maybe_evict
maybe_evict-Evicts s u =
    let looped = evict_loop-Evicts (length s.index) s (omega arith) u in
    (rw index-save_index looped.0, Evicts-save_index s (evict_loop (length s.index) s) looped.1)
