-- ===== src/Server/Auth/RateLimiter/Pruning.antt =====
-- server/auth/rate_limiter.py: dropping old times and idle clients hides no recent request.
use cpip.Common.{
  ℕ, ◌≤◌, String, ◌≡◌, refl, ◌⊎◌, inl, true, some, ltb, List, [], ◌∷◌, arith, select, eq_iff,
  eq_refl, if◌then◌else◌,
}
use cpip.Common.Dict
use cpip.Common.Dict.{get-put, get-remove}
use cpip.Server.Auth.RateLimiter.{
  Request, RateLimit, client_key, check_key, check, remaining, Windows, is_recent, window, all_old,
  prune_loop, prune, cleaned,
}

module _ (w now : ℕ) where
  -- Times that are old now are old at any later time.
  select_old :
      (later : ℕ) (l : List ℕ)
      → now ≤ later
      → all_old w now l ≡ true
      → select (is_recent w later) l ≡ []
  unfolding all_old
  select_old later [] h old = refl
  select_old later (t ∷ l) h old = ground (arith, select_old later l h)

  select-select :
      (later : ℕ) (l : List ℕ)
      → now ≤ later
      → select (is_recent w later) (select (is_recent w now) l) ≡ select (is_recent w later) l
  select-select later [] h = refl
  select-select later (t ∷ l) h = ground (arith, select-select later l h)

  select_not_old :
      (l : List ℕ)
      → all_old w now (select (is_recent w now) l) ≡ true
      → select (is_recent w now) l ≡ []
  unfolding all_old
  select_not_old [] old = refl
  select_not_old (t ∷ l) old = ground (arith, select_not_old l)

  -- What the pruning does to one client: nothing, or it drops times that are all old.
  window-prune_loop :
      (keys : List String) (ws : Windows) (k : String)
      → (window (prune_loop w now keys ws) k ≡ window ws k)
        ⊎ ((window (prune_loop w now keys ws) k ≡ []) × (all_old w now (window ws k) ≡ true))
  unfolding prune_loop all_old
  window-prune_loop [] ws k = inl refl
  window-prune_loop (key ∷ keys) ws k =
      let ws' = if all_old w now (window ws key) then Dict.remove ws key else ws in
      ground (arith, window-prune_loop keys ws' k, get-remove ws key k, eq_iff key k)

  window-prune :
      (ws : Windows) (k : String)
      → (window (prune w now ws) k ≡ window ws k)
        ⊎ ((window (prune w now ws) k ≡ []) × (all_old w now (window ws k) ≡ true))
  unfolding prune
  window-prune ws k = ground (arith, window-prune_loop (Dict.keys ws) ws k)

  -- `check` compares the recent times of the client, whatever was pruned.
  pub window-cleaned_self :
      (key : String) (ws : Windows)
      → window (cleaned w now key ws) key ≡ select (is_recent w now) (window ws key)
  unfolding cleaned
  window-cleaned_self key ws =
      let times = select (is_recent w now) (window ws key) in
      ground (
        arith,
        window-prune (Dict.put ws key times) key,
        get-put ws key key times,
        eq_refl key,
        select_not_old (window ws key),
      )

  -- From now on, the recent times of every client are what they were.
  pub select-cleaned :
      (key : String) (ws : Windows) (k : String) (later : ℕ)
      → now ≤ later
      → select (is_recent w later) (window (cleaned w now key ws) k)
        ≡ select (is_recent w later) (window ws k)
  unfolding cleaned
  select-cleaned key ws k later h =
      let times = select (is_recent w now) (window ws key) in
      ground (
        arith,
        window-prune (Dict.put ws key times) k,
        get-put ws key k times,
        eq_iff key k,
        select-select later (window ws key) h,
        select_old later (window (Dict.put ws key times) k) h,
      )

-- A request passes `check` exactly if `remaining`, asked at the same time, is positive.
pub check-remaining :
    (r : Request) (limit : RateLimit) (now : ℕ) (ws : Windows)
    → (check (some r) limit now ws).0 ≡ ltb 0 (remaining (some r) limit now ws)
unfolding check check_key remaining
check-remaining r limit now ws =
    ground (arith, window-cleaned_self limit.window_seconds now (client_key (some r)) ws)
