-- ===== src/Client/Sync/Rounds.antt =====
-- client/sync.py: a sync on each of its branches, and the rounds after it.
use cpip.Common.{
  ℕ, ◌+◌, ◌<◌, ◌≤◌, ◌≡◌, refl, ap, ◌∙◌, sym, String, Option, some, none, arith, seconds, eqb, inl,
  inr, if◌then◌else◌, Bool-cases,
}
use mathlib.Core.Logic.{◌⊎◌}
use mathlib.Core.Option.{map}
use cpip.Shared.Json.{Json, Items, get_or}
use cpip.Client.Cache.State.{CacheManager}
use cpip.Client.Cache.Metadata.{get_metadata}
use cpip.Client.Sync.{
  Cloud, Answer, Results, Progress, SyncManager, store_body, store_answer, update, store_catalog,
  store_all, packages_of, do_sync, sync_round,
}
use cpip.Client.Sync.Stored.{latest, storable, store_all-storable, get-store_all}

-- The packages of a catalog, and those that the cloud offers; none where an answer is missing or wrong.
abbrev packages : Json → Items
packages (Json.object d) = elim (packages_of (get_or d "packages" (Json.array Items.no_items))) [
  | none ↦ Items.no_items
  | some vs ↦ vs
]
packages _ = Items.no_items

abbrev body_packages : Option Json → Items
body_packages none = Items.no_items
body_packages (some v) = packages v

abbrev answer_packages : Option Answer → Items
answer_packages none = Items.no_items
answer_packages (some answer) =
    if eqb answer.status_code 200 then body_packages answer.body else Items.no_items

abbrev pub offered : Cloud → Items
offered cloud = elim cloud.register [
  | some e ↦ Items.no_items
  | none ↦ answer_packages cloud.catalog
]

-- There is no package and nothing was done, or the loop ran over the packages.
abbrev Covers : Cloud → (ℕ → ℕ) → CacheManager → Items → Progress → Type 0
Covers cloud clock cache vs done =
    (done ≡ store_all cloud clock 0 vs cache)
    ⊎ ((vs ≡ Items.no_items) × (done.updated ≡ 0) × (done.cache ≡ cache))

store_catalog-Covers :
    (cloud : Cloud) (clock : ℕ → ℕ) (v : Json) (cache : CacheManager)
    → Covers cloud clock cache (packages v) (store_catalog cloud clock v cache)
store_catalog-Covers cloud clock (Json.object d) cache = ground arith
store_catalog-Covers cloud clock Json.null cache = inr (refl, refl, refl)
store_catalog-Covers cloud clock (Json.boolean b) cache = inr (refl, refl, refl)
store_catalog-Covers cloud clock (Json.number n) cache = inr (refl, refl, refl)
store_catalog-Covers cloud clock (Json.string s) cache = inr (refl, refl, refl)
store_catalog-Covers cloud clock (Json.array vs) cache = inr (refl, refl, refl)

store_body-Covers :
    (cloud : Cloud) (clock : ℕ → ℕ) (body : Option Json) (cache : CacheManager)
    → Covers cloud clock cache (body_packages body) (store_body cloud clock body cache)
store_body-Covers cloud clock none cache = inr (refl, refl, refl)
store_body-Covers cloud clock (some v) cache = store_catalog-Covers cloud clock v cache

store_answer-Covers :
    (cloud : Cloud) (clock : ℕ → ℕ) (o : Option Answer) (cache : CacheManager)
    → Covers cloud clock cache (answer_packages o) (store_answer cloud clock o cache)
store_answer-Covers cloud clock none cache = inr (refl, refl, refl)
store_answer-Covers cloud clock (some answer) cache =
    elim (Bool-cases (eqb answer.status_code 200)) [
      | inl e ↦ rw e (store_body-Covers cloud clock answer.body cache)
      | inr e ↦ rw e (inr (refl, refl, refl))
    ]

register-Covers :
    (cloud : Cloud) (clock : ℕ → ℕ) (cache : CacheManager) (o : Option String)
    → cloud.register ≡ o
    → Covers cloud clock cache (offered cloud) (update cloud clock cache)
unfolding store_all
register-Covers cloud clock cache none e =
    rw (update, e) (store_answer-Covers cloud clock cloud.catalog cache)
register-Covers cloud clock cache (some x) e = rw (update, e) (inr (refl, refl, refl))

update-Covers :
    (cloud : Cloud) (clock : ℕ → ℕ) (cache : CacheManager)
    → Covers cloud clock cache (offered cloud) (update cloud clock cache)
update-Covers cloud clock cache = register-Covers cloud clock cache cloud.register refl

update-storable :
    (cloud : Cloud) (clock : ℕ → ℕ) (cache : CacheManager)
    → (update cloud clock cache).updated ≡ storable cloud cache (offered cloud)
update-storable cloud clock cache = elim (update-Covers cloud clock cache) [
  | inl e ↦ ground (
    arith,
    ap (λ (done : Progress). done.updated) e,
    store_all-storable cloud clock 0 (offered cloud) cache,
  )
  | inr (no_item, none_new, same) ↦
      none_new ∙ sym (ap (λ (vs : Items). storable cloud cache vs) no_item)
]

module _ (cloud : Cloud) (clock : ℕ → ℕ) (key : String) (now : ℕ)
    (fresh : (i : ℕ) → now ≤ clock i + seconds 86400) where
  get-update :
      (cache : CacheManager)
      → let done = update cloud clock cache in
        (get_metadata key now done.cache).0
        ≡ latest cloud clock 0 done.updated (offered cloud) key (get_metadata key now cache).0
  get-update cache = elim (update-Covers cloud clock cache) [
    | inl e ↦ rw e (get-store_all cloud clock key now fresh 0 (offered cloud) cache)
    | inr (no_item, none_new, same) ↦ rw (no_item, same) refl
  ]

  -- A sync stores, in their order, the packages that the cloud offers, up to the first that has no name
  -- or that a directory is in the way of, and counts them; where the cloud cannot be reached or its
  -- answer is wrong, it offers none. After it the cache has, for as long as they are fresh, the last of
  -- these packages of each name, with the time when it was stored, and all others as before. Where
  -- the time of the sync cannot be written there are no results. Until an hour has passed, no round
  -- syncs again, errors or not.
  pub do_sync_lem :
      (begun ended later begun_again ended_again : ℕ) (s : SyncManager)
      → later < ended + seconds 3600
      → let (results, s1) = do_sync cloud clock begun ended s in
        let count = storable cloud s.cache (offered cloud) in
        (map (λ (r : Results). r.metadata_updated) results
          ≡ (if s.writable then some count else none))
        × ((get_metadata key now s1.cache).0
            ≡ latest cloud clock 0 count (offered cloud) key (get_metadata key now s.cache).0)
        × (sync_round cloud clock later begun_again ended_again s1 ≡ s1)
  unfolding do_sync sync_round
  do_sync_lem begun ended later begun_again ended_again s soon = (
    ground (arith, update-storable cloud clock s.cache),
    ground (arith, get-update s.cache, update-storable cloud clock s.cache),
    ground (arith, soon),
  )
