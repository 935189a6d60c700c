-- ===== src/Client/Sync/Stored.antt =====
-- client/sync.py: what the cache holds after a sync.
use cpip.Common.{
  ℕ, suc, ◌+◌, ◌≤◌, ◌≡◌, refl, sym, String, true, false, Option, some, none, ◌==◌, eq_iff,
  if◌then◌else◌, arith, seconds, ltb, inl, inr, Bool-cases, Bool,
}
use mathlib.Core.Logic.{◌⊎◌}
use cpip.Common.Dict
use cpip.Common.Dict.{get-put}
use cpip.Files.{Metadata, Node, file, dir, json, Result, ok, err, is_a_directory}
use cpip.Shared.Json.{Json, Items}
use cpip.Client.Cache.State.{CacheManager}
use cpip.Client.Cache.Metadata.{
  meta_file, get_metadata, store_metadata, get_metadata-store_metadata,
  get_metadata-store_metadata_ne,
}
use cpip.Client.Sync.{Cloud, Progress, bad_answer, package_of, store_all, goes_on}

abbrev stamped : Metadata → ℕ → Metadata
stamped m now = record m { cached_at = some now }

abbrev newer : Option (String × Metadata) → String → ℕ → Option Metadata → Option Metadata
newer none key stored old = old
newer (some (name, m)) key stored old = if name == key then some (stamped m stored) else old

-- The metadata of `key` after the first packages of a catalog, those from `from` to `upto`: the last of
-- that name, with the time when it was stored, or else the old one.
abbrev pub latest : Cloud → (ℕ → ℕ) → ℕ → ℕ → Items → String → Option Metadata → Option Metadata
latest cloud clock from upto Items.no_items key old = old
latest cloud clock from upto (Items.item v vs) key old =
    let rest =
      latest cloud clock (suc from) upto vs key (newer (package_of cloud v) key (clock from) old) in
    if ltb from upto then rest else old

-- An error of the store changes nothing.
store_metadata_cases :
    (pkg : String) (m : Metadata) (now : ℕ) (s : CacheManager)
    → ((store_metadata pkg m now s).0 ≡ ok tt)
      ⊎ (((store_metadata pkg m now s).0 ≡ err is_a_directory)
          × ((store_metadata pkg m now s).1 ≡ s))
unfolding store_metadata
store_metadata_cases pkg m now s = ground arith

get-stored :
    (pkg key : String) (m : Metadata) (stored now : ℕ) (s : CacheManager)
    → (store_metadata pkg m stored s).0 ≡ ok tt
    → now ≤ stored + seconds 86400
    → (get_metadata key now (store_metadata pkg m stored s).1).0
      ≡ newer (some (pkg, m)) key stored (get_metadata key now s).0
get-stored pkg key m stored now s done fresh = elim (Bool-cases (pkg == key)) [
  | inl e ↦
      rw (e, sym ((eq_iff pkg key).0 e))
        (ground (arith, (get_metadata-store_metadata pkg m stored now s done).0, fresh))
  | inr e ↦ rw e (
      get_metadata-store_metadata_ne pkg m stored now s done key
        (λ same. ground (arith, e, same, eq_iff pkg key)))
]

-- Whether a directory is in the place of the file of a package.
abbrev is_dir_node : Option Node → Bool
is_dir_node (some (dir files)) = true
is_dir_node _ = false

abbrev pub in_the_way : CacheManager → String → Bool
in_the_way s name = is_dir_node (Dict.get s.disk (meta_file s name))

abbrev counts : CacheManager → Option (String × Metadata) → ℕ → ℕ
counts s none rest = 0
counts s (some (name, m)) rest = if in_the_way s name then 0 else suc rest

-- How many packages of a catalog can be stored: those before the first that has no name, or that a
-- directory is in the way of.
abbrev pub storable : Cloud → CacheManager → Items → ℕ
storable cloud s Items.no_items = 0
storable cloud s (Items.item v vs) = counts s (package_of cloud v) (storable cloud s vs)

-- What is stored is no directory.
in_the_way-store :
    (pkg key : String) (m : Metadata) (now : ℕ) (s : CacheManager)
    → in_the_way (store_metadata pkg m now s).1 key ≡ in_the_way s key
unfolding store_metadata
in_the_way-store pkg key m now s = ground (
  arith,
  get-put s.disk (meta_file s pkg) (meta_file s key)
      (file (json (record m { cached_at = some now }))),
  eq_iff (meta_file s pkg) (meta_file s key),
)

store_metadata_fails :
    (pkg : String) (m : Metadata) (now : ℕ) (s : CacheManager)
    → (store_metadata pkg m now s).0 ≡ (if in_the_way s pkg then err is_a_directory else ok tt)
unfolding store_metadata
store_metadata_fails pkg m now s = ground arith

storable-store :
    (cloud : Cloud) (pkg : String) (m : Metadata) (now : ℕ) (s : CacheManager) (vs : Items)
    → storable cloud (store_metadata pkg m now s).1 vs ≡ storable cloud s vs
storable-store cloud pkg m now s Items.no_items = refl
storable-store cloud pkg m now s (Items.item v vs) =
    go (package_of cloud v) (storable-store cloud pkg m now s vs)
  where
    go :
        (o : Option (String × Metadata)) {n k : ℕ}
        → n ≡ k
        → counts (store_metadata pkg m now s).1 o n ≡ counts s o k
    go none e = refl
    go (some (name, x)) e = rw (e, in_the_way-store pkg name m now s) refl

ltb_irrefl : (n : ℕ) → ltb n n ≡ false
ltb_irrefl n = ground arith

ltb_lt : (n m : ℕ) → suc n ≤ m → ltb n m ≡ true
ltb_lt n m h = ground (arith, h)

module _ (cloud : Cloud) (clock : ℕ → ℕ) where
  goes_on_le :
      (n : ℕ) (o : Result (Unit {0})) (cache : CacheManager) (rest : Progress)
      → suc n ≤ rest.updated
      → n ≤ (goes_on n o cache rest).updated
  goes_on_le n (ok u) cache rest h = omega (arith, h)
  goes_on_le n (err e) cache rest h = omega arith

  store_all-none :
      (n : ℕ) (v : Json) (vs : Items) (cache : CacheManager)
      → package_of cloud v ≡ none
      → store_all cloud clock n (Items.item v vs) cache
        ≡ record { updated = n; raised = some (bad_answer v); cache = cache }
  unfolding store_all
  store_all-none n v vs cache e = rw (store_all, e) refl

  store_all-some :
      (n : ℕ) (v : Json) (vs : Items) (cache : CacheManager) (name : String) (m : Metadata)
      → package_of cloud v ≡ some (name, m)
      → let out = store_metadata name m (clock n) cache in
        store_all cloud clock n (Items.item v vs) cache
        ≡ goes_on n out.0 out.1 (store_all cloud clock (suc n) vs out.1)
  unfolding store_all
  store_all-some n v vs cache name m e = rw (store_all, e) refl

  step_le :
      (n : ℕ) (v : Json) (vs : Items) (cache : CacheManager) (o : Option (String × Metadata))
      → package_of cloud v ≡ o
      → ((c : CacheManager) → suc n ≤ (store_all cloud clock (suc n) vs c).updated)
      → n ≤ (store_all cloud clock n (Items.item v vs) cache).updated
  step_le n v vs cache none e rest = rw (store_all-none n v vs cache e) (omega arith)
  step_le n v vs cache (some (name, m)) e rest =
      let out = store_metadata name m (clock n) cache in
      rw (store_all-some n v vs cache name m e)
        (goes_on_le n out.0 out.1 (store_all cloud clock (suc n) vs out.1) (rest out.1))

  updated_le :
      (n : ℕ) (vs : Items) (cache : CacheManager) → n ≤ (store_all cloud clock n vs cache).updated
  unfolding store_all
  updated_le n Items.no_items cache = omega arith
  updated_le n (Items.item v vs) cache =
      step_le n v vs cache (package_of cloud v) refl (λ c. updated_le (suc n) vs c)

  step-storable :
      (n : ℕ) (v : Json) (vs : Items) (cache : CacheManager) (o : Option (String × Metadata))
      → package_of cloud v ≡ o
      → ((c : CacheManager)
          → (store_all cloud clock (suc n) vs c).updated ≡ suc n + storable cloud c vs)
      → (store_all cloud clock n (Items.item v vs) cache).updated
        ≡ n + storable cloud cache (Items.item v vs)
  step-storable n v vs cache none e rest = rw (store_all-none n v vs cache e, e) (omega arith)
  step-storable n v vs cache (some (name, m)) e rest =
      let out = store_metadata name m (clock n) cache in
      elim (Bool-cases (in_the_way cache name)) [
        | inl w ↦
            rw
              (
                store_all-some n v vs cache name m e,
                e,
                store_metadata_fails name m (clock n) cache,
                w,
              )
              (omega arith)
        | inr w ↦
            rw
              (
                store_all-some n v vs cache name m e,
                e,
                store_metadata_fails name m (clock n) cache,
                w,
              )
              (ground (arith, rest out.1, storable-store cloud name m (clock n) cache vs))
      ]

  -- The loop stores exactly the packages that can be stored.
  pub store_all-storable :
      (n : ℕ) (vs : Items) (cache : CacheManager)
      → (store_all cloud clock n vs cache).updated ≡ n + storable cloud cache vs
  unfolding store_all
  store_all-storable n Items.no_items cache = omega arith
  store_all-storable n (Items.item v vs) cache =
      step-storable n v vs cache (package_of cloud v) refl (λ c. store_all-storable (suc n) vs c)

  module _ (key : String) (now : ℕ) (fresh : (i : ℕ) → now ≤ clock i + seconds 86400) where
    abbrev found : CacheManager → Option Metadata
    found cache = (get_metadata key now cache).0

    abbrev Kept : ℕ → Items → CacheManager → Type 0
    Kept n vs cache =
        let done = store_all cloud clock n vs cache in
        found done.cache ≡ latest cloud clock n done.updated vs key (found cache)

    step-Kept :
        (n : ℕ) (v : Json) (vs : Items) (cache : CacheManager) (o : Option (String × Metadata))
        → package_of cloud v ≡ o
        → ((c : CacheManager) → Kept (suc n) vs c)
        → Kept n (Items.item v vs) cache
    step-Kept n v vs cache none e rest = rw (store_all-none n v vs cache e, ltb_irrefl n) refl
    step-Kept n v vs cache (some (name, m)) e rest =
        let out = store_metadata name m (clock n) cache in
        let done = store_all cloud clock (suc n) vs out.1 in
        elim (store_metadata_cases name m (clock n) cache) [
          | inl stored ↦
              rw
                (
                  store_all-some n v vs cache name m e,
                  e,
                  stored,
                  ltb_lt n done.updated (updated_le (suc n) vs out.1),
                  sym (get-stored name key m (clock n) now cache stored (fresh n)),
                )
                (rest out.1)
          | inr (failed, same) ↦
              rw (store_all-some n v vs cache name m e, failed, same, ltb_irrefl n) refl
        ]

    pub get-store_all : (n : ℕ) (vs : Items) (cache : CacheManager) → Kept n vs cache
    unfolding store_all
    get-store_all n Items.no_items cache = refl
    get-store_all n (Items.item v vs) cache =
        step-Kept n v vs cache (package_of cloud v) refl (λ c. get-store_all (suc n) vs c)
