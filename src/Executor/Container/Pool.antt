-- ===== src/Executor/Container/Pool.antt =====
-- executor/container.py: containers are used by one at a time, and few are kept warm.
use text.Mathlib.TextEquality.{eq_iff}
use cpip.Common.{
  ℕ, ◌≤◌, ◌<◌, ◌≡◌, refl, String, Bool, true, false, none, some, [], ◌∷◌, ◌++◌, arith, ltb, length,
  length-append, if◌then◌else◌, choose_some, ltb→lt,
}
use cpip.Common.Dict
use cpip.Common.Dict.{Dict, get-put, get-remove}
use cpip.Executor.Container.{
  Container, ContainerPool, new_pool, new_container, take_fitting, put_in_use, acquire, release,
  destroy,
}
use cpip.Executor.Container.Taken.{count, warm_count-append, take_fitting-Taken}

acquire-count :
    (uuid image : String) (gpu : Bool) (p : ContainerPool) (id : String)
    → count uuid p ≡ 0
    → ((j : String) → count j p ≤ 1)
    → count id (acquire uuid image gpu p).1 ≤ 1
unfolding acquire
acquire-count uuid image gpu p id f h =
    choose_some (λ (r : Container × ContainerPool). count id r.1 ≤ 1)
      (take_fitting image gpu p.available) (put_in_use (new_container uuid image gpu) p)
      (λ found. put_in_use found.0 (record p { available = found.1 }))
      (λ e.
        ground
          (arith, f, h id, eq_iff uuid id, get-put p.in_use uuid id (new_container uuid image gpu)))
      (λ found e. ground (
        arith,
        h id,
        (take_fitting-Taken image gpu p.available found e).2 id,
        eq_iff found.0.id id,
        get-put p.in_use found.0.id id found.0,
      ))

-- A container in use stands under its id.
abbrev pub Named : Dict Container → Type 0
Named d = (k : String) (c : Container) → Dict.get d k ≡ some c → c.id ≡ k

put-Named : (d : Dict Container) (c : Container) → Named d → Named (Dict.put d c.id c)
put-Named d c named k x h = ground (arith, h, named k x, get-put d c.id k c, eq_iff c.id k)

remove-Named : (d : Dict Container) (j : String) → Named d → Named (Dict.remove d j)
remove-Named d j named k x h = ground (arith, h, named k x, get-remove d j k, eq_iff j k)

acquire-Named :
    (uuid image : String) (gpu : Bool) (p : ContainerPool)
    → Named p.in_use
    → Named (acquire uuid image gpu p).1.in_use
unfolding acquire
acquire-Named uuid image gpu p named =
    choose_some (λ (r : Container × ContainerPool). Named r.1.in_use)
      (take_fitting image gpu p.available) (put_in_use (new_container uuid image gpu) p)
      (λ found. put_in_use found.0 (record p { available = found.1 }))
      (λ e. put-Named p.in_use (new_container uuid image gpu) named)
      (λ found e. put-Named p.in_use found.0 named)

if_holds {ℓ κ} :
    {A : Type ℓ} (P : A → Type κ) (b : Bool) (x y : A)
    → (b ≡ true → P x)
    → P y
    → P (if b then x else y)
if_holds P true x y h k = h refl
if_holds P false x y h k = k

release_cases {ℓ} :
    (P : ContainerPool → Type ℓ) (j : String) (p : ContainerPool)
    → (Dict.get p.in_use j ≡ none → P (record p { in_use = Dict.remove p.in_use j }))
    → ((c : Container)
        → Dict.get p.in_use j ≡ some c
        → length p.available < p.pool_size
        → P (record p { in_use = Dict.remove p.in_use j; available = p.available ++ c ∷ [] }))
    → ((c : Container)
        → Dict.get p.in_use j ≡ some c
        → P (destroy c (record p { in_use = Dict.remove p.in_use j })))
    → P (release j p)
unfolding release
release_cases P j p h k l =
    choose_some P (Dict.get p.in_use j) (record p { in_use = Dict.remove p.in_use j })
      (λ c.
        if ltb (length p.available) p.pool_size
        then record p { in_use = Dict.remove p.in_use j; available = p.available ++ c ∷ [] }
        else destroy c (record p { in_use = Dict.remove p.in_use j }))
      h
      (λ c e.
        if_holds P (ltb (length p.available) p.pool_size) _ _
          (λ t. k c e (ltb→lt (length p.available) p.pool_size t)) (l c e))

release-count :
    (j id : String) (p : ContainerPool) → Named p.in_use → count id (release j p) ≤ count id p
release-count j id p named =
    release_cases (λ (q : ContainerPool). count id q ≤ count id p) j p
      (λ e. ground (arith, e, eq_iff j id, get-remove p.in_use j id))
      (λ c e l. ground (
        arith,
        e,
        named j c e,
        eq_iff j id,
        get-remove p.in_use j id,
        warm_count-append id p.available (c ∷ []),
      ))
      (λ c e. ground (arith, e, eq_iff j id, get-remove p.in_use j id))

-- The pools that are reached when each container that is made has an id that is not there.
pub data Run : ContainerPool → Type 0 where
  started : (pool_size : ℕ) → Run (new_pool pool_size)
  acquired :
      {p : ContainerPool} (uuid image : String) (gpu : Bool)
      → count uuid p ≡ 0
      → Run p
      → Run (acquire uuid image gpu p).1
  released : {p : ContainerPool} (id : String) → Run p → Run (release id p)

nil-Named : Named []
unfolding Dict.get
nil-Named k c h = absurd (cc h)

Run-Named : (p : ContainerPool) → Run p → Named p.in_use
Run-Named _ (Run.started n) = nil-Named
Run-Named _ (Run.acquired {p} uuid image gpu f r) = acquire-Named uuid image gpu p (Run-Named p r)
Run-Named _ (Run.released {p} j r) =
    release_cases (λ (q : ContainerPool). Named q.in_use) j p
      (λ e. remove-Named p.in_use j (Run-Named p r))
      (λ c e l. remove-Named p.in_use j (Run-Named p r))
      (λ c e. remove-Named p.in_use j (Run-Named p r))

count_new : (id : String) (n : ℕ) → count id (new_pool n) ≡ 0
unfolding Dict.get
count_new id n = refl

Run-count : (p : ContainerPool) (id : String) → Run p → count id p ≤ 1
Run-count _ id (Run.started n) = omega (arith, count_new id n)
Run-count _ id (Run.acquired {p} uuid image gpu f r) =
    acquire-count uuid image gpu p id f (λ j. Run-count p j r)
Run-count _ id (Run.released {p} j r) =
    omega (arith, release-count j id p (Run-Named p r), Run-count p id r)

-- The bound of the warm containers.
abbrev Bounded : ContainerPool → Type 0
Bounded p = length p.available ≤ p.pool_size

acquire-Bounded :
    (uuid image : String) (gpu : Bool) (p : ContainerPool)
    → Bounded p
    → Bounded (acquire uuid image gpu p).1
unfolding acquire
acquire-Bounded uuid image gpu p h =
    choose_some (λ (r : Container × ContainerPool). Bounded r.1)
      (take_fitting image gpu p.available) (put_in_use (new_container uuid image gpu) p)
      (λ found. put_in_use found.0 (record p { available = found.1 })) (λ e. h)
      (λ found e. omega (arith, h, (take_fitting-Taken image gpu p.available found e).1))

Run-Bounded : (p : ContainerPool) → Run p → Bounded p
Run-Bounded _ (Run.started n) = omega arith
Run-Bounded _ (Run.acquired {p} uuid image gpu f r) =
    acquire-Bounded uuid image gpu p (Run-Bounded p r)
Run-Bounded _ (Run.released {p} j r) =
    release_cases Bounded j p (λ e. Run-Bounded p r)
      (λ c e l. omega (arith, l, length-append p.available (c ∷ []))) (λ c e. Run-Bounded p r)

-- After any acquisitions and releases no container is used twice, nor warm and in use, and there are
-- no more warm containers than the size of the pool.
pub containers_once :
    (p : ContainerPool) (id : String)
    → Run p
    → (count id p ≤ 1) × (length p.available ≤ p.pool_size)
containers_once p id r = (Run-count p id r, Run-Bounded p r)
