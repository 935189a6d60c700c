-- ===== src/Executor/Container.antt =====
-- executor/container.py: the pool of warm containers. `uuid4` is an argument: the id of a container
-- that is made. The containers that were destroyed are recorded. Each operation runs as one step: what
-- it awaits touches the pool only before or after.
pub mod Taken
pub mod Pool
mod Tests
use cpip.Common.{
  ℕ, ◌+◌, ◌-◌, String, Bool, true, false, not, ◌&&◌, Option, none, some, List, [], ◌∷◌, ◌++◌, ltb,
  length, take, ◌==◌, if◌then◌else◌,
}
use cpip.Common.Dict
use cpip.Common.Dict.{Dict}

pub data Status : Type 0 where
  created : Status
  running : Status
  stopped : Status

pub record Container : Type 0 where
  pub id : String
  pub name : String
  pub image : String
  pub status : Status
  pub gpu : Bool

pub record ContainerPool : Type 0 where
  pub pool_size : ℕ
  pub available : List Container
  pub in_use : Dict Container
  pub destroyed : List Container

abbrev pub new_pool : ℕ → ContainerPool
new_pool pool_size = record { pool_size = pool_size; available = []; in_use = []; destroyed = [] }

abbrev pub bool_eq : Bool → Bool → Bool
bool_eq true b = b
bool_eq false b = not b

-- `c.image == image and c.gpu == gpu`
abbrev pub fits : String → Bool → Container → Bool
fits image gpu c = c.image == image && bool_eq c.gpu gpu

-- The first container that fits, and the others in their order.
unfoldable pub take_fitting : String → Bool → List Container → Option (Container × List Container)
take_fitting image gpu [] = none
take_fitting image gpu (c ∷ cs) =
    let rest = take_fitting image gpu cs in
    elim (fits image gpu c) [
      | true ↦ some (c, cs)
      | false ↦ elim rest [ none ↦ none | some found ↦ some (found.0, c ∷ found.1) ]
    ]

-- `_create`; the name is the id.
abbrev pub new_container : String → String → Bool → Container
new_container uuid image gpu = record {
  id = uuid;
  name = uuid;
  image = image;
  status = Status.running;
  gpu = gpu;
}

abbrev pub put_in_use : Container → ContainerPool → Container × ContainerPool
put_in_use c p = (c, record p { in_use = Dict.put p.in_use c.id c })

unfoldable pub acquire : String → String → Bool → ContainerPool → Container × ContainerPool
acquire uuid image gpu p = elim (take_fitting image gpu p.available) [
  | none ↦ put_in_use (new_container uuid image gpu) p
  | some found ↦ put_in_use found.0 (record p { available = found.1 })
]

-- `_destroy`
abbrev pub destroy : Container → ContainerPool → ContainerPool
destroy c p = record p { destroyed = p.destroyed ++ c ∷ [] }

unfoldable pub release : String → ContainerPool → ContainerPool
release container_id p =
    let p' = record p { in_use = Dict.remove p.in_use container_id } in
    elim (Dict.get p.in_use container_id) [
      | none ↦ p'
      | some c ↦
          if ltb (length p'.available) p'.pool_size
          then record p' { available = p'.available ++ c ∷ [] }
          else destroy c p'
    ]

unfoldable pub warm : List (String × String) → ContainerPool → ContainerPool
warm [] p = p
warm ((image, uuid) ∷ images) p =
    warm images (record p { available = p.available ++ new_container uuid image false ∷ [] })

-- `warmup`, with the ids of the containers it makes; there is one image.
unfoldable pub warmup : String → ContainerPool → ContainerPool
warmup uuid p = warm (take p.pool_size (("python:3.11-slim", uuid) ∷ [])) p
