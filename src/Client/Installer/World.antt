-- ===== src/Client/Installer/World.antt =====
-- client/installer.py: what an installation works on, the processes it runs and the downloads. The
-- processes (pip, pkg), the registry, the builds and the downloads are parameters, which may depend on
-- the processes that ran before. A world counts its readings of the clock. Printing is not modelled.
use Prim.Native.String.{◌++◌ as ◌<>◌, slice, len}
use package.text.Mathlib.Text.{find?}
use cpip.Common.{
  ℕ, zero, suc, String, Bool, Option, none, some, List, [], ◌∷◌, ◌++◌, ◌==◌, if◌then◌else◌,
}
use cpip.Common.Dict
use cpip.Common.Dict.{Dict}
use cpip.Files.{Contents, file, FilePath, text, Os}
use cpip.Client.Cache.State.{CacheManager}
use cpip.Client.Resolver.{Surroundings}

abbrev pub Command : Type 0
Command = List String

-- The cache with its disk, the processes that were run, the packages that are set up for cloud
-- execution (`hybrid` or not) and the readings of the clock that were made.
pub record World : Type 0 where
  pub cache : CacheManager
  pub ran : List Command
  pub registered : Dict Bool
  pub ticks : ℕ

-- A poll of a build: a status that is neither of the two ends, an answer that is not 200, or an end.
pub data Poll : Type 0 where
  pending : Poll
  succeeded : Option String → Poll
  failed : Poll
  raised : Poll

-- A download is complete, or it raises, when the file may be written in part.
pub data Fetched : Type 0 where
  complete : Contents → Fetched
  broken : Option Contents → Fetched

pub record Outside : Type 0 where
  pub os : Os
  pub surroundings : Surroundings
  pub executable : String
  pub clock : ℕ → ℕ
  pub exits_zero : List Command → Command → Bool
  pub wheel_url : String → String → Option String
  pub fetch : String → Fetched
  pub submit_build : String → String → Option (List Poll)

-- What a strategy does: it answers whether it succeeded, or raises.
pub data Attempt : Type 0 where
  answered : Bool → Attempt
  failure : Attempt

-- `url.split("/")[-1]`: each cut leaves a shorter text, so as many as it has bytes are enough.
unfoldable pub last_part : ℕ → String → String
last_part zero url = url
last_part (suc fuel) url = elim (find? url "/") [
  | none ↦ url
  | some i ↦ last_part fuel (slice url (suc i) (len url))
]

abbrev pub before_query : String → String
before_query s = elim (find? s "?") [ none ↦ s | some i ↦ slice s 0 i ]

abbrev pub filename : String → String
filename url = before_query (last_part (len url) url)

-- A process and whether its return code is 0.
unfoldable pub run_process : Outside → Command → World → Bool × World
run_process o cmd w = (o.exits_zero w.ran cmd, record w { ran = w.ran ++ cmd ∷ [] })

abbrev pub pip_install : Outside → String → Command
pip_install o what = o.executable ∷ "-m" ∷ "pip" ∷ "install" ∷ "--quiet" ∷ what ∷ []

abbrev pub requirement : String → String → String
requirement pkg version = if version == "latest" then pkg else pkg <> ("==" <> version)

abbrev pub report : Bool × World → Attempt × World
report (b, w) = (Attempt.answered b, w)

abbrev pub put_file : FilePath → Contents → World → World
put_file path c w = record w {
  cache = record (w.cache) { disk = Dict.put w.cache.disk (text path) (file c) };
}

abbrev pub download_path : World → String → FilePath
download_path w url = record { parent = w.cache.wheels_dir; name = filename url }

-- `_download_wheel`, into the directory of the cache's wheels.
unfoldable pub download_wheel : Outside → String → World → Option FilePath × World
download_wheel o url w = elim (o.fetch url) [
  | Fetched.complete c ↦ (some (download_path w url), put_file (download_path w url) c w)
  | Fetched.broken none ↦ (none, w)
  | Fetched.broken (some c) ↦ (none, put_file (download_path w url) c w)
]
