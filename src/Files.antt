-- ===== src/Files.antt =====
-- The part of the operating system that client/cache.py works on: paths, and a disk that maps the
-- text of a path to a file or a directory. A directory is one entry that holds the files below it.
-- The digest and the size of a file are parameters (hashlib, stat), and so is the text of JSON: a
-- file holds plain bytes, or the JSON text of a metadata dict.
use Prim.Native.String.{◌++◌}
use cpip.Common.{ℕ, ◌+◌, String, Option, List}
use cpip.Common.Dict.{Dict}

-- A dict of package metadata: `_cached_at` and the other items.
pub record Metadata : Type 0 where
  pub cached_at : Option ℕ
  pub items : Dict String

pub data Contents : Type 0 where
  bytes : List ℕ → Contents
  json : Metadata → Contents

pub data Node : Type 0 where
  file : Contents → Node
  dir : Dict Contents → Node

abbrev pub Disk : Type 0
Disk = Dict Node

-- `dir / name`
pub record FilePath : Type 0 where
  pub parent : String
  pub name : String

abbrev pub join : String → String → String
join parent name = parent ++ ("/" ++ name)

-- `str(path)`
abbrev pub text : FilePath → String
text p = join p.parent p.name

-- What is read of a file by hashlib and by stat.
pub record Os : Type 0 where
  pub sha256 : Contents → String
  pub file_size : Contents → ℕ

abbrev pub total_size : Os → Dict Contents → ℕ
total_size os List.[] = 0
total_size os (List.◌∷◌ (_, c) files) = os.file_size c + total_size os files

-- The errors that the calls below raise.
pub data OsError : Type 0 where
  file_not_found is_a_directory not_a_directory : OsError

pub data Result {ℓ} (A : Type ℓ) : Type ℓ where
  ok : A → Result A
  err : OsError → Result A
