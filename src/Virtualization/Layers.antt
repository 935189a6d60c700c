-- ===== src/Virtualization/Layers.antt =====
-- virtualization/layers.py: class LayerManager, the content-addressed layers of packages. The state
-- is the directory of the layers: the layers by their id, each with its files, and the composed
-- packages. The digests of hashlib and what tarfile reads are parameters. A layer id is a digest, so
-- none is `composed`.
pub mod Unpacking
pub mod Storing
pub mod Composing
mod Tests
use Prim.Native.String.{◌++◌ as ◌<>◌, slice}
use cpip.Common.{
  ℕ, suc, String, Bool, true, false, not, ◌||◌, ◌&&◌, Option, some, none, List, [], ◌∷◌, ◌++◌, ◌==◌,
  if◌then◌else◌, length, select,
}
use cpip.Common.Dict
use cpip.Common.Dict.{Dict}

abbrev pub Bytes : Type 0
Bytes = List ℕ

-- The files below a directory, by their relative paths.
abbrev pub Files : Type 0
Files = Dict Bytes

pub record PackageLayer : Type 0 where
  pub layer_id : String
  pub sha256 : String
  pub size : ℕ
  pub content_type : String
  pub files : List String

-- A member of a tar file: a directory, or a file with its bytes; the parts of its name between the
-- slashes, and whether it starts with one. Not modelled: links, and a member whose path is that of a
-- directory for a file, or goes through a file, where the extraction raises.
pub record Member : Type 0 where
  pub directory : Bool
  pub absolute : Bool
  pub parts : List String
  pub content : Bytes

-- hashlib and tarfile; a text that is no compressed tar file has no members.
pub record Libraries : Type 0 where
  pub digest : Bytes → String
  pub digest_text : String → String
  pub read_tar : Bytes → Option (List Member)

pub record LayerManager : Type 0 where
  pub layers_dir : List String
  pub layers : Dict Files
  pub composed : Dict Files

pub data Stored : Type 0 where
  stored : PackageLayer → Stored
  unreadable_tar : Stored
  path_traversal : Stored

unfoldable pub has_layer : LayerManager → String → Bool
has_layer m layer_id = elim (Dict.get m.layers layer_id) [ some _ ↦ true | none ↦ false ]

unfoldable pub get_layer_path : LayerManager → String → Option (List String)
get_layer_path m layer_id =
    if has_layer m layer_id then some (m.layers_dir ++ (layer_id ∷ [])) else none

abbrev drop_last : List String → List String
drop_last [] = []
drop_last (p ∷ []) = []
drop_last (p ∷ q ∷ ps) = p ∷ drop_last (q ∷ ps)

-- `os.path.abspath`: a part `..` takes one away, `.` and the empty part are nothing.
abbrev walk : List String → List String → List String
walk from [] = from
walk from (p ∷ ps) =
    walk
      (if p == ".." then drop_last from else if p == "." || p == "" then from else from ++ (p ∷ []))
      ps

-- `os.path.abspath(os.path.join(dir, member.name))`
abbrev pub target : List String → Member → List String
target dir m = if m.absolute then walk [] m.parts else walk dir m.parts

-- Whether a path is `dir` or below it, which is what `commonpath([dir, path]) == dir` tests; then the
-- rest of it.
abbrev pub below : List String → List String → Option (List String)
below [] ps = some ps
below (d ∷ ds) [] = none
below (d ∷ ds) (p ∷ ps) = let rest = below ds ps in if d == p then rest else none

abbrev pub is_below : List String → List String → Bool
is_below dir ps = elim (below dir ps) [ some _ ↦ true | none ↦ false ]

-- The check of all members, before any is extracted.
unfoldable pub all_safe : List String → List Member → Bool
all_safe dir [] = true
all_safe dir (m ∷ ms) = is_below dir (target dir m) && all_safe dir ms

abbrev pub join_parts : List String → String
join_parts [] = ""
join_parts (p ∷ []) = p
join_parts (p ∷ q ∷ ps) = p <> ("/" <> join_parts (q ∷ ps))

abbrev pub relative : List String → Member → String
relative dir m = elim (below dir (target dir m)) [ some ps ↦ join_parts ps | none ↦ "" ]

-- `tar.extractall`: a later file of the same name replaces the earlier one; a directory is no file.
unfoldable pub extract : List String → List Member → Files → Files
extract dir [] files = files
extract dir (m ∷ ms) files =
    extract dir ms (if m.directory then files else Dict.put files (relative dir m) m.content)

-- `sha[:16]`
abbrev pub short : String → String
short sha = slice sha 0 16

abbrev pub layer_path : LayerManager → String → List String
layer_path m layer_id = m.layers_dir ++ (layer_id ∷ [])

abbrev pub layer_info : String → ℕ → String → Files → PackageLayer
layer_info sha size content_type files = record {
  layer_id = short sha;
  sha256 = sha;
  size = size;
  content_type = content_type;
  files = Dict.keys files;
}

-- The directory of a new layer is made first, and stays if what follows raises.
abbrev pub unpack : Libraries → String → Bytes → String → LayerManager → Stored × LayerManager
unpack lib sha content content_type m =
    let made = record m { layers = Dict.put m.layers (short sha) [] } in
    elim (lib.read_tar content) [
      | none ↦ (Stored.unreadable_tar, made)
      | some members ↦ elim (all_safe (layer_path m (short sha)) members) [
        | false ↦ (Stored.path_traversal, made)
        | true ↦
            let files = extract (layer_path m (short sha)) members [] in
            (
              Stored.stored (layer_info sha (length content) content_type files),
              record m { layers = Dict.put m.layers (short sha) files },
            )
      ]
    ]

unfoldable pub store_layer : Libraries → Bytes → String → LayerManager → Stored × LayerManager
store_layer lib content content_type m =
    let sha = lib.digest content in
    elim (Dict.get m.layers (short sha)) [
      | some files ↦ (Stored.stored (layer_info sha (length content) content_type files), m)
      | none ↦ unpack lib sha content content_type m
    ]

-- The files of the layers, each copied over those before; a layer that is not there is passed over.
unfoldable pub overlay : Dict Files → List PackageLayer → Files → Files
overlay layers [] dest = dest
overlay layers (l ∷ ls) dest =
    overlay layers ls
      (elim (Dict.get layers l.layer_id) [ some src ↦ Dict.update src dest | none ↦ dest ])

-- `":".join(l.layer_id for l in layers)`
abbrev pub join_ids : List PackageLayer → String
join_ids [] = ""
join_ids (l ∷ []) = l.layer_id
join_ids (l ∷ k ∷ ls) = l.layer_id <> (":" <> join_ids (k ∷ ls))

abbrev pub composed_name : Libraries → List PackageLayer → String
composed_name lib layers = short (lib.digest_text (join_ids layers))

-- The name of the composed package below `composed`.
unfoldable pub compose_layers : Libraries → List PackageLayer → LayerManager → String × LayerManager
compose_layers lib layers m =
    let name = composed_name lib layers in
    elim (Dict.get m.composed name) [
      | some files ↦ (name, m)
      | none ↦ (name, record m { composed = Dict.put m.composed name (overlay m.layers layers []) })
    ]

abbrev pub member : String → List String → Bool
member x [] = false
member x (y ∷ ys) = x == y || member x ys

-- `shutil.rmtree` of each layer that is not active, with the count.
unfoldable pub cleanup_unused : List String → LayerManager → ℕ × LayerManager
cleanup_unused active m = (
  length (select (λ (e : String × Files). not (member e.0 active)) m.layers),
  record m { layers = select (λ (e : String × Files). member e.0 active) m.layers },
)
