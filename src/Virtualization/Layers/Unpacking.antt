-- ===== src/Virtualization/Layers/Unpacking.antt =====
-- virtualization/layers.py: what the members of a tar file are unpacked to.
use cpip.Common.{
  ◌≡◌, ◌≢◌, refl, ap, ◌∙◌, inl, inr, Bool-cases, Option-cases, String, true, false, not, ◌&&◌,
  Option, some, none, List, [], ◌∷◌, ◌++◌, ◌==◌, if◌then◌else◌, arith, eq_iff, eq_refl, length, All,
}
use mathlib.Core.Option.{some-injective}
use cpip.Common.Dict
use cpip.Common.Dict.{Dict, get-put, or_in}
use cpip.Virtualization.Layers.{
  Bytes, Files, Member, Stored, Libraries, short, layer_info, target, below, is_below, relative,
  join_parts, all_safe, extract,
}
use cpip.Virtualization.Layers.Composing.{or_in_assoc, or_in_none}

abbrev pub id_of : Libraries → Bytes → String
id_of lib content = short (lib.digest content)

-- The path of a member is below a directory, at some relative path, or is not.
abbrev pub Inside : List String → Member → Type 0
Inside dir m = (ps : List String) × (target dir m ≡ dir ++ ps) × (relative dir m ≡ join_parts ps)

abbrev pub Outside : List String → Member → Type 0
Outside dir m = (ps : List String) → target dir m ≢ dir ++ ps

-- The bytes of the last file among the members that has a path.
abbrev file_at : List String → String → Member → Option Bytes
file_at dir path m = if not m.directory && relative dir m == path then some m.content else none

abbrev pub last_file : List String → List Member → String → Option Bytes
last_file dir [] path = none
last_file dir (m ∷ ms) path = or_in (last_file dir ms path) (file_at dir path m)

-- What storing a content answers, and what its layer holds after it.
pub data Kept (lib : Libraries) (dir : List String) (content : Bytes) (content_type : String)
    : Stored → Option Files → Type 0 where
  unreadable :
      lib.read_tar content ≡ none
      → Kept lib dir content content_type Stored.unreadable_tar (some [])
  refused :
      (before after : List Member) (m : Member)
      → lib.read_tar content ≡ some (before ++ (m ∷ after))
      → Outside dir m
      → Kept lib dir content content_type Stored.path_traversal (some [])
  unpacked :
      (members : List Member) (files : Files)
      → lib.read_tar content ≡ some members
      → All (Inside dir) members
      → ((path : String) → Dict.get files path ≡ last_file dir members path)
      → Kept lib dir content content_type
          (Stored.stored (layer_info (lib.digest content) (length content) content_type files))
          (some files)

below-append : (dir ps : List String) → below dir (dir ++ ps) ≡ some ps
below-append [] ps = refl
below-append (d ∷ dir) ps = rw (eq_refl d, below-append dir ps) refl

below-some : (dir ps rest : List String) → below dir ps ≡ some rest → ps ≡ dir ++ rest
below-some [] ps rest e = some-injective ps rest e
below-some (d ∷ dir) [] rest e = absurd (cc e)
below-some (d ∷ dir) (p ∷ ps) rest e = elim (Bool-cases (d == p)) [
  | inl h ↦ ground (arith, e, h, eq_iff d p, below-some dir ps rest)
  | inr h ↦ absurd (ground (arith, e, h))
]

relative-some :
    (dir ps : List String) (m : Member)
    → below dir (target dir m) ≡ some ps
    → relative dir m ≡ join_parts ps
relative-some dir ps m e = ground (arith, e)

is_below-Inside :
    (dir : List String) (m : Member) → is_below dir (target dir m) ≡ true → Inside dir m
is_below-Inside dir m h = elim (Option-cases (below dir (target dir m))) [
  | inl e ↦ absurd (ground (arith, e, h))
  | inr (ps, e) ↦ (ps, below-some dir (target dir m) ps e, relative-some dir ps m e)
]

is_below-Outside :
    (dir : List String) (m : Member) → is_below dir (target dir m) ≡ false → Outside dir m
is_below-Outside dir m h ps e = ground (arith, h, ap (below dir) e, below-append dir ps)

-- The check passes a list of members that are all inside, or meets one that is not.
pub all_safe-Inside :
    (dir : List String) (ms : List Member) → all_safe dir ms ≡ true → All (Inside dir) ms
unfolding all_safe
all_safe-Inside dir [] h = tt
all_safe-Inside dir (m ∷ ms) h =
    (is_below-Inside dir m (ground (arith, h)), all_safe-Inside dir ms (ground (arith, h)))

pub all_safe-Outside :
    (dir : List String) (ms : List Member)
    → all_safe dir ms ≡ false
    → (before after : List Member) × (m : Member) × (ms ≡ before ++ (m ∷ after)) × Outside dir m
unfolding all_safe
all_safe-Outside dir [] h = absurd (cc h)
all_safe-Outside dir (m ∷ ms) h = elim (Bool-cases (is_below dir (target dir m))) [
  | inr e ↦ ([], ms, m, refl, is_below-Outside dir m e)
  | inl e ↦
      let (before, after, x, same, out) = all_safe-Outside dir ms (ground (arith, h, e)) in
      (m ∷ before, after, x, ap (λ (l : List Member). m ∷ l) same, out)
]

get-extract :
    (dir : List String) (ms : List Member) (files : Files) (path : String)
    → Dict.get (extract dir ms files) path ≡ or_in (last_file dir ms path) (Dict.get files path)
unfolding extract
get-extract dir [] files path = refl
get-extract dir (m ∷ ms) files path =
    get-extract dir ms _ path
    ∙ ap (or_in (last_file dir ms path))
        (ground (arith, get-put files (relative dir m) path m.content))
    ∙ or_in_assoc (last_file dir ms path) (file_at dir path m) (Dict.get files path)

pub get-extract_new :
    (dir : List String) (ms : List Member) (path : String)
    → Dict.get (extract dir ms []) path ≡ last_file dir ms path
unfolding Dict.get
get-extract_new dir ms path = get-extract dir ms [] path ∙ or_in_none (last_file dir ms path)
