-- ===== src/Virtualization/Layers/Tests.antt =====
-- Runs of virtualization/layers.py: two layers over each other, and a tar file with a member outside.
use cpip.Common.{
  ℕ, zero, suc, ◌≡◌, refl, String, true, false, Option, some, none, List, [], ◌∷◌, arith, eq_iff,
}
use cpip.Common.Dict
use cpip.Common.Dict.{Dict}
use cpip.Virtualization.Layers.{
  Bytes, Member, PackageLayer, Libraries, LayerManager, has_layer, all_safe, extract, store_layer,
  overlay, compose_layers, cleanup_unused,
}
use cpip.Virtualization.Layers.Composing.{EachUnique, visible, file_of, compose_layers_lem}
use cpip.Virtualization.Layers.Unpacking.{Kept}
use cpip.Virtualization.Layers.Storing.{Event, run, store_layer-Kept}

program : Unit {0}
unfolding has_layer all_safe extract store_layer Dict.update overlay compose_layers cleanup_unused
    Dict.get Dict.put
program = tt

abbrev digest : Bytes → String
digest (zero ∷ bs) = "a000000000000000ffff"
digest _ = "b000000000000000ffff"

abbrev file : String → ℕ → Member
file name n = record {
  directory = false;
  absolute = false;
  parts = "pkg" ∷ name ∷ [];
  content = n ∷ [];
}

abbrev folder : Member
folder = record { directory = true; absolute = false; parts = "pkg" ∷ []; content = [] }

abbrev outside : Member
outside = record { directory = false; absolute = false; parts = ".." ∷ "evil" ∷ []; content = [] }

-- The bytes 0 and 1 stand for two good files, 2 for one with a member outside.
abbrev read_tar : Bytes → Option (List Member)
read_tar (zero ∷ bs) = some (folder ∷ file "a.py" 1 ∷ file "b.py" 2 ∷ [])
read_tar (suc zero ∷ bs) = some (file "b.py" 3 ∷ file "c.py" 4 ∷ [])
read_tar (suc (suc zero) ∷ bs) = some (outside ∷ file "c.py" 5 ∷ [])
read_tar _ = none

abbrev bad : Bytes
bad = 2 ∷ []

abbrev lib : Libraries
lib = record { digest = digest; digest_text = λ s. "c000000000000000ffff"; read_tar = read_tar }

abbrev start : LayerManager
start = record { layers_dir = "home" ∷ "layers" ∷ []; layers = []; composed = [] }

abbrev stored : LayerManager
stored = (store_layer lib (1 ∷ []) "python" (store_layer lib (0 ∷ []) "python" start).1).1

abbrev layer : String → PackageLayer
layer id = record { layer_id = id; sha256 = ""; size = 1; content_type = "python"; files = [] }

abbrev both : List PackageLayer
both = layer "a000000000000000" ∷ layer "b000000000000000" ∷ []

test_composed :
    (compose_layers lib both stored).1.composed
    ≡ ("c000000000000000", ("pkg/a.py", 1 ∷ []) ∷ ("pkg/b.py", 3 ∷ []) ∷ ("pkg/c.py", 4 ∷ []) ∷ [])
      ∷ []
unfolding program
test_composed = refl

test_has_layer : has_layer stored "a000000000000000" ≡ true
unfolding program
test_has_layer = refl

stored-EachUnique : EachUnique stored.layers
unfolding program
stored-EachUnique = record {
  unique =
      λ id files e. ground (arith, e, eq_iff "a000000000000000" id, eq_iff "b000000000000000" id);
}

compose_layers_lem_example :
    let (name, after) = compose_layers lib both stored in
    file_of after.composed name "pkg/b.py" ≡ visible stored.layers both "pkg/b.py"
unfolding program
compose_layers_lem_example = compose_layers_lem lib stored both "pkg/b.py" stored-EachUnique refl

abbrev events : List Event
events =
    Event.store bad "python"
    ∷ Event.cleanup ("a000000000000000" ∷ [])
    ∷ Event.store (0 ∷ []) "python"
    ∷ []

-- A content with a member outside leaves a layer without files; a layer that is not active is removed.
test_run :
    (Dict.get (store_layer lib bad "python" start).1.layers "b000000000000000" ≡ some [])
    × (Dict.get (run lib events stored).layers "b000000000000000" ≡ none)
unfolding program
test_run = (refl, refl)

store_layer-Kept_example :
    let (answer, after) = store_layer lib (0 ∷ []) "python" start in
    Kept lib
      ("home" ∷ "layers" ∷ "a000000000000000" ∷ [])
      (0 ∷ [])
      "python"
      answer
      (Dict.get (run lib events after).layers "a000000000000000")
unfolding program
store_layer-Kept_example =
    store_layer-Kept lib (0 ∷ []) "python" start events refl (refl, (refl, (refl, tt)))
