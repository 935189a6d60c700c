-- ===== src/Virtualization/Loader/Tests.antt =====
-- Runs of virtualization/loader.py: the reads of a lazy module, and a fetch that raises.
use cpip.Common.{◌≡◌, refl, inl, true, false, some, none, [], ◌∷◌}
use cpip.Common.Dict
use cpip.Virtualization.Loader.{
  Attributes, Fetched, LazyModule, Answer, ensure_loaded, getattr, read, read_all, top_name,
  LazyRegistry, find_spec, create_module,
}
use cpip.Virtualization.Loader.Reads.{Lazy}

program : Unit {0}
unfolding ensure_loaded getattr read top_name find_spec create_module Dict.get Dict.put Dict.update
program = tt

abbrev numpy : Attributes
numpy = ("array", 11) ∷ ("__version__", 12) ∷ []

abbrev own : Attributes
own = ("__name__", 1) ∷ []

abbrev registry : LazyRegistry
registry = record {
  packages = ("numpy", 1) ∷ [];
  fetch_func = some (λ name. Fetched.module_with numpy);
}

abbrev lazy : LazyModule
lazy = create_module registry own (record { name = "numpy"; is_package = true })

test_find_spec :
    (find_spec registry "numpy" ≡ some (record { name = "numpy"; is_package = true }))
    × (find_spec registry "numpy.linalg"
        ≡ some (record { name = "numpy.linalg"; is_package = false }))
    × (find_spec registry "scipy" ≡ none)
unfolding program
test_find_spec = (refl, refl, refl)

-- A name with an underscore is an error until another attribute was read.
test_version :
    ((read "__version__" lazy).0 ≡ Answer.attribute_error)
    × ((read "__version__" (read "array" lazy).1).0 ≡ Answer.value 12)
unfolding program
test_version = (refl, refl)

abbrev broken : LazyModule
broken =
    create_module (record registry { fetch_func = some (λ name. Fetched.raises) }) own
      (record { name = "numpy"; is_package = true })

-- A fetch that raises is not tried again.
test_raises :
    ((read "array" broken).0 ≡ Answer.fetch_error)
    × ((read "array" (read "array" broken).1).0 ≡ Answer.attribute_error)
    × ((read_all ("array" ∷ "dot" ∷ []) broken).fetches ≡ 1)
unfolding program
test_raises = (refl, refl, refl)

lazy-Lazy : Lazy own numpy lazy
unfolding program
lazy-Lazy = record {
  fetch = ((λ name. Fetched.module_with numpy), refl, refl);
  state = inl (refl, refl, refl);
}
