-- ===== src/Virtualization/Layers/Storing.antt =====
-- virtualization/layers.py: what store_layer leaves under the id of a layer, and for how long.
use cpip.Common.{
  ◌≡◌, refl, sym, ap, ◌∙◌, inl, inr, Bool-cases, Option-cases, String, Bool, true, Option, some,
  none, List, [], ◌∷◌, ◌++◌, arith, eq_iff, eq_refl, All,
}
use mathlib.Core.Path.{subst}
use cpip.Common.Dict
use cpip.Common.Dict.{Dict, get-put, or_in}
use cpip.Virtualization.Layers.{
  Bytes, Files, Stored, Libraries, LayerManager, layer_path, all_safe, extract, unpack, store_layer,
  cleanup_unused, member,
}
use cpip.Virtualization.Layers.Composing.{cleanup_unused_lem}
use cpip.Virtualization.Layers.Unpacking.{
  id_of, Kept, all_safe-Inside, all_safe-Outside, get-extract_new,
}

module _ (lib : Libraries) (content : Bytes) (content_type : String) (m : LayerManager) where
  unpack-Kept :
      let (answer, after) = unpack lib (lib.digest content) content content_type m in
      Kept lib
        (layer_path m (id_of lib content))
        content
        content_type
        answer
        (Dict.get after.layers (id_of lib content))
  unpack-Kept = elim (Option-cases (lib.read_tar content)) [
    | inl e ↦
        rw
          (
            unpack,
            e,
            get-put m.layers (id_of lib content) (id_of lib content) [],
            eq_refl (id_of lib content),
          )
          (Kept.unreadable e)
    | inr (members, e) ↦ elim (Bool-cases (all_safe (layer_path m (id_of lib content)) members)) [
      | inl h ↦
          let files = extract (layer_path m (id_of lib content)) members [] in
          rw
            (
              unpack,
              e,
              h,
              get-put m.layers (id_of lib content) (id_of lib content) files,
              eq_refl (id_of lib content),
            )
            (Kept.unpacked members files e
              (all_safe-Inside (layer_path m (id_of lib content)) members h)
              (get-extract_new (layer_path m (id_of lib content)) members))
      | inr h ↦
          let (before, after, x, same, out) =
            all_safe-Outside (layer_path m (id_of lib content)) members h in
          rw
            (
              unpack,
              e,
              h,
              get-put m.layers (id_of lib content) (id_of lib content) [],
              eq_refl (id_of lib content),
            )
            (Kept.refused before after x (e ∙ ap some same) out)
    ]
  ]

  store_layer-unpack :
      Dict.get m.layers (id_of lib content) ≡ none
      → store_layer lib content content_type m
        ≡ unpack lib (lib.digest content) content content_type m
  unfolding store_layer
  store_layer-unpack fresh = rw (store_layer, fresh) refl

  -- What is there is not written again.
  store_layer_keeps :
      (id : String) (files : Files)
      → Dict.get m.layers id ≡ some files
      → Dict.get (store_layer lib content content_type m).1.layers id ≡ some files
  unfolding store_layer
  store_layer_keeps id files e = elim (Option-cases (lib.read_tar content)) [
    | inl none_read ↦ ground (
      arith,
      e,
      none_read,
      eq_iff (id_of lib content) id,
      get-put m.layers (id_of lib content) id [],
    )
    | inr (members, read) ↦ ground (
      arith,
      e,
      read,
      eq_iff (id_of lib content) id,
      get-put m.layers (id_of lib content) id [],
      get-put m.layers (id_of lib content) id
          (extract (layer_path m (id_of lib content)) members []),
    )
  ]

-- What a process does to the layers, and what spares a layer: each store, and a cleanup with the layer
-- among the active ones.
pub data Event : Type 0 where
  store : Bytes → String → Event
  cleanup : List String → Event

abbrev pub run : Libraries → List Event → LayerManager → LayerManager
run lib [] m = m
run lib (Event.store content content_type ∷ es) m =
    run lib es (store_layer lib content content_type m).1
run lib (Event.cleanup active ∷ es) m = run lib es (cleanup_unused active m).1

abbrev spares : String → Event → Bool
spares id (Event.store content content_type) = true
spares id (Event.cleanup active) = member id active

run_keeps :
    (lib : Libraries) (es : List Event) (m : LayerManager) (id : String) (files : Files)
    → All (λ (e : Event). spares id e ≡ true) es
    → Dict.get m.layers id ≡ some files
    → Dict.get (run lib es m).layers id ≡ some files
run_keeps lib [] m id files h e = e
run_keeps lib (Event.store content content_type ∷ es) m id files h e =
    run_keeps lib es _ id files h.1 (store_layer_keeps lib content content_type m id files e)
run_keeps lib (Event.cleanup active ∷ es) m id files h e =
    run_keeps lib es _ id files h.1 ((cleanup_unused_lem active m id).0 ∙ rw h.0 e)

-- A directory is left in each case.
Kept_some :
    {lib : Libraries} {dir : List String} {content : Bytes} {content_type : String}
    {answer : Stored} {o : Option Files}
    → Kept lib dir content content_type answer o
    → (files : Files) × (o ≡ some files)
Kept_some (Kept.unreadable r) = ([], refl)
Kept_some (Kept.refused before after m r out) = ([], refl)
Kept_some (Kept.unpacked members files r inside at) = (files, refl)

-- A content of a new id that is a tar file with all members below the directory of its layer is
-- unpacked: at each path the layer holds the last file among the members that has this path, and no
-- other. If a member is outside, the answer is the error of a traversal, and if it is no tar file, that
-- of the reader, and the layer holds nothing. It stays so, whatever is stored after it, until a cleanup
-- where it is not active.
pub store_layer-Kept :
    (lib : Libraries) (content : Bytes) (content_type : String) (m : LayerManager) (es : List Event)
    → Dict.get m.layers (id_of lib content) ≡ none
    → All (λ (e : Event). spares (id_of lib content) e ≡ true) es
    → let (answer, after) = store_layer lib content content_type m in
      Kept lib
        (m.layers_dir ++ (id_of lib content ∷ []))
        content
        content_type
        answer
        (Dict.get (run lib es after).layers (id_of lib content))
store_layer-Kept lib content content_type m es fresh h =
    let id = id_of lib content in
    let (answer, after) = unpack lib (lib.digest content) content content_type m in
    let kept = unpack-Kept lib content content_type m in
    let (files, e) = Kept_some kept in
    subst
      (λ (out : Stored × LayerManager).
        Kept lib (layer_path m id) content content_type out.0
          (Dict.get (run lib es out.1).layers id))
      (sym (store_layer-unpack lib content content_type m fresh))
      (subst (Kept lib (layer_path m id) content content_type answer)
        (e ∙ sym (run_keeps lib es after id files h e)) kept)
