-- ===== src/Tests/Uninstalls.antt =====
-- The removal of one of two containers.
use pakstak.Base.{◌++◌, Text, codes, ◌==◌, ok, err, none, List, [], ◌∷◌, ◌≡◌, refl, Result}
use pakstak.Base.Splits.{split}
use pakstak.Fs.Paths.{FilePath, push, resolve, parent, file_name, text_dec, path_dec, path_eq, go}
use pakstak.Fs.Files.{
  lookup, strip, without, put, move_tree, remove_tree, tree_open, names, is_dir_at, is_file_at,
  exists_at, regular_file, new_directory,
}
use pakstak.Fs.World.{
  World, operate, names_at, read_dir, may_replace, rename_at, rename, metadata_at, symlink_metadata,
  remove_dir_all_at, remove_dir_all,
}
use pakstak.Storage.Action.{StorageError, container_not_installed}
use pakstak.Storage.Layout.{storage_at}
use pakstak.Storage.Reader.{ensure_container_installed}
use pakstak.Storage.Trees.{
  make_path_writable, set_writable, push_all, pending_below, make_writable, make_tree_writable,
  remove_dir_all_writable, remove_directory, remove_container,
}
use pakstak.Uninstall.{uninstall, uninstall-IsElsewhere}

abbrev at : List Text → FilePath
at p = codes "d" ∷ p

abbrev stored : World
stored = record {
  files =
      (at [], new_directory)
      ∷ (at (codes "temporary" ∷ []), new_directory)
      ∷ (at (codes "containers" ∷ []), new_directory)
      ∷ (at (codes "containers" ∷ codes "c" ∷ []), new_directory)
      ∷ (at (codes "containers" ∷ codes "c" ∷ codes "reference" ∷ []), regular_file (codes "r"))
      ∷ (at (codes "containers" ∷ codes "e" ∷ []), new_directory)
      ∷ [];
  faults = [];
}

runs : Text → Result StorageError (Unit {0}) × World
unfolding uninstall remove_container remove_directory make_path_writable set_writable push_all
    pending_below make_writable make_tree_writable remove_dir_all_writable
    ensure_container_installed storage_at operate names_at read_dir may_replace rename_at rename
    metadata_at symlink_metadata remove_dir_all_at remove_dir_all lookup strip without put move_tree
    remove_tree tree_open names is_dir_at is_file_at exists_at push resolve parent file_name
    text_dec path_dec path_eq go split ◌==◌
runs container = uninstall (storage_at (at [])) container stored

uninstalls : (runs (codes "c")).0 ≡ ok tt
unfolding runs
uninstalls = refl

removes_reference :
    lookup (at (codes "containers" ∷ codes "c" ∷ codes "reference" ∷ [])) (runs (codes "c")).1.files
    ≡ none
unfolding runs
removes_reference = refl

refuses_unknown : runs (codes "x") ≡ (err (container_not_installed (codes "x")), stored)
unfolding runs
refuses_unknown = refl

elsewhere :
    (strip
        (resolve (at []) ++ codes "containers" ∷ codes "c" ∷ [])
        (at (codes "containers" ∷ codes "e" ∷ []))
      ≡ none)
    × (strip
          (resolve (at []) ++ codes "temporary" ∷ codes "c" ∷ [])
          (at (codes "containers" ∷ codes "e" ∷ []))
        ≡ none)
unfolding runs
elsewhere = (refl, refl)

uninstall-IsElsewhere_example :
    lookup
      (at (codes "containers" ∷ codes "e" ∷ []))
      (uninstall (storage_at (at [])) (codes "c") stored).1.files
    ≡ lookup (at (codes "containers" ∷ codes "e" ∷ [])) stored.files
unfolding ◌==◌
uninstall-IsElsewhere_example =
    uninstall-IsElsewhere (at []) (codes "c") refl stored (at (codes "containers" ∷ codes "e" ∷ []))
      elsewhere
