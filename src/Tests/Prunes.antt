-- ===== src/Tests/Prunes.antt =====
-- One container with a manifest of one layer, beside a manifest and a layer that nothing uses: a run
-- of `prune`, and the theorems on what it leaves alone.
use pakstak.Base.{
  ℕ, Text, codes, ◌==◌, false, Result, ok, some, none, List, [], ◌∷◌, ◌++◌, ◌≡◌, inl, refl,
  strip_prefix, strip_suffix,
}
use pakstak.Base.Splits.{split}
use pakstak.Base.Utf8.{is_utf8, trim}
use pakstak.Manifest.{Descriptor, Json}
use pakstak.Fs.Paths.{FilePath, push, resolve, parent, file_name, text_dec, path_dec, path_eq, go}
use pakstak.Fs.Files.{
  lookup, strip, without, put, move_tree, remove_tree, tree_open, names, is_dir_at, is_file_at,
  exists_at, regular_file, new_directory,
}
use pakstak.Fs.World.{
  World, operate, create_below, create_dir_all, read_at, read, names_at, read_dir, open_create,
  open_create_at, may_replace, rename_at, rename, remove_file_at, remove_file, metadata_at,
  symlink_metadata, remove_dir_all_at, remove_dir_all,
}
use pakstak.Storage.Action.{StorageError, collect}
use pakstak.Storage.Layout.{Storage, storage_at, manifest_path, layer_path}
use pakstak.Storage.Reader.{
  ensure_parent_dir, open_lock_file, or_empty, read_dir_entries, select, into_string, strip_json,
  read_to_string, read_container_manifest_digest, read_manifest_bytes, read_manifest,
  read_containers, read_manifest_digests, read_layer_digests, get_layer_path,
}
use pakstak.Storage.Writer.{remove_published_file, remove_manifest}
use pakstak.Storage.Trees.{
  make_path_writable, set_writable, push_all, pending_below, make_writable, make_tree_writable,
  remove_dir_all_writable, remove_directory, remove_layer,
}
use pakstak.Storage.Locks.{
  Processes, lock_answer, lock_opened, try_lock_layer_for_prune, lock_layer_for_prune,
  remove_lock_file, read_layer_lock_digests,
}
use pakstak.Prune.{
  HashSets, used_manifest, read_used_manifests, prune_manifest, prune_each_manifest,
  prune_manifests, add_used_layers, read_used_layers, remove_locked_layer, prune_locked,
  prune_layer, prune_each_layer, prune_layers, cleanup_locked, cleanup_layer_lock, cleanup_each,
  cleanup_layer_locks, prune,
}
use pakstak.Prune.Uses.{UsesManifest, HasLayer}
use pakstak.Prune.InUse.{prune-UsesManifest, prune-HasLayer, prune-IsHeld}

abbrev layer : Text → Descriptor
layer d = record { digest = d; media_type = codes "tar"; size = 1; platform = none }

abbrev json : Json
json = record {
  parse_manifest = λ bytes. some (record { schema_version = 2; layers = layer (codes "a") ∷ [] });
  parse_index = λ bytes. none;
  parse_reference = λ bytes. none;
  print_reference = λ r. [];
}

abbrev pub sets : HashSets
sets = record { iterate = λ l. l }

-- No other process holds a lock.
abbrev pub alone : Processes
alone = record { try_lock = λ mode path w. ok tt; set_lock = λ path w. none }

-- Another process holds all of them: `EAGAIN`.
abbrev busy : Processes
busy = record { try_lock = λ mode path w. ok tt; set_lock = λ path w. some 11 }

abbrev root : FilePath
root = codes "d" ∷ []

abbrev at : List Text → FilePath
at p = codes "d" ∷ p

abbrev place : Storage
place = storage_at root

abbrev stored : World
stored = record {
  files =
      (at [], new_directory)
      ∷ (at (codes "temporary" ∷ []), new_directory)
      ∷ (at (codes "containers" ∷ []), new_directory)
      ∷ (at (codes "containers" ∷ codes "c" ∷ []), new_directory)
      ∷ (
        at (codes "containers" ∷ codes "c" ∷ codes "manifest_digest" ∷ []),
        regular_file (codes "m"),
      )
      ∷ (at (codes "manifests" ∷ []), new_directory)
      ∷ (at (codes "manifests" ∷ codes "m.json" ∷ []), regular_file (codes "{}"))
      ∷ (at (codes "manifests" ∷ codes "n.json" ∷ []), regular_file (codes "{}"))
      ∷ (at (codes "layers" ∷ []), new_directory)
      ∷ (at (codes "layers" ∷ codes "a" ∷ []), new_directory)
      ∷ (at (codes "layers" ∷ codes "b" ∷ []), new_directory)
      ∷ (at (codes "layers" ∷ codes "b" ∷ codes "f" ∷ []), regular_file (codes "x"))
      ∷ [];
  faults = [];
}

runs : Processes → Result StorageError (ℕ × ℕ) × World
unfolding prune used_manifest read_used_manifests prune_manifest prune_each_manifest prune_manifests
    add_used_layers read_used_layers remove_locked_layer prune_locked prune_layer prune_each_layer
    prune_layers cleanup_locked cleanup_layer_lock cleanup_each cleanup_layer_locks lock_answer
    lock_opened try_lock_layer_for_prune lock_layer_for_prune remove_lock_file
    read_layer_lock_digests make_path_writable set_writable push_all pending_below make_writable
    make_tree_writable remove_dir_all_writable remove_directory remove_layer remove_published_file
    remove_manifest ensure_parent_dir open_lock_file or_empty read_dir_entries select into_string
    strip_json read_to_string read_container_manifest_digest read_manifest_bytes read_manifest
    read_containers read_manifest_digests read_layer_digests get_layer_path storage_at operate
    create_below create_dir_all read_at read names_at read_dir open_create open_create_at
    may_replace rename_at rename remove_file_at remove_file metadata_at symlink_metadata
    remove_dir_all_at remove_dir_all lookup strip without put move_tree remove_tree tree_open names
    is_dir_at is_file_at exists_at push resolve parent file_name text_dec path_dec path_eq go split
    collect strip_suffix strip_prefix ◌==◌ is_utf8 trim
runs processes = prune json sets processes place stored

-- The manifest and the layer that nothing uses are removed.
removes_unused : (prune json sets alone place stored).0 ≡ ok (1, 1)
unfolding runs
removes_unused = refl

removes_layer :
    is_dir_at (at (codes "layers" ∷ codes "b" ∷ [])) (prune json sets alone place stored).1.files
    ≡ false
unfolding runs
removes_layer = refl

-- A layer that is locked stays.
keeps_locked : (prune json sets busy place stored).0 ≡ ok (1, 0)
unfolding runs
keeps_locked = refl

uses : UsesManifest place stored.files (codes "c") (codes "m")
unfolding runs
uses = (ok (codes "c") ∷ [], refl, inl refl, refl)

has : HasLayer place stored.files json (codes "m") (codes "a")
unfolding runs
has = (record { schema_version = 2; layers = layer (codes "a") ∷ [] }, refl, refl)

stored_manifest :
    lookup (resolve (manifest_path place (codes "m"))) stored.files
    ≡ some (regular_file (codes "{}"))
unfolding runs
stored_manifest = refl

stored_layer :
    lookup (resolve (layer_path place (codes "a")) ++ []) stored.files ≡ some new_directory
unfolding runs
stored_layer = refl

prune-UsesManifest_example :
    lookup (resolve (manifest_path place (codes "m"))) (prune json sets busy place stored).1.files
    ≡ some (regular_file (codes "{}"))
prune-UsesManifest_example =
    prune-UsesManifest json sets busy root (codes "c") (codes "m") (regular_file (codes "{}"))
      stored refl uses stored_manifest

prune-HasLayer_example :
    lookup
      (resolve (layer_path place (codes "a")) ++ [])
      (prune json sets alone place stored).1.files
    ≡ some new_directory
unfolding ◌==◌
prune-HasLayer_example =
    prune-HasLayer json sets alone root (codes "c") (codes "m") (codes "a") [] new_directory stored
      (λ x xs h. h) refl uses has stored_layer

stored_unused :
    lookup (resolve (layer_path place (codes "b")) ++ []) stored.files ≡ some new_directory
unfolding runs
stored_unused = refl

prune-IsHeld_example :
    lookup
      (resolve (layer_path place (codes "b")) ++ [])
      (prune json sets busy place stored).1.files
    ≡ some new_directory
unfolding ◌==◌
prune-IsHeld_example =
    prune-IsHeld json sets busy root (codes "b") [] new_directory stored refl (λ w e. cc)
      stored_unused
