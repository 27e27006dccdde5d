-- ===== src/Prune.antt =====
-- src/prune.rs: manifests and layers that no container uses are removed. Where the source prints a
-- message and goes on, so does the model; the two counts are those of the last message.
pub mod Spared
pub mod Entries
pub mod Protected
pub mod Used
pub mod Kept
pub mod Layers
pub mod Uses
pub mod InUse
use pakstak.Base.{
  ℕ, suc, Text, Result, ok, err, mem, Option, none, some, List, [], ◌∷◌, ◌++◌, map, if◌then◌else◌,
}
use pakstak.Manifest.{Descriptor, ImageManifest, Json}
use pakstak.Fs.Paths.{FilePath}
use pakstak.Fs.World.{World}
use pakstak.Storage.Action.{
  StorageError, Action, ◌>>=◌, ◌>>◌, pure, query, collect, from_result, caught,
}
use pakstak.Storage.Layout.{Storage}
use pakstak.Storage.Reader.{
  read_containers, read_container_manifest_digest, read_manifest, read_manifest_digests,
  read_layer_digests, get_layer_path,
}
use pakstak.Storage.Writer.{remove_manifest}
use pakstak.Storage.Trees.{remove_layer}
use pakstak.Storage.Locks.{
  Processes, LayerLock, LayerLockResult, acquired, failed, error, remove_lock_file,
  lock_layer_for_prune, read_layer_lock_digests,
}

-- A `HashSet` is the list of what was put in; the order of iteration is the library's.
pub record HashSets : Type 0 where
  pub iterate : List Text → List Text

abbrev pub layer_digests : ImageManifest → List Text
layer_digests manifest = map (λ (l : Descriptor). l.digest) manifest.layers

module _ (s : Storage) where
  unfoldable pub used_manifest : Result StorageError Text → Action Text
  used_manifest entry = do container ← from_result entry; read_container_manifest_digest s container

  unfoldable pub read_used_manifests : Action (List Text)
  read_used_manifests = do containers ← read_containers s; collect (used_manifest) containers

  unfoldable pub prune_manifest : List Text → Result StorageError Text → ℕ → Action ℕ
  prune_manifest used entry removed = do
    digest ← from_result entry
    if mem digest used then pure removed else (do remove_manifest s digest; pure (suc removed))

  unfoldable pub prune_each_manifest : List Text → List (Result StorageError Text) → ℕ → Action ℕ
  prune_each_manifest used [] removed = pure removed
  prune_each_manifest used (entry ∷ entries) removed = do
    removed' ← prune_manifest used entry removed
    prune_each_manifest used entries removed'

  unfoldable pub prune_manifests : List Text → Action ℕ
  prune_manifests used = do entries ← read_manifest_digests s; prune_each_manifest used entries 0

module _ (json : Json) (s : Storage) where
  unfoldable pub add_used_layers : List Text → List Text → Action (List Text)
  add_used_layers layers [] = pure layers
  add_used_layers layers (digest ∷ digests) = do
    manifest ← read_manifest json s digest
    add_used_layers (layers ++ layer_digests manifest) digests

  unfoldable pub read_used_layers : HashSets → List Text → Action (List Text)
  read_used_layers sets used = add_used_layers [] (sets.iterate used)

abbrev pub counted : ℕ → Result StorageError (Unit {0}) → ℕ
counted removed (ok _) = suc removed
counted removed (err _) = removed

module _ (processes : Processes) (s : Storage) where
  unfoldable pub remove_locked_layer : Text → LayerLock → Action (Unit {0})
  remove_locked_layer digest lock = do remove_layer s digest; remove_lock_file lock

  unfoldable pub prune_locked : Text → ℕ → LayerLockResult → Action ℕ
  prune_locked digest removed (acquired lock) =
      caught (remove_locked_layer digest lock) >>= λ done. pure (counted removed done)
  prune_locked digest removed failed = pure removed
  prune_locked digest removed (error _) = pure removed

  unfoldable pub prune_layer : List Text → Result StorageError Text → ℕ → Action ℕ
  prune_layer used entry removed = do
    digest ← from_result entry
    if mem digest used
        then pure removed
        else (lock_layer_for_prune processes s digest >>= prune_locked digest removed)

  unfoldable pub prune_each_layer : List Text → List (Result StorageError Text) → ℕ → Action ℕ
  prune_each_layer used [] removed = pure removed
  prune_each_layer used (entry ∷ entries) removed = do
    removed' ← prune_layer used entry removed
    prune_each_layer used entries removed'

  unfoldable pub prune_layers : List Text → Action ℕ
  prune_layers used = do entries ← read_layer_digests s; prune_each_layer used entries 0

  unfoldable pub cleanup_locked : LayerLockResult → Action (Unit {0})
  cleanup_locked (acquired lock) = caught (remove_lock_file lock) >>= λ _. pure tt
  cleanup_locked failed = pure tt
  cleanup_locked (error _) = pure tt

  unfoldable pub cleanup_layer_lock : Result StorageError Text → Action (Unit {0})
  cleanup_layer_lock entry = do
    digest ← from_result entry
    there ← query (get_layer_path s digest)
    elim there [
      | some _ ↦ pure tt
      | none ↦ lock_layer_for_prune processes s digest >>= cleanup_locked
    ]

  unfoldable pub cleanup_each : List (Result StorageError Text) → Action (Unit {0})
  cleanup_each [] = pure tt
  cleanup_each (entry ∷ entries) = do cleanup_layer_lock entry; cleanup_each entries

  unfoldable pub cleanup_layer_locks : Action (Unit {0})
  cleanup_layer_locks = read_layer_lock_digests s >>= cleanup_each

unfoldable pub prune : Json → HashSets → Processes → Storage → Action (ℕ × ℕ)
prune json sets processes s = do
  used_manifests ← read_used_manifests s
  used_layers ← read_used_layers json s sets used_manifests
  removed_manifests ← prune_manifests s used_manifests
  removed_layers ← prune_layers processes s used_layers
  cleanup_layer_locks processes s
  pure (removed_manifests, removed_layers)
