-- ===== src/Storage/Layout.antt =====
-- `Storage`: the directories, and the paths of what they hold.
use pakstak.Base.{Text, codes, ◌++◌}
use pakstak.Fs.Paths.{FilePath, push, file_name}
use pakstak.Storage.Action.{Action, some_or, no_file_name, ◌>>=◌, pure}

-- The lock that an open storage holds, by the file that is locked.
pub record StorageLock : Type 0 where
  pub file : FilePath

pub record Storage : Type 0 where
  pub storage_path : FilePath
  pub temporary_path : FilePath
  pub lock : StorageLock

-- The storage at a path, with its lock.
unfoldable pub storage_at : FilePath → Storage
storage_at path = record {
  storage_path = path;
  temporary_path = push path (codes "temporary");
  lock = record { file = push (push path (codes "locks")) (codes "storage") };
}

module _ (s : Storage) where
  abbrev pub containers_path : FilePath
  containers_path = push s.storage_path (codes "containers")

  abbrev pub container_path : Text → FilePath
  container_path container = push containers_path container

  abbrev pub manifests_path : FilePath
  manifests_path = push s.storage_path (codes "manifests")

  abbrev pub json_suffix : Text
  json_suffix = codes ".json"

  abbrev pub manifest_path : Text → FilePath
  manifest_path digest = push manifests_path (digest ++ json_suffix)

  abbrev pub layers_path : FilePath
  layers_path = push s.storage_path (codes "layers")

  abbrev pub layer_path : Text → FilePath
  layer_path digest = push layers_path digest

  abbrev pub locks_path : FilePath
  locks_path = push s.storage_path (codes "locks")

  abbrev pub layer_locks_path : FilePath
  layer_locks_path = push locks_path (codes "layers")

  abbrev pub layer_lock_path : Text → FilePath
  layer_lock_path digest = push layer_locks_path digest

  abbrev pub temporary_path_for : FilePath → Action FilePath
  temporary_path_for output = do
    name ← some_or (file_name output) no_file_name
    pure (push s.temporary_path name)
