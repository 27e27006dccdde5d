-- ===== src/Storage/Locks.antt =====
-- The locks on the storage and on its layers. What other processes hold is a parameter: the answers
-- that this process gets when it asks for a lock.
use pakstak.Base.{
  ℕ, Text, codes, Result, ok, err, ◌||◌, Option, none, some, List, is_empty, nat_eq, if◌then◌else◌,
}
use pakstak.Fs.Paths.{FilePath, push}
use pakstak.Fs.World.{
  IoKind, would_block, fault, not_found, World, create_dir_all, remove_file, is_file,
}
use pakstak.Storage.Action.{StorageError, io, Action, ◌>>=◌, ◌>>◌, pure, do_io, query}
use pakstak.Storage.Layout.{Storage, StorageLock, layer_lock_path, layer_locks_path}
use pakstak.Storage.Reader.{open_lock_file, read_dir_entries, select, into_string, map_names}
use pakstak.Storage.Trees.{clear_temporary}

pub data LockMode : Type 0 where
  shared exclusive : LockMode

pub record Processes : Type 0 where
  -- `File::try_lock` and `try_lock_shared`
  pub try_lock : LockMode → FilePath → World → Result IoKind (Unit {0})
  -- The error number of `fcntl(…, F_SETLK, …)`, if it failed.
  pub set_lock : FilePath → World → Option ℕ

pub record LayerLock : Type 0 where
  pub lock_path : FilePath

pub data LayerLockResult : Type 0 where
  acquired : LayerLock → LayerLockResult
  failed : LayerLockResult
  error : StorageError → LayerLockResult

unfoldable pub remove_lock_file : LayerLock → Action (Unit {0})
remove_lock_file lock = do_io (remove_file lock.lock_path)

abbrev pub eacces : ℕ
eacces = 13

abbrev pub eagain : ℕ
eagain = 11

unfoldable pub lock_answer : Option ℕ → Result IoKind (Unit {0})
lock_answer none = ok tt
lock_answer (some errno) =
    if nat_eq errno eacces || nat_eq errno eagain then err would_block else err fault

-- The environment, as `var_os` reads it.
abbrev pub Environment : Type 0
Environment = Text → Option Text

set_value : Environment → Text → Option Text
set_value env name = elim (env name) [ none ↦ none | some v ↦ if is_empty v then none else some v ]

-- `cwd` is the directory that a relative path is seen from.
unfoldable pub storage_path_from_env : Environment → FilePath → Result IoKind FilePath
unfolding set_value
storage_path_from_env env cwd = elim (set_value env (codes "PAKSTAK_STORAGE_PATH")) [
  | some storage ↦ ok (push cwd storage)
  | none ↦ elim (set_value env (codes "XDG_DATA_HOME")) [
    | some data_home ↦ ok (push (push cwd data_home) (codes "pakstak"))
    | none ↦ elim (set_value env (codes "HOME")) [
      | some home ↦
          ok (push (push (push (push cwd home) (codes ".local")) (codes "share")) (codes "pakstak"))
      | none ↦ err not_found
    ]
  ]
]

module _ (processes : Processes) where
  unfoldable pub acquire_lock : FilePath → LockMode → Action StorageLock
  acquire_lock storage_path mode = do
    do_io (create_dir_all storage_path)
    let lock_path = push (push storage_path (codes "locks")) (codes "storage")
    open_lock_file lock_path
    do_io (λ w. (processes.try_lock mode lock_path w, w))
    pure (record { file = lock_path })

  unfoldable pub new_with_lock : Environment → FilePath → LockMode → Action Storage
  new_with_lock env cwd mode = do
    storage_path ← do_io (λ w. (storage_path_from_env env cwd, w))
    lock ← acquire_lock storage_path mode
    pure (record {
      storage_path = storage_path;
      temporary_path = push storage_path (codes "temporary");
      lock = lock;
    })

  -- `StorageMutable::new`
  unfoldable pub new_mutable : Environment → FilePath → Action Storage
  new_mutable env cwd = do
    storage ← new_with_lock env cwd exclusive
    clear_temporary storage
    pure storage

  unfoldable pub try_lock_layer_for_prune : FilePath → World → Result IoKind (Unit {0})
  try_lock_layer_for_prune path w = lock_answer (processes.set_lock path w)

  module _ (s : Storage) where
    unfoldable pub lock_opened : FilePath → Result StorageError (Unit {0}) → World → LayerLockResult
    lock_opened path (err e) w = error e
    lock_opened path (ok _) w = elim (try_lock_layer_for_prune path w) [
      | ok _ ↦ acquired (record { lock_path = path })
      | err would_block ↦ failed
      | err e ↦ error (io e)
    ]

    -- Its errors are values.
    unfoldable pub lock_layer_for_prune : Text → Action LayerLockResult
    unfolding lock_opened
    lock_layer_for_prune digest w =
        let (r, w') = open_lock_file (layer_lock_path s digest) w in
        (ok (lock_opened (layer_lock_path s digest) r w'), w')

module _ (s : Storage) where
  unfoldable pub read_layer_lock_digests : Action (List (Result StorageError Text))
  unfolding select into_string
  read_layer_lock_digests = do
    names ← read_dir_entries (layer_locks_path s)
    files ← query (λ w. select (λ name. is_file (push (layer_locks_path s) name) w) names)
    pure (map_names into_string files)
