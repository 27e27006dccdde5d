-- ===== src/Tests/Locks.antt =====
-- Two readers that open the storage together.
use pakstak.Base.{
  ℕ, codes, ◌==◌, Result, ok, err, none, some, [], ◌∷◌, ◌≡◌, refl, if◌then◌else◌, arith,
}
use pakstak.Base.Splits.{split}
use pakstak.Fs.Paths.{push, resolve, parent, text_dec, path_dec, path_eq, go}
use pakstak.Fs.Files.{lookup, without, put, is_dir_at}
use pakstak.Fs.World.{
  World, still, would_block, operate, create_below, create_dir_all, open_create, open_create_at,
}
use pakstak.Storage.Action.{StorageError, io}
use pakstak.Storage.Layout.{Storage, storage_at}
use pakstak.Storage.Reader.{ensure_parent_dir, open_lock_file}
use pakstak.Storage.Locks.{
  LockMode, shared, exclusive, Processes, Environment, storage_path_from_env, acquire_lock,
  new_with_lock,
}
use pakstak.Storage.Exclusion.{
  Held, Holders, compatible, on_file, Step, opens, start, next, IsExclusive, Reachable-IsExclusive,
}

abbrev locks : Holders → Processes
locks h = record {
  try_lock = λ mode path w. if compatible mode (on_file path h) then ok tt else err would_block;
  set_lock = λ path w. none;
}

abbrev env : Environment
env name = if name == codes "PAKSTAK_STORAGE_PATH" then some (codes "/d") else none

abbrev held : ℕ → LockMode → Held
held i mode = record {
  process = i;
  file = codes "d" ∷ codes "locks" ∷ codes "storage" ∷ [];
  mode = mode;
}

abbrev readers : Holders
readers = held 2 shared ∷ held 1 shared ∷ []

opening : Holders → LockMode → Result StorageError Storage × World
unfolding new_with_lock acquire_lock storage_path_from_env open_lock_file ensure_parent_dir
    create_dir_all create_below open_create open_create_at operate storage_at push split parent
    resolve go text_dec path_dec path_eq on_file lookup without put is_dir_at ◌==◌
opening h mode = new_with_lock (locks h) env [] mode (still [])

-- A writer does not get the lock beside a reader.
refuses_writer :
    (new_with_lock (locks (held 1 shared ∷ [])) env [] exclusive (still [])).0
    ≡ err (io would_block)
unfolding opening
refuses_writer = refl

abbrev after : Holders → World
after h = (new_with_lock (locks h) env [] shared (still [])).1

first : Step locks env [] [] (held 1 shared ∷ [])
unfolding opening
first = opens 1 shared [] (storage_at (codes "d" ∷ [])) (still []) (after []) refl

second : Step locks env [] (held 1 shared ∷ []) readers
unfolding opening
second =
    opens 2 shared (held 1 shared ∷ []) (storage_at (codes "d" ∷ [])) (still [])
      (after (held 1 shared ∷ [])) refl

Reachable-IsExclusive_example : IsExclusive readers
Reachable-IsExclusive_example =
    Reachable-IsExclusive locks env [] (λ h mode path w e. ground (arith, e)) readers
      (next (next start first) second)
