-- ===== src/Storage/Trees.antt =====
-- Trees of files that are removed although they were read-only, and the methods that remove
-- containers and layers. A tree is walked with a stack of pending paths, on fuel: one step a path.
use pakstak.Base.{
  ℕ, zero, suc, ◌+◌, ◌-◌, ◌*◌, ◌/◌, ◌%◌, Text, true, false, not, List, [], ◌∷◌, length, nat_eq,
  if◌then◌else◌,
}
use pakstak.Fs.Paths.{FilePath, push}
use pakstak.Fs.Files.{symlink, directory, regular, Node, node_is_dir}
use pakstak.Fs.World.{
  fault, symlink_metadata, set_permissions, read_dir, remove_dir_all, rename, exists,
  create_dir_all,
}
use pakstak.Storage.Action.{Action, ◌>>=◌, ◌>>◌, pure, fail, io, do_io, query, when}
use pakstak.Storage.Layout.{Storage, container_path, layer_path, temporary_path_for}
use pakstak.Storage.Reader.{ensure_container_installed}

abbrev owner : ℕ → ℕ
owner mode = mode / 64 % 8

-- `mode | 0o700` and `mode | 0o600`, which set bits of the owner's digit alone.
abbrev pub or_0o700 : ℕ → ℕ
or_0o700 mode = mode - owner mode * 64 + 7 * 64

abbrev pub or_0o600 : ℕ → ℕ
or_0o600 mode = mode - owner mode * 64 + (6 + owner mode % 2) * 64

abbrev pub writable_mode : Node → ℕ
writable_mode n = if node_is_dir n then or_0o700 n.mode else or_0o600 n.mode

unfoldable pub set_writable : FilePath → Node → Action (Unit {0})
set_writable path metadata =
    when (not (nat_eq (writable_mode metadata) metadata.mode))
      (do_io (set_permissions path (writable_mode metadata)))

unfoldable pub make_path_writable : FilePath → Node → Action (Unit {0})
unfolding set_writable
make_path_writable path metadata = elim metadata.kind [
  | symlink _ ↦ pure tt
  | regular _ ↦ set_writable path metadata
  | directory ↦ set_writable path metadata
]

-- The entries of a directory on the stack, the last one on top.
unfoldable pub push_all : FilePath → List Text → List FilePath → List FilePath
push_all path [] pending = pending
push_all path (name ∷ names) pending = push_all path names (push path name ∷ pending)

unfoldable pub pending_below : FilePath → Node → List FilePath → Action (List FilePath)
pending_below path metadata pending = elim (node_is_dir metadata) [
  | false ↦ pure pending
  | true ↦ do_io (read_dir path) >>= λ names. pure (push_all path names pending)
]

-- The loop of `make_tree_writable`.
unfoldable pub make_writable : ℕ → List FilePath → Action (Unit {0})
make_writable fuel [] = pure tt
make_writable zero (path ∷ pending) = fail (io fault)
make_writable (suc fuel) (path ∷ pending) = do
  metadata ← do_io (symlink_metadata path)
  make_path_writable path metadata
  pending' ← pending_below path metadata pending
  make_writable fuel pending'

-- No tree has more paths than there are files.
unfoldable pub make_tree_writable : FilePath → Action (Unit {0})
make_tree_writable path w = make_writable (length w.files) (path ∷ []) w

unfoldable pub remove_dir_all_writable : FilePath → Action (Unit {0})
remove_dir_all_writable path = do make_tree_writable path; do_io (remove_dir_all path)

module _ (s : Storage) where
  unfoldable pub remove_directory : FilePath → Action (Unit {0})
  remove_directory path = do
    temporary ← temporary_path_for s path
    stale ← query (exists temporary)
    when stale (remove_dir_all_writable temporary)
    do_io (rename path temporary)
    remove_dir_all_writable temporary

  unfoldable pub remove_container : Text → Action (Unit {0})
  remove_container container = do
    ensure_container_installed s container
    remove_directory (container_path s container)

  unfoldable pub remove_layer : Text → Action (Unit {0})
  remove_layer digest = remove_directory (layer_path s digest)

-- `StorageMutable::new`, after the lock is acquired.
unfoldable pub clear_temporary : Storage → Action (Unit {0})
clear_temporary s = do
  stale ← query (exists s.temporary_path)
  when stale (remove_dir_all_writable s.temporary_path)
  do_io (create_dir_all s.temporary_path)
