-- ===== src/Storage/Writer.antt =====
-- The methods of `StorageMutable` that write and remove files: each makes its work in the temporary
-- directory and publishes it by a rename.
use pakstak.Base.{Text, codes}
use pakstak.Reference.{Reference}
use pakstak.Manifest.{Json}
use pakstak.Fs.Paths.{FilePath, push}
use pakstak.Fs.World.{write, rename, remove_file, create_dir_all, exists}
use pakstak.Storage.Action.{Action, ◌>>=◌, ◌>>◌, do_io, query, when}
use pakstak.Storage.Layout.{Storage, container_path, manifest_path, temporary_path_for}
use pakstak.Storage.Reader.{ensure_parent_dir}

unfoldable pub publish_directory : FilePath → FilePath → Action (Unit {0})
publish_directory temporary output = do ensure_parent_dir output; do_io (rename temporary output)

module _ (s : Storage) where
  unfoldable pub atomic_write : FilePath → Text → Action (Unit {0})
  atomic_write path contents = do
    ensure_parent_dir path
    do_io (create_dir_all s.temporary_path)
    temporary ← temporary_path_for s path
    do_io (write temporary contents)
    do_io (rename temporary path)

  unfoldable pub write_manifest : Text → Text → Action (Unit {0})
  write_manifest digest contents = atomic_write (manifest_path s digest) contents

  unfoldable pub write_container_manifest_digest : Text → Text → Action (Unit {0})
  write_container_manifest_digest container digest =
      atomic_write (push (container_path s container) (codes "manifest_digest")) digest

  unfoldable pub write_container : Json → Text → Text → Reference → Action (Unit {0})
  write_container json container manifest_digest reference = do
    temporary ← temporary_path_for s (container_path s container)
    do_io (create_dir_all temporary)
    do_io (write (push temporary (codes "manifest_digest")) manifest_digest)
    do_io (write (push temporary (codes "reference.json")) (json.print_reference reference))
    publish_directory temporary (container_path s container)

  -- `StorageMutable::remove_file`
  unfoldable pub remove_published_file : FilePath → Action (Unit {0})
  remove_published_file path = do
    temporary ← temporary_path_for s path
    stale ← query (exists temporary)
    when stale (do_io (remove_file temporary))
    do_io (rename path temporary)
    do_io (remove_file temporary)

  unfoldable pub remove_manifest : Text → Action (Unit {0})
  remove_manifest digest = remove_published_file (manifest_path s digest)
