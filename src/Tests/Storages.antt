-- ===== src/Tests/Storages.antt =====
-- The storage on an empty file system: runs, and the theorems on what it publishes.
use pakstak.Base.{Text, codes, ◌==◌, Result, ok, none, some, [], ◌∷◌, ◌++◌, ◌≡◌, refl, arith, inl}
use pakstak.Base.Splits.{split}
use pakstak.Fs.Paths.{FilePath, push, resolve, parent, file_name, text_dec, path_dec, path_eq, go}
use pakstak.Fs.Files.{
  regular_file, strip, lookup, without, put, move_tree, names, is_dir_at, exists_at,
}
use pakstak.Fs.World.{
  World, operate, create_below, create_dir_all, write_at, write, may_replace, rename_at, rename,
  still,
}
use pakstak.Storage.Layout.{Storage, storage_at, manifest_path}
use pakstak.Storage.Reader.{ensure_parent_dir, read_container_manifest_digest, read_manifest_bytes}
use pakstak.Storage.Writer.{atomic_write, write_manifest, write_container_manifest_digest}
use pakstak.Storage.Action.{StorageError}
use pakstak.Storage.Atomic.{WrittenWhole}
use pakstak.Storage.Published.{
  digest_file, temporary_file, write_manifest_whole, write_container_manifest_digest_whole,
}
use pakstak.Storage.Success.{CanPublish}
use pakstak.Storage.Delivered.{write_manifest_succeeds, write_container_manifest_digest_succeeds}
use pakstak.Storage.RoundTrip.{
  read_manifest_bytes-write_manifest,
  read_container_manifest_digest-write_container_manifest_digest,
}

abbrev root : FilePath
root = codes "data" ∷ []

abbrev home : Storage
home = storage_at root

abbrev digest : Text
digest = codes "sha256:ab"

-- Nothing there yet, and nothing cut short.
abbrev fresh : World
fresh = record { files = []; faults = [] }

-- The third operation, which writes the temporary copy, is cut short after two bytes.
abbrev broken : World
broken = record { files = []; faults = none ∷ none ∷ some 2 ∷ [] }

system : Text → Text → World → Result StorageError (Unit {0}) × World
unfolding write_container_manifest_digest atomic_write ensure_parent_dir create_dir_all create_below
    write write_at rename rename_at may_replace operate storage_at push split parent file_name
    resolve go text_dec path_dec path_eq strip lookup without put move_tree names is_dir_at
    exists_at ◌==◌
system container d = write_container_manifest_digest home container d

abbrev written : World
written = (write_container_manifest_digest home (codes "app") digest fresh).1

writes_digest : write_container_manifest_digest home (codes "app") digest fresh ≡ (ok tt, written)
unfolding system
writes_digest = refl

written_faults : written.faults ≡ []
unfolding system
written_faults = refl

write_container_manifest_digest_whole_example :
    WrittenWhole
      (resolve (digest_file root (codes "app")))
      (temporary_file root (codes "manifest_digest"))
      digest
      broken.files
      (write_container_manifest_digest (storage_at root) (codes "app") digest broken)
unfolding ◌==◌
write_container_manifest_digest_whole_example =
    write_container_manifest_digest_whole root (codes "app") digest broken refl

write_manifest_whole_example :
    WrittenWhole
      (resolve (manifest_path (storage_at root) digest))
      (temporary_file root (digest ++ codes ".json"))
      (codes "{}")
      broken.files
      (write_manifest (storage_at root) digest (codes "{}") broken)
write_manifest_whole_example = write_manifest_whole root digest (codes "{}") broken refl

read_container_manifest_digest-write_container_manifest_digest_example :
    read_container_manifest_digest (storage_at root) (codes "app") written ≡ (ok digest, written)
unfolding ◌==◌
read_container_manifest_digest-write_container_manifest_digest_example =
    read_container_manifest_digest-write_container_manifest_digest root (codes "app") digest fresh
      written refl (omega arith) refl writes_digest written_faults

manifests : Text → Text → World → Result StorageError (Unit {0}) × World
unfolding write_manifest atomic_write ensure_parent_dir create_dir_all create_below write write_at
    rename rename_at may_replace operate storage_at push split parent file_name resolve go text_dec
    path_dec path_eq strip lookup without put move_tree names is_dir_at exists_at ◌==◌
manifests d contents w = write_manifest home d contents w

abbrev saved : World
saved = (write_manifest home digest (codes "{}") fresh).1

writes_manifest : write_manifest home digest (codes "{}") fresh ≡ (ok tt, saved)
unfolding manifests
writes_manifest = refl

saved_faults : saved.faults ≡ []
unfolding manifests
saved_faults = refl

read_manifest_bytes-write_manifest_example :
    read_manifest_bytes (storage_at root) digest saved ≡ (ok (codes "{}"), saved)
read_manifest_bytes-write_manifest_example =
    read_manifest_bytes-write_manifest root digest (codes "{}") fresh saved refl writes_manifest
      saved_faults

free :
    CanPublish
      (resolve (root ++ codes "containers" ∷ codes "app" ∷ []))
      (resolve (push root (codes "temporary")))
      (resolve (digest_file root (codes "app")))
      (temporary_file root (codes "manifest_digest"))
      fresh.files
unfolding resolve go push split ◌==◌ lookup is_dir_at
free = (refl, refl, (inl refl, (inl refl, (inl refl, tt))), (inl refl, (inl refl, tt)), refl, refl)

write_container_manifest_digest_succeeds_example :
    ((write_container_manifest_digest (storage_at root) (codes "app") digest (still fresh.files)).0
      ≡ ok tt)
    × (lookup
          (resolve (digest_file root (codes "app")))
          (write_container_manifest_digest
            (storage_at root)
            (codes "app")
            digest
            (still fresh.files)).1.files
        ≡ some (regular_file digest))
unfolding ◌==◌
write_container_manifest_digest_succeeds_example =
    write_container_manifest_digest_succeeds root (codes "app") digest fresh.files refl free

free_manifests :
    CanPublish
      (resolve (root ++ codes "manifests" ∷ []))
      (resolve (push root (codes "temporary")))
      (resolve (manifest_path (storage_at root) digest))
      (temporary_file root (digest ++ codes ".json"))
      fresh.files
unfolding resolve go push split ◌==◌ lookup is_dir_at
free_manifests = (refl, refl, (inl refl, (inl refl, tt)), (inl refl, (inl refl, tt)), refl, refl)

write_manifest_succeeds_example :
    ((write_manifest (storage_at root) digest (codes "{}") (still fresh.files)).0 ≡ ok tt)
    × (lookup
          (resolve (manifest_path (storage_at root) digest))
          (write_manifest (storage_at root) digest (codes "{}") (still fresh.files)).1.files
        ≡ some (regular_file (codes "{}")))
write_manifest_succeeds_example =
    write_manifest_succeeds root digest (codes "{}") fresh.files refl free_manifests
