-- ===== src/Storage/Delivered.antt =====
-- Saving a manifest, or the manifest digest of a container, succeeds where it can.
use pakstak.Base.{Text, codes, contains, ◌≡◌, subst, ap, ◌∙◌, false, some, ok, [], ◌∷◌, ◌++◌}
use pakstak.Fs.Paths.{FilePath, push, resolve, IsPlain}
use pakstak.Fs.Files.{Files, regular_file, lookup}
use pakstak.Fs.World.{still}
use pakstak.Storage.Layout.{storage_at, manifest_path}
use pakstak.Storage.Writer.{write_manifest, write_container_manifest_digest}
use pakstak.Storage.Atomic.{WrittenWhole}
use pakstak.Storage.Published.{
  digest_file, temporary_file, manifest-IsPlace, digest-IsPlace, write_manifest_whole,
  write_container_manifest_digest_whole,
}
use pakstak.Storage.Success.{CanPublish, atomic_write_succeeds}

module _ (root : FilePath) where
  -- When nothing is cut short, the directories can be made, and no directory stands in the way, a
  -- manifest is saved and its file has the contents. The digest has no slash.
  pub write_manifest_succeeds :
      (digest contents : Text) (fs : Files)
      → contains digest b'/' ≡ false
      → CanPublish
          (resolve (root ++ codes "manifests" ∷ []))
          (resolve (push root (codes "temporary")))
          (resolve (manifest_path (storage_at root) digest))
          (temporary_file root (digest ++ codes ".json"))
          fs
      → ((write_manifest (storage_at root) digest contents (still fs)).0 ≡ ok tt)
        × (lookup
              (resolve (manifest_path (storage_at root) digest))
              (write_manifest (storage_at root) digest contents (still fs)).1.files
            ≡ some (regular_file contents))
  unfolding write_manifest storage_at
  write_manifest_succeeds digest contents fs h can =
      let done = atomic_write_succeeds (manifest-IsPlace root digest h) contents fs can in
      let whole =
        subst (WrittenWhole _ _ contents fs) done
          (write_manifest_whole root digest contents (still fs) h) in
      (
        ap (λ o. o.0) done,
        ap (λ o. lookup (resolve (manifest_path (storage_at root) digest)) o.1.files) done
            ∙ whole.0,
      )

  -- When nothing is cut short, the directories can be made, and no directory stands in the way, the
  -- manifest digest of a container is saved and its file has it. The container's name is one plain
  -- name.
  pub write_container_manifest_digest_succeeds :
      (container digest : Text) (fs : Files)
      → IsPlain container
      → CanPublish
          (resolve (root ++ codes "containers" ∷ container ∷ []))
          (resolve (push root (codes "temporary")))
          (resolve (digest_file root container))
          (temporary_file root (codes "manifest_digest"))
          fs
      → ((write_container_manifest_digest (storage_at root) container digest (still fs)).0 ≡ ok tt)
        × (lookup
              (resolve (digest_file root container))
              (write_container_manifest_digest
                (storage_at root)
                container
                digest
                (still fs)).1.files
            ≡ some (regular_file digest))
  unfolding write_container_manifest_digest storage_at
  write_container_manifest_digest_succeeds container digest fs h can =
      let done = atomic_write_succeeds (digest-IsPlace root container h) digest fs can in
      let whole =
        subst (WrittenWhole _ _ digest fs) done
          (write_container_manifest_digest_whole root container digest (still fs) h) in
      (
        ap (λ o. o.0) done,
        ap (λ o. lookup (resolve (digest_file root container)) o.1.files) done ∙ whole.0,
      )
