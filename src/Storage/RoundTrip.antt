-- ===== src/Storage/RoundTrip.antt =====
-- What was written is read back.
use pakstak.Base.{Text, contains, is_empty, ◌≡◌, subst, false, some, [], ok, All, arith}
use pakstak.Base.Utf8.{IsGraphic, is_utf8_graphic, trim_graphic}
use pakstak.Fs.Paths.{FilePath, resolve, IsPlain}
use pakstak.Fs.Files.{lookup, regular_file}
use pakstak.Fs.World.{World, read, read_at, operate}
use pakstak.Storage.Layout.{storage_at, manifest_path}
use pakstak.Storage.Reader.{read_manifest_bytes, read_container_manifest_digest, read_to_string}
use pakstak.Storage.Writer.{write_manifest, write_container_manifest_digest}
use pakstak.Storage.Atomic.{WrittenWhole}
use pakstak.Storage.Published.{
  digest_file, write_manifest_whole, write_container_manifest_digest_whole,
}

read_back :
    (path : FilePath) (w : World) (bytes : Text)
    → w.faults ≡ []
    → lookup (resolve path) w.files ≡ some (regular_file bytes)
    → read path w ≡ (ok bytes, w)
unfolding operate read read_at
read_back path w bytes e h = ground arith

module _ (root : FilePath) where
  -- After a manifest was saved, its bytes are read back as they were given. The digest has no slash,
  -- and reading is not cut short.
  pub read_manifest_bytes-write_manifest :
      (digest contents : Text) (w w' : World)
      → contains digest b'/' ≡ false
      → write_manifest (storage_at root) digest contents w ≡ (ok tt, w')
      → w'.faults ≡ []
      → read_manifest_bytes (storage_at root) digest w' ≡ (ok contents, w')
  unfolding read_manifest_bytes
  read_manifest_bytes-write_manifest digest contents w w' h done e =
      let made =
        subst (WrittenWhole _ _ contents w.files) done
          (write_manifest_whole root digest contents w h) in
      rw (read_back (manifest_path (storage_at root) digest) w' contents e made.0)

  -- After the manifest digest of a container was saved, it is read back as it was given. The
  -- container's name is one plain name, the digest is visible ASCII text and not empty, and reading
  -- is not cut short.
  pub read_container_manifest_digest-write_container_manifest_digest :
      (container digest : Text) (w w' : World)
      → IsPlain container
      → All IsGraphic digest
      → is_empty digest ≡ false
      → write_container_manifest_digest (storage_at root) container digest w ≡ (ok tt, w')
      → w'.faults ≡ []
      → read_container_manifest_digest (storage_at root) container w' ≡ (ok digest, w')
  unfolding read_container_manifest_digest read_to_string
  read_container_manifest_digest-write_container_manifest_digest container digest w w' h g n done
        e =
      let made =
        subst (WrittenWhole _ _ digest w.files) done
          (write_container_manifest_digest_whole root container digest w h) in
      rw (
        read_back (digest_file root container) w' digest e made.0,
        is_utf8_graphic digest g,
        trim_graphic digest g,
        n,
      )
