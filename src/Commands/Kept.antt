-- ===== src/Commands/Kept.antt =====
-- What the commands have in common that keep the storage complete: reading, fetching an image, and
-- saving the manifest digest of a container.
pub mod Switch
pub mod Update
pub mod Repair
use pakstak.Base.{
  Text, codes, ◌==◌, ==_iff, Result, ok, err, true, false, some, List, [], ◌∷◌, All, is_empty, mem,
  ◌≡◌, refl, arith, if◌then◌else◌, subst, sym, Bool-cases, inl, inr,
}
use pakstak.Reference.{Reference, digest}
use pakstak.Fs.Paths.{FilePath, IsPlain, resolve}
use pakstak.Fs.Files.{Files, lookup, regular_file}
use pakstak.Fs.World.{World}
use pakstak.Storage.Action.{StorageError, Action, from_result}
use pakstak.Storage.Triple.{Post, Post-both, Triple}
use pakstak.Storage.Frames.{Any, Framing-bind, Framing-collect, Framing-from_result}
use pakstak.Prune.Entries.{Leaving-read_containers}
use pakstak.Storage.Layout.{Storage, storage_at}
use pakstak.Storage.Reader.{
  ensure_container_installed, read_container_reference, read_container_manifest_digest,
}
use pakstak.Storage.Reads.{
  Reads, Reads-ensure_container_installed, Reads-read_container_reference,
  Reads-read_container_manifest_digest,
}
use pakstak.Storage.Writer.{write_container_manifest_digest}
use pakstak.Storage.Atomic.{WrittenWhole}
use pakstak.Storage.Published.{digest_file, temporary_file, write_container_manifest_digest_whole}
use pakstak.Storage.Unpacking.{IsConfined}
use pakstak.Storage.Complete.{
  IsComplete, IsComplete-Harmless, Harmless-IsPreorder, Leaving-Harmless,
}
use pakstak.Storage.Harmless.{Framing-write_container_manifest_digest}
use pakstak.Fetch.Images.{fetch_image}
use pakstak.Fetch.Complete.{fetch_image-Ends}
use pakstak.Tasks.{Crates, Session, pure, on_storage}
use pakstak.Tasks.Ends.{
  Ended, Ends, Ends-bind, Ends-weaken, Ends-given, Ends-pure, Ends-on_storage, Ends-new_client,
  Framing-Triple,
}
use pakstak.Commands.Switch.{switch}
use pakstak.Commands.Update.{read_all, publish_update, update_container, update_each, update}

module _ {S : Type 0} (crates : Crates S) (root : FilePath)
    (confined : IsConfined crates.archives) where
  abbrev s : Storage
  s = storage_at root

  abbrev Complete : Files → Type 0
  Complete = IsComplete root crates.json

  -- What only reads.
  pub Ends-Reads :
      {A : Type 0} (m : Action A)
      → Reads m
      → Ends {S = S} Complete (on_storage m) (λ _. Complete) Complete
  Ends-Reads m r = Ends-on_storage m (record {
    at = λ w k. Post-both Complete' (m w).0 (m w).1 (subst Complete (sym (r.same w)) k);
  })
    where
      Complete' : World → Type 0
      Complete' w = Complete w.files

  abbrev HasDigest : Text → Text → Files → Type 0
  HasDigest container d fs =
      lookup (resolve (digest_file root container)) fs ≡ some (regular_file d)

  pub write_digest-Ends :
      (container d : Text)
      → IsPlain container
      → Ends {S = S} Complete
          (on_storage (write_container_manifest_digest s container d))
          (λ _ fs. Complete fs × HasDigest container d fs)
          Complete
  write_digest-Ends container d h =
      Ends-on_storage (write_container_manifest_digest s container d) (record {
        at = λ w k.
            both (write_container_manifest_digest s container d w) w.files
              ((Framing-Triple Complete (λ fs fs' c. IsComplete-Harmless root crates.json fs fs' c)
                  (Framing-write_container_manifest_digest root container h d)).at
                w k)
              (write_container_manifest_digest_whole root container d w h);
      })
    where
      both :
          (o : Result StorageError (Unit {0}) × World) (fs : Files)
          → Post (λ (u : Unit {0}) w. Complete w.files × Any u) (λ w. Complete w.files) o
          → WrittenWhole
              (resolve (digest_file root container))
              (temporary_file root (codes "manifest_digest"))
              d
              fs
              o
          → Post (λ _ w. Complete w.files × HasDigest container d w.files) (λ w. Complete w.files) o
      both (ok u, w) fs (k, _) (new, _) = (k, new)
      both (err e, w) fs k _ = k

  pub fetched-Ends :
      (reference : Reference)
      → Ends Complete (fetch_image crates s reference false) (λ _. Complete) Complete
  fetched-Ends reference =
      Ends-weaken (fetch_image crates s reference false) (λ m fs k. k.0) (λ fs k. k)
        (fetch_image-Ends crates root confined reference false)
