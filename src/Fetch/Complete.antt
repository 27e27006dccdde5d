-- ===== src/Fetch/Complete.antt =====
-- `fetch_image` keeps the storage complete: the layers are there before the manifest is saved.
use pakstak.Base.{Text, Bool, true, false, not, ◌&&◌, ◌≡◌, refl, if◌then◌else◌}
use pakstak.Digest.Plain.{verify_bytes_no_slash}
use pakstak.Reference.{Reference}
use pakstak.Manifest.{FetchedManifest}
use pakstak.Fs.Paths.{FilePath}
use pakstak.Fs.Files.{Files, regular_file}
use pakstak.Storage.Triple.{Post-map}
use pakstak.Storage.Layout.{Storage, storage_at}
use pakstak.Storage.Reader.{is_manifest_saved}
use pakstak.Storage.Writer.{write_manifest}
use pakstak.Storage.Unpacking.{IsConfined}
use pakstak.Storage.Complete.{HasLayers, HasManifest, IsComplete, HasManifest-Harmless}
use pakstak.Storage.CompleteManifests.{write_manifest-Triple}
use pakstak.Prune.Entries.{NoSlash}
use pakstak.Fetch.Images.{fetch_layers, save_image, fetch_image}
use pakstak.Fetch.Verified.{IsRight, fetch_image_manifest-IsRight}
use pakstak.Tasks.{Session, Crates, pure, on_storage}
use pakstak.Tasks.Ends.{
  Ended, Ends, Ends-bind, Ends-weaken, Ends-pure, Ends-on_storage, Ends-on_registry,
}
use pakstak.Fetch.Saved.{IsKept, is_manifest_saved-Triple}
use pakstak.Fetch.CompleteLayers.{IsKept-Complete, fetch_layers-Ends}

module _ {S : Type 0} (crates : Crates S) (root : FilePath)
    (confined : IsConfined crates.archives) where
  abbrev s : Storage
  s = storage_at root

  abbrev Complete : Files → Type 0
  Complete = IsComplete root crates.json

  abbrev HasFile : Text → Files → Type 0
  HasFile d fs = HasManifest root d fs

  -- What a manifest that was fetched is.
  abbrev Fetched : Reference → FetchedManifest → Type 0
  Fetched reference m = IsRight crates.hash crates.json crates.os crates.arch reference.specifier m

  Fetched-NoSlash :
      (reference : Reference) (m : FetchedManifest) → Fetched reference m → NoSlash m.digest
  Fetched-NoSlash reference m f = verify_bytes_no_slash crates.hash m.bytes m.digest f.0

  -- The last step of saving an image.
  write_last-Ends :
      (reference : Reference) (m : FetchedManifest) (is_saved : Bool)
      → Fetched reference m
      → Ends {S = S}
          (λ fs.
            (Complete fs × (is_saved ≡ true → HasFile m.digest fs)) × HasLayers root m.manifest fs)
          (if is_saved then pure tt else on_storage (write_manifest s m.digest m.bytes))
          (λ _ fs. Complete fs × HasFile m.digest fs)
          Complete
  write_last-Ends reference m true f = Ends-pure tt (λ fs ((c, h), _). (c, h refl))
  write_last-Ends reference m false f =
      let written =
        write_manifest-Triple root crates.json m.digest (Fetched-NoSlash reference m f) m.bytes
          m.manifest f.1 in
      Ends-on_storage (write_manifest s m.digest m.bytes) (record {
        at = λ w ((c, _), there).
            Post-map (write_manifest s m.digest m.bytes w)
              (λ u v (done, new). (done, (regular_file m.bytes, m.bytes, new, refl)))
              (λ v done. done) (written.at w (c, there));
      })

  save_image-Ends :
      (reference : Reference) (m : FetchedManifest) (is_saved : Bool)
      → Fetched reference m
      → Ends
          (λ fs. Complete fs × (is_saved ≡ true → HasFile m.digest fs))
          (save_image crates s reference m is_saved)
          (λ m' fs. Complete fs × HasFile m'.digest fs × NoSlash m'.digest)
          Complete
  unfolding save_image
  save_image-Ends reference m is_saved f =
      let kept : IsKept root (λ fs. Complete fs × (is_saved ≡ true → HasFile m.digest fs)) =
        record {
          keep = λ fs fs' h (c, k). (
            (IsKept-Complete crates root confined).keep fs fs' h c,
            λ e. HasManifest-Harmless root m.digest fs fs' (Fetched-NoSlash reference m f) h (k e),
          );
        } in
      Ends-bind _ _
        (Ends-weaken (fetch_layers crates s reference m.manifest.layers) (λ a fs h. h) (λ fs h. h.0)
          (fetch_layers-Ends crates root confined _ kept reference m.manifest.layers))
        λ _.
          Ends-bind (if is_saved then pure tt else on_storage (write_manifest s m.digest m.bytes))
            (λ _. pure m) (write_last-Ends reference m is_saved f)
            λ _. Ends-pure m (λ fs (c, h). (c, h, Fetched-NoSlash reference m f))

  after_saved-Ends :
      (reference : Reference) (m : FetchedManifest) (repair is_saved : Bool)
      → Fetched reference m
      → Ends
          (λ fs. Complete fs × (is_saved ≡ true → HasFile m.digest fs))
          (if is_saved && not repair then pure m else save_image crates s reference m is_saved)
          (λ m' fs. Complete fs × HasFile m'.digest fs × NoSlash m'.digest)
          Complete
  after_saved-Ends reference m true true f = save_image-Ends reference m true f
  after_saved-Ends reference m true false f = save_image-Ends reference m false f
  after_saved-Ends reference m false true f =
      Ends-pure m (λ fs (c, h). (c, h refl, Fetched-NoSlash reference m f))
  after_saved-Ends reference m false false f = save_image-Ends reference m false f

  pub fetch_image-Ends :
      (reference : Reference) (repair : Bool)
      → Ends
          (IsComplete root crates.json)
          (fetch_image crates (storage_at root) reference repair)
          (λ m fs. IsComplete root crates.json fs × HasManifest root m.digest fs × NoSlash m.digest)
          (IsComplete root crates.json)
  unfolding fetch_image
  fetch_image-Ends reference repair =
      Ends-bind _ _
        (Ends-on_registry {R = Fetched reference} _
          (record {
            at =
                fetch_image_manifest-IsRight crates.hash crates.http crates.json crates.os
                  crates.arch reference;
          })
          (λ fs c. c))
        λ m. record {
          at = λ x (c, f).
              (Ends-bind (on_storage (is_manifest_saved crates.hash s m.digest repair)) _
                  (Ends-on_storage (is_manifest_saved crates.hash s m.digest repair) (
                    is_manifest_saved-Triple root crates.hash m.digest
                      (Fetched-NoSlash reference m f) Complete repair))
                  (λ is_saved. after_saved-Ends reference m repair is_saved f)).at
                x c;
        }

  -- However the fetching of an image ends, and wherever it is cut short, the storage stays
  -- complete: each manifest that is saved has all its layers, those whose digests are plain names.
  -- After a success the manifest that was fetched is saved, and its digest has no slash. Unpacking
  -- an archive changes nothing outside of the directory that it is given.
  pub fetch_image-IsComplete :
      (reference : Reference) (repair : Bool) (x : Session S)
      → IsComplete root crates.json x.world.files
      → Ended
          (λ m fs. IsComplete root crates.json fs × HasManifest root m.digest fs × NoSlash m.digest)
          (IsComplete root crates.json)
          (fetch_image crates (storage_at root) reference repair x)
  fetch_image-IsComplete reference repair x h = (fetch_image-Ends reference repair).at x h
