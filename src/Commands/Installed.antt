-- ===== src/Commands/Installed.antt =====
-- `install`, `switch` and `update` keep the storage complete; what they install is there.
use pakstak.Base.{
  Text, codes, Result, ok, err, map_err, Bool, true, false, some, [], ◌∷◌, ◌++◌, ◌≡◌, arith,
}
use pakstak.Reference.{Reference, parse}
use pakstak.Manifest.{FetchedManifest, Json}
use pakstak.Install.{validate_container_name}
use pakstak.Install.Names.{validate_container_name_iff, IsName-IsPlain}
use pakstak.Fs.Paths.{FilePath, IsPlain}
use pakstak.Fs.Files.{Files, lookup, regular_file}
use pakstak.Fs.World.{World}
use pakstak.Storage.Action.{StorageError, query}
use pakstak.Storage.Triple.{Post, Triple}
use pakstak.Storage.Layout.{Storage, storage_at}
use pakstak.Storage.Reader.{is_container_taken}
use pakstak.Storage.Writer.{write_container}
use pakstak.Storage.Copies.{home_of}
use pakstak.Storage.Container.{ContainerWhole, write_container_whole}
use pakstak.Storage.Unpacking.{IsConfined}
use pakstak.Storage.Complete.{
  IsComplete, HasManifest, Harmless, IsComplete-Harmless, HasManifest-Harmless,
}
use pakstak.Storage.Harmless.{Framing-write_container}
use pakstak.Prune.Entries.{NoSlash}
use pakstak.Fetch.Complete.{fetch_image-Ends}
use pakstak.Tasks.{Crates, TaskError, Session, on_storage, name, image}
use pakstak.Tasks.Ends.{
  Ended, Ends, Ends-bind, Ends-weaken, Ends-given, Ends-pure, Ends-fail, Ends-from_result,
  Ends-on_storage, Ends-new_client, Framing-Triple,
}
use pakstak.Commands.Install.{refuse_taken, install}

map_err-eq-ok :
    {E F A : Type 0} (f : E → F) (r : Result E A) {a : A} → map_err f r ≡ ok a → r ≡ ok a
map_err-eq-ok f (ok a) h = ground arith
map_err-eq-ok f (err e) h = cc

module _ (root : FilePath) (json : Json) where
  -- The container has the digest of a manifest that is saved, and its reference.
  abbrev pub IsInstalled : Text → Reference → Files → Type 0
  IsInstalled container reference fs =
      (d : Text) × HasManifest root d fs
      × (lookup (home_of root container ++ codes "manifest_digest" ∷ []) fs ≡ some (regular_file d))
      × (lookup (home_of root container ++ codes "reference.json" ∷ []) fs
          ≡ some (regular_file (json.print_reference reference)))

module _ {S : Type 0} (crates : Crates S) (root : FilePath)
    (confined : IsConfined crates.archives) where
  abbrev s : Storage
  s = storage_at root

  abbrev Complete : Files → Type 0
  Complete = IsComplete root crates.json

  abbrev Saved : FetchedManifest → Files → Type 0
  Saved m fs = Complete fs × HasManifest root m.digest fs

  Installs : Text → Reference → Unit {0} → Files → Type 0
  Installs container reference u fs =
      Complete fs × IsInstalled root crates.json container reference fs

  write_container-Triple :
      (container : Text) (m : FetchedManifest) (reference : Reference)
      → IsPlain container
      → NoSlash m.digest
      → Triple
          (λ w. Saved m w.files)
          (write_container s crates.json container m.digest reference)
          (λ u w. Complete w.files × IsInstalled root crates.json container reference w.files)
          (λ w. Complete w.files)
  write_container-Triple container m reference h slash = record {
    at = λ w k.
        both (write_container s crates.json container m.digest reference w) w.files
          ((Framing-Triple (Saved m) keep
              (Framing-write_container root crates.json container h m.digest reference)).at
            w k)
          (write_container_whole root crates.json container m.digest reference w h);
  }
    where
      keep : (fs fs' : Files) → Harmless root fs fs' → Saved m fs → Saved m fs'
      keep fs fs' c (k, has) = (
        IsComplete-Harmless root crates.json fs fs' c k,
        HasManifest-Harmless root m.digest fs fs' slash c has,
      )

      both :
          (o : Result StorageError (Unit {0}) × World) (fs : Files)
          → Post (λ (u : Unit {0}) w. Saved m w.files × Unit {0}) (λ w. Saved m w.files) o
          → ContainerWhole
              (home_of root container)
              m.digest
              (crates.json.print_reference reference)
              fs
              o
          → Post
              (λ u w. Complete w.files × IsInstalled root crates.json container reference w.files)
              (λ w. Complete w.files)
              o
      both (ok u, w) fs ((k, has), _) (d, r) = (k, (m.digest, has, d, r))
      both (err e, w) fs (k, _) _ = k

  refuse_taken-Ends :
      (container : Text) (taken : Bool)
      → Ends {S = S} Complete (refuse_taken crates s container taken) (λ _. Complete) Complete
  refuse_taken-Ends container true = Ends-fail _ (λ fs k. k)
  refuse_taken-Ends container false = Ends-pure tt (λ fs k. k)

  pub install-Ends :
      (container image_text : Text)
      → Ends
          (IsComplete root crates.json)
          (install crates (storage_at root) container image_text)
          (λ u fs.
            IsComplete root crates.json fs
            × ((reference : Reference) × (parse image_text ≡ ok reference)
                × IsInstalled root crates.json container reference fs))
          (IsComplete root crates.json)
  unfolding install
  install-Ends container image_text =
      Ends-bind _ _
        (Ends-from_result (map_err {F = TaskError} name (validate_container_name container))
          (λ fs k. k))
        λ u. Ends-given λ valid.
          Ends-bind _ _
            (Ends-on_storage (query (is_container_taken s container)) (record { at = λ w k. k }))
            λ taken. Ends-bind _ _ (refuse_taken-Ends container taken) λ _.
              Ends-bind _ _
                (Ends-from_result (map_err {F = TaskError} image (parse image_text)) (λ fs k. k))
                λ reference. Ends-given λ parsed. Ends-bind _ _ Ends-new_client λ _.
                  Ends-bind _ _ (fetch_image-Ends crates root confined reference false) λ m.
                    record {
                      at = λ x (k, has, slash).
                          (last reference (map_err-eq-ok image (parse image_text) parsed) m
                              (IsName-IsPlain container (
                                (validate_container_name_iff container).0
                                  (map_err-eq-ok name (validate_container_name container) valid)))
                              slash).at
                            x (k, has);
                    }
    where
      last :
          (reference : Reference)
          → parse image_text ≡ ok reference
          → (m : FetchedManifest) → IsPlain container
          → NoSlash m.digest
          → Ends {S = S}
              (Saved m)
              (on_storage (write_container s crates.json container m.digest reference))
              (λ u fs.
                Complete fs
                × ((r : Reference) × (parse image_text ≡ ok r)
                    × IsInstalled root crates.json container r fs))
              Complete
      last reference parsed m h slash =
          Ends-weaken _ (λ u fs (k, i). (k, (reference, parsed, i))) (λ fs k. k)
            (Ends-on_storage (write_container s crates.json container m.digest reference)
              (write_container-Triple container m reference h slash))

  -- However installing ends, and wherever it is cut short, the storage stays complete: each
  -- manifest that is saved has all its layers, those whose digests are plain names. After a
  -- success the container has its reference and the digest of a manifest that is saved. Unpacking
  -- an archive changes nothing outside of the directory that it is given.
  pub install-IsComplete :
      (container image_text : Text) (x : Session S)
      → IsComplete root crates.json x.world.files
      → Ended
          (λ u fs.
            IsComplete root crates.json fs
            × ((reference : Reference) × (parse image_text ≡ ok reference)
                × IsInstalled root crates.json container reference fs))
          (IsComplete root crates.json)
          (install crates (storage_at root) container image_text x)
  install-IsComplete container image_text x h = (install-Ends container image_text).at x h
