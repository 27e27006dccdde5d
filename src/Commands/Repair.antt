-- ===== src/Commands/Repair.antt =====
-- src/repair.rs: what installed containers need is fetched again where it is missing or wrong, and
-- then all that is saved is checked. The messages are left out; the two counts are those of the error.
use pakstak.Base.{
  ℕ, suc, ◌+◌, Text, true, Result, ok, err, Option, none, some, List, [], ◌∷◌, ◌||◌, not, nat_eq,
  if◌then◌else◌,
}
use pakstak.Digest.Verifier.{Algorithm, verify_bytes}
use pakstak.Reference.{digest}
use pakstak.Manifest.{Descriptor, ImageManifest, Json}
use pakstak.Fs.World.{World}
use pakstak.Storage.Action.{
  StorageError, Action, ◌>>=◌ as storage_bind, from_result, query, pure as storage_pure,
}
use pakstak.Storage.Layout.{Storage}
use pakstak.Storage.Reader.{
  read_containers, read_container_manifest_digest, read_container_reference, read_manifest_digests,
  read_manifest_bytes, get_layer_path,
}
use pakstak.Fetch.Images.{fetch_image}
use pakstak.Tasks.{Crates, Task, ◌>>=◌, ◌>>◌, pure, fail, on_storage, new_client, repair_found}

-- The invalid manifests and the missing layers that were counted so far.
pub record Found : Type 0 where
  pub invalid_manifests : ℕ
  pub missing_layers : ℕ

module _ (s : Storage) where
  unfoldable pub count_missing : List Descriptor → World → ℕ
  count_missing [] w = 0
  count_missing (layer ∷ layers) w =
      let rest = count_missing layers w in
      elim (get_layer_path s layer.digest w) [ some _ ↦ rest | none ↦ suc rest ]

  unfoldable pub add_missing : Found → ImageManifest → Action Found
  add_missing found manifest =
      query λ w. record found {
        missing_layers = found.missing_layers + count_missing manifest.layers w;
      }

module _ (hash : Algorithm → Text → Text) (json : Json) (s : Storage) where
  abbrev invalid : Found → Found
  invalid found = record found { invalid_manifests = suc found.invalid_manifests }

  unfoldable pub check_parsed : Found → Option ImageManifest → Action Found
  unfolding add_missing
  check_parsed found none = storage_pure (invalid found)
  check_parsed found (some manifest) = add_missing s found manifest

  unfoldable pub check_bytes : Found → Text → Text → Action Found
  check_bytes found manifest_digest bytes = elim (verify_bytes hash bytes manifest_digest) [
    | err _ ↦ storage_pure (invalid found)
    | ok _ ↦ check_parsed found (json.parse_manifest bytes)
  ]

  unfoldable pub check_manifest : Found → Result StorageError Text → Action Found
  check_manifest found entry = storage_bind (from_result entry) λ manifest_digest.
      storage_bind (read_manifest_bytes s manifest_digest)
        λ bytes. check_bytes found manifest_digest bytes

  unfoldable pub check_each : Found → List (Result StorageError Text) → Action Found
  check_each found [] = storage_pure found
  check_each found (entry ∷ entries) =
      storage_bind (check_manifest found entry) λ found'. check_each found' entries

  unfoldable pub check_all : Action Found
  check_all =
      storage_bind (read_manifest_digests s)
        (check_each (record { invalid_manifests = 0; missing_layers = 0 }))

module _ {S : Type 0} (crates : Crates S) (s : Storage) where
  unfoldable pub repair_container : Result StorageError Text → Task S (Unit {0})
  repair_container entry = do
    container ← on_storage (from_result entry)
    manifest_digest ← on_storage (read_container_manifest_digest s container)
    stored ← on_storage (read_container_reference crates.json s container)
    let reference = record stored { specifier = digest manifest_digest }
    fetched ← fetch_image crates s reference true
    pure tt

  unfoldable pub repair_each : List (Result StorageError Text) → Task S (Unit {0})
  repair_each [] = pure tt
  repair_each (entry ∷ entries) = do repair_container entry; repair_each entries

  unfoldable pub report : Found → Task S (Unit {0})
  report found =
      if not (nat_eq found.invalid_manifests 0) || not (nat_eq found.missing_layers 0)
      then fail (repair_found found.invalid_manifests found.missing_layers)
      else pure tt

  unfoldable pub repair : Task S (Unit {0})
  repair = do
    new_client
    entries ← on_storage (read_containers s)
    repair_each entries
    found ← on_storage (check_all crates.hash crates.json s)
    report found
