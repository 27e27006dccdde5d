-- ===== src/Fetch/Images.antt =====
-- `fetch_image`: the manifest of a reference is fetched, then the layers that are not there, and last
-- the manifest is saved.
use pakstak.Base.{
  Text, codes, Bool, not, ◌&&◌, Option, none, some, map_err, List, [], ◌∷◌, ◌++◌, if◌then◌else◌,
}
use pakstak.Reference.{Reference, digest, as_typeless_str}
use pakstak.Manifest.{Descriptor, FetchedManifest}
use pakstak.Formats.{LayerFormat, try_from}
use pakstak.Network.{Body, Http, Fetch, header, ◌>>=◌ as fetch_bind, pure as fetch_pure}
use pakstak.Fs.Paths.{FilePath}
use pakstak.Storage.Action.{query}
use pakstak.Storage.Layout.{Storage}
use pakstak.Storage.Reader.{get_layer_path, is_manifest_saved}
use pakstak.Storage.Writer.{write_manifest}
use pakstak.Storage.Layers.{write_layer}
use pakstak.Fetch.{call_get_with_auth_retry}
use pakstak.Fetch.Manifests.{fetch_image_manifest}
use pakstak.Tasks.{
  Crates, Task, ◌>>=◌, ◌>>◌, pure, from_result, on_storage, on_registry, layer_format,
}

abbrev pub blob_url_path : Reference → Text
blob_url_path r = codes "/v2/" ++ (r.repository ++ (codes "/blobs/" ++ as_typeless_str r.specifier))

unfoldable pub fetch_blob_reader : {S : Type 0} → Http S → Reference → Text → Fetch S Body
fetch_blob_reader net reference accept =
    fetch_bind
      (call_get_with_auth_retry net reference.registry (blob_url_path reference)
        (header (codes "Accept") accept))
      λ response. fetch_pure response.body

module _ {S : Type 0} (crates : Crates S) (s : Storage) where
  -- A layer that is there already is not fetched.
  unfoldable pub fetch_missing :
      Reference → Descriptor → LayerFormat → Option FilePath → Task S (Unit {0})
  fetch_missing reference layer format (some _) = pure tt
  fetch_missing reference layer format none = do
    body ← on_registry (
        fetch_blob_reader crates.http (record reference { specifier = digest layer.digest })
          layer.media_type)
    on_storage (write_layer crates.hash crates.archives s layer.digest format body)

  unfoldable pub fetch_layer : Reference → Descriptor → Task S (Unit {0})
  fetch_layer reference layer = do
    format ← from_result (map_err layer_format (try_from layer.media_type))
    there ← on_storage (query (get_layer_path s layer.digest))
    fetch_missing reference layer format there

  unfoldable pub fetch_layers : Reference → List Descriptor → Task S (Unit {0})
  fetch_layers reference [] = pure tt
  fetch_layers reference (layer ∷ layers) = do
    fetch_layer reference layer
    fetch_layers reference layers

  unfoldable pub save_image : Reference → FetchedManifest → Bool → Task S FetchedManifest
  save_image reference fetched is_saved = do
    fetch_layers reference fetched.manifest.layers
    if is_saved then pure tt else on_storage (write_manifest s fetched.digest fetched.bytes)
    pure fetched

  unfoldable pub fetch_image : Reference → Bool → Task S FetchedManifest
  fetch_image reference repair = do
    fetched ←
        on_registry
          (fetch_image_manifest crates.hash crates.http crates.json crates.os crates.arch reference)
    is_saved ← on_storage (is_manifest_saved crates.hash s fetched.digest repair)
    if is_saved && not repair then pure fetched else save_image reference fetched is_saved
