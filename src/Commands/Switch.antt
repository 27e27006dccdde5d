-- ===== src/Commands/Switch.antt =====
-- src/switch.rs: a container is switched to a manifest by its digest.
use pakstak.Base.{Text, false}
use pakstak.Reference.{digest}
use pakstak.Storage.Layout.{Storage}
use pakstak.Storage.Reader.{ensure_container_installed, read_container_reference}
use pakstak.Storage.Writer.{write_container_manifest_digest}
use pakstak.Fetch.Images.{fetch_image}
use pakstak.Tasks.{Crates, Task, ◌>>=◌, ◌>>◌, on_storage, new_client}

module _ {S : Type 0} (crates : Crates S) (s : Storage) where
  unfoldable pub switch : Text → Text → Task S (Unit {0})
  switch container manifest_digest = do
    on_storage (ensure_container_installed s container)
    stored ← on_storage (read_container_reference crates.json s container)
    let reference = record stored { specifier = digest manifest_digest }
    new_client
    fetched ← fetch_image crates s reference false
    on_storage (write_container_manifest_digest s container manifest_digest)
