-- ===== src/Commands/Update.antt =====
-- src/update.rs: containers are updated to what their references name now.
use pakstak.Base.{Text, ◌==◌, false, List, [], ◌∷◌, is_empty, if◌then◌else◌}
use pakstak.Storage.Action.{Action, ◌>>=◌ as storage_bind, collect, from_result}
use pakstak.Storage.Layout.{Storage}
use pakstak.Storage.Reader.{
  ensure_container_installed, read_container_reference, read_container_manifest_digest,
  read_containers,
}
use pakstak.Storage.Writer.{write_container_manifest_digest}
use pakstak.Fetch.Images.{fetch_image}
use pakstak.Tasks.{Crates, Task, ◌>>=◌, ◌>>◌, pure, on_storage, new_client}

-- All containers, where none are given.
unfoldable pub read_all : Storage → Action (List Text)
read_all s = storage_bind (read_containers s) (collect from_result)

module _ {S : Type 0} (crates : Crates S) (s : Storage) where
  unfoldable pub publish_update : Text → Text → Text → Task S (Unit {0})
  publish_update container current fetched =
      if current == fetched
      then pure tt
      else on_storage (write_container_manifest_digest s container fetched)

  unfoldable pub update_container : Text → Task S (Unit {0})
  update_container container = do
    on_storage (ensure_container_installed s container)
    reference ← on_storage (read_container_reference crates.json s container)
    fetched ← fetch_image crates s reference false
    current ← on_storage (read_container_manifest_digest s container)
    publish_update container current fetched.digest

  unfoldable pub update_each : List Text → Task S (Unit {0})
  update_each [] = pure tt
  update_each (container ∷ containers) = do update_container container; update_each containers

  unfoldable pub update : List Text → Task S (Unit {0})
  update given = do
    containers ← if is_empty given then on_storage (read_all s) else pure given
    new_client
    update_each (crates.sets.iterate containers)
