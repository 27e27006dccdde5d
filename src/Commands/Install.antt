-- ===== src/Commands/Install.antt =====
-- `install` of src/install.rs.
use pakstak.Base.{Text, Bool, false, map_err, if◌then◌else◌}
use pakstak.Reference.{parse}
use pakstak.Install.{validate_container_name}
use pakstak.Storage.Action.{query}
use pakstak.Storage.Layout.{Storage}
use pakstak.Storage.Reader.{is_container_taken}
use pakstak.Storage.Writer.{write_container}
use pakstak.Fetch.Images.{fetch_image}
use pakstak.Tasks.{
  Crates, Task, ◌>>=◌, ◌>>◌, pure, fail, from_result, on_storage, new_client, name, image,
  container_exists,
}

module _ {S : Type 0} (crates : Crates S) (s : Storage) where
  abbrev pub refuse_taken : Text → Bool → Task S (Unit {0})
  refuse_taken container taken = if taken then fail (container_exists container) else pure tt

  unfoldable pub install : Text → Text → Task S (Unit {0})
  install container image_text = do
    from_result (map_err name (validate_container_name container))
    taken ← on_storage (query (is_container_taken s container))
    refuse_taken container taken
    reference ← from_result (map_err image (parse image_text))
    new_client
    fetched ← fetch_image crates s reference false
    on_storage (write_container s crates.json container fetched.digest reference)
