-- ===== src/Formats.antt =====
-- src/fetch.rs: the formats of layers, by their media types.
use pakstak.Base.{Text, codes, ◌==◌, ◌||◌, Result, ok, err, if◌then◌else◌}

pub data LayerFormat : Type 0 where
  tar gzip zstd : LayerFormat

pub data UnsupportedLayerMediaType : Type 0 where
  unsupported : Text → UnsupportedLayerMediaType

-- `LayerFormat::try_from`
unfoldable pub try_from : Text → Result UnsupportedLayerMediaType LayerFormat
try_from media_type =
    if media_type == codes "application/vnd.oci.image.layer.v1.tar+zstd"
    then ok zstd
    else if media_type == codes "application/vnd.oci.image.layer.v1.tar+gzip"
        || media_type == codes "application/vnd.docker.image.rootfs.diff.tar.gzip"
    then ok gzip
    else if media_type == codes "application/vnd.oci.image.layer.v1.tar"
        || media_type == codes "application/vnd.docker.image.rootfs.diff.tar"
    then ok tar
    else err (unsupported media_type)
