-- ===== src/Storage/Layers.antt =====
-- Layers: unpacked into the temporary directory, checked against their digest, and published by a
-- rename. The crates that unpack an archive are a parameter.
use pakstak.Base.{
  ℕ, suc, Text, is_empty, Result, ok, err, map_err, Option, some, [], ◌++◌, length, take, drop,
  if◌then◌else◌,
}
use pakstak.Digest.Verifier.{
  Algorithm, IoError, io_error, Read, DigestVerifier, new, read, copy, buffer_size, verify,
}
use pakstak.Network.{Body}
use pakstak.Formats.{LayerFormat}
use pakstak.Fs.Paths.{FilePath}
use pakstak.Fs.World.{IoKind, World, create_dir_all}
use pakstak.Storage.Action.{
  StorageError, io, layer_digest, layer_unread, Action, ◌>>=◌, ◌>>◌, fail, do_io, from_result,
  caught,
}
use pakstak.Storage.Layout.{Storage, layer_path, temporary_path_for}
use pakstak.Storage.Writer.{publish_directory}
use pakstak.Storage.Trees.{remove_dir_all_writable}
use pakstak.Storage.Whiteouts.{convert_oci_whiteouts_to_overlayfs}

-- `Archive::unpack` behind the decoder of a format: it writes files below a directory, and says how
-- many bytes it took from the body, those included that were only buffered.
pub record Archives : Type 0 where
  pub unpack : LayerFormat → Body → FilePath → World → (Result IoKind (Unit {0}) × ℕ) × World

-- `Read` of a body
unfoldable pub read_body : Read Body
read_body body room =
    if is_empty body.bytes
    then (if body.broken then err io_error else ok ([], body))
    else ok (take room body.bytes, record body { bytes = drop room body.bytes })

-- The bytes that were taken went through the verifier.
abbrev pub taken_from : ℕ → DigestVerifier Body → DigestVerifier Body
taken_from k v = record v {
  reader = record (v.reader) { bytes = drop k v.reader.bytes };
  hashed = v.hashed ++ take k v.reader.bytes;
}

abbrev pub copied :
    Option (Result IoError (DigestVerifier Body)) → Result StorageError (DigestVerifier Body)
copied (some (ok v)) = ok v
copied _ = err layer_unread

-- The rest of the body is read to its end.
unfoldable pub read_rest : DigestVerifier Body → Result StorageError (DigestVerifier Body)
read_rest v = copied (copy (read read_body) buffer_size (suc (length v.reader.bytes)) v)

unfoldable pub unpack_layer : Archives → LayerFormat → Body → FilePath → Action ℕ
unpack_layer archives format body output_dir w =
    let ((r, taken), w') = archives.unpack format body output_dir w in
    (elim r [ ok _ ↦ ok taken | err e ↦ err (io e) ], w')

-- What was extracted is published; where that failed, it is removed as far as can be.
unfoldable pub publish_extracted :
    FilePath → FilePath → Result StorageError (Unit {0}) → Action (Unit {0})
publish_extracted temporary output (ok _) = publish_directory temporary output
publish_extracted temporary output (err e) = do caught (remove_dir_all_writable temporary); fail e

module _ (hash : Algorithm → Text → Text) (archives : Archives) where
  unfoldable pub extract_layer : Body → Text → LayerFormat → FilePath → Action (Unit {0})
  extract_layer body expected_digest format output_dir = do
    verifier ← from_result (map_err layer_digest (new body expected_digest))
    taken ← unpack_layer archives format body output_dir
    convert_oci_whiteouts_to_overlayfs output_dir
    verifier' ← from_result (read_rest (taken_from taken verifier))
    from_result (map_err layer_digest (verify hash verifier'))

  unfoldable pub write_layer : Storage → Text → LayerFormat → Body → Action (Unit {0})
  write_layer s digest format body = do
    temporary ← temporary_path_for s (layer_path s digest)
    do_io (create_dir_all temporary)
    extracted ← caught (extract_layer body digest format temporary)
    publish_extracted temporary (layer_path s digest) extracted
