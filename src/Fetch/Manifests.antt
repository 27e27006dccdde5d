-- ===== src/Fetch/Manifests.antt =====
-- `fetch_image_manifest`: the manifest of a reference, directly or by the index of its platforms.
use pakstak.Base.{Text, codes, Result, ok, err, map_err, ok_or, Option, none, some, List, ◌++◌}
use pakstak.Digest.Verifier.{Algorithm, verify_bytes}
use pakstak.Reference.{Reference, Specifier, digest, tag, as_typeless_str}
use pakstak.Manifest.{Descriptor, ImageIndex, FetchedManifest, Json}
use pakstak.Network.{
  read_to_end, Response, Http, FetchError, Fetch, header, from_result, pure, ◌>>=◌, header_missing,
  header_invalid, body_unreadable, digest_mismatch, index_unparsable, index_empty,
}
use pakstak.Auth.{or_else}
use pakstak.Fetch.{
  ManifestBytes, ManifestMediaType, index, manifest, unknown, parse_headers, parse_bytes,
  find_matching, first, join_accept, index_media_types, manifest_media_types,
  call_get_with_auth_retry,
}

unfoldable pub digest_header : Response → Result FetchError Text
digest_header response = elim (response.header (codes "Docker-Content-Digest")) [
  | none ↦ err header_missing
  | some value ↦ ok_or value header_invalid
]

abbrev pub manifest_url_path : Reference → Text
manifest_url_path r =
    codes "/v2/" ++ (r.repository ++ (codes "/manifests/" ++ as_typeless_str r.specifier))

unfoldable pub choose_descriptor : Text → Text → ImageIndex → Option Descriptor
choose_descriptor os arch ix = or_else (find_matching os arch ix.manifests) (first ix.manifests)

module _ (hash : Algorithm → Text → Text) where
  abbrev pub verified : Text → Text → Result FetchError (Unit {0})
  verified bytes d = map_err (λ e. digest_mismatch) (verify_bytes hash bytes d)

  -- The bytes of a reference with a digest must be those of the digest.
  unfoldable pub verify_requested : Specifier → Text → Result FetchError (Unit {0})
  verify_requested (digest requested) bytes = verified bytes requested
  verify_requested (tag t) bytes = ok tt

  module _ {S : Type 0} (net : Http S) where
    unfoldable pub fetch_manifest_bytes : Reference → List Text → Fetch S ManifestBytes
    fetch_manifest_bytes reference accepted_media_types = do
      response ←
          call_get_with_auth_retry net reference.registry (manifest_url_path reference)
            (header (codes "Accept") (join_accept accepted_media_types))
      let media_type = parse_headers response
      header_digest ← from_result (digest_header response)
      bytes ← from_result (ok_or (read_to_end response.body) body_unreadable)
      right ← from_result (verified bytes header_digest)
      asked ← from_result (verify_requested reference.specifier bytes)
      pure (record { bytes = bytes; digest = header_digest; media_type = media_type })

    module _ (json : Json) (os arch : Text) where
      unfoldable pub handle_image_index : Reference → ManifestBytes → Fetch S FetchedManifest
      handle_image_index reference fetched = do
        ix ← from_result (ok_or (json.parse_index fetched.bytes) index_unparsable)
        descriptor ← from_result (ok_or (choose_descriptor os arch ix) index_empty)
        let manifest_reference = record reference { specifier = digest descriptor.digest }
        selected ← fetch_manifest_bytes manifest_reference manifest_media_types
        from_result (parse_bytes json selected)

      -- `or_else` with the index.
      abbrev pub or_index :
          Reference → ManifestBytes → Result FetchError FetchedManifest → Fetch S FetchedManifest
      or_index reference fetched (ok parsed) = pure parsed
      or_index reference fetched (err e) = handle_image_index reference fetched

      abbrev pub by_media_type :
          Reference → ManifestBytes → ManifestMediaType → Fetch S FetchedManifest
      by_media_type reference fetched index = handle_image_index reference fetched
      by_media_type reference fetched manifest = from_result (parse_bytes json fetched)
      by_media_type reference fetched unknown =
          or_index reference fetched (parse_bytes json fetched)

      unfoldable pub fetch_image_manifest : Reference → Fetch S FetchedManifest
      fetch_image_manifest reference = do
        fetched ← fetch_manifest_bytes reference (index_media_types ++ manifest_media_types)
        by_media_type reference fetched fetched.media_type
