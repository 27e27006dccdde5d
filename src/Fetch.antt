-- ===== src/Fetch.antt =====
-- src/fetch.rs: fetching manifests from a registry. The messages that are printed and the texts that
-- `with_context` adds to errors are left out.
pub mod Manifests
pub mod Choices
pub mod Verified
pub mod Tokens
pub mod Images
pub mod Saved
pub mod CompleteLayers
pub mod Complete
use pakstak.Base.{
  ℕ, Text, codes, ◌==◌, Result, ok, err, ◌||◌, ok_or, Bool, true, false, not, Option, none, some,
  List, [], ◌∷◌, ◌++◌, nat_eq, strip_prefix, if◌then◌else◌,
}
use pakstak.Digest.Verifier.{Algorithm, verify_bytes}
use pakstak.Reference.{Reference, Specifier, digest, tag, as_typeless_str}
use pakstak.Manifest.{
  Descriptor, ImageManifest, ImageIndex, FetchedManifest, Json, matches_current_platform,
}
use pakstak.Network.{
  Request, Response, HttpError, Http, FetchError, RegistryClient, Fetch, agent_get, header,
  from_result, continue, pure, fail, ◌>>=◌, http, status_code, transport, header_missing,
  header_invalid, body_unreadable, digest_mismatch, manifest_unparsable, schema_unsupported,
  index_unparsable, index_empty,
}
use pakstak.Auth.{or_else, send, token_from_unauthorized}

abbrev pub manifest_media_types : List Text
manifest_media_types =
    codes "application/vnd.oci.image.manifest.v1+json"
    ∷ codes "application/vnd.docker.distribution.manifest.v2+json"
    ∷ []

abbrev pub index_media_types : List Text
index_media_types =
    codes "application/vnd.oci.image.index.v1+json"
    ∷ codes "application/vnd.docker.distribution.manifest.list.v2+json"
    ∷ []

pub data ManifestMediaType : Type 0 where
  index manifest unknown : ManifestMediaType

pub record ManifestBytes : Type 0 where
  pub bytes : Text
  pub digest : Text
  pub media_type : ManifestMediaType

abbrev starts_with : Text → Text → Bool
starts_with s p = elim (strip_prefix p s) [ none ↦ false | some rest ↦ true ]

-- `contains` of a text
unfoldable pub contains_text : Text → Text → Bool
contains_text [] p = starts_with [] p
contains_text (c ∷ s) p = starts_with (c ∷ s) p || contains_text s p

abbrev contains_any : Text → List Text → Bool
contains_any s [] = false
contains_any s (t ∷ ts) = contains_text s t || contains_any s ts

unfoldable pub parse_headers : Response → ManifestMediaType
parse_headers response = elim (response.header (codes "Content-Type")) [
  | none ↦ unknown
  | some none ↦ unknown
  | some (some media_type) ↦
      if contains_any media_type index_media_types
      then index
      else if contains_any media_type manifest_media_types
      then manifest
      else unknown
]

unfoldable pub registry_url : Text → Text → Text
registry_url registry path = codes "https://" ++ (registry ++ path)

-- `join(", ")`
unfoldable pub join_accept : List Text → Text
join_accept [] = []
join_accept (t ∷ []) = t
join_accept (t ∷ u ∷ ts) = t ++ (codes ", " ++ join_accept (u ∷ ts))

unfoldable pub find_token : Text → List (Text × Text) → Option Text
find_token registry [] = none
find_token registry ((name, token) ∷ tokens) =
    let rest = find_token registry tokens in if registry == name then some token else rest

unfoldable pub request_get : {S : Type 0} → RegistryClient S → Text → Text → Request
request_get client registry path = elim (find_token registry client.tokens) [
  | some token ↦
      header (codes "Authorization") (codes "Bearer " ++ token)
        (agent_get (registry_url registry path))
  | none ↦ agent_get (registry_url registry path)
]

unfoldable pub find_matching : Text → Text → List Descriptor → Option Descriptor
find_matching os arch [] = none
find_matching os arch (d ∷ ds) =
    let rest = find_matching os arch ds in
    if matches_current_platform os arch d then some d else rest

abbrev first : List Descriptor → Option Descriptor
first [] = none
first (d ∷ ds) = some d

module _ (json : Json) where
  -- `ManifestBytes::parse`
  unfoldable pub parse_bytes : ManifestBytes → Result FetchError FetchedManifest
  parse_bytes fetched = elim (json.parse_manifest fetched.bytes) [
    | none ↦ err manifest_unparsable
    | some found ↦
        if not (nat_eq found.schema_version 2)
        then err schema_unsupported
        else ok (record { manifest = found; bytes = fetched.bytes; digest = fetched.digest })
  ]

module _ {S : Type 0} (net : Http S) where
  unfoldable pub insert_token : Text → Text → Fetch S (Unit {0})
  insert_token registry token client =
      (ok tt, record client { tokens = (registry, token) ∷ client.tokens })

  unfoldable pub send_get : Text → Text → (Request → Request) → Fetch S Response
  send_get registry path configure client =
      send net (configure (request_get client registry path)) client

  unfoldable pub authenticate : Text → Text → (Request → Request) → Fetch S Response
  unfolding insert_token
  authenticate registry path configure = do
    unauthorized ← send net (record (configure (agent_get (registry_url registry path))) {
      http_status_as_error = false;
    })
    token ← token_from_unauthorized net unauthorized
    done ← insert_token registry token
    send_get registry path configure

  abbrev pub retry :
      Text → Text → (Request → Request) → Result FetchError Response → Fetch S Response
  retry registry path configure (ok response) = pure response
  retry registry path configure (err (http (status_code code))) =
      if nat_eq code 401
      then authenticate registry path configure
      else fail (http (status_code code))
  retry registry path configure (err e) = fail e

  unfoldable pub call_get_with_auth_retry : Text → Text → (Request → Request) → Fetch S Response
  call_get_with_auth_retry registry path configure client =
      let (r, client') = send_get registry path configure client in
      retry registry path configure r client'
