-- ===== src/Tests/Fetches.antt =====
-- A registry that asks for a token, and then gives an index and the manifest of this platform.
use pakstak.Base.{
  true, false, ℕ, suc, Text, codes, ◌==◌, ok, err, Result, some, none, List, [], ◌∷◌, ◌≡◌, refl, ap,
  zero, if◌then◌else◌, strip_prefix,
}
use pakstak.Base.Splits.{split_once}
use pakstak.Reference.{Reference, tag, as_typeless_str}
use pakstak.Manifest.{
  Descriptor, ImageManifest, FetchedManifest, Json, normalized_arch, matches_current_platform,
}
use pakstak.Digest.Hex.{hex_digit, hex_byte, decode_hex, decode_pairs}
use pakstak.Digest.Verifier.{
  Algorithm, output_len, algorithm, new, read, copy, verify, verify_bytes,
}
use pakstak.Network.{read_to_end, Response, HttpError, Http, RegistryClient, status_code, transport}
use pakstak.Auth.{
  eq_ignore_ascii_case, find_bearer, see_param, see_params, auth_header_from_unauthorized,
  token_request, query_scopes, parse_bearer_challenge, send, fetch_bearer_token,
  token_from_unauthorized,
}
use pakstak.Fetch.{
  contains_text, parse_headers, registry_url, join_accept, find_token, request_get, find_matching,
  parse_bytes, send_get, authenticate, call_get_with_auth_retry,
}
use pakstak.Fetch.Manifests.{
  verify_requested, digest_header, fetch_manifest_bytes, choose_descriptor, handle_image_index,
  fetch_image_manifest,
}
use pakstak.Fetch.Tokens.{fetch_image_manifest-find_token}
use pakstak.Fetch.Verified.{IsRight, fetch_image_manifest-IsRight}

zeros : ℕ → List ℕ
zeros zero = []
zeros (suc n) = 0 ∷ zeros n

abbrev flat : Algorithm → List ℕ → List ℕ
flat a bytes = zeros (output_len a)

abbrev zero_digest : Text
zero_digest = codes "sha256:0000000000000000000000000000000000000000000000000000000000000000"

abbrev layers : ImageManifest
layers = record { schema_version = 2; layers = [] }

abbrev entry : Descriptor
entry = record {
  digest = zero_digest;
  media_type = codes "m";
  size = 1;
  platform = some (record { architecture = codes "amd64"; os = codes "linux" });
}

abbrev other : Descriptor
other = record { digest = codes "x"; media_type = codes "m"; size = 1; platform = none }

abbrev json : Json
json = record {
  parse_manifest = λ bytes. if bytes == codes "{}" then some layers else none;
  parse_index = λ bytes. some (record { manifests = other ∷ entry ∷ [] });
  parse_reference = λ bytes. none;
  print_reference = λ r. [];
}

abbrev unauthorized : Response
unauthorized = record {
  header = λ name. some (some (codes "Bearer"));
  body = record { bytes = []; broken = true };
}

abbrev token_answer : Response
token_answer = record { header = λ name. none; body = record { bytes = codes "t"; broken = false } }

abbrev answer : Text → Text → Response
answer media_type body = record {
  header = λ name.
      if name == codes "Content-Type" then some (some media_type) else some (some zero_digest);
  body = record { bytes = body; broken = false };
}

answers : ℕ → Result HttpError Response
answers zero = err (status_code 401)
answers (suc zero) = ok unauthorized
answers (suc (suc zero)) = ok token_answer
answers (suc (suc (suc zero))) =
    ok (answer (codes "application/vnd.oci.image.index.v1+json") (codes "[]"))
answers (suc (suc (suc (suc zero)))) = ok (answer (codes "application/json") (codes "{}"))
answers (suc (suc (suc (suc (suc n))))) = err transport

-- The state is the number of calls.
abbrev net : Http ℕ
net = record {
  call = λ request n. (answers n, suc n);
  parse_challenges = λ header.
      some (record { scheme = header; params = (codes "realm", codes "https://a") ∷ [] } ∷ []);
  parse_token = λ body. some (record { token = some body; access_token = none });
}

abbrev reference : Reference
reference = record {
  registry = codes "localhost";
  repository = codes "app";
  specifier = tag (codes "latest");
}

abbrev client : RegistryClient ℕ
client = record { tokens = []; network = 0 }

abbrev fetched : FetchedManifest
fetched = record { manifest = layers; bytes = codes "{}"; digest = zero_digest }

-- Five calls: two that are refused, one for the token, one for the index, one for the manifest.
fetches :
    fetch_image_manifest flat net json (codes "linux") (codes "x86_64") reference client
    ≡ (ok fetched, record { tokens = (codes "localhost", codes "t") ∷ []; network = 5 })
unfolding fetch_image_manifest fetch_manifest_bytes handle_image_index choose_descriptor
    digest_header verify_requested call_get_with_auth_retry authenticate send_get parse_bytes
    find_matching request_get find_token join_accept registry_url parse_headers contains_text
    token_from_unauthorized fetch_bearer_token send parse_bearer_challenge query_scopes
    token_request auth_header_from_unauthorized see_params see_param find_bearer
    eq_ignore_ascii_case verify_bytes verify copy read new algorithm decode_pairs decode_hex
    hex_byte hex_digit split_once ◌==◌ strip_prefix normalized_arch matches_current_platform
    as_typeless_str zeros answers read_to_end
fetches = refl

fetch_image_manifest-IsRight_example :
    IsRight flat json (codes "linux") (codes "x86_64") reference.specifier fetched
fetch_image_manifest-IsRight_example =
    fetch_image_manifest-IsRight flat net json (codes "linux") (codes "x86_64") reference client
      fetched (ap (λ r. r.0) fetches)

abbrev known : RegistryClient ℕ
known = record { tokens = (codes "other", codes "u") ∷ []; network = 0 }

fetch_image_manifest-find_token_example :
    find_token
      (codes "other")
      (fetch_image_manifest flat net json (codes "linux") (codes "x86_64") reference known).1.tokens
    ≡ find_token (codes "other") known.tokens
unfolding ◌==◌
fetch_image_manifest-find_token_example =
    fetch_image_manifest-find_token flat net json (codes "linux") (codes "x86_64") reference known
      (codes "other") refl
