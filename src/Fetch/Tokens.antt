-- ===== src/Fetch/Tokens.antt =====
-- Which tokens of a client change.
use pakstak.Base.{
  Text, ◌==◌, ◌≡◌, ◌∙◌, refl, Result, ok, err, ok_or, Bool, true, false, List, ◌++◌, arith,
  if◌then◌else◌,
}
use pakstak.Digest.Verifier.{Algorithm}
use pakstak.Reference.{Reference}
use pakstak.Manifest.{FetchedManifest, Json}
use pakstak.Network.{
  Request, Response, Http, FetchError, RegistryClient, Fetch, continue, ◌>>=◌, from_result, pure,
  fail, http, status_code, index_unparsable, index_empty,
}
use pakstak.Auth.{
  send, fetch_bearer_token, parse_bearer_challenge, token_from_unauthorized, AuthChallenge,
}
use pakstak.Fetch.{
  find_token, insert_token, send_get, authenticate, retry, call_get_with_auth_retry, ManifestBytes,
  ManifestMediaType, index, manifest, unknown, parse_bytes, index_media_types, manifest_media_types,
}
use pakstak.Fetch.Manifests.{
  choose_descriptor, fetch_manifest_bytes, handle_image_index, or_index, by_media_type,
  fetch_image_manifest,
}

module _ {S : Type 0} (registry : Text) where
  -- The tokens of the other registries stay as they are.
  record Keeps {A : Type 0} (m : Fetch S A) : Type 0 where
    at :
        (c : RegistryClient S) (other : Text)
        → (other == registry) ≡ false
        → find_token other (m c).1.tokens ≡ find_token other c.tokens

  Keeps-from_result : {A : Type 0} (r : Result FetchError A) → Keeps (from_result r)
  Keeps-from_result r = record { at = λ c other h. refl }

  continue-Keeps :
      {A B : Type 0} (f : A → Fetch S B)
      → ((a : A) → Keeps (f a))
      → (r : Result FetchError A) (c : RegistryClient S) (other : Text)
      → (other == registry) ≡ false
      → find_token other (continue r f c).1.tokens ≡ find_token other c.tokens
  continue-Keeps f k (ok a) c other h = (k a).at c other h
  continue-Keeps f k (err e) c other h = refl

  Keeps-bind :
      {A B : Type 0} (m : Fetch S A) (f : A → Fetch S B)
      → Keeps m
      → ((a : A) → Keeps (f a))
      → Keeps (m >>= f)
  Keeps-bind m f h k = record {
    at = λ c other x. continue-Keeps f k (m c).0 (m c).1 other x ∙ h.at c other x;
  }

  Keeps-if :
      {A : Type 0} (b : Bool) (m n : Fetch S A) → Keeps m → Keeps n → Keeps (if b then m else n)
  Keeps-if true m n h k = h
  Keeps-if false m n h k = k

  Keeps-pure : {A : Type 0} (a : A) → Keeps (pure a)
  Keeps-pure a = record { at = λ c other h. refl }

  Keeps-fail : {A : Type 0} (e : FetchError) → Keeps {A = A} (fail e)
  Keeps-fail e = record { at = λ c other h. refl }

  Keeps-send : (net : Http S) (request : Request) → Keeps (send net request)
  unfolding send
  Keeps-send net request = record { at = λ c other h. refl }

  Keeps-send_get :
      (net : Http S) (target path : Text) (configure : Request → Request)
      → Keeps (send_get net target path configure)
  unfolding send_get send
  Keeps-send_get net target path configure = record { at = λ c other h. refl }

  Keeps-insert_token : (net : Http S) (token : Text) → Keeps (insert_token net registry token)
  unfolding insert_token find_token
  Keeps-insert_token net token = record { at = λ c other h. ground (arith, h) }

ruleset keeps_rules = (
  Keeps-bind, Keeps-from_result, Keeps-pure, Keeps-fail, Keeps-if, Keeps-send, Keeps-send_get,
  Keeps-insert_token,
)

module _ {S : Type 0} (registry : Text) (net : Http S) where
  Keeps-parse_bearer_challenge :
      (header : Text) → Keeps registry (parse_bearer_challenge net header)
  unfolding parse_bearer_challenge
  Keeps-parse_bearer_challenge header = search keeps_rules

  Keeps-fetch_bearer_token :
      (challenge : AuthChallenge) → Keeps registry (fetch_bearer_token net challenge)
  unfolding fetch_bearer_token
  Keeps-fetch_bearer_token challenge = search keeps_rules

  Keeps-token_from_unauthorized :
      (response : Response) → Keeps registry (token_from_unauthorized net response)
  unfolding token_from_unauthorized
  Keeps-token_from_unauthorized response =
      search (keeps_rules, Keeps-parse_bearer_challenge, Keeps-fetch_bearer_token)

  Keeps-authenticate :
      (path : Text) (configure : Request → Request)
      → Keeps registry (authenticate net registry path configure)
  unfolding authenticate
  Keeps-authenticate path configure = search (keeps_rules, Keeps-token_from_unauthorized)

  Keeps-retry :
      (path : Text) (configure : Request → Request) (r : Result FetchError Response)
      → Keeps registry (retry net registry path configure r)
  Keeps-retry path configure (ok response) = search keeps_rules
  Keeps-retry path configure (err (http (status_code n))) = search (keeps_rules, Keeps-authenticate)
  Keeps-retry path configure (err x) = search keeps_rules

  Keeps-call_get_with_auth_retry :
      (path : Text) (configure : Request → Request)
      → Keeps registry (call_get_with_auth_retry net registry path configure)
  unfolding call_get_with_auth_retry
  Keeps-call_get_with_auth_retry path configure = record {
    at = λ c other h.
        let sent = send_get net registry path configure c in
        (Keeps-retry path configure sent.0).at sent.1 other h
        ∙ (Keeps-send_get registry net registry path configure).at c other h;
  }

module _ (hash : Algorithm → Text → Text) {S : Type 0} (net : Http S) where
  Keeps-fetch_manifest_bytes :
      (r : Reference) (types : List Text) → Keeps r.registry (fetch_manifest_bytes hash net r types)
  unfolding fetch_manifest_bytes
  Keeps-fetch_manifest_bytes r types = search (keeps_rules, Keeps-call_get_with_auth_retry) depth 12

  module _ (json : Json) (os arch : Text) where
    Keeps-handle_image_index :
        (r : Reference) (b : ManifestBytes)
        → Keeps r.registry (handle_image_index hash net json os arch r b)
    unfolding handle_image_index
    Keeps-handle_image_index r b =
        Keeps-bind _ _ _ (Keeps-from_result _ (ok_or (json.parse_index b.bytes) index_unparsable))
          λ ix.
            Keeps-bind _ _ _
              (Keeps-from_result _ (ok_or (choose_descriptor os arch ix) index_empty))
              λ d.
                Keeps-bind _ _ _ (Keeps-fetch_manifest_bytes _ manifest_media_types)
                  λ selected. Keeps-from_result _ (parse_bytes json selected)

    Keeps-by_media_type :
        (r : Reference) (b : ManifestBytes) (t : ManifestMediaType)
        → Keeps r.registry (by_media_type hash net json os arch r b t)
    Keeps-by_media_type r b index = Keeps-handle_image_index r b
    Keeps-by_media_type r b manifest = search keeps_rules
    Keeps-by_media_type r b unknown = or_handled (parse_bytes json b)
      where
        or_handled :
            (x : Result FetchError FetchedManifest)
            → Keeps r.registry (or_index hash net json os arch r b x)
        or_handled (ok m) = search keeps_rules
        or_handled (err e) = Keeps-handle_image_index r b

    -- Fetching a manifest changes at most the token of the registry of its reference, also where it
    -- fails: those of all other registries stay as they are.
    pub fetch_image_manifest-find_token :
        (r : Reference) (c : RegistryClient S) (other : Text)
        → (other == r.registry) ≡ false
        → find_token other (fetch_image_manifest hash net json os arch r c).1.tokens
          ≡ find_token other c.tokens
    unfolding fetch_image_manifest
    fetch_image_manifest-find_token r =
        (Keeps-bind _ _ _ (Keeps-fetch_manifest_bytes r (index_media_types ++ manifest_media_types))
          (λ b. Keeps-by_media_type r b b.media_type)).at
