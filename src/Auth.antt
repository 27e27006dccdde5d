-- ===== src/Auth.antt =====
-- src/auth.rs: the challenge of a registry, and the token that answers it.
use pakstak.Base.{
  ℕ, ◌+◌, Text, codes, ◌==◌, Result, ok, err, ok_or, Bool, ◌&&◌, Option, none, some, List, [], ◌∷◌,
  ◌++◌, map, is_empty, leb, if◌then◌else◌,
}
use pakstak.Network.{
  read_to_end, Request, Response, Challenge, Http, FetchError, Fetch, agent_get, query, from_result,
  pure, fail, ◌>>=◌, http, header_missing, header_invalid, challenge_unparsable,
  challenge_unsupported, realm_missing, realm_empty, body_unreadable, token_unparsable,
  token_missing,
}

pub record AuthChallenge : Type 0 where
  pub realm : Text
  pub service : Option Text
  pub scopes : List Text

-- What the loop over the parameters has seen.
pub record Seen : Type 0 where
  pub realm : Option Text
  pub service : Option Text
  pub scopes : List Text

abbrev pub or_else : {A : Type 0} → Option A → Option A → Option A
or_else (some a) other = some a
or_else none other = other

abbrev to_ascii_lowercase : ℕ → ℕ
to_ascii_lowercase c = if leb b'A' c && leb c b'Z' then c + 32 else c

unfoldable pub eq_ignore_ascii_case : Text → Text → Bool
eq_ignore_ascii_case s t = map to_ascii_lowercase s == map to_ascii_lowercase t

unfoldable pub find_bearer : List Challenge → Option Challenge
find_bearer [] = none
find_bearer (c ∷ cs) =
    let rest = find_bearer cs in
    if eq_ignore_ascii_case c.scheme (codes "Bearer") then some c else rest

unfoldable pub see_param : Text × Text → Seen → Seen
see_param (key, value) seen =
    if key == codes "realm"
    then record seen { realm = some value }
    else if key == codes "service"
    then record seen { service = some value }
    else if key == codes "scope"
    then record seen { scopes = seen.scopes ++ value ∷ [] }
    else seen

unfoldable pub see_params : List (Text × Text) → Seen → Seen
see_params [] seen = seen
see_params (param ∷ params) seen = see_params params (see_param param seen)

unfoldable pub auth_header_from_unauthorized : Response → Result FetchError Text
auth_header_from_unauthorized response =
    elim (or_else (response.header (codes "WWW-Authenticate"))
      (response.header (codes "Www-Authenticate"))) [
        | none ↦ err header_missing
        | some value ↦ ok_or value header_invalid
      ]

abbrev query_service : Option Text → Request → Request
query_service none request = request
query_service (some service) request = query (codes "service") service request

unfoldable pub query_scopes : List Text → Request → Request
query_scopes [] request = request
query_scopes (scope ∷ scopes) request = query_scopes scopes (query (codes "scope") scope request)

unfoldable pub token_request : AuthChallenge → Request
token_request challenge = query_scopes challenge.scopes (
    query_service challenge.service
      (query (codes "client_id") (codes "pakstak") (agent_get challenge.realm)))

module _ {S : Type 0} (net : Http S) where
  unfoldable pub parse_bearer_challenge : Text → Fetch S AuthChallenge
  parse_bearer_challenge header = do
    challenges ← from_result (ok_or (net.parse_challenges header) challenge_unparsable)
    challenge ← from_result (ok_or (find_bearer challenges) challenge_unsupported)
    let seen = see_params challenge.params (record { realm = none; service = none; scopes = [] })
    realm ← from_result (ok_or seen.realm realm_missing)
    pure (record { realm = realm; service = seen.service; scopes = seen.scopes })

  -- A request that fails fails the method.
  unfoldable pub send : Request → Fetch S Response
  send request c =
      let (r, s) = net.call request c.network in
      (elim r [ ok response ↦ ok response | err e ↦ err (http e) ], record c { network = s })

  unfoldable pub fetch_bearer_token : AuthChallenge → Fetch S Text
  fetch_bearer_token challenge = do
    response ← send (token_request challenge)
    body ← from_result (ok_or (read_to_end response.body) body_unreadable)
    token ← from_result (ok_or (net.parse_token body) token_unparsable)
    from_result (ok_or (or_else token.token token.access_token) token_missing)

  unfoldable pub token_from_unauthorized : Response → Fetch S Text
  token_from_unauthorized response = do
    header ← from_result (auth_header_from_unauthorized response)
    challenge ← parse_bearer_challenge header
    if is_empty challenge.realm then fail realm_empty else fetch_bearer_token challenge
