-- ===== src/Network.antt =====
-- The network as src/fetch.rs and src/auth.rs use it. The crates `ureq` and `http_auth` are
-- parameters: the record `Http` over the state `S` of the world outside, which any call may change.
use pakstak.Base.{
  none, some, if◌then◌else◌, subst, ok_injective, Bool, true, ◌≡◌, refl, Text, ℕ, Result, ok, err,
  Option, List, [], ◌∷◌, ◌++◌,
}

pub record Request : Type 0 where
  pub url : Text
  pub headers : List (Text × Text)
  pub queries : List (Text × Text)
  pub http_status_as_error : Bool

-- The body of a response, or what is left of it. Where it is broken, reading fails after its bytes.
pub record Body : Type 0 where
  pub bytes : Text
  pub broken : Bool

-- `read_to_end`
unfoldable pub read_to_end : Body → Option Text
read_to_end body = if body.broken then none else some body.bytes

-- `header` is `headers().get`; within it there is no text where `to_str` fails.
pub record Response : Type 0 where
  pub header : Text → Option (Option Text)
  pub body : Body

pub data HttpError : Type 0 where
  status_code : ℕ → HttpError
  transport : HttpError

-- A challenge of `http_auth`, its values unescaped.
pub record Challenge : Type 0 where
  pub scheme : Text
  pub params : List (Text × Text)

pub record TokenResponse : Type 0 where
  pub token : Option Text
  pub access_token : Option Text

pub record Http (S : Type 0) : Type 0 where
  pub call : Request → S → Result HttpError Response × S
  pub parse_challenges : Text → Option (List Challenge)
  pub parse_token : Text → Option TokenResponse

pub data FetchError : Type 0 where
  http : HttpError → FetchError
  header_missing header_invalid challenge_unparsable challenge_unsupported : FetchError
  realm_missing realm_empty body_unreadable token_unparsable token_missing : FetchError
  digest_mismatch manifest_unparsable schema_unsupported : FetchError
  index_unparsable index_empty : FetchError

-- `RegistryClient`. The entry of a key is its first one.
pub record RegistryClient (S : Type 0) : Type 0 where
  pub tokens : List (Text × Text)
  pub network : S

abbrev pub agent_get : Text → Request
agent_get url = record { url = url; headers = []; queries = []; http_status_as_error = true }

abbrev pub header : Text → Text → Request → Request
header name value r = record r { headers = r.headers ++ (name, value) ∷ [] }

abbrev pub query : Text → Text → Request → Request
query name value r = record r { queries = r.queries ++ (name, value) ∷ [] }

abbrev pub Fetch : Type 0 → Type 0 → Type 0
Fetch S A = RegistryClient S → Result FetchError A × RegistryClient S

module _ {S : Type 0} where
  infixl 5 ◌>>=◌
  abbrev pub continue : {A B : Type 0} → Result FetchError A → (A → Fetch S B) → Fetch S B
  continue (ok a) f c = f a c
  continue (err e) f c = (err e, c)

  abbrev pub ◌>>=◌ : {A B : Type 0} → Fetch S A → (A → Fetch S B) → Fetch S B
  ◌>>=◌ m f c = let (r, c') = m c in continue r f c'

  abbrev pub from_result : {A : Type 0} → Result FetchError A → Fetch S A
  from_result r c = (r, c)

  abbrev pub pure : {A : Type 0} → A → Fetch S A
  pure a c = (ok a, c)

  abbrev pub fail : {A : Type 0} → FetchError → Fetch S A
  fail e c = (err e, c)

  -- Any value that the method gives has the property.
  pub record Gives {A : Type 0} (R : A → Type 0) (m : Fetch S A) : Type 0 where
    pub at : (c : RegistryClient S) (a : A) → (m c).0 ≡ ok a → R a

  continue-Gives :
      {A B : Type 0} {R : A → Type 0} {Q : B → Type 0} (f : A → Fetch S B)
      → ((a : A) → R a → Gives Q (f a))
      → (r : Result FetchError A) (c : RegistryClient S) → ((a : A) → r ≡ ok a → R a)
      → (b : B) → (continue r f c).0 ≡ ok b
      → Q b
  continue-Gives f k (ok a) c h b e = (k a (h a refl)).at c b e
  continue-Gives f k (err x) c h b e = cc

  pub Gives-bind :
      {A B : Type 0} {R : A → Type 0} {Q : B → Type 0} (m : Fetch S A) (f : A → Fetch S B)
      → Gives R m
      → ((a : A) → R a → Gives Q (f a))
      → Gives Q (m >>= f)
  Gives-bind m f h k = record { at = λ c. continue-Gives f k (m c).0 (m c).1 (h.at c) }

  pub Gives-any : {A : Type 0} (m : Fetch S A) → Gives (λ a. Unit {0}) m
  Gives-any m = record { at = λ c a h. tt }

  pub Gives-from_result :
      {A : Type 0} (r : Result FetchError A) → Gives (λ a. r ≡ ok a) (from_result r)
  Gives-from_result r = record { at = λ c a h. h }

  pub Gives-pure : {A : Type 0} {R : A → Type 0} (a : A) → R a → Gives R (pure a)
  Gives-pure {R} a h = record { at = λ c b e. subst R (ok_injective a b e) h }

  pub Gives-weaken :
      {A : Type 0} {R Q : A → Type 0} (m : Fetch S A)
      → ((a : A) → R a → Q a)
      → Gives R m
      → Gives Q m
  Gives-weaken m f h = record { at = λ c a e. f a (h.at c a e) }
