-- ===== src/Tasks.antt =====
-- What the commands are made of: tasks on the files and on a client of registries, that may fail.
-- The crates and the system that they use are a parameter, the record `Crates`.
pub mod Ends
use pakstak.Base.{ℕ, Text, [], Result, ok, err, map_err}
use pakstak.Digest.Verifier.{Algorithm}
use pakstak.Reference.{ParseError}
use pakstak.Manifest.{Json}
use pakstak.Install.{NameError}
use pakstak.Formats.{UnsupportedLayerMediaType}
use pakstak.Network.{Http, FetchError, RegistryClient, Fetch}
use pakstak.Fs.World.{World}
use pakstak.Storage.Action.{StorageError, Action}
use pakstak.Storage.Layers.{Archives}
use pakstak.Storage.Locks.{Processes}
use pakstak.Prune.{HashSets}

pub record Crates (S : Type 0) : Type 0 where
  pub http : Http S
  pub hash : Algorithm → Text → Text
  pub json : Json
  pub archives : Archives
  pub sets : HashSets
  pub processes : Processes
  -- `env::consts::OS` and `ARCH`
  pub os : Text
  pub arch : Text

pub data TaskError : Type 0 where
  storage : StorageError → TaskError
  registry : FetchError → TaskError
  name : NameError → TaskError
  image : ParseError → TaskError
  layer_format : UnsupportedLayerMediaType → TaskError
  container_exists : Text → TaskError
  -- The numbers of invalid manifests and of missing layers.
  repair_found : ℕ → ℕ → TaskError

pub record Session (S : Type 0) : Type 0 where
  pub client : RegistryClient S
  pub world : World

abbrev pub Task : Type 0 → Type 0 → Type 0
Task S A = Session S → Result TaskError A × Session S

module _ {S : Type 0} where
  infixl 5 ◌>>=◌ ◌>>◌
  abbrev pub continue : {A B : Type 0} → Result TaskError A → (A → Task S B) → Task S B
  continue (ok a) f x = f a x
  continue (err e) f x = (err e, x)

  abbrev pub ◌>>=◌ : {A B : Type 0} → Task S A → (A → Task S B) → Task S B
  ◌>>=◌ m f x = let (r, x') = m x in continue r f x'

  abbrev pub ◌>>◌ : {A B : Type 0} → Task S A → Task S B → Task S B
  m >> n = m >>= λ _. n

  abbrev pub pure : {A : Type 0} → A → Task S A
  pure a x = (ok a, x)

  abbrev pub fail : {A : Type 0} → TaskError → Task S A
  fail e x = (err e, x)

  abbrev pub from_result : {A : Type 0} → Result TaskError A → Task S A
  from_result r x = (r, x)

  -- A method of the storage, and one of the client.
  abbrev pub on_storage : {A : Type 0} → Action A → Task S A
  on_storage m x = let (r, w) = m x.world in (map_err storage r, record x { world = w })

  abbrev pub on_registry : {A : Type 0} → Fetch S A → Task S A
  on_registry m x = let (r, c) = m x.client in (map_err registry r, record x { client = c })

  -- `RegistryClient::new`
  unfoldable pub new_client : Task S (Unit {0})
  new_client x = (ok tt, record x { client = record (x.client) { tokens = [] } })
