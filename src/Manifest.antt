-- ===== src/Manifest.antt =====
-- src/manifest.rs: manifests and indexes, and the choice of a platform. The parsers of the crate
-- `serde_json` are a parameter of the development: a record of partial functions.
use pakstak.Base.{ℕ, Text, codes, ◌==◌, Bool, false, ◌&&◌, Option, none, some, List, if◌then◌else◌}
use pakstak.Reference.{Reference}

pub record Platform : Type 0 where
  pub architecture : Text
  pub os : Text

pub record Descriptor : Type 0 where
  pub digest : Text
  pub media_type : Text
  pub size : ℕ
  pub platform : Option Platform

pub record ImageManifest : Type 0 where
  pub schema_version : ℕ
  pub layers : List Descriptor

pub record ImageIndex : Type 0 where
  pub manifests : List Descriptor

pub record FetchedManifest : Type 0 where
  pub manifest : ImageManifest
  pub bytes : Text
  pub digest : Text

-- `serde_json`, at the types that the program reads and writes.
pub record Json : Type 0 where
  pub parse_manifest : Text → Option ImageManifest
  pub parse_index : Text → Option ImageIndex
  pub parse_reference : Text → Option Reference
  pub print_reference : Reference → Text

-- `env::consts::ARCH` in the words of OCI.
unfoldable pub normalized_arch : Text → Text
normalized_arch arch =
    if arch == codes "x86_64"
    then codes "amd64"
    else if arch == codes "aarch64"
    then codes "arm64"
    else arch

-- `os` and `arch` are `env::consts::OS` and `ARCH`, fixed when the program is built.
module _ (os arch : Text) where
  unfoldable pub matches_current_platform : Descriptor → Bool
  unfolding normalized_arch
  matches_current_platform d = elim d.platform [
    | none ↦ false
    | some p ↦ p.os == os && p.architecture == normalized_arch arch
  ]
