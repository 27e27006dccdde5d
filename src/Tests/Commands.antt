-- ===== src/Tests/Commands.antt =====
-- Commands on a storage with one image, and on an empty one.
use pakstak.Base.{
  ℕ, zero, suc, Text, codes, ◌==◌, false, none, some, Result, ok, err, [], ◌∷◌, ◌++◌, ◌≡◌, arith,
  if◌then◌else◌,
}
use pakstak.Reference.{Reference, tag, parse}
use pakstak.Manifest.{Descriptor, ImageManifest, Json}
use pakstak.Network.{Response, HttpError, transport}
use pakstak.Fs.Paths.{FilePath, resolve, path_dec}
use pakstak.Fs.Files.{Files, lookup, new_directory}
use pakstak.Fs.World.{still}
use pakstak.Storage.Layout.{storage_at}
use pakstak.Storage.Complete.{IsComplete, HasManifest}
use pakstak.Prune.Entries.{NoSlash}
use pakstak.Tasks.{Crates, Session}
use pakstak.Tasks.Ends.{Ended}
use pakstak.Fetch.Images.{fetch_image}
use pakstak.Fetch.Complete.{fetch_image-IsComplete}
use pakstak.Commands.Install.{install}
use pakstak.Commands.Installed.{IsInstalled, install-IsComplete}
use pakstak.Tests.Layers.{below_ne, flat, zero_digest, archives, archives-IsConfined}
use pakstak.Tests.Prunes.{sets, alone}

abbrev pub root : FilePath
root = codes "d" ∷ []

abbrev layer : Descriptor
layer = record {
  digest = zero_digest;
  media_type = codes "application/vnd.oci.image.layer.v1.tar";
  size = 1;
  platform = none;
}

abbrev manifest : ImageManifest
manifest = record { schema_version = 2; layers = layer ∷ [] }

abbrev reference : Reference
reference = record {
  registry = codes "localhost";
  repository = codes "app";
  specifier = tag (codes "latest");
}

abbrev pub json : Json
json = record {
  parse_manifest = λ bytes. if bytes == codes "{}" then some manifest else none;
  parse_index = λ bytes. none;
  parse_reference = λ bytes. some reference;
  print_reference = λ r. codes "r";
}

-- The SHA-384 digest, as far as the hash function of these tests goes.
abbrev pub other_digest : Text
other_digest =
    codes
      "sha384:000000000000000000000000000000000000000000000000000000000000000000000000000000000000000000000000"

abbrev answer : Text → Text → Response
answer digest bytes = record {
  header = λ name.
      if name == codes "Content-Type"
      then some (some (codes "application/vnd.oci.image.manifest.v1+json"))
      else some (some digest);
  body = record { bytes = bytes; broken = false };
}

-- First the manifest, then its layer; afterwards the manifest under another digest.
unfoldable pub answers : ℕ → Result HttpError Response
answers zero = ok (answer zero_digest (codes "{}"))
answers (suc zero) = ok (answer zero_digest (codes "tar"))
answers (suc (suc zero)) = ok (answer other_digest (codes "{}"))
answers (suc (suc (suc n))) = err transport

abbrev pub crates : Crates ℕ
crates = record {
  http = record {
    call = λ request n. (answers n, suc n);
    parse_challenges = λ header. none;
    parse_token = λ body. none;
  };
  hash = flat;
  json = json;
  archives = archives;
  sets = sets;
  processes = alone;
  os = codes "linux";
  arch = codes "x86_64";
}

abbrev pub session : Files → Session ℕ
session fs = record { client = record { tokens = []; network = 0 }; world = still fs }

abbrev pub empty : Files
empty = (root, new_directory) ∷ []

pub empty-IsComplete : IsComplete root json empty
unfolding lookup resolve ◌==◌
empty-IsComplete = record {
  at = λ d n bytes m slash found kind parsed.
      elim (path_dec (resolve root ++ codes "manifests" ∷ (d ++ codes ".json") ∷ []) root) [
        | yes e ↦ absurd (below_ne (resolve root) (codes "manifests") _ e)
        | no ne ↦ ground (arith, ne, found)
      ];
}

fetch_image-IsComplete_example :
    Ended
      (λ m fs. IsComplete root json fs × HasManifest root m.digest fs × NoSlash m.digest)
      (IsComplete root json)
      (fetch_image crates (storage_at root) reference false (session empty))
fetch_image-IsComplete_example =
    fetch_image-IsComplete crates root archives-IsConfined reference false (session empty)
      empty-IsComplete

install-IsComplete_example :
    Ended
      (λ u fs.
        IsComplete root json fs
        × ((r : Reference) × (parse (codes "localhost/app") ≡ ok r)
            × IsInstalled root json (codes "c") r fs))
      (IsComplete root json)
      (install crates (storage_at root) (codes "c") (codes "localhost/app") (session empty))
install-IsComplete_example =
    install-IsComplete crates root archives-IsConfined (codes "c") (codes "localhost/app")
      (session empty) empty-IsComplete
