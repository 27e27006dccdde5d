-- ===== src/Storage/Reader.antt =====
-- The methods of `Storage` that read, and those of the free functions that they use.
use pakstak.Base.{
  Text, codes, strip_suffix, Result, ok, err, Bool, true, false, not, Option, none, some, List, [],
  ◌∷◌, is_empty, if◌then◌else◌,
}
use pakstak.Base.Utf8.{is_utf8, trim}
use pakstak.Reference.{Reference}
use pakstak.Manifest.{ImageManifest, Json}
use pakstak.Digest.Verifier.{Algorithm, verify_bytes}
use pakstak.Fs.Paths.{FilePath, push, parent}
use pakstak.Fs.World.{
  IoKind, not_found, World, read, read_dir, is_dir, is_file, create_dir_all, open_create,
}
use pakstak.Storage.Action.{
  StorageError, io, not_utf8, manifest_digest_empty, manifest_unparsable, reference_unparsable,
  no_json_suffix, container_not_installed, Action, ◌>>=◌, ◌>>◌, pure, do_io, some_or, check, query,
}
use pakstak.Storage.Layout.{
  Storage, container_path, containers_path, manifests_path, manifest_path, layers_path, layer_path,
  layer_lock_path,
}

unfoldable pub ensure_parent_dir : FilePath → Action (Unit {0})
ensure_parent_dir path = elim (parent path) [ none ↦ pure tt | some p ↦ do_io (create_dir_all p) ]

unfoldable pub open_lock_file : FilePath → Action (Unit {0})
open_lock_file path = do ensure_parent_dir path; do_io (open_create path)

-- A directory that is not there has no entries.
unfoldable pub or_empty : Result IoKind (List Text) → Result StorageError (List Text)
or_empty (ok names) = ok names
or_empty (err not_found) = ok []
or_empty (err e) = err (io e)

unfoldable pub read_dir_entries : FilePath → Action (List Text)
unfolding or_empty
read_dir_entries path w = let (r, w') = read_dir path w in (or_empty r, w')

unfoldable pub select : (Text → Bool) → List Text → List Text
select p [] = []
select p (a ∷ as') = let rest = select p as' in if p a then a ∷ rest else rest

-- `file_name().into_string()`
unfoldable pub into_string : Text → Result StorageError Text
into_string name = if is_utf8 name then ok name else err not_utf8

unfoldable pub strip_json : Text → Result StorageError Text
strip_json name = elim (into_string name) [
  | err e ↦ err e
  | ok n ↦ elim (strip_suffix (codes ".json") n) [ none ↦ err no_json_suffix | some d ↦ ok d ]
]

abbrev pub map_names :
    (Text → Result StorageError Text) → List Text → List (Result StorageError Text)
map_names f [] = []
map_names f (a ∷ as') = f a ∷ map_names f as'

-- `fs::read_to_string`
unfoldable pub read_to_string : FilePath → Action Text
read_to_string path = do bytes ← do_io (read path); check (is_utf8 bytes) not_utf8; pure bytes

module _ (s : Storage) where
  unfoldable pub read_container_manifest_digest : Text → Action Text
  read_container_manifest_digest container = do
    text ← read_to_string (push (container_path s container) (codes "manifest_digest"))
    let digest = trim text
    check (not (is_empty digest)) manifest_digest_empty
    pure digest

  unfoldable pub read_manifest_bytes : Text → Action Text
  read_manifest_bytes digest = do_io (read (manifest_path s digest))

  unfoldable pub read_manifest_digests : Action (List (Result StorageError Text))
  unfolding select strip_json into_string
  read_manifest_digests = do
    names ← read_dir_entries (manifests_path s)
    files ← query (λ w. select (λ name. is_file (push (manifests_path s) name) w) names)
    pure (map_names strip_json files)

  unfoldable pub read_layer_digests : Action (List (Result StorageError Text))
  unfolding select into_string
  read_layer_digests = do
    names ← read_dir_entries (layers_path s)
    dirs ← query (λ w. select (λ name. is_dir (push (layers_path s) name) w) names)
    pure (map_names into_string dirs)

  unfoldable pub read_containers : Action (List (Result StorageError Text))
  unfolding select into_string
  read_containers = do
    names ← read_dir_entries (containers_path s)
    dirs ← query (λ w. select (λ name. is_dir (push (containers_path s) name) w) names)
    pure (map_names into_string dirs)

  unfoldable pub get_layer_path : Text → World → Option FilePath
  get_layer_path digest w =
      if is_dir (layer_path s digest) w then some (layer_path s digest) else none

  unfoldable pub create_layer_lock_file : Text → Action FilePath
  create_layer_lock_file digest = do
    open_lock_file (layer_lock_path s digest)
    pure (layer_lock_path s digest)

  unfoldable pub is_container_taken : Text → World → Bool
  is_container_taken container w = is_dir (container_path s container) w

  unfoldable pub ensure_container_installed : Text → Action (Unit {0})
  ensure_container_installed container = do
    installed ← query (is_dir (container_path s container))
    check installed (container_not_installed container)

module _ (json : Json) (s : Storage) where
  unfoldable pub read_manifest : Text → Action ImageManifest
  read_manifest digest = do
    bytes ← read_manifest_bytes s digest
    some_or (json.parse_manifest bytes) manifest_unparsable

  unfoldable pub read_container_reference : Text → Action Reference
  read_container_reference container = do
    bytes ← do_io (read (push (container_path s container) (codes "reference.json")))
    some_or (json.parse_reference bytes) reference_unparsable

module _ (hash : Algorithm → Text → Text) (s : Storage) where
  unfoldable pub check_saved : Text → Action Bool
  check_saved digest = do
    bytes ← do_io (read (manifest_path s digest))
    pure (elim (verify_bytes hash bytes digest) [ ok _ ↦ true | err _ ↦ false ])

  -- Without `verify` it is enough that the file is there.
  unfoldable pub is_manifest_saved : Text → Bool → Action Bool
  unfolding check_saved
  is_manifest_saved digest verify = do
    there ← query (is_file (manifest_path s digest))
    if not there then pure false else if not verify then pure true else check_saved digest
