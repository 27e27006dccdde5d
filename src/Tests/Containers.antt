-- ===== src/Tests/Containers.antt =====
-- A container that is saved on an empty file system, whole and cut short, and a manifest that is saved.
use pakstak.Base.{Text, codes, ◌==◌, true, Result, ok, err, none, some, [], ◌∷◌, ◌≡◌, ◌↔◌, refl}
use pakstak.Base.Splits.{split}
use pakstak.Digest.Verifier.{Algorithm, verify_bytes}
use pakstak.Reference.{Reference, tag}
use pakstak.Manifest.{Json}
use pakstak.Fs.Paths.{FilePath, push, resolve, parent, file_name, text_dec, path_dec, path_eq, go}
use pakstak.Fs.Files.{
  Node, regular, strip, lookup, without, put, move_tree, names, is_dir_at, exists_at,
}
use pakstak.Fs.World.{
  World, still, fault, operate, create_below, create_dir_all, write_at, write, may_replace,
  rename_at, rename,
}
use pakstak.Storage.Layout.{storage_at, manifest_path}
use pakstak.Storage.Reader.{ensure_parent_dir, is_manifest_saved}
use pakstak.Storage.Writer.{publish_directory, write_container}
use pakstak.Storage.Action.{StorageError, io}
use pakstak.Storage.Copies.{home_of}
use pakstak.Storage.Container.{ContainerWhole, write_container_whole}
use pakstak.Storage.Saved.{is_manifest_saved_lem}

abbrev root : FilePath
root = codes "data" ∷ []

abbrev reference : Reference
reference = record {
  registry = codes "localhost";
  repository = codes "a";
  specifier = tag (codes "latest");
}

abbrev json : Json
json = record {
  parse_manifest = λ bytes. none;
  parse_index = λ bytes. none;
  parse_reference = λ bytes. none;
  print_reference = λ r. r.repository;
}

-- The third operation is cut short.
abbrev broken : World
broken = record { files = []; faults = none ∷ none ∷ some 2 ∷ [] }

saves : World → Result StorageError (Unit {0}) × World
unfolding write_container publish_directory ensure_parent_dir create_dir_all create_below write
    write_at rename rename_at may_replace operate storage_at push split parent file_name resolve go
    text_dec path_dec path_eq strip lookup without put move_tree names is_dir_at exists_at ◌==◌
saves w = write_container (storage_at root) json (codes "app") (codes "sha256:ab") reference w

saves_whole :
    (write_container
      (storage_at root)
      json
      (codes "app")
      (codes "sha256:ab")
      reference
      (still [])).0
    ≡ ok tt
unfolding saves
saves_whole = refl

saves_nothing :
    (write_container (storage_at root) json (codes "app") (codes "sha256:ab") reference broken).0
    ≡ err (io fault)
unfolding saves
saves_nothing = refl

write_container_whole_example :
    ContainerWhole
      (home_of root (codes "app"))
      (codes "sha256:ab")
      (codes "a")
      broken.files
      (write_container (storage_at root) json (codes "app") (codes "sha256:ab") reference broken)
unfolding ◌==◌
write_container_whole_example =
    write_container_whole root json (codes "app") (codes "sha256:ab") reference broken refl

abbrev flat : Algorithm → Text → Text
flat a bytes = bytes

is_manifest_saved_lem_example :
    ((is_manifest_saved flat (storage_at root) (codes "m") true (still [])).0 ≡ ok true) ↔ (
      (n : Node) × (bytes : Text) × (lookup
          (resolve (manifest_path (storage_at root) (codes "m")))
          []
        ≡ some n)
      × (n.kind ≡ regular bytes)
      × (true ≡ true → verify_bytes flat bytes (codes "m") ≡ ok tt))
is_manifest_saved_lem_example = is_manifest_saved_lem flat (storage_at root) (codes "m") true []
