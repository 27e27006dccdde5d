-- ===== src/Tests/Runs.antt =====
-- One container of two layers, one of them named twice, and the command line that runs it.
use pakstak.Base.{Text, codes, Result, some, none, List, [], ◌∷◌, ◌≡◌}
use pakstak.Manifest.{Descriptor, ImageManifest, Json}
use pakstak.Fs.Paths.{FilePath}
use pakstak.Fs.Files.{regular_file, new_directory}
use pakstak.Fs.World.{World}
use pakstak.Fs.Effects.{Grows}
use pakstak.Storage.Action.{StorageError, pure, collect, ◌>>=◌}
use pakstak.Storage.Layout.{Storage, storage_at}
use pakstak.Run.{Arg, bwrap_args, read_stacked_layers, build_bwrap_command}
use pakstak.Run.Stack.{nub, concat, container_layers, read_stacked_layers_lem}
use pakstak.Run.Locks.{build_bwrap_command-Grows}

abbrev layer : Text → Descriptor
layer d = record { digest = d; media_type = codes "tar"; size = 1; platform = none }

abbrev image : ImageManifest
image = record {
  schema_version = 2;
  layers = layer (codes "a") ∷ layer (codes "b") ∷ layer (codes "a") ∷ [];
}

-- Every manifest is the same.
abbrev json : Json
json = record {
  parse_manifest = λ bytes. some image;
  parse_index = λ _. none;
  parse_reference = λ _. none;
  print_reference = λ _. [];
}

abbrev at : List Text → FilePath
at p = codes "d" ∷ p

abbrev stored : World
stored = record {
  files =
      (at [], new_directory)
      ∷ (at (codes "containers" ∷ []), new_directory)
      ∷ (at (codes "containers" ∷ codes "c" ∷ []), new_directory)
      ∷ (
        at (codes "containers" ∷ codes "c" ∷ codes "manifest_digest" ∷ []),
        regular_file (codes "m"),
      )
      ∷ (at (codes "manifests" ∷ []), new_directory)
      ∷ (at (codes "manifests" ∷ codes "m.json" ∷ []), regular_file (codes "{}"))
      ∷ (at (codes "layers" ∷ []), new_directory)
      ∷ (at (codes "layers" ∷ codes "a" ∷ []), new_directory)
      ∷ (at (codes "layers" ∷ codes "b" ∷ []), new_directory)
      ∷ [];
  faults = [];
}

abbrev place : Storage
place = storage_at (at [])

abbrev run : Result StorageError (List Arg) × World
run = build_bwrap_command json place (codes "c" ∷ []) (codes "sh" ∷ []) stored

abbrev args : List Arg
args =
    bwrap_args (at (codes "layers" ∷ codes "a" ∷ []) ∷ at (codes "layers" ∷ codes "b" ∷ []) ∷ [])
      ((at (codes "locks" ∷ codes "layers" ∷ codes "a" ∷ []), codes "/tmp/.layer_locks/0")
        ∷ (at (codes "locks" ∷ codes "layers" ∷ codes "b" ∷ []), codes "/tmp/.layer_locks/1")
        ∷ [])
      (codes "sh" ∷ [])

build_bwrap_command-Grows_example : Grows stored.files run.1.files
build_bwrap_command-Grows_example =
    build_bwrap_command-Grows json place (codes "c" ∷ []) (codes "sh" ∷ []) stored

read_stacked_layers_lem_example : read_stacked_layers json place (codes "c" ∷ codes "c" ∷ []) ≡ (
    collect (container_layers json place) (codes "c" ∷ codes "c" ∷ []) >>= λ ls.
    pure (nub (concat ls)))
read_stacked_layers_lem_example = read_stacked_layers_lem json place (codes "c" ∷ codes "c" ∷ [])
