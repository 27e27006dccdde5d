-- ===== src/Run/Locks.antt =====
-- What has happened when the command line is built: the lock files are there, the layers too, and
-- nothing that was there is changed.
use pakstak.Base.{ℕ, suc, Text, not, Option, List, [], ◌∷◌, is_empty}
use pakstak.Manifest.{Descriptor, Json}
use pakstak.Fs.Paths.{FilePath}
use pakstak.Fs.Effects.{Grows}
use pakstak.Fs.World.{World}
use pakstak.Storage.Action.{container_required, command_empty, no_layers, layer_missing}
use pakstak.Storage.Layout.{Storage}
use pakstak.Storage.Reader.{get_layer_path}
use pakstak.Storage.Growth.{
  Adds, adds_rules, Adds-bind, Adds-pure, Adds-query, Adds-some_or, Adds-check,
  Adds-create_layer_lock_file, Adds-ensure_container_installed, Adds-read_container_manifest_digest,
  Adds-read_manifest,
}
use pakstak.Run.{
  bwrap_args, stack_containers, read_stacked_layers, lock_layers, layer_paths, build_bwrap_command,
}

module _ (s : Storage) where
  pub lock_layers-Adds : (index : ℕ) (layers : List Descriptor) → Adds (lock_layers s index layers)
  unfolding lock_layers
  lock_layers-Adds index [] = search adds_rules
  lock_layers-Adds index (l ∷ layers) =
      Adds-bind _ _ (Adds-create_layer_lock_file s l.digest)
        λ host. Adds-bind _ _ (lock_layers-Adds (suc index) layers) λ locks. Adds-pure _

  layer_paths-Adds : (layers : List Descriptor) → Adds (layer_paths s layers)
  unfolding layer_paths
  layer_paths-Adds [] = search adds_rules
  layer_paths-Adds (l ∷ layers) =
      Adds-bind {A = Option FilePath} _ _ (Adds-query (get_layer_path s l.digest)) λ found.
        Adds-bind {A = FilePath} _ _ (Adds-some_or found (layer_missing l.digest))
          λ p. Adds-bind _ _ (layer_paths-Adds layers) λ ps. Adds-pure (p ∷ ps)

module _ (json : Json) (s : Storage) where
  stack_containers-Adds :
      (acc : List Descriptor) (containers : List Text)
      → Adds (stack_containers json s acc containers)
  unfolding stack_containers
  stack_containers-Adds acc [] = search adds_rules
  stack_containers-Adds acc (c ∷ cs) = search (
    adds_rules,
    Adds-ensure_container_installed,
    Adds-read_container_manifest_digest,
    Adds-read_manifest,
    λ (acc' : List Descriptor). stack_containers-Adds acc' cs,
  )

  build_bwrap_command-Adds :
      (containers command : List Text) → Adds (build_bwrap_command json s containers command)
  unfolding build_bwrap_command read_stacked_layers
  build_bwrap_command-Adds containers command =
      Adds-bind _ _ (Adds-check (not (is_empty containers)) container_required) λ _.
        Adds-bind _ _ (Adds-check (not (is_empty command)) command_empty) λ _.
          Adds-bind _ _ (stack_containers-Adds [] containers) λ layers.
            Adds-bind _ _ (lock_layers-Adds s 0 layers) λ locks.
              Adds-bind _ _ (Adds-check (not (is_empty layers)) no_layers) λ _.
                Adds-bind _ _ (layer_paths-Adds s layers)
                  λ paths. Adds-pure (bwrap_args paths locks command)

  -- Whatever the containers and the digests in their manifests, and wherever it is cut short,
  -- building the command changes no file that is there.
  pub build_bwrap_command-Grows :
      (containers command : List Text) (w : World)
      → Grows w.files (build_bwrap_command json s containers command w).1.files
  build_bwrap_command-Grows containers command w =
      (build_bwrap_command-Adds containers command).at w
