-- ===== src/Run.antt =====
-- src/run.rs: the layers of the containers, stacked, and the command line of Bubblewrap.
pub mod Stack
pub mod Locks
pub mod Sandbox
pub mod Ready
use pakstak.Base.{
  ℕ, suc, ◌+◌, Text, codes, ◌==◌, Bool, not, ◌&&◌, List, [], ◌∷◌, ◌++◌, is_empty, all,
  if◌then◌else◌, map,
}
use pakstak.Base.Decimal.{decimal}
use pakstak.Manifest.{Descriptor, ImageManifest, Json}
use pakstak.Fs.Paths.{FilePath}
use pakstak.Storage.Action.{
  Action, ◌>>=◌, ◌>>◌, pure, fail, some_or, check, query, container_required, command_empty,
  no_layers, layer_missing,
}
use pakstak.Storage.Layout.{Storage}
use pakstak.Storage.Reader.{
  ensure_container_installed, read_container_manifest_digest, read_manifest, get_layer_path,
  create_layer_lock_file,
}

-- An argument of the command: a text, or the path of a file.
pub data Arg : Type 0 where
  text : Text → Arg
  path : FilePath → Arg

abbrev pub layer_locks_dir : Text
layer_locks_dir = codes "/tmp/.layer_locks"

-- `layers.iter().all(|old| new.digest != old.digest)`
unfoldable pub is_new : List Descriptor → Descriptor → Bool
is_new layers new = all (λ old. not (new.digest == old.digest)) layers

-- The loop over the layers of one manifest.
unfoldable pub add_layers : List Descriptor → List Descriptor → List Descriptor
add_layers layers [] = layers
add_layers layers (new ∷ rest) =
    add_layers (if is_new layers new then layers ++ new ∷ [] else layers) rest

-- The overlay of the layers; a single layer is bound, since an overlay takes two at least.
overlay_args : List FilePath → List Arg
overlay_args [] = text (codes "--ro-overlay") ∷ text (codes "/") ∷ []
overlay_args (p ∷ ps) = text (codes "--overlay-src") ∷ path p ∷ overlay_args ps

unfoldable pub root_args : List FilePath → List Arg
unfolding overlay_args
root_args (p ∷ []) = text (codes "--ro-bind") ∷ path p ∷ text (codes "/") ∷ []
root_args ps = overlay_args ps

unfoldable pub lock_args : List (FilePath × Text) → List Arg
lock_args [] = []
lock_args ((host, sandbox) ∷ locks) =
    text (codes "--ro-bind")
    ∷ path host
    ∷ text sandbox
    ∷ text (codes "--lock-file")
    ∷ text sandbox
    ∷ lock_args locks

abbrev pub fixed_args : List Arg
fixed_args =
    text (codes "--proc")
    ∷ text (codes "/proc")
    ∷ text (codes "--dev")
    ∷ text (codes "/dev")
    ∷ text (codes "--tmpfs")
    ∷ text (codes "/tmp")
    ∷ text (codes "--dir")
    ∷ text layer_locks_dir
    ∷ []

abbrev pub sandbox_path : ℕ → Text
sandbox_path index = layer_locks_dir ++ b'/' ∷ decimal index

-- The arguments of the finished command.
abbrev pub bwrap_args : List FilePath → List (FilePath × Text) → List Text → List Arg
bwrap_args paths locks command =
    text (codes "--clearenv")
    ∷ text (codes "--unshare-all")
    ∷ (root_args paths ++ (fixed_args ++ (lock_args locks ++ map text command)))

module _ (json : Json) (s : Storage) where
  unfoldable pub stack_containers : List Descriptor → List Text → Action (List Descriptor)
  stack_containers layers [] = pure layers
  stack_containers layers (container ∷ rest) = do
    ensure_container_installed s container
    digest ← read_container_manifest_digest s container
    manifest ← read_manifest json s digest
    stack_containers (add_layers layers manifest.layers) rest

  unfoldable pub read_stacked_layers : List Text → Action (List Descriptor)
  read_stacked_layers = stack_containers []

module _ (s : Storage) where
  unfoldable pub lock_layers : ℕ → List Descriptor → Action (List (FilePath × Text))
  lock_layers index [] = pure []
  lock_layers index (layer ∷ rest) = do
    host ← create_layer_lock_file s layer.digest
    locks ← lock_layers (suc index) rest
    pure ((host, sandbox_path index) ∷ locks)

  unfoldable pub layer_paths : List Descriptor → Action (List FilePath)
  layer_paths [] = pure []
  layer_paths (layer ∷ rest) = do
    found ← query (get_layer_path s layer.digest)
    p ← some_or found (layer_missing layer.digest)
    ps ← layer_paths rest
    pure (p ∷ ps)

unfoldable pub build_bwrap_command : Json → Storage → List Text → List Text → Action (List Arg)
build_bwrap_command json s containers command = do
  check (not (is_empty containers)) container_required
  check (not (is_empty command)) command_empty
  layers ← read_stacked_layers json s containers
  locks ← lock_layers s 0 layers
  check (not (is_empty layers)) no_layers
  paths ← layer_paths s layers
  pure (bwrap_args paths locks command)
