-- ===== src/Run/Ready.antt =====
-- What a finished command line rests on: the lock files are there, and so are the layers.
use pakstak.Base.{ℕ, suc, Text, true, false, List, [], ◌∷◌, is_empty, map, All, ok, ◌≡◌}
use pakstak.Manifest.{Descriptor, Json}
use pakstak.Fs.Paths.{FilePath, resolve}
use pakstak.Fs.Files.{Files, exists_at, is_dir_at}
use pakstak.Fs.Effects.{Grows, exists_at-Grows}
use pakstak.Fs.World.{World}
use pakstak.Storage.Action.{◌>>=◌}
use pakstak.Storage.Layout.{Storage, layer_path, layer_lock_path}
use pakstak.Run.{Arg, sandbox_path, read_stacked_layers}
use pakstak.Run.Sandbox.{sandbox, expected}

module _ (s : Storage) where
  abbrev pub LockThere : Files → Descriptor → Type 0
  LockThere fs l = exists_at (resolve (layer_lock_path s l.digest)) fs ≡ true

  abbrev pub LayerThere : Files → Descriptor → Type 0
  LayerThere fs l = is_dir_at (resolve (layer_path s l.digest)) fs ≡ true

  -- The lock files and their places in the sandbox, by the position of the layer.
  abbrev pub numbered : ℕ → List Descriptor → List (FilePath × Text)
  numbered index [] = []
  numbered index (l ∷ layers) =
      (layer_lock_path s l.digest, sandbox_path index) ∷ numbered (suc index) layers

  All-LockThere :
      (layers : List Descriptor) (fs gs : Files)
      → Grows fs gs
      → All (LockThere fs) layers
      → All (LockThere gs) layers
  All-LockThere [] fs gs g h = tt
  All-LockThere (l ∷ layers) fs gs g (h, hs) =
      (exists_at-Grows _ fs gs g h, All-LockThere layers fs gs g hs)

-- The layers that a command line was made of, and what is there for each.
pub record IsReady (json : Json) (s : Storage) (containers command : List Text) (w : World)
    (args : List Arg) (w' : World) : Type 0 where
  pub layers : List Descriptor
  pub after : World
  pub stacked : read_stacked_layers json s containers w ≡ (ok layers, after)
  pub some_layer : is_empty layers ≡ false
  pub locked : All (LockThere s w'.files) layers
  pub extracted : All (LayerThere s w'.files) layers
  pub arguments :
      sandbox args
      ≡ expected
          (map (λ (l : Descriptor). layer_path s l.digest) layers)
          (numbered s 0 layers)
          command
