-- ===== src/Uninstall.antt =====
-- src/uninstall.rs: the removal of a container, and what it leaves alone. The message that is printed
-- at the end is left out.
use pakstak.Base.{Text, codes, none, [], ◌∷◌, ◌++◌, ◌≡◌, refl, ◌==◌}
use pakstak.Fs.Paths.{FilePath, push, resolve, IsPlain}
use pakstak.Fs.PathLaws.{file_name-push}
use pakstak.Fs.Files.{strip, lookup}
use pakstak.Fs.World.{World, is_dir}
use pakstak.Storage.Action.{Action, container_not_installed}
use pakstak.Storage.Reader.{ensure_container_installed}
use pakstak.Storage.Layout.{Storage, storage_at, container_path}
use pakstak.Storage.Trees.{remove_container}
use pakstak.Storage.Frames.{Any, Framing-check}
use pakstak.Storage.Leaving.{IsClear, Leaving, SameOn-IsPreorder, Leaving-query, Leaving-bind}
use pakstak.Storage.Removal.{Leaving-remove_directory}
use pakstak.Prune.Protected.{resolve-in, resolve-temporary}

unfoldable pub uninstall : Storage → Text → Action (Unit {0})
uninstall s container = remove_container s container

module _ (root : FilePath) (container : Text) where
  -- Neither at nor below the directory of the container and its place in the temporary directory.
  abbrev pub IsElsewhere : FilePath → Type 0
  IsElsewhere q =
      (strip (resolve root ++ codes "containers" ∷ container ∷ []) q ≡ none)
      × (strip (resolve root ++ codes "temporary" ∷ container ∷ []) q ≡ none)

  clear_container :
      IsPlain container → IsClear IsElsewhere (resolve (container_path (storage_at root) container))
  unfolding storage_at ◌==◌
  clear_container h q (e, f) = rw (resolve-in root (codes "containers") container refl h) e

  clear_temporary :
      IsPlain container
      → IsClear IsElsewhere (resolve (push (storage_at root).temporary_path container))
  unfolding storage_at ◌==◌
  clear_temporary h q (e, f) = rw (resolve-temporary root container h) f

  Leaving-uninstall :
      IsPlain container → Leaving IsElsewhere Any (uninstall (storage_at root) container)
  unfolding uninstall remove_container ensure_container_installed storage_at
  Leaving-uninstall h =
      Leaving-bind _ _
        (Leaving-bind _ _ (Leaving-query (is_dir (container_path (storage_at root) container)))
          λ installed _.
            Framing-check SameOn-IsPreorder installed (container_not_installed container))
        λ _ _.
          Leaving-remove_directory (storage_at root) _ container (file_name-push _ container h)
            (clear_container h) (clear_temporary h)

-- However the removal of a container ends, and wherever it is cut short, all paths hold what they
-- held but those at or below the directory of the container and its place in the temporary
-- directory. The name of the container is one plain name.
pub uninstall-IsElsewhere :
    (root : FilePath) (container : Text)
    → IsPlain container
    → (w : World) (q : FilePath) → IsElsewhere root container q
    → lookup q (uninstall (storage_at root) container w).1.files ≡ lookup q w.files
uninstall-IsElsewhere root container h w q e =
    ((Leaving-uninstall root container h).framed w).at q e
