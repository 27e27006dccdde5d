-- ===== src/Storage/Harmless.antt =====
-- The methods that write: they leave the manifests as they are, and layers stay directories.
use mathlib.Core.List.{append_assoc}
use pakstak.Base.{
  Text, codes, ◌==◌, Result, ok, err, some, [], ◌∷◌, ◌++◌, ◌≡◌, ◌≢◌, refl, ap, ◌∙◌, arith,
}
use pakstak.Reference.{Reference}
use pakstak.Manifest.{Json}
use pakstak.Fs.Paths.{FilePath, push, parent, resolve, IsPlain}
use pakstak.Fs.PathLaws.{push_plain, resolve-child, parent-child, file_name-push}
use pakstak.Fs.Files.{Files}
use pakstak.Fs.Directories.{is_dir_at-Unharmed}
use pakstak.Fs.World.{World, write}
use pakstak.Storage.Action.{StorageError, do_io}
use pakstak.Storage.Frames.{Any, Framing}
use pakstak.Storage.Leaving.{
  Leaving, IsClear, IsOff, Leaving-bind, Leaving-create_dir_all, Leaving-write, Leaving-rename,
}
use pakstak.Storage.Layout.{storage_at}
use pakstak.Storage.Reader.{ensure_parent_dir}
use pakstak.Storage.Writer.{write_container, write_container_manifest_digest, publish_directory}
use pakstak.Storage.Complete.{
  inside, manifest_at, layer_at, IsPlaced, manifest, layer, Harmless, Leaving-Harmless,
  IsClear-elsewhere, IsOff-elsewhere,
}
use pakstak.Storage.Places.{OthersKept}
use pakstak.Storage.Atomic.{WrittenWhole}
use pakstak.Storage.Published.{digest_file, temporary_file, write_container_manifest_digest_whole}
use pakstak.Prune.Protected.{resolve-in, resolve-temporary}

pub temporary_manifests : codes "temporary" ≢ codes "manifests"
temporary_manifests = grind arith

pub temporary_layers : codes "temporary" ≢ codes "layers"
temporary_layers = grind arith

containers_manifests : codes "containers" ≢ codes "manifests"
containers_manifests = grind arith

containers_layers : codes "containers" ≢ codes "layers"
containers_layers = grind arith

module _ (root : FilePath) where
  abbrev Placed : FilePath → Type 0
  Placed = IsPlaced root

  pub clear_temporary : (rest : FilePath) → IsClear Placed (inside root (codes "temporary" ∷ rest))
  clear_temporary rest =
      IsClear-elsewhere root (codes "temporary") rest temporary_manifests temporary_layers

  pub IsOff-temporary : (rest : FilePath) → IsOff Placed (inside root (codes "temporary" ∷ rest))
  IsOff-temporary rest =
      IsOff-elsewhere root (codes "temporary") rest temporary_manifests temporary_layers

  pub Leaving-ensure_parent_dir :
      (path dir : FilePath)
      → parent path ≡ some dir
      → IsOff Placed (resolve dir)
      → Leaving Placed Any (ensure_parent_dir path)
  unfolding ensure_parent_dir
  Leaving-ensure_parent_dir path dir h off =
      rw (h, ensure_parent_dir) (Leaving-create_dir_all dir off)

  -- Where a name in a directory of the storage stands.
  pub parent-in :
      (folder name : Text)
      → IsPlain name
      → parent (push (push root folder) name) ≡ some (push root folder)
  parent-in folder name h =
      ap parent (push_plain (push root folder) name h) ∙ parent-child (push root folder) name

  pub resolve-folder :
      (folder : Text) → IsPlain folder → resolve (push root folder) ≡ inside root (folder ∷ [])
  resolve-folder folder h = ap resolve (push_plain root folder h) ∙ resolve-child root folder h

  module _ (json : Json) (container : Text) (plain : IsPlain container) (digest : Text)
      (reference : Reference) where
    abbrev copy : FilePath
    copy = push (push root (codes "temporary")) container

    copy_file :
        (name : Text)
        → IsPlain name
        → resolve (push copy name) ≡ inside root (codes "temporary" ∷ container ∷ name ∷ [])
    copy_file name h =
        ap resolve (push_plain copy name h)
        ∙ resolve-child copy name h
        ∙ ap (λ p. p ++ name ∷ []) (resolve-temporary root container plain)
        ∙ append_assoc (resolve root) (codes "temporary" ∷ container ∷ []) (name ∷ [])

    write-copy :
        (name bytes : Text)
        → IsPlain name
        → Leaving Placed Any (do_io (write (push copy name) bytes))
    write-copy name bytes h =
        Leaving-write (push copy name) bytes
          (rw (copy_file name h) (clear_temporary (container ∷ name ∷ [])))

    at_home :
        resolve (push (push root (codes "containers")) container)
        ≡ inside root (codes "containers" ∷ container ∷ [])
    unfolding ◌==◌
    at_home = resolve-in root (codes "containers") container refl plain

    Leaving-write_container :
        Leaving Placed Any (write_container (storage_at root) json container digest reference)
    unfolding write_container storage_at publish_directory ◌==◌
    Leaving-write_container = rw (file_name-push (push root (codes "containers")) container plain) (
        Leaving-bind _ _
          (Leaving-create_dir_all copy
            (rw (resolve-temporary root container plain) (IsOff-temporary (container ∷ []))))
          λ _ _. Leaving-bind _ _ (write-copy (codes "manifest_digest") digest refl) λ _ _.
            Leaving-bind _ _
              (write-copy (codes "reference.json") (json.print_reference reference) refl)
              λ _ _.
                Leaving-bind _ _
                  (Leaving-ensure_parent_dir _ (push root (codes "containers"))
                    (parent-in (codes "containers") container plain)
                    (rw (resolve-folder (codes "containers") refl) (
                      IsOff-elsewhere root (codes "containers") [] containers_manifests
                        containers_layers)))
                  λ _ _.
                    Leaving-rename _ _
                      (rw (resolve-temporary root container plain)
                        (clear_temporary (container ∷ [])))
                      (rw at_home (
                        IsClear-elsewhere root (codes "containers") (container ∷ [])
                          containers_manifests containers_layers)))

    pub Framing-write_container :
        Framing
          (Harmless root)
          Any
          (write_container (storage_at root) json container digest reference)
    Framing-write_container = Leaving-Harmless root Leaving-write_container

-- The manifest digest of a container is replaced.
module _ (root : FilePath) (container : Text) (plain : IsPlain container) where
  abbrev p : FilePath
  p = resolve (digest_file root container)

  abbrev t : FilePath
  t = temporary_file root (codes "manifest_digest")

  at_file : p ≡ inside root (codes "containers" ∷ container ∷ codes "manifest_digest" ∷ [])
  unfolding storage_at ◌==◌
  at_file =
      let path = push (push root (codes "containers")) container in
      ap resolve (push_plain path (codes "manifest_digest") refl)
      ∙ resolve-child path (codes "manifest_digest") refl
      ∙ ap (λ q. q ++ codes "manifest_digest" ∷ [])
          (resolve-in root (codes "containers") container refl plain)
      ∙ append_assoc (resolve root) (codes "containers" ∷ container ∷ [])
          (codes "manifest_digest" ∷ [])

  at_temporary_file : t ≡ inside root (codes "temporary" ∷ codes "manifest_digest" ∷ [])
  unfolding ◌==◌
  at_temporary_file = resolve-temporary root (codes "manifest_digest") refl

  clear_file : IsClear (IsPlaced root) p
  clear_file = rw at_file (
      IsClear-elsewhere root (codes "containers") (container ∷ codes "manifest_digest" ∷ [])
        containers_manifests containers_layers)

  clear_temporary_file : IsClear (IsPlaced root) t
  clear_temporary_file = rw at_temporary_file (clear_temporary root (codes "manifest_digest" ∷ []))

  OthersKept-Harmless : (fs fs' : Files) → OthersKept p t fs fs' → Harmless root fs fs'
  OthersKept-Harmless fs fs' h = record {
    manifests = λ d x.
        h.at (manifest_at root d) (clear_file _ (manifest d x))
          (clear_temporary_file _ (manifest d x));
    layers = λ l x.
        is_dir_at-Unharmed (layer_at root l) fs fs'
          (h.at (layer_at root l) (clear_file _ (layer l x)) (clear_temporary_file _ (layer l x)));
  }

  pub Framing-write_container_manifest_digest :
      (digest : Text)
      → Framing
          (Harmless root)
          Any
          (write_container_manifest_digest (storage_at root) container digest)
  Framing-write_container_manifest_digest digest = record {
    framed = λ w.
        by_end w.files digest (write_container_manifest_digest (storage_at root) container digest w)
          (write_container_manifest_digest_whole root container digest w plain);
    result = λ w a _. tt;
  }
    where
      by_end :
          (fs : Files) (contents : Text) (o : Result StorageError (Unit {0}) × World)
          → WrittenWhole p t contents fs o
          → Harmless root fs o.1.files
      by_end fs contents (ok u, w) h = OthersKept-Harmless fs w.files h.1
      by_end fs contents (err e, w) h = OthersKept-Harmless fs w.files h.others
