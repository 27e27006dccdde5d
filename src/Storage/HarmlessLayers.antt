-- ===== src/Storage/HarmlessLayers.antt =====
-- The saving of a layer leaves the manifests as they are, and layers stay directories.
use mathlib.Core.List.{append_assoc, append-nil}
use pakstak.Base.{
  Text, codes, ◌==◌, Result, ok, err, true, none, some, inl, inr, [], ◌∷◌, ◌++◌, ◌≡◌, refl, ap, sym,
  ◌∙◌, arith, Option-cases,
}
use pakstak.Digest.Verifier.{Algorithm}
use pakstak.Network.{Body}
use pakstak.Formats.{LayerFormat}
use pakstak.Fs.Paths.{FilePath, push, resolve, IsPlain, text_dec}
use pakstak.Fs.PathLaws.{file_name-push}
use pakstak.Fs.Files.{Files, strip, lookup, is_dir_at}
use pakstak.Fs.FileLaws.{strip-apart, strip-cancel, strip-ne, lookup-move_tree, strip_self}
use pakstak.Fs.Effects.{rename_at_outside}
use pakstak.Fs.Directories.{is_dir_at_moved}
use pakstak.Fs.World.{rename, rename_at, may_replace}
use pakstak.Storage.Action.{StorageError, do_io}
use pakstak.Storage.Frames.{
  Any, Framing, Framing-bind, Framing-caught, Framing-fail, Framing-operation,
}
use pakstak.Storage.Leaving.{IsClear, Leaving-create_dir_all}
use pakstak.Storage.Removal.{Leaving-remove_dir_all_writable}
use pakstak.Storage.Layout.{storage_at}
use pakstak.Storage.Writer.{publish_directory}
use pakstak.Storage.Layers.{Archives, extract_layer, publish_extracted, write_layer}
use pakstak.Storage.Unpacking.{IsConfined, Extracts, Framing-extract_layer}
use pakstak.Storage.Complete.{
  inside, manifest_at, layer_at, IsPlaced, Harmless, Harmless-IsPreorder, Leaving-Harmless,
  IsOff-layers,
}
use pakstak.Storage.Extraction.{IsVerified}
use pakstak.Prune.Protected.{resolve-in, resolve-temporary}
use pakstak.Storage.Harmless.{
  temporary_manifests, temporary_layers, clear_temporary, IsOff-temporary,
  Leaving-ensure_parent_dir, parent-in, resolve-folder,
}

-- A directory that is replaced is replaced by a directory.
rename_at-is_dir_at :
    (a b : FilePath) (fs : Files)
    → strip a b ≡ none
    → is_dir_at b fs ≡ true
    → is_dir_at b (rename_at a b fs).1 ≡ true
unfolding rename_at may_replace is_dir_at
rename_at-is_dir_at a b fs h d =
    let at : strip b b ≡ some [] = strip_self b in
    let whole : lookup (a ++ []) fs ≡ lookup a fs = ap (λ q. lookup q fs) (append-nil a) in
    elim (Option-cases (lookup a fs)) [
      | inl e ↦ ground (arith, e, d)
      | inr (n, e) ↦ elim (Option-cases (lookup b fs)) [
        | inl f ↦ ground (arith, e, f, d)
        | inr (m, f) ↦ ground (arith, e, f, d, h, at, whole, lookup-move_tree a b b fs)
      ]
    ]

-- Layers are published.
module _ (root : FilePath) (digest : Text) (plain : IsPlain digest) where
  abbrev layer_copy : FilePath
  layer_copy = push (push root (codes "temporary")) digest

  abbrev layer_home : FilePath
  layer_home = push (push root (codes "layers")) digest

  clear_copy : IsClear (IsPlaced root) (resolve layer_copy)
  clear_copy = rw (resolve-temporary root digest plain) (clear_temporary root (digest ∷ []))

  rename-layers :
      (fs : Files) (l : Text)
      → IsPlain l
      → is_dir_at (layer_at root l) fs ≡ true
      → is_dir_at
          (layer_at root l)
          (rename_at (inside root (codes "temporary" ∷ digest ∷ [])) (layer_at root digest) fs).1
        ≡ true
  rename-layers fs l h d = elim (text_dec l digest) [
    | yes e ↦ rw e (
        rename_at-is_dir_at (inside root (codes "temporary" ∷ digest ∷ [])) (layer_at root digest)
          fs
          (strip-apart (resolve root) (codes "temporary") (codes "layers") (digest ∷ [])
            (digest ∷ []) temporary_layers)
          (rw e at d))
    | no ne ↦
        is_dir_at_moved (layer_at root l) (layer_at root l) fs _ (
          rename_at_outside (layer_at root l) (inside root (codes "temporary" ∷ digest ∷ []))
            (layer_at root digest) fs
            (strip-apart (resolve root) (codes "temporary") (codes "layers") (digest ∷ []) (l ∷ [])
              temporary_layers)
            (strip-cancel (resolve root) (codes "layers" ∷ digest ∷ []) (codes "layers" ∷ l ∷ [])
              ∙ strip-cancel (codes "layers" ∷ []) (digest ∷ []) (l ∷ [])
              ∙ strip-ne digest l [] [] (λ e. ne (sym e))))
        ∙ d
  ]

  publish_rename : Framing (Harmless root) Any (do_io (rename layer_copy layer_home))
  unfolding rename ◌==◌
  publish_rename =
      rw (resolve-temporary root digest plain, resolve-in root (codes "layers") digest refl plain)
        (Framing-operation (Harmless-IsPreorder root) _ _
          (λ fs. record {
            manifests = λ d h. inl (
                rename_at_outside (manifest_at root d)
                  (inside root (codes "temporary" ∷ digest ∷ [])) (layer_at root digest) fs
                  (strip-apart (resolve root) (codes "temporary") (codes "manifests") _ _
                    temporary_manifests)
                  (strip-apart (resolve root) (codes "layers") (codes "manifests") _ _
                    (grind arith)));
            layers = λ l h d. rename-layers fs l h d;
          })
          (λ n fs. (Harmless-IsPreorder root).reflexive fs))

  Framing-publish_extracted :
      (r : Result StorageError (Unit {0}))
      → Framing (Harmless root) Any (publish_extracted layer_copy layer_home r)
  unfolding publish_extracted publish_directory ◌==◌
  Framing-publish_extracted (ok u) =
      Framing-bind (Harmless-IsPreorder root) _ _
        (Leaving-Harmless root (
          Leaving-ensure_parent_dir root layer_home (push root (codes "layers"))
            (parent-in root (codes "layers") digest plain)
            (rw (resolve-folder root (codes "layers") refl) (IsOff-layers root))))
        (λ _ _. publish_rename)
  Framing-publish_extracted (err e) =
      Framing-bind (Harmless-IsPreorder root) _ _
        (Framing-caught
          (Leaving-Harmless root (Leaving-remove_dir_all_writable layer_copy clear_copy)))
        (λ _ _. Framing-fail (Harmless-IsPreorder root) e)

  pub Framing-write_layer :
      (hash : Algorithm → Text → Text) (archives : Archives)
      → IsConfined archives
      → (format : LayerFormat) (body : Body)
      → Framing (Harmless root) Any (write_layer hash archives (storage_at root) digest format body)
  unfolding write_layer storage_at
  Framing-write_layer hash archives confined format body =
      rw (file_name-push (push root (codes "layers")) digest plain) (
        Framing-bind (Harmless-IsPreorder root) _ _
          (Leaving-Harmless root (
            Leaving-create_dir_all layer_copy
              (rw (resolve-temporary root digest plain) (IsOff-temporary root (digest ∷ [])))))
          λ _ _.
            Framing-bind (Harmless-IsPreorder root) _ _
              (Framing-caught (
                Leaving-Harmless root
                  (record { framed = λ w. (extracts.framed w).same; result = λ w a _. tt })))
              λ r _. Framing-publish_extracted r)
    where
      extracts :
          Framing
            (Extracts (IsPlaced root) (resolve layer_copy))
            (λ _. IsVerified hash body digest)
            (extract_layer hash archives body digest format layer_copy)
      extracts =
          Framing-extract_layer (inside root (codes "temporary" ∷ []))
            (λ r.
              rw (append_assoc (resolve root) (codes "temporary" ∷ []) r) (clear_temporary root r))
            hash archives confined body digest format layer_copy digest
            (resolve-temporary root digest plain
              ∙ sym (append_assoc (resolve root) (codes "temporary" ∷ []) (digest ∷ [])))
            refl
