-- ===== src/Prune/Kept.antt =====
-- Pruning manifests spares what is in use, and removing one unused layer does.
use pakstak.Base.{
  ℕ, suc, Text, codes, mem, Result, false, Bool-cases, inl, inr, List, [], ◌∷◌, ◌++◌, All, ◌≡◌,
  arith,
}
use pakstak.Fs.Paths.{FilePath, push, resolve, IsPlain}
use pakstak.Fs.PathLaws.{json-IsPlain, file_name-push}
use pakstak.Storage.Action.{StorageError, from_result}
use pakstak.Storage.Layout.{Storage, storage_at, manifest_path, layer_path}
use pakstak.Storage.Writer.{remove_manifest}
use pakstak.Storage.Trees.{remove_layer}
use pakstak.Prune.{prune_manifest, prune_each_manifest, prune_manifests}
use pakstak.Storage.Frames.{Any, Framing-from_result}
use pakstak.Storage.Leaving.{IsClear}
use pakstak.Storage.Removal.{Leaving-remove_directory, Leaving-remove_published_file}
use pakstak.Prune.Spared.{Spared-IsPreorder, Sparing, Sparing-pure, Sparing-bind, Leaving-Sparing}
use pakstak.Prune.Entries.{EntryOf, NoSlash, Leaving-read_manifest_digests}
use pakstak.Prune.Protected.{
  InUse, IsClear-other, IsClear-manifest, IsClear-layer, resolve-manifest_path, resolve-layer_path,
  resolve-temporary,
}

module _ {Q : FilePath → Type 0} where
  pub Sparing-from_result :
      {P : Text → Type 0} (entry : Result StorageError Text)
      → EntryOf P entry
      → Sparing Q P (from_result entry)
  Sparing-from_result entry h = Framing-from_result Spared-IsPreorder entry h

module _ (root : FilePath) (manifests layers : List Text) where
  abbrev s : Storage
  s = storage_at root

  abbrev Used : FilePath → Type 0
  Used = InUse root manifests layers

  pub IsClear-at : (p q : FilePath) → p ≡ q → IsClear Used q → IsClear Used p
  IsClear-at p q e c = rw e c

  IsClear-temporary :
      (name : Text)
      → IsPlain name
      → IsClear Used (resolve (push (push root (codes "temporary")) name))
  IsClear-temporary name h = IsClear-at _ _ (resolve-temporary root name h) (
      IsClear-other root manifests layers (codes "temporary") (name ∷ []) (grind arith)
        (grind arith))

  Sparing-remove_manifest :
      (d : Text) → NoSlash d → mem d manifests ≡ false → Sparing Used Any (remove_manifest s d)
  unfolding remove_manifest storage_at
  Sparing-remove_manifest d h unused = Leaving-Sparing (
      Leaving-remove_published_file s (manifest_path s d) (d ++ codes ".json")
        (file_name-push _ _ (json-IsPlain d h))
        (IsClear-at _ _ (resolve-manifest_path root d h)
          (IsClear-manifest root manifests layers d unused))
        (IsClear-temporary (d ++ codes ".json") (json-IsPlain d h)))

  pub Sparing-remove_layer :
      (l : Text) → IsPlain l → mem l layers ≡ false → Sparing Used Any (remove_layer s l)
  unfolding remove_layer storage_at
  Sparing-remove_layer l h unused = Leaving-Sparing (
      Leaving-remove_directory s (layer_path s l) l (file_name-push _ _ h)
        (IsClear-at _ _ (resolve-layer_path root l h)
          (IsClear-layer root manifests layers l unused))
        (IsClear-temporary l h))

  Sparing-prune_manifest :
      (entry : Result StorageError Text) (removed : ℕ)
      → EntryOf NoSlash entry
      → Sparing Used Any (prune_manifest s manifests entry removed)
  unfolding prune_manifest
  Sparing-prune_manifest entry removed h = Sparing-bind _ _ (Sparing-from_result entry h) λ d slash.
      elim (Bool-cases (mem d manifests)) [
        | inl e ↦ rw e (Sparing-pure removed tt)
        | inr e ↦ rw e (
            Sparing-bind _ _ (Sparing-remove_manifest d slash e)
              (λ _ _. Sparing-pure (suc removed) tt))
      ]

  Sparing-prune_each_manifest :
      (entries : List (Result StorageError Text)) (removed : ℕ)
      → All (EntryOf NoSlash) entries
      → Sparing Used Any (prune_each_manifest s manifests entries removed)
  unfolding prune_each_manifest
  Sparing-prune_each_manifest [] removed h = Sparing-pure removed tt
  Sparing-prune_each_manifest (entry ∷ entries) removed (h, hs) =
      Sparing-bind _ _ (Sparing-prune_manifest entry removed h)
        λ removed' _. Sparing-prune_each_manifest entries removed' hs

  pub Sparing-prune_manifests : Sparing Used Any (prune_manifests s manifests)
  unfolding prune_manifests
  Sparing-prune_manifests =
      Sparing-bind _ _ (Leaving-Sparing (Leaving-read_manifest_digests s))
        λ entries h. Sparing-prune_each_manifest entries 0 h
