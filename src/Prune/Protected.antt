-- ===== src/Prune/Protected.antt =====
-- The manifests and layers in use as a set of paths, and the places that lie outside of it.
use mathlib.Core.List.{append_assoc}
use pakstak.Base.{
  Text, codes, mem, ◌==◌, true, false, none, List, [], ◌∷◌, ◌++◌, ◌≡◌, ◌≢◌, refl, ap, ◌∙◌, arith,
  strip_suffix-append, strip_suffix,
}
use pakstak.Fs.Paths.{FilePath, push, resolve, IsPlain}
use pakstak.Fs.PathLaws.{push_plain, resolve-child, resolve-plain, json-IsPlain}
use pakstak.Fs.Files.{strip}
use pakstak.Fs.FileLaws.{strip-cancel, strip-ne}
use pakstak.Storage.Layout.{storage_at, manifest_path, layer_path, layer_lock_path}
use pakstak.Storage.Leaving.{IsClear}
use pakstak.Prune.Entries.{NoSlash}

module _ (root : FilePath) (manifests layers : List Text) where
  abbrev pub inside : List Text → FilePath
  inside rest = resolve root ++ rest

  -- The manifest files of the one list, and what stands at or below the layers of the other.
  pub data InUse : FilePath → Type 0 where
    manifest :
        (d : Text)
        → mem d manifests ≡ true
        → InUse (inside (codes "manifests" ∷ (d ++ codes ".json") ∷ []))
    layer :
        (l : Text) (rest : FilePath)
        → mem l layers ≡ true
        → InUse (inside (codes "layers" ∷ l ∷ rest))

  pub json_injective : (d e : Text) → d ++ codes ".json" ≡ e ++ codes ".json" → d ≡ e
  json_injective d e h =
      let f = ap (strip_suffix (codes ".json")) h in
      ground
        (arith, f, strip_suffix-append d (codes ".json"), strip_suffix-append e (codes ".json"))

  strip_below : (c n m : Text) (rest : FilePath) → n ≢ m → strip (c ∷ n ∷ []) (c ∷ m ∷ rest) ≡ none
  strip_below c n m rest h = strip-cancel (c ∷ []) (n ∷ []) (m ∷ rest) ∙ strip-ne n m [] rest h

  pub IsClear-other :
      (folder : Text) (rest : FilePath)
      → folder ≢ codes "manifests"
      → folder ≢ codes "layers"
      → IsClear InUse (inside (folder ∷ rest))
  IsClear-other folder rest h k _ (manifest d m) =
      strip-cancel (resolve root) (folder ∷ rest) _ ∙ strip-ne folder _ rest _ h
  IsClear-other folder rest h k _ (layer l r m) =
      strip-cancel (resolve root) (folder ∷ rest) _ ∙ strip-ne folder _ rest _ k

  pub IsClear-manifest :
      (d : Text)
      → mem d manifests ≡ false
      → IsClear InUse (inside (codes "manifests" ∷ (d ++ codes ".json") ∷ []))
  IsClear-manifest d h _ (manifest e m) =
      strip-cancel (resolve root) _ _
      ∙ strip_below (codes "manifests") _ _ [] (λ same.
        let d_is_e : d ≡ e = json_injective d e same in
        ground (arith, ap (λ x. mem x manifests) d_is_e))
  IsClear-manifest d h _ (layer l r m) =
      strip-cancel (resolve root) _ _ ∙ strip-ne _ _ _ _ (grind arith)

  pub IsClear-layer :
      (l : Text) → mem l layers ≡ false → IsClear InUse (inside (codes "layers" ∷ l ∷ []))
  IsClear-layer l h _ (manifest e m) =
      strip-cancel (resolve root) _ _ ∙ strip-ne _ _ _ _ (grind arith)
  IsClear-layer l h _ (layer k r m) =
      strip-cancel (resolve root) _ _
      ∙ strip_below (codes "layers") _ _ r (λ same. ground (arith, ap (λ x. mem x layers) same))

module _ (root : FilePath) where
  -- Where the paths of the storage lead.
  pub resolve-in :
      (folder name : Text)
      → IsPlain folder
      → IsPlain name
      → resolve (push (push root folder) name) ≡ resolve root ++ folder ∷ name ∷ []
  resolve-in folder name f n =
      ap resolve (
        push_plain (push root folder) name n
        ∙ ap (λ p. p ++ name ∷ []) (push_plain root folder f)
        ∙ append_assoc root (folder ∷ []) (name ∷ []))
      ∙ resolve-plain root (folder ∷ name ∷ []) (f, (n, tt))

  pub resolve-manifest_path :
      (d : Text)
      → NoSlash d
      → resolve (manifest_path (storage_at root) d)
        ≡ resolve root ++ codes "manifests" ∷ (d ++ codes ".json") ∷ []
  unfolding storage_at ◌==◌
  resolve-manifest_path d h =
      resolve-in (codes "manifests") (d ++ codes ".json") refl (json-IsPlain d h)

  pub resolve-layer_path :
      (l : Text)
      → IsPlain l
      → resolve (layer_path (storage_at root) l) ≡ resolve root ++ codes "layers" ∷ l ∷ []
  unfolding storage_at ◌==◌
  resolve-layer_path l h = resolve-in (codes "layers") l refl h

  pub resolve-temporary :
      (name : Text)
      → IsPlain name
      → resolve (push (push root (codes "temporary")) name)
        ≡ resolve root ++ codes "temporary" ∷ name ∷ []
  unfolding ◌==◌
  resolve-temporary name h = resolve-in (codes "temporary") name refl h

  pub resolve-layer_lock_path :
      (l : Text)
      → IsPlain l
      → resolve (layer_lock_path (storage_at root) l)
        ≡ resolve root ++ codes "locks" ∷ codes "layers" ∷ l ∷ []
  unfolding storage_at ◌==◌
  resolve-layer_lock_path l h =
      let path = push (push root (codes "locks")) (codes "layers") in
      ap resolve (push_plain path l h)
      ∙ resolve-child path l h
      ∙ ap (λ x. x ++ l ∷ []) (resolve-in (codes "locks") (codes "layers") refl refl)
      ∙ append_assoc (resolve root) (codes "locks" ∷ codes "layers" ∷ []) (l ∷ [])
