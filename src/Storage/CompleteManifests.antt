-- ===== src/Storage/CompleteManifests.antt =====
-- Saving a manifest whose layers are there keeps a storage complete.
use pakstak.Base.{
  Text, codes, true, none, some, Result, ok, err, inl, inr, [], ◌∷◌, ◌++◌, ◌≡◌, ◌≢◌, ap, sym, ◌∙◌,
  subst, arith,
}
use pakstak.Manifest.{ImageManifest, Json}
use pakstak.Fs.Paths.{FilePath, IsPlain, resolve, text_dec}
use pakstak.Fs.Files.{Files, Node, regular, strip, lookup, is_dir_at, regular_file}
use pakstak.Fs.FileLaws.{strip-cancel, strip-ne, strip-apart}
use pakstak.Fs.Directories.{is_dir_at-Unharmed}
use pakstak.Fs.World.{World}
use pakstak.Storage.Action.{StorageError}
use pakstak.Storage.Triple.{Post, Triple}
use pakstak.Storage.Layout.{storage_at, manifest_path}
use pakstak.Storage.Writer.{write_manifest}
use pakstak.Storage.Places.{OthersKept}
use pakstak.Storage.Atomic.{WrittenWhole}
use pakstak.Storage.Published.{temporary_file, write_manifest_whole}
use pakstak.Storage.Complete.{
  inside, manifest_at, layer_at, IsPlaced, manifest, layer, HasLayers, IsComplete,
  IsComplete-Harmless, HasLayers-kept, not_regular, IsClear-elsewhere,
}
use pakstak.Storage.Harmless.{temporary_manifests, temporary_layers}
use pakstak.Prune.Entries.{NoSlash}
use pakstak.Prune.Protected.{resolve-manifest_path, resolve-temporary, json_injective}
use pakstak.Fs.PathLaws.{json-IsPlain}

module _ (root : FilePath) (json : Json) (d : Text) (slash : NoSlash d) (contents : Text)
    (m : ImageManifest) (parsed : json.parse_manifest contents ≡ some m) where
  abbrev p : FilePath
  p = resolve (manifest_path (storage_at root) d)

  abbrev t : FilePath
  t = temporary_file root (d ++ codes ".json")

  at_file : p ≡ manifest_at root d
  at_file = resolve-manifest_path root d slash

  at_copy : t ≡ inside root (codes "temporary" ∷ (d ++ codes ".json") ∷ [])
  at_copy = resolve-temporary root (d ++ codes ".json") (json-IsPlain d slash)

  -- Other manifests, and the layers.
  copy_clear : (q : FilePath) → IsPlaced root q → strip t q ≡ none
  copy_clear = rw at_copy (
      IsClear-elsewhere root (codes "temporary") ((d ++ codes ".json") ∷ []) temporary_manifests
        temporary_layers)

  other_clear : (e : Text) → e ≢ d → strip p (manifest_at root e) ≡ none
  other_clear e ne = rw at_file (
      strip-cancel (resolve root) (codes "manifests" ∷ (d ++ codes ".json") ∷ [])
        (codes "manifests" ∷ (e ++ codes ".json") ∷ [])
      ∙ strip-cancel (codes "manifests" ∷ []) ((d ++ codes ".json") ∷ [])
          ((e ++ codes ".json") ∷ [])
      ∙ strip-ne (d ++ codes ".json") (e ++ codes ".json") [] []
          (λ same. ne (sym (json_injective root [] [] d e same))))

  layer_clear : (l : Text) → strip p (layer_at root l) ≡ none
  layer_clear l =
      rw at_file (strip-apart (resolve root) (codes "manifests") (codes "layers") _ _ (grind arith))

  module _ (fs fs' : Files) (others : OthersKept p t fs fs') where
    layers_kept :
        (l : Text)
        → IsPlain l
        → is_dir_at (layer_at root l) fs ≡ true
        → is_dir_at (layer_at root l) fs' ≡ true
    layers_kept l h =
        is_dir_at-Unharmed (layer_at root l) fs fs'
          (others.at (layer_at root l) (layer_clear l) (copy_clear _ (layer l h)))

    -- The file is as it was.
    kept : lookup p fs' ≡ lookup p fs → IsComplete root json fs → IsComplete root json fs'
    kept same = IsComplete-Harmless root json fs fs' (record {
      manifests = λ e h. elim (text_dec e d) [
        | yes x ↦
            let here : lookup (manifest_at root d) fs' ≡ lookup (manifest_at root d) fs =
              rw at_file at same in
            inl (
              subst (λ y. lookup (manifest_at root y) fs' ≡ lookup (manifest_at root y) fs) (sym x)
                here)
        | no ne ↦ others.at (manifest_at root e) (other_clear e ne) (copy_clear _ (manifest e h))
      ];
      layers = layers_kept;
    })

    -- The file has the contents.
    published :
        lookup p fs' ≡ some (regular_file contents)
        → HasLayers root m fs
        → IsComplete root json fs
        → IsComplete root json fs'
    published new there c = record {
      at = λ e n bytes x h found kind parse. elim (text_dec e d) [
        | yes is ↦
            let at_new : lookup (manifest_at root d) fs' ≡ some (regular_file contents) =
              rw at_file at new in
            let found' : lookup (manifest_at root d) fs' ≡ some n =
              subst (λ y. lookup (manifest_at root y) fs' ≡ some n) is found in
            let same_node : regular_file contents ≡ n = ground (arith, at_new, found') in
            let same : contents ≡ bytes = same_bytes n bytes same_node kind in
            let whole : m ≡ x = some_same (sym parsed ∙ ap json.parse_manifest same ∙ parse) in
            HasLayers-kept root fs fs' layers_kept x.layers
              (subst (λ y. HasLayers root y fs) whole there)
        | no ne ↦
            elim (others.at (manifest_at root e) (other_clear e ne) (copy_clear _ (manifest e h))) [
              | inl same ↦
                  HasLayers-kept root fs fs' layers_kept x.layers
                    (c.at e n bytes x h (sym same ∙ found) kind parse)
              | inr (_, made) ↦ absurd (not_regular n bytes (ground (arith, made, found)) kind)
            ]
      ];
    }
      where
        same_bytes :
            (n : Node) (bytes : Text)
            → regular_file contents ≡ n
            → n.kind ≡ regular bytes
            → contents ≡ bytes
        same_bytes n bytes e k = cc (ap (λ (x : Node). x.kind) e ∙ k)

        some_same : {x y : ImageManifest} → some x ≡ some y → x ≡ y
        some_same e = cc e

  -- However saving the manifest ends, the storage is complete still; after a success its file is there.
  pub write_manifest-Triple :
      Triple
        (λ w. IsComplete root json w.files × HasLayers root m w.files)
        (write_manifest (storage_at root) d contents)
        (λ _ w.
          IsComplete root json w.files
          × (lookup (manifest_at root d) w.files ≡ some (regular_file contents)))
        (λ w. IsComplete root json w.files)
  write_manifest-Triple = record {
    at = λ w (c, there).
        by_end w.files c there (write_manifest (storage_at root) d contents w)
          (write_manifest_whole root d contents w slash);
  }
    where
      by_end :
          (fs : Files)
          → IsComplete root json fs
          → HasLayers root m fs
          → (o : Result StorageError (Unit {0}) × World) → WrittenWhole p t contents fs o
          → Post
              (λ _ w.
                IsComplete root json w.files
                × (lookup (manifest_at root d) w.files ≡ some (regular_file contents)))
              (λ w. IsComplete root json w.files)
              o
      by_end fs c there (ok u, w) (new, others) =
          (published fs w.files others new there c, rw at_file at new)
      by_end fs c there (err e, w) k = kept fs w.files k.others k.target c
