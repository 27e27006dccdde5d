-- ===== src/Storage/Complete.antt =====
-- A storage that is complete: the layers of all manifests that are saved are there, where their digests
-- are plain names, as those of all layers that can be fetched are.
use pakstak.Base.{
  Text, codes, true, false, Bool-cases, ◌⊎◌, some, inl, inr, List, [], ◌∷◌, ◌++◌, All, ◌≡◌, ◌≢◌,
  refl, ap, sym, ◌∙◌, arith,
}
use pakstak.Manifest.{Descriptor, ImageManifest, Json}
use pakstak.Fs.Paths.{FilePath, resolve, IsPlain, is_plain}
use pakstak.Fs.Files.{Files, Node, regular, strip, lookup, is_dir_at, new_directory}
use pakstak.Fs.FileLaws.{strip-cancel, strip-apart}
use pakstak.Fs.Effects.{Unharmed, Unharmed-trans}
use pakstak.Fs.Directories.{is_dir_at_moved}
use pakstak.Storage.Action.{Action}
use pakstak.Storage.Frames.{Framing, IsPreorder, Framing-weaken}
use pakstak.Storage.Leaving.{SameOn, Leaving, IsClear, IsOff}
use pakstak.Prune.Entries.{NoSlash}

module _ (root : FilePath) where
  abbrev pub inside : FilePath → FilePath
  inside rest = resolve root ++ rest

  abbrev pub manifest_at : Text → FilePath
  manifest_at d = inside (codes "manifests" ∷ (d ++ codes ".json") ∷ [])

  abbrev pub layer_at : Text → FilePath
  layer_at l = inside (codes "layers" ∷ l ∷ [])

  -- The places of manifests and layers.
  pub data IsPlaced : FilePath → Type 0 where
    manifest : (d : Text) → NoSlash d → IsPlaced (manifest_at d)
    layer : (l : Text) → IsPlain l → IsPlaced (layer_at l)

  -- A layer is there; one whose digest is no plain name has no place in the storage.
  abbrev pub LayerThere : Text → Files → Type 0
  LayerThere l fs = (is_plain l ≡ false) ⊎ (is_dir_at (layer_at l) fs ≡ true)

  abbrev pub HasLayers : ImageManifest → Files → Type 0
  HasLayers m fs = All (λ (x : Descriptor). LayerThere x.digest fs) m.layers

  pub record IsComplete (json : Json) (fs : Files) : Type 0 where
    pub at :
        (d : Text) (n : Node) (bytes : Text) (m : ImageManifest)
        → NoSlash d
        → lookup (manifest_at d) fs ≡ some n
        → n.kind ≡ regular bytes
        → json.parse_manifest bytes ≡ some m
        → HasLayers m fs

  -- The file of a manifest is there.
  abbrev pub HasManifest : Text → Files → Type 0
  HasManifest d fs =
      (n : Node) × (bytes : Text) × (lookup (manifest_at d) fs ≡ some n) × (n.kind ≡ regular bytes)

  -- Manifests stay as they are, and layers stay directories.
  pub record Harmless (fs fs' : Files) : Type 0 where
    pub manifests : (d : Text) → NoSlash d → Unharmed (manifest_at d) fs fs'
    pub layers :
        (l : Text)
        → IsPlain l
        → is_dir_at (layer_at l) fs ≡ true
        → is_dir_at (layer_at l) fs' ≡ true

  pub Harmless-IsPreorder : IsPreorder Harmless
  Harmless-IsPreorder = record {
    reflexive = λ fs. record { manifests = λ d h. inl refl; layers = λ l h k. k };
    transitive = λ fs gs hs h k. record {
      manifests = λ d p. Unharmed-trans _ fs gs hs (h.manifests d p) (k.manifests d p);
      layers = λ l p x. k.layers l p (h.layers l p x);
    };
  }

  SameOn-Harmless : (fs fs' : Files) → SameOn IsPlaced fs fs' → Harmless fs fs'
  SameOn-Harmless fs fs' h = record {
    manifests = λ d p. inl (h.at (manifest_at d) (manifest d p));
    layers = λ l p x. is_dir_at_moved _ _ fs fs' (h.at (layer_at l) (layer l p)) ∙ x;
  }

  pub Leaving-Harmless :
      {A : Type 0} {R : A → Type 0} {m : Action A} → Leaving IsPlaced R m → Framing Harmless R m
  Leaving-Harmless h = Framing-weaken SameOn-Harmless h

  -- Other directories of the storage.
  module _ (folder : Text) (rest : FilePath) (other : folder ≢ codes "manifests")
      (other' : folder ≢ codes "layers") where
    pub IsClear-elsewhere : IsClear IsPlaced (inside (folder ∷ rest))
    IsClear-elsewhere _ (manifest d h) = strip-apart (resolve root) folder _ rest _ other
    IsClear-elsewhere _ (layer l h) = strip-apart (resolve root) folder _ rest _ other'

    pub IsOff-elsewhere : IsOff IsPlaced (inside (folder ∷ rest))
    IsOff-elsewhere _ (manifest d h) =
        strip-apart (resolve root) _ folder _ rest (λ e. other (sym e))
    IsOff-elsewhere _ (layer l h) = strip-apart (resolve root) _ folder _ rest (λ e. other' (sym e))

  pub IsOff-layers : IsOff IsPlaced (inside (codes "layers" ∷ []))
  unfolding strip
  IsOff-layers _ (manifest d h) = strip-apart (resolve root) _ (codes "layers") _ [] (grind arith)
  IsOff-layers _ (layer l h) =
      strip-cancel (resolve root) (codes "layers" ∷ l ∷ []) (codes "layers" ∷ [])
      ∙ strip-cancel (codes "layers" ∷ []) (l ∷ []) []

  pub LayerThere-kept :
      (l : Text) (fs fs' : Files)
      → (IsPlain l → is_dir_at (layer_at l) fs ≡ true → is_dir_at (layer_at l) fs' ≡ true)
      → LayerThere l fs
      → LayerThere l fs'
  LayerThere-kept l fs fs' h (inl e) = inl e
  LayerThere-kept l fs fs' h (inr k) = elim (Bool-cases (is_plain l)) [
    | inl p ↦ inr (h p k)
    | inr n ↦ inl n
  ]

  pub HasLayers-kept :
      (fs fs' : Files)
      → ((l : Text)
          → IsPlain l
          → is_dir_at (layer_at l) fs ≡ true
          → is_dir_at (layer_at l) fs' ≡ true)
      → (ls : List Descriptor) → All (λ (x : Descriptor). LayerThere x.digest fs) ls
      → All (λ (x : Descriptor). LayerThere x.digest fs') ls
  HasLayers-kept fs fs' h [] k = tt
  HasLayers-kept fs fs' h (x ∷ ls) (k, ks) =
      (LayerThere-kept x.digest fs fs' (h x.digest) k, HasLayers-kept fs fs' h ls ks)

pub not_regular : (n : Node) (bytes : Text) → new_directory ≡ n → n.kind ≡ regular bytes → ⊥
not_regular n bytes e k = cc (ap (λ (x : Node). x.kind) e ∙ k)

pub IsComplete-Harmless :
    (root : FilePath) (json : Json) (fs fs' : Files)
    → Harmless root fs fs'
    → IsComplete root json fs
    → IsComplete root json fs'
IsComplete-Harmless root json fs fs' h c = record {
  at = λ d n bytes m slash found kind parsed. elim (h.manifests d slash) [
    | inl e ↦
        HasLayers-kept root fs fs' h.layers m.layers
          (c.at d n bytes m slash (sym e ∙ found) kind parsed)
    | inr (_, e) ↦ absurd (not_regular n bytes (ground (arith, e, found)) kind)
  ];
}

pub HasManifest-Harmless :
    (root : FilePath) (d : Text) (fs fs' : Files)
    → NoSlash d
    → Harmless root fs fs'
    → HasManifest root d fs
    → HasManifest root d fs'
HasManifest-Harmless root d fs fs' slash h (n, bytes, found, kind) = elim (h.manifests d slash) [
  | inl e ↦ (n, bytes, e ∙ found, kind)
  | inr (none_there, _) ↦ cc (none_there, found)
]
