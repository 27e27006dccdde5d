-- ===== src/Fetch/CompleteLayers.antt =====
-- `fetch_layers` leaves every layer in its place, and keeps what such methods keep.
use pakstak.Base.{
  Bool-cases, inl, inr, Result, ok, err, map_err, true, Option, none, some, List, [], ◌∷◌, All, ◌≡◌,
  refl,
}
use pakstak.Reference.{Reference}
use pakstak.Manifest.{Descriptor}
use pakstak.Formats.{LayerFormat, try_from}
use pakstak.Network.{Body, Gives-any}
use pakstak.Fs.Paths.{FilePath, is_plain, resolve}
use pakstak.Fs.Files.{Files, is_dir_at}
use pakstak.Fs.World.{World}
use pakstak.Storage.Action.{StorageError, query}
use pakstak.Storage.Triple.{Post, Post-map, Triple}
use pakstak.Storage.Frames.{Any}
use pakstak.Storage.Layout.{Storage, storage_at, layer_path}
use pakstak.Storage.Reader.{get_layer_path}
use pakstak.Storage.Layers.{write_layer}
use pakstak.Storage.Unpacking.{IsConfined}
use pakstak.Storage.WholeLayers.{LayerWhole, write_layer_whole}
use pakstak.Storage.Complete.{
  LayerThere, LayerThere-kept, layer_at, IsComplete, IsComplete-Harmless,
}
use pakstak.Storage.HarmlessDigests.{Framing-write_layer_any}
use pakstak.Prune.Protected.{resolve-layer_path}
use pakstak.Fetch.Images.{fetch_missing, fetch_layer, fetch_layers}
use pakstak.Tasks.{Crates, layer_format}
use pakstak.Tasks.Ends.{
  Ends, Ends-bind, Ends-weaken, Ends-pure, Ends-from_result, Ends-on_storage, Ends-on_registry,
  Framing-Triple,
}
use pakstak.Fetch.Saved.{IsKept, get_layer_path-Triple}

module _ {S : Type 0} (crates : Crates S) (root : FilePath)
    (confined : IsConfined crates.archives) where
  abbrev s : Storage
  s = storage_at root

  abbrev Complete : Files → Type 0
  Complete = IsComplete root crates.json

  abbrev pub IsThere : Descriptor → Files → Type 0
  IsThere x fs = LayerThere root x.digest fs

  pub IsKept-Complete : IsKept root Complete
  IsKept-Complete = record { keep = λ fs fs' h. IsComplete-Harmless root crates.json fs fs' h }

  -- A layer that is saved is there.
  write_layer-Triple :
      (J : Files → Type 0)
      → IsKept root J
      → (x : Descriptor) (format : LayerFormat) (body : Body)
      → Triple
          (λ w. J w.files)
          (write_layer crates.hash crates.archives s x.digest format body)
          (λ _ w. J w.files × IsThere x w.files)
          (λ w. J w.files)
  write_layer-Triple J k x format body = record {
    at = λ w j.
        let kept =
          (Framing-Triple J k.keep (
              Framing-write_layer_any root x.digest crates.hash crates.archives format body
                confined)).at
            w j in
        elim (Bool-cases (is_plain x.digest)) [
          | inl h ↦
              both (write_layer crates.hash crates.archives s x.digest format body w) w.files kept (
                write_layer_whole crates.hash crates.archives confined root x.digest format body w
                  h)
          | inr h ↦
              Post-map (write_layer crates.hash crates.archives s x.digest format body w)
                (λ u v (i, _). (i, inl h)) (λ v i. i) kept
        ];
  }
    where
      both :
          (o : Result StorageError (Unit {0}) × World) (fs : Files)
          → Post (λ (u : Unit {0}) w. J w.files × Any u) (λ w. J w.files) o
          → LayerWhole crates.hash (layer_at root x.digest) body x.digest fs o
          → Post (λ _ w. J w.files × IsThere x w.files) (λ w. J w.files) o
      both (ok u, w) fs (j, _) (there, _) = (j, inr there)
      both (err e, w) fs j _ = j

  fetch_missing-Ends :
      (J : Files → Type 0)
      → IsKept root J
      → (reference : Reference) (x : Descriptor) (format : LayerFormat) → (there : Option FilePath)
      → Ends
          (λ fs.
            J fs
            × ((path : FilePath)
                → there ≡ some path
                → is_dir_at (resolve (layer_path s x.digest)) fs ≡ true))
          (fetch_missing crates s reference x format there)
          (λ _ fs. J fs × IsThere x fs)
          J
  unfolding fetch_missing
  fetch_missing-Ends J k reference x format (some path) =
      Ends-pure tt (λ fs (j, f). (j, there fs (f path refl)))
    where
      there : (fs : Files) → is_dir_at (resolve (layer_path s x.digest)) fs ≡ true → IsThere x fs
      there fs d = elim (Bool-cases (is_plain x.digest)) [
        | inl h ↦ inr (rw (resolve-layer_path root x.digest h) at d)
        | inr h ↦ inl h
      ]
  fetch_missing-Ends J k reference x format none =
      Ends-bind _ _ (Ends-on_registry _ (Gives-any _) (λ fs (j, f). j)) λ body.
        Ends-on_storage (write_layer crates.hash crates.archives s x.digest format body)
          (record { at = λ w ((j, f), _). (write_layer-Triple J k x format body).at w j })

  fetch_layer-Ends :
      (J : Files → Type 0)
      → IsKept root J
      → (reference : Reference) (x : Descriptor)
      → Ends J (fetch_layer crates s reference x) (λ _ fs. J fs × IsThere x fs) J
  unfolding fetch_layer
  fetch_layer-Ends J k reference x =
      Ends-bind _ _ (Ends-from_result (map_err layer_format (try_from x.media_type)) (λ fs j. j))
        λ format.
          Ends-bind _ _
            (Ends-on_storage (query (get_layer_path s x.digest))
              (record { at = λ w (j, _). (get_layer_path-Triple root J x.digest).at w j }))
            (fetch_missing-Ends J k reference x format)

  pub fetch_layers-Ends :
      (J : Files → Type 0)
      → IsKept root J
      → (reference : Reference) (layers : List Descriptor)
      → Ends J
          (fetch_layers crates s reference layers)
          (λ _ fs. J fs × All (λ x. IsThere x fs) layers)
          J
  unfolding fetch_layers
  fetch_layers-Ends J k reference [] = Ends-pure tt (λ fs j. (j, tt))
  fetch_layers-Ends J k reference (x ∷ layers) =
      let more : IsKept root (λ fs. J fs × IsThere x fs) = record {
        keep = λ fs fs' c (j, there).
            (k.keep fs fs' c j, LayerThere-kept root x.digest fs fs' (c.layers x.digest) there);
      } in
      Ends-bind (fetch_layer crates s reference x) (λ _. fetch_layers crates s reference layers)
        (fetch_layer-Ends J k reference x)
        λ _.
          Ends-weaken (fetch_layers crates s reference layers) (λ u fs ((j, t), ts). (j, (t, ts)))
            (λ fs (j, t). j) (fetch_layers-Ends (λ fs. J fs × IsThere x fs) more reference layers)
