-- ===== src/Storage/HarmlessDigests.antt =====
-- Whatever its digest: the saving of a layer leaves the manifests as they are, and layers stay
-- directories. A digest that is no plain name is refused before anything is unpacked.
use pakstak.Base.{
  Result, ok, err, true, ◌⊎◌, Text, codes, ◌==◌, err, Result-cases, Option-cases, Bool-cases, some,
  false, inl, inr, [], ◌∷◌, ◌++◌, ◌≡◌, refl,
}
use pakstak.Digest.Verifier.{Algorithm, DigestError, new}
use pakstak.Digest.Plain.{new-IsPlain}
use pakstak.Fs.World.{World}
use pakstak.Network.{Body}
use pakstak.Formats.{LayerFormat}
use pakstak.Fs.Paths.{FilePath, push, file_name, is_plain}
use pakstak.Fs.PathLaws.{push_plain}
use pakstak.Fs.Components.{file_name-push-IsPlain}
use pakstak.Storage.Action.{StorageError, layer_digest, no_file_name}
use pakstak.Storage.Frames.{Any, Framing, Framing-bind, Framing-caught, Framing-fail}
use pakstak.Storage.Leaving.{Leaving-create_dir_all}
use pakstak.Storage.Removal.{Leaving-remove_dir_all_writable}
use pakstak.Storage.Layout.{storage_at}
use pakstak.Storage.Layers.{Archives, extract_layer, publish_extracted, write_layer}
use pakstak.Storage.Unpacking.{IsConfined}
use pakstak.Storage.Complete.{Harmless, Harmless-IsPreorder, Leaving-Harmless}
use pakstak.Storage.Harmless.{clear_temporary, IsOff-temporary}
use pakstak.Storage.HarmlessLayers.{Framing-write_layer}
use pakstak.Prune.Protected.{resolve-temporary}

module _ (root : FilePath) (digest : Text) (hash : Algorithm → Text → Text) (archives : Archives)
    (format : LayerFormat) (body : Body) where
  -- No verifier is made for such a digest.
  refused : is_plain digest ≡ false → (e : DigestError) × (new body digest ≡ err e)
  refused h = elim (Result-cases (new body digest)) [
    | inl x ↦ x
    | inr (v, f) ↦ cc (h, new-IsPlain body digest v f)
  ]

  -- It gives no value.
  Framing-write_layer_refused :
      (e : DigestError)
      → new body digest ≡ err e
      → Framing
          (Harmless root)
          (λ _. ⊥)
          (write_layer hash archives (storage_at root) digest format body)
  unfolding write_layer extract_layer publish_extracted storage_at ◌==◌
  Framing-write_layer_refused e h =
      elim (Option-cases (file_name (push (push root (codes "layers")) digest))) [
        | inl f ↦ rw f (Framing-fail (Harmless-IsPreorder root) no_file_name)
        | inr (name, f) ↦
            let layers : push root (codes "layers") ≡ root ++ codes "layers" ∷ [] =
              push_plain root (codes "layers") refl in
            let f' : file_name (push (root ++ codes "layers" ∷ []) digest) ≡ some name =
              rw layers at f in
            let plain = file_name-push-IsPlain root (codes "layers") digest name refl f' in
            let copy = push (push root (codes "temporary")) name in
            rw (f, h)
              (Framing-bind (Harmless-IsPreorder root) _ _
                (Leaving-Harmless root (
                  Leaving-create_dir_all copy
                    (rw (resolve-temporary root name plain) (IsOff-temporary root (name ∷ [])))))
                λ _ _.
                  Framing-bind (Harmless-IsPreorder root) _ _
                    (Framing-caught (
                      Leaving-Harmless root (
                        Leaving-remove_dir_all_writable copy (
                          rw (resolve-temporary root name plain)
                            (clear_temporary root (name ∷ []))))))
                    (λ _ _. Framing-fail (Harmless-IsPreorder root) (layer_digest e)))
      ]

  abbrev run : World → Result StorageError (Unit {0}) × World
  run = write_layer hash archives (storage_at root) digest format body

  pub Framing-write_layer_any :
      IsConfined archives
      → Framing (Harmless root) Any (write_layer hash archives (storage_at root) digest format body)
  Framing-write_layer_any confined = elim (Bool-cases (is_plain digest)) [
    | inl p ↦ Framing-write_layer root digest p hash archives confined format body
    | inr n ↦
        let (e, h) = refused n in
        record { framed = (Framing-write_layer_refused e h).framed; result = λ w a _. tt }
  ]

  -- Whatever the digest of a layer is, and wherever its saving is cut short: manifests stay as they
  -- are, layers that are there stay, and a digest that is no plain name is refused with an error.
  -- Unpacking an archive changes nothing outside of the directory that it is given.
  pub write_layer-Harmless :
      IsConfined archives
      → (w : World)
      → Harmless root w.files
          (write_layer hash archives (storage_at root) digest format body w).1.files
        × ((is_plain digest ≡ true)
            ⊎ ((e : StorageError) × ((write_layer hash archives
                    (storage_at root)
                    digest
                    format
                    body
                    w).0
                  ≡ err e)))
  write_layer-Harmless confined w = (
    (Framing-write_layer_any confined).framed w,
    elim (Bool-cases (is_plain digest)) [ inl p ↦ inl p | inr n ↦ inr (no_value (run w).0 refl n) ],
  )
    where
      no_value :
          (r : Result StorageError (Unit {0}))
          → (run w).0 ≡ r
          → is_plain digest ≡ false
          → (e : StorageError) × ((run w).0 ≡ err e)
      no_value (err e) f n = (e, f)
      no_value (ok u) f n =
          let (e, h) = refused n in absurd ((Framing-write_layer_refused e h).result w u f)
