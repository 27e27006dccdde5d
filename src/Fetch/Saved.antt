-- ===== src/Fetch/Saved.antt =====
-- What is saved already, asked of a storage whose files stay as they are.
use pakstak.Base.{
  Text, Bool, true, Bool-cases, some, Option-cases, inl, inr, ◌≡◌, refl, sym, ◌∙◌, subst, arith,
}
use pakstak.Digest.Verifier.{Algorithm}
use pakstak.Fs.Paths.{FilePath, resolve}
use pakstak.Fs.Files.{Files, lookup, is_dir_at, is_file_at}
use pakstak.Fs.World.{is_file, read}
use pakstak.Storage.Action.{query}
use pakstak.Storage.Triple.{Post-map, Triple}
use pakstak.Storage.Frames.{Any, Framing, IsPreorder, Framing-operation, Framing-bind, Framing-pure}
use pakstak.Storage.Layout.{Storage, storage_at, manifest_path, layer_path}
use pakstak.Storage.Reader.{get_layer_path, is_manifest_saved, check_saved}
use pakstak.Storage.Saved.{kind_cases}
use pakstak.Storage.Complete.{HasManifest, Harmless}
use pakstak.Prune.Entries.{NoSlash}
use pakstak.Prune.Protected.{resolve-manifest_path}
use pakstak.Tasks.Ends.{Framing-Triple}

module _ (root : FilePath) where
  abbrev s : Storage
  s = storage_at root

  -- What the saving of layers and containers keeps.
  pub record IsKept (J : Files → Type 0) : Type 0 where
    pub keep : (fs fs' : Files) → Harmless root fs fs' → J fs → J fs'

  -- A query for a layer, and for a manifest.
  pub get_layer_path-Triple :
      (J : Files → Type 0) (l : Text)
      → Triple
          (λ w. J w.files)
          (query (get_layer_path s l))
          (λ there w.
            J w.files
            × ((path : FilePath)
                → there ≡ some path
                → is_dir_at (resolve (layer_path s l)) w.files ≡ true))
          (λ w. J w.files)
  unfolding get_layer_path
  get_layer_path-Triple J l = record { at = λ w k. (k, λ path e. ground (arith, e)) }

  module _ (hash : Algorithm → Text → Text) (d : Text) (slash : NoSlash d) where
    Framing-check_saved : Framing (λ fs gs. gs ≡ fs) Any (check_saved hash s d)
    unfolding check_saved read
    Framing-check_saved =
        let same : IsPreorder (λ (fs gs : Files). gs ≡ fs) = record {
          reflexive = λ fs. refl;
          transitive = λ fs gs hs h k. k ∙ h;
        } in
        Framing-bind same _ _ (Framing-operation same _ _ (λ fs. refl) (λ n fs. refl))
          (λ bytes _. Framing-pure same _ tt)

    is_file-HasManifest :
        (fs : Files) → is_file_at (resolve (manifest_path s d)) fs ≡ true → HasManifest root d fs
    unfolding is_file_at
    is_file-HasManifest fs h =
        let at = resolve-manifest_path root d slash in
        elim (Option-cases (lookup (resolve (manifest_path s d)) fs)) [
          | inl e ↦ ground (arith, e, h)
          | inr (n, e) ↦ elim (kind_cases n) [
            | inl (bytes, k) ↦ (n, bytes, rw at at e, k)
            | inr f ↦ ground (arith, e, f, h)
          ]
        ]

    pub is_manifest_saved-Triple :
        (J : Files → Type 0) (verify : Bool)
        → Triple
            (λ w. J w.files)
            (is_manifest_saved hash s d verify)
            (λ b w. J w.files × (b ≡ true → HasManifest root d w.files))
            (λ w. J w.files)
    unfolding is_manifest_saved
    is_manifest_saved-Triple J verify = record {
      at = λ w k. elim (Bool-cases (is_file (manifest_path s d) w)) [
        | inr e ↦ rw e (k, λ x. cc)
        | inl e ↦
            let has = is_file-HasManifest w.files e in
            elim (Bool-cases verify) [
              | inr f ↦ rw (e, f) (k, λ _. has)
              | inl f ↦
                  rw (e, f)
                    (Post-map (check_saved hash s d w) (λ b v (h, _). (h.0, λ _. h.1)) (λ v h. h.0)
                      ((Framing-Triple (λ fs. J fs × HasManifest root d fs)
                          (λ fs fs' same. subst (λ gs. J gs × HasManifest root d gs) (sym same))
                          Framing-check_saved).at
                        w (k, has)))
            ]
      ];
    }
