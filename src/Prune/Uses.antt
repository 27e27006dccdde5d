-- ===== src/Prune/Uses.antt =====
-- What an installed container uses is among what is read.
use pakstak.Base.{
  Text, mem, ◌==◌, ==_iff, Result, ok, ok_injective, true, Bool-cases, List, [], ◌∷◌, ◌++◌, ◌||◌,
  ◌≡◌, ◌⊎◌, inl, inr, refl, ap, sym, ◌∙◌, subst, arith,
}
use pakstak.Manifest.{ImageManifest, Json}
use pakstak.Fs.Files.{Files}
use pakstak.Fs.World.{World, still}
use pakstak.Storage.Action.{chain_value, StorageError, collect}
use pakstak.Storage.Layout.{Storage}
use pakstak.Storage.Reader.{read_containers, read_container_manifest_digest, read_manifest}
use pakstak.Prune.{layer_digests, used_manifest, read_used_manifests, add_used_layers}
use pakstak.Storage.Reads.{Reads-read_containers, Reads-read_manifest}
use pakstak.Prune.Used.{Reads-used_manifest}

abbrev pub Listed : Text → List (Result StorageError Text) → Type 0
Listed c [] = ⊥
Listed c (entry ∷ entries) = (entry ≡ ok c) ⊎ Listed c entries

mem-append : (x : Text) (a b : List Text) → mem x (a ++ b) ≡ (mem x a || mem x b)
mem-append x [] b = refl
mem-append x (y ∷ a) b = ground (arith, mem-append x a b)

module _ (s : Storage) (fs : Files) where
  -- The container is installed, and its manifest digest is `d`.
  abbrev pub UsesManifest : Text → Text → Type 0
  UsesManifest c d =
      (entries : List (Result StorageError Text)) × ((read_containers s (still fs)).0 ≡ ok entries)
      × Listed c entries
      × ((read_container_manifest_digest s c (still fs)).0 ≡ ok d)

  used_value :
      (c d : Text)
      → (read_container_manifest_digest s c (still fs)).0 ≡ ok d
      → (entry : Result StorageError Text) → entry ≡ ok c
      → (used_manifest s entry (still fs)).0 ≡ ok d
  unfolding used_manifest
  used_value c d h entry e = rw e h

  collected :
      (c d : Text) (entries : List (Result StorageError Text)) (used : List Text)
      → (read_container_manifest_digest s c (still fs)).0 ≡ ok d
      → Listed c entries
      → (collect (used_manifest s) entries (still fs)).0 ≡ ok used
      → mem d used ≡ true
  unfolding collect
  collected c d [] used h l e = absurd l
  collected c d (entry ∷ entries) used h l e =
      let (x, p, q) = chain_value (used_manifest s entry) _ (still fs) used e in
      let (xs, p', q') = chain_value (collect (used_manifest s) entries) _ _ used q in
      let rest =
        subst (λ (w : World). (collect (used_manifest s) entries w).0 ≡ ok xs)
          ((Reads-used_manifest s entry).calm fs) p' in
      let is : x ∷ xs ≡ used = ok_injective _ _ q' in
      elim l [
        | inl here ↦
            let same : d ≡ x = ok_injective d x (sym (used_value c d h entry here) ∙ p) in
            rw (sym is) (ground (arith, (==_iff d x).1 same))
        | inr later ↦ rw (sym is) (ground (arith, collected c d entries xs h later rest))
      ]

  pub read_used_manifests-mem :
      (c d : Text) (used : List Text)
      → UsesManifest c d
      → (read_used_manifests s (still fs)).0 ≡ ok used
      → mem d used ≡ true
  unfolding read_used_manifests
  read_used_manifests-mem c d used (entries, listing, listed, digest) e =
      let (entries', p, q) = chain_value (read_containers s) _ (still fs) used e in
      let same : entries' ≡ entries = ok_injective _ _ (sym p ∙ listing) in
      let calm = (Reads-read_containers s).calm fs in
      collected c d entries used digest listed (
        subst
          (λ (es : List (Result StorageError Text)).
            (collect (used_manifest s) es (still fs)).0 ≡ ok used)
          same (subst (λ (w : World). (collect (used_manifest s) entries' w).0 ≡ ok used) calm q))

  module _ (json : Json) where
    -- A manifest has the layer.
    abbrev pub HasLayer : Text → Text → Type 0
    HasLayer d l =
        (m : ImageManifest) × ((read_manifest json s d (still fs)).0 ≡ ok m)
        × (mem l (layer_digests m) ≡ true)

    added_kept :
        (l : Text) (acc digests layers : List Text)
        → mem l acc ≡ true
        → (add_used_layers json s acc digests (still fs)).0 ≡ ok layers
        → mem l layers ≡ true
    unfolding add_used_layers
    added_kept l acc [] layers h e = rw (sym (ok_injective acc layers e)) h
    added_kept l acc (x ∷ digests) layers h e =
        let (m, p, q) = chain_value (read_manifest json s x) _ (still fs) layers e in
        added_kept l (acc ++ layer_digests m) digests layers
          (ground (arith, mem-append l acc (layer_digests m)))
          (subst
            (λ (w : World).
              (add_used_layers json s (acc ++ layer_digests m) digests w).0 ≡ ok layers)
            ((Reads-read_manifest json s x).calm fs) q)

    pub added-mem :
        (d l : Text) (acc digests layers : List Text)
        → mem d digests ≡ true
        → HasLayer d l
        → (add_used_layers json s acc digests (still fs)).0 ≡ ok layers
        → mem l layers ≡ true
    unfolding add_used_layers
    added-mem d l acc [] layers h k e = cc
    added-mem d l acc (x ∷ digests) layers h (m, read, has) e =
        let (m', p, q) = chain_value (read_manifest json s x) _ (still fs) layers e in
        let rest =
          subst
            (λ (w : World).
              (add_used_layers json s (acc ++ layer_digests m') digests w).0 ≡ ok layers)
            ((Reads-read_manifest json s x).calm fs) q in
        elim (Bool-cases (d == x)) [
          | inl same ↦
              let d_is_x : d ≡ x = (==_iff d x).0 same in
              let m_is : m ≡ m' =
                ok_injective m m'
                  (sym read ∙ ap (λ y. (read_manifest json s y (still fs)).0) d_is_x ∙ p) in
              added_kept l (acc ++ layer_digests m') digests layers
                (ground (
                  arith,
                  mem-append l acc (layer_digests m'),
                  ap (λ (y : ImageManifest). mem l (layer_digests y)) m_is,
                ))
                rest
          | inr differ ↦
              added-mem d l (acc ++ layer_digests m') digests layers (ground (arith, h, differ))
                (m, read, has) rest
        ]
