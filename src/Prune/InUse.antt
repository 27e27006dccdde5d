-- ===== src/Prune/InUse.antt =====
-- `prune` removes nothing that an installed container uses.
use mathlib.Core.List.{append_assoc}
use pakstak.Base.{
  contains, ℕ, Text, codes, mem, ==_iff, Result, ok, err, true, false, some, List, [], ◌∷◌, ◌++◌,
  ◌≡◌, ◌⊎◌, inl, inr, refl, ap, sym, ◌∙◌, subst, arith,
}
use pakstak.Manifest.{Json}
use pakstak.Fs.Paths.{FilePath, resolve, IsPlain}
use pakstak.Fs.Files.{Files, Node, lookup}
use pakstak.Fs.World.{World, still}
use pakstak.Storage.Action.{StorageError, Action, continue, ◌>>=◌, ◌>>◌, pure}
use pakstak.Storage.Layout.{Storage, storage_at, manifest_path, layer_path}
use pakstak.Storage.Locks.{Processes}
use pakstak.Prune.{
  HashSets, read_used_manifests, read_used_layers, prune_manifests, prune_layers,
  cleanup_layer_locks, prune,
}
use pakstak.Storage.Frames.{Any}
use pakstak.Prune.Spared.{Spared, Sparing, Sparing-bind, Sparing-pure}
use pakstak.Prune.Protected.{InUse, manifest, layer, resolve-manifest_path, resolve-layer_path}
use pakstak.Prune.Kept.{Sparing-prune_manifests}
use pakstak.Prune.Layers.{AreKept, IsHeld, Sparing-prune_layers, Sparing-cleanup_layer_locks}
use pakstak.Storage.Reads.{Reads}
use pakstak.Prune.Used.{Reads-read_used_manifests, Reads-read_used_layers}
use pakstak.Prune.Uses.{UsesManifest, HasLayer, read_used_manifests-mem, added-mem}

continue_outcome :
    {A B : Type 0} (f : A → Action B) (r : Result StorageError A) (w : World)
    → ((continue r f w).1.files ≡ w.files) ⊎ ((a : A) × (r ≡ ok a) × (continue r f w ≡ f a w))
continue_outcome f (ok a) w = inr (a, refl, refl)
continue_outcome f (err e) w = inl refl

-- A chain that begins by reading changes nothing, or goes on with what it read.
Reads-outcome :
    {A B : Type 0} (m : Action A) (f : A → Action B) (w : World)
    → Reads m
    → (((m >>= f) w).1.files ≡ w.files)
      ⊎ ((a : A) × ((m (still w.files)).0 ≡ ok a) × ((m >>= f) w ≡ f a (m w).1))
Reads-outcome m f w h = elim (continue_outcome f (m w).0 (m w).1) [
  | inl e ↦ inl (e ∙ h.same w)
  | inr (a, p, q) ↦ inr (a, h.agrees w a p, q)
]

module _ (json : Json) (sets : HashSets) (processes : Processes) (root : FilePath) where
  abbrev s : Storage
  s = storage_at root

  abbrev removals : List Text → List Text → Action (ℕ × ℕ)
  removals manifests layers = do
    removed_manifests ← prune_manifests s manifests
    removed_layers ← prune_layers processes s layers
    cleanup_layer_locks processes s
    pure (removed_manifests, removed_layers)

  Sparing-removals :
      (manifests layers kept : List Text)
      → AreKept processes root layers kept
      → Sparing (InUse root manifests kept) Any (removals manifests layers)
  Sparing-removals manifests layers kept held =
      Sparing-bind _ _ (Sparing-prune_manifests root manifests kept) λ removed_manifests _.
        Sparing-bind _ _ (Sparing-prune_layers root manifests layers kept processes held)
          λ removed_layers _.
            Sparing-bind _ _ (Sparing-cleanup_layer_locks root manifests layers kept processes)
              λ _ _. Sparing-pure (removed_manifests, removed_layers) tt

  -- What has been read when files are removed, and what is spared.
  abbrev Removed : World → Type 0
  Removed w =
      (manifests layers : List Text) × ((read_used_manifests s (still w.files)).0 ≡ ok manifests)
      × ((read_used_layers json s sets manifests (still w.files)).0 ≡ ok layers)
      × ((kept : List Text)
          → AreKept processes root layers kept
          → Spared (InUse root manifests kept) w.files (prune json sets processes s w).1.files)

  prune_outcome : (w : World) → ((prune json sets processes s w).1.files ≡ w.files) ⊎ Removed w
  unfolding prune
  prune_outcome w =
      let go_on =
        λ (manifests : List Text). read_used_layers json s sets manifests >>= removals manifests in
      let reading = Reads-read_used_manifests s in
      elim (Reads-outcome (read_used_manifests s) go_on w reading) [
        | inl e ↦ inl e
        | inr (manifests, p, q) ↦
            let v = (read_used_manifests s w).1 in
            let reading' = Reads-read_used_layers json s sets manifests in
            elim (Reads-outcome (read_used_layers json s sets manifests) (removals manifests) v
              reading') [
                | inl e ↦ inl (
                    ap (λ (o : Result StorageError (ℕ × ℕ) × World). o.1.files) q
                    ∙ e
                    ∙ reading.same w)
                | inr (layers, p', q') ↦
                    let u = (read_used_layers json s sets manifests v).1 in
                    inr (
                      manifests,
                      layers,
                      p,
                      subst
                          (λ (fs : Files).
                            (read_used_layers json s sets manifests (still fs)).0 ≡ ok layers)
                          (reading.same w) p',
                      λ kept held.
                          rw (q, q')
                            (subst
                              (λ (fs : Files).
                                Spared (InUse root manifests kept) fs
                                  (removals manifests layers u).1.files)
                              (reading'.same v ∙ reading.same w)
                              ((Sparing-removals manifests layers kept held).framed u)),
                    )
              ]
      ]

  -- However pruning ends, and wherever it is cut short, the manifest file of an installed container
  -- stays as it is. The digest has no slash.
  pub prune-UsesManifest :
      (c d : Text) (n : Node) (w : World)
      → contains d b'/' ≡ false
      → UsesManifest s w.files c d
      → lookup (resolve (manifest_path s d)) w.files ≡ some n
      → lookup (resolve (manifest_path s d)) (prune json sets processes s w).1.files ≡ some n
  prune-UsesManifest c d n w slash uses h = elim (prune_outcome w) [
    | inl e ↦ rw e h
    | inr (manifests, layers, p, q, spared) ↦
        let at = resolve-manifest_path root d slash in
        let there = ap (λ x. lookup x w.files) (sym at) ∙ h in
        rw at (
          (spared [] (λ l k _. cc)).at _ n
            (manifest d (read_used_manifests-mem s w.files c d manifests uses p)) there)
  ]

  -- However pruning ends, and wherever it is cut short, all that stands at or below a layer of the
  -- manifest of an installed container stays as it is. The layer's digest is one plain name, and
  -- iterating over a set gives all its elements.
  pub prune-HasLayer :
      (c d l : Text) (rest : FilePath) (n : Node) (w : World)
      → ((x : Text) (xs : List Text) → mem x xs ≡ true → mem x (sets.iterate xs) ≡ true)
      → IsPlain l
      → UsesManifest s w.files c d
      → HasLayer s w.files json d l
      → lookup (resolve (layer_path s l) ++ rest) w.files ≡ some n
      → lookup (resolve (layer_path s l) ++ rest) (prune json sets processes s w).1.files ≡ some n
  unfolding read_used_layers
  prune-HasLayer c d l rest n w iterates plain uses has h = elim (prune_outcome w) [
    | inl e ↦ rw e h
    | inr (manifests, layers, p, q, spared) ↦
        let at =
          ap (λ x. x ++ rest) (resolve-layer_path root l plain)
          ∙ append_assoc (resolve root) (codes "layers" ∷ l ∷ []) rest in
        let there = ap (λ x. lookup x w.files) (sym at) ∙ h in
        let used = read_used_manifests-mem s w.files c d manifests uses p in
        let listed =
          added-mem s w.files json d l [] (sets.iterate manifests) layers
            (iterates d manifests used) has q in
        rw at ((spared layers (λ k x y. cc (x, y))).at _ n (layer l rest listed) there)
  ]

  -- However pruning ends, and wherever it is cut short, all that stands at or below a layer whose
  -- lock other processes hold stays as it is, used or not. The layer's digest is one plain name.
  pub prune-IsHeld :
      (l : Text) (rest : FilePath) (n : Node) (w : World)
      → IsPlain l
      → IsHeld processes root l
      → lookup (resolve (layer_path s l) ++ rest) w.files ≡ some n
      → lookup (resolve (layer_path s l) ++ rest) (prune json sets processes s w).1.files ≡ some n
  prune-IsHeld l rest n w plain held h = elim (prune_outcome w) [
    | inl e ↦ rw e h
    | inr (manifests, layers, p, q, spared) ↦
        let at =
          ap (λ x. x ++ rest) (resolve-layer_path root l plain)
          ∙ append_assoc (resolve root) (codes "layers" ∷ l ∷ []) rest in
        let there = ap (λ x. lookup x w.files) (sym at) ∙ h in
        let self : mem l (l ∷ []) ≡ true = ground (arith, (==_iff l l).1 refl) in
        let only = λ (k : Text) (x : mem k (l ∷ []) ≡ true).
          subst (IsHeld processes root) (sym ((==_iff k l).0 (ground arith))) held in
        rw at ((spared (l ∷ []) (λ k x y. only k x)).at _ n (layer l rest self) there)
  ]
