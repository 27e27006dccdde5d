-- ===== src/Prune/Layers.antt =====
-- Pruning layers spares those that are used and those whose locks are held by other processes.
use pakstak.Base.{
  ◌≢◌, true, Option-cases, ℕ, Text, codes, mem, Result, ok, err, false, Bool-cases, inl, inr,
  Option, some, none, List, [], ◌∷◌, All, ◌≡◌, refl, ap, ◌∙◌, ok_injective, subst, arith,
}
use pakstak.Fs.Paths.{FilePath, resolve, IsPlain}
use pakstak.Fs.World.{World}
use pakstak.Storage.Action.{StorageError, ◌>>=◌, pure}
use pakstak.Storage.Layout.{Storage, storage_at, layer_lock_path}
use pakstak.Storage.Reader.{open_lock_file, get_layer_path}
use pakstak.Storage.Growth.{Adds-open_lock_file}
use pakstak.Storage.Locks.{
  Processes, LayerLock, LayerLockResult, acquired, failed, error, remove_lock_file,
  lock_layer_for_prune, lock_opened, try_lock_layer_for_prune, lock_answer,
}
use pakstak.Prune.{
  counted, remove_locked_layer, prune_locked, prune_layer, prune_each_layer, prune_layers,
  cleanup_locked, cleanup_layer_lock, cleanup_each, cleanup_layer_locks,
}
use pakstak.Storage.Frames.{Any, Framing-caught}
use pakstak.Storage.Leaving.{Leaving-remove_file, Leaving-query}
use pakstak.Prune.Spared.{Sparing, Sparing-pure, Sparing-Adds, Sparing-bind, Leaving-Sparing}
use pakstak.Prune.Entries.{EntryOf, Leaving-read_layer_digests, Leaving-read_layer_lock_digests}
use pakstak.Prune.Protected.{InUse, IsClear-other, resolve-layer_lock_path}
use pakstak.Prune.Kept.{Sparing-from_result, IsClear-at, Sparing-remove_layer}

-- Whenever this process asks for the lock of the layer, another process holds it.
abbrev pub IsHeld : Processes → FilePath → Text → Type 0
IsHeld processes root l =
    (w : World) → processes.set_lock (layer_lock_path (storage_at root) l) w ≢ none

abbrev pub AreKept : Processes → FilePath → List Text → List Text → Type 0
AreKept processes root layers kept =
    (l : Text) → mem l kept ≡ true → mem l layers ≡ false → IsHeld processes root l

-- The layers `kept` are used, or their locks are held by other processes.
module _ (root : FilePath) (manifests layers kept : List Text) (processes : Processes) where
  abbrev s : Storage
  s = storage_at root

  abbrev Used : FilePath → Type 0
  Used = InUse root manifests kept

  -- A lock that was acquired is that of the file, and was free.
  abbrev LockAt : FilePath → LayerLockResult → Type 0
  LockAt path r =
      (lock : LayerLock)
      → r ≡ acquired lock
      → (lock.lock_path ≡ path) × (w : World) × (processes.set_lock path w ≡ none)

  abbrev LockOf : Text → LayerLockResult → Type 0
  LockOf l r = LockAt (layer_lock_path s l) r

  lock_opened_sound :
      (path : FilePath) (opened : Result StorageError (Unit {0})) (w : World)
      → LockAt path (lock_opened processes s path opened w)
  unfolding lock_opened try_lock_layer_for_prune lock_answer
  lock_opened_sound path (err e) w lock f = cc
  lock_opened_sound path (ok u) w lock f = elim (Option-cases (processes.set_lock path w)) [
    | inl e ↦ (ground (arith, e), w, e)
    | inr (errno, e) ↦ ground (arith, e)
  ]

  Sparing-lock_layer_for_prune :
      (l : Text) → Sparing Used (LockOf l) (lock_layer_for_prune processes s l)
  unfolding lock_layer_for_prune
  Sparing-lock_layer_for_prune l = record {
    framed = (Sparing-Adds (Adds-open_lock_file (layer_lock_path s l))).framed;
    result = λ w r e. subst (LockOf l) (ok_injective _ r e) (
        lock_opened_sound (layer_lock_path s l) (open_lock_file (layer_lock_path s l) w).0
          (open_lock_file (layer_lock_path s l) w).1);
  }

  Sparing-remove_lock_file :
      (l : Text) (lock : LayerLock)
      → IsPlain l
      → lock.lock_path ≡ layer_lock_path s l
      → Sparing Used Any (remove_lock_file lock)
  unfolding remove_lock_file
  Sparing-remove_lock_file l lock h e = Leaving-Sparing (
      Leaving-remove_file lock.lock_path (
        IsClear-at root manifests kept _ _ (ap resolve e ∙ resolve-layer_lock_path root l h) (
          IsClear-other root manifests kept (codes "locks") (codes "layers" ∷ l ∷ []) (grind arith)
            (grind arith))))

  Sparing-prune_locked :
      (l : Text) (removed : ℕ) (r : LayerLockResult)
      → IsPlain l
      → mem l layers ≡ false
      → LockOf l r
      → AreKept processes root layers kept
      → Sparing Used Any (prune_locked processes s l removed r)
  unfolding prune_locked remove_locked_layer
  Sparing-prune_locked l removed (acquired lock) h unused k held =
      let (at_path, w, free) = k lock refl in
      elim (Bool-cases (mem l kept)) [
        | inl e ↦ absurd (held l e unused w free)
        | inr e ↦
            Sparing-bind _ (λ done. pure (counted removed done))
              (Framing-caught (
                Sparing-bind _ _ (Sparing-remove_layer root manifests kept l h e)
                  (λ _ _. Sparing-remove_lock_file l lock h at_path)))
              (λ done _. Sparing-pure (counted removed done) tt)
      ]
  Sparing-prune_locked l removed failed h unused k held = Sparing-pure removed tt
  Sparing-prune_locked l removed (error e) h unused k held = Sparing-pure removed tt

  Sparing-prune_layer :
      (entry : Result StorageError Text) (removed : ℕ)
      → EntryOf IsPlain entry
      → AreKept processes root layers kept
      → Sparing Used Any (prune_layer processes s layers entry removed)
  unfolding prune_layer
  Sparing-prune_layer entry removed h held =
      Sparing-bind _ _ (Sparing-from_result entry h) λ l plain. elim (Bool-cases (mem l layers)) [
        | inl e ↦ rw e (Sparing-pure removed tt)
        | inr e ↦ rw e (
            Sparing-bind _ _ (Sparing-lock_layer_for_prune l)
              (λ r k. Sparing-prune_locked l removed r plain e k held))
      ]

  Sparing-prune_each_layer :
      (entries : List (Result StorageError Text)) (removed : ℕ)
      → All (EntryOf IsPlain) entries
      → AreKept processes root layers kept
      → Sparing Used Any (prune_each_layer processes s layers entries removed)
  unfolding prune_each_layer
  Sparing-prune_each_layer [] removed h held = Sparing-pure removed tt
  Sparing-prune_each_layer (entry ∷ entries) removed (h, hs) held =
      Sparing-bind _ _ (Sparing-prune_layer entry removed h held)
        λ removed' _. Sparing-prune_each_layer entries removed' hs held

  pub Sparing-prune_layers :
      AreKept processes root layers kept → Sparing Used Any (prune_layers processes s layers)
  unfolding prune_layers
  Sparing-prune_layers held =
      Sparing-bind _ _ (Leaving-Sparing (Leaving-read_layer_digests s))
        λ entries h. Sparing-prune_each_layer entries 0 h held

  Sparing-cleanup_locked :
      (l : Text) (r : LayerLockResult)
      → IsPlain l
      → LockOf l r
      → Sparing Used Any (cleanup_locked processes s r)
  unfolding cleanup_locked
  Sparing-cleanup_locked l (acquired lock) h k =
      Sparing-bind _ _ (Framing-caught (Sparing-remove_lock_file l lock h (k lock refl).0))
        (λ _ _. Sparing-pure tt tt)
  Sparing-cleanup_locked l failed h k = Sparing-pure tt tt
  Sparing-cleanup_locked l (error e) h k = Sparing-pure tt tt

  unless_there :
      (l : Text) (there : Option FilePath)
      → IsPlain l
      → Sparing Used Any (elim there [
        | some _ ↦ pure tt
        | none ↦ lock_layer_for_prune processes s l >>= cleanup_locked processes s
      ])
  unless_there l (some p) h = Sparing-pure tt tt
  unless_there l none h =
      Sparing-bind _ _ (Sparing-lock_layer_for_prune l) (λ r k. Sparing-cleanup_locked l r h k)

  Sparing-cleanup_each :
      (entries : List (Result StorageError Text))
      → All (EntryOf IsPlain) entries
      → Sparing Used Any (cleanup_each processes s entries)
  unfolding cleanup_each cleanup_layer_lock
  Sparing-cleanup_each [] h = Sparing-pure tt tt
  Sparing-cleanup_each (entry ∷ entries) (h, hs) =
      Sparing-bind _ _
        (Sparing-bind _ _ (Sparing-from_result entry h) λ l plain.
          Sparing-bind _ _ (Leaving-Sparing (Leaving-query (get_layer_path s l)))
            λ there _. unless_there l there plain)
        (λ _ _. Sparing-cleanup_each entries hs)

  pub Sparing-cleanup_layer_locks : Sparing Used Any (cleanup_layer_locks processes s)
  unfolding cleanup_layer_locks
  Sparing-cleanup_layer_locks =
      Sparing-bind _ _ (Leaving-Sparing (Leaving-read_layer_lock_digests s))
        (λ entries h. Sparing-cleanup_each entries h)
