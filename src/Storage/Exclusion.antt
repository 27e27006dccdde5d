-- ===== src/Storage/Exclusion.antt =====
-- Several processes that open the storage: readers hold its lock together, a writer holds it alone.
use pakstak.Base.{
  ℕ, codes, Result, ok, err, map_err, Bool, true, false, ◌&&◌, nat_eq, List, [], ◌∷◌, is_empty, All,
  ◌≡◌, ◌⊎◌, inl, inr, refl, ap, sym, subst, ◌∙◌, arith, Bool-cases, if◌then◌else◌, ok_injective,
}
use pakstak.Fs.Paths.{FilePath, push, path_eq, path_eq_complete}
use pakstak.Fs.World.{World, IoKind, create_dir_all}
use pakstak.Storage.Action.{StorageError, io, do_io, bind-eq-ok}
use pakstak.Storage.Layout.{Storage, StorageLock}
use pakstak.Storage.Reader.{open_lock_file}
use pakstak.Storage.Locks.{
  LockMode, shared, exclusive, Processes, Environment, storage_path_from_env, acquire_lock,
  new_with_lock,
}

-- A file that a process has locked, and how.
pub record Held : Type 0 where
  pub process : ℕ
  pub file : FilePath
  pub mode : LockMode

abbrev pub Holders : Type 0
Holders = List Held

abbrev pub is_shared : LockMode → Bool
is_shared shared = true
is_shared exclusive = false

abbrev pub all_shared : Holders → Bool
all_shared [] = true
all_shared (x ∷ h) = is_shared x.mode && all_shared h

-- The locks on one file.
unfoldable pub on_file : FilePath → Holders → Holders
on_file p [] = []
on_file p (x ∷ h) = let rest = on_file p h in if path_eq x.file p then x ∷ rest else rest

-- The lock may be given to one more holder.
abbrev pub compatible : LockMode → Holders → Bool
compatible shared h = all_shared h
compatible exclusive h = is_empty h

-- What `flock` documents: a lock on a file is given only beside the locks on that file that it is
-- compatible with. Other files do not count.
abbrev pub GivesCompatible : (Holders → Processes) → Type 0
GivesCompatible answers =
    (h : Holders) (mode : LockMode) (path : FilePath) (w : World)
    → (answers h).try_lock mode path w ≡ ok tt
    → compatible mode (on_file path h) ≡ true

-- A writer is alone.
abbrev pub IsExclusive : Holders → Type 0
IsExclusive h = (all_shared h ≡ true) ⊎ ((x : Held) × (h ≡ x ∷ []))

unfoldable pub released : ℕ → Holders → Holders
released i [] = []
released i (x ∷ h) = let rest = released i h in if nat_eq i x.process then rest else x ∷ rest

ok_of_map_err :
    {A : Type 0} (r : Result IoKind A) (a : A)
    → ◌≡◌ {A = Result StorageError A} (map_err io r) (ok a)
    → r ≡ ok a
ok_of_map_err (ok b) a h = cc
ok_of_map_err (err e) a h = cc

nil_of_empty : (h : Holders) → is_empty h ≡ true → h ≡ []
nil_of_empty [] e = refl
nil_of_empty (x ∷ h) e = cc

module _ (answers : Holders → Processes) (env : Environment) (cwd : FilePath) where
  -- A process opens the storage, or ends, which closes its lock file.
  pub data Step : Holders → Holders → Type 0 where
    opens :
        (i : ℕ) (mode : LockMode) (h : Holders) (s : Storage) (w w' : World)
        → new_with_lock (answers h) env cwd mode w ≡ (ok s, w')
        → Step h (record { process = i; file = s.lock.file; mode = mode } ∷ h)
    ends : (i : ℕ) (h : Holders) → Step h (released i h)

  pub data Reachable : Holders → Type 0 where
    start : Reachable []
    next : {h h' : Holders} → Reachable h → Step h h' → Reachable h'

  -- The lock file of the storage that the environment names.
  IsLockFile : FilePath → Type 0
  IsLockFile f =
      (path : FilePath) × (storage_path_from_env env cwd ≡ ok path)
      × (f ≡ push (push path (codes "locks")) (codes "storage"))

  IsLockFile-same : (f g : FilePath) → IsLockFile f → IsLockFile g → f ≡ g
  unfolding IsLockFile
  IsLockFile-same f g (p, e, at) (q, e', at') =
      let same : p ≡ q = ok_injective p q (sym e ∙ e') in
      at ∙ ap (λ x. push (push x (codes "locks")) (codes "storage")) same ∙ sym at'

  abbrev AllLockFile : Holders → Type 0
  AllLockFile h = All (λ (x : Held). IsLockFile x.file) h

  on_file-AllLockFile :
      (f : FilePath) (h : Holders) → IsLockFile f → AllLockFile h → on_file f h ≡ h
  unfolding on_file
  on_file-AllLockFile f [] at all_at = refl
  on_file-AllLockFile f (x ∷ h) at (k, ks) = ground (
    arith,
    path_eq_complete x.file f (IsLockFile-same x.file f k at),
    on_file-AllLockFile f h at ks,
  )

  AllLockFile-released : (i : ℕ) (h : Holders) → AllLockFile h → AllLockFile (released i h)
  unfolding released
  AllLockFile-released i [] k = tt
  AllLockFile-released i (x ∷ h) (k, ks) = elim (Bool-cases (nat_eq i x.process)) [
    | inl e ↦ rw e (AllLockFile-released i h ks)
    | inr e ↦ rw e (k, AllLockFile-released i h ks)
  ]

  alone_released : (i : ℕ) (x : Held) → IsExclusive (released i (x ∷ []))
  unfolding released
  alone_released i x = elim (Bool-cases (nat_eq i x.process)) [
    | inl e ↦ inl (ground (arith, e))
    | inr e ↦ inr (x, ground (arith, e))
  ]

  all_shared-released :
      (i : ℕ) (h : Holders) → all_shared h ≡ true → all_shared (released i h) ≡ true
  unfolding released
  all_shared-released i [] k = refl
  all_shared-released i (x ∷ h) k = ground (arith, k, all_shared-released i h)

  module _ (gives : GivesCompatible answers) where
    opened_compatible :
        (mode : LockMode) (h : Holders) (s : Storage) (w w' : World)
        → new_with_lock (answers h) env cwd mode w ≡ (ok s, w')
        → IsLockFile s.lock.file × (compatible mode (on_file s.lock.file h) ≡ true)
    unfolding new_with_lock acquire_lock IsLockFile
    opened_compatible mode h s w w' e =
        let (path, w₁, e₀, e₁) =
          bind-eq-ok (do_io (λ v. (storage_path_from_env env cwd, v))) _ w e in
        let (l, w₂, locked, made) = bind-eq-ok (acquire_lock (answers h) path mode) _ w₁ e₁ in
        let (_, w₃, _, e₃) = bind-eq-ok (do_io (create_dir_all path)) _ w₁ locked in
        let lock = push (push path (codes "locks")) (codes "storage") in
        let (_, w₄, _, e₄) = bind-eq-ok (open_lock_file lock) _ w₃ e₃ in
        let (_, w₅, e₅, e₆) =
          bind-eq-ok (do_io (λ v. ((answers h).try_lock mode lock v, v))) _ w₄ e₄ in
        let is : l.file ≡ lock =
          ap (λ (x : StorageLock). x.file) (sym (ok_injective _ _ (ap (λ o. o.0) e₆))) in
        let at : s.lock.file ≡ lock =
          ap (λ (x : Storage). x.lock.file) (sym (ok_injective _ _ (ap (λ o. o.0) made))) ∙ is in
        (
          (path, ok_of_map_err _ _ (ap (λ o. o.0) e₀), at),
          subst (λ f. compatible mode (on_file f h) ≡ true) (sym at)
              (gives h mode lock w₄ (ok_of_map_err _ _ (ap (λ o. o.0) e₅))),
        )

    opened :
        (mode : LockMode) (h : Holders) (s : Storage) (w w' : World)
        → new_with_lock (answers h) env cwd mode w ≡ (ok s, w')
        → AllLockFile h
        → IsLockFile s.lock.file × (compatible mode h ≡ true)
    opened mode h s w w' e k =
        let (at, c) = opened_compatible mode h s w w' e in
        (at, rw (on_file-AllLockFile s.lock.file h at k) at c)

    Step-IsExclusive :
        (h h' : Holders)
        → Step h h'
        → AllLockFile h × IsExclusive h
        → AllLockFile h' × IsExclusive h'
    Step-IsExclusive h _ (opens i shared _ s w w' e) (a, k) =
        let (at, c) = opened shared h s w w' e a in ((at, a), inl c)
    Step-IsExclusive h _ (opens i exclusive _ s w w' e) (a, k) =
        let (at, c) = opened exclusive h s w w' e a in
        (
          (at, a),
          inr (
            record { process = i; file = s.lock.file; mode = exclusive },
            ap (λ l. record { process = i; file = s.lock.file; mode = exclusive } ∷ l)
                (nil_of_empty h c),
          ),
        )
    Step-IsExclusive h _ (ends i _) (a, k) = (
      AllLockFile-released i h a,
      elim k [
        | inl x ↦ inl (all_shared-released i h x)
        | inr (x, e) ↦ subst (λ l. IsExclusive (released i l)) (sym e) (alone_released i x)
      ],
    )

    Reachable-AllLockFile : (h : Holders) → Reachable h → AllLockFile h × IsExclusive h
    Reachable-AllLockFile _ start = (tt, inl refl)
    Reachable-AllLockFile _ (next {h} {h'} r step) =
        Step-IsExclusive h h' step (Reachable-AllLockFile h r)

    -- However processes of one environment open the storage and end, a process that has it open for
    -- writing is the only one that has it open. Of the locks of the operating system it is asked that one on a file is
    -- given only beside compatible ones on the same file.
    pub Reachable-IsExclusive : (h : Holders) → Reachable h → IsExclusive h
    Reachable-IsExclusive h r = (Reachable-AllLockFile h r).1
