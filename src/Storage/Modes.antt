-- ===== src/Storage/Modes.antt =====
-- Making one path writable, and what that leaves as it was.
use pakstak.Base.{
  ℕ, ◌+◌, ◌≤◌, ◌≡◌, refl, ap, Bool, true, false, not, nat_eq, some, List, [], ◌∷◌, All, arith, ok,
  map_err,
}
use pakstak.Fs.Paths.{FilePath, resolve}
use pakstak.Fs.Files.{Files, Node, Kind, directory, regular, symlink, lookup, put}
use pakstak.Fs.FileLaws.{lookup-put}
use pakstak.Fs.Counts.{count, count-put}
use pakstak.Fs.World.{still, operate, set_permissions, set_mode_at}
use pakstak.Storage.Action.{Action, pure, do_io, io, when}
use pakstak.Storage.Trees.{make_path_writable, set_writable, writable_mode}
use pakstak.Fs.Children.{lookup-put-there}

-- Something stands at the path.
abbrev pub IsThere : Files → FilePath → Type 0
IsThere fs path = (n : Node) × (lookup (resolve path) fs ≡ some n)

abbrev pub total : Files → List FilePath → ℕ
total fs [] = 0
total fs (path ∷ pending) = count (resolve path) fs + total fs pending

All-IsThere-put :
    (p : FilePath) (fs : Files) (n m : Node) (pending : List FilePath)
    → lookup p fs ≡ some n
    → All (IsThere fs) pending
    → All (IsThere (put p m fs)) pending
All-IsThere-put p fs n m [] h k = tt
All-IsThere-put p fs n m (path ∷ pending) h ((x, l), ks) =
    (lookup-put-there p (resolve path) fs n m x h l, All-IsThere-put p fs n m pending h ks)

total-put :
    (p : FilePath) (fs : Files) (n m : Node) (pending : List FilePath)
    → lookup p fs ≡ some n
    → total (put p m fs) pending ≤ total fs pending
total-put p fs n m [] h = omega arith
total-put p fs n m (path ∷ pending) h =
    omega (arith, count-put p (resolve path) fs n m h, total-put p fs n m pending h)

-- What a change of the mode at a path leaves as it was.
pub record Changed (p : FilePath) (n : Node) (fs fs' : Files) : Type 0 where
  pub there : (pending : List FilePath) → All (IsThere fs) pending → All (IsThere fs') pending
  pub smaller : (q : FilePath) → count q fs' ≤ count q fs
  pub node : (m : Node) × (lookup p fs' ≡ some m) × (m.kind ≡ n.kind)

Changed-refl : (p : FilePath) (n : Node) (fs : Files) → lookup p fs ≡ some n → Changed p n fs fs
Changed-refl p n fs h = record {
  there = λ pending k. k;
  smaller = λ q. omega arith;
  node = (n, h, refl);
}

Changed-put :
    (p : FilePath) (n m : Node) (fs : Files)
    → lookup p fs ≡ some n
    → m.kind ≡ n.kind
    → Changed p n fs (put p m fs)
Changed-put p n m fs h k = record {
  there = λ pending. All-IsThere-put p fs n m pending h;
  smaller = λ q. count-put p q fs n m h;
  node = (m, ground (arith, lookup-put p p m fs), k);
}

abbrev pub Writes : FilePath → Node → Files → Action (Unit {0}) → Type 0
Writes p n fs m = (fs' : Files) × (m (still fs) ≡ (ok tt, still fs')) × Changed (resolve p) n fs fs'

set_mode_at_succeeds :
    (p : FilePath) (n : Node) (mode : ℕ) (fs : Files)
    → lookup p fs ≡ some n
    → set_mode_at p mode fs ≡ (ok tt, put p (record n { mode = mode }) fs)
unfolding set_mode_at
set_mode_at_succeeds p n mode fs h = ground (arith, h)

set_permissions-Writes :
    (p : FilePath) (n : Node) (mode : ℕ) (fs : Files)
    → lookup (resolve p) fs ≡ some n
    → Writes p n fs (do_io (set_permissions p mode))
unfolding set_permissions operate
set_permissions-Writes p n mode fs h = (
  put (resolve p) (record n { mode = mode }) fs,
  ap (λ o. (map_err io o.0, still o.1)) (set_mode_at_succeeds (resolve p) n mode fs h),
  Changed-put (resolve p) n (record n { mode = mode }) fs h refl,
)

nothing-Writes :
    (p : FilePath) (n : Node) (fs : Files)
    → lookup (resolve p) fs ≡ some n
    → Writes p n fs (pure tt)
nothing-Writes p n fs h = (fs, refl, Changed-refl (resolve p) n fs h)

when-Writes :
    (p : FilePath) (n : Node) (fs : Files) (b : Bool) (m : Action (Unit {0}))
    → lookup (resolve p) fs ≡ some n
    → Writes p n fs m
    → Writes p n fs (when b m)
when-Writes p n fs true m h k = k
when-Writes p n fs false m h k = nothing-Writes p n fs h

pub make_path_writable-Writes :
    (p : FilePath) (n : Node) (fs : Files)
    → lookup (resolve p) fs ≡ some n
    → Writes p n fs (make_path_writable p n)
unfolding make_path_writable set_writable
make_path_writable-Writes p n fs h = chosen-Writes n.kind
  where
    changed : Writes p n fs (set_writable p n)
    changed =
        when-Writes p n fs (not (nat_eq (writable_mode n) n.mode)) _ h
          (set_permissions-Writes p n (writable_mode n) fs h)

    chosen : Kind → Action (Unit {0})
    chosen k = elim k [
      | symlink target ↦ pure tt
      | regular bytes ↦ set_writable p n
      | directory ↦ set_writable p n
    ]

    chosen-Writes : (k : Kind) → Writes p n fs (chosen k)
    chosen-Writes (symlink target) = nothing-Writes p n fs h
    chosen-Writes (regular bytes) = changed
    chosen-Writes directory = changed
