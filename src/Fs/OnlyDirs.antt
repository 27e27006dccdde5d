-- ===== src/Fs/OnlyDirs.antt =====
-- The directories among the files, and how the operations on one path change their counts.
use pakstak.Base.{
  ℕ, Text, ◌≤◌, ◌≡◌, refl, true, false, Bool-cases, Option-cases, inl, inr, some, [], ◌∷◌, length,
  arith, if◌then◌else◌,
}
use pakstak.Fs.Paths.{FilePath, path_dec}
use pakstak.Fs.Files.{Files, Node, lookup, put, without, node_is_dir, regular_file, is_dir_at}
use pakstak.Fs.Counts.{count, below-lt-count, count-put, count-without-le}
use pakstak.Fs.World.{set_mode_at, remove_file_at}
use pakstak.Fs.Attributes.{set_xattr_at, set_xattr_at-cases, create_new_at, with_xattr}
use pakstak.Fs.DirectoryLaws.{
  KeepsDirs, KeepsDirs-refl, KeepsDirs-trans, set_xattr_at-KeepsDirs, set_mode_at-KeepsDirs,
  create_new_at-KeepsDirs, remove_file_at-KeepsDirs,
}

unfoldable pub only_dirs : Files → Files
only_dirs [] = []
only_dirs ((q, n) ∷ fs) = let rest = only_dirs fs in if node_is_dir n then (q, n) ∷ rest else rest

pub length-only_dirs : (fs : Files) → length (only_dirs fs) ≤ length fs
unfolding only_dirs
length-only_dirs [] = omega arith
length-only_dirs ((q, n) ∷ fs) = ground (arith, length-only_dirs fs)

pub lookup-only_dirs :
    (p : FilePath) (n : Node) (fs : Files)
    → lookup p fs ≡ some n
    → node_is_dir n ≡ true
    → lookup p (only_dirs fs) ≡ some n
unfolding lookup only_dirs
lookup-only_dirs p n [] h k = cc
lookup-only_dirs p n ((q, m) ∷ fs) h k = elim (path_dec p q) [
  | yes e ↦ ground (arith, e, h, k)
  | no ne ↦ ground (arith, ne, h, lookup-only_dirs p n fs)
]

only_dirs-without :
    (p : FilePath) (fs : Files) → only_dirs (without p fs) ≡ without p (only_dirs fs)
unfolding without only_dirs
only_dirs-without p [] = refl
only_dirs-without p ((q, n) ∷ fs) = ground (arith, only_dirs-without p fs)

-- No directory is lost, and none is new.
pub record SameDirs (fs fs' : Files) : Type 0 where
  pub kept : KeepsDirs fs fs'
  pub fewer : (q : FilePath) → count q (only_dirs fs') ≤ count q (only_dirs fs)

pub SameDirs-refl : (fs : Files) → SameDirs fs fs
SameDirs-refl fs = record { kept = KeepsDirs-refl fs; fewer = λ q. omega arith }

pub SameDirs-trans : (fs gs hs : Files) → SameDirs fs gs → SameDirs gs hs → SameDirs fs hs
SameDirs-trans fs gs hs h k = record {
  kept = KeepsDirs-trans fs gs hs h.kept k.kept;
  fewer = λ q. omega (arith, h.fewer q, k.fewer q);
}

abbrev Fewer : Files → Files → Type 0
Fewer fs fs' = (q : FilePath) → count q (only_dirs fs') ≤ count q (only_dirs fs)

without-Fewer : (p : FilePath) (fs : Files) → Fewer fs (without p fs)
without-Fewer p fs q = rw (only_dirs-without p fs) (count-without-le p q (only_dirs fs))

put_file-Fewer :
    (p : FilePath) (m : Node) (fs : Files) → node_is_dir m ≡ false → Fewer fs (put p m fs)
unfolding put only_dirs
put_file-Fewer p m fs k q = rw k (without-Fewer p fs q)

put_dir-Fewer :
    (p : FilePath) (n m : Node) (fs : Files)
    → lookup p fs ≡ some n
    → node_is_dir n ≡ true
    → node_is_dir m ≡ true
    → Fewer fs (put p m fs)
unfolding put only_dirs
put_dir-Fewer p n m fs h i k q =
    rw (k, only_dirs-without p fs) (count-put p q (only_dirs fs) n m (lookup-only_dirs p n fs h i))

put-Fewer :
    (p : FilePath) (n m : Node) (fs : Files)
    → lookup p fs ≡ some n
    → m.kind ≡ n.kind
    → Fewer fs (put p m fs)
put-Fewer p n m fs h k = elim (Bool-cases (node_is_dir n)) [
  | inl e ↦ put_dir-Fewer p n m fs h e (rw k e)
  | inr e ↦ put_file-Fewer p m fs (rw k e)
]

set_xattr_at-Fewer :
    (p : FilePath) (name value : Text) (fs : Files) → Fewer fs (set_xattr_at p name value fs).1
set_xattr_at-Fewer p name value fs = elim (set_xattr_at-cases p name value fs) [
  | inl e ↦ rw e (λ q. omega arith)
  | inr (n, h, e) ↦ rw e (put-Fewer p n (with_xattr name value n) fs h refl)
]

set_mode_at-Fewer : (p : FilePath) (mode : ℕ) (fs : Files) → Fewer fs (set_mode_at p mode fs).1
unfolding set_mode_at
set_mode_at-Fewer p mode fs = elim (Option-cases (lookup p fs)) [
  | inl e ↦ rw (e, set_mode_at) (λ q. omega arith)
  | inr (n, e) ↦ rw (e, set_mode_at) (put-Fewer p n (record n { mode = mode }) fs e refl)
]

create_new_at-Fewer : (p : FilePath) (fs : Files) → Fewer fs (create_new_at p fs).1
unfolding create_new_at
create_new_at-Fewer p fs q = ground (arith, put_file-Fewer p (regular_file []) fs refl q)

remove_file_at-Fewer : (p : FilePath) (fs : Files) → Fewer fs (remove_file_at p fs).1
unfolding remove_file_at
remove_file_at-Fewer p fs q = ground (arith, without-Fewer p fs q)

pub set_xattr_at-SameDirs :
    (p : FilePath) (name value : Text) (fs : Files) → SameDirs fs (set_xattr_at p name value fs).1
set_xattr_at-SameDirs p name value fs = record {
  kept = set_xattr_at-KeepsDirs p name value fs;
  fewer = set_xattr_at-Fewer p name value fs;
}

pub set_mode_at-SameDirs :
    (p : FilePath) (mode : ℕ) (fs : Files) → SameDirs fs (set_mode_at p mode fs).1
set_mode_at-SameDirs p mode fs = record {
  kept = set_mode_at-KeepsDirs p mode fs;
  fewer = set_mode_at-Fewer p mode fs;
}

pub create_new_at-SameDirs : (p : FilePath) (fs : Files) → SameDirs fs (create_new_at p fs).1
create_new_at-SameDirs p fs = record {
  kept = create_new_at-KeepsDirs p fs;
  fewer = create_new_at-Fewer p fs;
}

pub remove_file_at-SameDirs : (p : FilePath) (fs : Files) → SameDirs fs (remove_file_at p fs).1
remove_file_at-SameDirs p fs = record {
  kept = remove_file_at-KeepsDirs p fs;
  fewer = remove_file_at-Fewer p fs;
}

-- A directory is one of the directories at or below it.
pub counted : (p : FilePath) (fs : Files) → is_dir_at p fs ≡ true → 1 ≤ count p (only_dirs fs)
unfolding is_dir_at
counted p fs h = elim (Option-cases (lookup p fs)) [
  | inl e ↦ ground (arith, e, h)
  | inr (n, e) ↦
      let dir : node_is_dir n ≡ true = ground (arith, e, h) in
      omega (arith, below-lt-count p (only_dirs fs) n (lookup-only_dirs p n fs e dir))
]
