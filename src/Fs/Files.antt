-- ===== src/Fs/Files.antt =====
-- The tree of files as a list of paths with what stands there, and what the system calls do to it.
use mathlib.Core.Logic.{ite}
use pakstak.Base.{
  ℕ, zero, suc, Text, Bool, true, false, Option, none, some, List, [], ◌∷◌, ◌++◌, if◌then◌else◌,
  nat_eq, mem, ◌/◌, ◌%◌, All, arith,
}
use pakstak.Fs.Paths.{FilePath, text_dec, path_dec, is_plain, IsPlain}

pub data Kind : Type 0 where
  regular : Text → Kind
  directory : Kind
  symlink : Text → Kind

-- A file with the permission bits of its owner and its extended attributes.
pub record Node : Type 0 where
  pub kind : Kind
  pub mode : ℕ
  pub xattrs : List (Text × Text)

abbrev pub Files : Type 0
Files = List (FilePath × Node)

-- What `fs::write` and `fs::create_dir` make, under the usual mask.
abbrev pub regular_file : Text → Node
regular_file bytes = record { kind = regular bytes; mode = 0o644; xattrs = [] }

abbrev pub new_directory : Node
new_directory = record { kind = directory; mode = 0o755; xattrs = [] }

-- The rest of a path below another one.
unfoldable pub strip : FilePath → FilePath → Option FilePath
strip [] q = some q
strip (c ∷ p) [] = none
strip (c ∷ p) (d ∷ q) = ite (text_dec c d) (strip p q) none

unfoldable pub lookup : FilePath → Files → Option Node
lookup p [] = none
lookup p ((q, n) ∷ fs) = ite (path_dec p q) (some n) (lookup p fs)

unfoldable pub without : FilePath → Files → Files
without p [] = []
without p ((q, n) ∷ fs) = let rest = without p fs in ite (path_dec p q) rest ((q, n) ∷ rest)

unfoldable pub put : FilePath → Node → Files → Files
put p n fs = (p, n) ∷ without p fs

-- The tree below `a` is moved to `b`, and what was at `b` is gone.
unfoldable pub move_tree : FilePath → FilePath → Files → Files
move_tree a b [] = []
move_tree a b ((q, n) ∷ fs) =
    let rest = move_tree a b fs in
    elim (strip a q) [
      | some r ↦ (b ++ r, n) ∷ rest
      | none ↦ elim (strip b q) [ some _ ↦ rest | none ↦ (q, n) ∷ rest ]
    ]

-- The first `k` entries of the tree at `a` are gone; for enough `k`, all are.
unfoldable pub remove_tree : FilePath → ℕ → Files → Files
remove_tree a zero fs = fs
remove_tree a (suc k) [] = []
remove_tree a (suc k) ((q, n) ∷ fs) = elim (strip a q) [
  | some _ ↦ remove_tree a k fs
  | none ↦ (q, n) ∷ remove_tree a (suc k) fs
]

unfoldable pub only : FilePath → Option Text
only (c ∷ []) = if is_plain c then some c else none
only _ = none

abbrev pub add_name : Text → List Text → List Text
add_name c names = if mem c names then names else c ∷ names

-- The names in a directory, each once, without `.` and `..`.
unfoldable pub names : FilePath → Files → List Text
unfolding only
names p [] = []
names p ((q, n) ∷ fs) =
    let rest = names p fs in
    elim (strip p q) [
      | none ↦ rest
      | some r ↦ elim (only r) [ none ↦ rest | some c ↦ add_name c rest ]
    ]

pub names-IsPlain : (p : FilePath) (fs : Files) → All IsPlain (names p fs)
unfolding names only
names-IsPlain p [] = tt
names-IsPlain p ((q, n) ∷ fs) = ground (arith, names-IsPlain p fs)

abbrev pub node_is_dir : Node → Bool
node_is_dir n = elim n.kind [ directory ↦ true | _ ↦ false ]

abbrev pub node_is_file : Node → Bool
node_is_file n = elim n.kind [ regular _ ↦ true | _ ↦ false ]

-- `Path::is_dir`, `is_file` and `exists`
unfoldable pub is_dir_at : FilePath → Files → Bool
is_dir_at p fs = elim (lookup p fs) [ none ↦ false | some n ↦ node_is_dir n ]

unfoldable pub is_file_at : FilePath → Files → Bool
is_file_at p fs = elim (lookup p fs) [ none ↦ false | some n ↦ node_is_file n ]

unfoldable pub exists_at : FilePath → Files → Bool
exists_at p fs = elim (lookup p fs) [ none ↦ false | some n ↦ true ]

-- The owner may list, change and enter every directory of the tree.
unfoldable pub tree_open : FilePath → Files → Bool
tree_open a [] = true
tree_open a ((q, n) ∷ fs) =
    let rest = tree_open a fs in
    elim (strip a q) [
      | none ↦ rest
      | some _ ↦
          if node_is_dir n then (if nat_eq (n.mode / 64 % 8) 7 then rest else false) else rest
    ]
