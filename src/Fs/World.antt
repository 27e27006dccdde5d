-- ===== src/Fs/World.antt =====
-- Operations on the file system, in a monad of state and failure. An operation may also be cut
-- short, at any point and leaving its work half done: the faults of a world say where.
use pakstak.Base.{
  ℕ, Text, Bool, true, false, not, Option, none, some, List, [], ◌∷◌, ◌++◌, Result, ok, err,
  is_empty, if◌then◌else◌, take, length,
}
use pakstak.Fs.Paths.{FilePath, resolve, drop_last}
use pakstak.Fs.Files.{
  regular, directory, symlink, Node, Files, regular_file, new_directory, strip, lookup, put,
  without, move_tree, remove_tree, tree_open, names, node_is_dir, is_dir_at, is_file_at, exists_at,
}

-- `io::ErrorKind`, where `fault` is any error that the tree of files does not explain.
pub data IoKind : Type 0 where
  not_found not_a_directory is_a_directory not_empty invalid_input already_exists : IoKind
  permission_denied would_block fault : IoKind

-- The files, and for each operation to come whether it is cut short, and after how much work.
pub record World : Type 0 where
  pub files : Files
  pub faults : List (Option ℕ)

-- A world where nothing is cut short.
abbrev pub still : Files → World
still fs = record { files = fs; faults = [] }

abbrev pub Io : Type 0 → Type 0 → Type 0
Io E A = World → Result E A × World

-- An operation by its effect, and by its effect when it is cut short.
unfoldable pub operate :
    {A : Type 0}
    → (Files → Result IoKind A × Files)
    → (ℕ → Files → Files)
    → Files
    → List (Option ℕ)
    → Result IoKind A × World
operate act partial fs [] = let (r, fs') = act fs in (r, record { files = fs'; faults = [] })
operate act partial fs (none ∷ rest) =
    let (r, fs') = act fs in (r, record { files = fs'; faults = rest })
operate act partial fs (some n ∷ rest) = (err fault, record { files = partial n fs; faults = rest })

abbrev pub operation :
    {A : Type 0} → (Files → Result IoKind A × Files) → (ℕ → Files → Files) → Io IoKind A
operation act partial w = operate act partial w.files w.faults

-- `create_dir_all`, below the directory `above`.
unfoldable pub create_below : FilePath → FilePath → Files → Result IoKind (Unit {0}) × Files
create_below above [] fs = (ok tt, fs)
create_below above (c ∷ p) fs =
    let here = above ++ c ∷ [] in
    elim (lookup here fs) [
      | none ↦ create_below here p (put here new_directory fs)
      | some n ↦ elim (node_is_dir n) [
        | true ↦ create_below here p fs
        | false ↦ (err not_a_directory, fs)
      ]
    ]

unfoldable pub create_dir_all : FilePath → Io IoKind (Unit {0})
create_dir_all p =
    operation (create_below [] (resolve p)) (λ n fs. (create_below [] (take n (resolve p)) fs).1)

-- What writing to a path does: a directory above it must be there, and none at it.
unfoldable pub write_at : FilePath → Text → Files → Result IoKind (Unit {0}) × Files
write_at p bytes fs =
    if not (is_dir_at (drop_last p) fs)
    then (err not_found, fs)
    else if is_dir_at p fs
    then (err is_a_directory, fs)
    else (ok tt, put p (regular_file bytes) fs)

-- `fs::write`: cut short, it leaves the beginning of what was to be written.
unfoldable pub write : FilePath → Text → Io IoKind (Unit {0})
write p bytes =
    operation (write_at (resolve p) bytes) (λ n fs. (write_at (resolve p) (take n bytes) fs).1)

unfoldable pub read_at : FilePath → Files → Result IoKind Text
read_at p fs = elim (lookup p fs) [
  | none ↦ err not_found
  | some n ↦ elim n.kind [
    | regular bytes ↦ ok bytes
    | directory ↦ err is_a_directory
    | symlink _ ↦ err not_found
  ]
]

-- `fs::read`
unfoldable pub read : FilePath → Io IoKind Text
read p = operation (λ fs. (read_at (resolve p) fs, fs)) (λ n fs. fs)

-- Whether a file may be put at `b` in a move of the node `n`.
unfoldable pub may_replace : Node → FilePath → Files → Result IoKind (Unit {0})
may_replace n b fs = elim (lookup b fs) [
  | none ↦ if is_dir_at (drop_last b) fs then ok tt else err not_found
  | some m ↦
      if node_is_dir n
      then if node_is_dir m
        then if is_empty (names b fs) then ok tt else err not_empty
        else err not_a_directory
      else if node_is_dir m
      then err is_a_directory
      else ok tt
]

unfoldable pub rename_at : FilePath → FilePath → Files → Result IoKind (Unit {0}) × Files
rename_at a b fs = elim (lookup a fs) [
  | none ↦ (err not_found, fs)
  | some n ↦ elim (strip a b) [
    | some r ↦ if is_empty r then (ok tt, fs) else (err invalid_input, fs)
    | none ↦ elim (may_replace n b fs) [ err e ↦ (err e, fs) | ok _ ↦ (ok tt, move_tree a b fs) ]
  ]
]

-- `fs::rename`, which the system makes whole or not at all.
unfoldable pub rename : FilePath → FilePath → Io IoKind (Unit {0})
rename a b = operation (rename_at (resolve a) (resolve b)) (λ n fs. fs)

unfoldable pub remove_file_at : FilePath → Files → Result IoKind (Unit {0}) × Files
remove_file_at p fs = elim (lookup p fs) [
  | none ↦ (err not_found, fs)
  | some n ↦ if node_is_dir n then (err is_a_directory, fs) else (ok tt, without p fs)
]

-- `fs::remove_file`
unfoldable pub remove_file : FilePath → Io IoKind (Unit {0})
remove_file p = operation (remove_file_at (resolve p)) (λ n fs. fs)

-- The queries of `Path`, which answer `false` where there is nothing.
abbrev pub is_dir : FilePath → World → Bool
is_dir p w = is_dir_at (resolve p) w.files

abbrev pub is_file : FilePath → World → Bool
is_file p w = is_file_at (resolve p) w.files

abbrev pub exists : FilePath → World → Bool
exists p w = exists_at (resolve p) w.files

unfoldable pub names_at : FilePath → Files → Result IoKind (List Text)
names_at p fs = elim (lookup p fs) [
  | none ↦ err not_found
  | some n ↦ if node_is_dir n then ok (names p fs) else err not_a_directory
]

-- `fs::read_dir`, run to its end.
unfoldable pub read_dir : FilePath → Io IoKind (List Text)
read_dir p = operation (λ fs. (names_at (resolve p) fs, fs)) (λ n fs. fs)

unfoldable pub open_create_at : FilePath → Files → Result IoKind (Unit {0}) × Files
open_create_at p fs = elim (lookup p fs) [
  | some n ↦ if node_is_dir n then (err is_a_directory, fs) else (ok tt, fs)
  | none ↦
      if is_dir_at (drop_last p) fs
      then (ok tt, put p (regular_file []) fs)
      else (err not_found, fs)
]

-- `OpenOptions::new().write(true).create(true).truncate(false).open(…)`
unfoldable pub open_create : FilePath → Io IoKind (Unit {0})
open_create p = operation (open_create_at (resolve p)) (λ n fs. fs)

-- `fs::symlink_metadata`
unfoldable pub metadata_at : FilePath → Files → Result IoKind Node
metadata_at p fs = elim (lookup p fs) [ none ↦ err not_found | some n ↦ ok n ]

unfoldable pub symlink_metadata : FilePath → Io IoKind Node
symlink_metadata p = operation (λ fs. (metadata_at (resolve p) fs, fs)) (λ n fs. fs)

unfoldable pub set_mode_at : FilePath → ℕ → Files → Result IoKind (Unit {0}) × Files
set_mode_at p mode fs = elim (lookup p fs) [
  | none ↦ (err not_found, fs)
  | some n ↦ (ok tt, put p (record n { mode = mode }) fs)
]

-- `fs::set_permissions`
unfoldable pub set_permissions : FilePath → ℕ → Io IoKind (Unit {0})
set_permissions p mode = operation (set_mode_at (resolve p) mode) (λ n fs. fs)

-- A directory is removed with all that is below it, a symbolic link alone.
unfoldable pub remove_dir_all_at : FilePath → Files → Result IoKind (Unit {0}) × Files
remove_dir_all_at p fs = elim (lookup p fs) [
  | none ↦ (err not_found, fs)
  | some n ↦ elim n.kind [
    | regular _ ↦ (err not_a_directory, fs)
    | symlink _ ↦ (ok tt, without p fs)
    | directory ↦
        if tree_open p fs
        then (ok tt, remove_tree p (length fs) fs)
        else (err permission_denied, fs)
  ]
]

-- `fs::remove_dir_all`: cut short, it leaves a part of the tree.
unfoldable pub remove_dir_all : FilePath → Io IoKind (Unit {0})
remove_dir_all p = operation (remove_dir_all_at (resolve p)) (λ n fs. remove_tree (resolve p) n fs)
