-- ===== src/Fs/Attributes.antt =====
-- Extended attributes, and files that must be new.
use pakstak.Base.{
  Text, ◌==◌, Result, ok, err, Bool, false, ◌||◌, Option, none, some, contains, List, [], ◌∷◌, ◌≡◌,
  ◌⊎◌, refl, ◌≢◌, arith, if◌then◌else◌, Option-cases, inl, inr,
}
use pakstak.Fs.Paths.{FilePath, resolve, drop_last}
use pakstak.Fs.Files.{
  Files, Node, Kind, regular, directory, symlink, regular_file, lookup, put, is_dir_at,
}
use pakstak.Fs.FileLaws.{lookup-put}
use pakstak.Fs.World.{IoKind, not_found, already_exists, Io, operation}

-- The value of an attribute is that of its first entry.
unfoldable pub xattr : Text → List (Text × Text) → Option Text
xattr name [] = none
xattr name ((key, value) ∷ rest) =
    let other = xattr name rest in if name == key then some value else other

abbrev pub with_xattr : Text → Text → Node → Node
with_xattr name value n = record n { xattrs = (name, value) ∷ n.xattrs }

unfoldable pub set_xattr_at : FilePath → Text → Text → Files → Result IoKind (Unit {0}) × Files
set_xattr_at p name value fs = elim (lookup p fs) [
  | none ↦ (err not_found, fs)
  | some n ↦ elim n.kind [
    | symlink _ ↦ (err not_found, fs)
    | regular _ ↦ (ok tt, put p (with_xattr name value n) fs)
    | directory ↦ (ok tt, put p (with_xattr name value n) fs)
  ]
]

-- `libc::setxattr` without flags
unfoldable pub set_xattr : FilePath → Text → Text → Io IoKind (Unit {0})
set_xattr p name value = operation (set_xattr_at (resolve p) name value) (λ n fs. fs)

unfoldable pub create_new_at : FilePath → Files → Result IoKind (Unit {0}) × Files
create_new_at p fs = elim (lookup p fs) [
  | some n ↦ (err already_exists, fs)
  | none ↦
      if is_dir_at (drop_last p) fs
      then (ok tt, put p (regular_file []) fs)
      else (err not_found, fs)
]

-- `File::create_new`
unfoldable pub create_new : FilePath → Io IoKind (Unit {0})
create_new p = operation (create_new_at (resolve p)) (λ n fs. fs)

-- Whether a path holds a zero byte, which no `CString` may.
abbrev pub has_nul : FilePath → Bool
has_nul [] = false
has_nul (c ∷ p) = contains c 0 || has_nul p

-- An attribute is set on a file or a directory, and nothing is done elsewhere.
pub set_xattr_at-cases :
    (p : FilePath) (name value : Text) (fs : Files)
    → (set_xattr_at p name value fs ≡ (err not_found, fs))
      ⊎ ((n : Node) × (lookup p fs ≡ some n)
          × (set_xattr_at p name value fs ≡ (ok tt, put p (with_xattr name value n) fs)))
unfolding set_xattr_at
set_xattr_at-cases p name value fs = elim (Option-cases (lookup p fs)) [
  | inl e ↦ inl (ground (arith, e))
  | inr (n, e) ↦ by_kind n e n.kind refl
]
  where
    by_kind :
        (n : Node)
        → lookup p fs ≡ some n
        → (k : Kind) → n.kind ≡ k
        → (set_xattr_at p name value fs ≡ (err not_found, fs))
          ⊎ ((m : Node) × (lookup p fs ≡ some m)
              × (set_xattr_at p name value fs ≡ (ok tt, put p (with_xattr name value m) fs)))
    by_kind n e (symlink _) k = inl (ground (arith, e, k))
    by_kind n e (regular _) k = inr (n, e, ground (arith, e, k))
    by_kind n e directory k = inr (n, e, ground (arith, e, k))

pub set_xattr_at_outside :
    (p q : FilePath) (name value : Text) (fs : Files)
    → q ≢ p
    → lookup q (set_xattr_at p name value fs).1 ≡ lookup q fs
unfolding set_xattr_at
set_xattr_at_outside p q name value fs h = elim (Option-cases (lookup p fs)) [
  | inl e ↦ ground arith
  | inr (n, e) ↦ rw (e, set_xattr_at) (ground (arith, lookup-put p q (with_xattr name value n) fs))
]

pub create_new_at_outside :
    (p q : FilePath) (fs : Files) → q ≢ p → lookup q (create_new_at p fs).1 ≡ lookup q fs
unfolding create_new_at
create_new_at_outside p q fs h = ground (arith, lookup-put p q (regular_file []) fs)
