-- ===== src/Fs/DirectoryLaws.antt =====
-- Directories stay directories when permissions, attributes or other files change.
use pakstak.Base.{ℕ, Text, Option-cases, inl, inr, true, ◌≡◌, refl, ap, some, [], arith}
use pakstak.Fs.Paths.{FilePath, path_dec}
use pakstak.Fs.Files.{Files, Node, lookup, put, is_dir_at, regular_file}
use pakstak.Fs.FileLaws.{lookup-put, lookup-without}
use pakstak.Fs.World.{set_mode_at, remove_file_at}
use pakstak.Fs.Attributes.{set_xattr_at, set_xattr_at-cases, create_new_at, with_xattr}

pub record KeepsDirs (fs fs' : Files) : Type 0 where
  pub at : (q : FilePath) → is_dir_at q fs ≡ true → is_dir_at q fs' ≡ true

pub KeepsDirs-refl : (fs : Files) → KeepsDirs fs fs
KeepsDirs-refl fs = record { at = λ q h. h }

pub KeepsDirs-trans : (fs gs hs : Files) → KeepsDirs fs gs → KeepsDirs gs hs → KeepsDirs fs hs
KeepsDirs-trans fs gs hs h k = record { at = λ q x. k.at q (h.at q x) }

-- A node of the same kind takes the place of another.
put-KeepsDirs :
    (p : FilePath) (n m : Node) (fs : Files)
    → lookup p fs ≡ some n
    → m.kind ≡ n.kind
    → KeepsDirs fs (put p m fs)
unfolding is_dir_at
put-KeepsDirs p n m fs h k = record {
  at = λ q x. elim (path_dec p q) [
    | yes e ↦ ground (arith, lookup-put p q m fs, h, ap (λ y. lookup y fs) e, k)
    | no e ↦ ground (arith, lookup-put p q m fs)
  ];
}

pub set_xattr_at-KeepsDirs :
    (p : FilePath) (name value : Text) (fs : Files) → KeepsDirs fs (set_xattr_at p name value fs).1
set_xattr_at-KeepsDirs p name value fs = elim (set_xattr_at-cases p name value fs) [
  | inl e ↦ rw e (KeepsDirs-refl fs)
  | inr (n, h, e) ↦ rw e (put-KeepsDirs p n (with_xattr name value n) fs h refl)
]

pub set_mode_at-KeepsDirs :
    (p : FilePath) (mode : ℕ) (fs : Files) → KeepsDirs fs (set_mode_at p mode fs).1
unfolding set_mode_at
set_mode_at-KeepsDirs p mode fs = elim (Option-cases (lookup p fs)) [
  | inl e ↦ rw (e, set_mode_at) (KeepsDirs-refl fs)
  | inr (n, e) ↦ rw (e, set_mode_at) (put-KeepsDirs p n (record n { mode = mode }) fs e refl)
]

pub create_new_at-KeepsDirs : (p : FilePath) (fs : Files) → KeepsDirs fs (create_new_at p fs).1
unfolding create_new_at is_dir_at
create_new_at-KeepsDirs p fs = record {
  at = λ q x. ground (arith, lookup-put p q (regular_file []) fs);
}

pub remove_file_at-KeepsDirs : (p : FilePath) (fs : Files) → KeepsDirs fs (remove_file_at p fs).1
unfolding remove_file_at is_dir_at
remove_file_at-KeepsDirs p fs = record { at = λ q x. ground (arith, lookup-without p q fs) }
