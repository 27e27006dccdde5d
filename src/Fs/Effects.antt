-- ===== src/Fs/Effects.antt =====
-- What each operation leaves at a path that it is not about.
use mathlib.Core.List.{append_assoc, append-nil}
use pakstak.Base.{
  true, Option-cases, Text, ◌≡◌, ◌≢◌, ◌⊎◌, inl, inr, refl, ap, sym, ◌∙◌, none, some, [], ◌∷◌, ◌++◌,
  arith, ok, ℕ, length, Option-cases,
}
use pakstak.Fs.Paths.{FilePath}
use pakstak.Fs.Files.{
  exists_at, is_dir_at, Node, Files, new_directory, regular_file, strip, lookup, put,
}
use pakstak.Fs.FileLaws.{
  strip-append, lookup-put, lookup-without, lookup-move_tree, lookup-remove_tree_outside,
  ne_of_strip,
}
use pakstak.Fs.World.{
  create_below, write_at, rename_at, remove_file_at, open_create_at, set_mode_at, remove_dir_all_at,
}

-- What stood at a path stands there still; where nothing stood a directory may have been made.
abbrev pub Unharmed : FilePath → Files → Files → Type 0
Unharmed q fs fs' =
    (lookup q fs' ≡ lookup q fs) ⊎ ((lookup q fs ≡ none) × (lookup q fs' ≡ some new_directory))

pub Unharmed-trans :
    (q : FilePath) (fs gs hs : Files) → Unharmed q fs gs → Unharmed q gs hs → Unharmed q fs hs
Unharmed-trans q fs gs hs h k = ground arith

pub create_below-Unharmed :
    (q above p : FilePath) (fs : Files) → Unharmed q fs (create_below above p fs).1
unfolding create_below
create_below-Unharmed q above [] fs = inl refl
create_below-Unharmed q above (c ∷ p) fs = ground (
  arith,
  lookup-put (above ++ c ∷ []) q new_directory fs,
  create_below-Unharmed q (above ++ c ∷ []) p (put (above ++ c ∷ []) new_directory fs),
  create_below-Unharmed q (above ++ c ∷ []) p fs,
)

-- Only the directories on the way are made.
pub create_below_outside :
    (q above p : FilePath) (fs : Files)
    → strip q (above ++ p) ≡ none
    → lookup q (create_below above p fs).1 ≡ lookup q fs
unfolding create_below
create_below_outside q above [] fs h = refl
create_below_outside q above (c ∷ p) fs h =
    let h' : strip q ((above ++ c ∷ []) ++ p) ≡ none = rw (append_assoc above (c ∷ []) p) h in
    ground (
      arith,
      lookup-put (above ++ c ∷ []) q new_directory fs,
      strip-append (above ++ c ∷ []) p,
      h',
      create_below_outside q (above ++ c ∷ []) p (put (above ++ c ∷ []) new_directory fs),
      create_below_outside q (above ++ c ∷ []) p fs,
    )

pub write_at_outside :
    (q p : FilePath) (bytes : Text) (fs : Files)
    → q ≢ p
    → lookup q (write_at p bytes fs).1 ≡ lookup q fs
unfolding write_at
write_at_outside q p bytes fs h = ground (arith, lookup-put p q (regular_file bytes) fs)

pub rename_at_outside :
    (q a b : FilePath) (fs : Files)
    → strip a q ≡ none
    → strip b q ≡ none
    → lookup q (rename_at a b fs).1 ≡ lookup q fs
unfolding rename_at
rename_at_outside q a b fs h k = ground (arith, lookup-move_tree a b q fs)

pub remove_file_at_outside :
    (q p : FilePath) (fs : Files) → q ≢ p → lookup q (remove_file_at p fs).1 ≡ lookup q fs
unfolding remove_file_at
remove_file_at_outside q p fs h = ground (arith, lookup-without p q fs)

pub open_create_at_outside :
    (q p : FilePath) (fs : Files) → q ≢ p → lookup q (open_create_at p fs).1 ≡ lookup q fs
unfolding open_create_at
open_create_at_outside q p fs h = ground (arith, lookup-put p q (regular_file []) fs)

pub set_mode_at_outside :
    (p q : FilePath) (mode : ℕ) (fs : Files)
    → strip p q ≡ none
    → lookup q (set_mode_at p mode fs).1 ≡ lookup q fs
unfolding set_mode_at
set_mode_at_outside p q mode fs h = elim (Option-cases (lookup p fs)) [
  | inl e ↦ ground arith
  | inr (n, e) ↦
      rw (e, set_mode_at)
        (ground (arith, lookup-put p q (record n { mode = mode }) fs, ne_of_strip p q h))
]

pub remove_dir_all_at_outside :
    (p q : FilePath) (fs : Files)
    → strip p q ≡ none
    → lookup q (remove_dir_all_at p fs).1 ≡ lookup q fs
unfolding remove_dir_all_at
remove_dir_all_at_outside p q fs h = ground (
  arith,
  ne_of_strip p q h,
  lookup-without p q fs,
  lookup-remove_tree_outside p q (length fs) fs h,
)

-- What succeeded.
pub lookup-write_at :
    (p : FilePath) (bytes : Text) (fs : Files)
    → (write_at p bytes fs).0 ≡ ok tt
    → lookup p (write_at p bytes fs).1 ≡ some (regular_file bytes)
unfolding write_at
lookup-write_at p bytes fs h = ground (arith, lookup-put p p (regular_file bytes) fs)

pub lookup-rename_at :
    (a b : FilePath) (fs : Files)
    → strip a b ≡ none
    → (rename_at a b fs).0 ≡ ok tt
    → lookup b (rename_at a b fs).1 ≡ lookup a fs
unfolding rename_at
lookup-rename_at a b fs h k =
    let e : strip b b ≡ some [] = ap (strip b) (sym (append-nil b)) ∙ strip-append b [] in
    let e' : a ++ [] ≡ a = append-nil a in ground (arith, lookup-move_tree a b b fs, e, e')

pub lookup-rename_at-below :
    (a b r : FilePath) (fs : Files)
    → strip a b ≡ none
    → (rename_at a b fs).0 ≡ ok tt
    → lookup (b ++ r) (rename_at a b fs).1 ≡ lookup (a ++ r) fs
unfolding rename_at
lookup-rename_at-below a b r fs h k =
    ground (arith, lookup-move_tree a b (b ++ r) fs, strip-append b r)

pub rename_at_failed :
    (a b : FilePath) (fs : Files) → (rename_at a b fs).0 ≢ ok tt → (rename_at a b fs).1 ≡ fs
unfolding rename_at
rename_at_failed a b fs h = ground arith

pub open_create_at-exists :
    (p : FilePath) (fs : Files)
    → (open_create_at p fs).0 ≡ ok tt
    → exists_at p (open_create_at p fs).1 ≡ true
unfolding open_create_at exists_at
open_create_at-exists p fs h = ground (arith, lookup-put p p (regular_file []) fs)

-- All that was there is there still.
pub record Grows (fs fs' : Files) : Type 0 where
  pub at : (q : FilePath) (n : Node) → lookup q fs ≡ some n → lookup q fs' ≡ some n

pub Grows-refl : (fs : Files) → Grows fs fs
Grows-refl fs = record { at = λ q n h. h }

pub Grows-trans : (fs gs hs : Files) → Grows fs gs → Grows gs hs → Grows fs hs
Grows-trans fs gs hs h k = record { at = λ q n e. k.at q n (h.at q n e) }

pub create_below-Grows : (above p : FilePath) (fs : Files) → Grows fs (create_below above p fs).1
create_below-Grows above p fs = record {
  at = λ q n h. ground (arith, create_below-Unharmed q above p fs);
}

pub open_create_at-Grows : (p : FilePath) (fs : Files) → Grows fs (open_create_at p fs).1
unfolding open_create_at
open_create_at-Grows p fs = record {
  at = λ q n h. ground (arith, lookup-put p q (regular_file []) fs);
}

pub exists_at-Grows :
    (p : FilePath) (fs gs : Files) → Grows fs gs → exists_at p fs ≡ true → exists_at p gs ≡ true
unfolding exists_at
exists_at-Grows p fs gs h k = elim (Option-cases (lookup p fs)) [
  | inl e ↦ ground arith
  | inr (n, e) ↦ ground (arith, h.at p n e)
]

pub is_dir_at-Grows :
    (p : FilePath) (fs gs : Files) → Grows fs gs → is_dir_at p fs ≡ true → is_dir_at p gs ≡ true
unfolding is_dir_at
is_dir_at-Grows p fs gs h k = elim (Option-cases (lookup p fs)) [
  | inl e ↦ ground arith
  | inr (n, e) ↦ ground (arith, h.at p n e)
]
