-- ===== src/Fs/Directories.antt =====
-- When directories can be made, and that they are there afterwards.
use mathlib.Core.List.{append_assoc}
use pakstak.Base.{
  Text, ◌≡◌, ◌⊎◌, inl, inr, refl, ap, sym, ◌∙◌, none, some, Option-cases, Bool-cases, true, ok, [],
  ◌∷◌, ◌++◌, arith,
}
use pakstak.Fs.Paths.{FilePath}
use pakstak.Fs.Files.{Files, new_directory, lookup, put, is_dir_at, node_is_dir}
use pakstak.Fs.FileLaws.{lookup-put}
use pakstak.Fs.Effects.{Unharmed}
use pakstak.Fs.World.{create_below}

-- Nothing stands at the path, or a directory.
abbrev IsFree : FilePath → Files → Type 0
IsFree q fs = (lookup q fs ≡ none) ⊎ (is_dir_at q fs ≡ true)

-- On the way from `above` there is no file that is no directory.
abbrev pub OpenBelow : FilePath → FilePath → Files → Type 0
OpenBelow above [] fs = Unit
OpenBelow above (c ∷ p) fs = IsFree (above ++ c ∷ []) fs × OpenBelow (above ++ c ∷ []) p fs

pub is_dir_at-Unharmed :
    (q : FilePath) (fs gs : Files)
    → Unharmed q fs gs
    → is_dir_at q fs ≡ true
    → is_dir_at q gs ≡ true
unfolding is_dir_at
is_dir_at-Unharmed q fs gs h k = ground (arith, h)

IsFree-Unharmed : (q : FilePath) (fs gs : Files) → Unharmed q fs gs → IsFree q fs → IsFree q gs
unfolding is_dir_at
IsFree-Unharmed q fs gs h k = ground (arith, h, k)

pub OpenBelow-Unharmed :
    (above p : FilePath) (fs gs : Files)
    → ((q : FilePath) → Unharmed q fs gs)
    → OpenBelow above p fs
    → OpenBelow above p gs
OpenBelow-Unharmed above [] fs gs h k = tt
OpenBelow-Unharmed above (c ∷ p) fs gs h (k, ks) = (
  IsFree-Unharmed (above ++ c ∷ []) fs gs (h (above ++ c ∷ [])) k,
  OpenBelow-Unharmed (above ++ c ∷ []) p fs gs h ks,
)

-- The files with a directory at the path.
abbrev made : FilePath → Files → Files
made q fs = elim (lookup q fs) [ none ↦ put q new_directory fs | some n ↦ fs ]

made-Unharmed : (p : FilePath) (fs : Files) (q : FilePath) → Unharmed q fs (made p fs)
made-Unharmed p fs q = ground (arith, lookup-put p q new_directory fs)

is_dir_at-made : (p : FilePath) (fs : Files) → IsFree p fs → is_dir_at p (made p fs) ≡ true
unfolding is_dir_at
is_dir_at-made p fs h = ground (arith, h, lookup-put p p new_directory fs)

create_below-cons :
    (above : FilePath) (c : Text) (p : FilePath) (fs : Files)
    → IsFree (above ++ c ∷ []) fs
    → create_below above (c ∷ p) fs ≡ create_below (above ++ c ∷ []) p (made (above ++ c ∷ []) fs)
unfolding create_below is_dir_at
create_below-cons above c p fs h = elim (Option-cases (lookup (above ++ c ∷ []) fs)) [
  | inl e ↦ ground (arith, e)
  | inr (n, e) ↦ ground (arith, h, e)
]

pub create_below_succeeds :
    (above p : FilePath) (fs : Files) → OpenBelow above p fs → (create_below above p fs).0 ≡ ok tt
unfolding create_below
create_below_succeeds above [] fs h = refl
create_below_succeeds above (c ∷ p) fs (h, hs) =
    let here = above ++ c ∷ [] in
    ap (λ o. o.0) (create_below-cons above c p fs h)
    ∙ create_below_succeeds here p (made here fs)
        (OpenBelow-Unharmed here p fs (made here fs) (made-Unharmed here fs) hs)

pub is_dir_at-create_below :
    (above : FilePath) (c : Text) (p : FilePath) (fs : Files)
    → OpenBelow above (c ∷ p) fs
    → is_dir_at (above ++ c ∷ p) (create_below above (c ∷ p) fs).1 ≡ true
is_dir_at-create_below above c [] fs (h, hs) =
    ap (λ o. is_dir_at (above ++ c ∷ []) o.1) (create_below-cons above c [] fs h)
    ∙ unfold create_below in is_dir_at-made (above ++ c ∷ []) fs h
is_dir_at-create_below above c (d ∷ p) fs (h, hs) =
    let here = above ++ c ∷ [] in
    ap (λ o. is_dir_at (above ++ c ∷ d ∷ p) o.1) (create_below-cons above c (d ∷ p) fs h)
    ∙ ap (λ x. is_dir_at x (create_below here (d ∷ p) (made here fs)).1)
        (sym (append_assoc above (c ∷ []) (d ∷ p)))
    ∙ is_dir_at-create_below here d p (made here fs)
        (OpenBelow-Unharmed here (d ∷ p) fs (made here fs) (made-Unharmed here fs) hs)

IsFree-before : (q : FilePath) (fs gs : Files) → Unharmed q fs gs → IsFree q gs → IsFree q fs
unfolding is_dir_at
IsFree-before q fs gs h k = ground (arith, h, k)

OpenBelow-before :
    (above p : FilePath) (fs gs : Files)
    → ((q : FilePath) → Unharmed q fs gs)
    → OpenBelow above p gs
    → OpenBelow above p fs
OpenBelow-before above [] fs gs h k = tt
OpenBelow-before above (c ∷ p) fs gs h (k, ks) = (
  IsFree-before (above ++ c ∷ []) fs gs (h (above ++ c ∷ [])) k,
  OpenBelow-before (above ++ c ∷ []) p fs gs h ks,
)

-- Directories can only be made where nothing is in the way.
create_below-OpenBelow :
    (above p : FilePath) (fs : Files) → (create_below above p fs).0 ≡ ok tt → OpenBelow above p fs
unfolding create_below is_dir_at
create_below-OpenBelow above [] fs h = tt
create_below-OpenBelow above (c ∷ p) fs h =
    let here = above ++ c ∷ [] in
    elim (Option-cases (lookup here fs)) [
      | inl e ↦ (
        inl e,
        OpenBelow-before here p fs (put here new_directory fs)
            (λ q. ground (arith, lookup-put here q new_directory fs, e))
            (create_below-OpenBelow here p (put here new_directory fs) (ground (arith, e, h))),
      )
      | inr (n, e) ↦ elim (Bool-cases (node_is_dir n)) [
        | inl f ↦
            (inr (ground (arith, e, f)), create_below-OpenBelow here p fs (ground (arith, e, f, h)))
        | inr f ↦ absurd (ground (arith, e, f, h))
      ]
    ]

-- Directories that were made are there.
create_below-is_dir_at :
    (above : FilePath) (c : Text) (p : FilePath) (fs : Files)
    → (create_below above (c ∷ p) fs).0 ≡ ok tt
    → is_dir_at (above ++ c ∷ p) (create_below above (c ∷ p) fs).1 ≡ true
create_below-is_dir_at above c p fs h =
    is_dir_at-create_below above c p fs (create_below-OpenBelow above (c ∷ p) fs h)

pub create_below-there :
    (p : FilePath) (c : Text) (q : FilePath) (fs : Files)
    → (create_below [] (p ++ c ∷ q) fs).0 ≡ ok tt
    → is_dir_at (p ++ c ∷ q) (create_below [] (p ++ c ∷ q) fs).1 ≡ true
create_below-there [] c q fs h = create_below-is_dir_at [] c q fs h
create_below-there (d ∷ p) c q fs h = create_below-is_dir_at [] d (p ++ c ∷ q) fs h

pub is_dir_at_moved :
    (q p : FilePath) (fs gs : Files) → lookup q gs ≡ lookup p fs → is_dir_at q gs ≡ is_dir_at p fs
unfolding is_dir_at
is_dir_at_moved q p fs gs h = ground (arith, h)
