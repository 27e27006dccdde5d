-- ===== src/Fs/Children.antt =====
-- What stands in a directory is there.
use pakstak.Base.{
  ◌≡◌, ◌⊎◌, refl, true, ==_iff, inl, inr, ap, ◌∙◌, Text, mem, Bool-cases, some, Option-cases, List,
  [], ◌∷◌, ◌++◌, All, arith,
}
use pakstak.Fs.Paths.{FilePath, path_dec, IsPlain}
use pakstak.Fs.Files.{Files, Node, strip, lookup, put, names, only, add_name, exists_at}
use pakstak.Fs.FileLaws.{lookup-put, strip_sound, strip-append}

pub lookup-put-there :
    (p q : FilePath) (fs : Files) (n m k : Node)
    → lookup p fs ≡ some n
    → lookup q fs ≡ some k
    → (x : Node) × (lookup q (put p m fs) ≡ some x)
lookup-put-there p q fs n m k h l = elim (path_dec p q) [
  | yes e ↦ (m, ground (arith, e, lookup-put p q m fs))
  | no ne ↦ (k, ground (arith, ne, l, lookup-put p q m fs))
]

-- The entries of a directory are there.
only_sound : (r : FilePath) (c : Text) → only r ≡ some c → r ≡ c ∷ []
unfolding only
only_sound [] c h = cc
only_sound (x ∷ []) c h = ground arith
only_sound (x ∷ y ∷ r) c h = cc

abbrev pub ChildThere : FilePath → Files → Text → Type 0
ChildThere p fs c = (n : Node) × (lookup (p ++ c ∷ []) fs ≡ some n)

lookup-later :
    (p x : FilePath) (m : Node) (fs : Files)
    → ((n : Node) × (lookup p fs ≡ some n))
    → (n : Node) × (lookup p ((x, m) ∷ fs) ≡ some n)
unfolding lookup
lookup-later p x m fs (n, h) = elim (path_dec p x) [
  | yes e ↦ (m, ground (arith, e))
  | no ne ↦ (n, ground (arith, ne, h))
]

lookup-here : (p x : FilePath) (m : Node) (fs : Files) → x ≡ p → lookup p ((x, m) ∷ fs) ≡ some m
unfolding lookup
lookup-here p x m fs e = ground (arith, e)

All-later :
    (p : FilePath) (x : FilePath) (m : Node) (fs : Files) (cs : List Text)
    → All (ChildThere p fs) cs
    → All (ChildThere p ((x, m) ∷ fs)) cs
All-later p x m fs [] h = tt
All-later p x m fs (c ∷ cs) (h, hs) =
    (lookup-later (p ++ c ∷ []) x m fs h, All-later p x m fs cs hs)

All-add_name :
    (P : Text → Type 0) (c : Text) (cs : List Text) → P c → All P cs → All P (add_name c cs)
All-add_name P c cs h hs = elim (Bool-cases (mem c cs)) [ inl e ↦ rw e hs | inr e ↦ rw e (h, hs) ]

pub names-there : (p : FilePath) (fs : Files) → All (ChildThere p fs) (names p fs)
unfolding names
names-there p [] = tt
names-there p ((x, m) ∷ fs) = elim (Option-cases (strip p x)) [
  | inl e ↦ rw (e, names) (All-later p x m fs (names p fs) (names-there p fs))
  | inr (r, e) ↦ elim (Option-cases (only r)) [
    | inl f ↦ rw (e, f, names) (All-later p x m fs (names p fs) (names-there p fs))
    | inr (c, f) ↦
        let at : x ≡ p ++ c ∷ [] = strip_sound p x r e ∙ ap (λ y. p ++ y) (only_sound r c f) in
        rw (e, f, names)
          (All-add_name (ChildThere p ((x, m) ∷ fs)) c (names p fs)
            (m, lookup-here (p ++ c ∷ []) x m fs at)
            (All-later p x m fs (names p fs) (names-there p fs)))
  ]
]

lookup-cons-cases :
    (p x : FilePath) (m : Node) (fs : Files)
    → exists_at p ((x, m) ∷ fs) ≡ true
    → (p ≡ x) ⊎ (exists_at p fs ≡ true)
unfolding exists_at lookup
lookup-cons-cases p x m fs h = elim (path_dec p x) [
  | yes e ↦ inl e
  | no ne ↦ inr (ground (arith, ne, h))
]

nothing : (q : FilePath) → exists_at q [] ≡ true → ⊥
unfolding exists_at lookup
nothing q h = cc h

mem-add_name : (c d : Text) (cs : List Text) → mem c cs ≡ true → mem c (add_name d cs) ≡ true
mem-add_name c d cs h = ground arith

mem-add_name_self : (c : Text) (cs : List Text) → mem c (add_name c cs) ≡ true
mem-add_name_self c cs = ground (arith, (==_iff c c).1 refl)

-- All that stands in a directory is listed.
pub mem-names :
    (p : FilePath) (c : Text) (fs : Files)
    → IsPlain c
    → exists_at (p ++ c ∷ []) fs ≡ true
    → mem c (names p fs) ≡ true
unfolding names only
mem-names p c [] plain h = absurd (nothing (p ++ c ∷ []) h)
mem-names p c ((x, m) ∷ fs) plain h = elim (lookup-cons-cases (p ++ c ∷ []) x m fs h) [
  | inl e ↦
      let at : strip p x ≡ some (c ∷ []) = rw (← e) (strip-append p (c ∷ [])) in
      ground (arith, at, plain, mem-add_name_self c (names p fs))
  | inr k ↦ elim (Option-cases (strip p x)) [
    | inl e ↦ rw (e, names) (mem-names p c fs plain k)
    | inr (r, e) ↦ elim (Option-cases (only r)) [
      | inl f ↦ rw (e, f, names) (mem-names p c fs plain k)
      | inr (d, f) ↦ rw (e, f, names) (mem-add_name c d (names p fs) (mem-names p c fs plain k))
    ]
  ]
]
