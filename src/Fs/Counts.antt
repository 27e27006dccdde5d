-- ===== src/Fs/Counts.antt =====
-- How many files stand at or below a path: a directory has more than its entries together.
use pakstak.Base.{
  ℕ, ◌+◌, ◌≤◌, ◌<◌, ◌≡◌, ◌≢◌, refl, ap, sym, Text, ==_iff, mem, false, Option, none, some, List, [],
  ◌∷◌, ◌++◌, length, arith,
}
use pakstak.Fs.Paths.{FilePath, path_dec}
use pakstak.Fs.Files.{Files, Node, strip, lookup, without, put, names, only}
use pakstak.Fs.FileLaws.{strip_self}

abbrev one : Option FilePath → ℕ
one none = 0
one (some r) = 1

-- One for a path that is strictly below.
abbrev one_below : Option FilePath → ℕ
one_below none = 0
one_below (some []) = 0
one_below (some (c ∷ r)) = 1

abbrev pub count : FilePath → Files → ℕ
count p [] = 0
count p ((q, n) ∷ fs) = one (strip p q) + count p fs

abbrev pub below : FilePath → Files → ℕ
below p [] = 0
below p ((q, n) ∷ fs) = one_below (strip p q) + below p fs

abbrev pub NoTwice : List Text → Type 0
NoTwice [] = Unit
NoTwice (c ∷ cs) = (mem c cs ≡ false) × NoTwice cs

pub names-NoTwice : (p : FilePath) (fs : Files) → NoTwice (names p fs)
unfolding names only
names-NoTwice p [] = tt
names-NoTwice p ((q, n) ∷ fs) = ground (arith, names-NoTwice p fs)

pub count-length : (p : FilePath) (fs : Files) → count p fs ≤ length fs
count-length p [] = omega arith
count-length p ((q, n) ∷ fs) = ground (arith, count-length p fs)

below-count : (p : FilePath) (fs : Files) → below p fs ≤ count p fs
below-count p [] = omega arith
below-count p ((q, n) ∷ fs) = ground (arith, below-count p fs)

pub below-lt-count :
    (p : FilePath) (fs : Files) (n : Node) → lookup p fs ≡ some n → below p fs < count p fs
unfolding lookup
below-lt-count p [] n h = cc
below-lt-count p ((q, m) ∷ fs) n h = elim (path_dec p q) [
  | yes e ↦
      let at : strip p q ≡ some [] = rw (sym e) (strip_self p) in
      ground (arith, at, below-count p fs)
  | no ne ↦ ground (arith, ne, h, below-lt-count p fs n)
]

-- The sum over the names in a directory.
abbrev pub count_all : FilePath → List Text → Files → ℕ
count_all p [] fs = 0
count_all p (c ∷ cs) fs = count (p ++ c ∷ []) fs + count_all p cs fs

abbrev hits : FilePath → List Text → FilePath → ℕ
hits p [] q = 0
hits p (c ∷ cs) q = one (strip (p ++ c ∷ []) q) + hits p cs q

count_all-nil : (p : FilePath) (cs : List Text) → count_all p cs [] ≡ 0
count_all-nil p [] = refl
count_all-nil p (c ∷ cs) = omega (arith, count_all-nil p cs)

count_all-cons :
    (p : FilePath) (cs : List Text) (q : FilePath) (n : Node) (fs : Files)
    → count_all p cs ((q, n) ∷ fs) ≡ hits p cs q + count_all p cs fs
count_all-cons p [] q n fs = refl
count_all-cons p (c ∷ cs) q n fs = omega (arith, count_all-cons p cs q n fs)

-- A path below a child is strictly below, and below no other child.
strip-child-cases :
    (p : FilePath) (c : Text) (q : FilePath) → one (strip (p ++ c ∷ []) q) ≤ one_below (strip p q)
unfolding strip
strip-child-cases [] c [] = ground arith
strip-child-cases [] c (d ∷ q) = ground arith
strip-child-cases (e ∷ p) c [] = ground arith
strip-child-cases (e ∷ p) c (d ∷ q) = ground (arith, strip-child-cases p c q)

strip_two :
    (p : FilePath) (c d : Text) (q : FilePath)
    → c ≢ d
    → one (strip (p ++ c ∷ []) q) + one (strip (p ++ d ∷ []) q) ≤ 1
unfolding strip
strip_two [] c d [] h = ground arith
strip_two [] c d (e ∷ q) h = ground arith
strip_two (e ∷ p) c d [] h = ground arith
strip_two (e ∷ p) c d (x ∷ q) h = ground (arith, strip_two p c d q h)

hits_none :
    (p : FilePath) (c : Text) (cs : List Text) (q : FilePath)
    → mem c cs ≡ false
    → one (strip (p ++ c ∷ []) q) ≡ 1
    → hits p cs q ≡ 0
hits_none p c [] q h k = refl
hits_none p c (d ∷ cs) q h k =
    let differ : c ≢ d = λ e. ground (arith, (==_iff c d).1 e, h) in
    ground (arith, strip_two p c d q differ, hits_none p c cs q)

hits_once :
    (p : FilePath) (cs : List Text) (q : FilePath)
    → NoTwice cs
    → hits p cs q ≤ one_below (strip p q)
hits_once p [] q h = omega arith
hits_once p (c ∷ cs) q (h, hs) =
    ground (arith, hits_none p c cs q h, hits_once p cs q hs, strip-child-cases p c q)

pub count_all-below :
    (p : FilePath) (cs : List Text) (fs : Files) → NoTwice cs → count_all p cs fs ≤ below p fs
count_all-below p cs [] h = omega (arith, count_all-nil p cs)
count_all-below p cs ((q, n) ∷ fs) h =
    omega (arith, count_all-cons p cs q n fs, hits_once p cs q h, count_all-below p cs fs h)

pub count-without-le : (p q : FilePath) (fs : Files) → count q (without p fs) ≤ count q fs
unfolding without
count-without-le p q [] = omega arith
count-without-le p q ((x, n) ∷ fs) = ground (arith, count-without-le p q fs)

-- Changing what stands at a path leaves the counts.
count-without :
    (p q : FilePath) (fs : Files) (n : Node)
    → lookup p fs ≡ some n
    → one (strip q p) + count q (without p fs) ≤ count q fs
unfolding lookup without
count-without p q [] n h = cc
count-without p q ((x, m) ∷ fs) n h = elim (path_dec p x) [
  | yes e ↦ ground (arith, ap (strip q) e, count-without-le p q fs)
  | no ne ↦ ground (arith, ne, h, count-without p q fs n)
]

pub count-put :
    (p q : FilePath) (fs : Files) (n m : Node)
    → lookup p fs ≡ some n
    → count q (put p m fs) ≤ count q fs
unfolding put
count-put p q fs n m h = count-without p q fs n h
