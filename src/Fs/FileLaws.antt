-- ===== src/Fs/FileLaws.antt =====
-- One path followed through the operations on the tree of files.
use mathlib.Core.Logic.{ite}
use mathlib.Core.List.{append-nil}
use pakstak.Base.{
  take, ap, sym, ◌∙◌, ◌≢◌, Text, ℕ, zero, suc, ◌≡◌, refl, Option, none, some, [], ◌∷◌, ◌++◌, arith,
  Option-cases, inl, inr,
}
use pakstak.Fs.Paths.{FilePath, path_dec}
use pakstak.Fs.Files.{Node, Files, strip, lookup, without, put, move_tree, remove_tree}

pub strip-append : (a r : FilePath) → strip a (a ++ r) ≡ some r
unfolding strip
strip-append [] r = refl
strip-append (c ∷ a) r = ground (arith, strip-append a r)

pub strip_sound : (a q r : FilePath) → strip a q ≡ some r → q ≡ a ++ r
unfolding strip
strip_sound [] q r h = ground arith
strip_sound (c ∷ a) [] r h = cc
strip_sound (c ∷ a) (d ∷ q) r h = ground (arith, strip_sound a q r)

-- Under a common beginning only the rests count.
pub strip-cancel : (p a b : FilePath) → strip (p ++ a) (p ++ b) ≡ strip a b
unfolding strip
strip-cancel [] a b = refl
strip-cancel (c ∷ p) a b = ground (arith, strip-cancel p a b)

pub lookup-without :
    (p q : FilePath) (fs : Files) → lookup q (without p fs) ≡ ite (path_dec p q) none (lookup q fs)
unfolding lookup without
lookup-without p q [] = ground arith
lookup-without p q ((x, n) ∷ fs) = ground (arith, lookup-without p q fs)

pub lookup-put :
    (p q : FilePath) (n : Node) (fs : Files)
    → lookup q (put p n fs) ≡ ite (path_dec p q) (some n) (lookup q fs)
unfolding lookup put
lookup-put p q n fs = ground (arith, lookup-without p q fs)

-- What stands at a path after a move: below the new place, what stood below the old one.
abbrev pub moved : FilePath → FilePath → FilePath → Files → Option Node
moved a b q fs = elim (strip b q) [
  | some r ↦ lookup (a ++ r) fs
  | none ↦ elim (strip a q) [ some _ ↦ none | none ↦ lookup q fs ]
]

pub lookup-move_tree :
    (a b q : FilePath) (fs : Files) → lookup q (move_tree a b fs) ≡ moved a b q fs
unfolding lookup move_tree
lookup-move_tree a b q [] = ground arith
lookup-move_tree a b q ((x, n) ∷ fs) = elim (Option-cases (strip a x)) [
  | inr (r, e) ↦ elim (Option-cases (strip b q)) [
    | inr (s, f) ↦ ground (
      arith,
      lookup-move_tree a b q fs,
      strip_sound a x r e,
      strip_sound b q s f,
      strip-append a s,
      strip-append b r,
    )
    | inl f ↦ ground (arith, lookup-move_tree a b q fs, strip_sound a x r e, strip-append b r)
  ]
  | inl e ↦ elim (Option-cases (strip b q)) [
    | inr (s, f) ↦ ground (arith, lookup-move_tree a b q fs, strip_sound b q s f, strip-append a s)
    | inl f ↦ ground (arith, lookup-move_tree a b q fs)
  ]
]

pub lookup-remove_tree_outside :
    (a q : FilePath) (k : ℕ) (fs : Files)
    → strip a q ≡ none
    → lookup q (remove_tree a k fs) ≡ lookup q fs
unfolding lookup remove_tree
lookup-remove_tree_outside a q zero fs h = refl
lookup-remove_tree_outside a q (suc k) [] h = refl
lookup-remove_tree_outside a q (suc k) ((x, n) ∷ fs) h =
    ground (arith, lookup-remove_tree_outside a q k fs, lookup-remove_tree_outside a q (suc k) fs)

-- Two paths neither of which lies below the other stay so when they are made longer.
pub strip-longer :
    (a b x y : FilePath) → strip a b ≡ none → strip b a ≡ none → strip (a ++ x) (b ++ y) ≡ none
unfolding strip
strip-longer [] b x y h k = cc
strip-longer (c ∷ a) [] x y h k = cc
strip-longer (c ∷ a) (d ∷ b) x y h k = ground (arith, strip-longer a b x y)

-- A path does not lie below its own child.
pub strip-child : (d : FilePath) (n : Text) → strip (d ++ n ∷ []) d ≡ none
unfolding strip
strip-child [] n = refl
strip-child (c ∷ d) n = ground (arith, strip-child d n)

pub strip_self : (p : FilePath) → strip p p ≡ some []
strip_self p = ap (strip p) (sym (append-nil p)) ∙ strip-append p []

pub ne_of_strip : (p q : FilePath) → strip p q ≡ none → q ≢ p
ne_of_strip p q h e = cc (h, strip_self p, ap (strip p) e)

-- What does not lie below a path does not lie below it when cut shorter.
pub strip-take : (p x : FilePath) (n : ℕ) → strip p x ≡ none → strip p (take n x) ≡ none
unfolding strip
strip-take [] x n h = cc
strip-take (c ∷ p) x zero h = refl
strip-take (c ∷ p) [] (suc n) h = refl
strip-take (c ∷ p) (d ∷ x) (suc n) h = ground (arith, strip-take p x n)

-- Paths that begin with different names do not lie below one another.
pub strip-ne : (c d : Text) (p q : FilePath) → c ≢ d → strip (c ∷ p) (d ∷ q) ≡ none
unfolding strip
strip-ne c d p q h = ground arith

pub strip-append-eq-none : (p r q : FilePath) → strip p q ≡ none → strip (p ++ r) q ≡ none
unfolding strip
strip-append-eq-none [] r q h = cc
strip-append-eq-none (c ∷ p) r [] h = refl
strip-append-eq-none (c ∷ p) r (d ∷ q) h = ground (arith, strip-append-eq-none p r q)

-- Below different entries of one directory.
pub strip-apart :
    (base : FilePath) (c d : Text) (p q : FilePath)
    → c ≢ d
    → strip (base ++ c ∷ p) (base ++ d ∷ q) ≡ none
strip-apart base c d p q h = strip-cancel base (c ∷ p) (d ∷ q) ∙ strip-ne c d p q h
