-- ===== src/Fs/Paths.antt =====
-- `std::path`: an absolute path is the list of its components below `/`.
use mathlib.Core.Logic.{dite}
use mathlib.Core.Bool.{Bool-discrete}
use mathlib.Core.List.{foldl}
use pakstak.Base.{
  Text, codes, contains, ◌==◌, ==_iff, nat_eq, if◌then◌else◌, ◌≡◌, refl, Bool, true, false, not,
  ◌&&◌, ◌||◌, Option, none, some, List, [], ◌∷◌, ◌++◌, arith, is_empty,
}
use pakstak.Base.Splits.{split}

abbrev pub FilePath : Type 0
FilePath = List Text

-- Equality of components, decided. It stays shut in proofs, which split on its two cases.
unfoldable pub text_dec : Discrete Text
text_dec s t =
    dite (Bool-discrete (s == t) true) (λ same. yes ((==_iff s t).0 same))
      (λ differ. no (λ p. differ ((==_iff s t).1 p)))

unfoldable pub path_eq : FilePath → FilePath → Bool
path_eq [] [] = true
path_eq [] (d ∷ q) = false
path_eq (c ∷ p) [] = false
path_eq (c ∷ p) (d ∷ q) = c == d && path_eq p q

pub path_eq_sound : (p q : FilePath) → path_eq p q ≡ true → p ≡ q
unfolding path_eq
path_eq_sound [] [] h = refl
path_eq_sound [] (d ∷ q) h = cc
path_eq_sound (c ∷ p) [] h = cc
path_eq_sound (c ∷ p) (d ∷ q) h = ground (arith, ==_iff c d, path_eq_sound p q)

path_eq_refl : (p : FilePath) → path_eq p p ≡ true
unfolding path_eq
path_eq_refl [] = refl
path_eq_refl (c ∷ p) = ground (arith, ==_iff c c, path_eq_refl p)

pub path_eq_complete : (p q : FilePath) → p ≡ q → path_eq p q ≡ true
path_eq_complete p q e = rw e (path_eq_refl q)

unfoldable pub path_dec : Discrete FilePath
unfolding path_eq
path_dec p q =
    dite (Bool-discrete (path_eq p q) true) (λ same. yes (path_eq_sound p q same))
      (λ differ. no (λ e. differ (path_eq_complete p q e)))

-- What `components` keeps of the pieces between the slashes.
abbrev pub kept : List Text → FilePath
kept [] = []
kept (c ∷ cs) = let rest = kept cs in if is_empty c || c == codes "." then rest else c ∷ rest

abbrev pub absolute : Text → Bool
absolute [] = false
absolute (c ∷ s) = nat_eq c b'/'

-- `Path::join`: a text that begins with a slash takes the place of the path.
unfoldable pub push : FilePath → Text → FilePath
push p s = if absolute s then kept (split b'/' s) else p ++ kept (split b'/' s)

abbrev pub dots : Text
dots = codes ".."

-- `Path::parent`
abbrev pub drop_last : FilePath → FilePath
drop_last [] = []
drop_last (c ∷ []) = []
drop_last (c ∷ d ∷ p) = c ∷ drop_last (d ∷ p)

unfoldable pub parent : FilePath → Option FilePath
parent [] = none
parent (c ∷ p) = some (drop_last (c ∷ p))

abbrev pub last_name : Text → FilePath → Text
last_name c [] = c
last_name c (d ∷ p) = last_name d p

-- `Path::file_name`: there is none after `..`.
unfoldable pub file_name : FilePath → Option Text
file_name [] = none
file_name (c ∷ p) = let name = last_name c p in if name == dots then none else some name

-- The file that the system finds at a path: `..` goes up. Symbolic links inside are not followed.
unfoldable pub go : FilePath → Text → FilePath
go p c = if c == dots then drop_last p else p ++ c ∷ []

unfoldable pub resolve : FilePath → FilePath
unfolding go
resolve = foldl go []

-- A text that is one component, and not `..`.
abbrev pub is_plain : Text → Bool
is_plain c = not (is_empty c) && not (contains c b'/') && not (c == codes ".") && not (c == dots)

abbrev pub IsPlain : Text → Type 0
IsPlain c = is_plain c ≡ true
