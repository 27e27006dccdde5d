-- ===== src/Storage/Places.antt =====
-- Where a published file and its temporary copy stand.
use mathlib.Core.List.{append-nil}
use pakstak.Base.{Text, ◌≡◌, ap, sym, ◌∙◌, none, some, [], ◌∷◌, ◌++◌}
use pakstak.Fs.Paths.{FilePath, push, parent, file_name, resolve}
use pakstak.Fs.Files.{Files, strip, lookup}
use pakstak.Fs.FileLaws.{strip-longer, strip-child}
use pakstak.Fs.Effects.{Unharmed, Unharmed-trans}
use pakstak.Storage.Layout.{Storage}

-- The path has a directory and a name, and neither lies below the temporary directory nor above it.
pub record IsPlace (s : Storage) (path dir : FilePath) (name : Text) : Type 0 where
  pub parent_is : parent path ≡ some dir
  pub name_is : file_name path ≡ some name
  pub at_path : resolve path ≡ resolve dir ++ name ∷ []
  pub at_temporary : resolve (push s.temporary_path name) ≡ resolve s.temporary_path ++ name ∷ []
  pub apart : strip (resolve s.temporary_path) (resolve path) ≡ none
  pub apart' : strip (resolve path) (resolve s.temporary_path) ≡ none

-- Nothing but what stands at or below the two paths changes, save that directories are made.
pub record OthersKept (p t : FilePath) (fs fs' : Files) : Type 0 where
  pub at : (q : FilePath) → strip p q ≡ none → strip t q ≡ none → Unharmed q fs fs'

pub record Kept (p t : FilePath) (fs fs' : Files) : Type 0 where
  pub target : lookup p fs' ≡ lookup p fs
  pub others : OthersKept p t fs fs'

pub OthersKept-trans :
    (p t : FilePath) (fs gs hs : Files)
    → OthersKept p t fs gs
    → OthersKept p t gs hs
    → OthersKept p t fs hs
OthersKept-trans p t fs gs hs h k = record {
  at = λ q a b. Unharmed-trans q fs gs hs (h.at q a b) (k.at q a b);
}

module _ {s : Storage} {path dir : FilePath} {name : Text} (place : IsPlace s path dir name) where
  abbrev p : FilePath
  p = resolve path

  abbrev t : FilePath
  t = resolve (push s.temporary_path name)

  pub temporary_apart : strip t p ≡ none
  temporary_apart = rw (place.at_temporary) (
      ap (strip (resolve s.temporary_path ++ name ∷ [])) (sym (append-nil p))
      ∙ strip-longer (resolve s.temporary_path) p (name ∷ []) [] place.apart place.apart')

  pub path_apart : strip p t ≡ none
  path_apart = rw (place.at_temporary) (
      ap (λ x. strip x (resolve s.temporary_path ++ name ∷ [])) (sym (append-nil p))
      ∙ strip-longer p (resolve s.temporary_path) [] (name ∷ []) place.apart' place.apart)

  pub directory_apart : strip p (resolve dir) ≡ none
  directory_apart = rw (place.at_path) (strip-child (resolve dir) name)
