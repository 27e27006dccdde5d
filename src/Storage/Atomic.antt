-- ===== src/Storage/Atomic.antt =====
-- `atomic_write` under every fault.
use pakstak.Base.{Text, ◌≡◌, inl, refl, ap, ◌∙◌, Result, ok, err, map_err, none, some, [], take}
use pakstak.Fs.Paths.{FilePath, push, resolve}
use pakstak.Fs.Files.{Files, regular_file, strip, lookup}
use pakstak.Fs.FileLaws.{ne_of_strip, strip-take}
use pakstak.Fs.Effects.{
  Unharmed, create_below-Unharmed, create_below_outside, write_at_outside, rename_at_outside,
  lookup-write_at, lookup-rename_at, rename_at_failed,
}
use pakstak.Fs.World.{
  World, IoKind, create_dir_all, create_below, write, write_at, rename, rename_at,
}
use pakstak.Storage.Action.{StorageError, io, ◌>>◌, do_io}
use pakstak.Storage.Triple.{Post, Triple, Triple-bind, Post-both, Triple-operation}
use pakstak.Storage.Layout.{Storage, temporary_path_for}
use pakstak.Storage.Places.{
  IsPlace, OthersKept, Kept, OthersKept-trans, temporary_apart, directory_apart,
}
use pakstak.Storage.Reader.{ensure_parent_dir}
use pakstak.Storage.Writer.{atomic_write}

-- After a success the contents are there; after a failure what was there before. Either way
-- nothing else is changed but the temporary copy, save that directories may have been made.
abbrev pub Published : FilePath → FilePath → Text → Files → World → Type 0
Published p t contents fs w =
    (lookup p w.files ≡ some (regular_file contents)) × OthersKept p t fs w.files

abbrev pub WrittenWhole :
    FilePath → FilePath → Text → Files → Result StorageError (Unit {0}) × World → Type 0
WrittenWhole p t contents fs = Post (λ _. Published p t contents fs) (λ w. Kept p t fs w.files)

module _ {s : Storage} {path dir : FilePath} {name : Text} (place : IsPlace s path dir name)
    (contents : Text) (fs : Files) where
  abbrev p : FilePath
  p = resolve path

  abbrev t : FilePath
  t = resolve (push s.temporary_path name)

  abbrev Before : World → Type 0
  Before w = Kept p t fs w.files

  abbrev Written : World → Type 0
  Written w = Kept p t fs w.files × (lookup t w.files ≡ some (regular_file contents))

  -- A step that leaves the target alone.
  Kept-step :
      (gs hs : Files)
      → Kept p t fs gs
      → lookup p hs ≡ lookup p gs
      → ((q : FilePath) → strip p q ≡ none → strip t q ≡ none → Unharmed q gs hs)
      → Kept p t fs hs
  Kept-step gs hs k e o = record {
    target = e ∙ k.target;
    others = OthersKept-trans p t fs gs hs k.others (record { at = o });
  }

  create-Kept :
      (x : FilePath) (gs : Files)
      → strip p x ≡ none
      → Kept p t fs gs
      → Kept p t fs (create_below [] x gs).1
  create-Kept x gs h k =
      Kept-step gs _ k (create_below_outside p [] x gs h) (λ q _ _. create_below-Unharmed q [] x gs)

  write-Kept : (bytes : Text) (gs : Files) → Kept p t fs gs → Kept p t fs (write_at t bytes gs).1
  write-Kept bytes gs k =
      Kept-step gs _ k (write_at_outside p t bytes gs (ne_of_strip t p (temporary_apart place)))
        (λ q _ b. inl (write_at_outside q t bytes gs (ne_of_strip t q b)))

  same_files : {gs hs : Files} → hs ≡ gs → Kept p t fs gs → Kept p t fs hs
  same_files e k = rw e k

  create-Triple :
      (x : FilePath)
      → strip p (resolve x) ≡ none
      → Triple Before (do_io (create_dir_all x)) (λ _ w. Before w) Before
  unfolding create_dir_all
  create-Triple x h =
      Triple-operation _ _
        (λ w w' k e. Post-both Before _ w' (same_files e (create-Kept (resolve x) w.files h k)))
        (λ n w w' k e.
          same_files e (create-Kept (take n (resolve x)) w.files (strip-take p (resolve x) n h) k))

  parent-Triple : Triple Before (ensure_parent_dir path) (λ _ w. Before w) Before
  unfolding ensure_parent_dir
  parent-Triple =
      rw (place.parent_is, ensure_parent_dir) (create-Triple dir (directory_apart place))

  name-Triple :
      Triple Before
        (temporary_path_for s path)
        (λ x w. (x ≡ push s.temporary_path name) × Before w)
        Before
  name-Triple = rw (place.name_is) (record { at = λ w k. (refl, k) })

  Written-post :
      (r : Result IoKind (Unit {0})) (w : World)
      → (r ≡ ok tt → lookup t w.files ≡ some (regular_file contents))
      → Before w
      → Post (λ _. Written) Before (map_err io r, w)
  Written-post (ok u) w h k = (k, h refl)
  Written-post (err e) w h k = k

  write-Triple :
      Triple Before (do_io (write (push s.temporary_path name) contents)) (λ _. Written) Before
  unfolding write
  write-Triple =
      Triple-operation _ _
        (λ w w' k e.
          Written-post _ w' (λ done. ap (lookup t) e ∙ lookup-write_at t contents w.files done)
            (same_files e (write-Kept contents w.files k)))
        (λ n w w' k e. same_files e (write-Kept (take n contents) w.files k))

  renamed_others : (gs : Files) → Kept p t fs gs → OthersKept p t fs (rename_at t p gs).1
  renamed_others gs k =
      OthersKept-trans p t fs gs _ k.others
        (record { at = λ q a b. inl (rename_at_outside q t p gs b a) })

  renamed_post :
      (r : Result IoKind (Unit {0})) (gs : Files) (w : World)
      → Kept p t fs gs
      → lookup t gs ≡ some (regular_file contents)
      → (rename_at t p gs).0 ≡ r
      → w.files ≡ (rename_at t p gs).1
      → WrittenWhole p t contents fs (map_err io r, w)
  renamed_post (ok u) gs w k full er ew = (
    ap (lookup p) ew ∙ lookup-rename_at t p gs (temporary_apart place) er ∙ full,
    rw ew (renamed_others gs k),
  )
  renamed_post (err e) gs w k full er ew = same_files (ew ∙ rename_at_failed t p gs (λ done. cc)) k

  rename-Triple :
      Triple Written
        (do_io (rename (push s.temporary_path name) path))
        (λ _. Published p t contents fs)
        Before
  unfolding rename
  rename-Triple =
      Triple-operation _ _ (λ w w' k e. renamed_post _ w.files w' k.0 k.1 refl e)
        (λ n w w' k e. same_files e k.0)

  then_write :
      (x : FilePath)
      → Triple
          (λ w. (x ≡ push s.temporary_path name) × Before w)
          (do do_io (write x contents); do_io (rename x path))
          (λ _. Published p t contents fs)
          Before
  then_write x = record {
    at = λ w k. rw (k.0) (
        (Triple-bind {Q = λ _. Written} (do_io (write (push s.temporary_path name) contents))
            (λ _. do_io (rename (push s.temporary_path name) path)) write-Triple
            (λ _. rename-Triple)).at
          w k.1);
  }

  atomic_write-Triple :
      strip p (resolve s.temporary_path) ≡ none
      → Triple Before (atomic_write s path contents) (λ _. Published p t contents fs) Before
  unfolding atomic_write
  atomic_write-Triple h = Triple-bind _ _ parent-Triple λ _.
      Triple-bind _ _ (create-Triple s.temporary_path h) λ _. Triple-bind _ _ name-Triple then_write

-- `atomic_write` at any point of the file system and with any operation cut short: either it
-- succeeds, and the contents are at the path, or it fails, and the path holds what it held.
pub atomic_write_whole :
    {s : Storage} {path dir : FilePath} {name : Text}
    → IsPlace s path dir name
    → (contents : Text) (w : World)
    → WrittenWhole
        (resolve path)
        (resolve (push s.temporary_path name))
        contents
        w.files
        (atomic_write s path contents w)
atomic_write_whole place contents w =
    (atomic_write-Triple place contents w.files place.apart').at w
      (record { target = refl; others = record { at = λ q _ _. inl refl } })
