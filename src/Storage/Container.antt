-- ===== src/Storage/Container.antt =====
-- `write_container` at any point of the file system and with any operation cut short.
use pakstak.Base.{Text, codes, take, Result, ◌==◌, ◌≡◌, refl, ap, ◌∙◌, none, some, [], ◌∷◌, ◌++◌}
use pakstak.Reference.{Reference}
use pakstak.Manifest.{Json}
use pakstak.Fs.Paths.{FilePath, push, resolve, IsPlain}
use pakstak.Fs.PathLaws.{file_name-push}
use pakstak.Fs.Files.{Files, regular_file, strip, lookup}
use pakstak.Fs.FileLaws.{strip-take}
use pakstak.Fs.Effects.{
  create_below_outside, write_at_outside, lookup-write_at, lookup-rename_at-below, rename_at_failed,
}
use pakstak.Fs.World.{World, create_dir_all, create_below, write, write_at, rename, rename_at}
use pakstak.Storage.Action.{StorageError, ◌>>◌, do_io}
use pakstak.Storage.Triple.{Post, Triple, Triple-bind, Triple-files}
use pakstak.Storage.Layout.{storage_at}
use pakstak.Storage.Reader.{ensure_parent_dir}
use pakstak.Storage.Writer.{write_container, publish_directory}
use pakstak.Storage.Copies.{
  home_of, under_home, under_copy, home_outside, child_outside, names_differ, apart, at_copy,
  at_child, at_containers, at_home, parent_is,
}

-- After a success both files of the container are there, and after a failure nothing at or below
-- the container has changed.
abbrev pub ContainerWhole :
    FilePath → Text → Text → Files → Result StorageError (Unit {0}) × World → Type 0
ContainerWhole home digest printed fs =
    Post
      (λ _ w.
        (lookup (home ++ codes "manifest_digest" ∷ []) w.files ≡ some (regular_file digest))
        × (lookup (home ++ codes "reference.json" ∷ []) w.files ≡ some (regular_file printed)))
      (λ w. (r : FilePath) → lookup (home ++ r) w.files ≡ lookup (home ++ r) fs)

module _ (root : FilePath) (container : Text) (plain : IsPlain container) (digest printed : Text)
    (fs : Files) where
  abbrev base : FilePath
  base = resolve root

  abbrev home : FilePath
  home = base ++ codes "containers" ∷ container ∷ []

  abbrev copy : FilePath
  copy = base ++ codes "temporary" ∷ container ∷ []

  abbrev copy_path : FilePath
  copy_path = push (push root (codes "temporary")) container

  abbrev home_path : FilePath
  home_path = push (push root (codes "containers")) container

  abbrev digest_name : Text
  digest_name = codes "manifest_digest"

  abbrev reference_name : Text
  reference_name = codes "reference.json"

  abbrev containers : FilePath
  containers = base ++ codes "containers" ∷ []

  -- Nothing at or below the container has changed.
  abbrev Untouched : Files → Type 0
  Untouched gs = (r : FilePath) → lookup (home ++ r) gs ≡ lookup (home ++ r) fs

  abbrev HasDigest : FilePath → Files → Type 0
  HasDigest p gs = lookup (p ++ digest_name ∷ []) gs ≡ some (regular_file digest)

  abbrev HasReference : FilePath → Files → Type 0
  HasReference p gs = lookup (p ++ reference_name ∷ []) gs ≡ some (regular_file printed)

  -- What is below `copy` is not below `home`, and the other way round.
  Untouched-create :
      (p : FilePath) (gs : Files)
      → ((r : FilePath) → strip (home ++ r) p ≡ none)
      → Untouched gs
      → Untouched (create_below [] p gs).1
  Untouched-create p gs h k r = create_below_outside (home ++ r) [] p gs (h r) ∙ k r

  Untouched-write :
      (x bytes : Text) (gs : Files)
      → Untouched gs
      → Untouched (write_at (copy ++ x ∷ []) bytes gs).1
  Untouched-write x bytes gs k r =
      write_at_outside (home ++ r) (copy ++ x ∷ []) bytes gs ((child_outside root container) x r)
      ∙ k r

  abbrev WithDigest : Files → Type 0
  WithDigest gs = Untouched gs × HasDigest copy gs

  abbrev WithBoth : Files → Type 0
  WithBoth gs = Untouched gs × HasDigest copy gs × HasReference copy gs

  abbrev Published : Files → Type 0
  Published gs = HasDigest home gs × HasReference home gs

  create-Triple :
      Triple
        (λ w. Untouched w.files)
        (do_io (create_dir_all copy_path))
        (λ _ w. Untouched w.files)
        (λ w. Untouched w.files)
  unfolding create_dir_all
  create-Triple = rw (at_copy root container plain) (
      Triple-files Untouched Untouched Untouched (create_below [] copy)
        (λ n gs. (create_below [] (take n copy) gs).1)
        (λ gs k e. Untouched-create copy gs (λ r. (under_home root container) r (container ∷ [])) k)
        (λ gs x k e.
          Untouched-create copy gs (λ r. (under_home root container) r (container ∷ [])) k)
        (λ n gs k.
          Untouched-create (take n copy) gs
            (λ r. strip-take (home ++ r) copy n ((under_home root container) r (container ∷ [])))
            k))

  write_digest-Triple :
      Triple
        (λ w. Untouched w.files)
        (do_io (write (push copy_path digest_name) digest))
        (λ _ w. WithDigest w.files)
        (λ w. Untouched w.files)
  unfolding write ◌==◌
  write_digest-Triple = rw ((at_child root container plain) digest_name refl) (
      Triple-files Untouched WithDigest Untouched (write_at (copy ++ digest_name ∷ []) digest)
        (λ n gs. (write_at (copy ++ digest_name ∷ []) (take n digest) gs).1)
        (λ gs k e. (
          Untouched-write digest_name digest gs k,
          lookup-write_at (copy ++ digest_name ∷ []) digest gs e,
        ))
        (λ gs x k e. Untouched-write digest_name digest gs k)
        (λ n gs k. Untouched-write digest_name (take n digest) gs k))

  write_reference-Triple :
      Triple
        (λ w. WithDigest w.files)
        (do_io (write (push copy_path reference_name) printed))
        (λ _ w. WithBoth w.files)
        (λ w. Untouched w.files)
  unfolding write ◌==◌
  write_reference-Triple = rw ((at_child root container plain) reference_name refl) (
      Triple-files WithDigest WithBoth Untouched (write_at (copy ++ reference_name ∷ []) printed)
        (λ n gs. (write_at (copy ++ reference_name ∷ []) (take n printed) gs).1)
        (λ gs k e. (
          Untouched-write reference_name printed gs k.0,
          write_at_outside (copy ++ digest_name ∷ []) (copy ++ reference_name ∷ []) printed gs
                (names_differ root container)
              ∙ k.1,
          lookup-write_at (copy ++ reference_name ∷ []) printed gs e,
        ))
        (λ gs x k e. Untouched-write reference_name printed gs k.0)
        (λ n gs k. Untouched-write reference_name (take n printed) gs k.0))

  -- Making the directory of the containers leaves the copy alone too.
  kept_by_parent :
      (p : FilePath) (gs : Files)
      → ((r : FilePath) → strip (home ++ r) p ≡ none)
      → ((r : FilePath) → strip (copy ++ r) p ≡ none)
      → WithBoth gs
      → WithBoth (create_below [] p gs).1
  kept_by_parent p gs h h' (k, d, f) = (
    Untouched-create p gs h k,
    create_below_outside (copy ++ digest_name ∷ []) [] p gs (h' (digest_name ∷ [])) ∙ d,
    create_below_outside (copy ++ reference_name ∷ []) [] p gs (h' (reference_name ∷ [])) ∙ f,
  )

  parent-Triple :
      Triple
        (λ w. WithBoth w.files)
        (ensure_parent_dir home_path)
        (λ _ w. WithBoth w.files)
        (λ w. Untouched w.files)
  unfolding ensure_parent_dir create_dir_all
  parent-Triple =
      rw ((parent_is root container plain), ensure_parent_dir, (at_containers root container plain))
        (Triple-files WithBoth WithBoth Untouched (create_below [] containers)
          (λ n gs. (create_below [] (take n containers) gs).1)
          (λ gs k e.
            kept_by_parent containers gs (home_outside root container)
              (λ r. (under_copy root container) r []) k)
          (λ gs x k e. Untouched-create containers gs (home_outside root container) k.0)
          (λ n gs k.
            Untouched-create (take n containers) gs
              (λ r. strip-take (home ++ r) containers n ((home_outside root container) r)) k.0))

  rename-Triple :
      Triple
        (λ w. WithBoth w.files)
        (do_io (rename copy_path home_path))
        (λ _ w. Published w.files)
        (λ w. Untouched w.files)
  unfolding rename
  rename-Triple =
      rw ((at_copy root container plain), (at_home root container plain))
        (Triple-files WithBoth Published Untouched (rename_at copy home) (λ n gs. gs)
          (λ gs k e. (
            lookup-rename_at-below copy home (digest_name ∷ []) gs (apart root container) e ∙ k.1,
            lookup-rename_at-below copy home (reference_name ∷ []) gs (apart root container) e
                ∙ k.2,
          ))
          (λ gs x k e r. ap (lookup (home ++ r)) (rename_at_failed copy home gs (λ ok. cc)) ∙ k.0 r)
          (λ n gs k. k.0))

  after_name :
      Triple
        (λ w. Untouched w.files)
        (do
          do_io (create_dir_all copy_path)
          do_io (write (push copy_path digest_name) digest)
          do_io (write (push copy_path reference_name) printed)
          publish_directory copy_path home_path)
        (λ _ w. Published w.files)
        (λ w. Untouched w.files)
  unfolding publish_directory
  after_name = Triple-bind _ _ create-Triple λ _. Triple-bind _ _ write_digest-Triple λ _.
      Triple-bind _ _ write_reference-Triple λ _. Triple-bind _ _ parent-Triple λ _. rename-Triple

module _ (root : FilePath) where
  -- Wherever saving a new container is cut short, after a success both of its files are there with
  -- their contents, and after a failure nothing at or below its directory has changed. The
  -- container's name is one plain name.
  pub write_container_whole :
      (json : Json) (container digest : Text) (reference : Reference) (w : World)
      → IsPlain container
      → ContainerWhole
          (home_of root container)
          digest
          (json.print_reference reference)
          w.files
          (write_container (storage_at root) json container digest reference w)
  unfolding write_container storage_at
  write_container_whole json container digest reference w h =
      rw (file_name-push (push root (codes "containers")) container h) (
        (after_name root container h digest (json.print_reference reference) w.files).at w
          (λ r. refl))
