-- ===== src/Tests/Trees.antt =====
-- A read-only tree with a symbolic link: a run of its removal, and the walk through it.
use pakstak.Base.{codes, ◌==◌, Result, ok, some, [], ◌∷◌, ◌≡◌, refl}
use pakstak.Base.Splits.{split}
use pakstak.Fs.Paths.{push, resolve, text_dec, path_dec, go}
use pakstak.Fs.Files.{
  Files, Node, directory, regular, symlink, lookup, strip, without, put, remove_tree, tree_open,
  names, only, exists_at,
}
use pakstak.Fs.World.{
  World, still, operate, names_at, read_dir, metadata_at, symlink_metadata, set_mode_at,
  set_permissions, remove_dir_all_at, remove_dir_all,
}
use pakstak.Storage.Action.{StorageError}
use pakstak.Storage.Trees.{
  make_path_writable, set_writable, push_all, pending_below, make_writable, make_tree_writable,
  remove_dir_all_writable,
}
use pakstak.Storage.Walk.{make_tree_writable_ends}

abbrev read_only : Node
read_only = record { kind = directory; mode = 0o555; xattrs = [] }

abbrev tree : Files
tree =
    (codes "r" ∷ [], read_only)
    ∷ (codes "r" ∷ codes "a" ∷ [], read_only)
    ∷ (
      codes "r" ∷ codes "a" ∷ codes "f" ∷ [],
      record { kind = regular (codes "x"); mode = 0o444; xattrs = [] },
    )
    ∷ (
      codes "r" ∷ codes "l" ∷ [],
      record { kind = symlink (codes "/o"); mode = 0o777; xattrs = [] },
    )
    ∷ (codes "o" ∷ [], read_only)
    ∷ []

removed : Result StorageError (Unit {0}) × World
unfolding make_path_writable set_writable push_all pending_below make_writable make_tree_writable
    remove_dir_all_writable operate names_at read_dir metadata_at symlink_metadata set_mode_at
    set_permissions remove_dir_all_at remove_dir_all lookup strip without put remove_tree tree_open
    names only exists_at push resolve go split text_dec path_dec ◌==◌
removed = remove_dir_all_writable (codes "r" ∷ []) (still tree)

-- Nothing of the tree is left, and the link is not followed.
removes_read_only :
    remove_dir_all_writable (codes "r" ∷ []) (still tree)
    ≡ (ok tt, still ((codes "o" ∷ [], read_only) ∷ []))
unfolding removed
removes_read_only = refl

stands : lookup (resolve (codes "r" ∷ [])) tree ≡ some read_only
unfolding removed
stands = refl

make_tree_writable_ends_example :
    (fs' : Files) × (make_tree_writable (codes "r" ∷ []) (still tree) ≡ (ok tt, still fs'))
make_tree_writable_ends_example = make_tree_writable_ends (codes "r" ∷ []) tree read_only stands
