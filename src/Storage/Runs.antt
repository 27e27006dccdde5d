-- ===== src/Storage/Runs.antt =====
-- What the operations of the file system say where they succeeded.
use pakstak.Base.{◌≡◌, inl, inr, Text, true, Bool-cases, Option-cases, some, List, arith, ok}
use pakstak.Fs.Paths.{FilePath, resolve}
use pakstak.Fs.Files.{Node, lookup, names, node_is_dir}
use pakstak.Fs.World.{World, symlink_metadata, metadata_at, read_dir, names_at}
use pakstak.Storage.Action.{do_io}
use pakstak.Storage.Triple.{operation-eq-ok}

-- What a metadata that was read says.
pub metadata-eq-ok :
    (p : FilePath) (w v : World) (n : Node)
    → do_io (symlink_metadata p) w ≡ (ok n, v)
    → (lookup (resolve p) w.files ≡ some n) × (v.files ≡ w.files)
unfolding symlink_metadata metadata_at
metadata-eq-ok p w v n h =
    let e = operation-eq-ok _ _ w v n h in
    elim (Option-cases (lookup (resolve p) w.files)) [
      | inl g ↦ ground (arith, g, e)
      | inr (m, g) ↦ ground (arith, g, e)
    ]

-- What a directory that was listed says.
pub read_dir-eq-ok :
    (p : FilePath) (w v : World) (cs : List Text)
    → do_io (read_dir p) w ≡ (ok cs, v)
    → (n : Node) × (lookup (resolve p) w.files ≡ some n)
      × (node_is_dir n ≡ true)
      × (cs ≡ names (resolve p) w.files)
      × (v.files ≡ w.files)
unfolding read_dir names_at
read_dir-eq-ok p w v cs h =
    let e = operation-eq-ok _ _ w v cs h in
    elim (Option-cases (lookup (resolve p) w.files)) [
      | inl g ↦ ground (arith, g, e)
      | inr (n, g) ↦ elim (Bool-cases (node_is_dir n)) [
        | inl d ↦ (n, g, d, ground (arith, g, d, e), ground (arith, g, d, e))
        | inr d ↦ ground (arith, g, d, e)
      ]
    ]
