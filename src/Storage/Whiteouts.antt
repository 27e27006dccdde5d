-- ===== src/Storage/Whiteouts.antt =====
-- The whiteouts of an unpacked layer: marker files of OCI become attributes that overlayfs reads. The
-- tree is walked with a stack of pending directories, on fuel: one step a directory.
use pakstak.Base.{
  ℕ, zero, suc, Text, codes, ◌==◌, strip_prefix, is_empty, Result, ok, err, Bool, false, not, ◌||◌,
  Option, none, some, List, [], ◌∷◌, length, if◌then◌else◌,
}
use pakstak.Fs.Paths.{FilePath, push}
use pakstak.Fs.Files.{Node, node_is_dir}
use pakstak.Fs.World.{
  IoKind, not_found, invalid_input, fault, symlink_metadata, read_dir, remove_file,
}
use pakstak.Fs.Attributes.{set_xattr, create_new, has_nul}
use pakstak.Storage.Action.{io, Action, ◌>>=◌, ◌>>◌, pure, fail, do_io, io_caught, check, when}
use pakstak.Storage.Trees.{make_path_writable}

abbrev pub opaque_marker : Text
opaque_marker = codes ".wh..wh..opq"

abbrev pub opaque_name : Text
opaque_name = codes "user.overlay.opaque"

abbrev pub whiteout_name : Text
whiteout_name = codes "user.overlay.whiteout"

abbrev pub yes_value : Text
yes_value = codes "y"

unfoldable pub oci_whiteout_target_name : Text → Option Text
oci_whiteout_target_name file_name = elim (strip_prefix (codes ".wh.") file_name) [
  | none ↦ none
  | some target ↦ if is_empty target then none else some target
]

unfoldable pub set_overlay_xattr : FilePath → Text → Text → Action (Unit {0})
set_overlay_xattr path name value = do
  check (not (has_nul path)) (io invalid_input)
  do_io (set_xattr path name value)

unfoldable pub remove_oci_whiteout_marker : FilePath → Action (Unit {0})
remove_oci_whiteout_marker marker_path = do
  metadata ← do_io (symlink_metadata marker_path)
  make_path_writable marker_path metadata
  do_io (remove_file marker_path)

-- The target of a marker, by what stands there.
unfoldable pub hide_target : FilePath → Result IoKind Node → Action (Unit {0})
hide_target target_path (ok metadata) =
    when (node_is_dir metadata) (set_overlay_xattr target_path opaque_name yes_value)
hide_target target_path (err not_found) =
    do_io (create_new target_path) >> set_overlay_xattr target_path whiteout_name yes_value
hide_target target_path (err e) = fail (io e)

unfoldable pub convert_oci_whiteout_marker : FilePath → FilePath → Action (Unit {0})
convert_oci_whiteout_marker marker_path target_path = do
  found ← io_caught (symlink_metadata target_path)
  hide_target target_path found
  remove_oci_whiteout_marker marker_path

-- A directory is put on the stack.
unfoldable pub push_directory : FilePath → List FilePath → Action (List FilePath)
push_directory path pending = do
  metadata ← do_io (symlink_metadata path)
  pure (if node_is_dir metadata then path ∷ pending else pending)

unfoldable pub convert_target : FilePath → Bool → Text → Text → Action (Unit {0})
convert_target directory is_opaque name target =
    if is_opaque
    then remove_oci_whiteout_marker (push directory name)
    else convert_oci_whiteout_marker (push directory name) (push directory target)

unfoldable pub convert_entry : FilePath → Bool → Text → List FilePath → Action (List FilePath)
convert_entry directory is_opaque name pending =
    if name == opaque_marker
    then (remove_oci_whiteout_marker (push directory name) >> pure pending)
    else elim (oci_whiteout_target_name name) [
      | some target ↦ convert_target directory is_opaque name target >> pure pending
      | none ↦ push_directory (push directory name) pending
    ]

unfoldable pub convert_entries :
    FilePath → Bool → List Text → List FilePath → Action (List FilePath)
convert_entries directory is_opaque [] pending = pure pending
convert_entries directory is_opaque (name ∷ names) pending = do
  pending' ← convert_entry directory is_opaque name pending
  convert_entries directory is_opaque names pending'

abbrev pub has_opaque : List Text → Bool
has_opaque [] = false
has_opaque (name ∷ names) = name == opaque_marker || has_opaque names

unfoldable pub convert_directory : FilePath → List FilePath → Action (List FilePath)
convert_directory directory pending = do
  names ← do_io (read_dir directory)
  when (has_opaque names) (set_overlay_xattr directory opaque_name yes_value)
  convert_entries directory (has_opaque names) names pending

unfoldable pub convert_pending : ℕ → List FilePath → Action (Unit {0})
convert_pending fuel [] = pure tt
convert_pending zero (directory ∷ pending) = fail (io fault)
convert_pending (suc fuel) (directory ∷ pending) = do
  pending' ← convert_directory directory pending
  convert_pending fuel pending'

-- No tree has more directories than there are files; the first step may find none at all.
unfoldable pub convert_oci_whiteouts_to_overlayfs : FilePath → Action (Unit {0})
convert_oci_whiteouts_to_overlayfs output_dir w =
    convert_pending (suc (length w.files)) (output_dir ∷ []) w
