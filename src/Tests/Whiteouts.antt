-- ===== src/Tests/Whiteouts.antt =====
-- The conversion of the whiteouts of a layer with three markers.
use pakstak.Base.{
  codes, ◌==◌, strip_prefix, inl, inr, false, ok, [], ◌∷◌, ◌++◌, ◌≡◌, refl, suc, ◌+◌, length,
  Result,
}
use pakstak.Base.Splits.{split}
use pakstak.Fs.Paths.{FilePath, push, resolve, text_dec, path_dec, path_eq, go}
use pakstak.Fs.Files.{
  Files, lookup, strip, without, put, names, only, is_dir_at, exists_at, new_directory,
}
use pakstak.Fs.World.{
  World, still, operate, names_at, read_dir, metadata_at, symlink_metadata, remove_file_at,
  remove_file, set_mode_at, set_permissions,
}
use pakstak.Fs.Attributes.{xattr, set_xattr_at, set_xattr, create_new_at, create_new}
use pakstak.Storage.Trees.{make_path_writable, set_writable}
use pakstak.Storage.Whiteouts.{
  oci_whiteout_target_name, set_overlay_xattr, remove_oci_whiteout_marker, hide_target,
  convert_oci_whiteout_marker, push_directory, convert_target, convert_entry, convert_entries,
  convert_directory, convert_pending, convert_oci_whiteouts_to_overlayfs,
}
use pakstak.Storage.WhiteoutWalk.{convert_oci_whiteouts_to_overlayfs_ends}
use pakstak.Storage.Hiding.{OverlayHides, OnlyOwn, shows_own}
use pakstak.Storage.HidingTree.{convert_oci_whiteouts_to_overlayfs-OverlayHides}
use pakstak.Storage.Action.{StorageError}
use pakstak.Tests.Layers.{unpacked}

abbrev layer : FilePath
layer = codes "l" ∷ []

abbrev tree : Files
tree = unpacked layer ((layer, new_directory) ∷ [])

converted : Result StorageError (Unit {0}) × World
unfolding split push resolve text_dec path_dec path_eq go lookup strip without put names only
    operate names_at read_dir metadata_at symlink_metadata remove_file_at remove_file set_mode_at
    set_permissions set_xattr_at set_xattr create_new_at create_new is_dir_at make_path_writable
    set_writable oci_whiteout_target_name set_overlay_xattr remove_oci_whiteout_marker hide_target
    convert_oci_whiteout_marker push_directory convert_target convert_entry convert_entries
    convert_directory convert_pending convert_oci_whiteouts_to_overlayfs strip_prefix ◌==◌
converted = convert_oci_whiteouts_to_overlayfs layer (still tree)

succeeds : converted ≡ (ok tt, converted.1)
unfolding converted
succeeds = refl

convert_oci_whiteouts_to_overlayfs_ends_example :
    convert_pending (suc (length tree) + 3) (layer ∷ []) (still tree)
    ≡ convert_oci_whiteouts_to_overlayfs layer (still tree)
convert_oci_whiteouts_to_overlayfs_ends_example =
    convert_oci_whiteouts_to_overlayfs_ends layer 3 (still tree)

-- A file that the layer removes: overlayfs hides it, and shows nothing in its place.
convert_oci_whiteouts_to_overlayfs-OverlayHides_example :
    OverlayHides (resolve layer ++ []) (codes "gone") converted.1.files
    × OnlyOwn ((resolve layer ++ []) ++ codes "gone" ∷ []) tree converted.1.files
unfolding converted is_dir_at exists_at
convert_oci_whiteouts_to_overlayfs-OverlayHides_example =
    convert_oci_whiteouts_to_overlayfs-OverlayHides layer [] (codes "gone") (still tree) converted.1
      succeeds tt refl refl (inr (inl refl))

shows_nothing : shows_own (layer ++ codes "gone" ∷ []) converted.1.files ≡ false
unfolding converted shows_own xattr
shows_nothing = refl
