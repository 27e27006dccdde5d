-- ===== src/Tests/Layers.antt =====
-- A layer with whiteouts, unpacked and published.
use pakstak.Base.{
  err, ◌⊎◌, ◌≢◌, ℕ, zero, suc, Text, codes, ◌==◌, Result, ok, true, false, some, none, Option, List,
  [], ◌∷◌, ◌++◌, ◌≡◌, refl, ap, ◌∙◌, arith, strip_prefix, strip_prefix,
}
use pakstak.Base.Splits.{split, split_once}
use pakstak.Digest.Hex.{hex_digit, hex_byte, decode_hex, decode_pairs}
use pakstak.Digest.Verifier.{Algorithm, output_len, algorithm, new, read, copy, verify}
use pakstak.Network.{Body}
use pakstak.Formats.{tar}
use pakstak.Fs.Paths.{
  is_plain, FilePath, push, resolve, parent, file_name, text_dec, path_dec, path_eq, go,
}
use pakstak.Fs.Files.{
  Files, Node, lookup, strip, without, put, move_tree, remove_tree, tree_open, names, is_dir_at,
  is_file_at, exists_at, regular_file, new_directory,
}
use pakstak.Fs.FileLaws.{lookup-put, strip_self, strip-append}
use pakstak.Fs.Directories.{is_dir_at_moved}
use pakstak.Fs.World.{
  World, operate, create_below, create_dir_all, names_at, read_dir, may_replace, rename_at, rename,
  metadata_at, symlink_metadata, remove_file_at, remove_file, remove_dir_all_at, remove_dir_all,
  set_mode_at, set_permissions,
}
use pakstak.Fs.Attributes.{set_xattr_at, set_xattr, create_new_at, create_new, xattr}
use pakstak.Storage.Action.{StorageError}
use pakstak.Storage.Layout.{storage_at}
use pakstak.Storage.Reader.{ensure_parent_dir}
use pakstak.Storage.Writer.{publish_directory}
use pakstak.Storage.Trees.{
  make_path_writable, set_writable, push_all, pending_below, make_writable, make_tree_writable,
  remove_dir_all_writable,
}
use pakstak.Storage.Whiteouts.{
  oci_whiteout_target_name, set_overlay_xattr, remove_oci_whiteout_marker, hide_target,
  convert_oci_whiteout_marker, push_directory, convert_target, convert_entry, convert_entries,
  convert_directory, convert_pending, convert_oci_whiteouts_to_overlayfs, opaque_name,
  whiteout_name,
}
use pakstak.Storage.Layers.{
  Archives, read_body, read_rest, unpack_layer, extract_layer, publish_extracted, write_layer,
}
use pakstak.Storage.Unpacking.{IsConfined}
use pakstak.Storage.Complete.{Harmless}
use pakstak.Storage.HarmlessDigests.{write_layer-Harmless}
use pakstak.Storage.WholeLayers.{LayerWhole, write_layer_whole}

unfoldable pub zeros : ℕ → List ℕ
zeros zero = []
zeros (suc n) = 0 ∷ zeros n

abbrev pub flat : Algorithm → List ℕ → List ℕ
flat a bytes = zeros (output_len a)

abbrev pub zero_digest : Text
zero_digest = codes "sha256:0000000000000000000000000000000000000000000000000000000000000000"

abbrev empty_file : Node
empty_file = regular_file []

-- Three markers: one of a file that is not there, one of a directory, and an opaque one inside of it.
abbrev pub unpacked : FilePath → Files → Files
unpacked dir fs = put (dir ++ codes ".wh.gone" ∷ []) empty_file (
    put (dir ++ codes ".wh.d" ∷ []) empty_file (
      put (dir ++ codes "d" ∷ []) new_directory
        (put (dir ++ codes "d" ∷ codes ".wh..wh..opq" ∷ []) empty_file fs)))

abbrev pub archives : Archives
archives = record {
  unpack = λ format body dir w. ((ok tt, 1), record w { files = unpacked (resolve dir) w.files });
}

abbrev body : Body
body = record { bytes = codes "tar"; broken = false }

abbrev root : FilePath
root = codes "d" ∷ []

abbrev fresh : World
fresh = record { files = (root, new_directory) ∷ []; faults = [] }

abbrev layer : FilePath
layer = root ++ codes "layers" ∷ zero_digest ∷ []

runs : Body → Result StorageError (Unit {0}) × World
unfolding zeros split split_once hex_digit hex_byte decode_hex decode_pairs algorithm new read copy
    verify push resolve parent file_name text_dec path_dec path_eq go lookup strip without put
    move_tree remove_tree tree_open names is_dir_at is_file_at exists_at operate create_below
    create_dir_all names_at read_dir may_replace rename_at rename metadata_at symlink_metadata
    remove_file_at remove_file remove_dir_all_at remove_dir_all set_mode_at set_permissions
    set_xattr_at set_xattr create_new_at create_new storage_at ensure_parent_dir publish_directory
    make_path_writable set_writable push_all pending_below make_writable make_tree_writable
    remove_dir_all_writable oci_whiteout_target_name set_overlay_xattr remove_oci_whiteout_marker
    hide_target convert_oci_whiteout_marker push_directory convert_target convert_entry
    convert_entries convert_directory convert_pending convert_oci_whiteouts_to_overlayfs read_body
    read_rest unpack_layer extract_layer publish_extracted write_layer strip_prefix ◌==◌
runs b = write_layer flat archives (storage_at root) zero_digest tar b fresh

writes : (runs body).0 ≡ ok tt
unfolding runs
writes = refl

abbrev attribute : Text → Option Node → Option Text
attribute name (some n) = xattr name n.xattrs
attribute name none = none

-- The missing target is a whiteout now, the directory is opaque, and no marker is left.
converts_missing :
    attribute whiteout_name (lookup (layer ++ codes "gone" ∷ []) (runs body).1.files)
    ≡ some (codes "y")
unfolding runs xattr
converts_missing = refl

converts_directory :
    attribute opaque_name (lookup (layer ++ codes "d" ∷ []) (runs body).1.files) ≡ some (codes "y")
unfolding runs xattr
converts_directory = refl

removes_markers :
    (lookup (layer ++ codes ".wh.gone" ∷ []) (runs body).1.files ≡ none)
    × (lookup (layer ++ codes ".wh.d" ∷ []) (runs body).1.files ≡ none)
    × (lookup (layer ++ codes "d" ∷ codes ".wh..wh..opq" ∷ []) (runs body).1.files ≡ none)
unfolding runs
removes_markers = (refl, refl, refl)

-- A body that breaks is no layer, and what was unpacked is removed.
refuses_broken :
    (lookup layer (runs (record { bytes = codes "tar"; broken = true })).1.files ≡ none)
    × (lookup
          (root ++ codes "temporary" ∷ zero_digest ∷ [])
          (runs (record { bytes = codes "tar"; broken = true })).1.files
        ≡ none)
unfolding runs
refuses_broken = (refl, refl)

outside_ne : (dir q r : FilePath) → strip dir q ≡ none → dir ++ r ≢ q
outside_ne dir q r h e = cc (h, ap (strip dir) e, strip-append dir r)

pub below_ne : (dir : FilePath) (c : Text) (r : FilePath) → dir ++ c ∷ r ≢ dir
below_ne dir c r e = cc (ap (strip dir) e, strip-append dir (c ∷ r), strip_self dir)

lookup-unpacked :
    (dir q : FilePath) (fs : Files)
    → dir ++ codes ".wh.gone" ∷ [] ≢ q
    → dir ++ codes ".wh.d" ∷ [] ≢ q
    → dir ++ codes "d" ∷ [] ≢ q
    → dir ++ codes "d" ∷ codes ".wh..wh..opq" ∷ [] ≢ q
    → lookup q (unpacked dir fs) ≡ lookup q fs
lookup-unpacked dir q fs a b c d =
    let fs₁ = put (dir ++ codes "d" ∷ codes ".wh..wh..opq" ∷ []) empty_file fs in
    let fs₂ = put (dir ++ codes "d" ∷ []) new_directory fs₁ in
    let fs₃ = put (dir ++ codes ".wh.d" ∷ []) empty_file fs₂ in
    ground (
      arith,
      lookup-put (dir ++ codes ".wh.gone" ∷ []) q empty_file fs₃,
      lookup-put (dir ++ codes ".wh.d" ∷ []) q empty_file fs₂,
      lookup-put (dir ++ codes "d" ∷ []) q new_directory fs₁,
      lookup-put (dir ++ codes "d" ∷ codes ".wh..wh..opq" ∷ []) q empty_file fs,
    )

pub archives-IsConfined : IsConfined archives
archives-IsConfined = record {
  outside = λ format b dir w q h.
      lookup-unpacked (resolve dir) q w.files (outside_ne _ q _ h) (outside_ne _ q _ h)
        (outside_ne _ q _ h) (outside_ne _ q _ h);
  directory = λ format b dir w h.
      is_dir_at_moved (resolve dir) (resolve dir) w.files (unpacked (resolve dir) w.files) (
        lookup-unpacked (resolve dir) (resolve dir) w.files (below_ne _ _ _) (below_ne _ _ _)
          (below_ne _ _ _) (below_ne _ _ _))
      ∙ h;
}

write_layer_whole_example :
    LayerWhole flat
      (resolve root ++ codes "layers" ∷ zero_digest ∷ [])
      body
      zero_digest
      fresh.files
      (write_layer flat archives (storage_at root) zero_digest tar body fresh)
unfolding ◌==◌
write_layer_whole_example =
    write_layer_whole flat archives archives-IsConfined root zero_digest tar body fresh refl

-- A digest that leads out of the layers.
write_layer-Harmless_example :
    Harmless root fresh.files
      (write_layer flat archives (storage_at root) (codes "../manifests") tar body fresh).1.files
    × ((is_plain (codes "../manifests") ≡ true)
        ⊎ ((e : StorageError) × ((write_layer flat archives
                (storage_at root)
                (codes "../manifests")
                tar
                body
                fresh).0
              ≡ err e)))
write_layer-Harmless_example =
    write_layer-Harmless root (codes "../manifests") flat archives tar body archives-IsConfined
      fresh
