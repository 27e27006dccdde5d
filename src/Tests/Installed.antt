-- ===== src/Tests/Installed.antt =====
-- Commands on a storage with one installed container.
use pakstak.Base.{ℕ, codes, ◌==◌, Result, ok, some, [], ◌∷◌, ◌≡◌, refl, strip_prefix, strip_suffix}
use pakstak.Base.Splits.{split, split_once, join, rsplit_once}
use pakstak.Base.Utf8.{is_utf8, trim}
use pakstak.Digest.Hex.{hex_digit, hex_byte, decode_hex, decode_pairs}
use pakstak.Digest.Verifier.{algorithm, new, read as read_some, copy, verify, verify_bytes}
use pakstak.Reference.{as_typeless_str, parse, not_explicit, build, at_last, choose_specifier}
use pakstak.Manifest.{normalized_arch, matches_current_platform}
use pakstak.Network.{read_to_end}
use pakstak.Auth.{eq_ignore_ascii_case, send}
use pakstak.Formats.{try_from}
use pakstak.Fetch.{
  contains_text, parse_headers, registry_url, join_accept, find_token, request_get, find_matching,
  parse_bytes, send_get, authenticate, call_get_with_auth_retry,
}
use pakstak.Fetch.Manifests.{
  verify_requested, digest_header, fetch_manifest_bytes, choose_descriptor, handle_image_index,
  fetch_image_manifest,
}
use pakstak.Fetch.Images.{
  fetch_blob_reader, fetch_missing, fetch_layer, fetch_layers, save_image, fetch_image,
}
use pakstak.Fs.Paths.{push, resolve, go, path_eq, text_dec, path_dec, parent, file_name}
use pakstak.Fs.Files.{
  lookup, strip, names, is_dir_at, is_file_at, exists_at, regular_file, without, put, move_tree,
  remove_tree, tree_open,
}
use pakstak.Fs.World.{
  operate, read_at, read, names_at, read_dir, create_below, create_dir_all, may_replace, rename_at,
  rename, metadata_at, symlink_metadata, remove_file_at, remove_file, remove_dir_all_at,
  remove_dir_all, set_mode_at, set_permissions, write, write_at,
}
use pakstak.Storage.Action.{collect}
use pakstak.Storage.Layout.{storage_at}
use pakstak.Storage.Reader.{
  or_empty, read_dir_entries, select, into_string, strip_json, read_to_string, read_containers,
  read_container_manifest_digest, read_container_reference, read_manifest_digests,
  read_manifest_bytes, get_layer_path, is_manifest_saved, ensure_parent_dir, is_container_taken,
  ensure_container_installed,
}
use pakstak.Tasks.{TaskError, Session, new_client}
use pakstak.Commands.Repair.{
  count_missing, add_missing, check_parsed, check_bytes, check_manifest, check_each, check_all,
  repair_container, repair_each, report, repair,
}
use pakstak.Tests.Layers.{zeros, zero_digest, archives-IsConfined}
use pakstak.Tests.Commands.{
  root, json, answers, crates, session, empty-IsComplete, empty, other_digest,
}
use pakstak.Fs.Attributes.{set_xattr_at, set_xattr, create_new_at, create_new}
use pakstak.Storage.Writer.{
  publish_directory, write_manifest, write_container, atomic_write, write_container_manifest_digest,
}
use pakstak.Storage.Trees.{
  make_path_writable, set_writable, push_all, pending_below, make_writable, make_tree_writable,
  remove_dir_all_writable,
}
use pakstak.Storage.Whiteouts.{
  oci_whiteout_target_name, set_overlay_xattr, remove_oci_whiteout_marker, hide_target,
  convert_oci_whiteout_marker, push_directory, convert_target, convert_entry, convert_entries,
  convert_directory, convert_pending, convert_oci_whiteouts_to_overlayfs,
}
use pakstak.Storage.Layers.{
  read_body, read_rest, unpack_layer, extract_layer, publish_extracted, write_layer,
}
use pakstak.Install.{validate_container_name, is_name_byte, is_ascii_alphanumeric}
use pakstak.Storage.Published.{digest_file}
use pakstak.Storage.Complete.{IsComplete}
use pakstak.Commands.Update.{update_each, update_container, publish_update, update}
use pakstak.Tasks.Ends.{Ended, Ended-ok}
use pakstak.Commands.Install.{install}
use pakstak.Commands.Switch.{switch}
use pakstak.Commands.Installed.{install-IsComplete}
use pakstak.Commands.Kept.Switch.{switch-IsComplete}
use pakstak.Commands.Kept.Update.{update-IsComplete}
use pakstak.Commands.Kept.Repair.{repair-IsComplete}

installing : Result TaskError (Unit {0}) × Session ℕ
unfolding join fetch_blob_reader install validate_container_name is_name_byte is_ascii_alphanumeric
    parse build at_last not_explicit rsplit_once is_container_taken write_manifest write_container
    atomic_write write write_at choose_specifier new_client read_containers
    read_container_manifest_digest read_container_reference read_manifest_digests
    read_manifest_bytes get_layer_path read_to_string or_empty read_dir_entries select into_string
    strip_json read_at read names_at read_dir operate collect is_utf8 trim split strip_suffix
    strip_prefix fetch_image save_image fetch_layers fetch_layer fetch_missing try_from
    normalized_arch matches_current_platform fetch_image_manifest fetch_manifest_bytes
    handle_image_index choose_descriptor digest_header verify_requested call_get_with_auth_retry
    authenticate send_get parse_bytes find_matching request_get find_token join_accept registry_url
    parse_headers contains_text eq_ignore_ascii_case verify_bytes verify copy new read_some
    algorithm decode_pairs decode_hex hex_byte hex_digit split_once as_typeless_str zeros answers
    read_to_end is_manifest_saved storage_at push resolve go path_dec path_eq text_dec lookup names
    strip is_dir_at is_file_at exists_at ◌==◌ send parent file_name without put move_tree
    remove_tree tree_open create_below create_dir_all may_replace rename_at rename metadata_at
    symlink_metadata remove_file_at remove_file remove_dir_all_at remove_dir_all set_mode_at
    set_permissions set_xattr_at set_xattr create_new_at create_new ensure_parent_dir
    publish_directory make_path_writable set_writable push_all pending_below make_writable
    make_tree_writable remove_dir_all_writable oci_whiteout_target_name set_overlay_xattr
    remove_oci_whiteout_marker hide_target convert_oci_whiteout_marker push_directory convert_target
    convert_entry convert_entries convert_directory convert_pending
    convert_oci_whiteouts_to_overlayfs read_body read_rest unpack_layer extract_layer
    publish_extracted write_layer
installing = install crates (storage_at root) (codes "c") (codes "localhost/app") (session empty)

installs :
    (install crates (storage_at root) (codes "c") (codes "localhost/app") (session empty)).0 ≡ ok tt
unfolding installing
installs = refl

abbrev place : Session ℕ
place = (install crates (storage_at root) (codes "c") (codes "localhost/app") (session empty)).1

installed-IsComplete : IsComplete root json place.world.files
installed-IsComplete =
    (Ended-ok _ _
      (install crates (storage_at root) (codes "c") (codes "localhost/app") (session empty)) tt
      installs
      (install-IsComplete crates root archives-IsConfined (codes "c") (codes "localhost/app")
        (session empty) empty-IsComplete)).0

-- The container is switched, updated and repaired there.
switches : (switch crates (storage_at root) (codes "c") zero_digest place).0 ≡ ok tt
unfolding installing switch new_client ensure_container_installed read_container_reference
    write_container_manifest_digest
switches = refl

updates :
    lookup
      (resolve (digest_file root (codes "c")))
      (update crates (storage_at root) (codes "c" ∷ []) place).1.world.files
    ≡ some (regular_file other_digest)
unfolding installing update update_each update_container publish_update new_client
    ensure_container_installed read_container_reference write_container_manifest_digest
updates = refl

repairs : (repair crates (storage_at root) place).0 ≡ ok tt
unfolding installing repair report repair_each repair_container check_all check_each check_manifest
    check_bytes check_parsed add_missing count_missing
repairs = refl

switch-IsComplete_example :
    Ended
      (λ _ fs.
        IsComplete root json fs
        × (lookup (resolve (digest_file root (codes "c"))) fs ≡ some (regular_file zero_digest)))
      (IsComplete root json)
      (switch crates (storage_at root) (codes "c") zero_digest place)
unfolding ◌==◌
switch-IsComplete_example =
    switch-IsComplete crates root archives-IsConfined (codes "c") zero_digest refl place
      installed-IsComplete

update-IsComplete_example :
    Ended
      (λ _. IsComplete root json)
      (IsComplete root json)
      (update crates (storage_at root) (codes "c" ∷ []) place)
unfolding ◌==◌
update-IsComplete_example =
    update-IsComplete crates root archives-IsConfined (λ c cs h. h) (codes "c" ∷ []) (refl, tt)
      place installed-IsComplete

repair-IsComplete_example :
    Ended (λ _. IsComplete root json) (IsComplete root json) (repair crates (storage_at root) place)
repair-IsComplete_example =
    repair-IsComplete crates root archives-IsConfined place installed-IsComplete
