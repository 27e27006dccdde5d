-- ===== src/Tests/Repairs.antt =====
-- `repair` of a storage with one container, its manifest and its layer.
use pakstak.Base.{
  ℕ, codes, ◌==◌, true, Result, ok, some, [], ◌∷◌, ◌++◌, ◌≡◌, refl, strip_prefix, strip_suffix,
}
use pakstak.Base.Splits.{split, split_once}
use pakstak.Base.Utf8.{is_utf8, trim}
use pakstak.Digest.Hex.{hex_digit, hex_byte, decode_hex, decode_pairs}
use pakstak.Digest.Verifier.{algorithm, new, read as read_some, copy, verify, verify_bytes}
use pakstak.Reference.{as_typeless_str}
use pakstak.Manifest.{normalized_arch, matches_current_platform}
use pakstak.Network.{read_to_end}
use pakstak.Auth.{eq_ignore_ascii_case, send}
use pakstak.Formats.{try_from}
use pakstak.Fetch.{
  contains_text, parse_headers, registry_url, join_accept, find_token, request_get, find_matching,
  parse_bytes, send_get, authenticate, call_get_with_auth_retry,
}
use pakstak.Fetch.Manifests.{
  verify_requested, digest_header, fetch_manifest_bytes, choose_descriptor, handle_image_index,
  fetch_image_manifest,
}
use pakstak.Fetch.Images.{fetch_missing, fetch_layer, fetch_layers, save_image, fetch_image}
use pakstak.Fs.Paths.{push, resolve, go, path_eq, text_dec, path_dec}
use pakstak.Fs.Files.{
  Files, lookup, strip, names, is_dir_at, is_file_at, exists_at, regular_file, new_directory,
}
use pakstak.Fs.World.{operate, read_at, read, names_at, read_dir}
use pakstak.Storage.Action.{collect}
use pakstak.Storage.Layout.{storage_at, manifests_path, manifest_path}
use pakstak.Storage.Reader.{
  or_empty, read_dir_entries, select, into_string, strip_json, read_to_string, read_containers,
  read_container_manifest_digest, read_container_reference, read_manifest_digests,
  read_manifest_bytes, get_layer_path, is_manifest_saved,
}
use pakstak.Tasks.{TaskError, Session, new_client}
use pakstak.Prune.Entries.{NoSlash}
use pakstak.Commands.Repair.{
  count_missing, add_missing, check_parsed, check_bytes, check_manifest, check_each, check_all,
  repair_container, repair_each, report, repair,
}
use pakstak.Commands.Checked.{IsIntact}
use pakstak.Commands.Repaired.{repair-IsIntact}
use pakstak.Tests.Layers.{zeros, zero_digest}
use pakstak.Tests.Commands.{root, json, answers, crates, session}

-- One manifest with its layer.
abbrev stored : Files
stored =
    (root, new_directory)
    ∷ (root ++ codes "containers" ∷ [], new_directory)
    ∷ (root ++ codes "containers" ∷ codes "c" ∷ [], new_directory)
    ∷ (
      root ++ codes "containers" ∷ codes "c" ∷ codes "manifest_digest" ∷ [],
      regular_file zero_digest,
    )
    ∷ (
      root ++ codes "containers" ∷ codes "c" ∷ codes "reference.json" ∷ [],
      regular_file (codes "r"),
    )
    ∷ (root ++ codes "manifests" ∷ [], new_directory)
    ∷ (root ++ codes "manifests" ∷ (zero_digest ++ codes ".json") ∷ [], regular_file (codes "{}"))
    ∷ (root ++ codes "layers" ∷ [], new_directory)
    ∷ (root ++ codes "layers" ∷ zero_digest ∷ [], new_directory)
    ∷ []

runs : Result TaskError (Unit {0}) × Session ℕ
unfolding repair report repair_each repair_container check_all check_each check_manifest check_bytes
    check_parsed add_missing count_missing new_client read_containers read_container_manifest_digest
    read_container_reference read_manifest_digests read_manifest_bytes get_layer_path read_to_string
    or_empty read_dir_entries select into_string strip_json read_at read names_at read_dir operate
    collect is_utf8 trim split strip_suffix strip_prefix fetch_image save_image fetch_layers
    fetch_layer fetch_missing try_from normalized_arch matches_current_platform fetch_image_manifest
    fetch_manifest_bytes handle_image_index choose_descriptor digest_header verify_requested
    call_get_with_auth_retry authenticate send_get parse_bytes find_matching request_get find_token
    join_accept registry_url parse_headers contains_text eq_ignore_ascii_case verify_bytes verify
    copy new read_some algorithm decode_pairs decode_hex hex_byte hex_digit split_once
    as_typeless_str zeros answers read_to_end is_manifest_saved storage_at push resolve go path_dec
    path_eq text_dec lookup names strip is_dir_at is_file_at exists_at ◌==◌ send
runs = repair crates (storage_at root) (session stored)

succeeds : (repair crates (storage_at root) (session stored)).0 ≡ ok tt
unfolding runs
succeeds = refl

keeps_manifests :
    is_dir_at
      (resolve (manifests_path (storage_at root)))
      (repair crates (storage_at root) (session stored)).1.world.files
    ≡ true
unfolding runs
keeps_manifests = refl

zero_digest-NoSlash : NoSlash zero_digest
unfolding ◌==◌
zero_digest-NoSlash = refl

keeps_manifest :
    lookup
      (resolve (manifest_path (storage_at root) zero_digest))
      (repair crates (storage_at root) (session stored)).1.world.files
    ≡ some (regular_file (codes "{}"))
unfolding runs
keeps_manifest = refl

repair-IsIntact_example :
    IsIntact crates.hash json
      (storage_at root)
      zero_digest
      (codes "{}")
      (repair crates (storage_at root) (session stored)).1.world.files
repair-IsIntact_example =
    repair-IsIntact crates root (session stored) succeeds keeps_manifests zero_digest
      (regular_file (codes "{}")) (codes "{}") zero_digest-NoSlash keeps_manifest refl
