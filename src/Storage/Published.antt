-- ===== src/Storage/Published.antt =====
-- The files that the storage publishes one by one: manifests, and the manifest digests of containers.
use mathlib.Core.List.{append_assoc}
use pakstak.Base.{
  Text, codes, contains, ◌==◌, ◌≡◌, ◌≢◌, refl, ap, ap₂, sym, ◌∙◌, false, [], ◌∷◌, ◌++◌, All, arith,
}
use pakstak.Fs.Paths.{FilePath, push, resolve, IsPlain}
use pakstak.Fs.PathLaws.{
  push_plain, resolve-child, resolve-plain, parent-child, file_name-child, json-IsPlain,
}
use pakstak.Fs.Files.{strip}
use pakstak.Fs.FileLaws.{strip-cancel, strip-ne}
use pakstak.Fs.World.{World}
use pakstak.Storage.Layout.{Storage, storage_at, container_path, manifest_path, json_suffix}
use pakstak.Storage.Places.{IsPlace}
use pakstak.Storage.Writer.{write_manifest, write_container_manifest_digest}
use pakstak.Storage.Atomic.{WrittenWhole, atomic_write_whole}

-- A plain name in a directory of the storage that is not the temporary one.
folder-IsPlace :
    (root rest : FilePath) (folder name : Text)
    → IsPlain (codes "temporary")
    → All IsPlain (folder ∷ rest)
    → IsPlain name
    → folder ≢ codes "temporary"
    → IsPlace (storage_at root) ((root ++ folder ∷ rest) ++ name ∷ []) (root ++ folder ∷ rest) name
unfolding storage_at
folder-IsPlace root rest folder name temp plain h other =
    let dir = root ++ folder ∷ rest in
    let at_dir : resolve dir ≡ resolve root ++ folder ∷ rest =
      resolve-plain root (folder ∷ rest) plain in
    let at_temp : resolve (push root (codes "temporary")) ≡ resolve root ++ codes "temporary" ∷ [] =
      ap resolve (push_plain root (codes "temporary") temp)
      ∙ resolve-child root (codes "temporary") temp in
    let at_path : resolve (dir ++ name ∷ []) ≡ resolve dir ++ name ∷ [] =
      resolve-child dir name h in
    let whole : resolve (dir ++ name ∷ []) ≡ resolve root ++ folder ∷ (rest ++ name ∷ []) =
      at_path
      ∙ ap (λ x. x ++ name ∷ []) at_dir
      ∙ append_assoc (resolve root) (folder ∷ rest) (name ∷ []) in
    record {
      parent_is = parent-child dir name;
      name_is = file_name-child dir name h;
      at_path = at_path;
      at_temporary =
          ap resolve (push_plain (push root (codes "temporary")) name h)
          ∙ resolve-child (push root (codes "temporary")) name h;
      apart =
          ap₂ strip at_temp whole
          ∙ strip-cancel (resolve root) (codes "temporary" ∷ []) (folder ∷ (rest ++ name ∷ []))
          ∙ strip-ne _ _ _ _ (λ e. other (sym e));
      apart' =
          ap₂ strip whole at_temp
          ∙ strip-cancel (resolve root) (folder ∷ (rest ++ name ∷ [])) (codes "temporary" ∷ [])
          ∙ strip-ne _ _ _ _ other;
    }

module _ (root : FilePath) where
  abbrev s : Storage
  s = storage_at root

  abbrev pub digest_file : Text → FilePath
  digest_file container =
      push (container_path (storage_at root) container) (codes "manifest_digest")

  IsPlain-manifests : IsPlain (codes "manifests")
  unfolding ◌==◌
  IsPlain-manifests = refl

  IsPlain-containers : IsPlain (codes "containers")
  unfolding ◌==◌
  IsPlain-containers = refl

  IsPlain-temporary : IsPlain (codes "temporary")
  unfolding ◌==◌
  IsPlain-temporary = refl

  IsPlain-digest : IsPlain (codes "manifest_digest")
  unfolding ◌==◌
  IsPlain-digest = refl

  manifest_path_lem :
      (digest : Text)
      → contains digest b'/' ≡ false
      → manifest_path s digest ≡ (root ++ codes "manifests" ∷ []) ++ (digest ++ json_suffix s) ∷ []
  unfolding storage_at
  manifest_path_lem digest h =
      push_plain (push root (codes "manifests")) (digest ++ json_suffix s) (json-IsPlain digest h)
      ∙ ap (λ p. p ++ (digest ++ json_suffix s) ∷ [])
          (push_plain root (codes "manifests") IsPlain-manifests)

  manifests_ne : codes "manifests" ≢ codes "temporary"
  manifests_ne = grind arith

  containers_ne : codes "containers" ≢ codes "temporary"
  containers_ne = grind arith

  pub manifest-IsPlace :
      (digest : Text)
      → contains digest b'/' ≡ false
      → IsPlace s
          (manifest_path s digest)
          (root ++ codes "manifests" ∷ [])
          (digest ++ json_suffix s)
  manifest-IsPlace digest h = rw (manifest_path_lem digest h) (
      folder-IsPlace root [] (codes "manifests") (digest ++ json_suffix s) IsPlain-temporary
        (IsPlain-manifests, tt) (json-IsPlain digest h) manifests_ne)

  container_path_lem :
      (container : Text)
      → IsPlain container
      → container_path s container ≡ root ++ codes "containers" ∷ container ∷ []
  unfolding storage_at
  container_path_lem container h =
      push_plain (push root (codes "containers")) container h
      ∙ ap (λ p. p ++ container ∷ []) (push_plain root (codes "containers") IsPlain-containers)
      ∙ append_assoc root (codes "containers" ∷ []) (container ∷ [])

  pub digest-IsPlace :
      (container : Text)
      → IsPlain container
      → IsPlace s
          (digest_file container)
          (root ++ codes "containers" ∷ container ∷ [])
          (codes "manifest_digest")
  digest-IsPlace container h =
      rw
        (
          push_plain (container_path s container) (codes "manifest_digest") IsPlain-digest,
          container_path_lem container h,
        )
        (folder-IsPlace root (container ∷ []) (codes "containers") (codes "manifest_digest")
          IsPlain-temporary (IsPlain-containers, (h, tt)) IsPlain-digest containers_ne)

  abbrev pub temporary_file : Text → FilePath
  temporary_file name = resolve (push (push root (codes "temporary")) name)

  -- Wherever saving a manifest is cut short, its file has the new contents after a success and what
  -- it had before after a failure; nothing else is changed but the temporary copy, save that
  -- directories are made. The digest has no slash.
  pub write_manifest_whole :
      (digest contents : Text) (w : World)
      → contains digest b'/' ≡ false
      → WrittenWhole
          (resolve (manifest_path s digest))
          (temporary_file (digest ++ codes ".json"))
          contents
          w.files
          (write_manifest s digest contents w)
  unfolding write_manifest storage_at
  write_manifest_whole digest contents w h =
      atomic_write_whole (manifest-IsPlace digest h) contents w

  -- Wherever saving the manifest digest of a container is cut short, its file has the new digest
  -- after a success and what it had before after a failure; nothing else is changed but the
  -- temporary copy, save that directories are made. The container's name is one plain name.
  pub write_container_manifest_digest_whole :
      (container digest : Text) (w : World)
      → IsPlain container
      → WrittenWhole
          (resolve (digest_file container))
          (temporary_file (codes "manifest_digest"))
          digest
          w.files
          (write_container_manifest_digest s container digest w)
  unfolding write_container_manifest_digest storage_at
  write_container_manifest_digest_whole container digest w h =
      atomic_write_whole (digest-IsPlace container h) digest w
