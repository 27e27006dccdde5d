-- ===== src/Commands/Checked.antt =====
-- The check at the end of `repair`, manifest by manifest.
use pakstak.Base.{
  ◌+◌, Text, Result, ok, err, map_err, true, Bool-cases, Option, none, some, Option-cases,
  Result-cases, inl, inr, List, [], ◌∷◌, All, ◌≡◌, refl, arith,
}
use pakstak.Digest.Verifier.{Algorithm, verify_bytes}
use pakstak.Manifest.{Descriptor, ImageManifest, Json}
use pakstak.Fs.Paths.{push, resolve}
use pakstak.Fs.Files.{Files, is_dir_at, is_file_at}
use pakstak.Fs.World.{IoKind, World, still, read, read_at, operate}
use pakstak.Storage.Action.{StorageError, io, continue, chain_value}
use pakstak.Storage.Layout.{Storage, manifests_path, manifest_path, layer_path}
use pakstak.Storage.Reader.{
  select, strip_json, map_names, read_manifest_digests, read_manifest_bytes, get_layer_path,
}
use pakstak.Storage.Reads.{
  Reads, Reads-pure, Reads-from_result, Reads-bind, Reads-query, Reads-read, Reads-read_dir_entries,
}
use pakstak.Commands.Repair.{
  Found, count_missing, add_missing, check_parsed, check_bytes, check_manifest, check_each,
  check_all,
}

module _ (s : Storage) where
  abbrev pub AllThere : List Descriptor → Files → Type 0
  AllThere layers fs =
      All (λ (x : Descriptor). is_dir_at (resolve (layer_path s x.digest)) fs ≡ true) layers

  count_missing-still :
      (layers : List Descriptor) (w : World)
      → count_missing s layers w ≡ count_missing s layers (still w.files)
  unfolding count_missing get_layer_path
  count_missing-still [] w = refl
  count_missing-still (x ∷ layers) w = ground (arith, count_missing-still layers w)

  count_missing-zero :
      (layers : List Descriptor) (fs : Files)
      → count_missing s layers (still fs) ≡ 0
      → AllThere layers fs
  unfolding count_missing get_layer_path
  count_missing-zero [] fs h = tt
  count_missing-zero (x ∷ layers) fs h =
      elim (Bool-cases (is_dir_at (resolve (layer_path s x.digest)) fs)) [
        | inl e ↦ (e, count_missing-zero layers fs (ground (arith, e, h)))
        | inr e ↦ ground (arith, e, h)
      ]

  pub Reads-read_manifest_digests : Reads (read_manifest_digests s)
  unfolding read_manifest_digests
  Reads-read_manifest_digests = Reads-bind _ _ (Reads-read_dir_entries _) λ cs.
      Reads-bind _ _
        (Reads-query
          (λ fs. select (λ name. is_file_at (resolve (push (manifests_path s) name)) fs) cs))
        λ files. Reads-pure (map_names strip_json files)

  Reads-read_manifest_bytes : (d : Text) → Reads (read_manifest_bytes s d)
  unfolding read_manifest_bytes
  Reads-read_manifest_bytes d = Reads-read (manifest_path s d)

module _ (hash : Algorithm → Text → Text) (json : Json) (s : Storage) where
  -- The manifest has the bytes of its digest, and its layers are there.
  abbrev pub IsIntact : Text → Text → Files → Type 0
  IsIntact d bytes fs =
      (verify_bytes hash bytes d ≡ ok tt)
      × ((m : ImageManifest) × (json.parse_manifest bytes ≡ some m) × AllThere s m.layers fs)

  Reads-check_parsed :
      (found : Found) (m : Option ImageManifest) → Reads (check_parsed hash json s found m)
  unfolding check_parsed add_missing
  Reads-check_parsed found none = Reads-pure _
  Reads-check_parsed found (some m) = record {
    same = λ w. refl;
    calm = λ fs. refl;
    agrees = λ w a h. ground (arith, h, count_missing-still s m.layers w);
  }

  Reads-check_bytes :
      (found : Found) (d bytes : Text) → Reads (check_bytes hash json s found d bytes)
  unfolding check_bytes
  Reads-check_bytes found d bytes = elim (Result-cases (verify_bytes hash bytes d)) [
    | inl (e, f) ↦ rw (f, check_bytes) (Reads-pure _)
    | inr (u, f) ↦ rw (f, check_bytes) (Reads-check_parsed found (json.parse_manifest bytes))
  ]

  Reads-check_manifest :
      (found : Found) (entry : Result StorageError Text)
      → Reads (check_manifest hash json s found entry)
  unfolding check_manifest
  Reads-check_manifest found entry =
      Reads-bind _ _ (Reads-from_result entry)
        λ d. Reads-bind _ _ (Reads-read_manifest_bytes s d) λ bytes. Reads-check_bytes found d bytes

  pub Reads-check_each :
      (found : Found) (entries : List (Result StorageError Text))
      → Reads (check_each hash json s found entries)
  unfolding check_each
  Reads-check_each found [] = Reads-pure found
  Reads-check_each found (entry ∷ entries) =
      Reads-bind _ _ (Reads-check_manifest found entry) λ found'. Reads-check_each found' entries

  pub Reads-check_all : Reads (check_all hash json s)
  unfolding check_all
  Reads-check_all =
      Reads-bind _ _ (Reads-read_manifest_digests s) λ entries. Reads-check_each _ entries

  abbrev pub IsClean : Found → Type 0
  IsClean found = (found.invalid_manifests ≡ 0) × (found.missing_layers ≡ 0)

  abbrev pub Checked : Files → Result StorageError Text → Type 0
  Checked fs entry =
      (d : Text) × (bytes : Text) × (entry ≡ ok d)
      × (read_at (resolve (manifest_path s d)) fs ≡ ok bytes)
      × IsIntact d bytes fs

  check_bytes_sound :
      (found found' : Found) (d bytes : Text) (fs : Files)
      → (check_bytes hash json s found d bytes (still fs)).0 ≡ ok found'
      → IsClean found'
      → IsClean found × IsIntact d bytes fs
  unfolding check_bytes check_parsed add_missing
  check_bytes_sound found found' d bytes fs h (i, j) =
      elim (Result-cases (verify_bytes hash bytes d)) [
        | inl (e, f) ↦ ground (arith, f, h, i)
        | inr (u, f) ↦ elim (Option-cases (json.parse_manifest bytes)) [
          | inl g ↦ ground (arith, f, g, h, i)
          | inr (m, g) ↦
              let sum : found.missing_layers + count_missing s m.layers (still fs) ≡ 0 =
                ground (arith, f, g, h, j) in
              let clean : found.invalid_manifests ≡ 0 = ground (arith, f, g, h, i) in
              (
                (clean, omega (arith, sum)),
                (f, (m, g, count_missing-zero s m.layers fs (omega (arith, sum)))),
              )
        ]
      ]

  check_manifest_sound :
      (found found' : Found) (entry : Result StorageError Text) (fs : Files)
      → (check_manifest hash json s found entry (still fs)).0 ≡ ok found'
      → IsClean found'
      → IsClean found × Checked fs entry
  unfolding check_manifest read_manifest_bytes read operate
  check_manifest_sound found found' (err e) fs h k = cc
  check_manifest_sound found found' (ok d) fs h k =
      by_read (read_at (resolve (manifest_path s d)) fs) refl h
    where
      by_read :
          (r : Result IoKind Text)
          → read_at (resolve (manifest_path s d)) fs ≡ r
          → (continue (map_err io r) (check_bytes hash json s found d) (still fs)).0 ≡ ok found'
          → IsClean found × Checked fs (ok d)
      by_read (ok bytes) e g =
          let (clean, right) = check_bytes_sound found found' d bytes fs g k in
          (clean, (d, bytes, refl, e, right))
      by_read (err x) e g = cc

  pub check_each_sound :
      (found found' : Found) (entries : List (Result StorageError Text)) (fs : Files)
      → (check_each hash json s found entries (still fs)).0 ≡ ok found'
      → IsClean found'
      → IsClean found × All (Checked fs) entries
  unfolding check_each
  check_each_sound found found' [] fs h k = (ground (arith, h, k), tt)
  check_each_sound found found' (entry ∷ entries) fs h k =
      let (mid, e, f) =
        chain_value (check_manifest hash json s found entry)
          (λ found'. check_each hash json s found' entries) (still fs) found' h in
      let rest : (check_each hash json s mid entries (still fs)).0 ≡ ok found' =
        rw ((Reads-check_manifest found entry).calm fs) at f in
      let (clean, checked) = check_each_sound mid found' entries fs rest k in
      let (clean', here) = check_manifest_sound found mid entry fs e clean in
      (clean', (here, checked))
