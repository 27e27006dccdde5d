-- ===== src/Commands/CheckedAll.antt =====
-- The check at the end of `repair`, of all that is listed.
use pakstak.Base.{
  Text, codes, strip_suffix-append, Result, ok, err, Bool, true, Bool-cases, some, Option-cases,
  inl, inr, List, [], ◌∷◌, ◌++◌, All, mem, ◌≡◌, refl, ap, sym, subst, ◌∙◌, ok_injective, arith,
  ==_iff, ◌==◌,
}
use pakstak.Base.Utf8.{is_utf8}
use pakstak.Digest.Verifier.{Algorithm}
use pakstak.Manifest.{Json}
use pakstak.Fs.Paths.{FilePath, push, resolve}
use pakstak.Fs.PathLaws.{json-IsPlain, push_plain, resolve-child}
use pakstak.Fs.Files.{
  Files, Node, regular, lookup, names, is_dir_at, is_file_at, exists_at, node_is_dir,
}
use pakstak.Fs.Children.{mem-names}
use pakstak.Fs.World.{World, still, read_at, read_dir, names_at, operate}
use pakstak.Storage.Action.{StorageError, chain_value}
use pakstak.Storage.Layout.{Storage, storage_at, manifests_path, manifest_path}
use pakstak.Storage.Reader.{
  read_dir_entries, or_empty, select, into_string, strip_json, map_names, read_manifest_digests,
}
use pakstak.Storage.Reads.{Reads}
use pakstak.Commands.Repair.{Found, check_each, check_all}
use pakstak.Prune.Entries.{NoSlash}
use pakstak.Storage.Triple.{Post, Triple}
use pakstak.Commands.Checked.{
  IsIntact, IsClean, Checked, Reads-read_manifest_digests, Reads-check_all, check_each_sound,
}

mem-select :
    (p : Text → Bool) (c : Text) (cs : List Text)
    → mem c cs ≡ true
    → p c ≡ true
    → mem c (select p cs) ≡ true
unfolding select
mem-select p c [] h k = cc
mem-select p c (d ∷ cs) h k = elim (Bool-cases (c == d)) [
  | inl e ↦
      let same = (==_iff c d).0 e in
      let there : p d ≡ true = subst (λ x. p x ≡ true) same k in ground (arith, e, there)
  | inr e ↦ ground (arith, e, mem-select p c cs (ground (arith, e, h)) k)
]

All-map_names :
    (P : Result StorageError Text → Type 0) (f : Text → Result StorageError Text) (cs : List Text)
    → All P (map_names f cs)
    → (c : Text) → mem c cs ≡ true
    → P (f c)
All-map_names P f [] h c m = cc
All-map_names P f (d ∷ cs) (h, hs) c m = elim (Bool-cases (c == d)) [
  | inl e ↦ subst (λ x. P (f x)) (sym ((==_iff c d).0 e)) h
  | inr e ↦ All-map_names P f cs hs c (ground (arith, e, m))
]

strip_json-json : (d e : Text) → strip_json (d ++ codes ".json") ≡ ok e → e ≡ d
unfolding strip_json into_string
strip_json-json d e h = elim (Bool-cases (is_utf8 (d ++ codes ".json"))) [
  | inl f ↦ ground (arith, f, h, strip_suffix-append d (codes ".json"))
  | inr f ↦ ground (arith, f, h)
]

module _ (hash : Algorithm → Text → Text) (json : Json) (root : FilePath) where
  abbrev s : Storage
  s = storage_at root

  abbrev dir : FilePath
  dir = resolve (manifests_path s)

  abbrev files : Files → List Text
  files fs = select (λ name. is_file_at (resolve (push (manifests_path s) name)) fs) (names dir fs)

  -- What is listed when nothing is cut short.
  listed :
      (fs : Files)
      → is_dir_at dir fs ≡ true
      → (read_manifest_digests s (still fs)).0 ≡ ok (map_names strip_json (files fs))
  unfolding read_manifest_digests read_dir_entries or_empty read_dir names_at operate is_dir_at
      lookup names
  listed fs h = elim (Option-cases (lookup dir fs)) [
    | inl e ↦ ground (arith, e, h)
    | inr (n, e) ↦ let d : node_is_dir n ≡ true = ground (arith, e, h) in rw (e, d) refl
  ]

  check_all_sound :
      (fs : Files) (found : Found)
      → is_dir_at dir fs ≡ true
      → (check_all hash json s (still fs)).0 ≡ ok found
      → IsClean hash json s found
      → All (Checked hash json s fs) (map_names strip_json (files fs))
  unfolding check_all
  check_all_sound fs found there h clean =
      let start : Found = record { invalid_manifests = 0; missing_layers = 0 } in
      let (entries, e, f) =
        chain_value (read_manifest_digests s) (check_each hash json s start) (still fs) found h in
      let run : (check_each hash json s start entries (still fs)).0 ≡ ok found =
        rw ((Reads-read_manifest_digests s).calm fs) at f in
      let same : entries ≡ map_names strip_json (files fs) =
        ok_injective entries _ (sym e ∙ listed fs there) in
      subst (All (Checked hash json s fs)) same
        (check_each_sound hash json s start found entries fs run clean).1

  -- Each manifest that is saved is intact.
  abbrev pub AllIntact : Files → Type 0
  AllIntact fs =
      is_dir_at (resolve (manifests_path s)) fs ≡ true
      → (d : Text) (n : Node) (bytes : Text) → NoSlash d
      → lookup (resolve (manifest_path s d)) fs ≡ some n
      → n.kind ≡ regular bytes
      → IsIntact hash json s d bytes fs

  checked-AllIntact :
      (fs : Files) (found : Found)
      → (check_all hash json s (still fs)).0 ≡ ok found
      → IsClean hash json s found
      → AllIntact fs
  unfolding exists_at is_file_at read_at
  checked-AllIntact fs found h clean there d n bytes slash at kind =
      let name = d ++ codes ".json" in
      let plain = json-IsPlain d slash in
      let place : resolve (manifest_path s d) ≡ dir ++ name ∷ [] =
        ap resolve (push_plain (manifests_path s) name plain)
        ∙ resolve-child (manifests_path s) name plain in
      let named = mem-names dir name fs plain (there_at (dir ++ name ∷ []) (rw place at at)) in
      let kept = mem-select _ name (names dir fs) named (is_file kind at) in
      let (d', bytes', strips, reads, right) =
        All-map_names (Checked hash json s fs) strip_json (files fs)
          (check_all_sound fs found there h clean) name kept in
      let same : d' ≡ d = strip_json-json d d' strips in
      let reads' : read_at (resolve (manifest_path s d)) fs ≡ ok bytes' =
        subst (λ x. read_at (resolve (manifest_path s x)) fs ≡ ok bytes') same reads in
      let bytes_same : bytes' ≡ bytes =
        ok_injective bytes' bytes (sym reads' ∙ reads_at (resolve (manifest_path s d)) kind at) in
      subst (λ x. IsIntact hash json s d x fs) bytes_same
        (subst (λ x. IsIntact hash json s x bytes' fs) same right)
    where
      there_at : (q : FilePath) → lookup q fs ≡ some n → exists_at q fs ≡ true
      there_at q e = ground (arith, e)

      is_file :
          n.kind ≡ regular bytes
          → lookup (resolve (manifest_path s d)) fs ≡ some n
          → is_file_at (resolve (manifest_path s d)) fs ≡ true
      is_file k e = ground (arith, e, k)

      reads_at :
          (q : FilePath) → n.kind ≡ regular bytes → lookup q fs ≡ some n → read_at q fs ≡ ok bytes
      reads_at q k e = ground (arith, e, k)

  pub check_all-Triple :
      Triple
        (λ w. Unit {0})
        (check_all hash json s)
        (λ found w. IsClean hash json s found → AllIntact w.files)
        (λ w. Unit {0})
  check_all-Triple = record { at = λ w _. by_end w (check_all hash json s w).0 refl }
    where
      reads : Reads (check_all hash json s)
      reads = Reads-check_all hash json s

      by_end :
          (w : World) (r : Result StorageError Found)
          → (check_all hash json s w).0 ≡ r
          → Post
              (λ found v. IsClean hash json s found → AllIntact v.files)
              (λ v. Unit {0})
              (r, (check_all hash json s w).1)
      by_end w (ok found) e = λ clean.
          subst AllIntact (sym (reads.same w))
            (checked-AllIntact w.files found (reads.agrees w found e) clean)
      by_end w (err x) e = tt
