-- ===== src/Prune/Entries.antt =====
-- What the listings of the storage give: names that are single components of a path.
use pakstak.Base.{
  Text, codes, contains, contains-append, strip_suffix, strip_suffix_sound, Result, Result-cases,
  ok, err, map_err, ok_injective, Bool, false, Bool-cases, Option-cases, inl, inr, List, [], ◌∷◌,
  ◌++◌, All, ◌≡◌, refl, ap, sym, arith,
}
use pakstak.Fs.Paths.{FilePath, push, IsPlain}
use pakstak.Fs.World.{IoKind, not_found, World, read_dir, is_file, is_dir}
use pakstak.Storage.Action.{StorageError, io, query}
use pakstak.Storage.Layout.{Storage, manifests_path, layers_path, containers_path, layer_locks_path}
use pakstak.Storage.Reader.{
  or_empty, read_dir_entries, select, into_string, strip_json, map_names, read_manifest_digests,
  read_layer_digests, read_containers,
}
use pakstak.Storage.Locks.{read_layer_lock_digests}
use pakstak.Storage.Frames.{Framing-value}
use pakstak.Storage.Leaving.{SameOn-IsPreorder, Leaving, Leaving-pure, Leaving-bind}
use pakstak.Storage.Removal.{Leaving-read_dir}

-- The value of an entry, if it has one, has the property.
abbrev pub EntryOf : (Text → Type 0) → Result StorageError Text → Type 0
EntryOf P entry = (d : Text) → entry ≡ ok d → P d

All-select : (P : Text → Type 0) (p : Text → Bool) (l : List Text) → All P l → All P (select p l)
unfolding select
All-select P p [] h = tt
All-select P p (a ∷ l) (h, hs) = elim (Bool-cases (p a)) [
  | inl e ↦ rw (e, select) (h, All-select P p l hs)
  | inr e ↦ rw (e, select) (All-select P p l hs)
]

All-map_names :
    {P R : Text → Type 0} (f : Text → Result StorageError Text)
    → ((n d : Text) → P n → f n ≡ ok d → R d)
    → (l : List Text) → All P l
    → All (EntryOf R) (map_names f l)
All-map_names f h [] a = tt
All-map_names f h (n ∷ l) (x, xs) = (λ d e. h n d x e, All-map_names f h l xs)

into_string_sound : (n d : Text) → into_string n ≡ ok d → d ≡ n
unfolding into_string
into_string_sound n d h = ground arith

strip_json_sound : (n d : Text) → strip_json n ≡ ok d → n ≡ d ++ codes ".json"
unfolding strip_json
strip_json_sound n d h = elim (Result-cases (into_string n)) [
  | inl (x, e) ↦ ground (arith, e)
  | inr (m, e) ↦ elim (Option-cases (strip_suffix (codes ".json") m)) [
    | inl f ↦ ground (arith, e, f)
    | inr (r, f) ↦
        ground (arith, e, f, into_string_sound n m e, strip_suffix_sound (codes ".json") m f)
  ]
]

into_string-IsPlain : (n d : Text) → IsPlain n → into_string n ≡ ok d → IsPlain d
into_string-IsPlain n d h e = rw (into_string_sound n d e) h

abbrev pub NoSlash : Text → Type 0
NoSlash d = contains d b'/' ≡ false

strip_json-NoSlash : (n d : Text) → IsPlain n → strip_json n ≡ ok d → NoSlash d
strip_json-NoSlash n d h e =
    let e' = contains-append d (codes ".json") b'/' in
    let f = ap (λ x. contains x b'/') (strip_json_sound n d e) in ground arith

or_empty-IsPlain :
    (r : Result IoKind (List Text))
    → ((l : List Text) → r ≡ ok l → All IsPlain l)
    → (l : List Text) → or_empty r ≡ ok l
    → All IsPlain l
unfolding or_empty
or_empty-IsPlain (ok names) h l e = rw (sym (ok_injective names l e)) (h names refl)
or_empty-IsPlain (err not_found) h l e = rw (sym (ok_injective [] l e)) tt
or_empty-IsPlain (err k) h l e = cc

module _ {Q : FilePath → Type 0} where
  Leaving-value :
      {A : Type 0} {R : A → Type 0} (f : World → A)
      → ((w : World) → R (f w))
      → Leaving Q R (query f)
  Leaving-value f h = Framing-value SameOn-IsPreorder f h

  Leaving-read_dir_entries : (p : FilePath) → Leaving Q (All IsPlain) (read_dir_entries p)
  unfolding read_dir_entries
  Leaving-read_dir_entries p = record {
    framed = (Leaving-read_dir p).framed;
    result = λ w l e.
        or_empty-IsPlain (read_dir p w).0
          (λ l' e'. (Leaving-read_dir {Q = Q} p).result w l' (ap (map_err io) e')) l e;
  }

  module _ (s : Storage) where
    pub Leaving-read_manifest_digests : Leaving Q (All (EntryOf NoSlash)) (read_manifest_digests s)
    unfolding read_manifest_digests
    Leaving-read_manifest_digests =
        Leaving-bind _ _ (Leaving-read_dir_entries (manifests_path s)) λ names h.
          Leaving-bind _ _
            (Leaving-value {R = All IsPlain} _
              (λ w. All-select IsPlain (λ name. is_file (push (manifests_path s) name) w) names h))
            λ files k. Leaving-pure _ (All-map_names strip_json strip_json-NoSlash files k)

    pub Leaving-read_layer_digests : Leaving Q (All (EntryOf IsPlain)) (read_layer_digests s)
    unfolding read_layer_digests
    Leaving-read_layer_digests =
        Leaving-bind _ _ (Leaving-read_dir_entries (layers_path s)) λ names h.
          Leaving-bind _ _
            (Leaving-value {R = All IsPlain} _
              (λ w. All-select IsPlain (λ name. is_dir (push (layers_path s) name) w) names h))
            λ files k. Leaving-pure _ (All-map_names into_string into_string-IsPlain files k)

    pub Leaving-read_containers : Leaving Q (All (EntryOf IsPlain)) (read_containers s)
    unfolding read_containers
    Leaving-read_containers =
        Leaving-bind _ _ (Leaving-read_dir_entries (containers_path s)) λ names h.
          Leaving-bind _ _
            (Leaving-value {R = All IsPlain} _
              (λ w. All-select IsPlain (λ name. is_dir (push (containers_path s) name) w) names h))
            λ files k. Leaving-pure _ (All-map_names into_string into_string-IsPlain files k)

    pub Leaving-read_layer_lock_digests :
        Leaving Q (All (EntryOf IsPlain)) (read_layer_lock_digests s)
    unfolding read_layer_lock_digests
    Leaving-read_layer_lock_digests =
        Leaving-bind _ _ (Leaving-read_dir_entries (layer_locks_path s)) λ names h.
          Leaving-bind _ _
            (Leaving-value {R = All IsPlain} _ (λ w.
              All-select IsPlain (λ name. is_file (push (layer_locks_path s) name) w) names h))
            λ files k. Leaving-pure _ (All-map_names into_string into_string-IsPlain files k)
