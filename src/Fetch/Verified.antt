-- ===== src/Fetch/Verified.antt =====
-- What is known of a manifest that was fetched, whatever the registry answers.
use pakstak.Base.{
  codes, sym, ok_or, Text, ◌≡◌, ◌⊎◌, inl, inr, refl, Result, ok, err, Option, none, some, List,
  ◌++◌, Option-cases, Result-cases, Bool-cases, nat_eq, arith, subst,
}
use pakstak.Digest.Verifier.{Algorithm, verify_bytes}
use pakstak.Reference.{Reference, Specifier, digest, tag}
use pakstak.Manifest.{Descriptor, ImageIndex, FetchedManifest, Json}
use pakstak.Network.{
  read_to_end, header, body_unreadable, index_unparsable, index_empty, Http, FetchError,
  RegistryClient, Gives, Gives-bind, Gives-any, Gives-from_result, Gives-pure, Gives-weaken,
}
use pakstak.Fetch.{
  call_get_with_auth_retry, join_accept, ManifestBytes, ManifestMediaType, index, manifest, unknown,
  parse_bytes, manifest_media_types, index_media_types,
}
use pakstak.Fetch.Choices.{IsChoice, choose_sound}
use pakstak.Fetch.Manifests.{
  manifest_url_path, digest_header, verified, verify_requested, fetch_manifest_bytes,
  choose_descriptor, handle_image_index, or_index, by_media_type, fetch_image_manifest,
}

ok_or_sound : {A : Type 0} (o : Option A) (x : FetchError) {a : A} → ok_or o x ≡ ok a → o ≡ some a
ok_or_sound none x h = cc
ok_or_sound (some b) x h = ground arith

module _ (json : Json) where
  record IsParsed (b : ManifestBytes) (m : FetchedManifest) : Type 0 where
    bytes : m.bytes ≡ b.bytes
    same_digest : m.digest ≡ b.digest
    parsed : json.parse_manifest m.bytes ≡ some m.manifest
    version : m.manifest.schema_version ≡ 2

  parse_sound : (b : ManifestBytes) (m : FetchedManifest) → parse_bytes json b ≡ ok m → IsParsed b m
  unfolding parse_bytes
  parse_sound b m h = elim (Option-cases (json.parse_manifest b.bytes)) [
    | inl e ↦ ground (arith, e)
    | inr (x, e) ↦ elim (Bool-cases (nat_eq x.schema_version 2)) [
      | inr f ↦ ground (arith, e, f)
      | inl f ↦
          let made : record { manifest = x; bytes = b.bytes; digest = b.digest } ≡ m =
            ground (arith, e, f) in
          subst (IsParsed b) made
            (record { bytes = refl; same_digest = refl; parsed = e; version = ground (arith, f) })
    ]
  ]

module _ (hash : Algorithm → Text → Text) where
  -- The bytes are those that the specifier asks for; a tag asks for none in particular.
  abbrev pub IsAsked : Specifier → Text → Type 0
  IsAsked (digest d) bytes = verify_bytes hash bytes d ≡ ok tt
  IsAsked (tag t) bytes = Unit

  verified_sound :
      (bytes d : Text) (u : Unit {0})
      → verified hash bytes d ≡ ok u
      → verify_bytes hash bytes d ≡ ok tt
  verified_sound bytes d u h = elim (Result-cases (verify_bytes hash bytes d)) [
    | inl (e, f) ↦ ground (arith, f)
    | inr (v, f) ↦ ground (arith, f)
  ]

  verify_requested_sound :
      (s : Specifier) (bytes : Text) (u : Unit {0})
      → verify_requested hash s bytes ≡ ok u
      → IsAsked s bytes
  unfolding verify_requested
  verify_requested_sound (digest d) bytes u h = verified_sound bytes d u h
  verify_requested_sound (tag t) bytes u h = tt

  record IsFetched (r : Reference) (m : ManifestBytes) : Type 0 where
    own : verify_bytes hash m.bytes m.digest ≡ ok tt
    asked : IsAsked r.specifier m.bytes

  module _ (json : Json) (os arch : Text) where
    -- The bytes are asked for, or a verified index that is asked for names them.
    abbrev pub IsSelected : Specifier → Text → Type 0
    IsSelected s bytes =
        IsAsked s bytes
        ⊎ ((list : Text) × (ix : ImageIndex) × (d : Descriptor) × IsAsked s list
            × (json.parse_index list ≡ some ix)
            × IsChoice os arch ix.manifests d
            × (verify_bytes hash bytes d.digest ≡ ok tt))

    abbrev pub IsRight : Specifier → FetchedManifest → Type 0
    IsRight s m =
        (verify_bytes hash m.bytes m.digest ≡ ok tt)
        × (json.parse_manifest m.bytes ≡ some m.manifest)
        × (m.manifest.schema_version ≡ 2)
        × IsSelected s m.bytes

    parsed-IsRight :
        (r : Reference) (s : Specifier) (b : ManifestBytes) (m : FetchedManifest)
        → IsFetched r b
        → (IsAsked r.specifier b.bytes → IsSelected s b.bytes)
        → parse_bytes json b ≡ ok m
        → IsRight s m
    parsed-IsRight r s b m f k e =
        let p = parse_sound json b m e in
        (
          subst (λ x. verify_bytes hash m.bytes x ≡ ok tt) (sym p.same_digest)
              (subst (λ x. verify_bytes hash x b.digest ≡ ok tt) (sym p.bytes) f.own),
          p.parsed,
          p.version,
          subst (IsSelected s) (sym p.bytes) (k f.asked),
        )

  module _ {S : Type 0} (net : Http S) where
    fetch_manifest_bytes_sound :
        (r : Reference) (types : List Text)
        → Gives (IsFetched r) (fetch_manifest_bytes hash net r types)
    unfolding fetch_manifest_bytes
    fetch_manifest_bytes_sound r types =
        Gives-bind _ _
          (Gives-any (
            call_get_with_auth_retry net r.registry (manifest_url_path r)
              (header (codes "Accept") (join_accept types))))
          λ response _.
            Gives-bind _ _ (Gives-from_result (digest_header response)) λ header_digest _.
              Gives-bind _ _ (Gives-from_result (ok_or (read_to_end response.body) body_unreadable))
                λ bytes _.
                  Gives-bind _ _ (Gives-from_result (verified hash bytes header_digest))
                    λ right own.
                      Gives-bind _ _ (Gives-from_result (verify_requested hash r.specifier bytes))
                        λ asked wanted. Gives-pure _ (record {
                          own = verified_sound bytes header_digest right own;
                          asked = verify_requested_sound r.specifier bytes asked wanted;
                        })

    module _ (json : Json) (os arch : Text) where
      handle_image_index_sound :
          (r : Reference) (b : ManifestBytes)
          → IsFetched r b
          → Gives (IsRight json os arch r.specifier) (handle_image_index hash net json os arch r b)
      unfolding handle_image_index choose_descriptor
      handle_image_index_sound r b f =
          Gives-bind _ _ (Gives-from_result (ok_or (json.parse_index b.bytes) index_unparsable))
            λ ix e.
              Gives-bind _ _ (Gives-from_result (ok_or (choose_descriptor os arch ix) index_empty))
                λ d c.
                  Gives-bind _ _ (fetch_manifest_bytes_sound _ manifest_media_types) λ selected g.
                    Gives-weaken _
                      (λ m. parsed-IsRight json os arch _ r.specifier selected m g (λ asked. inr (
                        b.bytes,
                        ix,
                        d,
                        f.asked,
                        ok_or_sound _ _ e,
                        choose_sound os arch ix.manifests d (ok_or_sound _ _ c),
                        asked,
                      )))
                      (Gives-from_result (parse_bytes json selected))

      by_media_type_sound :
          (r : Reference) (b : ManifestBytes) (t : ManifestMediaType)
          → IsFetched r b
          → Gives (IsRight json os arch r.specifier) (by_media_type hash net json os arch r b t)
      by_media_type_sound r b index f = handle_image_index_sound r b f
      by_media_type_sound r b manifest f =
          Gives-weaken _ (λ m. parsed-IsRight json os arch r r.specifier b m f inl)
            (Gives-from_result _)
      by_media_type_sound r b unknown f = by_parse (parse_bytes json b) refl
        where
          by_parse :
              (x : Result FetchError FetchedManifest)
              → parse_bytes json b ≡ x
              → Gives (IsRight json os arch r.specifier) (or_index hash net json os arch r b x)
          by_parse (ok m) e = Gives-pure m (parsed-IsRight json os arch r r.specifier b m f inl e)
          by_parse (err x) e = handle_image_index_sound r b f

      -- Whatever the registry answers: a manifest that is fetched has the bytes of its digest, is
      -- what these parse to, and has the schema version 2. Where the reference names a digest, it is
      -- that of these bytes, or that of an index whose entry has the digest of these bytes; the
      -- entry is the first of this platform, or the first of all where none is.
      pub fetch_image_manifest-IsRight :
          (r : Reference) (c : RegistryClient S) (m : FetchedManifest)
          → (fetch_image_manifest hash net json os arch r c).0 ≡ ok m
          → IsRight json os arch r.specifier m
      unfolding fetch_image_manifest
      fetch_image_manifest-IsRight r c m h =
          (Gives-bind _ _ (fetch_manifest_bytes_sound r (index_media_types ++ manifest_media_types))
              (λ b f. by_media_type_sound r b b.media_type f)).at
            c m h
