-- ===== src/Storage/Extraction.antt =====
-- What the extraction of a layer changes, and what it has checked where it succeeds.
use pakstak.Base.{
  ==_iff, ok_injective, ap₂, ℕ, zero, suc, ◌<◌, Text, ok, map_err, Bool, true, false, none, some,
  [], ◌∷◌, ◌++◌, length, take, drop, ◌≡◌, refl, ap, sym, ◌∙◌, arith, length-drop, take-append-drop,
  if◌then◌else◌,
}
use mathlib.Core.List.{append_assoc}
use pakstak.Digest.Verifier.{
  Algorithm, DigestError, DigestVerifier, new, read, copy, verify, verify_bytes,
}
use pakstak.Digest.Verified.{new-IsNew, verify_bytes_iff}
use pakstak.Network.{Body}
use pakstak.Storage.Action.{StorageError, layer_digest}
use pakstak.Storage.Layers.{read_body, taken_from, copied, read_rest}

abbrev holding : DigestVerifier Body → Text → Bool → Text → DigestVerifier Body
holding v bytes broken hashed = record v {
  reader = record { bytes = bytes; broken = broken };
  hashed = hashed;
}

-- A body is copied to its end, or to where it breaks.
copy_body :
    (room fuel : ℕ) (v : DigestVerifier Body) (bytes hashed : Text) (broken : Bool)
    → length bytes < fuel
    → copied (copy (read read_body) (suc room) fuel (holding v bytes broken hashed))
      ≡ copied (if broken then none else some (ok (holding v [] broken (hashed ++ bytes))))
unfolding copy read read_body
copy_body room zero v bytes hashed broken k = absurd (omega arith)
copy_body room (suc fuel) v [] hashed true k = refl
copy_body room (suc fuel) v [] hashed false k = refl
copy_body room (suc fuel) v (b ∷ bytes) hashed broken k =
    copy_body room fuel v (drop room bytes) (hashed ++ b ∷ take room bytes) broken
      (omega (arith, length-drop room bytes))
    ∙ ap (λ h. copied (if broken then none else some (ok (holding v [] broken h))))
        (append_assoc hashed (b ∷ take room bytes) (drop room bytes)
          ∙ ap (λ h. hashed ++ b ∷ h) (take-append-drop room bytes))

-- The verifier after all of the body went through it.
read_rest_sound :
    (v v' : DigestVerifier Body) (body : Body) (k : ℕ)
    → v.reader ≡ body
    → v.hashed ≡ []
    → read_rest (taken_from k v) ≡ ok v'
    → (body.broken ≡ false)
      × (v'.hashed ≡ body.bytes)
      × (v'.context ≡ v.context)
      × (v'.expected ≡ v.expected)
unfolding read_rest
read_rest_sound v v' body k er eh h =
    let bytes = v.reader.bytes in
    let ran =
      copy_body 8191 (suc (length (drop k bytes))) v (drop k bytes) (v.hashed ++ take k bytes)
        v.reader.broken (omega arith) in
    let whole : (v.hashed ++ take k bytes) ++ drop k bytes ≡ body.bytes =
      rw (eh, er) (take-append-drop k body.bytes) in
    by_broken v.reader.broken refl (sym ran ∙ h) whole
  where
    by_broken :
        (b : Bool)
        → v.reader.broken ≡ b
        → copied (
            if b
            then none
            else some (
                ok (holding v [] b ((v.hashed ++ take k v.reader.bytes) ++ drop k v.reader.bytes))))
          ≡ ok v'
        → (v.hashed ++ take k v.reader.bytes) ++ drop k v.reader.bytes ≡ body.bytes
        → (body.broken ≡ false)
          × (v'.hashed ≡ body.bytes)
          × (v'.context ≡ v.context)
          × (v'.expected ≡ v.expected)
    by_broken true e f g = cc
    by_broken false e f g =
        let same = ok_injective _ v' f in
        let unbroken = ap (λ (x : Body). x.broken) (sym er) ∙ e in
        (
          unbroken,
          ap (λ (x : DigestVerifier Body). x.hashed) (sym same) ∙ g,
          ap (λ (x : DigestVerifier Body). x.context) (sym same),
          ap (λ (x : DigestVerifier Body). x.expected) (sym same),
        )

module _ (hash : Algorithm → Text → Text) where
  -- The whole body was there, and its bytes are those of the digest.
  abbrev pub IsVerified : Body → Text → Type 0
  IsVerified body digest = (body.broken ≡ false) × (verify_bytes hash body.bytes digest ≡ ok tt)

  verified_sound :
      (v : DigestVerifier Body)
      → map_err {E = DigestError} {F = StorageError} layer_digest (verify hash v) ≡ ok tt
      → hash v.context v.hashed ≡ v.expected
  unfolding verify
  verified_sound v h = ground (arith, ==_iff (hash v.context v.hashed) v.expected, h)

  pub extraction-IsVerified :
      (body : Body) (digest : Text) (k : ℕ) (v v' : DigestVerifier Body)
      → new body digest ≡ ok v
      → read_rest (taken_from k v) ≡ ok v'
      → map_err layer_digest (verify hash v') ≡ ok tt
      → IsVerified body digest
  extraction-IsVerified body digest k v v' made rest right =
      let n = new-IsNew body digest v made in
      let (unbroken, all, context, expected) =
        read_rest_sound v v' body k n.unread n.unhashed rest in
      let hashed : hash v.context body.bytes ≡ v.expected =
        ap₂ hash (sym context) (sym all) ∙ verified_sound v' right ∙ expected in
      (
        unbroken,
        (verify_bytes_iff hash body.bytes digest).1
            (v.context, n.hex, n.parts, n.decoded ∙ ap ok (sym hashed), ap length hashed ∙ n.fits),
      )
