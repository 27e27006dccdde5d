-- ===== src/Digest/Verified.antt =====
-- What `verify_bytes` accepts.
use mathlib.Core.List.{append_assoc}
use pakstak.Base.{
  All, ℕ, zero, suc, ◌<◌, ◌≡◌, ◌↔◌, refl, sym, ap, ◌∙◌, Text, codes, ◌==◌, ==_iff, ok, ◌>>=◌, some,
  List, [], ◌∷◌, ◌++◌, false, length, take, drop, contains, arith, inl, inr, chain_parts,
  Result-cases, Option-cases, length-drop, take-append-drop,
}
use pakstak.Base.Splits
use pakstak.Base.Splits.{split_once}
use pakstak.Digest.Hex.{decode_hex, encode_hex}
use pakstak.Digest.Bounds.{IsByte, decode_hex-encode_hex}
use pakstak.Digest.Verifier.{
  Algorithm, sha256, sha384, sha512, output_len, algorithm, algorithm_name, DigestVerifier,
  read_slice, new, read, copy, verify, after_copy, verify_bytes, buffer_size,
}

abbrev pub with : DigestVerifier (List ℕ) → List ℕ → List ℕ → DigestVerifier (List ℕ)
with v reader hashed = record v { reader = reader; hashed = hashed }

copy_from :
    (room fuel : ℕ) (v : DigestVerifier (List ℕ)) (bytes hashed : List ℕ)
    → length bytes < fuel
    → copy (read read_slice) (suc room) fuel (with v bytes hashed)
      ≡ some (ok (with v [] (hashed ++ bytes)))
unfolding copy read
copy_from room zero v bytes hashed k = absurd (omega arith)
copy_from room (suc fuel) v [] hashed k = refl
copy_from room (suc fuel) v (b ∷ bytes) hashed k =
    copy_from room fuel v (drop room bytes) (hashed ++ b ∷ take room bytes)
      (omega (arith, length-drop room bytes))
    ∙ ap (λ h. some (ok (with v [] h)))
        (append_assoc hashed (b ∷ take room bytes) (drop room bytes)
          ∙ ap (λ h. hashed ++ b ∷ h) (take-append-drop room bytes))

algorithm-algorithm_name : (a : Algorithm) → algorithm (algorithm_name a) ≡ some a
unfolding algorithm ◌==◌
algorithm-algorithm_name sha256 = refl
algorithm-algorithm_name sha384 = refl
algorithm-algorithm_name sha512 = refl

algorithm_name_plain : (a : Algorithm) → contains (algorithm_name a) b':' ≡ false
algorithm_name_plain sha256 = refl
algorithm_name_plain sha384 = refl
algorithm_name_plain sha512 = refl

algorithm_sound : (name : Text) (a : Algorithm) → algorithm name ≡ some a → name ≡ algorithm_name a
unfolding algorithm
algorithm_sound name a h = ground (
  arith,
  ==_iff name (codes "sha256"),
  ==_iff name (codes "sha384"),
  ==_iff name (codes "sha512"),
)

-- What a new verifier holds.
pub record IsNew {R : Type 0} (reader : R) (digest : Text) (v : DigestVerifier R) : Type 0 where
  pub hex : Text
  pub parts : digest ≡ algorithm_name v.context ++ b':' ∷ hex
  pub decoded : decode_hex hex ≡ ok v.expected
  pub fits : length v.expected ≡ output_len v.context
  pub unread : v.reader ≡ reader
  pub unhashed : v.hashed ≡ []

module _ {R : Type 0} (reader : R) where
  pub new-IsNew :
      (digest : Text) (v : DigestVerifier R) → new reader digest ≡ ok v → IsNew reader digest v
  unfolding new
  new-IsNew digest v h = elim (Option-cases (split_once b':' digest)) [
    | inl e ↦ ground arith
    | inr (p, e) ↦ elim (Option-cases (algorithm p.0)) [
      | inl f ↦ ground arith
      | inr (a, f) ↦ elim (Result-cases (decode_hex p.1)) [
        | inl (r, g) ↦ ground arith
        | inr (bytes, g) ↦
            let found = Splits.split_once_sound b':' digest {a = p.0} {b = p.1} e in
            let name = algorithm_sound p.0 a f in
            let made : (record { reader = reader; expected = bytes; context = a; hashed = [] } ≡ v)
                × (length bytes ≡ output_len a) =
              ground arith in
            record {
              hex = p.1;
              parts = ground (arith, found, name, made);
              decoded = ground (arith, made, g);
              fits = ground (arith, made);
              unread = ground (arith, made);
              unhashed = ground (arith, made);
            }
      ]
    ]
  ]

  new_lem :
      (a : Algorithm) (hex : Text) (bytes : List ℕ)
      → decode_hex hex ≡ ok bytes
      → length bytes ≡ output_len a
      → new reader (algorithm_name a ++ b':' ∷ hex)
        ≡ ok (record { reader = reader; expected = bytes; context = a; hashed = [] })
  unfolding new
  new_lem a hex bytes h k = ground (
    arith,
    Splits.split_once-append b':' (algorithm_name a) hex (algorithm_name_plain a),
    algorithm-algorithm_name a,
  )

module _ (hash : Algorithm → List ℕ → List ℕ) where
  -- Hashing in pieces is hashing all the bytes at once: the digest string is read, and on every
  -- branch the result is that of one comparison with the hash of the bytes.
  pub verify_bytes_lem :
      (bytes : List ℕ) (digest : Text)
      → verify_bytes hash bytes digest
        ≡ (do v ← new bytes digest; verify hash (record v { reader = []; hashed = bytes }))
  unfolding verify_bytes
  verify_bytes_lem bytes digest = elim (Result-cases (new bytes digest)) [
    | inl (e, p) ↦ rw p
    | inr (v, p) ↦
        let n = new-IsNew bytes digest v p in
        let same : v ≡ with v bytes [] = ground (arith, n.unread, n.unhashed) in
        let copied = copy_from 8191 (suc (length bytes)) v bytes [] (omega arith) in
        rw p (
          ap
            (λ w.
              after_copy hash digest (copy (read read_slice) buffer_size (suc (length bytes)) w))
            same
          ∙ ap (after_copy hash digest) copied)
  ]

  pub verify_once :
      (bytes : List ℕ) (v : DigestVerifier (List ℕ))
      → (verify hash (with v [] bytes) ≡ ok tt) ↔ (hash v.context bytes ≡ v.expected)
  unfolding verify
  verify_once bytes v = ground (arith, ==_iff (hash v.context bytes) v.expected)

  -- Bytes are accepted exactly under a digest string that names an algorithm and, behind a colon,
  -- has a hexadecimal text of the hash, which must have the length of that algorithm.
  pub verify_bytes_iff :
      (bytes : List ℕ) (digest : Text)
      → (verify_bytes hash bytes digest ≡ ok tt) ↔ (
          (a : Algorithm) × (hex : Text) × (digest ≡ algorithm_name a ++ b':' ∷ hex)
          × (decode_hex hex ≡ ok (hash a bytes))
          × (length (hash a bytes) ≡ output_len a))
  verify_bytes_iff bytes digest = (sound, complete)
    where
      Right : Type 0
      Right =
          (a : Algorithm) × (hex : Text) × (digest ≡ algorithm_name a ++ b':' ∷ hex)
          × (decode_hex hex ≡ ok (hash a bytes))
          × (length (hash a bytes) ≡ output_len a)

      sound : verify_bytes hash bytes digest ≡ ok tt → Right
      sound h =
          let (v, p, q) =
            chain_parts (new bytes digest) (λ v. verify hash (with v [] bytes))
              (sym (verify_bytes_lem bytes digest) ∙ h) in
          let n = new-IsNew bytes digest v p in
          let e = (verify_once bytes v).0 q in
          (v.context, n.hex, n.parts, rw e n.decoded, rw e n.fits)

      complete : Right → verify_bytes hash bytes digest ≡ ok tt
      complete (a, hex, parts, decoded, fits) =
          verify_bytes_lem bytes digest
          ∙ rw (parts, new_lem bytes a hex (hash a bytes) decoded fits)
              ((verify_once bytes
                  (record { reader = []; expected = hash a bytes; context = a; hashed = [] })).1
                refl)

  -- Bytes are accepted under the digest string that is written for them, where the hash function
  -- gives bytes, as many as its algorithm says.
  pub verify_bytes-encode_hex :
      ((a : Algorithm) (bytes : List ℕ)
        → All IsByte (hash a bytes) × (length (hash a bytes) ≡ output_len a))
      → (a : Algorithm) (bytes : List ℕ)
      → verify_bytes hash bytes (algorithm_name a ++ b':' ∷ encode_hex (hash a bytes)) ≡ ok tt
  verify_bytes-encode_hex lawful a bytes =
      let (in_range, fits) = lawful a bytes in
      (verify_bytes_iff bytes _).1
        (a, encode_hex (hash a bytes), refl, decode_hex-encode_hex (hash a bytes) in_range, fits)
