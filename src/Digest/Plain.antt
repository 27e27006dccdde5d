-- ===== src/Digest/Plain.antt =====
-- A digest that bytes were accepted under is a plain name: it has no slash.
use pakstak.Base.{
  ◌==◌, ◌++◌, ℕ, Text, contains, contains-append, false, ok, Option-cases, some, inl, inr, List, [],
  ◌∷◌, ◌≡◌, refl, ap, arith, Result-cases, Bool-cases, nat_eq, length, ◌%◌,
}
use pakstak.Digest.Hex.{hex_digit, hex_byte, decode_pairs, decode_hex}
use pakstak.Digest.Verifier.{
  Algorithm, sha256, sha384, sha512, algorithm_name, new, DigestVerifier, verify_bytes,
}
use pakstak.Digest.Verified.{verify_bytes_iff, new-IsNew}
use pakstak.Fs.Paths.{IsPlain}

digit_no_slash : (c d : ℕ) → hex_digit c ≡ some d → nat_eq c b'/' ≡ false
unfolding hex_digit
digit_no_slash c d h = ground arith

byte_no_slash :
    (a b n : ℕ) → hex_byte a b ≡ some n → (nat_eq a b'/' ≡ false) × (nat_eq b b'/' ≡ false)
unfolding hex_byte
byte_no_slash a b n h = elim (Option-cases (hex_digit a)) [
  | inl e ↦ ground (arith, e, h, digit_no_slash b n)
  | inr (x, e) ↦ elim (Option-cases (hex_digit b)) [
    | inl f ↦ ground (arith, e, f, h)
    | inr (y, f) ↦ (digit_no_slash a x e, digit_no_slash b y f)
  ]
]

decode_pairs_no_slash :
    (hex : Text) (bytes : List ℕ)
    → length hex % 2 ≡ 0
    → decode_pairs hex ≡ ok bytes
    → contains hex b'/' ≡ false
unfolding decode_pairs
decode_pairs_no_slash [] bytes l h = refl
decode_pairs_no_slash (a ∷ []) bytes l h = absurd (omega (arith, l))
decode_pairs_no_slash (a ∷ b ∷ hex) bytes l h = elim (Option-cases (hex_byte a b)) [
  | inl e ↦ ground (arith, e, h)
  | inr (x, e) ↦ elim (Result-cases (decode_pairs hex)) [
    | inl (z, f) ↦ ground (arith, e, f, h)
    | inr (xs, f) ↦
        let (left, right) = byte_no_slash a b x e in
        ground (arith, left, right, decode_pairs_no_slash hex xs (omega (arith, l)) f)
  ]
]

decode_hex_no_slash :
    (hex : Text) (bytes : List ℕ) → decode_hex hex ≡ ok bytes → contains hex b'/' ≡ false
unfolding decode_hex
decode_hex_no_slash hex bytes h = elim (Bool-cases (nat_eq (length hex % 2) 0)) [
  | inl e ↦
      let even : length hex % 2 ≡ 0 = ground (arith, e) in
      decode_pairs_no_slash hex bytes even (rw e at h)
  | inr e ↦ ground (arith, e, h)
]

name_no_slash : (a : Algorithm) → contains (algorithm_name a) b'/' ≡ false
name_no_slash sha256 = refl
name_no_slash sha384 = refl
name_no_slash sha512 = refl

-- A digest that bytes were accepted under has no slash.
pub verify_bytes_no_slash :
    (hash : Algorithm → Text → Text) (bytes digest : Text)
    → verify_bytes hash bytes digest ≡ ok tt
    → contains digest b'/' ≡ false
verify_bytes_no_slash hash bytes digest h =
    let (a, hex, parts, decoded, fits) = (verify_bytes_iff hash bytes digest).0 h in
    ground (
      arith,
      ap (λ d. contains d b'/') parts,
      contains-append (algorithm_name a) (b':' ∷ hex) b'/',
      name_no_slash a,
      decode_hex_no_slash hex (hash a bytes) decoded,
    )

named-IsPlain :
    (a : Algorithm) (hex : Text)
    → contains hex b'/' ≡ false
    → IsPlain (algorithm_name a ++ b':' ∷ hex)
unfolding ◌==◌
named-IsPlain sha256 hex h = ground (arith, h)
named-IsPlain sha384 hex h = ground (arith, h)
named-IsPlain sha512 hex h = ground (arith, h)

-- A verifier is made only for a digest that is a plain name.
pub new-IsPlain :
    {R : Type 0} (reader : R) (digest : Text) (v : DigestVerifier R)
    → new reader digest ≡ ok v
    → IsPlain digest
new-IsPlain reader digest v h =
    let n = new-IsNew reader digest v h in
    rw n.parts (named-IsPlain v.context n.hex (decode_hex_no_slash n.hex v.expected n.decoded))
