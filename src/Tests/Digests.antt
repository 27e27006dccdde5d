-- ===== src/Tests/Digests.antt =====
-- Digest strings: hexadecimal, and the theorems on `verify_bytes` with a hash function of the
-- wanted length.
use pakstak.Base.{
  ℕ, zero, suc, ◌*◌, ◌≡◌, ◌↔◌, ◌++◌, refl, arith, Text, codes, ok, err, List, [], ◌∷◌, All, length,
  ◌==◌,
}
use pakstak.Base.Splits.{split_once}
use pakstak.Digest.Hex.{hex_digit, hex_byte, decode_hex, decode_pairs, encode_hex}
use pakstak.Digest.Bounds.{IsByte, decode_hex-encode_hex, decode_hex_sound}
use pakstak.Digest.Verifier.{
  Algorithm, sha256, output_len, algorithm, algorithm_name, new, verify_bytes,
  unsupported_algorithm,
}
use pakstak.Digest.Verified.{verify_bytes_lem, verify_bytes_iff, verify_bytes-encode_hex}

zeros : ℕ → List ℕ
zeros zero = []
zeros (suc n) = 0 ∷ zeros n

abbrev flat : Algorithm → List ℕ → List ℕ
flat a bytes = zeros (output_len a)

zeros_lem : (n : ℕ) → All IsByte (zeros n) × (length (zeros n) ≡ n)
unfolding zeros
zeros_lem zero = (tt, refl)
zeros_lem (suc n) = ground (arith, zeros_lem n)

decodes_either_case : decode_hex (codes "00fFa0") ≡ ok (0 ∷ 255 ∷ 160 ∷ [])
unfolding decode_hex decode_pairs hex_byte hex_digit
decodes_either_case = refl

-- `u8::from_str_radix` takes a plus sign.
decodes_plus : decode_hex (codes "+a") ≡ ok (10 ∷ [])
unfolding decode_hex decode_pairs hex_byte hex_digit
decodes_plus = refl

decode_hex-encode_hex_example : decode_hex (encode_hex (0 ∷ 171 ∷ [])) ≡ ok (0 ∷ 171 ∷ [])
decode_hex-encode_hex_example = decode_hex-encode_hex (0 ∷ 171 ∷ []) (omega arith)

decode_hex_sound_example :
    All IsByte (0 ∷ 255 ∷ 160 ∷ [])
    × (length (codes "00fFa0") ≡ 2 * length {A = ℕ} (0 ∷ 255 ∷ 160 ∷ []))
decode_hex_sound_example =
    decode_hex_sound (codes "00fFa0") (0 ∷ 255 ∷ 160 ∷ []) decodes_either_case

verify_bytes_lem_example :
    verify_bytes flat (1 ∷ []) (codes "md5:00") ≡ err (unsupported_algorithm (codes "md5"))
unfolding new split_once algorithm ◌==◌
verify_bytes_lem_example = verify_bytes_lem flat (1 ∷ []) (codes "md5:00")

verify_bytes_iff_example : (verify_bytes flat (1 ∷ []) (codes "md5:00") ≡ ok tt) ↔ (
    (a : Algorithm) × (hex : Text) × (codes "md5:00" ≡ algorithm_name a ++ b':' ∷ hex)
    × (decode_hex hex ≡ ok (flat a (1 ∷ [])))
    × (length (flat a (1 ∷ [])) ≡ output_len a))
verify_bytes_iff_example = verify_bytes_iff flat (1 ∷ []) (codes "md5:00")

verify_bytes-encode_hex_example :
    verify_bytes flat (7 ∷ []) (algorithm_name sha256 ++ b':' ∷ encode_hex (flat sha256 (7 ∷ [])))
    ≡ ok tt
verify_bytes-encode_hex_example =
    verify_bytes-encode_hex flat (λ a bytes. zeros_lem (output_len a)) sha256 (7 ∷ [])
