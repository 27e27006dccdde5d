-- ===== src/Digest/Bounds.antt =====
-- Hexadecimal digests: what is decoded is a list of bytes, half as long as its text, and every
-- list of bytes is decoded from the text that `encode_hex` writes.
use pakstak.Base.{
  ℕ, ◌*◌, ◌%◌, ◌<◌, ◌≡◌, refl, Text, ok, ok_or, List, [], ◌∷◌, All, length, arith, chain_parts,
}
use pakstak.Digest.Hex.{
  bad_byte, hex_byte, decode_hex, encode_hex, decode_pairs, hex_byte-hex_char, hex_byte-lt,
}

abbrev pub IsByte : ℕ → Type 0
IsByte n = n < 256

length-encode_hex : (bytes : List ℕ) → length (encode_hex bytes) ≡ 2 * length bytes
unfolding encode_hex
length-encode_hex [] = omega arith
length-encode_hex (b ∷ bytes) = omega (arith, length-encode_hex bytes)

decode_pairs-encode_hex :
    (bytes : List ℕ) → All IsByte bytes → decode_pairs (encode_hex bytes) ≡ ok bytes
unfolding encode_hex decode_pairs
decode_pairs-encode_hex [] h = refl
decode_pairs-encode_hex (b ∷ bytes) (h, hs) =
    rw (hex_byte-hex_char b h, decode_pairs-encode_hex bytes hs)

-- Decoding what was encoded gives the bytes back.
pub decode_hex-encode_hex :
    (bytes : List ℕ) → All IsByte bytes → decode_hex (encode_hex bytes) ≡ ok bytes
unfolding decode_hex
decode_hex-encode_hex bytes h =
    ground (arith, length-encode_hex bytes, decode_pairs-encode_hex bytes h)

decode_pairs_sound :
    (hex : Text) (bytes : List ℕ)
    → decode_pairs hex ≡ ok bytes
    → length hex % 2 ≡ 0
    → All IsByte bytes × (length hex ≡ 2 * length bytes)
unfolding decode_pairs
decode_pairs_sound [] bytes h e = ground arith
decode_pairs_sound (a ∷ []) bytes h e = absurd (omega arith)
decode_pairs_sound (a ∷ b ∷ hex) bytes h e =
    let (n, hn, h') = chain_parts (ok_or (hex_byte a b) (bad_byte a b)) _ h in
    let (ns, hns, h'') = chain_parts (decode_pairs hex) _ h' in
    ground (arith, hex_byte-lt a b n, decode_pairs_sound hex ns hns)

-- An accepted text is decoded to bytes, and has two characters for each.
pub decode_hex_sound :
    (hex : Text) (bytes : List ℕ)
    → decode_hex hex ≡ ok bytes
    → All IsByte bytes × (length hex ≡ 2 * length bytes)
unfolding decode_hex
decode_hex_sound hex bytes h = ground (arith, decode_pairs_sound hex bytes)
