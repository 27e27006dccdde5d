-- ===== src/Digest/Hex.antt =====
-- `decode_hex` and `encode_hex`.
use pakstak.Base.{
  ℕ, ◌+◌, ◌-◌, ◌*◌, ◌/◌, ◌%◌, Text, Result, ok, err, ◌>>=◌, ok_or, Option, none, some, List, [],
  ◌∷◌, ◌&&◌, leb, ltb, nat_eq, if◌then◌else◌, length, ◌<◌, ◌≡◌, false, arith, Option-cases, inl,
  inr,
}

-- The reasons of `DigestError::InvalidHex` that this function gives.
pub data HexError : Type 0 where
  odd_length : HexError
  bad_byte : ℕ → ℕ → HexError

-- `char::to_digit(16)`
unfoldable pub hex_digit : ℕ → Option ℕ
hex_digit c =
    if leb b'0' c && leb c b'9'
    then some (c - b'0')
    else if leb b'a' c && leb c b'f'
    then some (c - b'a' + 10)
    else if leb b'A' c && leb c b'F'
    then some (c - b'A' + 10)
    else none

two_digits : Option ℕ → Option ℕ → Option ℕ
two_digits (some h) (some l) = some (h * 16 + l)
two_digits _ _ = none

-- `u8::from_str_radix(pair, 16)`: a leading `+` is allowed before a digit.
unfoldable pub hex_byte : ℕ → ℕ → Option ℕ
unfolding two_digits
hex_byte a b = if nat_eq a b'+' then hex_digit b else two_digits (hex_digit a) (hex_digit b)

-- `chunks_exact(2).map(…).collect()`. A pair that is not UTF-8 has no hexadecimal digit either.
unfoldable pub decode_pairs : Text → Result HexError (List ℕ)
decode_pairs [] = ok []
decode_pairs (a ∷ []) = ok []
decode_pairs (a ∷ b ∷ hex) = do
  byte ← ok_or (hex_byte a b) (bad_byte a b)
  bytes ← decode_pairs hex
  ok (byte ∷ bytes)

unfoldable pub decode_hex : Text → Result HexError (List ℕ)
decode_hex hex = if nat_eq (length hex % 2) 0 then decode_pairs hex else err odd_length

-- The digit that `{:x}` prints.
unfoldable pub hex_char : ℕ → ℕ
hex_char d = if ltb d 10 then b'0' + d else b'a' + (d - 10)

unfoldable pub encode_hex : List ℕ → Text
encode_hex [] = []
encode_hex (byte ∷ bytes) = hex_char (byte / 16) ∷ hex_char (byte % 16) ∷ encode_hex bytes

pub hex_digit-hex_char : (d : ℕ) → d < 16 → hex_digit (hex_char d) ≡ some d
unfolding hex_digit hex_char
hex_digit-hex_char d h = ground arith

hex_char-ne-plus : (d : ℕ) → nat_eq (hex_char d) b'+' ≡ false
unfolding hex_char
hex_char-ne-plus d = ground arith

pub hex_byte-hex_char :
    (n : ℕ) → n < 256 → hex_byte (hex_char (n / 16)) (hex_char (n % 16)) ≡ some n
unfolding hex_byte
hex_byte-hex_char n h = ground (
  arith,
  hex_digit-hex_char (n / 16) (omega arith),
  hex_digit-hex_char (n % 16) (omega arith),
  hex_char-ne-plus (n / 16),
)

-- The digits that a byte can be written with stand for a number below 16.
hex_digit-lt : (c d : ℕ) → hex_digit c ≡ some d → d < 16
unfolding hex_digit
hex_digit-lt c d h = ground arith

pub hex_byte-lt : (a b n : ℕ) → hex_byte a b ≡ some n → n < 256
unfolding hex_byte
hex_byte-lt a b n h = elim (Option-cases (hex_digit a)) [
  | inl e ↦ ground (arith, hex_digit-lt b n)
  | inr (x, e) ↦ elim (Option-cases (hex_digit b)) [
    | inl k ↦ ground arith
    | inr (y, k) ↦ ground (arith, hex_digit-lt a x e, hex_digit-lt b y k)
  ]
]
