-- ===== src/Digest/Verifier.antt =====
-- `DigestVerifier` and `verify_bytes`. The hash functions of the crate `ring` are the parameter
-- `hash`: a context that was updated several times hashes what it was given, one after another.
use pakstak.Base.{
  ℕ, zero, suc, Text, codes, ◌==◌, Result, ok, err, ◌>>=◌, ◌>>◌, map_err, ok_or, bail_if, Option,
  none, some, List, [], ◌++◌, not, nat_eq, if◌then◌else◌, length, take, drop, is_empty,
}
use pakstak.Base.Splits.{split_once}
use pakstak.Digest.Hex.{HexError, decode_hex}

pub data Algorithm : Type 0 where
  sha256 sha384 sha512 : Algorithm

-- `Algorithm::output_len`
abbrev pub output_len : Algorithm → ℕ
output_len sha256 = 32
output_len sha384 = 48
output_len sha512 = 64

unfoldable pub algorithm : Text → Option Algorithm
algorithm name =
    if name == codes "sha256"
    then some sha256
    else if name == codes "sha384"
    then some sha384
    else if name == codes "sha512"
    then some sha512
    else none

abbrev pub algorithm_name : Algorithm → Text
algorithm_name sha256 = codes "sha256"
algorithm_name sha384 = codes "sha384"
algorithm_name sha512 = codes "sha512"

pub data HexReason : Type 0 where
  not_hex : HexError → HexReason
  wrong_length : ℕ → Text → ℕ → HexReason
  not_read : HexReason

pub data DigestError : Type 0 where
  invalid_format : Text → DigestError
  unsupported_algorithm : Text → DigestError
  invalid_hex : Text → HexReason → DigestError
  verification_failed : Algorithm → List ℕ → List ℕ → DigestError

-- An error of `std::io`.
pub data IoError : Type 0 where
  io_error : IoError

-- The trait `Read`: at most as many bytes as there is room for, and what is left to read. No bytes
-- mean the end.
abbrev pub Read : Type 0 → Type 0
Read R = R → ℕ → Result IoError (List ℕ × R)

-- `impl Read for &[u8]`
abbrev pub read_slice : Read (List ℕ)
read_slice bytes room = ok (take room bytes, drop room bytes)

-- `context` is its algorithm and the bytes that it was updated with.
pub record DigestVerifier (R : Type 0) : Type 0 where
  pub reader : R
  pub expected : List ℕ
  pub context : Algorithm
  pub hashed : List ℕ

module _ {R : Type 0} where
  unfoldable pub new : R → Text → Result DigestError (DigestVerifier R)
  new reader digest = do
    (name, hex) ← ok_or (split_once b':' digest) (invalid_format digest)
    a ← ok_or (algorithm name) (unsupported_algorithm name)
    bytes ← map_err (λ reason. invalid_hex digest (not_hex reason)) (decode_hex hex)
    bail_if (not (nat_eq (length bytes) (output_len a)))
        (invalid_hex digest (wrong_length (output_len a) name (length bytes)))
    ok (record { reader = reader; expected = bytes; context = a; hashed = [] })

  -- `impl Read for DigestVerifier`
  unfoldable pub read : Read R → Read (DigestVerifier R)
  read source v room = do
    (got, rest) ← source v.reader room
    ok (got, record v { reader = rest; hashed = v.hashed ++ got })

-- `io::copy(reader, io::sink())`: reads until nothing comes. `none` means that the fuel ran out.
unfoldable pub copy : {R : Type 0} → Read R → ℕ → ℕ → R → Option (Result IoError R)
copy source room zero r = none
copy source room (suc fuel) r = elim (source r room) [
  | err e ↦ some (err e)
  | ok (got, rest) ↦ if is_empty got then some (ok rest) else copy source room fuel rest
]

-- The buffer of `io::copy`.
abbrev pub buffer_size : ℕ
buffer_size = 8192

module _ (hash : Algorithm → List ℕ → List ℕ) where
  unfoldable pub verify : {R : Type 0} → DigestVerifier R → Result DigestError (Unit {0})
  verify v =
      let actual = hash v.context v.hashed in
      if actual == v.expected then ok tt else err (verification_failed v.context v.expected actual)

  pub after_copy :
      {R : Type 0}
      → Text
      → Option (Result IoError (DigestVerifier R))
      → Result DigestError (Unit {0})
  after_copy digest (some (ok v)) = verify v
  after_copy digest _ = err (invalid_hex digest not_read)

  -- A read of the slice takes at least a byte until the end, so this fuel is enough.
  unfoldable pub verify_bytes : List ℕ → Text → Result DigestError (Unit {0})
  unfolding after_copy
  verify_bytes bytes digest = do
    v ← new bytes digest
    after_copy digest (copy (read read_slice) buffer_size (suc (length bytes)) v)
