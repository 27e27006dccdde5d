-- ===== src/Install.antt =====
-- src/install.rs: the names of containers.
use pakstak.Base.{
  ℕ, Text, codes, ◌==◌, Result, ok, err, ◌>>=◌, ◌>>◌, bail_if, Bool, false, not, ◌&&◌, ◌||◌, List,
  [], ◌∷◌, is_empty, all, leb, nat_eq,
}
pub mod Names

pub data NameError : Type 0 where
  name_empty name_dots invalid_characters invalid_start : NameError

-- `u8::is_ascii_alphanumeric`
unfoldable pub is_ascii_alphanumeric : ℕ → Bool
is_ascii_alphanumeric c =
    (leb b'0' c && leb c b'9') || (leb b'A' c && leb c b'Z') || (leb b'a' c && leb c b'z')

unfoldable pub is_name_byte : ℕ → Bool
is_name_byte c = is_ascii_alphanumeric c || nat_eq c b'.' || nat_eq c b'_' || nat_eq c b'-'

starts_well : Text → Bool
starts_well [] = false
starts_well (c ∷ s) = is_ascii_alphanumeric c

unfoldable pub validate_container_name : Text → Result NameError (Unit {0})
unfolding starts_well
validate_container_name container = do
  bail_if (is_empty container) name_empty
  bail_if (container == codes "." || container == codes "..") name_dots
  bail_if (not (all is_name_byte container)) invalid_characters
  bail_if (not (starts_well container)) invalid_start
  ok tt
