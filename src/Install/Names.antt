-- ===== src/Install/Names.antt =====
-- The names that are accepted for containers, and where they lead.
use pakstak.Base.{Text, contains, ◌==◌, ok, true, false, [], ◌∷◌, all, ◌≡◌, ◌↔◌, refl, arith}
use pakstak.Fs.Paths.{IsPlain}
use pakstak.Install.{validate_container_name, is_ascii_alphanumeric, is_name_byte}

-- What the messages promise: a letter or a number, then letters, numbers, dots, underscores, dashes.
abbrev pub IsName : Text → Type 0
IsName [] = ⊥
IsName (c ∷ s) = (is_ascii_alphanumeric c ≡ true) × (all is_name_byte s ≡ true)

-- A name is accepted exactly if it starts with an ASCII letter or number and has only these, dots,
-- underscores and dashes.
pub validate_container_name_iff : (c : Text) → (validate_container_name c ≡ ok tt) ↔ IsName c
unfolding validate_container_name ◌==◌
validate_container_name_iff [] = ground arith
validate_container_name_iff (x ∷ []) = unfold is_name_byte is_ascii_alphanumeric in ground arith
validate_container_name_iff (x ∷ y ∷ []) = unfold is_name_byte is_ascii_alphanumeric in ground arith
validate_container_name_iff (x ∷ y ∷ z ∷ s) = unfold is_name_byte in ground arith

name_byte_no_slash : (s : Text) → all is_name_byte s ≡ true → contains s b'/' ≡ false
unfolding is_name_byte is_ascii_alphanumeric
name_byte_no_slash [] h = refl
name_byte_no_slash (c ∷ s) h = ground (arith, name_byte_no_slash s)

pub IsName-IsPlain : (c : Text) → IsName c → IsPlain c
unfolding is_name_byte is_ascii_alphanumeric ◌==◌
IsName-IsPlain [] h = absurd h
IsName-IsPlain (x ∷ s) h = ground (arith, name_byte_no_slash s)
