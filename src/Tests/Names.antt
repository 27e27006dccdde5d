-- ===== src/Tests/Names.antt =====
-- Names of containers that are accepted, and one that is not.
use pakstak.Base.{codes, ok, err, ◌==◌, ◌≡◌, ◌↔◌, refl}
use pakstak.Install.{validate_container_name, is_name_byte, is_ascii_alphanumeric, invalid_start}
use pakstak.Install.Names.{IsName, validate_container_name_iff}

accepts_dots : validate_container_name (codes "app-1.2_b") ≡ ok tt
unfolding validate_container_name is_name_byte is_ascii_alphanumeric ◌==◌
accepts_dots = refl

refuses_hidden : validate_container_name (codes ".app") ≡ err invalid_start
unfolding validate_container_name is_name_byte is_ascii_alphanumeric ◌==◌
refuses_hidden = refl

validate_container_name_iff_example :
    (validate_container_name (codes "a/b") ≡ ok tt) ↔ IsName (codes "a/b")
validate_container_name_iff_example = validate_container_name_iff (codes "a/b")
