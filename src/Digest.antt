-- ===== src/Digest.antt =====
-- src/digest.rs: digest strings, hexadecimal, and the reader that hashes what passes through it.
pub mod Hex
pub mod Bounds
pub mod Plain
pub mod Verifier
pub mod Verified
