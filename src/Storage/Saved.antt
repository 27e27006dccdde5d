-- ===== src/Storage/Saved.antt =====
-- Whether a manifest is saved already.
use pakstak.Base.{
  Text, ◌≡◌, ◌↔◌, ◌⊎◌, inl, inr, refl, ap, ◌∙◌, Bool, true, false, Bool-cases, Option-cases, Option,
  some, Result-cases, ok, arith,
}
use pakstak.Digest.Verifier.{Algorithm, verify_bytes}
use pakstak.Fs.Paths.{resolve}
use pakstak.Fs.Files.{
  Files, Node, Kind, regular, directory, symlink, lookup, is_file_at, node_is_file,
}
use pakstak.Fs.World.{still, operate, read, read_at}
use pakstak.Storage.Layout.{Storage, manifest_path}
use pakstak.Storage.Reader.{check_saved, is_manifest_saved}

pub kind_cases : (n : Node) → ((bytes : Text) × (n.kind ≡ regular bytes)) ⊎ (node_is_file n ≡ false)
kind_cases n = by_kind n.kind refl
  where
    by_kind :
        (k : Kind)
        → n.kind ≡ k
        → ((bytes : Text) × (n.kind ≡ regular bytes)) ⊎ (node_is_file n ≡ false)
    by_kind (regular bytes) e = inl (bytes, e)
    by_kind (symlink target) e = inr (ground (arith, e))
    by_kind directory e = inr (ground (arith, e))

same_node : (o : Option Node) (n m : Node) → o ≡ some n → o ≡ some m → n ≡ m
same_node o n m h k = cc

not_regular :
    (n m : Node) (bytes : Text) → n ≡ m → m.kind ≡ regular bytes → node_is_file n ≡ false → ⊥
not_regular n m bytes e k f =
    let at : n.kind ≡ regular bytes = ap (λ (x : Node). x.kind) e ∙ k in ground (arith, at, f)

same_bytes : (n m : Node) (a b : Text) → n ≡ m → n.kind ≡ regular a → m.kind ≡ regular b → b ≡ a
same_bytes n m a b e h k =
    let at : n.kind ≡ regular b = ap (λ (x : Node). x.kind) e ∙ k in cc (h, at)

module _ (hash : Algorithm → Text → Text) (s : Storage) where
  -- When nothing is cut short, a manifest counts as saved exactly if its file is a regular one and,
  -- where that is asked for, its bytes are those of the digest.
  pub is_manifest_saved_lem :
      (digest : Text) (verify : Bool) (fs : Files)
      → ((is_manifest_saved hash s digest verify (still fs)).0 ≡ ok true) ↔ (
          (n : Node) × (bytes : Text) × (lookup (resolve (manifest_path s digest)) fs ≡ some n)
          × (n.kind ≡ regular bytes)
          × (verify ≡ true → verify_bytes hash bytes digest ≡ ok tt))
  unfolding is_manifest_saved check_saved read read_at operate is_file_at
  is_manifest_saved_lem digest verify fs =
      elim (Option-cases (lookup (resolve (manifest_path s digest)) fs)) [
        | inl e ↦ (ground (arith, e), λ (n, bytes, h, k, v). cc (e, h))
        | inr (n, e) ↦ elim (kind_cases n) [
          | inr f ↦ (
            ground (arith, e, f),
            λ (m, bytes, h, k, v). absurd (not_regular n m bytes (same_node _ n m e h) k f),
          )
          | inl (bytes, k) ↦ elim (Bool-cases verify) [
            | inl t ↦ elim (Result-cases (verify_bytes hash bytes digest)) [
              | inl (x, r) ↦ (
                ground (arith, e, k, t, r),
                λ (m, b, h, k', v).
                    let same = same_bytes n m bytes b (same_node _ n m e h) k k' in
                    let bad = ap (λ y. verify_bytes hash y digest) same in
                    absurd (cc (v t, bad, r)),
              )
              | inr (x, r) ↦ (λ _. (n, bytes, e, k, λ _. r), λ _. ground (arith, e, k, t, r))
            ]
            | inr t ↦ (λ _. (n, bytes, e, k, λ y. cc (t, y)), λ _. ground (arith, e, k, t))
          ]
        ]
      ]
