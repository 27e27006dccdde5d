-- ===== src/Storage/WhiteoutStack.antt =====
-- The stack of the walk that converts whiteouts: what is pushed, and how much that stands for.
use pakstak.Base.{
  ◌+◌, ◌≤◌, ◌≡◌, ◌⊎◌, inl, inr, ap, ◌∙◌, Text, ◌==◌, Bool, true, Bool-cases, Option-cases, List, [],
  ◌∷◌, ◌++◌, All, arith, ok,
}
use pakstak.Fs.Paths.{FilePath, push, resolve, IsPlain}
use pakstak.Fs.PathLaws.{push_plain, resolve-child}
use pakstak.Fs.Files.{Files, node_is_dir, is_dir_at}
use pakstak.Fs.Counts.{count, count_all}
use pakstak.Fs.OnlyDirs.{
  only_dirs, SameDirs, SameDirs-refl, SameDirs-trans, set_xattr_at-SameDirs, set_mode_at-SameDirs,
  create_new_at-SameDirs, remove_file_at-SameDirs,
}
use pakstak.Fs.World.{World, symlink_metadata, set_permissions, remove_file}
use pakstak.Fs.Attributes.{set_xattr, create_new}
use pakstak.Storage.Action.{Action, ◌>>◌, pure, do_io, bind-eq-ok}
use pakstak.Storage.Modes.{total}
use pakstak.Storage.Frames.{Any, IsPreorder, Framing-run, Framing-operation}
use pakstak.Storage.Whiteouts.{
  opaque_marker, yes_value, oci_whiteout_target_name, push_directory, convert_entry,
  convert_entries, remove_oci_whiteout_marker, convert_target,
}
use pakstak.Storage.WhiteoutFrames.{Allows, Framing-convert_entry}
use pakstak.Storage.Runs.{metadata-eq-ok}

pub SameDirs-IsPreorder : IsPreorder SameDirs
SameDirs-IsPreorder = record { reflexive = SameDirs-refl; transitive = SameDirs-trans }

pub SameDirs-Allows : (directory : FilePath) → Allows SameDirs directory
unfolding set_xattr create_new set_permissions remove_file
SameDirs-Allows directory = record {
  set_xattr = λ p key h.
      Framing-operation SameDirs-IsPreorder _ _
        (λ fs. set_xattr_at-SameDirs (resolve p) key yes_value fs) (λ n fs. SameDirs-refl fs);
  create_new = λ p h.
      Framing-operation SameDirs-IsPreorder _ _ (λ fs. create_new_at-SameDirs (resolve p) fs)
        (λ n fs. SameDirs-refl fs);
  set_permissions = λ c mode h.
      Framing-operation SameDirs-IsPreorder _ _
        (λ fs. set_mode_at-SameDirs (resolve (push directory c)) mode fs)
        (λ n fs. SameDirs-refl fs);
  remove_file = λ c h m.
      Framing-operation SameDirs-IsPreorder _ _
        (λ fs. remove_file_at-SameDirs (resolve (push directory c)) fs) (λ n fs. SameDirs-refl fs);
}

abbrev pub IsDirNow : Files → FilePath → Type 0
IsDirNow fs path = is_dir_at (resolve path) fs ≡ true

pub still_dirs :
    (fs gs : Files) (pending : List FilePath)
    → SameDirs fs gs
    → All (IsDirNow fs) pending
    → All (IsDirNow gs) pending
still_dirs fs gs [] h k = tt
still_dirs fs gs (path ∷ pending) h (k, ks) = (h.kept.at _ k, still_dirs fs gs pending h ks)

pub total_fewer :
    (fs gs : Files) (pending : List FilePath)
    → SameDirs fs gs
    → total (only_dirs gs) pending ≤ total (only_dirs fs) pending
total_fewer fs gs [] h = omega arith
total_fewer fs gs (path ∷ pending) h =
    omega (arith, h.fewer (resolve path), total_fewer fs gs pending h)

pub All-any : (pending : List FilePath) → All Any pending
All-any [] = tt
All-any (path ∷ pending) = (tt, All-any pending)

-- The directory is on the stack, where it is one.
abbrev pub Pushed : FilePath → List FilePath → List FilePath → Files → Type 0
Pushed path pending pending' fs =
    (pending' ≡ pending) ⊎ ((pending' ≡ path ∷ pending) × IsDirNow fs path)

push_directory-Pushed :
    (path : FilePath) (pending pending' : List FilePath) (w v : World)
    → push_directory path pending w ≡ (ok pending', v)
    → Pushed path pending pending' v.files
unfolding push_directory is_dir_at
push_directory-Pushed path pending pending' w v h =
    let (n, u, e, f) = bind-eq-ok (do_io (symlink_metadata path)) _ w h in
    let (at, same) = metadata-eq-ok path w u n e in
    elim (Bool-cases (node_is_dir n)) [
      | inl d ↦ inr (ground (arith, d, f), ground (arith, d, f, at, same))
      | inr d ↦ inl (ground (arith, d, f))
    ]

module _ (directory : FilePath) where
  pub convert_entry-Pushed :
      (is_opaque : Bool) (entry : Text) (pending pending' : List FilePath) (w v : World)
      → convert_entry directory is_opaque entry pending w ≡ (ok pending', v)
      → Pushed (push directory entry) pending pending' v.files
  unfolding convert_entry
  convert_entry-Pushed is_opaque entry pending pending' w v h =
      elim (Bool-cases (entry == opaque_marker)) [
        | inl e ↦ inl (
            unchanged (remove_oci_whiteout_marker (push directory entry))
              (rw (e, convert_entry) at h))
        | inr e ↦ elim (Option-cases (oci_whiteout_target_name entry)) [
          | inl f ↦
              push_directory-Pushed (push directory entry) pending pending' w v
                (rw (e, f, convert_entry) at h)
          | inr (target, f) ↦ inl (
              unchanged (convert_target directory is_opaque entry target)
                (rw (e, f, convert_entry) at h))
        ]
      ]
    where
      unchanged :
          (m : Action (Unit {0})) → (m >> pure pending) w ≡ (ok pending', v) → pending' ≡ pending
      unchanged m k = let (a, u, e, f) = bind-eq-ok m _ w k in ground (arith, f)

  resolve-entry : (c : Text) → IsPlain c → resolve (push directory c) ≡ resolve directory ++ c ∷ []
  resolve-entry c h = ap resolve (push_plain directory c h) ∙ resolve-child directory c h

  -- The stack after some entries: all of it are directories, and no entry was pushed twice.
  pub convert_entries-total :
      (is_opaque : Bool) (entries : List Text) (pending pending' : List FilePath) (w v : World)
      (ds : Files)
      → convert_entries directory is_opaque entries pending w ≡ (ok pending', v)
      → All IsPlain entries
      → All (IsDirNow w.files) pending
      → All (IsDirNow v.files) pending'
        × (total ds pending' ≤ count_all (resolve directory) entries ds + total ds pending)
  unfolding convert_entries
  convert_entries-total is_opaque [] pending pending' w v ds h plain k = ground (arith, h, k)
  convert_entries-total is_opaque (c ∷ cs) pending pending' w v ds h (p, ps) k =
      let (mid, u, e, f) =
        bind-eq-ok (convert_entry directory is_opaque c pending)
          (convert_entries directory is_opaque cs) w h in
      let (changed, _) =
        Framing-run
          (Framing-convert_entry SameDirs-IsPreorder directory (SameDirs-Allows directory) Any
            (λ _ _. tt) is_opaque c pending p (All-any pending))
          w u mid e in
      let pushed = convert_entry-Pushed is_opaque c pending mid w u e in
      let (later, fewer) =
        convert_entries-total is_opaque cs mid pending' u v ds f ps
          (mid_dirs mid u (still_dirs w.files u.files pending changed k) pushed) in
      (later, omega (arith, fewer, mid_total mid u pushed))
    where
      mid_dirs :
          (mid : List FilePath) (u : World)
          → All (IsDirNow u.files) pending
          → Pushed (push directory c) pending mid u.files
          → All (IsDirNow u.files) mid
      mid_dirs mid u k (inl e) = rw e k
      mid_dirs mid u k (inr (e, d)) = rw e (d, k)

      mid_total :
          (mid : List FilePath) (u : World)
          → Pushed (push directory c) pending mid u.files
          → total ds mid ≤ count (resolve directory ++ c ∷ []) ds + total ds pending
      mid_total mid u (inl e) = rw e (omega arith)
      mid_total mid u (inr (e, d)) = rw e (omega (arith, ap (λ q. count q ds) (resolve-entry c p)))
