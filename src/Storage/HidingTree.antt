-- ===== src/Storage/HidingTree.antt =====
-- The conversion of a whole layer: what its markers hide is hidden for overlayfs afterwards.
use mathlib.Core.List.{append_assoc, append-nil}
use pakstak.Base.{
  ℕ, zero, suc, Text, ok, true, ◌≡◌, ◌⊎◌, inl, inr, ap, sym, subst, ◌∙◌, List, [], ◌∷◌, ◌++◌, All,
  length, arith, Bool-cases,
}
use pakstak.Fs.Paths.{FilePath, push, resolve, IsPlain, path_dec}
use pakstak.Fs.Files.{Files, is_dir_at, exists_at}
use pakstak.Fs.World.{World}
use pakstak.Storage.Action.{bind-eq-ok}
use pakstak.Storage.Frames.{Any, Framing-run}
use pakstak.Storage.Whiteouts.{
  opaque_marker, convert_directory, convert_pending, convert_oci_whiteouts_to_overlayfs,
}
use pakstak.Storage.WhiteoutFrames.{Framing-convert_pending}
use pakstak.Storage.WhiteoutStack.{All-any}
use pakstak.Storage.Hiding.{
  is_opaque_dir, hides_lower, IsProper, marker_of, OciHides, OverlayHides, OnlyOwn, shows_own,
  Hides, Hides-IsPreorder, Hides-Allows,
}
use pakstak.Storage.HidingDirectory.{resolve-entry}
use pakstak.Storage.HidingOwn.{convert_pending-Own}
use pakstak.Storage.HidingStep.{
  convert_directory-Hides, convert_directory-OverlayHides, convert_directory-pushes,
  replaced-hides_lower,
}

-- The directories that lead from one directory to another, none of them a marker.
abbrev pub DirsBelow : Files → FilePath → FilePath → Type 0
DirsBelow fs d [] = Unit
DirsBelow fs d (c ∷ r) =
    IsPlain c × IsProper c × (is_dir_at (d ++ c ∷ []) fs ≡ true) × DirsBelow fs (d ++ c ∷ []) r

abbrev Marked : FilePath → Text → Files → Type 0
Marked dir name fs =
    (exists_at (dir ++ opaque_marker ∷ []) fs ≡ true)
    ⊎ (exists_at (dir ++ marker_of name ∷ []) fs ≡ true)

Marked-OciHides :
    (dir : FilePath) (name : Text) (fs : Files) → Marked dir name fs → OciHides dir name fs
Marked-OciHides dir name fs (inl h) = inl h
Marked-OciHides dir name fs (inr h) = inr (inl h)

-- What the markers in a directory and in those below hide.
abbrev Converted : Files → Files → FilePath → Type 0
Converted fs fs' path =
    (r : FilePath)
    → DirsBelow fs (resolve path) r
    → (name : Text) → IsPlain name
    → IsProper name
    → Marked (resolve path ++ r) name fs
    → OverlayHides (resolve path ++ r) name fs'

module _ {P : FilePath → Type 0} where
  Marked-Hides :
      (dir : FilePath) (name : Text) (fs fs' : Files)
      → Hides P fs fs'
      → (P dir → ⊥)
      → Marked dir name fs
      → Marked dir name fs'
  Marked-Hides dir name fs fs' h out (inl k) = inl (h.there dir opaque_marker out k)
  Marked-Hides dir name fs fs' h out (inr k) = inr (h.there dir (marker_of name) out k)

  OverlayHides-Hides :
      (dir : FilePath) (name : Text) (fs fs' : Files)
      → Hides P fs fs'
      → IsProper name
      → OverlayHides dir name fs
      → OverlayHides dir name fs'
  OverlayHides-Hides dir name fs fs' h proper k = elim (Bool-cases (is_opaque_dir dir fs)) [
    | inl e ↦ ground (arith, h.opaque dir e)
    | inr e ↦
        let low : hides_lower (dir ++ name ∷ []) fs ≡ true = ground (arith, e, k) in
        ground (arith, h.covered dir name proper low)
  ]

  DirsBelow-Hides :
      (fs fs' : Files) (d r : FilePath) → Hides P fs fs' → DirsBelow fs d r → DirsBelow fs' d r
  DirsBelow-Hides fs fs' d [] h k = tt
  DirsBelow-Hides fs fs' d (c ∷ r) h (p, q, at, below) =
      (p, q, h.dirs.at (d ++ c ∷ []) at, DirsBelow-Hides fs fs' (d ++ c ∷ []) r h below)

All-weaken :
    (G H : FilePath → Type 0)
    → ((path : FilePath) → G path → H path)
    → (pending : List FilePath) → All G pending
    → All H pending
All-weaken G H f [] k = tt
All-weaken G H f (path ∷ pending) (k, ks) = (f path k, All-weaken G H f pending ks)

-- A step of the walk, and the rest of it.
module _ (p : FilePath) (pending pending' : List FilePath) (w u v : World)
    (step : convert_directory p pending w ≡ (ok pending', u))
    (later : Hides Any u.files v.files) where
  abbrev P : FilePath → Type 0
  P d = d ≡ resolve p

  now : Hides P w.files u.files
  now = convert_directory-Hides p pending pending' w u step

  here :
      (name : Text)
      → IsPlain name
      → IsProper name
      → Marked (resolve p) name w.files
      → OverlayHides (resolve p) name v.files
  here name plain proper m = OverlayHides-Hides (resolve p) name u.files v.files later proper (
      convert_directory-OverlayHides p name plain proper pending pending' w u step
        (Marked-OciHides (resolve p) name w.files m))

  -- Elsewhere the markers are still there.
  elsewhere :
      (dir : FilePath) (name : Text)
      → IsPlain name
      → IsProper name
      → (Marked dir name u.files → OverlayHides dir name v.files)
      → Marked dir name w.files
      → OverlayHides dir name v.files
  elsewhere dir name plain proper k m = elim (path_dec dir (resolve p)) [
    | yes e ↦
        subst (λ d. OverlayHides d name v.files) (sym e)
          (here name plain proper (subst (λ d. Marked d name w.files) e m))
    | no ne ↦ k (Marked-Hides dir name w.files u.files now ne m)
  ]

  Converted-later :
      (path : FilePath) → Converted u.files v.files path → Converted w.files v.files path
  Converted-later path k r below name plain proper m =
      elsewhere (resolve path ++ r) name plain proper
        (k r (DirsBelow-Hides w.files u.files (resolve path) r now below) name plain proper) m

  Converted-here :
      ((c : Text)
        → IsPlain c
        → IsProper c
        → is_dir_at (resolve p ++ c ∷ []) w.files ≡ true
        → Converted u.files v.files (push p c))
      → Converted w.files v.files p
  Converted-here k [] below name plain proper m =
      subst (λ d. OverlayHides d name v.files) (sym (append-nil (resolve p)))
        (here name plain proper (subst (λ d. Marked d name w.files) (append-nil (resolve p)) m))
  Converted-here k (c ∷ r) (pc, qc, at, below) name plain proper m =
      let child = resolve-entry p c pc in
      let whole : resolve (push p c) ++ r ≡ resolve p ++ c ∷ r =
        ap (λ d. d ++ r) child ∙ append_assoc (resolve p) (c ∷ []) r in
      let below' : DirsBelow u.files (resolve (push p c)) r =
        subst (λ d. DirsBelow u.files d r) (sym child)
          (DirsBelow-Hides w.files u.files (resolve p ++ c ∷ []) r now below) in
      subst (λ d. OverlayHides d name v.files) whole
        (elsewhere (resolve (push p c) ++ r) name plain proper
          (k c pc qc at r below' name plain proper)
          (subst (λ d. Marked d name w.files) (sym whole) m))

convert_pending-Hides :
    (fuel : ℕ) (pending : List FilePath) (w v : World) (x : Unit {0})
    → convert_pending fuel pending w ≡ (ok x, v)
    → Hides Any w.files v.files
convert_pending-Hides fuel pending w v x h =
    (Framing-run
      (Framing-convert_pending Hides-IsPreorder Any (λ d _. Hides-Allows d tt) (λ d c _ _. tt) fuel
        pending (All-any pending))
      w v x h).0

convert_pending-Converted :
    (fuel : ℕ) (pending : List FilePath) (w v : World) (x : Unit {0})
    → convert_pending fuel pending w ≡ (ok x, v)
    → All (Converted w.files v.files) pending
unfolding convert_pending
convert_pending-Converted fuel [] w v x h = tt
convert_pending-Converted zero (p ∷ pending) w v x h = cc
convert_pending-Converted (suc fuel) (p ∷ pending) w v x h =
    let (pending', u, e, f) = bind-eq-ok (convert_directory p pending) (convert_pending fuel) w h in
    let later = convert_pending-Hides fuel pending' u v x f in
    let (rest, children) =
      convert_directory-pushes p (Converted u.files v.files) pending pending' w u e
        (convert_pending-Converted fuel pending' u v x f) in
    (
      Converted-here p pending pending' w u v e later children,
      All-weaken (Converted u.files v.files) (Converted w.files v.files)
          (Converted-later p pending pending' w u v e later) pending rest,
    )

-- Where the whiteouts of an unpacked layer were converted with success, all that the layer hid from
-- lower layers as OCI reads it, overlayfs hides, and it shows nothing in its place but what the layer
-- has had there itself. This holds for the entries of all directories of the layer; neither the entry
-- nor a directory on the way is itself named like a marker.
pub convert_oci_whiteouts_to_overlayfs-OverlayHides :
    (output_dir r : FilePath) (name : Text) (w v : World)
    → convert_oci_whiteouts_to_overlayfs output_dir w ≡ (ok tt, v)
    → DirsBelow w.files (resolve output_dir) r
    → IsPlain name
    → IsProper name
    → OciHides (resolve output_dir ++ r) name w.files
    → OverlayHides (resolve output_dir ++ r) name v.files
      × OnlyOwn ((resolve output_dir ++ r) ++ name ∷ []) w.files v.files
unfolding convert_oci_whiteouts_to_overlayfs
convert_oci_whiteouts_to_overlayfs-OverlayHides output_dir r name w v h below plain proper hidden =
    (by_cause hidden, own)
  where
    converted : Converted w.files v.files output_dir
    converted = (convert_pending-Converted (suc (length w.files)) (output_dir ∷ []) w v tt h).0

    own : OnlyOwn ((resolve output_dir ++ r) ++ name ∷ []) w.files v.files
    own =
        let kept = convert_pending-Own (suc (length w.files)) (output_dir ∷ []) w v tt h in
        elim (Bool-cases (shows_own ((resolve output_dir ++ r) ++ name ∷ []) v.files)) [
          | inl e ↦ inr (kept.at ((resolve output_dir ++ r) ++ name ∷ []) e)
          | inr e ↦ inl e
        ]

    by_cause :
        OciHides (resolve output_dir ++ r) name w.files
        → OverlayHides (resolve output_dir ++ r) name v.files
    by_cause (inl k) = converted r below name plain proper (inl k)
    by_cause (inr (inl k)) = converted r below name plain proper (inr k)
    by_cause (inr (inr k)) =
        let kept = convert_pending-Hides (suc (length w.files)) (output_dir ∷ []) w v tt h in
        let low =
          kept.covered (resolve output_dir ++ r) name proper
            (replaced-hides_lower ((resolve output_dir ++ r) ++ name ∷ []) w.files k) in
        ground (arith, low)
