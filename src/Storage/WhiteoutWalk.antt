-- ===== src/Storage/WhiteoutWalk.antt =====
-- The walk that converts whiteouts comes to its end: more fuel would change nothing.
use pakstak.Base.{
  ℕ, zero, suc, ◌+◌, ◌≤◌, ◌<◌, ◌≡◌, inl, refl, ap, List, [], ◌∷◌, All, length, arith, ok,
}
use pakstak.Fs.Paths.{FilePath, resolve, IsPlain}
use pakstak.Fs.Files.{Files, names, names-IsPlain}
use pakstak.Fs.Counts.{
  count, below, count_all, names-NoTwice, count-length, below-lt-count, count_all-below,
}
use pakstak.Fs.OnlyDirs.{
  only_dirs, counted, length-only_dirs, lookup-only_dirs, SameDirs, SameDirs-trans,
}
use pakstak.Fs.World.{World, read_dir}
use pakstak.Storage.Action.{do_io, when, bind-eq-ok, continue-ext}
use pakstak.Storage.Modes.{total}
use pakstak.Storage.Frames.{Any, Framing-run, Framing-when}
use pakstak.Storage.Whiteouts.{
  opaque_name, yes_value, has_opaque, set_overlay_xattr, convert_directory, convert_pending,
  convert_oci_whiteouts_to_overlayfs,
}
use pakstak.Storage.WhiteoutFrames.{Framing-set_overlay_xattr, Framing-convert_entries}
use pakstak.Storage.Runs.{read_dir-eq-ok}
use pakstak.Storage.WhiteoutStack.{
  SameDirs-IsPreorder, SameDirs-Allows, IsDirNow, still_dirs, total_fewer, All-any,
  convert_entries-total,
}

-- The pending directories after a step, counted as the files are then.
abbrev Stepped : World → FilePath → List FilePath → List FilePath → World → Type 0
Stepped w p pending pending' v =
    All (IsDirNow v.files) pending'
    × (total (only_dirs v.files) pending'
        < count (resolve p) (only_dirs w.files) + total (only_dirs w.files) pending)

convert_directory-Stepped :
    (p : FilePath) (pending pending' : List FilePath) (w v : World)
    → convert_directory p pending w ≡ (ok pending', v)
    → All (IsDirNow w.files) pending
    → Stepped w p pending pending' v
unfolding convert_directory
convert_directory-Stepped p pending pending' w v h k =
    let (cs, u, e, f) = bind-eq-ok (do_io (read_dir p)) _ w h in
    let (n, at, dir, listed, same) = read_dir-eq-ok p w u cs e in
    let (x, u', e', f') =
      bind-eq-ok (when (has_opaque cs) (set_overlay_xattr p opaque_name yes_value)) _ u f in
    let allows = SameDirs-Allows p in
    let (marked, _) =
      Framing-run
        (Framing-when SameDirs-IsPreorder (has_opaque cs) _
          (Framing-set_overlay_xattr SameDirs-IsPreorder p allows p opaque_name (inl refl)))
        u u' x e' in
    let plain : All IsPlain cs = rw listed (names-IsPlain (resolve p) w.files) in
    let (converted, _) =
      Framing-run
        (Framing-convert_entries SameDirs-IsPreorder p allows Any (λ _ _. tt) (has_opaque cs) cs
          pending plain (All-any pending))
        u' v pending' f' in
    let start : All (IsDirNow u'.files) pending =
      still_dirs u.files u'.files pending marked (rw same k) in
    let ds = only_dirs w.files in
    let (later, fewer) =
      convert_entries-total p (has_opaque cs) cs pending pending' u' v ds f' plain start in
    let all_changed : SameDirs w.files v.files =
      rw (← same) (SameDirs-trans u.files u'.files v.files marked converted) in
    (
      later,
      omega (
        arith,
        fewer,
        total_fewer w.files v.files pending' all_changed,
        below-lt-count (resolve p) ds n (lookup-only_dirs (resolve p) n w.files at dir),
        ap (λ l. count_all (resolve p) l ds) listed,
        listed_below p w.files,
      ),
    )
  where
    listed_below :
        (q : FilePath) (fs : Files)
        → count_all (resolve q) (names (resolve q) fs) (only_dirs fs)
          ≤ below (resolve q) (only_dirs fs)
    listed_below q fs =
        count_all-below (resolve q) (names (resolve q) fs) (only_dirs fs)
          (names-NoTwice (resolve q) fs)

suc_add : (a b : ℕ) → suc a + b ≡ suc (a + b)
suc_add a b = omega arith

-- Directories only are pending, and the fuel is as much as they are with all below them.
convert_pending_enough :
    (fuel more : ℕ) (pending : List FilePath) (w : World)
    → All (IsDirNow w.files) pending
    → total (only_dirs w.files) pending ≤ fuel
    → convert_pending (fuel + more) pending w ≡ convert_pending fuel pending w
unfolding convert_pending
convert_pending_enough fuel more [] w k h = refl
convert_pending_enough zero more (p ∷ pending) w (k, ks) h =
    absurd (omega (arith, h, counted (resolve p) w.files k))
convert_pending_enough (suc fuel) more (p ∷ pending) w (k, ks) h = rw (suc_add fuel more) (
    continue-ext (convert_pending (fuel + more)) (convert_pending fuel)
      (convert_directory p pending w).0 (convert_directory p pending w).1
      λ pending' e.
        let v = (convert_directory p pending w).1 in
        let (later, fewer) =
          convert_directory-Stepped p pending pending' w v (ap (λ r. (r, v)) e) ks in
        convert_pending_enough fuel more pending' v later (omega (arith, fewer, h)))

-- The walk through an unpacked layer that converts its whiteouts comes to its end, whatever the files
-- are and wherever it is cut short: more fuel than it is given would change nothing.
pub convert_oci_whiteouts_to_overlayfs_ends :
    (output_dir : FilePath) (more : ℕ) (w : World)
    → convert_pending (suc (length w.files) + more) (output_dir ∷ []) w
      ≡ convert_oci_whiteouts_to_overlayfs output_dir w
unfolding convert_oci_whiteouts_to_overlayfs convert_pending
convert_oci_whiteouts_to_overlayfs_ends output_dir more w = rw (suc_add (length w.files) more) (
    continue-ext (convert_pending (length w.files + more)) (convert_pending (length w.files))
      (convert_directory output_dir [] w).0 (convert_directory output_dir [] w).1
      λ pending' e.
        let v = (convert_directory output_dir [] w).1 in
        let (later, fewer) =
          convert_directory-Stepped output_dir [] pending' w v (ap (λ r. (r, v)) e) tt in
        convert_pending_enough (length w.files) more pending' v later (
          omega (
            arith,
            fewer,
            count-length (resolve output_dir) (only_dirs w.files),
            length-only_dirs w.files,
          )))
