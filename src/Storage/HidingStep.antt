-- ===== src/Storage/HidingStep.antt =====
-- One step of the walk that converts whiteouts: what the directory hides, and what is pushed.
use pakstak.Base.{
  Text, codes, ◌==◌, ==_iff, strip_prefix, ok, Bool, true, false, not, ◌&&◌, ◌||◌, Bool-cases, ◌≡◌,
  inl, inr, refl, ap, sym, subst, none, some, List, [], ◌∷◌, ◌++◌, All, mem, arith, if◌then◌else◌,
}
use pakstak.Fs.Paths.{FilePath, push, resolve, IsPlain}
use pakstak.Fs.Files.{Files, Node, lookup, names, names-IsPlain, node_is_dir, is_dir_at, exists_at}
use pakstak.Fs.Children.{mem-names}
use pakstak.Fs.World.{World, symlink_metadata, read_dir}
use pakstak.Storage.Action.{pure, do_io, when, bind-eq-ok}
use pakstak.Storage.Frames.{Any, Framing-run, Framing-when}
use pakstak.Storage.Runs.{metadata-eq-ok, read_dir-eq-ok}
use pakstak.Storage.Whiteouts.{
  opaque_marker, opaque_name, yes_value, has_opaque, oci_whiteout_target_name, set_overlay_xattr,
  push_directory, convert_entry, convert_entries, convert_directory,
}
use pakstak.Storage.WhiteoutFrames.{
  Framing-set_overlay_xattr, Framing-convert_entry, Framing-convert_entries,
}
use pakstak.Storage.WhiteoutStack.{All-any, Pushed, convert_entry-Pushed}
use pakstak.Storage.Hiding.{
  is_opaque_dir, hides_lower, IsProper, marker_of, OciHides, OverlayHides, Hides, Hides-IsPreorder,
  Hides-Allows,
}
use pakstak.Storage.HidingDirectory.{
  set-is_opaque_dir, resolve-entry, convert_entries-Covers, marker_of-IsPlain,
}

has_opaque-mem : (cs : List Text) → has_opaque cs ≡ mem opaque_marker cs
has_opaque-mem [] = refl
has_opaque-mem (c ∷ cs) =
    ground (arith, ==_iff c opaque_marker, ==_iff opaque_marker c, has_opaque-mem cs)

pub replaced-hides_lower :
    (q : FilePath) (fs : Files)
    → (exists_at q fs && not (is_dir_at q fs)) ≡ true
    → hides_lower q fs ≡ true
unfolding exists_at is_dir_at hides_lower
replaced-hides_lower q fs h = ground (arith, h)

opaque_marker-IsPlain : IsPlain opaque_marker
unfolding ◌==◌
opaque_marker-IsPlain = refl

marker_strips : strip_prefix (codes ".wh.") opaque_marker ≡ some (codes ".wh..opq")
unfolding strip_prefix
marker_strips = refl

is_dir_at-exists : (q : FilePath) (fs : Files) → is_dir_at q fs ≡ true → exists_at q fs ≡ true
unfolding is_dir_at exists_at
is_dir_at-exists q fs h = ground (arith, h)

or_right : (a b : Bool) → b ≡ true → (a || b) ≡ true
or_right a b h = ground arith

module _ (directory : FilePath) where
  abbrev P : FilePath → Type 0
  P d = d ≡ resolve directory

  abbrev dir : FilePath
  dir = resolve directory

  -- The parts of a step that succeeds.
  record Step (w v : World) (pending pending' : List FilePath) : Type 0 where
    cs : List Text
    node : Node
    start : World
    at : lookup dir w.files ≡ some node
    is_dir : node_is_dir node ≡ true
    listed : cs ≡ names dir w.files
    marked :
        (x : Unit {0}) × (u : World) × (u.files ≡ w.files)
        × (when (has_opaque cs) (set_overlay_xattr directory opaque_name yes_value) u
            ≡ (ok x, start))
    before : Hides P w.files start.files
    converted : convert_entries directory (has_opaque cs) cs pending start ≡ (ok pending', v)
    after : Hides P start.files v.files

  IsPlain-names : (fs : Files) (cs : List Text) → cs ≡ names dir fs → All IsPlain cs
  IsPlain-names fs cs h = rw h (names-IsPlain dir fs)

  step_of :
      (pending pending' : List FilePath) (w v : World)
      → convert_directory directory pending w ≡ (ok pending', v)
      → Step w v pending pending'
  unfolding convert_directory
  step_of pending pending' w v h =
      let allows = Hides-Allows {P = P} directory refl in
      let (cs, u, e, f) = bind-eq-ok (do_io (read_dir directory)) _ w h in
      let (n, at, d, listed, same) = read_dir-eq-ok directory w u cs e in
      let (x, u', e', f') =
        bind-eq-ok (when (has_opaque cs) (set_overlay_xattr directory opaque_name yes_value)) _ u
          f in
      let (before, _) =
        Framing-run
          (Framing-when Hides-IsPreorder (has_opaque cs) _ (
            Framing-set_overlay_xattr Hides-IsPreorder directory allows directory opaque_name
              (inl refl)))
          u u' x e' in
      let (after, _) =
        Framing-run
          (Framing-convert_entries Hides-IsPreorder directory allows Any (λ _ _. tt) (has_opaque cs)
            cs pending (IsPlain-names w.files cs listed) (All-any pending))
          u' v pending' f' in
      record {
        cs = cs;
        node = n;
        start = u';
        at = at;
        is_dir = d;
        listed = listed;
        marked = (x, u, same, e');
        before = rw (← same) before;
        converted = f';
        after = after;
      }

  pub convert_directory-Hides :
      (pending pending' : List FilePath) (w v : World)
      → convert_directory directory pending w ≡ (ok pending', v)
      → Hides P w.files v.files
  convert_directory-Hides pending pending' w v h =
      let s = step_of pending pending' w v h in
      Hides-IsPreorder.transitive w.files s.start.files v.files s.before s.after

  -- A directory with an opaque marker becomes opaque.
  made_opaque :
      (pending pending' : List FilePath) (w v : World) (s : Step w v pending pending')
      → has_opaque s.cs ≡ true
      → is_opaque_dir dir v.files ≡ true
  made_opaque pending pending' w v s h =
      let (x, u, same, run) = s.marked in
      let now : lookup dir u.files ≡ some s.node = rw same s.at in
      s.after.opaque dir
        (set-is_opaque_dir directory u s.start x s.node (rw h at run) now s.is_dir).0

  module _ (name : Text) (plain : IsPlain name) (proper : IsProper name) where
    pub convert_directory-OverlayHides :
        (pending pending' : List FilePath) (w v : World)
        → convert_directory directory pending w ≡ (ok pending', v)
        → OciHides dir name w.files
        → OverlayHides dir name v.files
    convert_directory-OverlayHides pending pending' w v h hidden =
        let s = step_of pending pending' w v h in
        elim (Bool-cases (has_opaque s.cs)) [
          | inl e ↦ ground (arith, made_opaque pending pending' w v s e)
          | inr e ↦ or_right _ _ (by_cause s e hidden)
        ]
      where
        listed_there :
            (s : Step w v pending pending') (c : Text)
            → IsPlain c
            → exists_at (dir ++ c ∷ []) w.files ≡ true
            → mem c s.cs ≡ true
        listed_there s c p k = rw s.listed (mem-names dir c w.files p k)

        by_cause :
            (s : Step w v pending pending')
            → has_opaque s.cs ≡ false
            → OciHides dir name w.files
            → hides_lower (dir ++ name ∷ []) v.files ≡ true
        by_cause s e (inl k) =
            cc (e, has_opaque-mem s.cs, listed_there s opaque_marker opaque_marker-IsPlain k)
        by_cause s e (inr (inl k)) =
            convert_entries-Covers directory name plain proper s.cs pending pending' s.start v
              (rw e at s.converted) (IsPlain-names w.files s.cs s.listed)
              (listed_there s (marker_of name) (marker_of-IsPlain directory name plain proper) k)
        by_cause s e (inr (inr k)) =
            s.after.covered dir name proper
              (s.before.covered dir name proper (replaced-hides_lower (dir ++ name ∷ []) w.files k))

  convert_entry-pushes :
      (is_opaque : Bool) (c : Text) (pending pending' : List FilePath) (w v : World)
      → convert_entry directory is_opaque c pending w ≡ (ok pending', v)
      → IsPlain c
      → IsProper c
      → is_dir_at (dir ++ c ∷ []) w.files ≡ true
      → pending' ≡ push directory c ∷ pending
  unfolding convert_entry push_directory oci_whiteout_target_name is_dir_at
  convert_entry-pushes is_opaque c pending pending' w v h plain proper d =
      let run : push_directory (push directory c) pending w ≡ (ok pending', v) =
        rw (not_marker, no_target, convert_entry) at h in
      let (n, u, e, f) =
        bind-eq-ok (do_io (symlink_metadata (push directory c)))
          (λ metadata. pure (if node_is_dir metadata then push directory c ∷ pending else pending))
          w run in
      let (at, same) = metadata-eq-ok (push directory c) w u n e in
      let here : lookup (dir ++ c ∷ []) w.files ≡ some n =
        rw (← resolve-entry directory c plain) at in
      ground (arith, here, d, f)
    where
      not_marker : (c == opaque_marker) ≡ false
      not_marker = elim (Bool-cases (c == opaque_marker)) [
        | inr e ↦ e
        | inl e ↦
            let is = ap (strip_prefix (codes ".wh.")) ((==_iff c opaque_marker).0 e) in
            cc (proper, is, marker_strips)
      ]

      no_target : oci_whiteout_target_name c ≡ none
      no_target = ground (arith, proper)

  -- What holds for the stack afterwards holds for the stack before, and for each entry that is a
  -- directory and no marker.
  convert_entries-pushes :
      (G : FilePath → Type 0) (is_opaque : Bool) (cs : List Text) (pending pending' : List FilePath)
      (w v : World)
      → convert_entries directory is_opaque cs pending w ≡ (ok pending', v)
      → All IsPlain cs
      → All G pending'
      → All G pending
        × ((c : Text)
            → mem c cs ≡ true
            → IsProper c
            → is_dir_at (dir ++ c ∷ []) w.files ≡ true
            → G (push directory c))
  unfolding convert_entries
  convert_entries-pushes G is_opaque [] pending pending' w v h plain k =
      (ground (arith, h, k), λ c m p d. cc)
  convert_entries-pushes G is_opaque (x ∷ cs) pending pending' w v h (p, ps) k =
      let (mid, u, e, f) =
        bind-eq-ok (convert_entry directory is_opaque x pending)
          (convert_entries directory is_opaque cs) w h in
      let (kept, _) =
        Framing-run
          (Framing-convert_entry Hides-IsPreorder directory (Hides-Allows {P = P} directory refl)
            Any (λ _ _. tt) is_opaque x pending p (All-any pending))
          w u mid e in
      let (all_mid, below) = convert_entries-pushes G is_opaque cs mid pending' u v f ps k in
      (
        popped mid u.files all_mid (convert_entry-Pushed directory is_opaque x pending mid w u e),
        λ c m proper d. elim (Bool-cases (c == x)) [
          | inr g ↦ below c (ground (arith, g, m)) proper (kept.dirs.at (dir ++ c ∷ []) d)
          | inl g ↦
              let is : c ≡ x = (==_iff c x).0 g in
              let d' = subst (λ y. is_dir_at (dir ++ y ∷ []) w.files ≡ true) is d in
              let proper' = subst IsProper is proper in
              let pushed = convert_entry-pushes is_opaque x pending mid w u e p proper' d' in
              let (top, _) = subst (All G) pushed all_mid in
              subst (λ y. G (push directory y)) (sym is) top
        ],
      )
    where
      popped :
          (mid : List FilePath) (fs : Files)
          → All G mid
          → Pushed (push directory x) pending mid fs
          → All G pending
      popped mid fs a (inl e) = subst (All G) e a
      popped mid fs a (inr (e, _)) = (subst (All G) e a).1

  pub convert_directory-pushes :
      (G : FilePath → Type 0) (pending pending' : List FilePath) (w v : World)
      → convert_directory directory pending w ≡ (ok pending', v)
      → All G pending'
      → All G pending
        × ((c : Text)
            → IsPlain c
            → IsProper c
            → is_dir_at (dir ++ c ∷ []) w.files ≡ true
            → G (push directory c))
  convert_directory-pushes G pending pending' w v h k =
      let s = step_of pending pending' w v h in
      let (rest, below) =
        convert_entries-pushes G (has_opaque s.cs) s.cs pending pending' s.start v s.converted
          (IsPlain-names w.files s.cs s.listed) k in
      (
        rest,
        λ c plain proper d.
            below c
              (rw s.listed
                (mem-names dir c w.files plain (is_dir_at-exists (dir ++ c ∷ []) w.files d)))
              proper (s.before.dirs.at (dir ++ c ∷ []) d),
      )
