-- ===== src/Storage/HidingDirectory.antt =====
-- The conversion of one directory: what its markers hide is hidden for overlayfs afterwards.
use pakstak.Base.{
  Text, codes, ◌==◌, ==_iff, strip_prefix, strip_prefix-append, contains, contains-append, Result,
  ok, err, true, false, not, Bool-cases, Option-cases, ◌≡◌, inl, inr, refl, ap, sym, subst, Option,
  ◌∙◌, none, some, List, [], ◌∷◌, ◌++◌, All, mem, arith,
}
use pakstak.Fs.Paths.{FilePath, push, resolve, IsPlain}
use pakstak.Fs.PathLaws.{push_plain, resolve-child}
use pakstak.Fs.Files.{Files, Node, lookup, node_is_dir, regular_file}
use pakstak.Fs.FileLaws.{lookup-put}
use pakstak.Fs.Attributes.{
  has_nul, xattr, with_xattr, set_xattr, set_xattr_at, set_xattr_at-cases, create_new,
  create_new_at,
}
use pakstak.Fs.World.{IoKind, not_found, invalid_input, World, symlink_metadata}
use pakstak.Storage.Action.{
  StorageError, io, ◌>>◌, pure, do_io, io_caught, check, bind-eq-ok, check-eq-ok,
}
use pakstak.Storage.Triple.{operation-eq-ok}
use pakstak.Storage.Frames.{Any, Framing-run}
use pakstak.Storage.Runs.{metadata-eq-ok}
use pakstak.Storage.Whiteouts.{
  opaque_marker, opaque_name, whiteout_name, yes_value, oci_whiteout_target_name, set_overlay_xattr,
  remove_oci_whiteout_marker, hide_target, convert_oci_whiteout_marker, convert_target,
  convert_entry, convert_entries,
}
use pakstak.Storage.WhiteoutFrames.{
  Allows, Framing-set_overlay_xattr, Framing-remove_oci_whiteout_marker, Framing-convert_entries,
  IsMarker,
}
use pakstak.Storage.WhiteoutStack.{All-any}
use pakstak.Storage.Hiding.{
  is_opaque, is_opaque_dir, hides_lower, IsProper, marker_of, Hides, Hides-IsPreorder, Hides-Allows,
}

pub set_overlay_xattr-eq-ok :
    (p : FilePath) (key : Text) (w v : World) (x : Unit {0})
    → set_overlay_xattr p key yes_value w ≡ (ok x, v)
    → (n : Node) × (lookup (resolve p) w.files ≡ some n)
      × (lookup (resolve p) v.files ≡ some (with_xattr key yes_value n))
unfolding set_overlay_xattr set_xattr
set_overlay_xattr-eq-ok p key w v x h =
    let (y, u, e, f) =
      bind-eq-ok (check (not (has_nul p)) (io invalid_input))
        (λ _. do_io (set_xattr p key yes_value)) w h in
    let (_, same) = check-eq-ok (not (has_nul p)) (io invalid_input) w u y e in
    let done = operation-eq-ok (set_xattr_at (resolve p) key yes_value) (λ n fs. fs) u v x f in
    elim (set_xattr_at-cases (resolve p) key yes_value u.files) [
      | inl g ↦ cc (g, done)
      | inr (n, at, g) ↦ (
        n,
        rw (← same) at,
        ground (
          arith,
          g,
          done,
          lookup-put (resolve p) (resolve p) (with_xattr key yes_value n) u.files,
        ),
      )
    ]

-- A directory that the attribute was set on.
pub set-is_opaque_dir :
    (p : FilePath) (w v : World) (x : Unit {0}) (n : Node)
    → set_overlay_xattr p opaque_name yes_value w ≡ (ok x, v)
    → lookup (resolve p) w.files ≡ some n
    → node_is_dir n ≡ true
    → (is_opaque_dir (resolve p) v.files ≡ true) × (hides_lower (resolve p) v.files ≡ true)
unfolding is_opaque_dir hides_lower xattr ◌==◌
set-is_opaque_dir p w v x n h at dir =
    let (m, there, now) = set_overlay_xattr-eq-ok p opaque_name w v x h in
    let same : node_is_dir m ≡ true = ground (arith, at, there, dir) in
    let yes : is_opaque (with_xattr opaque_name yes_value m) ≡ true = refl in
    (ground (arith, now, same, yes), ground (arith, now, same, yes))

caught_metadata-eq-ok :
    (p : FilePath) (w u : World) (n : Node)
    → io_caught (symlink_metadata p) w ≡ (ok (ok n), u)
    → (lookup (resolve p) w.files ≡ some n) × (u.files ≡ w.files)
caught_metadata-eq-ok p w u n h =
    metadata-eq-ok p w u n (by_result (symlink_metadata p w).0 (symlink_metadata p w).1 h)
  where
    by_result :
        (r : Result IoKind Node) (x : World)
        → ◌≡◌ {A = Result StorageError (Result IoKind Node) × World} (ok r, x) (ok (ok n), u)
        → do_io (λ y. (r, x)) w ≡ (ok n, u)
    by_result (ok m) x e = ground arith
    by_result (err z) x e = cc

pub create_new-eq-ok :
    (p : FilePath) (w v : World) (x : Unit {0})
    → do_io (create_new p) w ≡ (ok x, v)
    → lookup (resolve p) v.files ≡ some (regular_file [])
unfolding create_new create_new_at
create_new-eq-ok p w v x h =
    let done = operation-eq-ok (create_new_at (resolve p)) (λ n fs. fs) w v x h in
    elim (Option-cases (lookup (resolve p) w.files)) [
      | inl e ↦
          ground (arith, e, done, lookup-put (resolve p) (resolve p) (regular_file []) w.files)
      | inr (n, e) ↦ ground (arith, e, done)
    ]

module _ (directory : FilePath) where
  abbrev P : FilePath → Type 0
  P d = d ≡ resolve directory

  abbrev allows : Allows (Hides P) directory
  allows = Hides-Allows directory refl

  abbrev Kept : Files → Files → Type 0
  Kept = Hides P

  pub resolve-entry :
      (c : Text) → IsPlain c → resolve (push directory c) ≡ resolve directory ++ c ∷ []
  resolve-entry c h = ap resolve (push_plain directory c h) ∙ resolve-child directory c h

  abbrev Covers : Text → Files → Type 0
  Covers name fs = hides_lower (resolve directory ++ name ∷ []) fs ≡ true

  module _ (name : Text) (plain : IsPlain name) (proper : IsProper name) where
    at_target :
        (fs : Files) → hides_lower (resolve (push directory name)) fs ≡ true → Covers name fs
    at_target fs h = rw (← resolve-entry name plain) h

    no_slash : contains name b'/' ≡ false
    no_slash = ground (arith, plain)

    hide_target-Covers :
        (found : Result IoKind Node) (w u v : World) (x : Unit {0})
        → io_caught (symlink_metadata (push directory name)) w ≡ (ok found, u)
        → hide_target (push directory name) found u ≡ (ok x, v)
        → Covers name v.files
    unfolding hide_target hides_lower
    hide_target-Covers (ok n) w u v x e h =
        let (at, same) = caught_metadata-eq-ok (push directory name) w u n e in
        let now : lookup (resolve (push directory name)) u.files ≡ some n = rw same at in
        elim (Bool-cases (node_is_dir n)) [
          | inl d ↦
              at_target v.files
                (set-is_opaque_dir (push directory name) u v x n (rw d at h) now d).1
          | inr d ↦ at_target v.files (ground (arith, d, h, now))
        ]
    hide_target-Covers (err not_found) w u v x e h =
        let (y, t, f, g) =
          bind-eq-ok (do_io (create_new (push directory name)))
            (λ _. set_overlay_xattr (push directory name) whiteout_name yes_value) u h in
        let made = create_new-eq-ok (push directory name) u t y f in
        let (kept, _) =
          Framing-run
            (Framing-set_overlay_xattr Hides-IsPreorder directory allows (push directory name)
              whiteout_name (inr (name, no_slash, refl)))
            t v x g in
        kept.covered (resolve directory) name proper (at_target t.files (ground (arith, made)))
    hide_target-Covers (err z) w u v x e h = cc

    marker_of-IsMarker : IsMarker (marker_of name)
    marker_of-IsMarker = (name, strip_prefix-append (codes ".wh.") name)

    pub marker_of-IsPlain : IsPlain (marker_of name)
    unfolding ◌==◌
    marker_of-IsPlain = ground (arith, contains-append (codes ".wh.") name b'/', no_slash)

    not_opaque : (marker_of name == opaque_marker) ≡ false
    unfolding strip_prefix
    not_opaque = elim (Bool-cases (marker_of name == opaque_marker)) [
      | inr e ↦ e
      | inl e ↦
          let same =
            ap (strip_prefix (codes ".wh.")) ((==_iff (marker_of name) opaque_marker).0 e) in
          let is : some name ≡ some (codes ".wh..opq") =
            sym (strip_prefix-append (codes ".wh.") name) ∙ same in
          let bad : some (codes ".opq") ≡ none =
            sym (
              ap
                (λ (o : Option Text). elim o [
                  | none ↦ none
                  | some n ↦ strip_prefix (codes ".wh.") n
                ])
                is)
            ∙ proper in
          cc bad
    ]

    marker_target : oci_whiteout_target_name (marker_of name) ≡ some name
    unfolding oci_whiteout_target_name
    marker_target = ground (arith, strip_prefix-append (codes ".wh.") name, plain)

    convert_entry-Covers :
        (pending pending' : List FilePath) (w v : World)
        → convert_entry directory false (marker_of name) pending w ≡ (ok pending', v)
        → Covers name v.files
    unfolding convert_entry convert_target convert_oci_whiteout_marker
    convert_entry-Covers pending pending' w v h =
        let run : (convert_oci_whiteout_marker (push directory (marker_of name))
                  (push directory name)
                >> pure pending)
              w
            ≡ (ok pending', v) =
          rw (not_opaque, marker_target, convert_entry) at h in
        let (x, u, e, f) =
          bind-eq-ok
            (convert_oci_whiteout_marker (push directory (marker_of name)) (push directory name))
            (λ _. pure pending) w run in
        let (found, t, g, k) =
          bind-eq-ok (io_caught (symlink_metadata (push directory name)))
            (λ r.
              hide_target (push directory name) r
              >> remove_oci_whiteout_marker (push directory (marker_of name)))
            w e in
        let (y, s, l, m) =
          bind-eq-ok (hide_target (push directory name) found)
            (λ _. remove_oci_whiteout_marker (push directory (marker_of name))) t k in
        let (kept, _) =
          Framing-run
            (Framing-remove_oci_whiteout_marker Hides-IsPreorder directory allows (marker_of name)
              marker_of-IsPlain marker_of-IsMarker)
            s u x m in
        let done =
          kept.covered (resolve directory) name proper (hide_target-Covers found w t s y g l) in
        subst (λ (o : Result StorageError (List FilePath) × World). Covers name o.1.files) f done

    -- Among the entries, from where the marker is met.
    pub convert_entries-Covers :
        (entries : List Text) (pending pending' : List FilePath) (w v : World)
        → convert_entries directory false entries pending w ≡ (ok pending', v)
        → All IsPlain entries
        → mem (marker_of name) entries ≡ true
        → Covers name v.files
    unfolding convert_entries
    convert_entries-Covers [] pending pending' w v h plains m = cc
    convert_entries-Covers (c ∷ cs) pending pending' w v h (p, ps) m =
        let (mid, u, e, f) =
          bind-eq-ok (convert_entry directory false c pending) (convert_entries directory false cs)
            w h in
        elim (Bool-cases (marker_of name == c)) [
          | inr g ↦ convert_entries-Covers cs mid pending' u v f ps (ground (arith, g, m))
          | inl g ↦
              let is : c ≡ marker_of name = sym ((==_iff (marker_of name) c).0 g) in
              let (kept, _) =
                Framing-run
                  (Framing-convert_entries Hides-IsPreorder directory allows Any (λ _ _. tt) false
                    cs mid ps (All-any mid))
                  u v pending' f in
              kept.covered (resolve directory) name proper (
                convert_entry-Covers pending mid w u
                  (subst (λ d. convert_entry directory false d pending w ≡ (ok mid, u)) is e))
        ]
