-- ===== src/Storage/HidingOwn.antt =====
-- The conversion of whiteouts lets nothing appear: what overlayfs shows of a converted layer, the layer
-- has had. An empty file that is made is a whiteout where the conversion succeeds.
use pakstak.Base.{
  ℕ, zero, suc, Text, ◌==◌, Result, ok, err, Bool, true, false, not, Bool-cases, Option-cases, some,
  inl, inr, List, [], ◌∷◌, ◌≡◌, refl, ap, sym, subst, ◌∙◌, arith,
}
use pakstak.Fs.Paths.{FilePath, push, resolve, path_dec}
use pakstak.Fs.Files.{Files, Node, lookup, put, node_is_dir}
use pakstak.Fs.FileLaws.{lookup-put, lookup-without}
use pakstak.Fs.Attributes.{
  xattr, with_xattr, set_xattr, set_xattr_at, set_xattr_at-cases, create_new, create_new_at,
  create_new_at_outside, has_nul,
}
use pakstak.Fs.World.{
  World, IoKind, not_found, invalid_input, set_mode_at, set_permissions, remove_file_at,
  remove_file, symlink_metadata, read_dir,
}
use pakstak.Storage.Action.{io, ◌>>◌, pure, do_io, io_caught, when, bind-eq-ok}
use pakstak.Storage.Triple.{operation-eq-ok}
use pakstak.Storage.Frames.{
  Any, Framing, Framing-run, IsPreorder, Framing-bind, Framing-pure, Framing-check, Framing-when,
  Framing-operation, Framing-symlink_metadata, Framing-io_caught,
}
use pakstak.Storage.Removal.{Framing-make_path_writable, Framing-read_dir}
use pakstak.Storage.Whiteouts.{
  opaque_marker, opaque_name, whiteout_name, yes_value, oci_whiteout_target_name, set_overlay_xattr,
  remove_oci_whiteout_marker, hide_target, convert_oci_whiteout_marker, push_directory,
  convert_target, convert_entry, convert_entries, has_opaque, convert_directory, convert_pending,
}
use pakstak.Storage.Hiding.{shows_own, is_whiteout, overlay_whiteout, is_yes}
use pakstak.Storage.HidingDirectory.{set_overlay_xattr-eq-ok, create_new-eq-ok}

-- Nothing is shown that was not.
pub record Own (fs fs' : Files) : Type 0 where
  pub at : (q : FilePath) → shows_own q fs' ≡ true → shows_own q fs ≡ true

Own-IsPreorder : IsPreorder Own
Own-IsPreorder = record {
  reflexive = λ fs. record { at = λ q h. h };
  transitive = λ fs gs hs h k. record { at = λ q x. h.at q (k.at q x) };
}

Same : (fs : Files) → Own fs fs
Same fs = Own-IsPreorder.reflexive fs

-- A node in the place of another one that is a whiteout where that was.
put-Own :
    (p : FilePath) (n m : Node) (fs : Files)
    → lookup p fs ≡ some n
    → (is_whiteout n ≡ true → is_whiteout m ≡ true)
    → Own fs (put p m fs)
unfolding shows_own
put-Own p n m fs at richer = record {
  at = λ q h. elim (path_dec p q) [
    | yes e ↦ elim (Bool-cases (is_whiteout n)) [
      | inl w ↦ ground (arith, lookup-put p q m fs, h, richer w)
      | inr w ↦ ground (arith, at, ap (λ y. lookup y fs) e, w)
    ]
    | no e ↦ ground (arith, lookup-put p q m fs, h)
  ];
}

with_xattr-is_whiteout :
    (key : Text) (n : Node) → is_whiteout n ≡ true → is_whiteout (with_xattr key yes_value n) ≡ true
unfolding xattr ◌==◌
with_xattr-is_whiteout key n h = elim (Bool-cases (overlay_whiteout == key)) [
  | inl e ↦ rw e (ground (arith, h))
  | inr e ↦ rw e h
]

set_xattr_at-Own :
    (p : FilePath) (key : Text) (fs : Files) → Own fs (set_xattr_at p key yes_value fs).1
set_xattr_at-Own p key fs = elim (set_xattr_at-cases p key yes_value fs) [
  | inl e ↦ rw e (Same fs)
  | inr (n, at, e) ↦
      rw e (put-Own p n (with_xattr key yes_value n) fs at (with_xattr-is_whiteout key n))
]

set_mode_at-Own : (p : FilePath) (mode : ℕ) (fs : Files) → Own fs (set_mode_at p mode fs).1
unfolding set_mode_at
set_mode_at-Own p mode fs = elim (Option-cases (lookup p fs)) [
  | inl e ↦ rw (e, set_mode_at) (Same fs)
  | inr (n, e) ↦ rw (e, set_mode_at) (put-Own p n (record n { mode = mode }) fs e (λ h. h))
]

remove_file_at-Own : (p : FilePath) (fs : Files) → Own fs (remove_file_at p fs).1
unfolding remove_file_at shows_own
remove_file_at-Own p fs = record { at = λ q h. ground (arith, lookup-without p q fs, h) }

Framing-set_overlay_xattr :
    (p : FilePath) (key : Text) → Framing Own Any (set_overlay_xattr p key yes_value)
unfolding set_overlay_xattr set_xattr
Framing-set_overlay_xattr p key =
    Framing-bind Own-IsPreorder _ _
      (Framing-check Own-IsPreorder (not (has_nul p)) (io invalid_input))
      λ _ _.
        Framing-operation Own-IsPreorder _ _ (set_xattr_at-Own (resolve p) key) (λ n fs. Same fs)

Framing-remove_oci_whiteout_marker : (p : FilePath) → Framing Own Any (remove_oci_whiteout_marker p)
unfolding remove_oci_whiteout_marker set_permissions remove_file
Framing-remove_oci_whiteout_marker p =
    Framing-bind Own-IsPreorder _ _ (Framing-symlink_metadata Own-IsPreorder p) λ n _.
      Framing-bind Own-IsPreorder _ _
        (Framing-make_path_writable Own-IsPreorder p n λ mode.
          Framing-operation Own-IsPreorder _ _ (set_mode_at-Own (resolve p) mode) (λ n fs. Same fs))
        λ _ _.
          Framing-operation Own-IsPreorder _ _ (remove_file_at-Own (resolve p)) (λ n fs. Same fs)

hidden_of :
    (p : FilePath) (n : Node) (fs : Files)
    → node_is_dir n ≡ false
    → lookup p fs ≡ some (with_xattr whiteout_name yes_value n)
    → shows_own p fs ≡ false
unfolding shows_own xattr ◌==◌
hidden_of p n fs d at =
    let white : is_yes (xattr overlay_whiteout (with_xattr whiteout_name yes_value n).xattrs)
        ≡ true =
      refl in
    ground (arith, at, d, white)

-- What is made in the place of a target is a whiteout.
whiteout_made :
    (p : FilePath) (w u v : World) (x y : Unit {0})
    → do_io (create_new p) w ≡ (ok x, u)
    → set_overlay_xattr p whiteout_name yes_value u ≡ (ok y, v)
    → Own w.files v.files
unfolding create_new shows_own
whiteout_made p w u v x y e f =
    let made = operation-eq-ok (create_new_at (resolve p)) (λ n fs. fs) w u x e in
    let empty = create_new-eq-ok p w u x e in
    let (n, there, now) = set_overlay_xattr-eq-ok p whiteout_name u v y f in
    let (kept, _) = Framing-run (Framing-set_overlay_xattr p whiteout_name) u v y f in
    let file : node_is_dir n ≡ false = ground (arith, empty, there) in
    record {
      at = λ q h. elim (path_dec (resolve p) q) [
        | yes s ↦
            let off : shows_own q v.files ≡ false =
              subst (λ r. shows_own r v.files ≡ false) s
                (hidden_of (resolve p) n v.files file now) in
            cc (off, h)
        | no s ↦
            let same : lookup q u.files ≡ lookup q w.files =
              ap (λ (o : Result IoKind (Unit {0}) × Files). lookup q o.1) (sym made)
              ∙ create_new_at_outside (resolve p) q w.files (λ z. s (sym z)) in
            ground (arith, kept.at q h, same)
      ];
    }

hide_target-Own :
    (p : FilePath) (found : Result IoKind Node) (w v : World) (x : Unit {0})
    → hide_target p found w ≡ (ok x, v)
    → Own w.files v.files
unfolding hide_target
hide_target-Own p (ok n) w v x h =
    (Framing-run
      (Framing-when Own-IsPreorder (node_is_dir n) _ (Framing-set_overlay_xattr p opaque_name)) w v
      x h).0
hide_target-Own p (err not_found) w v x h =
    let (y, u, e, f) =
      bind-eq-ok (do_io (create_new p)) (λ _. set_overlay_xattr p whiteout_name yes_value) w h in
    whiteout_made p w u v y x e f
hide_target-Own p (err z) w v x h = cc

convert_oci_whiteout_marker-Own :
    (marker target : FilePath) (w v : World) (x : Unit {0})
    → convert_oci_whiteout_marker marker target w ≡ (ok x, v)
    → Own w.files v.files
unfolding convert_oci_whiteout_marker
convert_oci_whiteout_marker-Own marker target w v x h =
    let (found, t, e, f) =
      bind-eq-ok (io_caught (symlink_metadata target))
        (λ r. hide_target target r >> remove_oci_whiteout_marker marker) w h in
    let (y, u, g, k) =
      bind-eq-ok (hide_target target found) (λ _. remove_oci_whiteout_marker marker) t f in
    let (looked, _) =
      Framing-run
        (Framing-io_caught (symlink_metadata target)
          (Framing-symlink_metadata Own-IsPreorder target))
        w t found e in
    let (gone, _) = Framing-run (Framing-remove_oci_whiteout_marker marker) u v x k in
    Own-IsPreorder.transitive w.files t.files v.files looked (
      Own-IsPreorder.transitive t.files u.files v.files (hide_target-Own target found t u y g) gone)

module _ (directory : FilePath) where
  convert_target-Own :
      (is_opaque : Bool) (name target : Text) (w v : World) (x : Unit {0})
      → convert_target directory is_opaque name target w ≡ (ok x, v)
      → Own w.files v.files
  unfolding convert_target
  convert_target-Own true name target w v x h =
      (Framing-run (Framing-remove_oci_whiteout_marker (push directory name)) w v x h).0
  convert_target-Own false name target w v x h =
      convert_oci_whiteout_marker-Own (push directory name) (push directory target) w v x h

  Framing-push_directory :
      (p : FilePath) (pending : List FilePath) → Framing Own Any (push_directory p pending)
  unfolding push_directory
  Framing-push_directory p pending =
      Framing-bind Own-IsPreorder _ _ (Framing-symlink_metadata Own-IsPreorder p)
        λ n _. Framing-pure Own-IsPreorder _ tt

  convert_entry-Own :
      (is_opaque : Bool) (name : Text) (pending pending' : List FilePath) (w v : World)
      → convert_entry directory is_opaque name pending w ≡ (ok pending', v)
      → Own w.files v.files
  unfolding convert_entry
  convert_entry-Own is_opaque name pending pending' w v h =
      elim (Bool-cases (name == opaque_marker)) [
        | inl e ↦
            (Framing-run {R = Any}
              (Framing-bind Own-IsPreorder _ _
                (Framing-remove_oci_whiteout_marker (push directory name))
                λ _ _. Framing-pure Own-IsPreorder pending tt)
              w v pending' (rw (e, convert_entry) at h)).0
        | inr e ↦ elim (Option-cases (oci_whiteout_target_name name)) [
          | inl f ↦
              (Framing-run (Framing-push_directory (push directory name) pending) w v pending'
                (rw (e, f, convert_entry) at h)).0
          | inr (target, f) ↦
              let run : (convert_target directory is_opaque name target >> pure pending) w
                  ≡ (ok pending', v) =
                rw (e, f, convert_entry) at h in
              let (x, u, g, k) =
                bind-eq-ok (convert_target directory is_opaque name target) (λ _. pure pending) w
                  run in
              let same : u ≡ v = ap (λ o. o.1) k in
              subst (λ (y : World). Own w.files y.files) same
                (convert_target-Own is_opaque name target w u x g)
        ]
      ]

  convert_entries-Own :
      (is_opaque : Bool) (names : List Text) (pending pending' : List FilePath) (w v : World)
      → convert_entries directory is_opaque names pending w ≡ (ok pending', v)
      → Own w.files v.files
  unfolding convert_entries
  convert_entries-Own is_opaque [] pending pending' w v h =
      let same : w ≡ v = ap (λ o. o.1) h in
      subst (λ (y : World). Own w.files y.files) same (Same w.files)
  convert_entries-Own is_opaque (c ∷ cs) pending pending' w v h =
      let (mid, u, e, f) =
        bind-eq-ok (convert_entry directory is_opaque c pending)
          (convert_entries directory is_opaque cs) w h in
      Own-IsPreorder.transitive w.files u.files v.files
        (convert_entry-Own is_opaque c pending mid w u e)
        (convert_entries-Own is_opaque cs mid pending' u v f)

  convert_directory-Own :
      (pending pending' : List FilePath) (w v : World)
      → convert_directory directory pending w ≡ (ok pending', v)
      → Own w.files v.files
  unfolding convert_directory
  convert_directory-Own pending pending' w v h =
      let (cs, u, e, f) = bind-eq-ok (do_io (read_dir directory)) _ w h in
      let (x, t, g, k) =
        bind-eq-ok (when (has_opaque cs) (set_overlay_xattr directory opaque_name yes_value)) _ u
          f in
      let (listed, _) = Framing-run (Framing-read_dir Own-IsPreorder directory) w u cs e in
      let (marked, _) =
        Framing-run
          (Framing-when Own-IsPreorder (has_opaque cs) _
            (Framing-set_overlay_xattr directory opaque_name))
          u t x g in
      Own-IsPreorder.transitive w.files u.files v.files listed (
        Own-IsPreorder.transitive u.files t.files v.files marked
          (convert_entries-Own (has_opaque cs) cs pending pending' t v k))

pub convert_pending-Own :
    (fuel : ℕ) (pending : List FilePath) (w v : World) (x : Unit {0})
    → convert_pending fuel pending w ≡ (ok x, v)
    → Own w.files v.files
unfolding convert_pending
convert_pending-Own fuel [] w v x h =
    let same : w ≡ v = ap (λ o. o.1) h in
    subst (λ (y : World). Own w.files y.files) same (Same w.files)
convert_pending-Own zero (p ∷ pending) w v x h = cc
convert_pending-Own (suc fuel) (p ∷ pending) w v x h =
    let (pending', u, e, f) = bind-eq-ok (convert_directory p pending) (convert_pending fuel) w h in
    Own-IsPreorder.transitive w.files u.files v.files
      (convert_directory-Own p pending pending' w u e) (convert_pending-Own fuel pending' u v x f)
